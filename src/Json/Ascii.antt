-- ===== src/Json/Ascii.antt =====
-- With ensure_ascii a string is written in the bytes from 0x20 to 0x7F.
use sobs.Prelude.{
  ℕ, zero, suc, ◌/◌, ◌%◌, ◌≤◌, ◌<◌, ◌≡◌, refl, Bool, true, false, ◌||◌, List, [], ◌∷◌, ◌++◌, arith,
  ltb, leb, ◌==◌, if◌then◌else◌, All,
}
use sobs.Text.{Text}
use sobs.Text.Utf8.{runes, encode_rune, runes_from, rune_at}
use sobs.Json.Encode.{
  hex_digit, unicode_escape, utf16_pair, escape_rune, escape_runes, encode_string,
}

IsPlain : ℕ → Type 0
IsPlain c = (0x20 ≤ c) × (c < 0x80)

All-append : (P : ℕ → Type 0) (xs ys : Text) → All P xs → All P ys → All P (xs ++ ys)
All-append P [] ys h h' = h'
All-append P (x ∷ xs) ys h h' = (h.0, All-append P xs ys h.1 h')

hex_digit-IsPlain : (d : ℕ) → d < 16 → IsPlain (hex_digit d)
unfolding hex_digit IsPlain
hex_digit-IsPlain d h = ground arith

unicode_escape-IsPlain : (r : ℕ) → r < 0x10000 → All IsPlain (unicode_escape r)
unfolding unicode_escape IsPlain
unicode_escape-IsPlain r h = (
  (omega arith, omega arith),
  (
    (omega arith, omega arith),
    (
      hex_digit-IsPlain (r / 4096) (omega arith),
      (
        hex_digit-IsPlain ((r / 256) % 16) (omega arith),
        (
          hex_digit-IsPlain ((r / 16) % 16) (omega arith),
          (hex_digit-IsPlain (r % 16) (omega arith), tt),
        ),
      ),
    ),
  ),
)

All-if :
    (t : Bool) (xs ys : Text)
    → (t ≡ true → All IsPlain xs)
    → (t ≡ false → All IsPlain ys)
    → All IsPlain (if t then xs else ys)
All-if true xs ys h h' = h refl
All-if false xs ys h h' = h' refl

short : (c : ℕ) → (0x20 ≤ c) → c < 0x80 → All IsPlain (92 ∷ c ∷ [])
unfolding IsPlain
short c lo hi = ((omega arith, omega arith), ((lo, hi), tt))

-- From the test of a control character on.
escape_rune_tail : ℕ → Text
escape_rune_tail r =
    if ltb r 0x20
    then unicode_escape r
    else if ltb r 0x80 || false
    then encode_rune r
    else if leb r 0xffff
    then unicode_escape r
    else unicode_escape (utf16_pair r).0 ++ unicode_escape (utf16_pair r).1

ascii_rune-IsPlain : (r : ℕ) → 0x20 ≤ r → r < 0x80 → All IsPlain (encode_rune r)
unfolding encode_rune IsPlain
ascii_rune-IsPlain r lo hi =
    All-if (ltb r 0x80) _ _ (λ e. ((lo, hi), tt)) (λ e. absurd (ground arith))

escape_rune_tail-IsPlain : (r : ℕ) → r < 0x200000 → All IsPlain (escape_rune_tail r)
unfolding escape_rune_tail IsPlain utf16_pair encode_rune
escape_rune_tail-IsPlain r h =
    All-if (ltb r 0x20) _ _ (λ e. unicode_escape-IsPlain r (ground arith))
      (λ e.
        All-if (ltb r 0x80 || false) _ _ (λ e'. ascii_rune-IsPlain r (ground arith) (ground arith))
          (λ e'.
            All-if (leb r 0xffff) _ _ (λ e''. unicode_escape-IsPlain r (ground arith))
              (λ e''.
                All-append IsPlain _ _ (unicode_escape-IsPlain _ (omega arith))
                  (unicode_escape-IsPlain _ (omega arith)))))

escape_rune-IsPlain : (r : ℕ) → r < 0x200000 → All IsPlain (escape_rune true r)
unfolding escape_rune escape_rune_tail
escape_rune-IsPlain r h =
    All-if (r == b'"') _ _ (λ e. short b'"' (omega arith) (omega arith))
      (λ e.
        All-if (r == 92) _ _ (λ e. short 92 (omega arith) (omega arith))
          (λ e.
            All-if (r == 10) _ _ (λ e. short b'n' (omega arith) (omega arith))
              (λ e.
                All-if (r == 13) _ _ (λ e. short b'r' (omega arith) (omega arith))
                  (λ e.
                    All-if (r == 9) _ _ (λ e. short b't' (omega arith) (omega arith))
                      (λ e.
                        All-if (r == 8) _ _ (λ e. short b'b' (omega arith) (omega arith))
                          (λ e.
                            All-if (r == 12) _ _ (λ e. short b'f' (omega arith) (omega arith))
                              (λ e. escape_rune_tail-IsPlain r h)))))))

escape_runes-IsPlain :
    (rs : List ℕ) → All (λ r. r < 0x200000) rs → All IsPlain (escape_runes true rs)
unfolding escape_runes
escape_runes-IsPlain [] h = tt
escape_runes-IsPlain (r ∷ rs) h =
    All-append IsPlain _ _ (escape_rune-IsPlain r h.0) (escape_runes-IsPlain rs h.1)

rune_at-bounded : (a : ℕ) (s : Text) → (rune_at a s).0 < 0x200000
unfolding rune_at
rune_at-bounded a s = ground arith

runes_from-bounded : (skip : ℕ) (s : Text) → All (λ r. r < 0x200000) (runes_from skip s)
unfolding runes_from
runes_from-bounded skip [] = tt
runes_from-bounded (suc skip) (a ∷ s) = runes_from-bounded skip s
runes_from-bounded zero (a ∷ s) = (rune_at-bounded a s, runes_from-bounded (rune_at a s).1 s)

-- With ensure_ascii, every byte of the literal of a string, whatever bytes the string holds, is one
-- from 0x20 to 0x7F; the last of these, DEL, is among them, since it is written as it is.
pub encode_string-IsPlain : (s : Text) → All (λ c. (0x20 ≤ c) × (c < 0x80)) (encode_string true s)
unfolding encode_string runes IsPlain
encode_string-IsPlain s = (
  (omega arith, omega arith),
  All-append IsPlain _ _ (escape_runes-IsPlain (runes s) (runes_from-bounded 0 s))
      ((omega arith, omega arith), tt),
)
