-- ===== src/Text/Utf8.antt =====
-- The runes of a Go string, as a `range` loop reads them, and the bytes that WriteRune writes.
use sobs.Prelude.{
  ℕ, zero, suc, ◌+◌, ◌*◌, ◌/◌, ◌%◌, Bool, ◌&&◌, List, [], ◌∷◌, ltb, leb, ◌==◌, if◌then◌else◌,
  from_option, get_elem?,
}
use sobs.Text.{Text}

unfoldable pub between : ℕ → ℕ → ℕ → Bool
between lo hi c = leb lo c && leb c hi

-- The byte at a place, 0 behind the end: no byte of a longer rune is 0.
unfoldable pub byte_at : Text → ℕ → ℕ
byte_at s n = from_option 0 (get_elem? s n)

unfoldable pub is_continuation : ℕ → Bool
is_continuation c = between 0x80 0xbf c

-- The range of the second byte of a rune of three or four bytes, by its first byte.
unfoldable pub second_ok : ℕ → ℕ → Bool
second_ok a c =
    if a == 0xe0
    then between 0xa0 0xbf c
    else if a == 0xed
    then between 0x80 0x9f c
    else if a == 0xf0
    then between 0x90 0xbf c
    else if a == 0xf4
    then between 0x80 0x8f c
    else is_continuation c

-- The rune that a byte begins, and how many of the bytes behind it belong to it; a byte that begins
-- none reads as U+FFFD.
unfoldable pub rune_at : ℕ → Text → ℕ × ℕ
unfolding between byte_at second_ok is_continuation
rune_at a s =
    if ltb a 0x80
    then (a, 0)
    else if between 0xc2 0xdf a && is_continuation (byte_at s 0)
    then ((a % 32) * 64 + byte_at s 0 % 64, 1)
    else if between 0xe0 0xef a && (second_ok a (byte_at s 0) && is_continuation (byte_at s 1))
    then (((a % 16) * 64 + byte_at s 0 % 64) * 64 + byte_at s 1 % 64, 2)
    else if between 0xf0 0xf4 a
        && (second_ok a (byte_at s 0)
            && (is_continuation (byte_at s 1) && is_continuation (byte_at s 2)))
    then ((((a % 8) * 64 + byte_at s 0 % 64) * 64 + byte_at s 1 % 64) * 64 + byte_at s 2 % 64, 3)
    else (0xfffd, 0)

-- The bytes to pass over come first.
unfoldable pub runes_from : ℕ → Text → List ℕ
unfolding rune_at
runes_from skip [] = []
runes_from (suc skip) (a ∷ s) = runes_from skip s
runes_from zero (a ∷ s) = let (r, skip) = rune_at a s in r ∷ runes_from skip s

unfoldable pub runes : Text → List ℕ
unfolding runes_from
runes s = runes_from 0 s

-- strings.Builder.WriteRune of a rune that is a code point
unfoldable pub encode_rune : ℕ → Text
encode_rune r =
    if ltb r 0x80
    then r ∷ []
    else if ltb r 0x800
    then (0xc0 + r / 64) ∷ (0x80 + r % 64) ∷ []
    else if ltb r 0x10000
    then (0xe0 + r / 4096) ∷ (0x80 + (r / 64) % 64) ∷ (0x80 + r % 64) ∷ []
    else (0xf0 + r / 262144)
      ∷ (0x80 + (r / 4096) % 64)
      ∷ (0x80 + (r / 64) % 64)
      ∷ (0x80 + r % 64)
      ∷ []
