-- ===== src/Render/Lex/RoundTrip.antt =====
-- Lexing a written template gives its pieces back.
use sobs.Prelude.{
  ℕ, ◌+◌, ◌≡◌, refl, sym, ap, ap₂, ◌∙◌, ◌≢◌, Bool, true, false, false≢true, none, some, List, [],
  ◌∷◌, ◌++◌, map, append_assoc, append-nil, arith, length, take, drop, is_nil, length-append,
}
use sobs.Text.{Text, lit, trim_space, index}
use sobs.Render.Lex.{
  close_str, Token, TokKind, scan, flush_text, inner_token, close_byte, opening, open_kind, lex,
  apply_trim, text_token,
}
use sobs.Render.Lex.Print.{
  Piece, words, marked, Mark, output, tag, comment, print, print_piece, token_of, IsPrintable,
  plain_text, free_of, payload, kind_of, open_byte, starts_words,
}
use sobs.Render.Lex.Payload.{
  index-close, free_of-payload, trim-payload, trim_space-padded, has_prefix-payload,
  has_suffix-payload,
}

scan-skip : (pending x rest : Text) → scan pending (length x) (x ++ rest) ≡ scan pending 0 rest
unfolding scan
scan-skip pending [] rest = refl
scan-skip pending (c ∷ x) rest = scan-skip pending x rest

scan-step :
    (pending : Text) (c : ℕ) (s : Text)
    → opening (c ∷ s) ≡ none
    → scan pending 0 (c ∷ s) ≡ scan (pending ++ (c ∷ [])) 0 s
unfolding scan
scan-step pending c s h = rw (scan, h) refl

scan-mark :
    (pending : Text) (c : ℕ) (s : Text) (k : TokKind) (j : ℕ)
    → opening (c ∷ s) ≡ some k
    → index (drop 1 s) (close_str k) ≡ some j
    → scan pending 0 (c ∷ s)
      ≡ flush_text pending (inner_token k (take j (drop 1 s)) ∷ scan [] (j + 3) s)
unfolding scan
scan-mark pending c s k j h h' = rw (scan, h) (rw (scan, h') refl)

opening-append :
    (c : ℕ) (s rest : Text) → plain_text (c ∷ s) ≡ true → opening (c ∷ (s ++ rest)) ≡ none
unfolding plain_text opening
opening-append c [] [] h = refl
opening-append c [] (d ∷ rest) h = ground arith
opening-append c (d ∷ s) rest h = ground arith

plain_text-tail : (c : ℕ) (s : Text) → plain_text (c ∷ s) ≡ true → plain_text s ≡ true
unfolding plain_text
plain_text-tail c s h = ground arith

scan-plain :
    (s pending rest : Text)
    → plain_text s ≡ true
    → scan pending 0 (s ++ rest) ≡ scan (pending ++ s) 0 rest
scan-plain [] pending rest h = ap (λ t. scan t 0 rest) (sym (append-nil pending))
scan-plain (d ∷ s) pending rest h =
    scan-step pending d (s ++ rest) (opening-append d s rest h)
    ∙ scan-plain s (pending ++ (d ∷ [])) rest (plain_text-tail d s h)
    ∙ ap (λ t. scan t 0 rest) (append_assoc pending (d ∷ []) s)

close_byte-apart : (m : Mark) → (close_byte (kind_of m) ≢ 32) × (close_byte (kind_of m) ≢ 45)
close_byte-apart output = (omega arith, omega arith)
close_byte-apart tag = (omega arith, omega arith)
close_byte-apart comment = (omega arith, omega arith)

inner_token-payload :
    (m : Mark) (l : Bool) (s : Text) (r : Bool)
    → trim_space s ≡ s
    → inner_token (kind_of m) (payload l s r) ≡ token_of (marked m l s r)
unfolding inner_token token_of lit
inner_token-payload m l s r h = rw (trim-payload l s r) (
    rw (trim_space-padded s)
      (rw h (rw (has_prefix-payload l s r) (rw (has_suffix-payload l s r) refl))))

take-append : (x y : Text) → take (length x) (x ++ y) ≡ x
take-append [] y = refl
take-append (c ∷ x) y = ap (λ t. c ∷ t) (take-append x y)

opening-mark : (m : Mark) (s : Text) → opening (b'{' ∷ open_byte m ∷ s) ≡ some (kind_of m)
unfolding opening open_kind
opening-mark output s = refl
opening-mark tag s = refl
opening-mark comment s = refl

scan-after :
    (o c : ℕ) (x rest : Text)
    → scan [] (length x + 3) (o ∷ (x ++ (c ∷ b'}' ∷ rest))) ≡ scan [] 0 rest
scan-after o c x rest =
    ap₂ (λ n t. scan [] n t) (omega (arith, length-append x (c ∷ b'}' ∷ [])))
      (ap (λ t. o ∷ t) (sym (append_assoc x (c ∷ b'}' ∷ []) rest)))
    ∙ scan-skip [] (o ∷ (x ++ (c ∷ b'}' ∷ []))) rest

scan-marked :
    (pending : Text) (m : Mark) (l : Bool) (s : Text) (r : Bool) (rest : Text)
    → trim_space s ≡ s
    → free_of (close_byte (kind_of m)) b'}' s ≡ true
    → scan pending 0 (print_piece (marked m l s r) rest)
      ≡ flush_text pending (token_of (marked m l s r) ∷ scan [] 0 rest)
unfolding print_piece
scan-marked pending m l s r rest h h' =
    scan-mark pending b'{' _ (kind_of m) (length (payload l s r)) (opening-mark m _) (
      index-close (close_byte (kind_of m)) b'}' (payload l s r) rest
        (free_of-payload _ l s r (close_byte-apart m).0 (close_byte-apart m).1 h'))
    ∙ ap₂ (λ t toks. flush_text pending (t ∷ toks))
        (ap (inner_token (kind_of m)) (take-append (payload l s r) _)
          ∙ inner_token-payload m l s r h)
        (scan-after (open_byte m) (close_byte (kind_of m)) (payload l s r) rest)

scan-nil : (pending : Text) → scan pending 0 [] ≡ flush_text pending []
unfolding scan
scan-nil pending = refl

flush-words :
    (s pending : Text) (toks : List Token)
    → is_nil s ≡ false
    → pending ≡ []
    → flush_text (pending ++ s) toks ≡ flush_text pending (text_token s ∷ toks)
unfolding flush_text
flush-words s pending toks h e = rw e (rw h refl)

scan-print :
    (xs : List Piece) (pending : Text)
    → IsPrintable xs
    → (starts_words xs ≡ true → pending ≡ [])
    → scan pending 0 (print xs) ≡ flush_text pending (map token_of xs)
unfolding print print_piece IsPrintable token_of flush_text
scan-print [] pending h h' = scan-nil pending
scan-print (words s ∷ xs) pending h h' =
    scan-plain s pending (print xs) h.0
    ∙ scan-print xs (pending ++ s) h.3 (λ e. absurd (false≢true (sym h.2 ∙ e)))
    ∙ flush-words s pending (map token_of xs) h.1 (h' refl)
scan-print (marked m l s r ∷ xs) pending h h' =
    scan-marked pending m l s r (print xs) h.0 h.1
    ∙ ap (λ toks. flush_text pending (token_of (marked m l s r) ∷ toks))
        (scan-print xs [] h.2 (λ e. refl))

-- Lexing a template that is written from its pieces gives back the token of each piece, with the blanks
-- of texts stripped where a dash asks for it, when the pieces are printable: a text is not empty, holds
-- no opening, does not end in `{` and is not followed by another text; the text of a mark has no spaces
-- at its ends and does not hold the mark's end.
pub lex-print : (xs : List Piece) → IsPrintable xs → lex (print xs) ≡ apply_trim (map token_of xs)
unfolding lex
lex-print xs h = ap apply_trim (scan-print xs [] h (λ e. refl))
