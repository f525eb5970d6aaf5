-- ===== src/Render/Lex/Print.antt =====
-- A template written from its pieces: plain texts, and marks with a blank on both sides of their text.
use sobs.Prelude.{ℕ, ◌≡◌, Bool, true, false, not, ◌&&◌, List, [], ◌∷◌, ◌++◌, ◌==◌, is_some, is_nil}
use sobs.Text.{Text, trim_space}
use sobs.Render.Lex.{
  text_token, close_byte, Token, tok_tag, tok_output, tok_comment, TokKind, opening,
}

pub data Mark : Type 0 where
  output : Mark
  tag : Mark
  comment : Mark

abbrev pub kind_of : Mark → TokKind
kind_of output = tok_output
kind_of tag = tok_tag
kind_of comment = tok_comment

abbrev pub open_byte : Mark → ℕ
open_byte output = b'{'
open_byte tag = b'%'
open_byte comment = b'#'

pub data Piece : Type 0 where
  words : Text → Piece
  marked : Mark → Bool → Text → Bool → Piece

abbrev pub dash : Bool → Text
dash true = b'-' ∷ []
dash false = []

abbrev pub payload : Bool → Text → Bool → Text
payload l s r = dash l ++ (32 ∷ (s ++ (32 ∷ dash r)))

unfoldable pub print_piece : Piece → Text → Text
print_piece (words s) rest = s ++ rest
print_piece (marked m l s r) rest =
    b'{' ∷ open_byte m ∷ (payload l s r ++ (close_byte (kind_of m) ∷ b'}' ∷ rest))

unfoldable pub print : List Piece → Text
unfolding print_piece
print [] = []
print (x ∷ xs) = print_piece x (print xs)

unfoldable pub token_of : Piece → Token
token_of (words s) = text_token s
token_of (marked m l s r) = record { kind = kind_of m; text = s; strip_left = l; strip_right = r }

-- A text with no opening in it, that no byte behind it can complete to one.
unfoldable pub plain_text : Text → Bool
unfolding opening
plain_text [] = true
plain_text (c ∷ s) = not (is_some (opening (c ∷ s))) && not (is_nil s && c == b'{') && plain_text s

-- Two bytes do not stand side by side.
unfoldable pub free_of : ℕ → ℕ → Text → Bool
free_of a b [] = true
free_of a b (c ∷ []) = true
free_of a b (c ∷ d ∷ s) = not (c == a && d == b) && free_of a b (d ∷ s)

abbrev pub starts_words : List Piece → Bool
starts_words [] = false
starts_words (words s ∷ xs) = true
starts_words (marked m l s r ∷ xs) = false

-- A text is plain, not empty, and no text follows it; the text of a mark has no blanks at its ends and
-- does not hold the mark's end.
unfoldable pub IsPrintable : List Piece → Type 0
unfolding plain_text free_of
IsPrintable [] = Unit
IsPrintable (words s ∷ xs) =
    (plain_text s ≡ true) × (is_nil s ≡ false) × (starts_words xs ≡ false) × IsPrintable xs
IsPrintable (marked m l s r ∷ xs) =
    (trim_space s ≡ s) × (free_of (close_byte (kind_of m)) b'}' s ≡ true) × IsPrintable xs
