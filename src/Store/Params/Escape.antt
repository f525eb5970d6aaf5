-- ===== src/Store/Params/Escape.antt =====
-- An escaped text inside single quotes is read back whole.
use sobs.Prelude.{
  ◌≢◌, ℕ, ◌≡◌, refl, Bool, false, Option, none, some, [], ◌∷◌, ◌++◌, arith, ◌==◌, if◌then◌else◌,
  append_assoc,
}
use sobs.Text.{Text}
use sobs.Store.Params.{escape_byte, ch_escape, quote_literal, FloatFormat, str}

abbrev after_byte : ℕ → Option (Text × Text) → Option (Text × Text)
after_byte c none = none
after_byte c (some (body, rest)) = some (c ∷ body, rest)

-- Where the reading of a literal stands: at a byte of it, behind a backslash, or behind a quote that
-- either closes it or is the first of two.
pub data Mode : Type 0 where
  at_byte behind_backslash behind_quote : Mode

-- The specification of how a literal is read behind its opening quote: a backslash makes the next byte
-- plain, two quotes are one, and a quote with no other behind it closes. The result is the text and
-- what follows the closing quote.
unfoldable pub read_body : Mode → Text → Option (Text × Text)
read_body behind_quote [] = some ([], [])
read_body behind_quote (c ∷ s) =
    let doubled = after_byte b'\'' (read_body at_byte s) in
    if c == b'\'' then doubled else some ([], c ∷ s)
read_body at_byte [] = none
read_body behind_backslash [] = none
read_body behind_backslash (c ∷ s) = after_byte c (read_body at_byte s)
read_body at_byte (c ∷ s) =
    let plain = read_body behind_backslash s in
    let ends = read_body behind_quote s in
    let next = after_byte c (read_body at_byte s) in
    if c == 92 then plain else if c == b'\'' then ends else next

-- Whether a text begins with a quote.
unfoldable pub starts_with_quote : Text → Bool
starts_with_quote [] = false
starts_with_quote (c ∷ _) = c == b'\''

-- The specification of reading a literal from its opening quote on.
abbrev pub read_literal : Text → Option (Text × Text)
read_literal [] = none
read_literal (c ∷ s) = if c == b'\'' then read_body at_byte s else none

read_body-rest :
    (rest : Text) → starts_with_quote rest ≡ false → read_body behind_quote rest ≡ some ([], rest)
unfolding read_body starts_with_quote
read_body-rest [] h = refl
read_body-rest (c ∷ rest) h = ground arith

read_body-backslash :
    (c : ℕ) (s : Text) → read_body at_byte (92 ∷ c ∷ s) ≡ after_byte c (read_body at_byte s)
unfolding read_body
read_body-backslash c s = refl

read_body-plain :
    (c : ℕ) (s : Text)
    → c ≢ 92
    → c ≢ b'\''
    → read_body at_byte (c ∷ s) ≡ after_byte c (read_body at_byte s)
unfolding read_body
read_body-plain c s h h' = ground arith

read_body-escape_byte :
    (c : ℕ) (s body rest : Text)
    → read_body at_byte s ≡ some (body, rest)
    → read_body at_byte (escape_byte c ++ s) ≡ some (c ∷ body, rest)
unfolding escape_byte
read_body-escape_byte c s body rest h = ground (arith, read_body-plain c s, read_body-backslash c s)

read_body-ch_escape :
    (s rest : Text)
    → starts_with_quote rest ≡ false
    → read_body at_byte (ch_escape s ++ b'\'' ∷ rest) ≡ some (s, rest)
unfolding read_body ch_escape
read_body-ch_escape [] rest h = read_body-rest rest h
read_body-ch_escape (c ∷ s) rest h =
    rw (append_assoc (escape_byte c) (ch_escape s) (b'\'' ∷ rest))
      (read_body-escape_byte c (ch_escape s ++ b'\'' ∷ rest) s rest (read_body-ch_escape s rest h))

-- A text parameter is written as one literal that reads back as exactly that text, whatever bytes it
-- holds, with a backslash making the next byte plain and two quotes read as one, provided that what
-- follows the literal does not begin with a quote; and that is what follows the closing quote.
pub read_literal-quote_literal :
    {F : Type 0} (fmt : FloatFormat F) (s rest : Text)
    → starts_with_quote rest ≡ false
    → read_literal (quote_literal fmt (str s) ++ rest) ≡ some (s, rest)
unfolding quote_literal
read_literal-quote_literal fmt s rest h = rw append_assoc (read_body-ch_escape s rest h)
