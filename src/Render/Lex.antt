-- ===== src/Render/Lex.antt =====
-- go/internal/render/lex.go: a template's tokens, and the whitespace control of its tags.
pub mod Print
pub mod Payload
pub mod Stripped
pub mod RoundTrip
use sobs.Prelude.{
  ℕ, zero, suc, ◌+◌, ◌-◌, ◌*◌, ◌/◌, ◌%◌, ◌≤◌, ◌<◌, ◌≡◌, refl, sym, ap, ap₂, ◌∙◌, subst, ◌≢◌, ◌↔◌,
  ◌⊎◌, inl, inr, Bool, true, false, not, ◌&&◌, ◌||◌, false≢true, Option, none, some, List, [], ◌∷◌,
  ◌++◌, map, append_assoc, append-nil, arith, ltb, leb, ◌==◌, if◌then◌else◌, ltb→lt, ==_iff,
  Bool-cases, Option-cases, is_some, from_option, length, get_elem?, take, drop, is_nil, keep_if,
  all_of, All, length-append, length-take, take-append-drop,
}
use sobs.Text.{
  Text, lit, text_eq, cut_prefix, has_prefix, cut_suffix, has_suffix, trim_left, trim_right, trim,
  is_space, trim_space, lower_byte, to_lower, to_upper, index, contains, split, join, before_byte,
  after_byte, before_last_byte, member, decimal, itoa, split_on,
}

pub data TokKind : Type 0 where
  tok_text : TokKind
  tok_output : TokKind
  tok_tag : TokKind
  tok_comment : TokKind

abbrev pub is_text : TokKind → Bool
is_text tok_text = true
is_text tok_output = false
is_text tok_tag = false
is_text tok_comment = false

-- The fields trimLeft and trimRight are `strip_left` and `strip_right`.
pub record Token : Type 0 where
  pub kind : TokKind
  pub text : Text
  pub strip_left : Bool
  pub strip_right : Bool

abbrev pub text_token : Text → Token
text_token s = record { kind = tok_text; text = s; strip_left = false; strip_right = false }

-- The kind that the byte behind a `{` opens.
unfoldable pub open_kind : ℕ → Option TokKind
open_kind c =
    if c == b'{'
    then some tok_output
    else if c == b'%'
    then some tok_tag
    else if c == b'#'
    then some tok_comment
    else none

-- What is opened at the front of a text: `{` and one of the three bytes.
unfoldable pub opening : Text → Option TokKind
unfolding open_kind
opening [] = none
opening (c ∷ []) = none
opening (c ∷ d ∷ s) = if c == b'{' then open_kind d else none

-- The first of the two bytes that close a token; the other is `}`. A text is never closed.
abbrev pub close_byte : TokKind → ℕ
close_byte tok_text = b'}'
close_byte tok_output = b'}'
close_byte tok_tag = b'%'
close_byte tok_comment = b'#'

abbrev pub close_str : TokKind → Text
close_str k = close_byte k ∷ b'}' ∷ []

abbrev pub is_dash : ℕ → Bool
is_dash c = c == b'-'

-- The token with the given text between its marks.
unfoldable pub inner_token : TokKind → Text → Token
inner_token k inner = record {
  kind = k;
  text = trim_space (trim is_dash inner);
  strip_left = has_prefix inner (lit "-");
  strip_right = has_suffix inner (lit "-");
}

unfoldable pub flush_text : Text → List Token → List Token
flush_text s toks = if is_nil s then toks else text_token s ∷ toks

-- The loop of lex, before applyTrim. The first argument is src[textStart:i]; the second counts the
-- bytes that `i` has yet to pass over.
unfoldable pub scan : Text → ℕ → Text → List Token
unfolding opening index inner_token flush_text
scan pending skip [] = flush_text pending []
scan pending (suc skip) (c ∷ s) = scan pending skip s
scan pending zero (c ∷ s) = elim (opening (c ∷ s)) [
  | none ↦ scan (pending ++ (c ∷ [])) 0 s
  | some k ↦ elim (index (drop 1 s) (close_str k)) [
    | none ↦ flush_text pending (text_token (c ∷ s) ∷ [])
    | some j ↦ flush_text pending (inner_token k (take j (drop 1 s)) ∷ scan [] (j + 3) s)
  ]
]

abbrev pub is_blank : ℕ → Bool
is_blank c = c == 32 || c == 9 || c == 13 || c == 10

-- What the tokens on both sides of a text make of it: the one on the left is the first argument, the
-- one on the right the second.
abbrev pub strips_next : Token → Bool
strips_next t = not (is_text (t.kind)) && t.strip_right

abbrev pub strips_last : List Token → Bool
strips_last [] = false
strips_last (t ∷ toks) = not (is_text (t.kind)) && t.strip_left

unfoldable pub strip_text : Bool → Bool → Token → Token
strip_text left right t =
    let s = if left then trim_left is_blank (t.text) else t.text in
    record {
      kind = t.kind;
      text = if right then trim_right is_blank s else s;
      strip_left = t.strip_left;
      strip_right = t.strip_right;
    }

-- The loop of applyTrim; the Boolean says whether the token before strips the text behind it.
unfoldable pub apply_trim_from : Bool → List Token → List Token
unfolding strip_text
apply_trim_from left [] = []
apply_trim_from left (t ∷ toks) =
    (if is_text (t.kind) then strip_text left (strips_last toks) t else t)
    ∷ apply_trim_from (strips_next t) toks

unfoldable pub apply_trim : List Token → List Token
unfolding apply_trim_from
apply_trim toks = apply_trim_from false toks

unfoldable pub lex : Text → List Token
unfolding scan apply_trim
lex src = apply_trim (scan [] 0 src)
