-- ===== src/Render/Lex/Stripped.antt =====
-- The whitespace control of a template's tags.
use sobs.Prelude.{
  ◌≡◌, refl, sym, ap, ap₂, ◌∙◌, Bool, true, false, not, ◌&&◌, List, [], ◌∷◌, arith, if◌then◌else◌,
}
use sobs.Text.{Text, trim_left, trim_right}
use sobs.Text.Laws.{trim_left_idem, trim_right_idem, trim_left-trim_right}
use sobs.Render.Lex.{
  Token, is_text, is_blank, apply_trim_from, apply_trim, strip_text, lex, scan, strips_next,
  strips_last,
}

-- The text behind a token starts with no blank, and the text before one ends in none, on the sides
-- that the token strips.
unfoldable pub IsStripped : List Token → Type 0
IsStripped [] = Unit
IsStripped (t ∷ []) = Unit
IsStripped (t ∷ u ∷ toks) =
    (is_text u.kind ≡ true → strips_next t ≡ true → trim_left is_blank u.text ≡ u.text)
    × (is_text t.kind ≡ true → strips_last (u ∷ toks) ≡ true → trim_right is_blank t.text ≡ t.text)
    × IsStripped (u ∷ toks)

-- The token that applyTrim makes of one.
abbrev trimmed : Bool → Token → List Token → Token
trimmed left t toks = if is_text t.kind then strip_text left (strips_last toks) t else t

trimmed-kind : (left : Bool) (t : Token) (toks : List Token) → (trimmed left t toks).kind ≡ t.kind
unfolding strip_text
trimmed-kind left t toks = ground arith

trimmed-strip_left :
    (left : Bool) (t : Token) (toks : List Token) → (trimmed left t toks).strip_left ≡ t.strip_left
unfolding strip_text
trimmed-strip_left left t toks = ground arith

trimmed-strip_right :
    (left : Bool) (t : Token) (toks : List Token)
    → (trimmed left t toks).strip_right ≡ t.strip_right
unfolding strip_text
trimmed-strip_right left t toks = ground arith

trimmed-left :
    (left : Bool) (t : Token) (toks : List Token)
    → is_text t.kind ≡ true
    → left ≡ true
    → trim_left is_blank (trimmed left t toks).text ≡ (trimmed left t toks).text
unfolding strip_text
trimmed-left left t toks h h' = ground (
  arith,
  trim_left_idem is_blank t.text,
  trim_left-trim_right is_blank (trim_left is_blank t.text),
)

trimmed-right :
    (left : Bool) (t : Token) (toks : List Token)
    → is_text t.kind ≡ true
    → strips_last toks ≡ true
    → trim_right is_blank (trimmed left t toks).text ≡ (trimmed left t toks).text
unfolding strip_text
trimmed-right left t toks h h' =
    ground
      (arith, trim_right_idem is_blank t.text, trim_right_idem is_blank (trim_left is_blank t.text))

strips_last-apply_trim :
    (left : Bool) (toks : List Token) → strips_last (apply_trim_from left toks) ≡ strips_last toks
unfolding apply_trim_from
strips_last-apply_trim left [] = refl
strips_last-apply_trim left (t ∷ toks) =
    ap₂ (λ k b. not (is_text k) && b) (trimmed-kind left t toks) (trimmed-strip_left left t toks)

apply_trim_from-cons :
    (left : Bool) (t : Token) (toks : List Token)
    → IsStripped (apply_trim_from (strips_next t) toks)
    → IsStripped (apply_trim_from left (t ∷ toks))
unfolding apply_trim_from IsStripped
apply_trim_from-cons left t [] r = tt
apply_trim_from-cons left t (u ∷ toks) r = (
  λ h h'.
      trimmed-left (strips_next t) u toks
        (ap is_text (sym (trimmed-kind (strips_next t) u toks)) ∙ h)
        (ap₂ (λ k b. not (is_text k) && b) (sym (trimmed-kind left t (u ∷ toks)))
            (sym (trimmed-strip_right left t (u ∷ toks)))
          ∙ h'),
  λ h h'.
      trimmed-right left t (u ∷ toks) (ap is_text (sym (trimmed-kind left t (u ∷ toks))) ∙ h)
        (sym (strips_last-apply_trim (strips_next t) (u ∷ toks)) ∙ h'),
  r,
)

apply_trim_from-IsStripped :
    (left : Bool) (toks : List Token) → IsStripped (apply_trim_from left toks)
unfolding apply_trim_from IsStripped
apply_trim_from-IsStripped left [] = tt
apply_trim_from-IsStripped left (t ∷ toks) =
    apply_trim_from-cons left t toks (apply_trim_from-IsStripped (strips_next t) toks)

-- Of every template, the text that stands next to a token with a dash on that side begins, or ends,
-- with none of the four blanks that applyTrim strips.
pub lex-IsStripped : (src : Text) → IsStripped (lex src)
unfolding lex apply_trim
lex-IsStripped src = apply_trim_from-IsStripped false (scan [] 0 src)
