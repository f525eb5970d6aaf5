-- ===== src/Render/Parse/Steps.antt =====
-- The steps of the parser on tokens that the grammar names.
use sobs.Prelude.{
  ℕ, suc, ◌≡◌, refl, sym, ap, ◌∙◌, inl, inr, Bool, true, false, not, ◌&&◌, false≢true, Option, some,
  List, [], ◌∷◌, ◌++◌, arith, ◌==◌, Bool-cases, Option-cases, is_some, all_of,
}
use sobs.Text.{
  Text, lit, text_eq, cut_prefix, has_prefix, trim_left, trim_right, trim, is_space, trim_space,
  member,
}
use sobs.Render.Lex.{Token, tok_text, tok_output, tok_tag, tok_comment}
use sobs.Render.Words.{until_blank, first_word}
use sobs.Render.Parse.{
  Node, no_nodes, text_node, output_node, comment_node, Parser, Found, done, advance,
}
use sobs.Render.Parse.Run.{parse_tag, parse_until, before}
use sobs.Render.Parse.Grammar.{Shape, plain, enclosing, looping, choosing, misplaced, shape}
use sobs.Text.Laws.{text_eq_iff, cut_prefix-eq-some}

-- An end tag's keyword begins with `e` and is not `extends`.
abbrev pub end_like : Text → Bool
end_like [] = false
end_like (c ∷ s) = c == b'e' && not (text_eq (c ∷ s) (lit "extends"))

-- The text of a tag that starts with `call(` has a first word that starts with `c`.
trim_right-cons :
    (c : ℕ) (s : Text)
    → is_space c ≡ false
    → trim_right is_space (c ∷ s) ≡ c ∷ trim_right is_space s
unfolding trim_right
trim_right-cons c s h = ground arith

first_word-call : (s : Text) → (r : Text) × (first_word (b'c' ∷ s) ≡ b'c' ∷ r)
unfolding first_word trim_space trim trim_left is_space until_blank
first_word-call s =
    (until_blank (trim_right is_space s), ap until_blank (trim_right-cons b'c' s refl))

shape-misplaced :
    (kw text : Text)
    → end_like kw ≡ true
    → has_prefix text (lit "call(") ≡ false
    → shape kw text ≡ misplaced
unfolding shape text_eq lit
shape-misplaced [] text h h' = absurd (false≢true h)
shape-misplaced (c ∷ s) text h h' = ground arith

not_call : (text : Text) → end_like (first_word text) ≡ true → has_prefix text (lit "call(") ≡ false
unfolding has_prefix lit
not_call text h = elim (Option-cases (cut_prefix text (lit "call("))) [
  | inl e ↦ ap is_some e
  | inr (r, e) ↦
      let eq = cut_prefix-eq-some text (lit "call(") r e in
      let w = first_word-call (lit "all(" ++ r) in
      absurd
        ((false≢true (sym (ap end_like w.1) ∙ (sym (ap (λ u. end_like (first_word u)) eq) ∙ h))))
]

shape-end_like :
    (text : Text) → end_like (first_word text) ≡ true → shape (first_word text) text ≡ misplaced
shape-end_like text h = shape-misplaced (first_word text) text h (not_call text h)

member-end_like :
    (s : Text) (stops : List Text)
    → all_of end_like stops ≡ true
    → member s stops ≡ true
    → end_like s ≡ true
unfolding all_of member
member-end_like s [] h h' = absurd (false≢true h')
member-end_like s (x ∷ xs) h h' = elim (Bool-cases (text_eq s x)) [
  | inl e ↦ rw ((text_eq_iff s x).0 e) (ground (arith, h))
  | inr e ↦ member-end_like s xs (ground (arith, h)) (ground (arith, h', e))
]

abbrev pub placed : Shape → Bool
placed (plain n find) = true
placed (enclosing stop finish find) = true
placed (looping vars iter) = true
placed (choosing cond) = true
placed misplaced = false

-- A tag that the grammar places is not one of the end tags.
pub not_stop :
    (text : Text) (stops : List Text)
    → all_of end_like stops ≡ true
    → placed (shape (first_word text) text) ≡ true
    → member (first_word text) stops ≡ false
not_stop text stops h hs = elim (Bool-cases (member (first_word text) stops)) [
  | inl e ↦ absurd (
      false≢true
        (sym (ap placed (shape-end_like text (member-end_like (first_word text) stops h e))) ∙ hs))
  | inr e ↦ e
]

abbrev pub state : List Token → Found → Parser
state toks d = record { toks = toks; found = d }

module _ (f : ℕ) (stops : List Text) (t : Token) (toks : List Token) (d : Found) where
  pub parse_until-text :
      t.kind ≡ tok_text
      → parse_until (suc f) stops (state (t ∷ toks) d)
        ≡ before (some (text_node t.text)) (parse_until f stops (state toks d))
  unfolding parse_until before advance
  parse_until-text h = rw h refl

  pub parse_until-comment :
      t.kind ≡ tok_comment
      → parse_until (suc f) stops (state (t ∷ toks) d)
        ≡ before (some comment_node) (parse_until f stops (state toks d))
  unfolding parse_until before advance
  parse_until-comment h = rw h refl

  pub parse_until-output :
      t.kind ≡ tok_output
      → parse_until (suc f) stops (state (t ∷ toks) d)
        ≡ before (some (output_node t.text)) (parse_until f stops (state toks d))
  unfolding parse_until before advance
  parse_until-output h = rw h refl

  pub parse_until-stop :
      t.kind ≡ tok_tag
      → member (first_word t.text) stops ≡ true
      → parse_until (suc f) stops (state (t ∷ toks) d) ≡ done (no_nodes, state (t ∷ toks) d)
  unfolding parse_until
  parse_until-stop h h' = simp (h, h')

  pub parse_until-tag :
      t.kind ≡ tok_tag
      → member (first_word t.text) stops ≡ false
      → (n : Option Node) (q : Parser)
      → parse_tag (parse_until f) t.text (first_word t.text) (state (t ∷ toks) d) ≡ done (n, q)
      → parse_until (suc f) stops (state (t ∷ toks) d) ≡ before n (parse_until f stops q)
  unfolding parse_until
  parse_until-tag h h' n q e = rw h (rw h' (rw e refl))
