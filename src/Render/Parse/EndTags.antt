-- ===== src/Render/Parse/EndTags.antt =====
-- The end tags that the grammar asks for.
use sobs.Prelude.{
  ◌≡◌, refl, sym, ap, ◌∙◌, Bool, true, false, ◌||◌, Option, none, some, [], ◌∷◌, if◌then◌else◌,
  all_of,
}
use sobs.Text.{Text, lit, text_eq, has_prefix, index, member}
use sobs.Render.Lex.{Token}
use sobs.Render.Words.{argument, first_word, top_level_assign}
use sobs.Render.Parse.{Node, Nodes, Found}
use sobs.Render.Parse.Tags.{for_head, macro_head}
use sobs.Render.Parse.Grammar.{
  Shape, plain, enclosing, looping, choosing, misplaced, shape, set_shape, from_shape, macro_shape,
  for_shape,
}
use sobs.Text.Laws.{text_eq_refl}
use sobs.Render.Parse.Steps.{end_like}

-- The end tag that a shape asks for is like an end tag.
abbrev stop_ok : Shape → Bool
stop_ok (plain n find) = true
stop_ok (enclosing stop finish find) = end_like stop
stop_ok (looping vars iter) = true
stop_ok (choosing cond) = true
stop_ok misplaced = true

stop_ok-if :
    (b : Bool) (s s' : Shape)
    → stop_ok s ≡ true
    → stop_ok s' ≡ true
    → stop_ok (if b then s else s') ≡ true
stop_ok-if true s s' h h' = h
stop_ok-if false s s' h h' = h'

stop_ok-option :
    {X : Type 0} (x : Option X) (s : Shape) (ks : X → Shape)
    → stop_ok s ≡ true
    → ((a : X) → stop_ok (ks a) ≡ true)
    → stop_ok (elim x [ none ↦ s | some a ↦ ks a ]) ≡ true
stop_ok-option none s ks h h' = h
stop_ok-option (some a) s ks h h' = h' a

shape-stop_ok : (kw text : Text) → stop_ok (shape kw text) ≡ true
unfolding shape set_shape from_shape macro_shape for_shape text_eq lit
shape-stop_ok kw text = stop_ok-if (text_eq kw (lit "extends")) _ _ refl (
    stop_ok-if (text_eq kw (lit "include")) _ _ refl (
      stop_ok-if (text_eq kw (lit "set")) _ _
        (stop_ok-option (top_level_assign (argument text (lit "set"))) _ _ refl (λ eq. refl))
        (stop_ok-if (text_eq kw (lit "if")) _ _ refl (
          stop_ok-if (text_eq kw (lit "for")) _ _
            (stop_ok-option (for_head text) _ _ refl (λ r. refl))
            (stop_ok-if (text_eq kw (lit "with")) _ _ refl (
              stop_ok-if (text_eq kw (lit "block")) _ _ refl (
                stop_ok-if (text_eq kw (lit "from")) _ _
                  (stop_ok-option (index (argument text (lit "from")) (lit " import ")) _ _ refl
                    (λ i. refl))
                  (stop_ok-if (text_eq kw (lit "import")) _ _ refl (
                    stop_ok-if (text_eq kw (lit "macro")) _ _
                      (stop_ok-option (macro_head text) _ _ refl (λ r. refl))
                      (stop_ok-if (text_eq kw (lit "call") || has_prefix text (lit "call(")) _ _
                        refl refl))))))))))

pub ends_alike :
    (stop : Text) (finish : Nodes → Option Node) (find : Nodes → Found → Found) (t : Token)
    → shape (first_word t.text) t.text ≡ enclosing stop finish find
    → all_of end_like (stop ∷ []) ≡ true
unfolding all_of
ends_alike stop finish find t h =
    rw (sym (ap stop_ok h) ∙ shape-stop_ok (first_word t.text) t.text) refl

pub member_self : (s : Text) → member s (s ∷ []) ≡ true
unfolding member
member_self s = rw (text_eq_refl s) refl
