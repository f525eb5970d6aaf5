-- ===== src/Render/Parse/Shapes.antt =====
-- What parse_tag does with a tag of each shape.
use sobs.Prelude.{
  suc, ◌≡◌, refl, Bool, true, false, ◌||◌, Option, none, some, List, [], ◌∷◌, if◌then◌else◌, length,
  drop,
}
use sobs.Text.{Text, lit, text_eq, has_prefix, index}
use sobs.Render.Words.{argument, top_level_assign}
use sobs.Render.Parse.{if_node, Nodes, Parser, Outcome, done, ◌>>=◌, advance}
use sobs.Render.Parse.Tags.{
  Parsed, parse_extends, parse_include, parse_from, parse_set, parse_with, parse_block, parse_macro,
  parse_call, parse_for, current, enclosed, for_else, for_head, macro_head,
}
use sobs.Render.Parse.Run.{if_loop, parse_if, parse_tag}
use sobs.Render.Parse.Grammar.{
  Shape, plain, enclosing, looping, choosing, misplaced, shape, set_shape, from_shape, macro_shape,
  for_shape,
}
use sobs.Render.Parse.Holds.{Holds}

module _ (body : List Text → Parser → Outcome (Nodes × Parser)) where
  unfoldable pub run_loop : List Text → Text → Parser → Parsed
  run_loop vars iter p = do
    (ns, q) ← body (lit "else" ∷ lit "endfor" ∷ []) (advance p)
    stop ← current q
    for_else body vars iter ns q stop

  unfoldable pub run_choice : Text → Parser → Parsed
  run_choice cond p = do
    (branches, q) ← if_loop body (suc (length p.toks)) cond (advance p)
    done (some (if_node branches), q)

  unfoldable pub Realizes : Parser → Shape → Parsed → Type 0
  unfolding run_loop run_choice Holds
  Realizes p (plain n find) o = o ≡ done (n, record { toks = drop 1 p.toks; found = find p.found })
  Realizes p (enclosing stop finish find) o = o ≡ enclosed body stop finish find p
  Realizes p (looping vars iter) o = o ≡ run_loop vars iter p
  Realizes p (choosing cond) o = o ≡ run_choice cond p
  Realizes p misplaced o = Holds (λ r. ⊥) o

  Realizes-if :
      (p : Parser) (b : Bool) (s s' : Shape) (o o' : Parsed)
      → Realizes p s o
      → Realizes p s' o'
      → Realizes p (if b then s else s') (if b then o else o')
  Realizes-if p true s s' o o' h h' = h
  Realizes-if p false s s' o o' h h' = h'

  Realizes-option :
      {X : Type 0} (p : Parser) (x : Option X) (s : Shape) (ks : X → Shape) (o : Parsed)
      (ko : X → Parsed)
      → Realizes p s o
      → ((a : X) → Realizes p (ks a) (ko a))
      → Realizes p (elim x [ none ↦ s | some a ↦ ks a ]) (elim x [ none ↦ o | some a ↦ ko a ])
  Realizes-option p none s ks o ko h h' = h
  Realizes-option p (some a) s ks o ko h h' = h' a

  set-Realizes :
      (text : Text) (p : Parser)
      → Realizes p (set_shape (argument text (lit "set"))) (parse_set body text p)
  unfolding parse_set set_shape Realizes advance
  set-Realizes text p =
      Realizes-option p (top_level_assign (argument text (lit "set"))) _ _ _ _ refl (λ eq. refl)

  from-Realizes :
      (text : Text) (p : Parser)
      → Realizes p (from_shape (argument text (lit "from"))) (parse_from text p)
  unfolding parse_from from_shape Realizes advance Holds
  from-Realizes text p =
      Realizes-option p (index (argument text (lit "from")) (lit " import ")) _ _ _ _ tt (λ i. refl)

  macro-Realizes :
      (text : Text) (p : Parser) → Realizes p (macro_shape text) (parse_macro body text p)
  unfolding parse_macro Realizes macro_shape Holds
  macro-Realizes text p = Realizes-option p (macro_head text) _ _ _ _ tt (λ r. refl)

  for-Realizes : (text : Text) (p : Parser) → Realizes p (for_shape text) (parse_for body text p)
  unfolding parse_for Realizes for_shape Holds run_loop
  for-Realizes text p = Realizes-option p (for_head text) _ _ _ _ tt (λ r. refl)

  pub parse_tag-Realizes :
      (text kw : Text) (p : Parser) → Realizes p (shape kw text) (parse_tag body text kw p)
  unfolding parse_tag shape Realizes Holds advance parse_extends parse_include parse_with
      parse_block parse_call parse_if run_choice
  parse_tag-Realizes text kw p = Realizes-if p (text_eq kw (lit "extends")) _ _ _ _ refl (
      Realizes-if p (text_eq kw (lit "include")) _ _ _ _ refl (
        Realizes-if p (text_eq kw (lit "set")) _ _ _ _ (set-Realizes text p) (
          Realizes-if p (text_eq kw (lit "if")) _ _ _ _ refl (
            Realizes-if p (text_eq kw (lit "for")) _ _ _ _ (for-Realizes text p) (
              Realizes-if p (text_eq kw (lit "with")) _ _ _ _ refl (
                Realizes-if p (text_eq kw (lit "block")) _ _ _ _ refl (
                  Realizes-if p (text_eq kw (lit "from")) _ _ _ _ (from-Realizes text p) (
                    Realizes-if p (text_eq kw (lit "import")) _ _ _ _ refl (
                      Realizes-if p (text_eq kw (lit "macro")) _ _ _ _ (macro-Realizes text p) (
                        Realizes-if p (text_eq kw (lit "call") || has_prefix text (lit "call(")) _ _
                          _ _ refl tt))))))))))
