-- ===== src/Render/Parse/Bodies.antt =====
-- What the tags make of bodies that are parsed.
use sobs.Prelude.{ℕ, suc, ◌≡◌, refl, Option, some, List, [], ◌∷◌}
use sobs.Text.{Text, lit, text_eq}
use sobs.Render.Lex.{Token}
use sobs.Render.Words.{argument, first_word}
use sobs.Render.Parse.{Node, Nodes, Branches, no_nodes, Parser, Found, Outcome, done, advance}
use sobs.Render.Parse.Tags.{current, enclosed, for_else}
use sobs.Render.Parse.Run.{if_loop}
use sobs.Render.Parse.Grammar.{tag_here, End, end_tag, end_of_template}
use sobs.Render.Parse.{for_node, no_branches, branch}
use sobs.Render.Parse.Shapes.{run_loop}
use sobs.Render.Parse.Steps.{state}

module _ (body : List Text → Parser → Outcome (Nodes × Parser)) where
  pub enclosed-End :
      (stop : Text) (finish : Nodes → Option Node) (find : Nodes → Found → Found) (p : Parser)
      (ns : Nodes) (mid after : List Token) (e : Found)
      → body (stop ∷ []) (advance p) ≡ done (ns, state mid e)
      → End stop mid after
      → enclosed body stop finish find p ≡ done (finish ns, state after (find ns e))
  unfolding enclosed advance
  enclosed-End stop finish find p ns mid after e h (end_tag (tag_here t toks k w)) = rw h refl
  enclosed-End stop finish find p ns mid after e h end_of_template = rw h refl

  pub for_else-end :
      (vars : List Text) (iter : Text) (ns : Nodes) (t : Token) (toks : List Token) (d : Found)
      → first_word t.text ≡ lit "endfor"
      → for_else body vars iter ns (state (t ∷ toks) d) t.text
        ≡ done (some (for_node vars iter ns no_nodes), state toks d)
  unfolding for_else advance text_eq lit
  for_else-end vars iter ns t toks d w = rw w refl

  pub for_else-else :
      (vars : List Text) (iter : Text) (ns : Nodes) (t : Token) (toks : List Token) (d : Found)
      (ns2 : Nodes) (mid after : List Token) (e : Found)
      → first_word t.text ≡ lit "else"
      → body (lit "endfor" ∷ []) (state toks d) ≡ done (ns2, state mid e)
      → End (lit "endfor") mid after
      → for_else body vars iter ns (state (t ∷ toks) d) t.text
        ≡ done (some (for_node vars iter ns ns2), state after e)
  unfolding for_else advance text_eq lit
  for_else-else vars iter ns t toks d ns2 mid after e w h (end_tag (tag_here u us k v)) =
      rw w (rw h refl)
  for_else-else vars iter ns t toks d ns2 mid after e w h end_of_template = rw w (rw h refl)

  pub run_loop-step :
      (vars : List Text) (iter : Text) (p : Parser) (ns : Nodes) (t : Token) (toks : List Token)
      (d : Found)
      → body (lit "else" ∷ lit "endfor" ∷ []) (advance p) ≡ done (ns, state (t ∷ toks) d)
      → run_loop body vars iter p ≡ for_else body vars iter ns (state (t ∷ toks) d) t.text
  unfolding run_loop current
  run_loop-step vars iter p ns t toks d h = rw h refl

  pub if_loop-endif :
      (f : ℕ) (cond : Text) (p : Parser) (ns : Nodes) (t : Token) (toks : List Token) (d : Found)
      → body (lit "elif" ∷ lit "else" ∷ lit "endif" ∷ []) p ≡ done (ns, state (t ∷ toks) d)
      → first_word t.text ≡ lit "endif"
      → if_loop body (suc f) cond p ≡ done (branch cond ns no_branches, state toks d)
  unfolding if_loop current advance text_eq lit
  if_loop-endif f cond p ns t toks d h w = rw h (rw w refl)

  pub if_loop-else :
      (f : ℕ) (cond : Text) (p : Parser) (ns : Nodes) (t : Token) (toks : List Token) (d : Found)
      (ns2 : Nodes) (mid after : List Token) (e : Found)
      → body (lit "elif" ∷ lit "else" ∷ lit "endif" ∷ []) p ≡ done (ns, state (t ∷ toks) d)
      → first_word t.text ≡ lit "else"
      → body (lit "endif" ∷ []) (state toks d) ≡ done (ns2, state mid e)
      → End (lit "endif") mid after
      → if_loop body (suc f) cond p
        ≡ done (branch cond ns (branch [] ns2 no_branches), state after e)
  unfolding if_loop current advance text_eq lit
  if_loop-else f cond p ns t toks d ns2 mid after e h w h2 (end_tag (tag_here u us k v)) =
      rw h (rw w (rw h2 refl))
  if_loop-else f cond p ns t toks d ns2 mid after e h w h2 end_of_template =
      rw h (rw w (rw h2 refl))

  pub if_loop-elif :
      (f : ℕ) (cond : Text) (p : Parser) (ns : Nodes) (t : Token) (toks : List Token) (d : Found)
      (bs : Branches) (q : Parser)
      → body (lit "elif" ∷ lit "else" ∷ lit "endif" ∷ []) p ≡ done (ns, state (t ∷ toks) d)
      → first_word t.text ≡ lit "elif"
      → if_loop body f (argument t.text (lit "elif")) (state toks d) ≡ done (bs, q)
      → if_loop body (suc f) cond p ≡ done (branch cond ns bs, q)
  unfolding if_loop current advance text_eq lit
  if_loop-elif f cond p ns t toks d bs q h w h2 = rw h (rw w (rw h2 refl))
