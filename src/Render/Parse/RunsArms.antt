-- ===== src/Render/Parse/RunsArms.antt =====
-- The branches of a condition run when their bodies do.
use sobs.Prelude.{ℕ, zero, suc, ◌<◌, ◌≡◌, refl, List, [], ◌∷◌, arith, length, all_of}
use sobs.Text.{Text, lit, text_eq, member}
use sobs.Render.Lex.{Token, tok_tag}
use sobs.Render.Words.{argument, first_word}
use sobs.Render.Parse.{no_branches, branch, Nodes, Branches, Found, done}
use sobs.Render.Parse.Run.{if_loop, parse_until}
use sobs.Render.Parse.Grammar.{Tag, tag_here, End}
use sobs.Render.Parse.Steps.{state}
use sobs.Render.Parse.Bodies.{if_loop-endif, if_loop-else, if_loop-elif}
use sobs.Render.Parse.Runs.{Tag-IsStop, End-IsStop, Runs, RunsArms, End-length}
use sobs.Render.Parse.Holds.{if_stops}

pub arm_end-Runs :
    (cond : Text) (toks mid rest : List Token) (d e : Found) (ns : Nodes)
    → Runs toks d ns mid e
    → Tag (lit "endif") mid rest
    → RunsArms cond toks d (branch cond ns no_branches) rest e
unfolding Runs RunsArms member text_eq lit all_of
arm_end-Runs cond toks mid rest d e ns hr (tag_here t r k w) =
    (omega (arith, hr.0), λ f g. by_fuel f g)
  where
    by_fuel :
        (f g : ℕ)
        → length toks < f
        → length toks < g
        → if_loop (parse_until f) g cond (state toks d)
          ≡ done (branch cond ns no_branches, state rest e)
    by_fuel f zero l l' = absurd (omega (arith, l'))
    by_fuel f (suc g) l l' =
        if_loop-endif (parse_until f) g cond (state toks d) ns t r e
          (hr.1 f if_stops l refl (Tag-IsStop _ _ _ if_stops refl (tag_here t r k w))) w

pub arm_else-Runs :
    (cond : Text) (toks mid next mid2 rest : List Token) (d d1 e : Found) (ns ns2 : Nodes)
    → Runs toks d ns mid d1
    → Tag (lit "else") mid next
    → Runs next d1 ns2 mid2 e
    → End (lit "endif") mid2 rest
    → RunsArms cond toks d (branch cond ns (branch [] ns2 no_branches)) rest e
unfolding Runs RunsArms member text_eq lit all_of
arm_else-Runs cond toks mid next mid2 rest d d1 e ns ns2 hr (tag_here t r k w) hr2 he =
    (omega (arith, hr.0, hr2.0, End-length (lit "endif") mid2 rest he), λ f g. by_fuel f g)
  where
    by_fuel :
        (f g : ℕ)
        → length toks < f
        → length toks < g
        → if_loop (parse_until f) g cond (state toks d)
          ≡ done (branch cond ns (branch [] ns2 no_branches), state rest e)
    by_fuel f zero l l' = absurd (omega (arith, l'))
    by_fuel f (suc g) l l' =
        if_loop-else (parse_until f) g cond (state toks d) ns t r d1 ns2 mid2 rest e
          (hr.1 f if_stops l refl (Tag-IsStop _ _ _ if_stops refl (tag_here t r k w))) w
          (hr2.1 f (lit "endif" ∷ []) (omega (arith, l, hr.0)) refl
            (End-IsStop _ _ _ (lit "endif" ∷ []) refl he))
          he

pub arm_elif-Runs :
    (cond : Text) (t : Token) (toks next rest : List Token) (d d1 e : Found) (ns : Nodes)
    (bs : Branches)
    → Runs toks d ns (t ∷ next) d1
    → t.kind ≡ tok_tag
    → first_word t.text ≡ lit "elif"
    → RunsArms (argument t.text (lit "elif")) next d1 bs rest e
    → RunsArms cond toks d (branch cond ns bs) rest e
unfolding Runs RunsArms member text_eq lit all_of
arm_elif-Runs cond t toks next rest d d1 e ns bs hr k w ha =
    (omega (arith, hr.0, ha.0), λ f g. by_fuel f g)
  where
    by_fuel :
        (f g : ℕ)
        → length toks < f
        → length toks < g
        → if_loop (parse_until f) g cond (state toks d) ≡ done (branch cond ns bs, state rest e)
    by_fuel f zero l l' = absurd (omega (arith, l'))
    by_fuel f (suc g) l l' =
        if_loop-elif (parse_until f) g cond (state toks d) ns t next d1 bs (state rest e)
          (hr.1 f if_stops l refl (Tag-IsStop (lit "elif") _ _ if_stops refl (tag_here t next k w)))
          w (ha.1 f g (omega (arith, hr.0, l)) (omega (arith, hr.0, l')))
