-- ===== src/Render/Parse/RunsTags.antt =====
-- The tags run when their bodies do.
use sobs.Prelude.{
  ℕ, zero, suc, ◌≤◌, ◌<◌, ◌≡◌, refl, ap, ◌∙◌, true, Option, some, List, [], ◌∷◌, arith, length,
  all_of,
}
use sobs.Text.{Text, lit, text_eq, member}
use sobs.Render.Lex.{Token, tok_text, tok_output, tok_tag, tok_comment}
use sobs.Render.Words.{first_word}
use sobs.Render.Parse.{
  Node, Nodes, Branches, no_nodes, text_node, output_node, comment_node, Parser, Found, done, ◌>>=◌,
  advance,
}
use sobs.Render.Parse.Run.{parse_until}
use sobs.Render.Parse.Grammar.{enclosing, looping, choosing, shape, Tag, tag_here, End}
use sobs.Render.Parse.{for_node, if_node, node}
use sobs.Render.Parse.Run.{and_then}
use sobs.Render.Parse.Shapes.{run_loop, run_choice, Realizes}
use sobs.Render.Parse.Steps.{
  end_like, placed, state, parse_until-text, parse_until-comment, parse_until-output,
}
use sobs.Render.Parse.Bodies.{enclosed-End, for_else-end, for_else-else, run_loop-step}
use sobs.Render.Parse.EndTags.{ends_alike, member_self}
use sobs.Render.Parse.Runs.{
  IsStop, parse_until-IsStop, Tag-IsStop, End-IsStop, Runs, RunsArms, Runs-step, Runs-tag, realized,
  Runs-body, End-length,
}

pub Runs-enclosing :
    (stop : Text) (finish : Nodes → Option Node) (find : Nodes → Found → Found) (t : Token)
    (toks mid after rest : List Token) (d d1 e : Found) (body ns : Nodes)
    → t.kind ≡ tok_tag
    → shape (first_word t.text) t.text ≡ enclosing stop finish find
    → Runs toks d body mid d1
    → End stop mid after
    → Runs after (find body d1) ns rest e
    → Runs (t ∷ toks) d (and_then (finish body) ns) rest e
unfolding Realizes Runs advance
Runs-enclosing stop finish find t toks mid after rest d d1 e body ns k sh hb he hr =
    Runs-tag (finish body) t toks after rest d (find body d1) e ns k (ap placed sh)
      (omega (arith, End-length stop mid after he, hb.0))
      (λ f l.
        realized f t toks d (enclosing stop finish find) sh
        ∙ enclosed-End (parse_until f) stop finish find (state (t ∷ toks) d) body mid after d1
            (Runs-body toks d body mid d1 f (stop ∷ []) hb l (ends_alike stop finish find t sh)
              (End-IsStop stop mid after (stop ∷ []) (member_self stop) he))
            he)
      hr

pub Runs-none : (toks : List Token) (d : Found) → Runs toks d no_nodes toks d
unfolding Runs
Runs-none toks d = (omega arith, λ f. by_fuel f)
  where
    by_fuel :
        (f : ℕ) (stops : List Text)
        → length toks < f
        → all_of end_like stops ≡ true
        → IsStop stops toks
        → parse_until f stops (state toks d) ≡ done (no_nodes, state toks d)
    by_fuel zero stops l h hi = absurd (omega (arith, l))
    by_fuel (suc f) stops l h hi = parse_until-IsStop f stops toks d hi

pub Runs-text :
    (t : Token) (toks rest : List Token) (d e : Found) (ns : Nodes)
    → t.kind ≡ tok_text
    → Runs toks d ns rest e
    → Runs (t ∷ toks) d (node (text_node t.text) ns) rest e
Runs-text t toks rest d e ns k =
    Runs-step (some (text_node t.text)) t toks toks rest d d e ns (omega arith)
      (λ f stops l h. parse_until-text f stops t toks d k)

pub Runs-comment :
    (t : Token) (toks rest : List Token) (d e : Found) (ns : Nodes)
    → t.kind ≡ tok_comment
    → Runs toks d ns rest e
    → Runs (t ∷ toks) d (node comment_node ns) rest e
Runs-comment t toks rest d e ns k =
    Runs-step (some comment_node) t toks toks rest d d e ns (omega arith)
      (λ f stops l h. parse_until-comment f stops t toks d k)

pub Runs-output :
    (t : Token) (toks rest : List Token) (d e : Found) (ns : Nodes)
    → t.kind ≡ tok_output
    → Runs toks d ns rest e
    → Runs (t ∷ toks) d (node (output_node t.text) ns) rest e
Runs-output t toks rest d e ns k =
    Runs-step (some (output_node t.text)) t toks toks rest d d e ns (omega arith)
      (λ f stops l h. parse_until-output f stops t toks d k)

-- The end of a loop, from the body on.
unfoldable pub RunsLoopEnd : List Token → Found → Nodes → List Token → Found → Type 0
RunsLoopEnd mid d other after e =
    (length after ≤ length mid)
    × (IsStop (lit "else" ∷ lit "endfor" ∷ []) mid)
    × ((f : ℕ) (vars : List Text) (iter : Text) (p : Parser) (body : Nodes)
        → length mid < f
        → parse_until f (lit "else" ∷ lit "endfor" ∷ []) (advance p) ≡ done (body, state mid d)
        → run_loop (parse_until f) vars iter p
          ≡ done (some (for_node vars iter body other), state after e))

pub loop_end-Runs :
    (toks rest : List Token) (d : Found)
    → Tag (lit "endfor") toks rest
    → RunsLoopEnd toks d no_nodes rest d
unfolding RunsLoopEnd member text_eq lit
loop_end-Runs toks rest d (tag_here t r k w) = (
  omega arith,
  Tag-IsStop _ _ _ _ refl (tag_here t r k w),
  λ f vars iter p body l h.
      run_loop-step (parse_until f) vars iter p body t r d h
      ∙ for_else-end (parse_until f) vars iter body t r d w,
)

pub loop_else-Runs :
    (toks next mid rest : List Token) (d e : Found) (ns : Nodes)
    → Tag (lit "else") toks next
    → Runs next d ns mid e
    → End (lit "endfor") mid rest
    → RunsLoopEnd toks d ns rest e
unfolding RunsLoopEnd Runs member text_eq lit all_of
loop_else-Runs toks next mid rest d e ns (tag_here t r k w) hr he = (
  omega (arith, hr.0, End-length (lit "endfor") mid rest he),
  Tag-IsStop _ _ _ (lit "else" ∷ lit "endfor" ∷ []) refl (tag_here t r k w),
  λ f vars iter p body l h.
      run_loop-step (parse_until f) vars iter p body t r d h
      ∙ for_else-else (parse_until f) vars iter body t r d ns mid rest e w
          (Runs-body r d ns mid e f (lit "endfor" ∷ []) hr (omega (arith, l)) refl
            (End-IsStop _ _ _ (lit "endfor" ∷ []) refl he))
          he,
)

pub Runs-loop :
    (vars : List Text) (iter : Text) (t : Token) (toks mid after rest : List Token)
    (d d1 d2 e : Found) (body other ns : Nodes)
    → t.kind ≡ tok_tag
    → shape (first_word t.text) t.text ≡ looping vars iter
    → Runs toks d body mid d1
    → RunsLoopEnd mid d1 other after d2
    → Runs after d2 ns rest e
    → Runs (t ∷ toks) d (node (for_node vars iter body other) ns) rest e
unfolding Realizes Runs RunsLoopEnd advance all_of text_eq lit
Runs-loop vars iter t toks mid after rest d d1 d2 e body other ns k sh hb hl hr =
    Runs-tag (some (for_node vars iter body other)) t toks after rest d d2 e ns k (ap placed sh)
      (omega (arith, hl.0, hb.0))
      (λ f l.
        realized f t toks d (looping vars iter) sh
        ∙ hl.2 f vars iter (state (t ∷ toks) d) body (omega (arith, hb.0, l))
            (hb.1 f _ l refl hl.1))
      hr

pub Runs-choice :
    (cond : Text) (t : Token) (toks after rest : List Token) (d d1 e : Found) (bs : Branches)
    (ns : Nodes)
    → t.kind ≡ tok_tag
    → shape (first_word t.text) t.text ≡ choosing cond
    → RunsArms cond toks d bs after d1
    → Runs after d1 ns rest e
    → Runs (t ∷ toks) d (node (if_node bs) ns) rest e
unfolding Realizes RunsArms run_choice advance
Runs-choice cond t toks after rest d d1 e bs ns k sh ha hr =
    Runs-tag (some (if_node bs)) t toks after rest d d1 e ns k (ap placed sh) ha.0
      (λ f l.
        realized f t toks d (choosing cond) sh
        ∙ ap (λ o. o >>= (λ r. done (some (if_node r.0), r.1)))
            (ha.1 f (suc (suc (length toks))) l (omega arith)))
      hr
