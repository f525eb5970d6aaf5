-- ===== src/Render/Parse/Complete.antt =====
-- The parser accepts what the grammar derives, with the nodes and the declarations of the derivation.
use sobs.Prelude.{suc, ◌≡◌, refl, List, [], arith, length, all_of}
use sobs.Text.{Text}
use sobs.Render.Lex.{Token}
use sobs.Render.Parse.{Nodes, Branches, Found, done}
use sobs.Render.Parse.Run.{parse_tokens}
use sobs.Render.Parse.Grammar.{
  Reads, LoopEnd, Arms, reads_none, reads_text, reads_comment, reads_output, reads_plain,
  reads_enclosing, reads_loop, reads_choice, loop_end, loop_else, arm_end, arm_else, arm_elif,
}
use sobs.Render.Parse.Run.{nothing_found}
use sobs.Render.Parse.Runs.{Runs, RunsArms, IsStop, Runs-plain}
use sobs.Render.Parse.RunsTags.{
  Runs-enclosing, Runs-none, Runs-text, Runs-comment, Runs-output, RunsLoopEnd, loop_end-Runs,
  loop_else-Runs, Runs-loop, Runs-choice,
}
use sobs.Render.Parse.RunsArms.{arm_end-Runs, arm_else-Runs, arm_elif-Runs}

mutual
  Reads-Runs :
      {toks rest : List Token} {d e : Found} {ns : Nodes}
      → Reads toks d ns rest e
      → Runs toks d ns rest e
  Reads-Runs reads_none = Runs-none _ _
  Reads-Runs (reads_text k r) = Runs-text _ _ _ _ _ _ k (Reads-Runs r)
  Reads-Runs (reads_comment k r) = Runs-comment _ _ _ _ _ _ k (Reads-Runs r)
  Reads-Runs (reads_output k r) = Runs-output _ _ _ _ _ _ k (Reads-Runs r)
  Reads-Runs (reads_plain n find k sh r) = Runs-plain n find _ _ _ _ _ _ k sh (Reads-Runs r)
  Reads-Runs (reads_enclosing stop finish find k sh b e r) =
      Runs-enclosing stop finish find _ _ _ _ _ _ _ _ _ _ k sh (Reads-Runs b) e (Reads-Runs r)
  Reads-Runs (reads_loop vars iter k sh b e r) =
      Runs-loop vars iter _ _ _ _ _ _ _ _ _ _ _ _ k sh (Reads-Runs b) (LoopEnd-Runs e)
        (Reads-Runs r)
  Reads-Runs (reads_choice cond k sh a r) =
      Runs-choice cond _ _ _ _ _ _ _ _ _ k sh (Arms-Runs a) (Reads-Runs r)

  LoopEnd-Runs :
      {toks rest : List Token} {d e : Found} {ns : Nodes}
      → LoopEnd toks d ns rest e
      → RunsLoopEnd toks d ns rest e
  LoopEnd-Runs (loop_end t) = loop_end-Runs _ _ _ t
  LoopEnd-Runs (loop_else t r e) = loop_else-Runs _ _ _ _ _ _ _ t (Reads-Runs r) e

  Arms-Runs :
      {cond : Text} {toks rest : List Token} {d e : Found} {bs : Branches}
      → Arms cond toks d bs rest e
      → RunsArms cond toks d bs rest e
  Arms-Runs (arm_end r t) = arm_end-Runs _ _ _ _ _ _ _ (Reads-Runs r) t
  Arms-Runs (arm_else r t r2 e) =
      arm_else-Runs _ _ _ _ _ _ _ _ _ _ _ (Reads-Runs r) t (Reads-Runs r2) e
  Arms-Runs (arm_elif r k w a) = arm_elif-Runs _ _ _ _ _ _ _ _ _ _ (Reads-Runs r) k w (Arms-Runs a)

-- What the grammar derives from all the tokens of a template, the parser returns: the same nodes, with
-- the same blocks, macros, imports and parent.
pub parse_tokens-Reads :
    (toks : List Token) (ns : Nodes) (e : Found)
    → Reads toks nothing_found ns [] e
    → parse_tokens toks ≡ done (ns, record { toks = []; found = e })
unfolding parse_tokens Runs IsStop all_of
parse_tokens-Reads toks ns e h = (Reads-Runs h).1 (suc (length toks)) [] (omega arith) refl tt
