-- ===== src/Render/Parse/SoundIf.antt =====
-- What a condition returns, and so any tag, is derived by the grammar.
use sobs.Prelude.{
  ℕ, zero, suc, ◌≡◌, Bool, true, false, false≢true, Option, List, [], ◌∷◌, if◌then◌else◌,
}
use sobs.Text.{Text, lit, text_eq}
use sobs.Render.Lex.{Token, tok_tag}
use sobs.Render.Words.{argument, first_word}
use sobs.Render.Parse.{
  Node, Nodes, Branches, Parser, Found, Outcome, done, failed, panics, exhausted, ◌>>=◌, advance,
}
use sobs.Render.Parse.Tags.{Parsed, current}
use sobs.Render.Parse.Run.{if_loop}
use sobs.Render.Parse.Grammar.{
  Shape, plain, enclosing, looping, choosing, misplaced, shape, tag_here, Arms, reads_plain,
  reads_choice, arm_end, arm_else, arm_elif,
}
use sobs.Text.Laws.{text_eq_iff}
use sobs.Render.Parse.{no_branches, branch}
use sobs.Render.Parse.Shapes.{run_choice, Realizes}
use sobs.Render.Parse.Runs.{IsStop}
use sobs.Render.Parse.Holds.{if_stops, Holds}
use sobs.Render.Parse.Sound.{
  Yields, Yields-bind, Yields-if, member-three, IsStop-End, Derived, Extends, at, enclosed-Extends,
  run_loop-Extends,
}

unfoldable pub ArmsDerived : Text → Parser → Branches × Parser → Type 0
ArmsDerived cond p r = Arms cond p.toks p.found r.0 r.1.toks r.1.found

ArmsDerived-if :
    (b : Bool) (x y : Text) (p q : Parser) (r : Branches × Parser)
    → b ≡ true
    → ArmsDerived (if b then x else y) (if b then p else q) r
    → ArmsDerived x p r
ArmsDerived-if true x y p q r hb h = h
ArmsDerived-if false x y p q r hb h = absurd (false≢true hb)

module _ (body : List Text → Parser → Outcome (Nodes × Parser))
    (h : (stops : List Text) (p : Parser) → Yields (Derived stops p) (body stops p)) where
  -- What the loop over the branches does at the tag behind a body.
  unfoldable at_stop : ℕ → Text → Nodes → Parser → Text → Outcome (Branches × Parser)
  at_stop g cond ns q stop =
      let elif = text_eq (first_word stop) (lit "elif") in
      if text_eq (first_word stop) (lit "else")
      then (do
        (else_body, r) ← body (lit "endif" ∷ []) (advance q)
        done (branch cond ns (branch [] else_body no_branches), advance r))
      else if text_eq (first_word stop) (lit "endif")
      then done (branch cond ns no_branches, advance q)
      else (do
        (rest, r) ←
            if_loop body g (if elif then argument stop (lit "elif") else cond)
              (if elif then advance q else q)
        done (branch cond ns rest, r))

  at_stop-Derived :
      (g : ℕ) (cond : Text) (p : Parser) (ns : Nodes) (u : Token) (us : List Token) (d1 : Found)
      → Derived if_stops p (ns, at u us d1)
      → ((c : Text) (q : Parser) → Yields (ArmsDerived c q) (if_loop body g c q))
      → Yields (ArmsDerived cond p) (at_stop g cond ns (at u us d1) u.text)
  unfolding at_stop Yields Derived IsStop advance ArmsDerived
  at_stop-Derived g cond p ns u us d1 hr ih =
      Yields-if (ArmsDerived cond p) (text_eq (first_word u.text) (lit "else")) _ _
        (λ b.
          Yields-bind (Derived (lit "endif" ∷ []) (record { toks = us; found = d1 }))
            (ArmsDerived cond p) (body (lit "endif" ∷ []) _) _ (h (lit "endif" ∷ []) _)
            (λ r hr2.
              arm_else hr.0 (tag_here u us hr.1.0 ((text_eq_iff _ _).0 b)) hr2.0
                (IsStop-End (lit "endif") r.1.toks hr2.1)))
        (λ b.
          Yields-if (ArmsDerived cond p) (text_eq (first_word u.text) (lit "endif")) _ _
            (λ b2. arm_end hr.0 (tag_here u us hr.1.0 ((text_eq_iff _ _).0 b2)))
            (λ b2.
              let b3 =
                member-three (first_word u.text) (lit "elif") (lit "else") (lit "endif") hr.1.1 b
                  b2 in
              Yields-bind (ArmsDerived _ _) (ArmsDerived cond p) (if_loop body g _ _) _ (ih _ _)
                (λ r ha. arm_elif hr.0 hr.1.0 ((text_eq_iff _ _).0 b3) (
                  ArmsDerived-if (text_eq (first_word u.text) (lit "elif"))
                    (argument u.text (lit "elif")) cond (record { toks = us; found = d1 })
                    (at u us d1) r b3 ha))))

  if_loop-Derived :
      (g : ℕ) (cond : Text) (p : Parser) → Yields (ArmsDerived cond p) (if_loop body g cond p)
  unfolding if_loop Yields at_stop current
  if_loop-Derived zero cond p = tt
  if_loop-Derived (suc g) cond p =
      Yields-bind (Derived if_stops p) (ArmsDerived cond p) (body if_stops p) _ (h if_stops p)
        (λ r hr. by_toks r.0 r.1.toks r.1.found hr (if_loop-Derived g))
    where
      by_toks :
          (ns : Nodes) (ts : List Token) (d1 : Found)
          → Derived if_stops p (ns, record { toks = ts; found = d1 })
          → ((c : Text) (q : Parser) → Yields (ArmsDerived c q) (if_loop body g c q))
          → Yields (ArmsDerived cond p) (
              current (record { toks = ts; found = d1 }) >>= λ stop.
              at_stop g cond ns (record { toks = ts; found = d1 }) stop)
      by_toks ns [] d1 hr ih = tt
      by_toks ns (u ∷ us) d1 hr ih = at_stop-Derived g cond p ns u us d1 hr ih

  pub tag-Extends :
      (t : Token) (toks : List Token) (d : Found) (s : Shape) (o : Parsed)
      → t.kind ≡ tok_tag
      → shape (first_word t.text) t.text ≡ s
      → Realizes body (at t toks d) s o
      → Yields (Extends (at t toks d)) o
  unfolding Realizes Extends Yields run_choice advance ArmsDerived
  tag-Extends t toks d (plain n find) o k sh r = rw r (λ ns rest e hn. reads_plain n find k sh hn)
  tag-Extends t toks d (enclosing stop finish find) o k sh r =
      rw r (enclosed-Extends body h t toks d k stop finish find sh)
  tag-Extends t toks d (looping vars iter) o k sh r =
      rw r (run_loop-Extends body h t toks d k vars iter sh)
  tag-Extends t toks d (choosing cond) o k sh r = rw r (
      Yields-bind (ArmsDerived cond (record { toks = toks; found = d })) (Extends (at t toks d))
        (if_loop body _ cond _) _ (if_loop-Derived _ cond _)
        (λ b hb ns rest e hn. reads_choice cond k sh hb hn))
  tag-Extends t toks d misplaced o k sh r = no_result o r
    where
      no_result :
          (o' : Outcome (Option Node × Parser))
          → Holds (λ x. ⊥) o'
          → Yields (Extends (at t toks d)) o'
      no_result (done a) x = absurd x
      no_result (failed e) x = tt
      no_result panics x = tt
      no_result exhausted x = tt
