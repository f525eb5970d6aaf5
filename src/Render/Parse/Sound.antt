-- ===== src/Render/Parse/Sound.antt =====
-- What the tags return is derived by the grammar, when their bodies are.
use sobs.Prelude.{◌≡◌, refl, Bool, true, false, Option, List, [], ◌∷◌, arith, if◌then◌else◌, drop}
use sobs.Text.{Text, lit, text_eq, member}
use sobs.Render.Lex.{Token, tok_tag}
use sobs.Render.Words.{first_word}
use sobs.Render.Parse.{
  Node, Nodes, Parser, Found, Outcome, done, failed, panics, exhausted, ◌>>=◌, advance,
}
use sobs.Render.Parse.Tags.{current, enclosed, for_else}
use sobs.Render.Parse.Grammar.{
  enclosing, looping, shape, tag_here, End, end_tag, end_of_template, Reads, reads_enclosing,
  reads_loop, loop_end, loop_else,
}
use sobs.Text.Laws.{text_eq_iff}
use sobs.Render.Parse.Run.{and_then}
use sobs.Render.Parse.Shapes.{run_loop}
use sobs.Render.Parse.Runs.{IsStop}

-- A result, if there is one, satisfies a predicate.
unfoldable pub Yields {ℓ} : {A : Type ℓ} → (A → Type 0) → Outcome A → Type 0
Yields P (done a) = P a
Yields P (failed e) = Unit
Yields P panics = Unit
Yields P exhausted = Unit

module _ {ℓ κ} {A : Type ℓ} {B : Type κ} (P : A → Type 0) (Q : B → Type 0) where
  pub Yields-bind :
      (o : Outcome A) (k : A → Outcome B)
      → Yields P o
      → ((a : A) → P a → Yields Q (k a))
      → Yields Q (o >>= k)
  unfolding Yields
  Yields-bind (done a) k h hk = hk a h
  Yields-bind (failed e) k h hk = tt
  Yields-bind panics k h hk = tt
  Yields-bind exhausted k h hk = tt

module _ {ℓ} {A : Type ℓ} (P : A → Type 0) where
  pub Yields-if :
      (b : Bool) (o o' : Outcome A)
      → (b ≡ true → Yields P o)
      → (b ≡ false → Yields P o')
      → Yields P (if b then o else o')
  Yields-if true o o' h h' = h refl
  Yields-if false o o' h h' = h' refl

member-one : (s w : Text) → member s (w ∷ []) ≡ true → s ≡ w
unfolding member
member-one s w h = (text_eq_iff s w).0 (ground (arith, h))

member-two : (s a b : Text) → member s (a ∷ b ∷ []) ≡ true → text_eq s a ≡ false → s ≡ b
unfolding member
member-two s a b h ha = (text_eq_iff s b).0 (ground (arith, h, ha))

pub member-three :
    (s a b c : Text)
    → member s (a ∷ b ∷ c ∷ []) ≡ true
    → text_eq s b ≡ false
    → text_eq s c ≡ false
    → text_eq s a ≡ true
unfolding member
member-three s a b c h hb hc = ground (arith, h, hb, hc)

pub IsStop-End : (w : Text) (toks : List Token) → IsStop (w ∷ []) toks → End w toks (drop 1 toks)
unfolding IsStop
IsStop-End w [] h = end_of_template
IsStop-End w (t ∷ toks) h = end_tag (tag_here t toks h.0 (member-one (first_word t.text) w h.1))

-- A body is derived from the tokens up to its end, which stops.
unfoldable pub Derived : List Text → Parser → Nodes × Parser → Type 0
unfolding IsStop
Derived stops p r = Reads p.toks p.found r.0 r.1.toks r.1.found × IsStop stops r.1.toks

-- A tag in front of nodes that are derived derives its own node in front of them.
unfoldable pub Extends : Parser → Option Node × Parser → Type 0
Extends p r =
    (ns : Nodes) (rest : List Token) (e : Found)
    → Reads r.1.toks r.1.found ns rest e
    → Reads p.toks p.found (and_then r.0 ns) rest e

abbrev pub at : Token → List Token → Found → Parser
at t toks d = record { toks = t ∷ toks; found = d }

module _ (body : List Text → Parser → Outcome (Nodes × Parser))
    (h : (stops : List Text) (p : Parser) → Yields (Derived stops p) (body stops p)) (t : Token)
    (toks : List Token) (d : Found) (k : t.kind ≡ tok_tag) where
  pub enclosed-Extends :
      (stop : Text) (finish : Nodes → Option Node) (find : Nodes → Found → Found)
      → shape (first_word t.text) t.text ≡ enclosing stop finish find
      → Yields (Extends (at t toks d)) (enclosed body stop finish find (at t toks d))
  unfolding enclosed advance Derived Extends Yields
  enclosed-Extends stop finish find sh =
      Yields-bind (Derived (stop ∷ []) (record { toks = toks; found = d })) (Extends (at t toks d))
        (body (stop ∷ []) _) _ (h (stop ∷ []) _)
        (λ r hr ns rest e hn.
          reads_enclosing stop finish find k sh hr.0 (IsStop-End stop r.1.toks hr.1) hn)

  for_else-Extends :
      (vars : List Text) (iter : Text) (ns : Nodes) (u : Token) (us : List Token) (d1 : Found)
      → shape (first_word t.text) t.text ≡ looping vars iter
      → Derived
          (lit "else" ∷ lit "endfor" ∷ [])
          (record { toks = toks; found = d })
          (ns, at u us d1)
      → Yields (Extends (at t toks d)) (for_else body vars iter ns (at u us d1) u.text)
  unfolding for_else advance Derived Extends Yields IsStop
  for_else-Extends vars iter ns u us d1 sh hb =
      Yields-if (Extends (at t toks d)) (text_eq (first_word u.text) (lit "else")) _ _
        (λ b.
          Yields-bind (Derived (lit "endfor" ∷ []) (record { toks = us; found = d1 }))
            (Extends (at t toks d)) (body (lit "endfor" ∷ []) _) _ (h (lit "endfor" ∷ []) _)
            (λ r hr ns rest e hn.
              reads_loop vars iter k sh hb.0
                (loop_else (tag_here u us hb.1.0 ((text_eq_iff _ _).0 b)) hr.0
                  (IsStop-End (lit "endfor") r.1.toks hr.1))
                hn))
        (λ b ns rest e hn.
          reads_loop vars iter k sh hb.0
            (loop_end (tag_here u us hb.1.0 (member-two _ _ _ hb.1.1 b))) hn)

  pub run_loop-Extends :
      (vars : List Text) (iter : Text)
      → shape (first_word t.text) t.text ≡ looping vars iter
      → Yields (Extends (at t toks d)) (run_loop body vars iter (at t toks d))
  unfolding run_loop advance current Yields
  run_loop-Extends vars iter sh =
      Yields-bind (Derived (lit "else" ∷ lit "endfor" ∷ []) (record { toks = toks; found = d }))
        (Extends (at t toks d)) (body (lit "else" ∷ lit "endfor" ∷ []) _) _
        (h (lit "else" ∷ lit "endfor" ∷ []) _) (λ r hr. by_toks r.0 r.1.toks r.1.found hr)
    where
      by_toks :
          (ns : Nodes) (ts : List Token) (d1 : Found)
          → Derived
              (lit "else" ∷ lit "endfor" ∷ [])
              (record { toks = toks; found = d })
              (ns, record { toks = ts; found = d1 })
          → Yields (Extends (at t toks d)) (
              current (record { toks = ts; found = d1 }) >>= λ stop.
              for_else body vars iter ns (record { toks = ts; found = d1 }) stop)
      by_toks ns [] d1 hr = tt
      by_toks ns (u ∷ us) d1 hr = for_else-Extends vars iter ns u us d1 sh hr
