-- ===== src/Render/Parse/Total.antt =====
-- Parsing comes to an end: no template runs out of the fuel that `parse` gives.
use sobs.Prelude.{
  ℕ, zero, suc, ◌≤◌, ◌<◌, ◌≡◌, refl, true, false≢true, Option, some, List, [], ◌∷◌, arith,
  if◌then◌else◌, length,
}
use sobs.Text.{Text, member}
use sobs.Render.Lex.{Token, TokKind, tok_text, tok_output, tok_tag, tok_comment}
use sobs.Render.Words.{first_word}
use sobs.Render.Parse.{
  Node, Nodes, no_nodes, text_node, output_node, comment_node, Parser, Found, Outcome, done, failed,
  panics, exhausted, ◌>>=◌, advance,
}
use sobs.Render.Parse.Run.{nothing_found, parse_tag, parse_until, before, parse_tokens}
use sobs.Render.Parse.Holds.{Holds, Within, Ends, stopped, Holds-bind, Holds-if}
use sobs.Render.Parse.Within.{parse_tag-Within}

before-Ends :
    (n : Option Node) (stops : List Text) (m : ℕ) (o : Outcome (Nodes × Parser))
    → Holds (Ends stops m) o
    → Holds (Ends stops m) (before n o)
unfolding before Holds Ends
before-Ends n stops m o h = Holds-bind (Ends stops m) (Ends stops m) o _ h (λ r hr. hr)

Ends-mono :
    (stops : List Text) (m m' : ℕ) (o : Outcome (Nodes × Parser))
    → m ≤ m'
    → Holds (Ends stops m) o
    → Holds (Ends stops m') o
unfolding Holds Ends
Ends-mono stops m m' (done r) l h = (omega (arith, l, h.0), h.1)
Ends-mono stops m m' (failed e) l h = tt
Ends-mono stops m m' panics l h = tt
Ends-mono stops m m' exhausted l h = h

-- The loop ends with the given fuel on inputs that are shorter.
EndsBelow : ℕ → Type 0
EndsBelow f =
    (stops : List Text) (p : Parser)
    → length p.toks < f
    → Holds (Ends stops (length p.toks)) (parse_until f stops p)

-- What the loop does with a tag, when it ends on shorter inputs.
tag-Ends :
    (f : ℕ) (stops : List Text) (t : Token) (toks : List Token) (d : Found)
    → length toks < f
    → EndsBelow f
    → Holds (Ends stops (suc (length toks))) (do
      (n, q) ←
          parse_tag
            (parse_until f)
            t.text
            (first_word t.text)
            (record { toks = t ∷ toks; found = d })
      before n (parse_until f stops q))
unfolding EndsBelow Within
tag-Ends f stops t toks d l ih =
    Holds-bind (Within (length toks)) (Ends stops (suc (length toks)))
      (parse_tag (parse_until f) t.text (first_word t.text) (record { toks = t ∷ toks; found = d }))
      _
      (parse_tag-Within (parse_until f) f ih t.text (first_word t.text) (length toks)
        (record { toks = t ∷ toks; found = d }) (omega arith) l)
      (λ r hr. before-Ends r.0 stops (suc (length toks)) (parse_until f stops r.1) (
        Ends-mono stops (length r.1.toks) (suc (length toks)) (parse_until f stops r.1)
          (omega (arith, hr)) (ih stops r.1 (omega (arith, hr, l)))))

-- What the loop does with the first token, when it ends on shorter inputs.
parse_until-step :
    (f : ℕ) (stops : List Text) (t : Token) (toks : List Token) (d : Found)
    → length toks < f
    → EndsBelow f
    → Holds
        (Ends stops (suc (length toks)))
        (parse_until (suc f) stops (record { toks = t ∷ toks; found = d }))
unfolding parse_until advance EndsBelow Holds Ends stopped
parse_until-step f stops t toks d l ih = by_kind t.kind
  where
    rest :
        (n : Node)
        → Holds
            (Ends stops (suc (length toks)))
            (before (some n) (parse_until f stops (record { toks = toks; found = d })))
    rest n = before-Ends (some n) stops (suc (length toks)) _ (
        Ends-mono stops (length toks) (suc (length toks)) _ (omega arith)
          (ih stops (record { toks = toks; found = d }) l))

    by_kind :
        (k : TokKind)
        → Holds (Ends stops (suc (length toks))) (elim k [
          | tok_text ↦
              before
                (some (text_node t.text))
                (parse_until f stops (record { toks = toks; found = d }))
          | tok_comment ↦
              before (some comment_node) (parse_until f stops (record { toks = toks; found = d }))
          | tok_output ↦
              before
                (some (output_node t.text))
                (parse_until f stops (record { toks = toks; found = d }))
          | tok_tag ↦
              if member (first_word t.text) stops
              then done (no_nodes, record { toks = t ∷ toks; found = d })
              else (do
                (n, q) ←
                    parse_tag
                      (parse_until f)
                      t.text
                      (first_word t.text)
                      (record { toks = t ∷ toks; found = d })
                before n (parse_until f stops q))
        ])
    by_kind tok_text = rest _
    by_kind tok_comment = rest _
    by_kind tok_output = rest _
    by_kind tok_tag =
        Holds-if (Ends stops (suc (length toks))) (member (first_word t.text) stops) _ _
          (λ e. (omega arith, e)) (λ e. tag-Ends f stops t toks d l ih)

parse_until-Ends : (f : ℕ) → EndsBelow f
unfolding parse_until Holds Ends stopped EndsBelow
parse_until-Ends zero stops p l = absurd (omega (arith, l))
parse_until-Ends (suc f) stops p l = by_toks p.toks l (parse_until-Ends f)
  where
    by_toks :
        (ts : List Token)
        → length ts < suc f
        → EndsBelow f
        → Holds
            (Ends stops (length ts))
            (parse_until (suc f) stops (record { toks = ts; found = p.found }))
    by_toks [] l ih = (omega arith, refl)
    by_toks (t ∷ toks) l ih = parse_until-step f stops t toks p.found (omega (arith, l)) ih

none-left : (toks : List Token) → stopped [] toks ≡ true → toks ≡ []
unfolding stopped member
none-left [] h = refl
none-left (t ∷ toks) h = absurd (false≢true h)

Holds-mono {ℓ} :
    {A : Type ℓ} (P Q : A → Type 0) (o : Outcome A) → ((a : A) → P a → Q a) → Holds P o → Holds Q o
unfolding Holds
Holds-mono P Q (done a) f h = f a h
Holds-mono P Q (failed e) f h = tt
Holds-mono P Q panics f h = tt
Holds-mono P Q exhausted f h = h

-- Parsing any tokens comes to a result, to an error or to a panic, never to the end of the fuel, and a
-- result leaves no token over.
pub parse_tokens_total : (toks : List Token) → Holds (λ r. r.1.toks ≡ []) (parse_tokens toks)
unfolding parse_tokens EndsBelow Ends
parse_tokens_total toks =
    Holds-mono _ _ _ (λ r hr. none-left r.1.toks hr.1)
      (parse_until-Ends (suc (length toks)) [] (record { toks = toks; found = nothing_found })
        (omega arith))
