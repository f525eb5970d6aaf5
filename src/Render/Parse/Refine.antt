-- ===== src/Render/Parse/Refine.antt =====
-- The parser and the grammar agree.
use sobs.Prelude.{
  ℕ, zero, suc, ◌≡◌, refl, subst, ◌↔◌, Option, some, List, [], ◌∷◌, if◌then◌else◌, length,
}
use sobs.Text.{Text, member}
use sobs.Render.Lex.{Token, TokKind, tok_text, tok_output, tok_tag, tok_comment}
use sobs.Render.Words.{first_word}
use sobs.Render.Parse.{
  Node, Nodes, no_nodes, text_node, output_node, comment_node, Parser, Found, done, ◌>>=◌, advance,
}
use sobs.Render.Parse.Run.{parse_tag, parse_until, before, parse_tokens}
use sobs.Render.Parse.Grammar.{Reads, reads_none, reads_text, reads_comment, reads_output}
use sobs.Render.Parse.Run.{nothing_found}
use sobs.Render.Parse.Shapes.{parse_tag-Realizes}
use sobs.Render.Parse.Runs.{IsStop}
use sobs.Render.Parse.Sound.{Yields, Yields-bind, Yields-if, Derived, Extends, at}
use sobs.Render.Parse.SoundIf.{tag-Extends}
use sobs.Render.Parse.Complete.{parse_tokens-Reads}

-- What the loop returns on the given fuel is derived.
IsSound : ℕ → Type 0
unfolding Yields Derived
IsSound f = (stops : List Text) (p : Parser) → Yields (Derived stops p) (parse_until f stops p)

before-Derived :
    (f : ℕ) (stops : List Text) (p : Parser) (r : Option Node × Parser)
    → IsSound f
    → Extends p r
    → Yields (Derived stops p) (before r.0 (parse_until f stops r.1))
unfolding before IsSound Extends Yields Derived
before-Derived f stops p r ih he =
    Yields-bind (Derived stops r.1) (Derived stops p) (parse_until f stops r.1) _ (ih stops r.1)
      (λ r' hr. (he r'.0 r'.1.toks r'.1.found hr.0, hr.1))

parse_until-Derived-step :
    (f : ℕ) (stops : List Text) (t : Token) (toks : List Token) (d : Found)
    → IsSound f
    → Yields (Derived stops (at t toks d)) (parse_until (suc f) stops (at t toks d))
unfolding parse_until advance Yields Derived Extends IsSound IsStop
parse_until-Derived-step f stops t toks d ih = by_kind t.kind refl
  where
    by_kind :
        (k : TokKind)
        → t.kind ≡ k
        → Yields (Derived stops (at t toks d)) (elim k [
          | tok_text ↦
              before
                (some (text_node t.text))
                (parse_until f stops (record { toks = toks; found = d }))
          | tok_comment ↦
              before (some comment_node) (parse_until f stops (record { toks = toks; found = d }))
          | tok_output ↦
              before
                (some (output_node t.text))
                (parse_until f stops (record { toks = toks; found = d }))
          | tok_tag ↦ if member (first_word t.text) stops then done (no_nodes, at t toks d) else (do
            (n, q) ← parse_tag (parse_until f) t.text (first_word t.text) (at t toks d)
            before n (parse_until f stops q))
        ])
    by_kind tok_text k =
        before-Derived f stops (at t toks d)
          (some (text_node t.text), record { toks = toks; found = d }) ih
          (λ ns rest e hn. reads_text k hn)
    by_kind tok_comment k =
        before-Derived f stops (at t toks d) (some comment_node, record { toks = toks; found = d })
          ih (λ ns rest e hn. reads_comment k hn)
    by_kind tok_output k =
        before-Derived f stops (at t toks d)
          (some (output_node t.text), record { toks = toks; found = d }) ih
          (λ ns rest e hn. reads_output k hn)
    by_kind tok_tag k =
        Yields-if (Derived stops (at t toks d)) (member (first_word t.text) stops) _ _
          (λ b. (reads_none, (k, b)))
          (λ b.
            Yields-bind (Extends (at t toks d)) (Derived stops (at t toks d))
              (parse_tag (parse_until f) t.text (first_word t.text) (at t toks d)) _
              (tag-Extends (parse_until f) ih t toks d _ _ k refl
                (parse_tag-Realizes (parse_until f) t.text (first_word t.text) (at t toks d)))
              (λ r he. before-Derived f stops (at t toks d) r ih he))

parse_until-Derived : (f : ℕ) → IsSound f
unfolding parse_until Yields Derived IsSound IsStop
parse_until-Derived zero stops p = tt
parse_until-Derived (suc f) stops p = by_toks p.toks (parse_until-Derived f)
  where
    by_toks :
        (ts : List Token)
        → IsSound f
        → Yields
            (Derived stops (record { toks = ts; found = p.found }))
            (parse_until (suc f) stops (record { toks = ts; found = p.found }))
    by_toks [] ih = (reads_none, tt)
    by_toks (t ∷ toks) ih = parse_until-Derived-step f stops t toks p.found ih

-- The parser returns nodes and declarations for the tokens of a template exactly when the grammar
-- derives them from all of its tokens.
pub parse_tokens_iff :
    (toks : List Token) (ns : Nodes) (e : Found)
    → (parse_tokens toks ≡ done (ns, record { toks = []; found = e }))
      ↔ Reads toks nothing_found ns [] e
unfolding parse_tokens Yields Derived IsSound
parse_tokens_iff toks ns e = (
  λ h.
      (subst (Yields (Derived [] (record { toks = toks; found = nothing_found }))) h (
        parse_until-Derived (suc (length toks)) []
          (record { toks = toks; found = nothing_found }))).0,
  parse_tokens-Reads toks ns e,
)
