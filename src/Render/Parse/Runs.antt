-- ===== src/Render/Parse/Runs.antt =====
-- Predicates of tokens that run through the parser.
use sobs.Prelude.{
  ℕ, zero, suc, ◌≤◌, ◌<◌, ◌≡◌, refl, ap, ◌∙◌, subst, true, Option, List, [], ◌∷◌, arith, length,
  all_of,
}
use sobs.Text.{Text, member}
use sobs.Render.Lex.{Token, tok_tag}
use sobs.Render.Words.{first_word}
use sobs.Render.Parse.{Node, Nodes, Branches, no_nodes, Parser, Found, Outcome, done}
use sobs.Render.Parse.Run.{if_loop, parse_tag, parse_until, before}
use sobs.Render.Parse.Grammar.{Shape, plain, shape, Tag, tag_here, End, end_tag, end_of_template}
use sobs.Render.Parse.Run.{and_then}
use sobs.Render.Parse.Shapes.{Realizes, parse_tag-Realizes}
use sobs.Render.Parse.Steps.{end_like, not_stop, placed, state, parse_until-stop, parse_until-tag}

-- The parser stops here.
unfoldable pub IsStop : List Text → List Token → Type 0
IsStop stops [] = Unit
IsStop stops (t ∷ toks) = (t.kind ≡ tok_tag) × (member (first_word t.text) stops ≡ true)

pub parse_until-IsStop :
    (f : ℕ) (stops : List Text) (toks : List Token) (d : Found)
    → IsStop stops toks
    → parse_until (suc f) stops (state toks d) ≡ done (no_nodes, state toks d)
unfolding IsStop parse_until
parse_until-IsStop f stops [] d h = refl
parse_until-IsStop f stops (t ∷ toks) d h = parse_until-stop f stops t toks d h.0 h.1

pub before-done :
    (n : Option Node) (o : Outcome (Nodes × Parser)) (ns : Nodes) (q : Parser)
    → o ≡ done (ns, q)
    → before n o ≡ done (and_then n ns, q)
unfolding before
before-done n o ns q h = rw h refl

pub Tag-IsStop :
    (kw : Text) (toks rest : List Token) (stops : List Text)
    → member kw stops ≡ true
    → Tag kw toks rest
    → IsStop stops toks
unfolding IsStop
Tag-IsStop kw toks rest stops h (tag_here t r k e) = (k, rw e h)

pub End-IsStop :
    (kw : Text) (toks rest : List Token) (stops : List Text)
    → member kw stops ≡ true
    → End kw toks rest
    → IsStop stops toks
unfolding IsStop
End-IsStop kw toks rest stops h (end_tag g) = Tag-IsStop kw toks rest stops h g
End-IsStop kw toks rest stops h end_of_template = tt

-- The parser turns the tokens up to `rest` into the nodes `ns`, on fuel that exceeds the tokens.
unfoldable pub Runs : List Token → Found → Nodes → List Token → Found → Type 0
unfolding IsStop
Runs toks d ns rest e =
    (length rest ≤ length toks)
    × ((f : ℕ) (stops : List Text)
        → length toks < f
        → all_of end_like stops ≡ true
        → IsStop stops rest
        → parse_until f stops (state toks d) ≡ done (ns, state rest e))

unfoldable pub RunsArms : Text → List Token → Found → Branches → List Token → Found → Type 0
RunsArms cond toks d bs rest e =
    (length rest ≤ length toks)
    × ((f g : ℕ)
        → length toks < f
        → length toks < g
        → if_loop (parse_until f) g cond (state toks d) ≡ done (bs, state rest e))

-- What stands in front of tokens that run, when it takes one step of the parser.
pub Runs-step :
    (n : Option Node) (t : Token) (toks after rest : List Token) (d d1 e : Found) (ns : Nodes)
    → length after ≤ length toks
    → ((f : ℕ) (stops : List Text)
        → length toks < f
        → all_of end_like stops ≡ true
        → parse_until (suc f) stops (state (t ∷ toks) d)
          ≡ before n (parse_until f stops (state after d1)))
    → Runs after d1 ns rest e
    → Runs (t ∷ toks) d (and_then n ns) rest e
unfolding Runs
Runs-step n t toks after rest d d1 e ns la hs (lr, hr) = (omega (arith, la, lr), λ f. by_fuel f)
  where
    by_fuel :
        (f : ℕ) (stops : List Text)
        → length (t ∷ toks) < f
        → all_of end_like stops ≡ true
        → IsStop stops rest
        → parse_until f stops (state (t ∷ toks) d) ≡ done (and_then n ns, state rest e)
    by_fuel zero stops l h hi = absurd (omega (arith, l))
    by_fuel (suc f) stops l h hi =
        hs f stops (omega (arith, l)) h
        ∙ before-done n (parse_until f stops (state after d1)) ns (state rest e)
            (hr f stops (omega (arith, l, la)) h hi)

-- The same for a tag, from what parse_tag makes of it.
pub Runs-tag :
    (n : Option Node) (t : Token) (toks after rest : List Token) (d d1 e : Found) (ns : Nodes)
    → t.kind ≡ tok_tag
    → placed (shape (first_word t.text) t.text) ≡ true
    → length after ≤ length toks
    → ((f : ℕ)
        → length toks < f
        → parse_tag (parse_until f) t.text (first_word t.text) (state (t ∷ toks) d)
          ≡ done (n, state after d1))
    → Runs after d1 ns rest e
    → Runs (t ∷ toks) d (and_then n ns) rest e
Runs-tag n t toks after rest d d1 e ns k hp la ht hr =
    Runs-step n t toks after rest d d1 e ns la
      (λ f stops l h.
        parse_until-tag f stops t toks d k (not_stop t.text stops h hp) n (state after d1) (ht f l))
      hr

pub realized :
    (f : ℕ) (t : Token) (toks : List Token) (d : Found) (s : Shape)
    → shape (first_word t.text) t.text ≡ s
    → Realizes
        (parse_until f)
        (state (t ∷ toks) d)
        s
        (parse_tag (parse_until f) t.text (first_word t.text) (state (t ∷ toks) d))
realized f t toks d s h =
    subst
      (λ u.
        Realizes (parse_until f) (state (t ∷ toks) d) u
          (parse_tag (parse_until f) t.text (first_word t.text) (state (t ∷ toks) d)))
      h (parse_tag-Realizes (parse_until f) t.text (first_word t.text) (state (t ∷ toks) d))

-- A body runs up to its end.
pub Runs-body :
    (toks : List Token) (d : Found) (ns : Nodes) (mid : List Token) (e : Found) (f : ℕ)
    (stops : List Text)
    → Runs toks d ns mid e
    → length toks < f
    → all_of end_like stops ≡ true
    → IsStop stops mid
    → parse_until f stops (state toks d) ≡ done (ns, state mid e)
unfolding Runs
Runs-body toks d ns mid e f stops h l hs hi = h.1 f stops l hs hi

pub End-length : (kw : Text) (toks rest : List Token) → End kw toks rest → length rest ≤ length toks
End-length kw toks rest (end_tag (tag_here t r k e)) = omega arith
End-length kw toks rest end_of_template = omega arith

pub Runs-plain :
    (n : Option Node) (find : Found → Found) (t : Token) (toks rest : List Token) (d e : Found)
    (ns : Nodes)
    → t.kind ≡ tok_tag
    → shape (first_word t.text) t.text ≡ plain n find
    → Runs toks (find d) ns rest e
    → Runs (t ∷ toks) d (and_then n ns) rest e
unfolding Realizes
Runs-plain n find t toks rest d e ns k sh hr =
    Runs-tag n t toks toks rest d (find d) e ns k (ap placed sh) (omega arith)
      (λ f l. realized f t toks d (plain n find) sh) hr
