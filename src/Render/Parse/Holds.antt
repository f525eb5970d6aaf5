-- ===== src/Render/Parse/Holds.antt =====
-- Predicates on what the parser comes to, and the tokens that are left.
use sobs.Prelude.{
  ℕ, suc, ◌≤◌, ◌<◌, ◌≡◌, refl, sym, ap, subst, Bool, true, false, ◌||◌, false≢true, Option, none,
  some, List, [], ◌∷◌, arith, if◌then◌else◌, length, drop,
}
use sobs.Text.{Text, lit, text_eq, member}
use sobs.Render.Lex.{Token}
use sobs.Render.Words.{first_word}
use sobs.Render.Parse.{Nodes, Parser, Outcome, done, failed, panics, exhausted, ◌>>=◌, advance}
use sobs.Render.Parse.Tags.{current}

-- A result satisfies a predicate, and the fuel does not run out.
unfoldable pub Holds {ℓ} : {A : Type ℓ} → (A → Type 0) → Outcome A → Type 0
Holds P (done a) = P a
Holds P (failed e) = Unit
Holds P panics = Unit
Holds P exhausted = ⊥

module _ {ℓ κ} {A : Type ℓ} {B : Type κ} (P : A → Type 0) (Q : B → Type 0) where
  pub Holds-bind :
      (o : Outcome A) (k : A → Outcome B)
      → Holds P o
      → ((a : A) → P a → Holds Q (k a))
      → Holds Q (o >>= k)
  unfolding Holds
  Holds-bind (done a) k h hk = hk a h
  Holds-bind (failed e) k h hk = tt
  Holds-bind panics k h hk = tt
  Holds-bind exhausted k h hk = absurd h

module _ {ℓ} {A : Type ℓ} (P : A → Type 0) where
  pub Holds-if :
      (b : Bool) (o o' : Outcome A)
      → (b ≡ true → Holds P o)
      → (b ≡ false → Holds P o')
      → Holds P (if b then o else o')
  Holds-if true o o' h h' = h refl
  Holds-if false o o' h h' = h' refl

module _ {ℓ κ} {A : Type ℓ} {X : Type κ} (P : A → Type 0) where
  pub Holds-option :
      (o : Option X) (k0 : Outcome A) (k : X → Outcome A)
      → Holds P k0
      → ((x : X) → Holds P (k x))
      → Holds P (elim o [ none ↦ k0 | some x ↦ k x ])
  Holds-option none k0 k h h' = h
  Holds-option (some x) k0 k h h' = h' x

-- At most so many tokens are left.
unfoldable pub Within {ℓ} : {A : Type ℓ} → ℕ → A × Parser → Type 0
Within m r = length r.1.toks ≤ m

-- The next token, if any, is one that stops.
unfoldable pub stopped : List Text → List Token → Bool
stopped stops [] = true
stopped stops (t ∷ toks) = member (first_word t.text) stops

unfoldable pub Ends : List Text → ℕ → Nodes × Parser → Type 0
Ends stops m r = (length r.1.toks ≤ m) × (stopped stops r.1.toks ≡ true)

abbrev pub if_stops : List Text
if_stops = lit "elif" ∷ lit "else" ∷ lit "endif" ∷ []

unfoldable pub Next : Parser → Text → Type 0
Next p s = (t : Token) × (toks : List Token) × (p.toks ≡ t ∷ toks) × (s ≡ t.text)

pub current-Holds : (p : Parser) → Holds (Next p) (current p)
unfolding current Holds Next
current-Holds p = by_tokens p.toks refl
  where
    by_tokens :
        (ts : List Token)
        → p.toks ≡ ts
        → Holds (Next p) (elim ts [ [] ↦ panics | t ∷ toks ↦ done t.text ])
    by_tokens [] h = tt
    by_tokens (t ∷ toks) h = (t, toks, h, refl)

length-drop : (toks : List Token) (m : ℕ) → length toks ≤ suc m → length (drop 1 toks) ≤ m
length-drop [] m h = omega arith
length-drop (t ∷ toks) m h = omega (arith, h)

pub length-drop_le : (toks : List Token) (m : ℕ) → length toks ≤ m → length (drop 1 toks) ≤ m
length-drop_le [] m h = omega arith
length-drop_le (t ∷ toks) m h = omega (arith, h)

last-true : (a b c : Bool) → a || (b || (c || false)) ≡ true → b ≡ false → c ≡ false → a ≡ true
last-true a b c h hb hc = ground arith

elif-true :
    (q : Parser) (stop : Text)
    → Next q stop
    → stopped if_stops q.toks ≡ true
    → text_eq (first_word stop) (lit "else") ≡ false
    → text_eq (first_word stop) (lit "endif") ≡ false
    → text_eq (first_word stop) (lit "elif") ≡ true
unfolding Next stopped member
elif-true q stop (t, toks, eq, es) hs h1 h2 =
    last-true _ _ _
      (subst (λ s. member (first_word s) if_stops ≡ true) (sym es)
        (subst (λ ts. stopped if_stops ts ≡ true) eq hs))
      h1 h2

advance-shorter :
    (b : Bool) (q : Parser) (stop : Text) (f : ℕ)
    → Next q stop
    → b ≡ true
    → length q.toks < suc f
    → length (if b then advance q else q).toks < f
unfolding Next advance
advance-shorter true q stop f (t, toks, eq, es) hb hl =
    omega (arith, hl, ap (λ ts. length (drop 1 ts)) eq, ap length eq)
advance-shorter false q stop f h hb hl = absurd (false≢true hb)

-- The stop tag that is neither `else` nor `endif` is `elif`, and the loop goes on behind it.
pub elif-shorter :
    (q : Parser) (stop : Text) (f : ℕ)
    → Next q stop
    → stopped if_stops q.toks ≡ true
    → text_eq (first_word stop) (lit "else") ≡ false
    → text_eq (first_word stop) (lit "endif") ≡ false
    → length q.toks < suc f
    → length (if text_eq (first_word stop) (lit "elif") then advance q else q).toks < f
elif-shorter q stop f hn hs h1 h2 hl =
    advance-shorter _ q stop f hn (elif-true q stop hn hs h1 h2) hl
