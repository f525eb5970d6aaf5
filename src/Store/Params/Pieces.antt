-- ===== src/Store/Params/Pieces.antt =====
-- Every query can be written in pieces.
use sobs.Prelude.{
  ℕ, ◌≡◌, refl, sym, ap, subst, ◌≢◌, ◌⊎◌, inl, inr, List, [], ◌∷◌, ◌++◌, arith, ◌==◌, ==_iff,
  Bool-cases, All,
}
use sobs.Text.{Text}
use sobs.Store.Params.Placeholders.{
  Piece, plain, single, double, placeholder, Ending, closed, open_single, open_double, print,
}

abbrev InPieces : Text → Type 0
InPieces s = (ps : List Piece) × (e : Ending) × (print ps e ≡ s)

-- What stands behind an opening quote: a stretch that is never closed, or a closed one and a query in
-- pieces.
data Stretch (q : ℕ) (s : Text) : Type 0 where
  never_closed : All (λ c. c ≢ q) s → Stretch q s
  closed_by :
      (body rest : Text)
      → All (λ c. c ≢ q) body
      → s ≡ body ++ q ∷ rest
      → InPieces rest
      → Stretch q s

Stretch-cons : (q c : ℕ) (s : Text) → InPieces s → Stretch q s → Stretch q (c ∷ s)
Stretch-cons q c s here rest = elim (Bool-cases (c == q)) [
  | inl e ↦ closed_by [] s tt (ground (arith, ==_iff c q)) here
  | inr n ↦ later (λ e. cc (n, (==_iff c q).1 e)) rest
]
  where
    later : c ≢ q → Stretch q s → Stretch q (c ∷ s)
    later n (never_closed h) = never_closed (n, h)
    later n (closed_by body rest h e p) = closed_by (c ∷ body) rest (n, h) (ap (λ t. c ∷ t) e) p

InPieces-single : (s : Text) → Stretch b'\'' s → InPieces (b'\'' ∷ s)
unfolding print
InPieces-single s (never_closed h) = ([], open_single s h, refl)
InPieces-single s (closed_by body rest h e (ps, d, p)) =
    (single body h ∷ ps, d, ground (arith, e, p))

InPieces-double : (s : Text) → Stretch b'"' s → InPieces (b'"' ∷ s)
unfolding print
InPieces-double s (never_closed h) = ([], open_double s h, refl)
InPieces-double s (closed_by body rest h e (ps, d, p)) =
    (double body h ∷ ps, d, ground (arith, e, p))

InPieces-plain :
    (c : ℕ) (s : Text) → c ≢ b'\'' → c ≢ b'"' → c ≢ b'?' → InPieces s → InPieces (c ∷ s)
unfolding print
InPieces-plain c s n n' n'' (ps, d, p) = (plain c n n' n'' ∷ ps, d, ap (λ t. c ∷ t) p)

InPieces-placeholder : (s : Text) → InPieces s → InPieces (b'?' ∷ s)
unfolding print
InPieces-placeholder s (ps, d, p) = (placeholder ∷ ps, d, ap (λ t. b'?' ∷ t) p)

==-cases : (c d : ℕ) → (c ≡ d) ⊎ (c ≢ d)
==-cases c d = elim (Bool-cases (c == d)) [
  | inl e ↦ inl ((==_iff c d).0 e)
  | inr n ↦ inr (λ e. cc (n, (==_iff c d).1 e))
]

InPieces-cons :
    (c : ℕ) (s : Text) → InPieces s → Stretch b'\'' s → Stretch b'"' s → InPieces (c ∷ s)
InPieces-cons c s here one two = elim (==-cases c b'\'') [
  | inl e ↦ subst (λ d. InPieces (d ∷ s)) (sym e) (InPieces-single s one)
  | inr n ↦ elim (==-cases c b'"') [
    | inl e ↦ subst (λ d. InPieces (d ∷ s)) (sym e) (InPieces-double s two)
    | inr n' ↦ elim (==-cases c b'?') [
      | inl e ↦ subst (λ d. InPieces (d ∷ s)) (sym e) (InPieces-placeholder s here)
      | inr n'' ↦ InPieces-plain c s n n' n'' here
    ]
  ]
]

read_pieces : (s : Text) → InPieces s × Stretch b'\'' s × Stretch b'"' s
unfolding print
read_pieces [] = (([], closed, refl), never_closed tt, never_closed tt)
read_pieces (c ∷ s) =
    let (here, one, two) = read_pieces s in
    (
      InPieces-cons c s here one two,
      Stretch-cons b'\'' c s here one,
      Stretch-cons b'"' c s here two,
    )

-- Every query is printed from pieces and an ending.
print_total : (s : Text) → InPieces s
print_total s = (read_pieces s).0
