-- ===== src/Query/Difflib/Rows.antt =====
-- The rows of the search: every length that they keep stands for a common stretch of both texts.
use sobs.Prelude.{
  ℕ, zero, suc, ◌+◌, ◌-◌, ◌≤◌, ◌<◌, ◌≡◌, refl, sym, ap₂, subst, ◌⊎◌, inl, inr, Bool, true, false,
  none, some, List, [], ◌∷◌, arith, ltb, leb, ◌==◌, if◌then◌else◌, ==_iff, Option-cases, get_elem?,
  All,
}
use sobs.Text.{Text}
use sobs.Query.Difflib.{
  Block, Box, positions, Lengths, store, before, better, scan_row, positions_at, scan_rows, same_at,
}

-- The `k` bytes from `i` in the first text are those from `j` in the second.
abbrev pub Common : Text → Text → ℕ → ℕ → ℕ → Type 0
Common a b i j zero = Unit
Common a b i j (suc k) = Common a b i j k × (same_at a b (i + k) (j + k) ≡ true)

pub record IsBlock (a b : Text) (q : Box) (m : Block) : Type 0 where
  pub low_i : q.alo ≤ m.i
  pub low_j : q.blo ≤ m.j
  pub high_i : m.i + m.size ≤ q.ahi
  pub high_j : m.j + m.size ≤ q.bhi
  pub common : Common a b m.i m.j m.size

-- A common stretch of length `k` that ends before `ei` and `ej`.
pub record EndsAt (a b : Text) (alo blo ei ej k : ℕ) : Type 0 where
  si : ℕ
  sj : ℕ
  at_i : si + k ≡ ei
  at_j : sj + k ≡ ej
  low_i : alo ≤ si
  low_j : blo ≤ sj
  common : Common a b si sj k

-- What the lengths of a row stand for.
unfoldable pub RowOk : Text → Text → ℕ → ℕ → ℕ → Lengths → Type 0
RowOk a b alo blo i len = (j : ℕ) → (len j ≡ 0) ⊎ EndsAt a b alo blo i (suc j) (len j)

Common-zero : (a b : Text) (i j k : ℕ) → k ≡ 0 → Common a b i j k
Common-zero a b i j zero h = tt
Common-zero a b i j (suc k) h = absurd (omega arith)

EndsAt-zero :
    (a b : Text) (alo blo i j k : ℕ) → alo ≤ i → blo ≤ j → k ≡ 0 → EndsAt a b alo blo i j k
EndsAt-zero a b alo blo i j k hi hj z = record {
  si = i;
  sj = j;
  at_i = omega arith;
  at_j = omega arith;
  low_i = hi;
  low_j = hj;
  common = Common-zero a b i j k z;
}

before-EndsAt :
    (a b : Text) (alo blo i j : ℕ) (len : Lengths)
    → alo ≤ i
    → blo ≤ j
    → RowOk a b alo blo i len
    → EndsAt a b alo blo i j (before len j)
unfolding before RowOk
before-EndsAt a b alo blo i zero len hi hj ok = EndsAt-zero a b alo blo i 0 0 hi hj refl
before-EndsAt a b alo blo i (suc j) len hi hj ok = elim (ok j) [
  | inl e ↦ EndsAt-zero a b alo blo i (suc j) (len j) hi hj e
  | inr e ↦ e
]

EndsAt-suc :
    (a b : Text) (alo blo i j k : ℕ)
    → EndsAt a b alo blo i j k
    → same_at a b i j ≡ true
    → EndsAt a b alo blo (suc i) (suc j) (suc k)
EndsAt-suc a b alo blo i j k e h = record {
  si = e.si;
  sj = e.sj;
  at_i = omega (arith, e.at_i);
  at_j = omega (arith, e.at_j);
  low_i = e.low_i;
  low_j = e.low_j;
  common = (e.common, cc (ap₂ (same_at a b) e.at_i e.at_j, h));
}

All-if :
    (P : ℕ → Type 0) (t : Bool) (x : ℕ) (xs : List ℕ)
    → (t ≡ true → P x)
    → All P xs
    → All P (if t then x ∷ xs else xs)
All-if P true x xs h hs = (h refl, hs)
All-if P false x xs h hs = hs

positions-All :
    (b s : Text) (c from : ℕ)
    → ((n : ℕ) → get_elem? s n ≡ get_elem? b (from + n))
    → All (λ j. get_elem? b j ≡ some c) (positions from c s)
unfolding positions
positions-All b [] c from h = tt
positions-All b (d ∷ s) c from h =
    All-if (λ j. get_elem? b j ≡ some c) (d == c) from (positions (suc from) c s)
      (λ e. ground (arith, h 0)) (positions-All b s c (suc from) (λ n. ground (arith, h (suc n))))

EndsAt-IsBlock :
    (a b : Text) (q : Box) (i j k : ℕ)
    → i < q.ahi
    → j < q.bhi
    → EndsAt a b q.alo q.blo (suc i) (suc j) k
    → IsBlock a b q (record { i = suc i - k; j = suc j - k; size = k })
EndsAt-IsBlock a b q i j k hi hj e = record {
  low_i = omega (arith, e.at_i, e.low_i);
  low_j = omega (arith, e.at_j, e.low_j);
  high_i = omega (arith, e.at_i);
  high_j = omega (arith, e.at_j);
  common =
      subst (λ x. Common a b x (suc j - k) k) (omega (arith, e.at_i))
        (subst (λ y. Common a b e.si y k) (omega (arith, e.at_j)) e.common);
}

better-IsBlock :
    (a b : Text) (q : Box) (i j k : ℕ) (best : Block)
    → i < q.ahi
    → j < q.bhi
    → IsBlock a b q best
    → EndsAt a b q.alo q.blo (suc i) (suc j) k
    → IsBlock a b q (better i j k best)
unfolding better
better-IsBlock a b q i j k best hi hj ok e = by_test (ltb best.size k)
  where
    by_test :
        (t : Bool)
        → IsBlock a b q (if t then record { i = suc i - k; j = suc j - k; size = k } else best)
    by_test true = EndsAt-IsBlock a b q i j k hi hj e
    by_test false = ok

store-RowOk :
    (a b : Text) (alo blo i j k : ℕ) (len : Lengths)
    → RowOk a b alo blo i len
    → EndsAt a b alo blo i (suc j) k
    → RowOk a b alo blo i (store len j k)
unfolding RowOk store
store-RowOk a b alo blo i j k len ok e n = by_test (n == j) (λ h. (==_iff n j).0 h)
  where
    by_test :
        (t : Bool)
        → (t ≡ true → n ≡ j)
        → ((if t then k else len n) ≡ 0) ⊎ EndsAt a b alo blo i (suc n) (if t then k else len n)
    by_test true h = inr (subst (λ x. EndsAt a b alo blo i (suc x) k) (sym (h refl)) e)
    by_test false h = ok n

-- What a row leaves: lengths of common stretches, and a block of the box.
RowResult : Text → Text → Box → ℕ → Lengths × Block → Type 0
RowResult a b q i r = RowOk a b q.alo q.blo i r.0 × IsBlock a b q r.1

same_at-some :
    (a b : Text) (i j c : ℕ)
    → get_elem? a i ≡ some c
    → get_elem? b j ≡ some c
    → same_at a b i j ≡ true
unfolding same_at
same_at-some a b i j c ha hb = ground arith

scan_row-RowResult :
    (a b : Text) (q : Box) (i c : ℕ) (j2len : Lengths) (js : List ℕ) (new : Lengths) (best : Block)
    → q.alo ≤ i
    → i < q.ahi
    → get_elem? a i ≡ some c
    → All (λ j. get_elem? b j ≡ some c) js
    → RowOk a b q.alo q.blo i j2len
    → RowOk a b q.alo q.blo (suc i) new
    → IsBlock a b q best
    → RowResult a b q (suc i) (scan_row i q.blo q.bhi j2len js new best)
unfolding scan_row RowResult
scan_row-RowResult a b q i c j2len [] new best lo hi ha hs old ok blk = (ok, blk)
scan_row-RowResult a b q i c j2len (j ∷ js) new best lo hi ha hs old ok blk =
    by_tests (ltb j q.blo) (leb q.bhi j) (λ h. ground arith) (λ h. ground arith)
      (λ new' best' ok' blk'.
        scan_row-RowResult a b q i c j2len js new' best' lo hi ha hs.1 old ok' blk')
  where
    by_tests :
        (t u : Bool)
        → (t ≡ false → q.blo ≤ j)
        → (u ≡ false → j < q.bhi)
        → ((new' : Lengths) (best' : Block)
            → RowOk a b q.alo q.blo (suc i) new'
            → IsBlock a b q best'
            → RowResult a b q (suc i) (scan_row i q.blo q.bhi j2len js new' best'))
        → RowResult a b q (suc i) (
            if t
            then scan_row i q.blo q.bhi j2len js new best
            else if u
            then (new, best)
            else scan_row i q.blo q.bhi j2len js
                (store new j (suc (before j2len j)))
                (better i j (suc (before j2len j)) best))
    by_tests true u ht hu next = next new best ok blk
    by_tests false true ht hu next = (ok, blk)
    by_tests false false ht hu next =
        let e =
          EndsAt-suc a b q.alo q.blo i j (before j2len j)
            (before-EndsAt a b q.alo q.blo i j j2len lo (ht refl) old)
            (same_at-some a b i j c ha hs.0) in
        next _ _ (store-RowOk a b q.alo q.blo (suc i) j (suc (before j2len j)) new ok e)
          (better-IsBlock a b q i j (suc (before j2len j)) best hi (hu refl) blk e)

positions_at-none : (a b : Text) (i : ℕ) → get_elem? a i ≡ none → positions_at a b i ≡ []
unfolding positions_at
positions_at-none a b i h = ground arith

positions_at-some :
    (a b : Text) (i c : ℕ) → get_elem? a i ≡ some c → positions_at a b i ≡ positions 0 c b
unfolding positions_at
positions_at-some a b i c h = ground arith

row-RowResult :
    (a b : Text) (q : Box) (i : ℕ) (j2len : Lengths) (best : Block)
    → q.alo ≤ i
    → i < q.ahi
    → RowOk a b q.alo q.blo i j2len
    → IsBlock a b q best
    → RowResult a b q (suc i) (scan_row i q.blo q.bhi j2len (positions_at a b i) (λ j. 0) best)
unfolding RowResult RowOk scan_row
row-RowResult a b q i j2len best lo hi old blk = elim (Option-cases (get_elem? a i)) [
  | inl e ↦ subst Result (sym (positions_at-none a b i e)) ((λ j. inl refl), blk)
  | inr (c, e) ↦ subst Result (sym (positions_at-some a b i c e)) (
      scan_row-RowResult a b q i c j2len (positions 0 c b) (λ j. 0) best lo hi e
        (positions-All b b c 0 (λ n. ground arith)) old (λ j. inl refl) blk)
]
  where
    Result : List ℕ → Type 0
    Result js = RowResult a b q (suc i) (scan_row i q.blo q.bhi j2len js (λ j. 0) best)

pub scan_rows-IsBlock :
    (a b : Text) (q : Box) (rounds i : ℕ) (j2len : Lengths) (best : Block)
    → q.alo ≤ i
    → i + rounds ≡ q.ahi
    → RowOk a b q.alo q.blo i j2len
    → IsBlock a b q best
    → IsBlock a b q (scan_rows a b q.blo q.bhi rounds i j2len best)
unfolding scan_rows RowResult
scan_rows-IsBlock a b q zero i j2len best lo e old blk = blk
scan_rows-IsBlock a b q (suc rounds) i j2len best lo e old blk =
    let r = row-RowResult a b q i j2len best lo (omega arith) old blk in
    scan_rows-IsBlock a b q rounds (suc i) _ _ (omega arith) (omega arith) r.0 r.1
