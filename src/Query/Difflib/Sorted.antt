-- ===== src/Query/Difflib/Sorted.antt =====
-- The candidates for the closest matches are sorted.
use sobs.Prelude.{◌≡◌, refl, subst, Bool, true, false, List, [], ◌∷◌, arith, if◌then◌else◌, All}
use sobs.Text.Utf8.{runes}
use sobs.Text.{Text}
use sobs.Text.Laws.{text_lt-asym}
use sobs.Query.Difflib.{
  Ratio, sequence_ratio, ratio_lt, Candidate, comes_first, insert_candidate, sort_candidates,
  candidates, names,
}

-- The candidate of a name.
abbrev pub candidate : Text → Text → Candidate
candidate word x = record { ratio = sequence_ratio (runes x) (runes word); x = x }

-- No name comes before the one in front of it in the order of the sort.
abbrev pub InOrder : Text → List Text → Type 0
InOrder word [] = Unit
InOrder word (x ∷ []) = Unit
InOrder word (x ∷ y ∷ ys) =
    (comes_first (candidate word y) (candidate word x) ≡ false) × InOrder word (y ∷ ys)

HasRatio : Text → Candidate → Type 0
HasRatio word c = c.ratio ≡ sequence_ratio (runes c.x) (runes word)

candidates-HasRatio :
    (word : Text) (cutoff : Ratio) (possibilities : List Text)
    → All (HasRatio word) (candidates word cutoff possibilities)
unfolding candidates HasRatio
candidates-HasRatio word cutoff [] = tt
candidates-HasRatio word cutoff (x ∷ xs) =
    by_test (ratio_lt (sequence_ratio (runes x) (runes word)) cutoff)
      (candidates-HasRatio word cutoff xs)
  where
    by_test :
        (t : Bool)
        → All (HasRatio word) (candidates word cutoff xs)
        → All
            (HasRatio word)
            (if t then candidates word cutoff xs else candidate word x ∷ candidates word cutoff xs)
    by_test true rest = rest
    by_test false rest = (refl, rest)

insert_candidate-All :
    (P : Candidate → Type 0) (c : Candidate) (cs : List Candidate)
    → P c
    → All P cs
    → All P (insert_candidate c cs)
unfolding insert_candidate
insert_candidate-All P c [] h hs = (h, tt)
insert_candidate-All P c (d ∷ ds) h hs =
    by_test (comes_first c d) (insert_candidate-All P c ds h hs.1)
  where
    by_test :
        (t : Bool)
        → All P (insert_candidate c ds)
        → All P (if t then c ∷ d ∷ ds else d ∷ insert_candidate c ds)
    by_test true rest = (h, hs)
    by_test false rest = (hs.0, rest)

sort_candidates-All :
    (P : Candidate → Type 0) (cs : List Candidate) → All P cs → All P (sort_candidates cs)
unfolding sort_candidates
sort_candidates-All P [] h = tt
sort_candidates-All P (c ∷ cs) h =
    insert_candidate-All P c (sort_candidates cs) h.0 (sort_candidates-All P cs h.1)

comes_first-asym : (c d : Candidate) → comes_first c d ≡ true → comes_first d c ≡ false
unfolding comes_first
comes_first-asym c d h = ground (arith, text_lt-asym d.x c.x)

-- No candidate comes before the one in front of it.
abbrev Sorted : List Candidate → Type 0
Sorted [] = Unit
Sorted (c ∷ []) = Unit
Sorted (c ∷ d ∷ ds) = (comes_first d c ≡ false) × Sorted (d ∷ ds)

-- A sorted list behind a candidate that none of it comes before.
abbrev After : Candidate → List Candidate → Type 0
After c [] = Unit
After c (d ∷ ds) = (comes_first d c ≡ false) × Sorted (d ∷ ds)

Sorted-After : (c : Candidate) (ds : List Candidate) → Sorted (c ∷ ds) → After c ds
Sorted-After c [] h = tt
Sorted-After c (d ∷ ds) h = h

After-Sorted : (c : Candidate) (ds : List Candidate) → After c ds → Sorted (c ∷ ds)
After-Sorted c [] h = tt
After-Sorted c (d ∷ ds) h = h

insert_candidate-After :
    (e c : Candidate) (ds : List Candidate)
    → comes_first c e ≡ false
    → After e ds
    → After e (insert_candidate c ds)
unfolding insert_candidate
insert_candidate-After e c [] h s = (h, tt)
insert_candidate-After e c (d ∷ ds) h s =
    by_test (comes_first c d) (comes_first-asym c d)
      (λ n. insert_candidate-After d c ds n (Sorted-After d ds s.1)) refl
  where
    by_test :
        (t : Bool)
        → (t ≡ true → comes_first d c ≡ false)
        → (comes_first c d ≡ false → After d (insert_candidate c ds))
        → comes_first c d ≡ t
        → After e (if t then c ∷ d ∷ ds else d ∷ insert_candidate c ds)
    by_test true asym rest n = (h, (asym refl, s.1))
    by_test false asym rest n = (s.0, After-Sorted d (insert_candidate c ds) (rest n))

insert_candidate-Sorted :
    (c : Candidate) (ds : List Candidate) → Sorted ds → Sorted (insert_candidate c ds)
unfolding insert_candidate
insert_candidate-Sorted c [] s = tt
insert_candidate-Sorted c (d ∷ ds) s = by_test (comes_first c d) (comes_first-asym c d) refl
  where
    by_test :
        (t : Bool)
        → (t ≡ true → comes_first d c ≡ false)
        → comes_first c d ≡ t
        → Sorted (if t then c ∷ d ∷ ds else d ∷ insert_candidate c ds)
    by_test true asym n = (asym refl, s)
    by_test false asym n =
        After-Sorted d (insert_candidate c ds)
          (insert_candidate-After d c ds n (Sorted-After d ds s))

sort_candidates-Sorted : (cs : List Candidate) → Sorted (sort_candidates cs)
unfolding sort_candidates
sort_candidates-Sorted [] = tt
sort_candidates-Sorted (c ∷ cs) =
    insert_candidate-Sorted c (sort_candidates cs) (sort_candidates-Sorted cs)

names-InOrder :
    (word : Text) (cs : List Candidate)
    → All (HasRatio word) cs
    → Sorted cs
    → InOrder word (names cs)
unfolding names HasRatio
names-InOrder word [] h s = tt
names-InOrder word (c ∷ []) h s = tt
names-InOrder word (c ∷ d ∷ ds) h s = (
  subst (λ r. comes_first (record { ratio = r; x = d.x }) (candidate word c.x) ≡ false) h.1.0
      (subst (λ r. comes_first d (record { ratio = r; x = c.x }) ≡ false) h.0 s.0),
  names-InOrder word (d ∷ ds) h.1 s.1,
)

pub sort_candidates-InOrder :
    (word : Text) (cutoff : Ratio) (possibilities : List Text)
    → InOrder word (names (sort_candidates (candidates word cutoff possibilities)))
sort_candidates-InOrder word cutoff possibilities =
    names-InOrder word (sort_candidates (candidates word cutoff possibilities))
      (sort_candidates-All (HasRatio word) _ (candidates-HasRatio word cutoff possibilities))
      (sort_candidates-Sorted (candidates word cutoff possibilities))
