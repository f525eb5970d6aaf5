-- ===== src/Json/Sorting.antt =====
-- sortStrings: its result is in order and holds the same strings.
use sobs.Prelude.{ℕ, ◌+◌, ◌≡◌, refl, Bool, true, false, List, [], ◌∷◌, arith, if◌then◌else◌}
use sobs.Text.{text_lt, Text, text_eq}
use sobs.Text.Laws.{text_lt-asym}
use sobs.Json.Encode.{sink, sort_loop, onto, sort_strings}

-- How often a string occurs.
abbrev pub occurrences : Text → List Text → ℕ
occurrences s [] = 0
occurrences s (x ∷ xs) = (if text_eq s x then 1 else 0) + occurrences s xs

-- No string is smaller than the one in front of it.
abbrev pub Ascending : List Text → Type 0
Ascending [] = Unit
Ascending (x ∷ []) = Unit
Ascending (x ∷ y ∷ ys) = (text_lt y x ≡ false) × Ascending (y ∷ ys)

-- No string is greater than the one in front of it.
abbrev Descending : List Text → Type 0
Descending [] = Unit
Descending (x ∷ []) = Unit
Descending (x ∷ y ∷ ys) = (text_lt x y ≡ false) × Descending (y ∷ ys)

abbrev Under : Text → List Text → Type 0
Under c [] = Unit
Under c (d ∷ ds) = (text_lt c d ≡ false) × Descending (d ∷ ds)

Descending-Under : (c : Text) (ds : List Text) → Descending (c ∷ ds) → Under c ds
Descending-Under c [] h = tt
Descending-Under c (d ∷ ds) h = h

Under-Descending : (c : Text) (ds : List Text) → Under c ds → Descending (c ∷ ds)
Under-Descending c [] h = tt
Under-Descending c (d ∷ ds) h = h

sink-Under : (e x : Text) (ys : List Text) → text_lt e x ≡ false → Under e ys → Under e (sink x ys)
unfolding sink
sink-Under e x [] h s = (h, tt)
sink-Under e x (y ∷ ys) h s =
    by_test (text_lt x y) refl
      (λ n. sink-Under y x ys (text_lt-asym x y n) (Descending-Under y ys s.1))
  where
    by_test :
        (t : Bool)
        → text_lt x y ≡ t
        → (text_lt x y ≡ true → Under y (sink x ys))
        → Under e (if t then y ∷ sink x ys else x ∷ y ∷ ys)
    by_test true n rest = (s.0, Under-Descending y (sink x ys) (rest n))
    by_test false n rest = (h, (n, s.1))

sink-Descending : (x : Text) (ys : List Text) → Descending ys → Descending (sink x ys)
unfolding sink
sink-Descending x [] s = tt
sink-Descending x (y ∷ ys) s = by_test (text_lt x y) refl
  where
    by_test : (t : Bool) → text_lt x y ≡ t → Descending (if t then y ∷ sink x ys else x ∷ y ∷ ys)
    by_test true n =
        Under-Descending y (sink x ys)
          (sink-Under y x ys (text_lt-asym x y n) (Descending-Under y ys s))
    by_test false n = (n, s)

sort_loop-Descending : (done xs : List Text) → Descending done → Descending (sort_loop done xs)
unfolding sort_loop
sort_loop-Descending done [] s = s
sort_loop-Descending done (x ∷ xs) s =
    sort_loop-Descending (sink x done) xs (sink-Descending x done s)

-- What stands in front of what has been turned over.
abbrev Meets : List Text → List Text → Type 0
Meets [] ys = Unit
Meets (x ∷ xs) [] = Unit
Meets (x ∷ xs) (y ∷ ys) = text_lt y x ≡ false

onto-Ascending :
    (xs ys : List Text) → Descending xs → Ascending ys → Meets xs ys → Ascending (onto xs ys)
unfolding onto
onto-Ascending [] ys s t m = t
onto-Ascending (x ∷ []) [] s t m = tt
onto-Ascending (x ∷ []) (y ∷ ys) s t m = (m, t)
onto-Ascending (x ∷ x' ∷ xs) [] s t m = onto-Ascending (x' ∷ xs) (x ∷ []) s.1 tt s.0
onto-Ascending (x ∷ x' ∷ xs) (y ∷ ys) s t m = onto-Ascending (x' ∷ xs) (x ∷ y ∷ ys) s.1 (m, t) s.0

occurrences-sink :
    (s x : Text) (ys : List Text) → occurrences s (sink x ys) ≡ occurrences s (x ∷ ys)
unfolding sink
occurrences-sink s x [] = refl
occurrences-sink s x (y ∷ ys) = ground (arith, occurrences-sink s x ys)

occurrences-sort_loop :
    (s : Text) (done xs : List Text)
    → occurrences s (sort_loop done xs) ≡ occurrences s done + occurrences s xs
unfolding sort_loop
occurrences-sort_loop s done [] = omega arith
occurrences-sort_loop s done (x ∷ xs) =
    omega (arith, occurrences-sort_loop s (sink x done) xs, occurrences-sink s x done)

occurrences-onto :
    (s : Text) (xs ys : List Text)
    → occurrences s (onto xs ys) ≡ occurrences s xs + occurrences s ys
unfolding onto
occurrences-onto s [] ys = omega arith
occurrences-onto s (x ∷ xs) ys = omega (arith, occurrences-onto s xs (x ∷ ys))

-- The sorted list is ascending in the order of the bytes, and every string occurs in it as often as in
-- the list that was sorted.
pub sort_strings-IsSorting :
    (xs : List Text)
    → Ascending (sort_strings xs)
      × ((s : Text) → occurrences s (sort_strings xs) ≡ occurrences s xs)
unfolding sort_strings
sort_strings-IsSorting xs = (
  onto-Ascending (sort_loop [] xs) [] (sort_loop-Descending [] xs tt) tt
      (meets_nil (sort_loop [] xs)),
  λ s. omega (arith, occurrences-onto s (sort_loop [] xs) [], occurrences-sort_loop s [] xs),
)
  where
    meets_nil : (ys : List Text) → Meets ys []
    meets_nil [] = tt
    meets_nil (y ∷ ys) = tt
