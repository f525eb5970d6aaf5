-- ===== src/Query/Difflib/Close.antt =====
-- What the closest matches of a word are: the first of the possibilities of at least the cutoff, in the
-- order of the sort.
use sobs.Prelude.{
  drop, ◌<◌, ◌++◌, ◌∙◌, sym, take-append-drop, inl, inr, ℕ, zero, suc, ◌≤◌, ◌≡◌, refl, ap, subst,
  Bool, true, false, List, [], ◌∷◌, arith, if◌then◌else◌, length, take, length-take,
}
use sobs.Text.{member, Text}
use sobs.Text.Laws.{text_eq_refl, text_eq-cases}
use sobs.Json.Sorting.{occurrences}
use sobs.Query.Difflib.{
  Ratio, ratio_lt, Candidate, insert_candidate, sort_candidates, candidates, names,
  get_close_matches,
}
use sobs.Query.Difflib.Sorted.{InOrder, sort_candidates-InOrder}
use sobs.Query.Difflib.Ranks.{ratio_of, InOrder-ratio}

-- How often a name occurs among candidates.
occurrences-insert_candidate :
    (s : Text) (c : Candidate) (cs : List Candidate)
    → occurrences s (names (insert_candidate c cs)) ≡ occurrences s (c.x ∷ names cs)
unfolding insert_candidate names
occurrences-insert_candidate s c [] = refl
occurrences-insert_candidate s c (d ∷ ds) = ground (arith, occurrences-insert_candidate s c ds)

occurrences-sort_candidates :
    (s : Text) (cs : List Candidate)
    → occurrences s (names (sort_candidates cs)) ≡ occurrences s (names cs)
unfolding sort_candidates names
occurrences-sort_candidates s [] = refl
occurrences-sort_candidates s (c ∷ cs) =
    omega (
      arith,
      occurrences-insert_candidate s c (sort_candidates cs),
      occurrences-sort_candidates s cs,
    )

-- Whether a name is not close enough to the word.
abbrev pub is_far : Text → Ratio → Text → Bool
is_far word cutoff x = ratio_lt (ratio_of word x) cutoff

occurrences-candidates :
    (word : Text) (cutoff : Ratio) (s : Text) (xs : List Text)
    → occurrences s (names (candidates word cutoff xs))
      ≡ (if is_far word cutoff s then 0 else occurrences s xs)
unfolding candidates names
occurrences-candidates word cutoff s [] = ground arith
occurrences-candidates word cutoff s (x ∷ xs) = elim (text_eq-cases s x) [
  | inl (t, e) ↦
      subst
        (λ y.
          occurrences s (names (candidates word cutoff (y ∷ xs)))
          ≡ (if is_far word cutoff s then 0 else occurrences s (y ∷ xs)))
        e (ground (arith, text_eq_refl s, occurrences-candidates word cutoff s xs))
  | inr t ↦ ground (arith, occurrences-candidates word cutoff s xs)
]

names-append : (cs ds : List Candidate) → names (cs ++ ds) ≡ names cs ++ names ds
unfolding names
names-append [] ds = refl
names-append (c ∷ cs) ds = ap (λ l. c.x ∷ l) (names-append cs ds)

names-length : (cs : List Candidate) → length (names cs) ≡ length cs
unfolding names
names-length [] = refl
names-length (c ∷ cs) = ap suc (names-length cs)

drop-few : (n : ℕ) (cs : List Candidate) → length (take n cs) < n → names (drop n cs) ≡ []
unfolding names
drop-few zero cs h = absurd (omega arith)
drop-few (suc n) [] h = refl
drop-few (suc n) (c ∷ cs) h = drop-few n cs (omega arith)

-- The names found and the rest are together the possibilities of at least the cutoff, as often as they
-- occur, in order; the names found are the first n of them, or all where there are fewer.
pub record IsCloseMatches (word : Text) (possibilities : List Text) (n : ℕ) (cutoff : Ratio)
    (found : List Text) : Type 0 where
  pub rest : List Text
  pub in_order : InOrder word (found ++ rest)
  pub same :
      (s : Text)
      → occurrences s (found ++ rest)
        ≡ (if is_far word cutoff s then 0 else occurrences s possibilities)
  pub closest :
      (x y : Text)
      → member x found ≡ true
      → member y rest ≡ true
      → ratio_lt (ratio_of word x) (ratio_of word y) ≡ false
  pub few : length found ≤ n
  pub all_or_first : length found < n → rest ≡ []

-- The closest matches are the first n of a list, or the whole list where it is shorter: the list holds
-- each possibility whose ratio is not below the cutoff as often as the possibilities do, and nothing
-- else; no name of it comes before the one in front of it, where the higher ratio comes first and the
-- greater name among equal ratios; and no name of the list behind the matches has a higher ratio than
-- one of them.
pub get_close_matches-IsCloseMatches :
    (word : Text) (possibilities : List Text) (n : ℕ) (cutoff : Ratio)
    → IsCloseMatches word possibilities n cutoff (get_close_matches word possibilities n cutoff)
unfolding get_close_matches
get_close_matches-IsCloseMatches word ps n cutoff = record {
  rest = names (drop n sorted);
  in_order = subst (InOrder word) whole (sort_candidates-InOrder word cutoff ps);
  closest = λ x y.
      InOrder-ratio word (names (take n sorted)) (names (drop n sorted)) x y
        (subst (InOrder word) whole (sort_candidates-InOrder word cutoff ps));
  same = λ s.
      ap (occurrences s) (sym whole)
      ∙ (occurrences-sort_candidates s (candidates word cutoff ps)
          ∙ occurrences-candidates word cutoff s ps);
  few = omega (arith, names-length (take n sorted), length-take n sorted);
  all_or_first = λ h. drop-few n sorted (omega (arith, names-length (take n sorted)));
}
  where
    sorted : List Candidate
    sorted = sort_candidates (candidates word cutoff ps)

    whole : names sorted ≡ names (take n sorted) ++ names (drop n sorted)
    whole =
        ap names (sym (take-append-drop n sorted)) ∙ names-append (take n sorted) (drop n sorted)
