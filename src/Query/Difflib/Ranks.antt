-- ===== src/Query/Difflib/Ranks.antt =====
-- In a sorted list of names no name has a higher ratio than one in front of it.
use sobs.Prelude.{
  ℕ, ◌*◌, ◌≤◌, ◌<◌, ◌≡◌, sym, ap, ◌∙◌, subst, inl, inr, true, false, List, [], ◌∷◌, ◌++◌, arith,
}
use mathlib.Core.Path.{subst₂}
use native.Mathlib.Nat.{mul_assoc, mul_comm, le_trans, mul-le-mul_right, le_of_mul-le-mul_right}
use sobs.Text.Utf8.{runes}
use sobs.Text.{Text, member}
use sobs.Text.Laws.{text_eq-cases}
use sobs.Query.Difflib.{Ratio, sequence_ratio, ratio_lt, comes_first}
use sobs.Query.Difflib.Total.{sequence_ratio-bounded}
use sobs.Query.Difflib.Sorted.{InOrder, candidate}

-- The ratio of a name and the word.
abbrev pub ratio_of : Text → Text → Ratio
ratio_of word x = sequence_ratio (runes x) (runes word)

swap_last : (a b c : ℕ) → a * b * c ≡ a * c * b
swap_last a b c = mul_assoc a b c ∙ (ap (λ m. a * m) (mul_comm b c) ∙ sym (mul_assoc a c b))

ratio_lt_trans :
    (p q r : Ratio) → 0 < q.den → ratio_lt p q ≡ false → ratio_lt q r ≡ false → ratio_lt p r ≡ false
ratio_lt_trans p q r pos h h' =
    let first : r.num * q.den * p.den ≤ q.num * r.den * p.den =
      mul-le-mul_right p.den (ground (arith, h')) in
    let second : q.num * p.den * r.den ≤ p.num * q.den * r.den =
      mul-le-mul_right r.den (ground (arith, h)) in
    let chain : r.num * p.den * q.den ≤ p.num * r.den * q.den =
      le_trans (subst₂ ◌≤◌ (swap_last r.num q.den p.den) (swap_last q.num r.den p.den) first)
        (subst (λ m. q.num * p.den * r.den ≤ m) (swap_last p.num q.den r.den) second) in
    let whole : r.num * p.den ≤ p.num * r.den = le_of_mul-le-mul_right chain pos in ground arith

comes_first-ratio :
    (word x y : Text)
    → comes_first (candidate word y) (candidate word x) ≡ false
    → ratio_lt (ratio_of word x) (ratio_of word y) ≡ false
unfolding comes_first
comes_first-ratio word x y h = ground arith

head-ratio :
    (word x : Text) (ys : List Text) (y : Text)
    → InOrder word (x ∷ ys)
    → member y ys ≡ true
    → ratio_lt (ratio_of word x) (ratio_of word y) ≡ false
unfolding member
head-ratio word x [] y o m = absurd (ground arith)
head-ratio word x (z ∷ ys) y o m = elim (text_eq-cases y z) [
  | inl (_, e) ↦ rw e (comes_first-ratio word x z o.0)
  | inr t ↦
      ratio_lt_trans (ratio_of word x) (ratio_of word z) (ratio_of word y)
        (sequence_ratio-bounded (runes z) (runes word)).1 (comes_first-ratio word x z o.0)
        (head-ratio word z ys y o.1 (ground arith))
]

tail-InOrder : (word x : Text) (ys : List Text) → InOrder word (x ∷ ys) → InOrder word ys
tail-InOrder word x [] o = tt
tail-InOrder word x (y ∷ ys) o = o.1

member-append : (y : Text) (xs ys : List Text) → member y ys ≡ true → member y (xs ++ ys) ≡ true
unfolding member
member-append y [] ys m = m
member-append y (x ∷ xs) ys m = ground (arith, member-append y xs ys m)

-- No name of the second part has a higher ratio than one of the first.
pub InOrder-ratio :
    (word : Text) (xs ys : List Text) (x y : Text)
    → InOrder word (xs ++ ys)
    → member x xs ≡ true
    → member y ys ≡ true
    → ratio_lt (ratio_of word x) (ratio_of word y) ≡ false
unfolding member
InOrder-ratio word [] ys x y o m n = absurd (ground arith)
InOrder-ratio word (z ∷ xs) ys x y o m n = elim (text_eq-cases x z) [
  | inl (_, e) ↦ rw e (head-ratio word z (xs ++ ys) y o (member-append y xs ys n))
  | inr t ↦ InOrder-ratio word xs ys x y (tail-InOrder word z (xs ++ ys) o) (ground arith) n
]
