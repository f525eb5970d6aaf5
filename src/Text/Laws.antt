-- ===== src/Text/Laws.antt =====
-- Laws of the text functions.
use sobs.Prelude.{
  Bool, ℕ, ◌≡◌, refl, ap, ◌↔◌, ◌⊎◌, inl, inr, true, false, some, [], ◌∷◌, ◌++◌, arith, Bool-cases,
  is_some,
}
use sobs.Text.{
  text_lt, is_space, trim_space, trim_right, trim_left, trim, cut_suffix, Text, text_eq, cut_prefix,
  has_prefix,
}

pub text_eq_iff : (s t : Text) → (text_eq s t ≡ true) ↔ (s ≡ t)
unfolding text_eq
text_eq_iff [] [] = ground arith
text_eq_iff [] (b ∷ t) = ground arith
text_eq_iff (a ∷ s) [] = ground arith
text_eq_iff (a ∷ s) (b ∷ t) = ground (arith, text_eq_iff s t)

pub text_eq_refl : (s : Text) → text_eq s s ≡ true
text_eq_refl s = (text_eq_iff s s).1 refl

pub text_eq-cases : (s t : Text) → ((text_eq s t ≡ true) × (s ≡ t)) ⊎ (text_eq s t ≡ false)
text_eq-cases s t = elim (Bool-cases (text_eq s t)) [
  | inl e ↦ inl (e, (text_eq_iff s t).0 e)
  | inr e ↦ inr e
]

pub cut_prefix-append : (p r : Text) → cut_prefix (p ++ r) p ≡ some r
unfolding cut_prefix
cut_prefix-append [] [] = refl
cut_prefix-append [] (c ∷ r) = refl
cut_prefix-append (c ∷ p) r = ground (arith, cut_prefix-append p r)

pub cut_prefix-eq-some : (s p r : Text) → cut_prefix s p ≡ some r → s ≡ p ++ r
unfolding cut_prefix
cut_prefix-eq-some s [] r h = ground arith
cut_prefix-eq-some [] (p ∷ ps) r h = cc
cut_prefix-eq-some (c ∷ s) (p ∷ ps) r h = ground (arith, cut_prefix-eq-some s ps r)

pub has_prefix-append : (p r : Text) → has_prefix (p ++ r) p ≡ true
unfolding has_prefix
has_prefix-append p r = ap is_some (cut_prefix-append p r)

pub cut_suffix-eq-some : (s p r : Text) → cut_suffix s p ≡ some r → s ≡ r ++ p
unfolding cut_suffix
cut_suffix-eq-some [] p r h = ground (arith, text_eq_iff [] p)
cut_suffix-eq-some (c ∷ s) p [] h = ground (arith, text_eq_iff (c ∷ s) p)
cut_suffix-eq-some (c ∷ s) p (d ∷ r) h = ground (arith, cut_suffix-eq-some s p r)

pub trim_left_idem : (p : ℕ → Bool) (s : Text) → trim_left p (trim_left p s) ≡ trim_left p s
unfolding trim_left
trim_left_idem p [] = refl
trim_left_idem p (c ∷ s) = ground (arith, trim_left_idem p s)

pub trim_right_idem : (p : ℕ → Bool) (s : Text) → trim_right p (trim_right p s) ≡ trim_right p s
unfolding trim_right
trim_right_idem p [] = refl
trim_right_idem p (c ∷ s) = ground (arith, trim_right_idem p s)

pub trim_left-trim_right :
    (p : ℕ → Bool) (s : Text) → trim_left p (trim_right p s) ≡ trim_right p (trim_left p s)
unfolding trim_left trim_right
trim_left-trim_right p [] = refl
trim_left-trim_right p (c ∷ s) = ground (arith, trim_left-trim_right p s)

pub trim_idem : (p : ℕ → Bool) (s : Text) → trim p (trim p s) ≡ trim p s
unfolding trim
trim_idem p s = rw (trim_left-trim_right p (trim_left p s)) (simp (trim_left_idem, trim_right_idem))

pub trim_space_idem : (s : Text) → trim_space (trim_space s) ≡ trim_space s
unfolding trim_space
trim_space_idem s = trim_idem is_space s

pub text_lt-asym : (s t : Text) → text_lt s t ≡ true → text_lt t s ≡ false
unfolding text_lt
text_lt-asym [] [] h = refl
text_lt-asym [] (d ∷ t) h = refl
text_lt-asym (c ∷ s) [] h = ground arith
text_lt-asym (c ∷ s) (d ∷ t) h = ground (arith, text_lt-asym s t)
