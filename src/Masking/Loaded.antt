-- ===== src/Masking/Loaded.antt =====
-- The custom masking patterns that are loaded from the setting, and so take part in the masking.
use sobs.Prelude.{
  ◌≤◌, ◌≡◌, refl, subst, ◌↔◌, ◌⊎◌, inl, inr, true, false, List, [], ◌∷◌, arith, Bool-cases,
}
use sobs.Text.{Text, trim_space, member}
use sobs.Masking.Patterns.{
  Engine, Verdict, accepted, rejected, PatternError, validate_custom_masking_pattern,
  valid_patterns, load_masking_custom_patterns,
}
use sobs.Masking.Valid.{IsValid, validate_custom_masking_pattern_iff}
use sobs.Text.Laws.{text_eq-cases, text_eq_iff}
use sobs.Json.Sorting.{occurrences}

Verdict-cases :
    (o : Verdict) → ((e : PatternError) × (o ≡ rejected e)) ⊎ ((p : Text) × (o ≡ accepted p))
Verdict-cases (rejected e) = inl (e, refl)
Verdict-cases (accepted p) = inr (p, refl)

module _ (engine : Engine) where
  valid_patterns-rejected :
      (seen : List Text) (v : Text) (vs : List Text) (e : PatternError)
      → validate_custom_masking_pattern engine v ≡ rejected e
      → valid_patterns engine seen (v ∷ vs) ≡ valid_patterns engine seen vs
  unfolding valid_patterns
  valid_patterns-rejected seen v vs e h = ground (arith, h)

  valid_patterns-seen :
      (seen : List Text) (v : Text) (vs : List Text) (p : Text)
      → validate_custom_masking_pattern engine v ≡ accepted p
      → member p seen ≡ true
      → valid_patterns engine seen (v ∷ vs) ≡ valid_patterns engine seen vs
  unfolding valid_patterns
  valid_patterns-seen seen v vs p h m = ground (arith, h, m)

  valid_patterns-new :
      (seen : List Text) (v : Text) (vs : List Text) (p : Text)
      → validate_custom_masking_pattern engine v ≡ accepted p
      → member p seen ≡ false
      → valid_patterns engine seen (v ∷ vs) ≡ p ∷ valid_patterns engine (p ∷ seen) vs
  unfolding valid_patterns
  valid_patterns-new seen v vs p h m = ground (arith, h, m)

  -- A round of the loop: nothing is added, or a new pattern is.
  round-cases :
      (seen : List Text) (v : Text) (vs : List Text)
      → ((valid_patterns engine seen (v ∷ vs) ≡ valid_patterns engine seen vs)
          × ((q : Text)
              → validate_custom_masking_pattern engine v ≡ accepted q
              → member q seen ≡ true))
        ⊎ ((p : Text) × (validate_custom_masking_pattern engine v ≡ accepted p)
            × (member p seen ≡ false)
            × (valid_patterns engine seen (v ∷ vs) ≡ p ∷ valid_patterns engine (p ∷ seen) vs))
  round-cases seen v vs = elim (Verdict-cases (validate_custom_masking_pattern engine v)) [
    | inl (e, h) ↦ inl (valid_patterns-rejected seen v vs e h, λ q g. absurd (ground arith))
    | inr (p, h) ↦ elim (Bool-cases (member p seen)) [
      | inl m ↦ inl (valid_patterns-seen seen v vs p h m, λ q g. ground arith)
      | inr m ↦ inr (p, h, m, valid_patterns-new seen v vs p h m)
    ]
  ]

  -- A stored text whose trimmed form is the valid pattern.
  Stored : List Text → Text → Type 0
  Stored stored p =
      (raw : Text) × (member raw stored ≡ true)
      × (validate_custom_masking_pattern engine raw ≡ accepted p)

  Stored-later : (v : Text) (vs : List Text) (p : Text) → Stored vs p → Stored (v ∷ vs) p
  unfolding Stored member
  Stored-later v vs p (raw, m, h) = (raw, ground arith, h)

  valid_patterns-Stored :
      (seen stored : List Text) (p : Text)
      → member p (valid_patterns engine seen stored) ≡ true
      → Stored stored p
  unfolding valid_patterns Stored member
  valid_patterns-Stored seen [] p h = absurd (ground arith)
  valid_patterns-Stored seen (v ∷ vs) p h = elim (round-cases seen v vs) [
    | inl (e, _) ↦
        Stored-later v vs p (valid_patterns-Stored seen vs p (subst (λ l. member p l ≡ true) e h))
    | inr (q, g, _, e) ↦ elim (text_eq-cases p q) [
      | inl (_, same) ↦ (v, ground (arith, text_eq_iff v v), rw same g)
      | inr other ↦ Stored-later v vs p (
          valid_patterns-Stored (q ∷ seen) vs p
            (ground (arith, subst (λ l. member p l ≡ true) e h)))
    ]
  ]

  member-valid_patterns :
      (seen stored : List Text) (raw p : Text)
      → member raw stored ≡ true
      → validate_custom_masking_pattern engine raw ≡ accepted p
      → member p seen ≡ false
      → member p (valid_patterns engine seen stored) ≡ true
  unfolding member
  member-valid_patterns seen [] raw p m h n = absurd (ground arith)
  member-valid_patterns seen (v ∷ vs) raw p m h n = elim (round-cases seen v vs) [
    | inl (e, found) ↦ elim (text_eq-cases raw v) [
      | inl (_, same) ↦ absurd (ground (arith, found p (rw (← same) h)))
      | inr other ↦ rw e (member-valid_patterns seen vs raw p (ground arith) h n)
    ]
    | inr (q, g, _, e) ↦ elim (text_eq-cases p q) [
      | inl (t, same) ↦ rw e (ground arith)
      | inr t ↦ elim (text_eq-cases raw v) [
        | inl (_, same) ↦ absurd (ground (arith, text_eq_iff p q, rw same at h))
        | inr other ↦
            let later = member-valid_patterns (q ∷ seen) vs raw p (ground arith) h (ground arith) in
            rw e (ground arith)
      ]
    ]
  ]

  occurrences-seen :
      (seen stored : List Text) (p : Text)
      → member p seen ≡ true
      → occurrences p (valid_patterns engine seen stored) ≡ 0
  unfolding valid_patterns member
  occurrences-seen seen [] p m = refl
  occurrences-seen seen (v ∷ vs) p m = elim (round-cases seen v vs) [
    | inl (e, _) ↦ rw e (occurrences-seen seen vs p m)
    | inr (q, _, n, e) ↦
        rw e (ground (arith, text_eq_iff p q, occurrences-seen (q ∷ seen) vs p (ground arith)))
  ]

  occurrences-valid_patterns :
      (seen stored : List Text) (p : Text) → occurrences p (valid_patterns engine seen stored) ≤ 1
  unfolding valid_patterns member
  occurrences-valid_patterns seen [] p = omega arith
  occurrences-valid_patterns seen (v ∷ vs) p = elim (round-cases seen v vs) [
    | inl (e, _) ↦ rw e (occurrences-valid_patterns seen vs p)
    | inr (q, _, _, e) ↦ elim (text_eq-cases p q) [
      | inl (t, same) ↦ rw e (ground (arith, occurrences-seen (q ∷ seen) vs p (ground arith)))
      | inr t ↦ rw e (ground (arith, occurrences-valid_patterns (q ∷ seen) vs p))
    ]
  ]

  -- What is loaded: the valid patterns among the trimmed stored texts, each once.
  pub record AreLoaded (stored loaded : List Text) : Type 0 where
    pub loaded_iff :
        (p : Text)
        → (member p loaded ≡ true)
          ↔ ((raw : Text) × (member raw stored ≡ true) × (p ≡ trim_space raw) × IsValid engine p)
    pub once : (p : Text) → occurrences p loaded ≤ 1

  -- A custom pattern is loaded exactly when it is what some stored text is without the blanks at its
  -- ends, and is valid; and no pattern is loaded twice. A pattern is valid when it is trimmed and not
  -- empty, compiles, has at most 512 bytes, holds none of \1, \2 and \3, and has no nested quantifier, no
  -- quantified alternation and, in the form for a browser, no lookbehind, as the expressions find them.
  pub load_masking_custom_patterns-AreLoaded :
      (stored : List Text) → AreLoaded stored (load_masking_custom_patterns engine stored)
  unfolding load_masking_custom_patterns Stored member
  load_masking_custom_patterns-AreLoaded stored = record {
    loaded_iff = λ p. (
      λ h.
          let (raw, m, e) = valid_patterns-Stored [] stored p h in
          let r = (validate_custom_masking_pattern_iff engine raw p).0 e in (raw, m, r.0, r.1),
      λ (raw, m, e, ok).
          member-valid_patterns [] stored raw p m
            ((validate_custom_masking_pattern_iff engine raw p).1 (e, ok)) refl,
    );
    once = occurrences-valid_patterns [] stored;
  }
