-- ===== src/Masking/Valid.antt =====
-- Which masking patterns are accepted.
use sobs.Prelude.{
  drop, ◌≢◌, refl, true, some, if◌then◌else◌, Option, ap, Bool, ◌∷◌, ◌∙◌, sym, none, [], subst,
  is_nil, ◌↔◌, ◌≤◌, ◌≡◌, false, arith, length,
}
use sobs.Text.{split_on, lit, join, contains, trim_space, Text}
use sobs.Masking.Patterns.{
  replace_text, js_pattern, no_compile, pattern_required, rejected, validate_custom_masking_pattern,
  Engine, accepted, check_pattern, has_backreference, has_lookbehind,
}
use sobs.Text.Laws.{trim_space_idem}

is_nil-eq-false : (s : Text) → s ≢ [] → is_nil s ≡ false
is_nil-eq-false [] h = absurd (h refl)
is_nil-eq-false (c ∷ s) h = refl

module _ (engine : Engine) where
  open engine use {
    inline_flags, unname_groups, compile_error, has_nested_quantifier, has_ambiguous_altern,
  }

  -- The pattern as a browser is given it: without its leading flags, with ^ and $ for \A and \Z, and
  -- without the names of its groups.
  browser_form : Text → Text
  browser_form p = unname_groups (
      join (lit "$") (
        split_on (lit "\\Z")
          (join (lit "^") (split_on (lit "\\A") (drop (length (inline_flags p)) p)))))

  -- What the checks behind the compilation ask for.
  unfoldable Passes : Text → Type 0
  unfolding browser_form
  Passes p =
      (length p ≤ 512)
      × ((contains p (lit "\\1") ≡ false)
          × (contains p (lit "\\2") ≡ false)
          × (contains p (lit "\\3") ≡ false))
      × (has_nested_quantifier p ≡ false)
      × (has_ambiguous_altern p ≡ false)
      × (contains (browser_form p) (lit "(?<=") ≡ false)
      × (contains (browser_form p) (lit "(?<!") ≡ false)

  -- A pattern that may be used: trimmed, not empty, and compiling, of at most 512 bytes, with none of
  -- \1, \2 and \3, with nothing that the two expressions for slow patterns find, and with no lookbehind
  -- in the form for a browser.
  unfoldable pub IsValid : Text → Type 0
  unfolding Passes
  IsValid p = (trim_space p ≡ p) × (p ≢ []) × (compile_error p ≡ none) × Passes p

  check_pattern-accepted : (s p : Text) → check_pattern engine s ≡ accepted p → (p ≡ s) × Passes s
  unfolding check_pattern Passes browser_form has_backreference has_lookbehind js_pattern
      replace_text
  check_pattern-accepted s p h = ground arith

  check_pattern-Passes : (s : Text) → Passes s → check_pattern engine s ≡ accepted s
  unfolding check_pattern Passes browser_form has_backreference has_lookbehind js_pattern
      replace_text
  check_pattern-Passes s h = ground arith

  validate-accepted :
      (raw p : Text)
      → validate_custom_masking_pattern engine raw ≡ accepted p
      → (p ≡ trim_space raw)
        × (is_nil (trim_space raw) ≡ false)
        × (compile_error (trim_space raw) ≡ none)
        × Passes (trim_space raw)
  unfolding validate_custom_masking_pattern
  validate-accepted raw p h = by_tests (is_nil (trim_space raw)) (compile_error (trim_space raw)) h
    where
      by_tests :
          (b : Bool) (o : Option Text)
          → (if b then rejected pattern_required else elim o [
            | some e ↦ rejected (no_compile e)
            | none ↦ check_pattern engine (trim_space raw)
          ])
            ≡ accepted p
          → (p ≡ trim_space raw) × (b ≡ false) × (o ≡ none) × Passes (trim_space raw)
      by_tests true o e = absurd (ground (arith, e))
      by_tests false (some x) e = absurd (ground (arith, e))
      by_tests false none e =
          let r = check_pattern-accepted (trim_space raw) p e in (r.0, refl, refl, r.1)

  IsValid-intro :
      (s : Text)
      → trim_space s ≡ s
      → is_nil s ≡ false
      → compile_error s ≡ none
      → Passes s
      → IsValid s
  unfolding IsValid
  IsValid-intro s t n c h = (t, (λ e. cc (n, ap is_nil e)), c, h)

  validate-IsValid :
      (raw p : Text)
      → validate_custom_masking_pattern engine raw ≡ accepted p
      → (p ≡ trim_space raw) × IsValid p
  validate-IsValid raw p h =
      let r = validate-accepted raw p h in
      (
        r.0,
        subst (IsValid) (sym r.0)
            (IsValid-intro (trim_space raw) (trim_space_idem raw) r.1 r.2 r.3),
      )

  IsValid-validate :
      (raw : Text)
      → IsValid (trim_space raw)
      → validate_custom_masking_pattern engine raw ≡ accepted (trim_space raw)
  unfolding validate_custom_masking_pattern IsValid
  IsValid-validate raw h =
      let filled = is_nil-eq-false (trim_space raw) h.1 in
      rw filled (rw h.2 (check_pattern-Passes (trim_space raw) h.3))

  -- A pattern is accepted as what it is without the blanks at its ends, where that is valid.
  pub validate_custom_masking_pattern_iff :
      (raw p : Text)
      → (validate_custom_masking_pattern engine raw ≡ accepted p)
        ↔ ((p ≡ trim_space raw) × IsValid p)
  validate_custom_masking_pattern_iff raw p = (
    validate-IsValid raw p,
    λ h. IsValid-validate raw (subst (IsValid) h.0 h.1) ∙ ap accepted (sym h.0),
  )
