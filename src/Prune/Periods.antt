-- ===== src/Prune/Periods.antt =====
-- The periods that a prune accepts.
use sobs.Prelude.{
  ◌≡◌, refl, Bool, true, false, not, ◌&&◌, false≢true, Option, none, some, [], ◌∷◌, if◌then◌else◌,
  is_some, from_option, is_nil,
}
use sobs.Prelude.Int.{ℤ, pos, ltb_ℤ}
use sobs.Text.{Text, lit, trim_space}
use sobs.Json.{null, Fields, get}
use sobs.Notify.Values.{Numbers, to_str}
use sobs.Prune.{
  PeriodResult, ok_period, bad_period, unit_sql, parse_dm_prune_period, positive_value, raw_unit,
  value_empty, no_period,
}

unfoldable pub IsPeriod : PeriodResult → Type 0
IsPeriod (ok_period p) =
    p.present ≡ true → (ltb_ℤ (pos 0) p.value ≡ true) × (is_some (unit_sql p.unit) ≡ true)
IsPeriod (bad_period e) = Unit

module _ {F : Type 0} (nm : Numbers F) where
  open nm use {parse_int}

  positive_value-IsPeriod :
      (u : Text) (o : Option ℤ) → is_some (unit_sql u) ≡ true → IsPeriod (positive_value nm u o)
  unfolding positive_value IsPeriod
  positive_value-IsPeriod u none h = tt
  positive_value-IsPeriod u (some n) h = by_sign (ltb_ℤ (pos 0) n) refl
    where
      by_sign :
          (b : Bool)
          → ltb_ℤ (pos 0) n ≡ b
          → IsPeriod (
              if b
              then ok_period (record { present = true; value = n; unit = u })
              else bad_period (lit "prune_period_value must be a positive integer"))
      by_sign true e = λ p. (e, h)
      by_sign false e = tt

  -- A period that a request gives has a positive value and is counted in hours or days.
  pub parse_dm_prune_period-IsPeriod :
      (payload : Fields F) → IsPeriod (parse_dm_prune_period nm payload)
  unfolding parse_dm_prune_period IsPeriod
  parse_dm_prune_period-IsPeriod payload =
      by_tests (value_empty nm (get payload (lit "prune_period_value")))
        (raw_unit nm (get payload (lit "prune_period_unit")))
        (parse_int
          (trim_space (to_str nm (from_option null (get payload (lit "prune_period_value"))))))
    where
      by_unit :
          (b : Bool) (u : Text) (o : Option ℤ)
          → is_some (unit_sql u) ≡ b
          → IsPeriod (
              if not b
              then bad_period (lit "prune_period_unit must be 'hours' or 'days'")
              else positive_value nm u o)
      by_unit true u o e = positive_value-IsPeriod u o e
      by_unit false u o e = tt

      by_tests :
          (empty : Bool) (u : Text) (o : Option ℤ)
          → IsPeriod (
              if empty && is_nil u
              then ok_period no_period
              else if empty
              then bad_period
                  (lit "prune_period_value is required when prune_period_unit is provided")
              else if is_nil u
              then bad_period
                  (lit "prune_period_unit is required when prune_period_value is provided")
              else if not (is_some (unit_sql u))
              then bad_period (lit "prune_period_unit must be 'hours' or 'days'")
              else positive_value nm u o)
      by_tests true [] o = λ p. absurd (false≢true p)
      by_tests true (c ∷ u) o = tt
      by_tests false [] o = tt
      by_tests false (c ∷ u) o = by_unit (is_some (unit_sql (c ∷ u))) (c ∷ u) o refl
