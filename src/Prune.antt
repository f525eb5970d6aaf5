-- ===== src/Prune.antt =====
-- go/cmd/sobs/dm_prune.go: the prune of the managed tables.
pub mod Log
pub mod Metrics
pub mod Statements
pub mod Periods
mod Tests
use sobs.Prelude.{
  ℕ, zero, suc, ◌+◌, ◌-◌, ◌*◌, ◌/◌, ◌%◌, ◌≤◌, ◌<◌, ◌≡◌, refl, sym, ap, ap₂, ◌∙◌, subst, ◌≢◌, ◌↔◌,
  ◌⊎◌, inl, inr, Bool, true, false, not, ◌&&◌, ◌||◌, false≢true, Option, none, some, List, [], ◌∷◌,
  ◌++◌, map, append_assoc, append-nil, arith, ltb, leb, ◌==◌, if◌then◌else◌, ltb→lt, ==_iff,
  Bool-cases, Option-cases, is_some, from_option, length, get_elem?, take, drop, is_nil, keep_if,
  all_of, All, length-append, length-take, take-append-drop,
}
use sobs.Prelude.Int.{ℤ, pos, negsuc, ltb_ℤ}
use sobs.Text.{
  Text, lit, text_eq, cut_prefix, has_prefix, cut_suffix, has_suffix, trim_left, trim_right, trim,
  is_space, trim_space, lower_byte, to_lower, to_upper, index, contains, split, join, before_byte,
  after_byte, before_last_byte, member, decimal, itoa, split_on,
}
use sobs.Json.{Json, Fields, null, boolean, number, str, int, float, object, array, get}
use sobs.Notify.Values.{Numbers, to_str}

-- What the engine answers to a statement after the statements executed so far: to a command its error,
-- if any, and to DESCRIBE TABLE the names and types of the columns, or nothing when it fails.
pub record Database : Type 0 where
  pub execute : List Text → Text → Option Text
  pub describe : List Text → Text → Option (List (Text × Text))

abbrev pub dm_prune_ttl_tables : List (Text × Text)
dm_prune_ttl_tables =
    (lit "otel_logs", lit "Timestamp")
    ∷ (lit "otel_traces", lit "Timestamp")
    ∷ (lit "hyperdx_sessions", lit "Timestamp")
    ∷ []

abbrev pub dm_prune_metric_tables : List (Text × Text)
dm_prune_metric_tables =
    (lit "otel_metrics_gauge", lit "TimeUnixMs")
    ∷ (lit "otel_metrics_sum", lit "TimeUnixMs")
    ∷ (lit "otel_metrics_histogram", lit "TimeUnixMs")
    ∷ []

unfoldable pub dm_all_prune_tables : List Text
dm_all_prune_tables = map (λ t. t.0) dm_prune_ttl_tables ++ map (λ t. t.0) dm_prune_metric_tables

pub record DmPrunePeriod : Type 0 where
  pub present : Bool
  pub value : ℤ
  pub unit : Text

abbrev pub no_period : DmPrunePeriod
no_period = record { present = false; value = pos 0; unit = [] }

-- The two results of parseDmPrunePeriod: a period, or the message of the 400.
pub data PeriodResult : Type 0 where
  ok_period : DmPrunePeriod → PeriodResult
  bad_period : Text → PeriodResult

-- dmPrunePeriodUnits
unfoldable pub unit_sql : Text → Option Text
unfolding text_eq
unit_sql u =
    if text_eq u (lit "hours")
    then some (lit "HOUR")
    else if text_eq u (lit "days")
    then some (lit "DAY")
    else none

module _ {F : Type 0} (nm : Numbers F) where
  open nm use {parse_int}

  raw_unit : Option (Json F) → Text
  raw_unit none = []
  raw_unit (some v) = elim v [
    | null ↦ to_lower (trim_space (lit "None"))
    | w ↦ to_lower (trim_space (to_str nm w))
  ]

  value_empty : Option (Json F) → Bool
  value_empty none = true
  value_empty (some v) = elim v [ null ↦ true | str s ↦ is_nil s | _ ↦ false ]

  positive_value : Text → Option ℤ → PeriodResult
  positive_value unit none = bad_period (lit "prune_period_value must be a positive integer")
  positive_value unit (some n) =
      if ltb_ℤ (pos 0) n
      then ok_period (record { present = true; value = n; unit = unit })
      else bad_period (lit "prune_period_value must be a positive integer")

  unfoldable pub parse_dm_prune_period : Fields F → PeriodResult
  unfolding raw_unit value_empty positive_value unit_sql
  parse_dm_prune_period payload =
      let raw_value = get payload (lit "prune_period_value") in
      let u = raw_unit (get payload (lit "prune_period_unit")) in
      let empty = value_empty raw_value in
      if empty && is_nil u
      then ok_period no_period
      else if empty
      then bad_period (lit "prune_period_value is required when prune_period_unit is provided")
      else if is_nil u
      then bad_period (lit "prune_period_unit is required when prune_period_value is provided")
      else if not (is_some (unit_sql u))
      then bad_period (lit "prune_period_unit must be 'hours' or 'days'")
      else positive_value u (parse_int (trim_space (to_str nm (from_option null raw_value))))

unfoldable pub optimize_statement : Text → Text
optimize_statement table = lit "OPTIMIZE TABLE " ++ (table ++ lit " FINAL")

-- `plain` compares the column itself, the other its milliseconds.
unfoldable pub delete_statement : Bool → Text × Text → DmPrunePeriod → Text
delete_statement plain t period =
    let column = if plain then t.1 else lit "toDateTime(intDiv(" ++ (t.1 ++ lit ", 1000))") in
    lit "ALTER TABLE "
    ++ (t.0
        ++ (lit " DELETE WHERE "
            ++ (column
                ++ (lit " < now() - INTERVAL "
                    ++ (itoa (period.value)
                        ++ (lit " " ++ from_option [] (unit_sql period.unit)))))))

-- The statements executed so far, and the errors of tables.
pub record Run : Type 0 where
  pub log : List Text
  pub errs : List Text

module _ (db : Database) where
  open db use {execute, describe}

  logged : Run → Text → Run
  logged r stmt = record { log = r.log ++ stmt ∷ []; errs = r.errs }

  fails : Run → Text → Run
  fails r e = record { log = r.log; errs = r.errs ++ e ∷ [] }

  -- A statement whose error, if any, is noted with the table.
  unfoldable pub run_statement : Text → Text → Run → Run
  unfolding logged fails
  run_statement table stmt r = elim (execute r.log stmt) [
    | none ↦ logged r stmt
    | some e ↦ fails (logged r stmt) (table ++ (lit ": " ++ e))
  ]

  column_type : Text → List (Text × Text) → Option Text
  column_type column [] = none
  column_type column (c ∷ cs) =
      let rest = column_type column cs in
      if text_eq c.0 column then some (to_lower (trim_space c.1)) else rest

  unfoldable pub dm_column_type : Text × Text → Run → Option Text
  unfolding column_type
  dm_column_type t r = elim (describe r.log (lit "DESCRIBE TABLE " ++ t.0)) [
    | none ↦ none
    | some cs ↦ column_type t.1 cs
  ]

  unfoldable pub is_datetime : Option Text → Bool
  is_datetime none = false
  is_datetime (some ty) = contains ty (lit "datetime")

  unfoldable pub prune_ttl : DmPrunePeriod → Text × Text → Run → Run
  unfolding run_statement delete_statement
  prune_ttl period t r = run_statement t.0 (delete_statement true t period) r

  fallback : Text → Text → Text → Run → Run
  fallback table stmt e r = elim (execute r.log stmt) [
    | none ↦ logged r stmt
    | some f ↦
        fails (logged r stmt)
          (table ++ (lit ": " ++ (f ++ (lit " (fallback after: " ++ (e ++ lit ")")))))
  ]

  unfoldable pub prune_metric : DmPrunePeriod → Text × Text → Run → Run
  unfolding fallback fails is_datetime dm_column_type delete_statement logged
  prune_metric period t r =
      let plain = is_datetime (dm_column_type t r) in
      let q = logged r (lit "DESCRIBE TABLE " ++ t.0) in
      let primary = delete_statement plain t period in
      elim (execute q.log primary) [
        | none ↦ logged q primary
        | some e ↦ fallback t.0 (delete_statement (not plain) t period) e (logged q primary)
      ]

  unfoldable pub each {ℓ} : {A : Type ℓ} → (A → Run → Run) → List A → Run → Run
  each f [] r = r
  each f (x ∷ xs) r = each f xs (f x r)

  unfoldable pub delete_window : DmPrunePeriod → Run → Run
  unfolding each prune_ttl prune_metric
  delete_window period r =
      if period.present
      then each (prune_metric period) dm_prune_metric_tables
          (each (prune_ttl period) dm_prune_ttl_tables r)
      else r

  unfoldable pub optimize_all : List Text → Run → Run
  unfolding each run_statement optimize_statement
  optimize_all tables r = each (λ table. run_statement table (optimize_statement table)) tables r

  unfoldable pub prune_message : DmPrunePeriod → List Text → Bool × Text
  prune_message period errs =
      let count = decimal (length dm_all_prune_tables) in
      if not (is_nil errs)
      then (false, lit "Prune completed with errors: " ++ join (lit "; ") errs)
      else if period.present
      then (
        true,
        lit "Prune completed successfully ("
            ++ (count
                ++ (lit " tables processed, custom period: "
                    ++ (itoa (period.value) ++ (lit " " ++ (period.unit ++ lit ")"))))),
      )
      else (true, lit "Prune completed successfully (" ++ (count ++ lit " tables processed)"))

  unfoldable pub run_dm_prune : DmPrunePeriod → List Text → (Bool × Text) × Run
  unfolding delete_window optimize_all prune_message
  run_dm_prune period log =
      let r =
        optimize_all dm_all_prune_tables (delete_window period (record { log = log; errs = [] })) in
      (prune_message period r.errs, r)
