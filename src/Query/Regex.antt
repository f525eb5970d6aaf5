-- ===== src/Query/Regex.antt =====
-- go/cmd/sobs/regex_validate.go: the query that looks for a sample of a filter's regular expression.
-- The scope of a request is the text of each of its keys, empty where a key is missing or no string.
pub mod Fit
pub mod Sample
pub mod Tests
use sobs.Prelude.{
  ℕ, zero, suc, ◌+◌, ◌-◌, ◌*◌, ◌/◌, ◌%◌, ◌≤◌, ◌<◌, ◌≡◌, refl, sym, ap, ap₂, ◌∙◌, subst, ◌≢◌, ◌↔◌,
  ◌⊎◌, inl, inr, Bool, true, false, not, ◌&&◌, ◌||◌, false≢true, Option, none, some, List, [], ◌∷◌,
  ◌++◌, map, append_assoc, append-nil, arith, ltb, leb, ◌==◌, if◌then◌else◌, ltb→lt, ==_iff,
  Bool-cases, Option-cases, is_some, from_option, length, get_elem?, take, drop, is_nil, keep_if,
  all_of, All, length-append, length-take, take-append-drop,
}
use sobs.Prelude.Int.{pos}
use sobs.Text.{
  Text, lit, text_eq, cut_prefix, has_prefix, cut_suffix, has_suffix, trim_left, trim_right, trim,
  is_space, trim_space, lower_byte, to_lower, to_upper, index, contains, split, join, before_byte,
  after_byte, before_last_byte, member, decimal, itoa, split_on,
}
use sobs.Text.Utf8.{runes, is_continuation}
use sobs.Store.Params.{Param, str, int}

-- The first runes of a text of UTF-8: []rune(s)[:n]
unfoldable pub take_runes : ℕ → Text → Text
take_runes n [] = []
take_runes zero (c ∷ s) =
    let inside = take_runes zero s in if is_continuation c then c ∷ inside else []
take_runes (suc n) (c ∷ s) =
    let inside = take_runes (suc n) s in
    let next = take_runes n s in if is_continuation c then c ∷ inside else c ∷ next

abbrev pub regex_sample_max_len : ℕ
regex_sample_max_len = 200

abbrev pub regex_scope_max_len : ℕ
regex_scope_max_len = 200

unfoldable pub regex_scope_text : (Text → Text) → Text → ℕ → Text
regex_scope_text scope key max_len =
    let raw = trim_space (scope key) in
    if ltb max_len (length (runes raw)) then take_runes max_len raw else raw

unfoldable pub truncate_regex_sample : Text → Text
truncate_regex_sample s =
    if ltb regex_sample_max_len (length (runes s))
    then take_runes (regex_sample_max_len - 3) s ++ lit "..."
    else s

-- Conditions, each with its parameter.
abbrev pub Conditions : Type 0 → Type 0
Conditions F = List (Text × Param F)

module _ {F : Type 0} where
  -- `if value != "" { parts = append(…); params = append(…) }`
  unfoldable pub condition_on : Text → Text → Conditions F
  condition_on cond value = if is_nil value then [] else (cond, str value) ∷ []

  unfoldable pub logs_scope : (Text → Text) → Conditions F
  unfolding condition_on
  logs_scope scope =
      condition_on (lit "ServiceName = ?")
        (regex_scope_text scope (lit "service") regex_scope_max_len)
      ++ (condition_on (lit "SeverityText = ?")
            (regex_scope_text scope (lit "level") regex_scope_max_len)
          ++ condition_on (lit "TraceId = ?") (regex_scope_text scope (lit "trace_id") 64))

  unfoldable pub errors_scope : (Text → Text) → Conditions F
  unfolding condition_on
  errors_scope scope =
      condition_on (lit "ServiceName = ?")
        (regex_scope_text scope (lit "service") regex_scope_max_len)

  unfoldable pub traces_scope : (Text → Text) → Conditions F
  unfolding condition_on
  traces_scope scope =
      condition_on (lit "ServiceName = ?")
        (regex_scope_text scope (lit "service") regex_scope_max_len)
      ++ condition_on (lit "TraceId = ?") (regex_scope_text scope (lit "trace_id") 64)

  unfoldable pub metrics_scope : (Text → Text) → Conditions F
  unfolding condition_on
  metrics_scope scope =
      condition_on (lit "ServiceName = ?")
        (regex_scope_text scope (lit "service") regex_scope_max_len)
      ++ (condition_on (lit "SignalSource = ?")
            (regex_scope_text scope (lit "source") regex_scope_max_len)
          ++ (condition_on (lit "SignalName = ?")
                (regex_scope_text scope (lit "signal") regex_scope_max_len)
              ++ condition_on (lit "AttrFingerprint = ?")
                  (regex_scope_text scope (lit "attr_fp") 64)))

  unfoldable pub rum_scope : (Text → Text) → Conditions F
  unfolding condition_on
  rum_scope scope =
      condition_on (lit "EventName = ?") (regex_scope_text scope (lit "type") regex_scope_max_len)
      ++ condition_on (lit "LogAttributes['errorSource'] = ?")
          (regex_scope_text scope (lit "error_source") regex_scope_max_len)

-- The configuration of a route.
pub record RegexValidateSource (F : Type 0) : Type 0 where
  pub from_sql : Text
  pub sample_column : Text
  pub order_column : Text
  pub time_column : Text
  pub scope_where : (Text → Text) → Conditions F

module _ {F : Type 0} (error_sources_sql : Text) where
  unfoldable pub regex_validate_source_for_path : Text → RegexValidateSource F
  regex_validate_source_for_path path =
      if text_eq path (lit "/api/errors/validate-regex")
      then record {
        from_sql = lit "(" ++ (error_sources_sql ++ lit ")");
        sample_column = lit "Body";
        order_column = lit "Timestamp";
        time_column = lit "Timestamp";
        scope_where = errors_scope;
      }
      else if text_eq path (lit "/api/traces/validate-regex")
      then record {
        from_sql = lit "otel_traces";
        sample_column = lit "SpanName";
        order_column = lit "Timestamp";
        time_column = lit "Timestamp";
        scope_where = traces_scope;
      }
      else if text_eq path (lit "/api/metrics/validate-regex")
      then record {
        from_sql = lit "v_derived_signals_anomaly";
        sample_column = lit "SignalName";
        order_column = lit "time";
        time_column = lit "time";
        scope_where = metrics_scope;
      }
      else if text_eq path (lit "/api/rum/validate-regex")
      then record {
        from_sql = lit "hyperdx_sessions";
        sample_column = lit "Body";
        order_column = lit "Timestamp";
        time_column = lit "Timestamp";
        scope_where = rum_scope;
      }
      else record {
        from_sql = lit "otel_logs";
        sample_column = lit "Body";
        order_column = lit "Timestamp";
        time_column = lit "Timestamp";
        scope_where = logs_scope;
      }

module _ {F : Type 0} where
  unfoldable pub time_window_conditions : Text → Text → Text → Conditions F
  unfolding condition_on
  time_window_conditions column from_ts to_ts =
      condition_on (column ++ lit " >= parseDateTime64BestEffort(?, 9)") from_ts
      ++ condition_on (column ++ lit " < parseDateTime64BestEffort(?, 9)") to_ts

  -- `normalize` is normalizeChTimestamp.
  unfoldable pub regex_scope_time_conditions : (Text → Text) → (Text → Text) → Text → Conditions F
  unfolding time_window_conditions
  regex_scope_time_conditions normalize scope column =
      let from_raw = regex_scope_text scope (lit "from_ts") 64 in
      let to_raw = regex_scope_text scope (lit "to_ts") 64 in
      let conds =
        time_window_conditions column (if is_nil from_raw then [] else normalize from_raw)
          (if is_nil to_raw then [] else normalize to_raw) in
      if is_nil conds
      then (column ++ lit " >= now() - INTERVAL ? HOUR", int (pos 24)) ∷ []
      else conds

  unfoldable pub regex_expression_clauses : Text → List Text → List Text → Conditions F
  regex_expression_clauses column include_patterns exclude_patterns =
      map (λ p. (lit "match(" ++ (column ++ lit ", ?)"), str p)) include_patterns
      ++ map (λ p. (lit "NOT match(" ++ (column ++ lit ", ?)"), str p)) exclude_patterns

  unfoldable pub where_sql : Conditions F → Text
  where_sql conds =
      if is_nil conds then [] else lit "WHERE " ++ join (lit " AND ") (map (λ c. c.0) conds)

  -- The query of regexBestEffortSample and its parameters.
  unfoldable pub sample_query :
      RegexValidateSource F → List Text → List Text → Conditions F → Text × List (Param F)
  unfolding regex_expression_clauses where_sql
  sample_query src include_patterns exclude_patterns where_conds =
      let regex_conds =
        regex_expression_clauses (lit "sample_value") include_patterns exclude_patterns in
      (
        lit "SELECT sample_value FROM (SELECT "
            ++ (src.sample_column
                ++ (lit " AS sample_value FROM "
                    ++ (src.from_sql
                        ++ (lit " "
                            ++ (where_sql where_conds
                                ++ (lit " ORDER BY "
                                    ++ (src.order_column
                                        ++ (lit " DESC LIMIT ?) "
                                            ++ (where_sql regex_conds ++ lit " LIMIT 1"))))))))),
        map (λ c. c.1) where_conds ++ int (pos 2000) ∷ map (λ c. c.1) regex_conds,
      )

  -- The query that handleValidateRegex sends.
  unfoldable pub validate_regex_query :
      (Text → Text)
      → (Text → Text)
      → RegexValidateSource F
      → List Text
      → List Text
      → Text × List (Param F)
  unfolding sample_query regex_scope_time_conditions
  validate_regex_query normalize scope src include_patterns exclude_patterns =
      sample_query src include_patterns exclude_patterns
        (src.scope_where scope ++ regex_scope_time_conditions normalize scope src.time_column)
