-- ===== src/Query/Regex/Sample.antt =====
-- The sample query of every route, with any scope and any patterns.
use sobs.Prelude.{
  ◌≡◌, refl, Bool, true, false, some, List, [], ◌∷◌, ◌++◌, map, append_assoc, append-nil, arith,
  if◌then◌else◌, is_some,
}
use sobs.Prelude.Int.{pos}
use sobs.Text.{Text, lit, text_eq}
use sobs.Store.Params.{Param, FloatFormat, inline_params, inline_loop, int}
use sobs.Query.Regex.{
  Conditions, where_sql, regex_expression_clauses, logs_scope, errors_scope, traces_scope,
  metrics_scope, rum_scope, RegexValidateSource, regex_validate_source_for_path, sample_query,
  validate_regex_query,
}
use sobs.Query.Regex.Fit.{
  marks, Takes, marks-Takes, Takes-append, AllTakes, AllTakes-append, where_sql-Takes,
  condition_on-AllTakes, IsColumn, timestamp-IsColumn, time-IsColumn,
  regex_scope_time_conditions-AllTakes, clauses-AllTakes,
}

module _ {F : Type 0} (fmt : FloatFormat F) where
  logs_scope-AllTakes : (scope : Text → Text) → AllTakes fmt (logs_scope scope)
  unfolding logs_scope lit marks
  logs_scope-AllTakes scope =
      AllTakes-append fmt _ _ (condition_on-AllTakes fmt (lit "ServiceName = ?") _ refl) (
        AllTakes-append fmt _ _ (condition_on-AllTakes fmt (lit "SeverityText = ?") _ refl)
          (condition_on-AllTakes fmt (lit "TraceId = ?") _ refl))

  errors_scope-AllTakes : (scope : Text → Text) → AllTakes fmt (errors_scope scope)
  unfolding errors_scope lit marks
  errors_scope-AllTakes scope = condition_on-AllTakes fmt (lit "ServiceName = ?") _ refl

  traces_scope-AllTakes : (scope : Text → Text) → AllTakes fmt (traces_scope scope)
  unfolding traces_scope lit marks
  traces_scope-AllTakes scope =
      AllTakes-append fmt _ _ (condition_on-AllTakes fmt (lit "ServiceName = ?") _ refl)
        (condition_on-AllTakes fmt (lit "TraceId = ?") _ refl)

  metrics_scope-AllTakes : (scope : Text → Text) → AllTakes fmt (metrics_scope scope)
  unfolding metrics_scope lit marks
  metrics_scope-AllTakes scope =
      AllTakes-append fmt _ _ (condition_on-AllTakes fmt (lit "ServiceName = ?") _ refl) (
        AllTakes-append fmt _ _ (condition_on-AllTakes fmt (lit "SignalSource = ?") _ refl) (
          AllTakes-append fmt _ _ (condition_on-AllTakes fmt (lit "SignalName = ?") _ refl)
            (condition_on-AllTakes fmt (lit "AttrFingerprint = ?") _ refl)))

  rum_scope-AllTakes : (scope : Text → Text) → AllTakes fmt (rum_scope scope)
  unfolding rum_scope lit marks
  rum_scope-AllTakes scope =
      AllTakes-append fmt _ _ (condition_on-AllTakes fmt (lit "EventName = ?") _ refl)
        (condition_on-AllTakes fmt (lit "LogAttributes['errorSource'] = ?") _ refl)

  record IsSource (src : RegexValidateSource F) : Type 0 where
    from_none : Takes fmt src.from_sql []
    sample_none : Takes fmt src.sample_column []
    order_none : Takes fmt src.order_column []
    time_column : IsColumn fmt src.time_column
    scope_where : (scope : Text → Text) → AllTakes fmt (src.scope_where scope)

  regex_validate_source_for_path-IsSource :
      (error_sources_sql path : Text)
      → marks 0 error_sources_sql ≡ some 0
      → IsSource (regex_validate_source_for_path error_sources_sql path)
  unfolding regex_validate_source_for_path lit marks
  regex_validate_source_for_path-IsSource error_sources_sql path closed =
      by_tests (text_eq path (lit "/api/errors/validate-regex"))
        (text_eq path (lit "/api/traces/validate-regex"))
        (text_eq path (lit "/api/metrics/validate-regex"))
        (text_eq path (lit "/api/rum/validate-regex"))
    where
      errors : RegexValidateSource F
      errors = record {
        from_sql = lit "(" ++ (error_sources_sql ++ lit ")");
        sample_column = lit "Body";
        order_column = lit "Timestamp";
        time_column = lit "Timestamp";
        scope_where = errors_scope;
      }

      traces : RegexValidateSource F
      traces = record {
        from_sql = lit "otel_traces";
        sample_column = lit "SpanName";
        order_column = lit "Timestamp";
        time_column = lit "Timestamp";
        scope_where = traces_scope;
      }

      metrics : RegexValidateSource F
      metrics = record {
        from_sql = lit "v_derived_signals_anomaly";
        sample_column = lit "SignalName";
        order_column = lit "time";
        time_column = lit "time";
        scope_where = metrics_scope;
      }

      rum : RegexValidateSource F
      rum = record {
        from_sql = lit "hyperdx_sessions";
        sample_column = lit "Body";
        order_column = lit "Timestamp";
        time_column = lit "Timestamp";
        scope_where = rum_scope;
      }

      logs : RegexValidateSource F
      logs = record {
        from_sql = lit "otel_logs";
        sample_column = lit "Body";
        order_column = lit "Timestamp";
        time_column = lit "Timestamp";
        scope_where = logs_scope;
      }

      by_tests :
          (a b c d : Bool)
          → IsSource (
              if a
              then errors
              else if b
              then traces
              else if c
              then metrics
              else if d
              then rum
              else logs)
      by_tests true b c d = record {
        from_none =
            Takes-append fmt (lit "(") (error_sources_sql ++ lit ")") [] []
              (marks-Takes fmt (lit "(") [] refl)
              (Takes-append fmt error_sources_sql (lit ")") [] []
                (marks-Takes fmt error_sources_sql [] closed) (marks-Takes fmt (lit ")") [] refl));
        sample_none = marks-Takes fmt (lit "Body") [] refl;
        order_none = marks-Takes fmt (lit "Timestamp") [] refl;
        time_column = timestamp-IsColumn fmt;
        scope_where = errors_scope-AllTakes;
      }
      by_tests false true c d = record {
        from_none = marks-Takes fmt (lit "otel_traces") [] refl;
        sample_none = marks-Takes fmt (lit "SpanName") [] refl;
        order_none = marks-Takes fmt (lit "Timestamp") [] refl;
        time_column = timestamp-IsColumn fmt;
        scope_where = traces_scope-AllTakes;
      }
      by_tests false false true d = record {
        from_none = marks-Takes fmt (lit "v_derived_signals_anomaly") [] refl;
        sample_none = marks-Takes fmt (lit "SignalName") [] refl;
        order_none = marks-Takes fmt (lit "time") [] refl;
        time_column = time-IsColumn fmt;
        scope_where = metrics_scope-AllTakes;
      }
      by_tests false false false true = record {
        from_none = marks-Takes fmt (lit "hyperdx_sessions") [] refl;
        sample_none = marks-Takes fmt (lit "Body") [] refl;
        order_none = marks-Takes fmt (lit "Timestamp") [] refl;
        time_column = timestamp-IsColumn fmt;
        scope_where = rum_scope-AllTakes;
      }
      by_tests false false false false = record {
        from_none = marks-Takes fmt (lit "otel_logs") [] refl;
        sample_none = marks-Takes fmt (lit "Body") [] refl;
        order_none = marks-Takes fmt (lit "Timestamp") [] refl;
        time_column = timestamp-IsColumn fmt;
        scope_where = logs_scope-AllTakes;
      }

  inline_params-Takes :
      (s : Text) (ps : List (Param F)) → Takes fmt s ps → is_some (inline_params fmt s ps) ≡ true
  unfolding inline_params inline_loop
  inline_params-Takes s [] h = refl
  inline_params-Takes s (p ∷ ps) h = ground (arith, h [] [] refl, append-nil s, append-nil ps)

  Takes-tail :
      (s t : Text) (ps : List (Param F)) → Takes fmt s ps → Takes fmt t [] → Takes fmt (s ++ t) ps
  Takes-tail s t ps h k u qs e = rw (append_assoc s t u) (h (t ++ u) qs (k u qs e))

  sample_query-Takes :
      (src : RegexValidateSource F) (includes excludes : List Text) (conds : Conditions F)
      → IsSource src
      → AllTakes fmt conds
      → Takes fmt
          (sample_query src includes excludes conds).0
          (sample_query src includes excludes conds).1
  unfolding sample_query lit marks
  sample_query-Takes src includes excludes conds ok h =
      let none_of : (s : Text) → marks 0 s ≡ some 0 → Takes fmt s [] =
        λ s e. marks-Takes fmt s [] e in
      let regex_conds = regex_expression_clauses (lit "sample_value") includes excludes in
      let regex_params = map (λ c. c.1) regex_conds in
      let where_params = map (λ c. c.1) conds in
      let ending =
        Takes-tail (where_sql regex_conds) (lit " LIMIT 1") regex_params
          (where_sql-Takes fmt regex_conds (clauses-AllTakes fmt includes excludes))
          (none_of (lit " LIMIT 1") refl) in
      let limited =
        Takes-append fmt (lit " DESC LIMIT ?) ") _ (int (pos 2000) ∷ []) regex_params
          (marks-Takes fmt (lit " DESC LIMIT ?) ") (int (pos 2000) ∷ []) refl) ending in
      let ordered =
        Takes-append fmt (lit " ORDER BY ") _ [] (int (pos 2000) ∷ regex_params)
          (none_of (lit " ORDER BY ") refl)
          (Takes-append fmt src.order_column _ [] (int (pos 2000) ∷ regex_params) ok.order_none
            limited) in
      let filtered =
        Takes-append fmt (where_sql conds) _ where_params _ (where_sql-Takes fmt conds h) ordered in
      let from =
        Takes-append fmt src.from_sql _ [] _ ok.from_none
          (Takes-append fmt (lit " ") _ [] _ (none_of (lit " ") refl) filtered) in
      Takes-append fmt (lit "SELECT sample_value FROM (SELECT ") _ [] _
        (none_of (lit "SELECT sample_value FROM (SELECT ") refl)
        (Takes-append fmt src.sample_column _ [] _ ok.sample_none (
          Takes-append fmt (lit " AS sample_value FROM ") _ [] _
            (none_of (lit " AS sample_value FROM ") refl) from))

  -- Whatever the route, the scope and the patterns, the query that looks for a sample is inlined without
  -- an error, where the text of the error sources closes its quotes and has no placeholder.
  pub validate_regex_query-inlines :
      (error_sources_sql : Text)
      → marks 0 error_sources_sql ≡ some 0
      → (normalize scope : Text → Text) (path : Text) (includes excludes : List Text)
      → let q =
          validate_regex_query normalize scope
            (regex_validate_source_for_path error_sources_sql path)
            includes
            excludes in
        is_some (inline_params fmt q.0 q.1) ≡ true
  unfolding validate_regex_query
  validate_regex_query-inlines error_sources_sql closed normalize scope path includes excludes =
      let src = regex_validate_source_for_path error_sources_sql path in
      let ok = regex_validate_source_for_path-IsSource error_sources_sql path closed in
      inline_params-Takes _ _ (
        sample_query-Takes src includes excludes _ ok (
          AllTakes-append fmt _ _ (ok.scope_where scope) (
            regex_scope_time_conditions-AllTakes fmt normalize scope src.time_column
              ok.time_column)))
