-- ===== src/Prune/Statements.antt =====
-- The statements that a prune executes are those of Prune/Log.antt.
use sobs.Prelude.{
  ◌≡◌, refl, sym, ap, ◌∙◌, subst, Bool, true, false, List, [], ◌∷◌, ◌++◌, map, append_assoc,
  append-nil, arith, if◌then◌else◌,
}
use sobs.Text.{Text, lit}
use sobs.Prune.{
  Database, DmPrunePeriod, optimize_statement, delete_statement, Run, run_statement, prune_ttl,
  prune_metric, each, delete_window, optimize_all, run_dm_prune, dm_all_prune_tables,
  dm_prune_ttl_tables, logged, fails,
}
use sobs.Prune.Log.{
  is_older, Deletes, ttl_statements, optimize_statements, IsPruneLog, without_period, with_period,
}
use sobs.Prune.Metrics.{unit_of, unit_sql-IsUnit, prune_metric-Deletes}

module _ (db : Database) where
  open db use {execute}

  log-run_statement :
      (table stmt : Text) (r : Run) → (run_statement db table stmt r).log ≡ r.log ++ stmt ∷ []
  unfolding run_statement fails logged
  log-run_statement table stmt r = ground arith

  log-optimize_all :
      (tables : List Text) (r : Run)
      → (optimize_all db tables r).log ≡ r.log ++ map optimize_statement tables
  unfolding optimize_all each
  log-optimize_all [] r = sym (append-nil r.log)
  log-optimize_all (t ∷ ts) r =
      log-optimize_all ts (run_statement db t (optimize_statement t) r)
      ∙ (ap (λ l. l ++ map optimize_statement ts) (log-run_statement t (optimize_statement t) r)
          ∙ append_assoc r.log (optimize_statement t ∷ []) (map optimize_statement ts))

  log-prune_ttl :
      (period : DmPrunePeriod) (ts : List (Text × Text)) (r : Run)
      → (each db (prune_ttl db period) ts r).log
        ≡ r.log ++ map (λ t. delete_statement true t period) ts
  unfolding each prune_ttl
  log-prune_ttl period [] r = sym (append-nil r.log)
  log-prune_ttl period (t ∷ ts) r =
      log-prune_ttl period ts (prune_ttl db period t r)
      ∙ (ap (λ l. l ++ map (λ t. delete_statement true t period) ts)
            (log-run_statement t.0 (delete_statement true t period) r)
          ∙ append_assoc r.log (delete_statement true t period ∷ []) _)

  ttl_statements_eq :
      (period : DmPrunePeriod)
      → map (λ t. delete_statement true t period) dm_prune_ttl_tables
        ≡ ttl_statements (is_older period (unit_of period))
  unfolding delete_statement lit
  ttl_statements_eq period = refl

optimize_statements_eq : map optimize_statement dm_all_prune_tables ≡ optimize_statements
unfolding optimize_statement dm_all_prune_tables lit
optimize_statements_eq = refl

-- Whatever the engine answers, a prune without a period adds to the log OPTIMIZE for each of the six
-- tables, in order, and nothing else. With a period it first adds one DELETE for each of the tables of
-- logs, traces and sessions, of what is older than the period; then, for each of the three metric
-- tables, the DESCRIBE, the DELETE by the column where the description gives it the type DateTime and
-- by its milliseconds where not, and the other of these two only where the engine answers the first
-- with an error.
pub run_dm_prune-IsPruneLog :
    (db : Database) (period : DmPrunePeriod) (log : List Text)
    → IsPruneLog db period log (run_dm_prune db period log).1.log
unfolding run_dm_prune delete_window each
run_dm_prune-IsPruneLog db period log = by_present period.present refl
  where
    r : Run
    r = record { log = log; errs = [] }

    ttl : Run
    ttl = each db (prune_ttl db period) dm_prune_ttl_tables r

    gauge : Run
    gauge = prune_metric db period (lit "otel_metrics_gauge", lit "TimeUnixMs") ttl

    sum : Run
    sum = prune_metric db period (lit "otel_metrics_sum", lit "TimeUnixMs") gauge

    histogram : Run
    histogram = prune_metric db period (lit "otel_metrics_histogram", lit "TimeUnixMs") sum

    ttl_log : ttl.log ≡ log ++ ttl_statements (is_older period (unit_of period))
    ttl_log =
        log-prune_ttl db period dm_prune_ttl_tables r
        ∙ ap (λ l. log ++ l) (ttl_statements_eq db period)

    by_present :
        (b : Bool)
        → period.present ≡ b
        → IsPruneLog db period log
            (optimize_all db dm_all_prune_tables (if b then histogram else r)).log
    by_present false e =
        without_period e
          (log-optimize_all db dm_all_prune_tables r ∙ ap (λ l. log ++ l) optimize_statements_eq)
    by_present true e =
        with_period (unit_of period) gauge.log sum.log histogram.log e (unit_sql-IsUnit period.unit)
          (subst
            (λ l.
              Deletes db (lit "otel_metrics_gauge") (is_older period (unit_of period)) l gauge.log)
            ttl_log (prune_metric-Deletes db period (lit "otel_metrics_gauge") ttl))
          (prune_metric-Deletes db period (lit "otel_metrics_sum") gauge)
          (prune_metric-Deletes db period (lit "otel_metrics_histogram") sum)
          (log-optimize_all db dm_all_prune_tables histogram
            ∙ ap (λ l. histogram.log ++ l) optimize_statements_eq)
