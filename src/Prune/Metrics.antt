-- ===== src/Prune/Metrics.antt =====
-- The statements on one metric table are those of Prune/Log.antt.
use sobs.Prelude.{
  ◌≡◌, refl, sym, ◌∙◌, subst, inl, inr, Bool, true, false, not, false≢true, Option, none, some,
  List, [], ◌∷◌, ◌++◌, append_assoc, arith, Option-cases, from_option,
}
use sobs.Text.{Text, lit}
use sobs.Text.Laws.{text_eq-cases, text_eq_iff}
use sobs.Prune.{
  is_datetime, dm_column_type, Database, DmPrunePeriod, delete_statement, Run, prune_metric,
  column_type, logged, fails, fallback, unit_sql,
}
use sobs.Prune.Log.{
  IsUnit, hours, days, other, is_older, HasDatetime, here, there, IsDatetime, by_column, by_millis,
  IsOrder, column_first, millis_first, Deletes, deleted, retried,
}

pub unit_sql-IsUnit : (unit : Text) → IsUnit unit (from_option [] (unit_sql unit))
unfolding unit_sql
unit_sql-IsUnit unit = elim (text_eq-cases unit (lit "hours")) [
  | inl (t, e) ↦
      subst (IsUnit unit) (ground arith) (subst (λ x. IsUnit x (lit "HOUR")) (sym e) hours)
  | inr h ↦ elim (text_eq-cases unit (lit "days")) [
    | inl (t, e) ↦
        subst (IsUnit unit) (ground arith) (subst (λ x. IsUnit x (lit "DAY")) (sym e) days)
    | inr d ↦ subst (IsUnit unit) (ground arith) (
        other unit (λ e. cc (h, (text_eq_iff unit (lit "hours")).1 e))
          (λ e. cc (d, (text_eq_iff unit (lit "days")).1 e)))
  ]
]

abbrev pub unit_of : DmPrunePeriod → Text
unit_of period = from_option [] (unit_sql period.unit)

delete_statement-by_column :
    (table : Text) (period : DmPrunePeriod)
    → delete_statement true (table, lit "TimeUnixMs") period
      ≡ by_column table (is_older period (unit_of period))
unfolding delete_statement lit
delete_statement-by_column table period = refl

delete_statement-by_millis :
    (table : Text) (period : DmPrunePeriod)
    → delete_statement false (table, lit "TimeUnixMs") period
      ≡ by_millis table (is_older period (unit_of period))
unfolding delete_statement lit
delete_statement-by_millis table period = refl

module _ (db : Database) where
  open db use {execute, describe}

  column_type→HasDatetime :
      (cs : List (Text × Text))
      → is_datetime db (column_type db (lit "TimeUnixMs") cs) ≡ true
      → HasDatetime cs
  unfolding is_datetime column_type
  column_type→HasDatetime [] h = absurd (ground arith)
  column_type→HasDatetime ((name, type) ∷ cs) h = elim (text_eq-cases name (lit "TimeUnixMs")) [
    | inl (t, e) ↦ here name type cs e (ground arith)
    | inr t ↦
        there name type cs (λ e. cc (t, (text_eq_iff name (lit "TimeUnixMs")).1 e))
          (column_type→HasDatetime cs (ground arith))
  ]

  HasDatetime→column_type :
      (cs : List (Text × Text))
      → HasDatetime cs
      → is_datetime db (column_type db (lit "TimeUnixMs") cs) ≡ true
  unfolding is_datetime column_type
  HasDatetime→column_type _ (here name type cs e h) =
      ground (arith, text_eq_iff name (lit "TimeUnixMs"))
  HasDatetime→column_type _ (there name type cs n h) =
      ground (arith, text_eq_iff name (lit "TimeUnixMs"), HasDatetime→column_type cs h)

  abbrev plain_of : Text → Run → Bool
  plain_of table r = is_datetime db (dm_column_type db (table, lit "TimeUnixMs") r)

  plain_of→IsDatetime :
      (table : Text) (r : Run) → plain_of table r ≡ true → IsDatetime db r.log table
  unfolding is_datetime dm_column_type
  plain_of→IsDatetime table r h =
      elim (Option-cases (describe r.log (lit "DESCRIBE TABLE " ++ table))) [
        | inl e ↦ absurd (ground arith)
        | inr (cs, e) ↦ (cs, e, column_type→HasDatetime cs (ground arith))
      ]

  IsDatetime→plain_of :
      (table : Text) (r : Run) → IsDatetime db r.log table → plain_of table r ≡ true
  unfolding is_datetime dm_column_type
  IsDatetime→plain_of table r (cs, e, h) = ground (arith, e, HasDatetime→column_type cs h)

  delete_statement-IsOrder :
      (period : DmPrunePeriod) (table : Text) (r : Run)
      → IsOrder db r.log table
          (is_older period (unit_of period))
          (delete_statement (plain_of table r) (table, lit "TimeUnixMs") period)
          (delete_statement (not (plain_of table r)) (table, lit "TimeUnixMs") period)
  delete_statement-IsOrder period table r = by_test (plain_of table r) refl
    where
      by_test :
          (b : Bool)
          → plain_of table r ≡ b
          → IsOrder db r.log table
              (is_older period (unit_of period))
              (delete_statement b (table, lit "TimeUnixMs") period)
              (delete_statement (not b) (table, lit "TimeUnixMs") period)
      by_test true e =
          rw (delete_statement-by_column table period, delete_statement-by_millis table period)
            (column_first (plain_of→IsDatetime table r e))
      by_test false e =
          rw (delete_statement-by_column table period, delete_statement-by_millis table period)
            (millis_first (λ d. false≢true (sym e ∙ IsDatetime→plain_of table r d)))

  log-fallback :
      (table stmt e : Text) (r : Run) → (fallback db table stmt e r).log ≡ r.log ++ stmt ∷ []
  unfolding fallback fails logged
  log-fallback table stmt e r = ground arith

  pub prune_metric-Deletes :
      (period : DmPrunePeriod) (table : Text) (r : Run)
      → Deletes db table
          (is_older period (unit_of period))
          r.log
          (prune_metric db period (table, lit "TimeUnixMs") r).log
  unfolding prune_metric logged
  prune_metric-Deletes period table r =
      by_answer (execute q.log (delete_statement (plain_of table r) t period)) refl
    where
      t : Text × Text
      t = (table, lit "TimeUnixMs")

      q : Run
      q = logged db r (lit "DESCRIBE TABLE " ++ table)

      by_answer :
          (o : Option Text)
          → execute q.log (delete_statement (plain_of table r) t period) ≡ o
          → let after : Run = elim o [
            | none ↦ logged db q (delete_statement (plain_of table r) t period)
            | some e ↦
                fallback db table
                  (delete_statement (not (plain_of table r)) t period)
                  e
                  (logged db q (delete_statement (plain_of table r) t period))
          ] in
            Deletes db table (is_older period (unit_of period)) r.log after.log
      by_answer none a =
          deleted _ _ (delete_statement-IsOrder period table r) a (append_assoc r.log _ _)
      by_answer (some e) a =
          retried _ _ e (delete_statement-IsOrder period table r) a
            (log-fallback table _ e _ ∙ (append_assoc (r.log ++ _) _ _ ∙ append_assoc r.log _ _))
