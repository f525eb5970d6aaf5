-- ===== src/Prune/Log.antt =====
-- What a prune executes, as a relation between the logs before and after it.
use sobs.Prelude.{◌≡◌, ◌≢◌, true, false, none, some, List, [], ◌∷◌, ◌++◌}
use sobs.Text.{Text, lit, trim_space, to_lower, contains, itoa}
use sobs.Prune.{Database, DmPrunePeriod}

-- The interval's unit for the unit of a period; any other is left out.
pub data IsUnit : Text → Text → Type 0 where
  hours : IsUnit (lit "hours") (lit "HOUR")
  days : IsUnit (lit "days") (lit "DAY")
  other : (u : Text) → u ≢ lit "hours" → u ≢ lit "days" → IsUnit u []

-- The condition of a DELETE behind the time: older than the period.
abbrev pub is_older : DmPrunePeriod → Text → Text
is_older period u = lit " < now() - INTERVAL " ++ (itoa (period.value) ++ (lit " " ++ u))

-- A column of milliseconds or of type DateTime, whose first entry in the description is of that type.
pub data HasDatetime : List (Text × Text) → Type 0 where
  here :
      (name type : Text) (cs : List (Text × Text))
      → name ≡ lit "TimeUnixMs"
      → contains (to_lower (trim_space type)) (lit "datetime") ≡ true
      → HasDatetime ((name, type) ∷ cs)
  there :
      (name type : Text) (cs : List (Text × Text))
      → name ≢ lit "TimeUnixMs"
      → HasDatetime cs
      → HasDatetime ((name, type) ∷ cs)

-- The engine describes the table's column TimeUnixMs as one of type DateTime.
abbrev pub IsDatetime : Database → List Text → Text → Type 0
IsDatetime db log table =
    (cs : List (Text × Text)) × (db.describe log (lit "DESCRIBE TABLE " ++ table) ≡ some cs)
    × HasDatetime cs

-- The two deletions of a metric table, by the column as it is and by its milliseconds.
abbrev pub by_column : Text → Text → Text
by_column table older = lit "ALTER TABLE " ++ (table ++ (lit " DELETE WHERE TimeUnixMs" ++ older))

abbrev pub by_millis : Text → Text → Text
by_millis table older =
    lit "ALTER TABLE "
    ++ (table ++ (lit " DELETE WHERE toDateTime(intDiv(TimeUnixMs, 1000))" ++ older))

-- Which of the two comes first.
pub data IsOrder (db : Database) (log : List Text) (table older : Text) : Text → Text → Type 0 where
  column_first :
      IsDatetime db log table
      → IsOrder db log table older (by_column table older) (by_millis table older)
  millis_first :
      ¬ IsDatetime db log table
      → IsOrder db log table older (by_millis table older) (by_column table older)

-- What a metric table adds to the log: its description and one deletion, and the other deletion only
-- where the engine answers the first with an error.
pub data Deletes (db : Database) (table older : Text) (log log' : List Text) : Type 0 where
  deleted :
      (first second : Text)
      → IsOrder db log table older first second
      → db.execute (log ++ (lit "DESCRIBE TABLE " ++ table) ∷ []) first ≡ none
      → log' ≡ log ++ ((lit "DESCRIBE TABLE " ++ table) ∷ first ∷ [])
      → Deletes db table older log log'
  retried :
      (first second e : Text)
      → IsOrder db log table older first second
      → db.execute (log ++ (lit "DESCRIBE TABLE " ++ table) ∷ []) first ≡ some e
      → log' ≡ log ++ ((lit "DESCRIBE TABLE " ++ table) ∷ first ∷ second ∷ [])
      → Deletes db table older log log'

-- The deletions from the tables of logs, traces and sessions.
abbrev pub ttl_statements : Text → List Text
ttl_statements older =
    (lit "ALTER TABLE otel_logs DELETE WHERE Timestamp" ++ older)
    ∷ (lit "ALTER TABLE otel_traces DELETE WHERE Timestamp" ++ older)
    ∷ (lit "ALTER TABLE hyperdx_sessions DELETE WHERE Timestamp" ++ older)
    ∷ []

abbrev pub optimize_statements : List Text
optimize_statements =
    lit "OPTIMIZE TABLE otel_logs FINAL"
    ∷ lit "OPTIMIZE TABLE otel_traces FINAL"
    ∷ lit "OPTIMIZE TABLE hyperdx_sessions FINAL"
    ∷ lit "OPTIMIZE TABLE otel_metrics_gauge FINAL"
    ∷ lit "OPTIMIZE TABLE otel_metrics_sum FINAL"
    ∷ lit "OPTIMIZE TABLE otel_metrics_histogram FINAL"
    ∷ []

-- The log of a prune.
pub data IsPruneLog (db : Database) (period : DmPrunePeriod) (log log' : List Text) : Type 0 where
  without_period :
      period.present ≡ false → log' ≡ log ++ optimize_statements → IsPruneLog db period log log'
  with_period :
      (u : Text) (gauge sum histogram : List Text)
      → period.present ≡ true
      → IsUnit period.unit u
      → Deletes db
          (lit "otel_metrics_gauge")
          (is_older period u)
          (log ++ ttl_statements (is_older period u))
          gauge
      → Deletes db (lit "otel_metrics_sum") (is_older period u) gauge sum
      → Deletes db (lit "otel_metrics_histogram") (is_older period u) sum histogram
      → log' ≡ histogram ++ optimize_statements
      → IsPruneLog db period log log'
