-- ===== src/Prune/Tests.antt =====
-- An engine on which the deletion from one table fails, and a request for 36 hours.
use sobs.Prelude.{ℕ, ◌≡◌, refl, true, none, some, [], ◌∷◌, map, if◌then◌else◌, length}
use sobs.Prelude.Int.{pos}
use sobs.Text.{lit, trim_space, to_lower, contains}
use sobs.Json.{get, Fields, field, no_fields, str}
use sobs.Notify.Sample.{numbers}
use sobs.Notify.Values.{Numbers, to_str}
use sobs.Prune.{
  unit_sql, Database, DmPrunePeriod, run_dm_prune, parse_dm_prune_period, optimize_statement,
  dm_all_prune_tables, ok_period, no_period,
}
use sobs.Prune.Log.{IsPruneLog}
use sobs.Prune.Statements.{run_dm_prune-IsPruneLog}

abbrev engine : Database
engine = record {
  execute = λ log s. if contains s (lit "hyperdx") then some (lit "no table") else none;
  describe = λ log s. some ((lit "TimeUnixMs", lit "DateTime") ∷ []);
}

abbrev hours : DmPrunePeriod
hours = record { present = true; value = pos 36; unit = lit "hours" }

-- A number that is read as the length of its text.
abbrev counting : Numbers ℕ
counting = record numbers { parse_int = λ s. some (pos (length s)) }

abbrev request : Fields ℕ
request =
    field (lit "prune_period_value") (str (lit "36"))
      (field (lit "prune_period_unit") (str (lit " Hours ")) no_fields)

run_dm_prune-IsPruneLog_example : IsPruneLog engine hours [] (run_dm_prune engine hours []).1.log
run_dm_prune-IsPruneLog_example = run_dm_prune-IsPruneLog engine hours []

request-parse :
    parse_dm_prune_period counting request
    ≡ ok_period (record { present = true; value = pos 2; unit = lit "hours" })
unfolding parse_dm_prune_period lit get to_str trim_space to_lower unit_sql
request-parse = refl

no_window : (run_dm_prune engine no_period []).1.log ≡ map optimize_statement dm_all_prune_tables
unfolding run_dm_prune dm_all_prune_tables contains lit
no_window = refl
