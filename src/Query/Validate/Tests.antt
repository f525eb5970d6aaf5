-- ===== src/Query/Validate/Tests.antt =====
-- A statement on an allowed table.
use sobs.Prelude.{◌≡◌, refl, false, List, [], ◌∷◌}
use sobs.Text.{Text, lit, trim_space, to_lower, split, member}
use sobs.Query.Validate.{ref_blocked, database_of, table_of, Scans, validate_sql, check_table_refs}

abbrev one_table : Scans
one_table = record {
  unsafe_match = λ s. false;
  cte_aliases = λ s. [];
  array_joins = λ s. [];
  table_refs = λ s. lit "otel_logs" ∷ [];
}

abbrev statement : Text
statement = lit "SELECT 1 FROM otel_logs"

abbrev allowed : List Text
allowed = lit "otel_logs" ∷ []

validate_sql-passes : validate_sql one_table allowed statement ≡ []
unfolding validate_sql check_table_refs lit trim_space member to_lower ref_blocked database_of split
    table_of
validate_sql-passes = refl
