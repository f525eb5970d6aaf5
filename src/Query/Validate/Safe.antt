-- ===== src/Query/Validate/Safe.antt =====
-- Which statements pass the validation.
use sobs.Prelude.{◌≡◌, true, false, List, ◌++◌, All}
use sobs.Text.{Text, lit, trim_space, to_lower, member}
use sobs.Query.Validate.{
  Scans, safe_sql_prefixes, first_field, database_of, table_of, lower_capture_set,
}

-- The names that a statement defines or unpacks itself.
abbrev pub own_names : Scans → Text → List Text
own_names sc sql = lower_capture_set (sc.cte_aliases sql) ++ lower_capture_set (sc.array_joins sql)

-- A reference that may be read: a name of the statement's own, a table of the database `system`, or an
-- allowed table of the database `default`.
pub data IsPermitted (allowed own : List Text) (ref : Text) : Type 0 where
  own_name : member (to_lower ref) own ≡ true → IsPermitted allowed own ref
  system : database_of (to_lower ref) ≡ lit "system" → IsPermitted allowed own ref
  listed :
      database_of (to_lower ref) ≡ lit "default"
      → member (table_of (to_lower ref)) allowed ≡ true
      → IsPermitted allowed own ref

-- The words, in small letters, with which a statement that only reads may begin.
pub data IsReadKeyword (word : Text) : Type 0 where
  select_word : word ≡ lit "select" → IsReadKeyword word
  explain_word : word ≡ lit "explain" → IsReadKeyword word
  show_word : word ≡ lit "show" → IsReadKeyword word
  describe_word : word ≡ lit "describe" → IsReadKeyword word
  desc_word : word ≡ lit "desc" → IsReadKeyword word
  with_word : word ≡ lit "with" → IsReadKeyword word

IsListed : Text → Type 0
IsListed word = member word safe_sql_prefixes ≡ true

pub record IsSafe (sc : Scans) (allowed : List Text) (sql : Text) : Type 0 where
  pub read_only : IsReadKeyword (to_lower (first_field (trim_space sql)))
  pub no_write : sc.unsafe_match (trim_space sql) ≡ false
  pub permitted :
      All (IsPermitted allowed (own_names sc (trim_space sql))) (sc.table_refs (trim_space sql))
