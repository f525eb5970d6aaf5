-- ===== src/Ingest/Tests.antt =====
-- Two rules that match the same record under one key, and one that matches under another.
use sobs.Prelude.{ℕ, ◌≡◌, refl, some, List, [], ◌∷◌, map, length}
use sobs.Text.{Text, lit, text_eq, to_lower, contains, decimal}
use sobs.Json.{get, Json, Fields, str, no_fields, field, object, null, no_fields}
use sobs.Notify.Sample.{numbers}
use sobs.Ingest.{c_str, Tools, match_rules, tag_rows, subject_of}
use sobs.Ingest.Reading.{map_str_list, as_map_list, map_str}
use sobs.Ingest.Tags.{IsOnce, tag_of, last_match, match_rules-IsLast}
use sobs.Ingest.Versions.{count_from, tag_rows-versions}

abbrev tools : Tools ℕ
tools = record {
  numbers = numbers;
  format_float = decimal;
  md5_hex = λ s. s;
  regex = λ p. some (λ s. contains s p);
}

abbrev rule : Text → Text → Text → Text → Text → Json ℕ
rule on op value key tag_value = object (
    field (lit "match_field") (str on) (
      field (lit "match_operator") (str op) (
        field (lit "match_value") (str value)
          (field (lit "tag_key") (str key) (field (lit "tag_value") (str tag_value) no_fields)))))

abbrev rules : List (Json ℕ)
rules =
    rule (lit "severity") (lit "eq") (lit "ERROR") (lit "level") (lit "bad")
    ∷ null
    ∷ rule (lit "body") (lit "contains") (lit "DISK") (lit "area") (lit "storage")
    ∷ rule (lit "body") (lit "regex") (lit "disk") (lit "level") (lit "worse")
    ∷ []

abbrev row : Fields ℕ
row =
    field (lit "SeverityText") (str (lit "ERROR"))
      (field (lit "Body") (str (lit "disk full")) no_fields)

row-matches :
    match_rules tools (lit "log") (subject_of tools row) [] rules
    ≡ (lit "level", lit "worse") ∷ (lit "area", lit "storage") ∷ []
unfolding match_rules lit text_eq map_str_list get as_map_list map_str contains subject_of c_str
    to_lower
row-matches = refl

match_rules-IsLast_example :
    IsOnce (match_rules tools (lit "log") (subject_of tools row) [] rules)
    × ((k : Text)
        → tag_of k (match_rules tools (lit "log") (subject_of tools row) [] rules)
          ≡ last_match tools (lit "log") (subject_of tools row) k rules)
match_rules-IsLast_example = match_rules-IsLast tools (lit "log") (subject_of tools row) rules

tag_rows-versions_example :
    map (λ t. t.version) (tag_rows tools (lit "log") rules 7 (row ∷ row ∷ []))
    ≡ count_from 7 (length (tag_rows tools (lit "log") rules 7 (row ∷ row ∷ [])))
tag_rows-versions_example = tag_rows-versions tools (lit "log") rules 7 (row ∷ row ∷ [])
