-- ===== src/Ingest/Reading.antt =====
-- How go/cmd/sobs/ingest_tag_rules.go reads the maps of rules and records.
use sobs.Prelude.{Bool, true, false, Option, none, some, List, [], ◌∷◌, if◌then◌else◌, from_option}
use sobs.Text.{Text, lit}
use sobs.Json.{Json, Fields, Items, str, object, array, no_fields, field, no_items, item, get}

module _ {F : Type 0} where
  unfoldable pub map_str : Fields F → Text → Text
  map_str m k = elim (get m k) [ none ↦ [] | some v ↦ elim v [ str s ↦ s | _ ↦ [] ] ]

  strs_of : Items F → List Text
  strs_of no_items = []
  strs_of (item v a) = let rest = strs_of a in elim v [ str s ↦ s ∷ rest | _ ↦ rest ]

  unfoldable pub map_str_list : Option (Json F) → List Text
  unfolding strs_of
  map_str_list none = []
  map_str_list (some v) = elim v [ array a ↦ strs_of a | _ ↦ [] ]

  maps_of : Items F → List (Fields F)
  maps_of no_items = []
  maps_of (item v a) = let rest = maps_of a in elim v [ object o ↦ o ∷ rest | _ ↦ rest ]

  unfoldable pub as_map_list : Option (Json F) → List (Fields F)
  unfolding maps_of
  as_map_list none = []
  as_map_list (some v) = elim v [ array a ↦ maps_of a | _ ↦ [] ]

  map_of : Option (Json F) → Option (Fields F)
  map_of none = none
  map_of (some v) = elim v [ object o ↦ some o | _ ↦ none ]

  some_fields : Option (Fields F) → Bool
  some_fields none = false
  some_fields (some no_fields) = false
  some_fields (some (field k v o)) = true

  unfoldable pub row_attrs : Fields F → Fields F
  unfolding map_of some_fields
  row_attrs row =
      let logs = map_of (get row (lit "LogAttributes")) in
      let spans = map_of (get row (lit "SpanAttributes")) in
      if some_fields logs
      then from_option no_fields logs
      else if some_fields spans
      then from_option no_fields spans
      else no_fields
