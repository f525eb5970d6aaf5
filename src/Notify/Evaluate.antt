-- ===== src/Notify/Evaluate.antt =====
-- The evaluation of one condition: the query that is sent, and the test of its value.
use sobs.Prelude.{
  ℕ, ◌*◌, Bool, false, ◌||◌, Option, none, some, List, [], ◌∷◌, ◌++◌, if◌then◌else◌, is_nil,
}
use sobs.Prelude.Int.{ℤ, pos, sub_ℕ, pos_part}
use sobs.Text.{Text, lit, text_eq, trim_space, to_lower, join}
use sobs.Json.{Json, Fields}
use sobs.Store.Params.{Param, str, int, QueryResult, first}
use sobs.Notify.Values.{
  Numbers, obj_str_or, obj_str_def, cond_float, cond_int, clamp_int, cell_value,
}

-- A query and its parameters.
pub record Query (F : Type 0) : Type 0 where
  pub text : Text
  pub params : List (Param F)

module _ {F : Type 0} (nm : Numbers F) where
  open nm use {lt, le, abs_below, subtract, of_int}

  -- `tolerance` is 1e-9.
  unfoldable pub compare_threshold : Text → F → F → F → Bool
  compare_threshold comparator tolerance value threshold =
      if text_eq comparator (lit "gt")
      then lt threshold value
      else if text_eq comparator (lit "lt")
      then lt value threshold
      else if text_eq comparator (lit "gte")
      then le threshold value
      else if text_eq comparator (lit "lte")
      then le value threshold
      else if text_eq comparator (lit "eq")
      then abs_below (subtract value threshold) tolerance
      else false

  unfoldable pub window_of : Fields F → ℤ
  window_of cond = clamp_int (cond_int nm cond (lit "window_minutes") (pos 5)) (pos 1) (pos 60)

  -- `none` where the source or the signal is missing.
  unfoldable pub signal_query : Fields F → Option (Query F)
  signal_query cond =
      let source = trim_space (obj_str_or nm cond (lit "source")) in
      let signal = trim_space (obj_str_or nm cond (lit "signal")) in
      let service = trim_space (obj_str_or nm cond (lit "service")) in
      let query =
        lit
          "SELECT avg(Value) AS v FROM v_derived_signals_1m WHERE MinuteBucket >= now() - INTERVAL ? MINUTE AND SignalSource = ? AND SignalName = ?" in
      let params = int (window_of cond) ∷ str source ∷ str signal ∷ [] in
      if is_nil source || is_nil signal
      then none
      else if is_nil service
      then some (record {
        text = query ++ lit " HAVING count() >= ?";
        params = params ++ int (pos 1) ∷ [];
      })
      else some (record {
        text = query ++ (lit " AND ServiceName = ?" ++ lit " HAVING count() >= ?");
        params = params ++ str service ∷ int (pos 1) ∷ [];
      })

  -- The clause for the value of a tag, where it has one and the operator is known.
  unfoldable pub tag_clause : Text → Option Text
  tag_clause op =
      if text_eq op (lit "eq")
      then some (lit "TagValue = ?")
      else if text_eq op (lit "contains")
      then some (lit "positionCaseInsensitive(TagValue, ?) > 0")
      else if text_eq op (lit "regex")
      then some (lit "match(TagValue, ?)")
      else none

  -- A list of conditions and their parameters.
  unfoldable pub and_record_type : Text → List Text × List (Param F)
  and_record_type t =
      if is_nil t || text_eq t (lit "all")
      then ([], [])
      else (lit "RecordType = ?" ∷ [], str t ∷ [])

  unfoldable pub and_tag_value : Text → Text → List Text × List (Param F)
  unfolding tag_clause
  and_tag_value op v =
      if is_nil v
      then ([], [])
      else elim (tag_clause op) [ none ↦ ([], []) | some c ↦ (c ∷ [], str v ∷ []) ]

  -- `now` is in milliseconds.
  unfoldable pub tag_query : ℕ → Fields F → Option (Query F)
  unfolding and_record_type and_tag_value window_of
  tag_query now cond =
      let record_type = to_lower (trim_space (obj_str_or nm cond (lit "record_type"))) in
      let tag_key = trim_space (obj_str_or nm cond (lit "tag_key")) in
      let op = to_lower (trim_space (obj_str_def nm cond (lit "tag_match_operator") (lit "eq"))) in
      let tag_value = trim_space (obj_str_or nm cond (lit "tag_value")) in
      let min_version = sub_ℕ now (pos_part (window_of cond) * 60000) in
      let by_type = and_record_type record_type in
      let by_value = and_tag_value op tag_value in
      let conds =
        lit "IsDeleted = 0" ∷ lit "Version >= ?" ∷ lit "TagKey = ?" ∷ (by_type.0 ++ by_value.0) in
      if is_nil tag_key
      then none
      else some (record {
        text =
            lit "SELECT count() AS c FROM sobs_record_tags FINAL WHERE "
            ++ join (lit " AND ") conds;
        params = int min_version ∷ str tag_key ∷ (by_type.1 ++ by_value.1);
      })

  -- The value of a column of the first row, if the query ran and found a row.
  unfoldable pub run_query :
      (Query F → Option (QueryResult (Json F))) → Option (Query F) → Text → Option F
  run_query execute none column = none
  run_query execute (some q) column = elim (execute q) [
    | none ↦ none
    | some res ↦ elim (first res) [
      | none ↦ none
      | some row ↦ some (cell_value nm res.columns row column)
    ]
  ]

  unfoldable pub judge : Fields F → F → Option F → Bool × F
  unfolding compare_threshold
  judge cond tolerance none = (false, of_int (pos 0))
  judge cond tolerance (some value) =
      let comparator = trim_space (obj_str_def nm cond (lit "comparator") (lit "gt")) in
      (
        compare_threshold comparator tolerance value
            (cond_float nm cond (lit "threshold") (of_int (pos 0))),
        value,
      )

  unfoldable pub evaluate_condition :
      (Query F → Option (QueryResult (Json F))) → ℕ → F → Fields F → Bool × F
  unfolding signal_query tag_query run_query judge
  evaluate_condition execute now tolerance cond =
      let cond_type = to_lower (trim_space (obj_str_or nm cond (lit "type"))) in
      if text_eq cond_type (lit "tag")
      then judge cond tolerance (run_query execute (tag_query now cond) (lit "c"))
      else judge cond tolerance (run_query execute (signal_query cond) (lit "v"))
