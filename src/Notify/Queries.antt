-- ===== src/Notify/Queries.antt =====
-- The queries of the conditions and their parameters fit together when they are inlined.
use sobs.Prelude.{
  Option, ℕ, ◌≡◌, refl, subst, Bool, true, false, ◌||◌, none, some, List, [], ◌∷◌, ◌++◌, arith,
  if◌then◌else◌, is_some, is_nil,
}
use sobs.Text.{Text, lit, text_eq, trim_space, to_lower, join}
use sobs.Store.Params.{Param, FloatFormat, inline_params, inline_loop, int}
use sobs.Notify.Evaluate.{
  Query, signal_query, tag_query, and_record_type, and_tag_value, tag_clause,
}
use sobs.Notify.Values.{obj_str_def, obj_str_or, Numbers}
use sobs.Json.{Fields}
use sobs.Prelude.Int.{pos}

-- The engine gets a query in which every placeholder was replaced.
abbrev pub Inlines : {F : Type 0} → FloatFormat F → Query F → Type 0
Inlines fmt q = is_some (inline_params fmt q.text q.params) ≡ true

module _ {F : Type 0} (fmt : FloatFormat F) (nm : Numbers F) where
  carry : {p q : Query F} → some p ≡ some q → Inlines fmt p → Inlines fmt q
  carry e h = subst (Inlines fmt) (ground arith) h

  signal_query-Inlines :
      (cond : Fields F) (q : Query F) → signal_query nm cond ≡ some q → Inlines fmt q
  unfolding signal_query inline_params inline_loop lit
  signal_query-Inlines cond q h =
      by_tests
        (is_nil (trim_space (obj_str_or nm cond (lit "source")))
          || is_nil (trim_space (obj_str_or nm cond (lit "signal"))))
        (is_nil (trim_space (obj_str_or nm cond (lit "service")))) _ _ _ _ h
    where
      by_tests :
          (t u : Bool) (w source signal service : Param F)
          → (if t
              then none
              else if u
              then some (record {
                text =
                    lit
                      "SELECT avg(Value) AS v FROM v_derived_signals_1m WHERE MinuteBucket >= now() - INTERVAL ? MINUTE AND SignalSource = ? AND SignalName = ?"
                    ++ lit " HAVING count() >= ?";
                params = w ∷ source ∷ signal ∷ int (pos 1) ∷ [];
              })
              else some (record {
                text =
                    lit
                      "SELECT avg(Value) AS v FROM v_derived_signals_1m WHERE MinuteBucket >= now() - INTERVAL ? MINUTE AND SignalSource = ? AND SignalName = ?"
                    ++ (lit " AND ServiceName = ?" ++ lit " HAVING count() >= ?");
                params = w ∷ source ∷ signal ∷ service ∷ int (pos 1) ∷ [];
              }))
            ≡ some q
          → Inlines fmt q
      by_tests true u w x y z e = absurd (ground arith)
      by_tests false true w x y z e = carry e refl
      by_tests false false w x y z e = carry e refl

  tag_query-Inlines :
      (now : ℕ) (cond : Fields F) (q : Query F) → tag_query nm now cond ≡ some q → Inlines fmt q
  unfolding tag_query and_record_type and_tag_value tag_clause inline_params inline_loop lit join
  tag_query-Inlines now cond q h =
      let record_type = to_lower (trim_space (obj_str_or nm cond (lit "record_type"))) in
      let op = to_lower (trim_space (obj_str_def nm cond (lit "tag_match_operator") (lit "eq"))) in
      by_tests (is_nil (trim_space (obj_str_or nm cond (lit "tag_key"))))
        (is_nil record_type || text_eq record_type (lit "all"))
        (is_nil (trim_space (obj_str_or nm cond (lit "tag_value")))) (text_eq op (lit "eq"))
        (text_eq op (lit "contains")) (text_eq op (lit "regex")) _ _ _ _ h
    where
      by_type : Bool → Param F → List Text × List (Param F)
      by_type t ty = if t then ([], []) else (lit "RecordType = ?" ∷ [], ty ∷ [])

      by_value : Bool → Bool → Bool → Bool → Param F → List Text × List (Param F)
      by_value u a b c v =
          if u
          then ([], [])
          else elim (if a
              then some (lit "TagValue = ?")
              else if b
              then some (lit "positionCaseInsensitive(TagValue, ?) > 0")
              else if c
              then some (lit "match(TagValue, ?)")
              else none) [ none ↦ ([], []) | some x ↦ (x ∷ [], v ∷ []) ]

      by_tests :
          (z t u a b c : Bool) (m k ty v : Param F)
          → (if z
              then none
              else some (record {
                text =
                    lit "SELECT count() AS c FROM sobs_record_tags FINAL WHERE "
                    ++ join (lit " AND ") (
                        lit "IsDeleted = 0"
                        ∷ lit "Version >= ?"
                        ∷ lit "TagKey = ?"
                        ∷ ((by_type t ty).0 ++ (by_value u a b c v).0));
                params = m ∷ k ∷ ((by_type t ty).1 ++ (by_value u a b c v).1);
              }))
            ≡ some q
          → Inlines fmt q
      by_tests true t u a b c m k ty v e = absurd (ground arith)
      by_tests false true true a b c m k ty v e = carry e refl
      by_tests false false true a b c m k ty v e = carry e refl
      by_tests false true false true b c m k ty v e = carry e refl
      by_tests false false false true b c m k ty v e = carry e refl
      by_tests false true false false true c m k ty v e = carry e refl
      by_tests false false false false true c m k ty v e = carry e refl
      by_tests false true false false false true m k ty v e = carry e refl
      by_tests false false false false false true m k ty v e = carry e refl
      by_tests false true false false false false m k ty v e = carry e refl
      by_tests false false false false false false m k ty v e = carry e refl

  -- A condition that sends no query needs no parameters.
  abbrev pub Fits : Option (Query F) → Type 0
  Fits none = Unit
  Fits (some q) = Inlines fmt q

  -- Whatever the condition and the time, the query of a signal and the query of a tag, where there is
  -- one, are inlined without the error of a placeholder that has no parameter.
  pub queries-Fit :
      (now : ℕ) (cond : Fields F) → Fits (signal_query nm cond) × Fits (tag_query nm now cond)
  queries-Fit now cond = (
    by_query (signal_query nm cond) (signal_query-Inlines cond),
    by_query (tag_query nm now cond) (tag_query-Inlines now cond),
  )
    where
      by_query : (o : Option (Query F)) → ((q : Query F) → o ≡ some q → Inlines fmt q) → Fits o
      by_query none f = tt
      by_query (some q) f = f q refl
