-- ===== src/Query/Regex/Fit.antt =====
-- The placeholders of the sample query and its parameters.
use sobs.Prelude.{
  is_nil, refl, map, All, append_assoc, ℕ, suc, ◌≡◌, true, not, ◌||◌, Option, none, some, List, [],
  ◌∷◌, ◌++◌, arith, ◌==◌, if◌then◌else◌, is_some, length,
}
use sobs.Prelude.Int.{pos}
use sobs.Text.{lit, join, Text}
use sobs.Store.Params.{Param, FloatFormat, inline_loop, str, int}
use sobs.Query.Regex.{
  Conditions, condition_on, where_sql, regex_expression_clauses, time_window_conditions,
  regex_scope_time_conditions, regex_scope_text,
}

-- The number of placeholders of a piece of a query that begins under the given quote and ends outside
-- quotes; `none` where it ends inside one.
unfoldable pub marks : ℕ → Text → Option ℕ
marks q [] = if q == 0 then some 0 else none
marks q (c ∷ s) =
    let closing = marks 0 s in
    let inside = marks q s in
    let opening = marks c s in
    if not (q == 0)
    then if c == q then closing else inside
    else if c == b'\'' || c == b'"'
    then opening
    else if c == b'?'
    then elim closing [ none ↦ none | some n ↦ some (suc n) ]
    else closing

module _ {F : Type 0} (fmt : FloatFormat F) where
  -- A piece of a query that takes these parameters, wherever it stands outside quotes.
  abbrev pub Takes : Text → List (Param F) → Type 0
  Takes s ps =
      (t : Text) (qs : List (Param F))
      → is_some (inline_loop fmt t 0 qs) ≡ true
      → is_some (inline_loop fmt (s ++ t) 0 (ps ++ qs)) ≡ true

  marks-inline_loop :
      (q : ℕ) (s : Text) (ps : List (Param F)) (t : Text) (qs : List (Param F))
      → marks q s ≡ some (length ps)
      → is_some (inline_loop fmt t 0 qs) ≡ true
      → is_some (inline_loop fmt (s ++ t) q (ps ++ qs)) ≡ true
  unfolding marks inline_loop
  marks-inline_loop q [] [] t qs h e = ground (arith, e)
  marks-inline_loop q [] (p ∷ ps) t qs h e = absurd (ground arith)
  marks-inline_loop q (c ∷ s) [] t qs h e = ground (
    arith,
    marks-inline_loop 0 s [] t qs,
    marks-inline_loop q s [] t qs,
    marks-inline_loop c s [] t qs,
  )
  marks-inline_loop q (c ∷ s) (p ∷ ps) t qs h e = ground (
    arith,
    marks-inline_loop 0 s (p ∷ ps) t qs,
    marks-inline_loop q s (p ∷ ps) t qs,
    marks-inline_loop c s (p ∷ ps) t qs,
    marks-inline_loop 0 s ps t qs,
  )

  pub marks-Takes : (s : Text) (ps : List (Param F)) → marks 0 s ≡ some (length ps) → Takes s ps
  marks-Takes s ps h t qs e = marks-inline_loop 0 s ps t qs h e

  pub Takes-append :
      (s t : Text) (ps qs : List (Param F)) → Takes s ps → Takes t qs → Takes (s ++ t) (ps ++ qs)
  Takes-append s t ps qs h k u rs e =
      rw (append_assoc s t u, append_assoc ps qs rs) (h (t ++ u) (qs ++ rs) (k u rs e))

  unfoldable pub AllTakes : Conditions F → Type 0
  AllTakes conds = All (λ c. Takes c.0 (c.1 ∷ [])) conds

  join-Takes :
      (c : Text × Param F) (cs : Conditions F)
      → AllTakes (c ∷ cs)
      → Takes (join (lit " AND ") (map (λ c. c.0) (c ∷ cs))) (map (λ c. c.1) (c ∷ cs))
  unfolding join AllTakes
  join-Takes c [] h = h.0
  join-Takes c (d ∷ ds) h =
      Takes-append c.0 (lit " AND " ++ join (lit " AND ") (map (λ c. c.0) (d ∷ ds))) (c.1 ∷ [])
        (map (λ c. c.1) (d ∷ ds)) h.0
        (Takes-append (lit " AND ") (join (lit " AND ") (map (λ c. c.0) (d ∷ ds))) []
          (map (λ c. c.1) (d ∷ ds))
          (unfold lit in unfold marks in marks-Takes (lit " AND ") [] refl) (join-Takes d ds h.1))

  pub where_sql-Takes : (cs : Conditions F) → AllTakes cs → Takes (where_sql cs) (map (λ c. c.1) cs)
  unfolding where_sql
  where_sql-Takes [] h = λ t qs e. e
  where_sql-Takes (c ∷ cs) h =
      Takes-append (lit "WHERE ") _ [] (map (λ c. c.1) (c ∷ cs))
        (unfold lit in unfold marks in marks-Takes (lit "WHERE ") [] refl) (join-Takes c cs h)

  pub AllTakes-append : (cs ds : Conditions F) → AllTakes cs → AllTakes ds → AllTakes (cs ++ ds)
  unfolding AllTakes
  AllTakes-append [] ds h k = k
  AllTakes-append (c ∷ cs) ds h k = (h.0, AllTakes-append cs ds h.1 k)

  pub condition_on-AllTakes : (c v : Text) → marks 0 c ≡ some 1 → AllTakes (condition_on c v)
  unfolding AllTakes condition_on
  condition_on-AllTakes c [] h = tt
  condition_on-AllTakes c (x ∷ v) h = (marks-Takes c (str (x ∷ v) ∷ []) h, tt)

  -- The conditions that use a column name have one placeholder each.
  pub record IsColumn (column : Text) : Type 0 where
    pub alone : marks 0 column ≡ some 0
    pub from_one : marks 0 (column ++ lit " >= parseDateTime64BestEffort(?, 9)") ≡ some 1
    pub to_one : marks 0 (column ++ lit " < parseDateTime64BestEffort(?, 9)") ≡ some 1
    pub recent_one : marks 0 (column ++ lit " >= now() - INTERVAL ? HOUR") ≡ some 1

  pub timestamp-IsColumn : IsColumn (lit "Timestamp")
  unfolding lit marks
  timestamp-IsColumn = record { alone = refl; from_one = refl; to_one = refl; recent_one = refl }

  pub time-IsColumn : IsColumn (lit "time")
  unfolding lit marks
  time-IsColumn = record { alone = refl; from_one = refl; to_one = refl; recent_one = refl }

  pub regex_scope_time_conditions-AllTakes :
      (normalize scope : Text → Text) (column : Text)
      → IsColumn column
      → AllTakes (regex_scope_time_conditions normalize scope column)
  unfolding regex_scope_time_conditions time_window_conditions AllTakes
  regex_scope_time_conditions-AllTakes normalize scope column ok =
      or_recent
        (condition_on (column ++ lit " >= parseDateTime64BestEffort(?, 9)") from_ts
          ++ condition_on (column ++ lit " < parseDateTime64BestEffort(?, 9)") to_ts)
        (AllTakes-append _ _
          (condition_on-AllTakes (column ++ lit " >= parseDateTime64BestEffort(?, 9)") from_ts
            ok.from_one)
          (condition_on-AllTakes (column ++ lit " < parseDateTime64BestEffort(?, 9)") to_ts
            ok.to_one))
    where
      from_ts : Text
      from_ts =
          if is_nil (regex_scope_text scope (lit "from_ts") 64)
          then []
          else normalize (regex_scope_text scope (lit "from_ts") 64)

      to_ts : Text
      to_ts =
          if is_nil (regex_scope_text scope (lit "to_ts") 64)
          then []
          else normalize (regex_scope_text scope (lit "to_ts") 64)

      or_recent :
          (conds : Conditions F)
          → AllTakes conds
          → AllTakes (
              if is_nil conds
              then (column ++ lit " >= now() - INTERVAL ? HOUR", int (pos 24)) ∷ []
              else conds)
      or_recent [] h = (
        marks-Takes (column ++ lit " >= now() - INTERVAL ? HOUR") (int (pos 24) ∷ []) ok.recent_one,
        tt,
      )
      or_recent (c ∷ cs) h = h

  pub clauses-AllTakes :
      (include_patterns exclude_patterns : List Text)
      → AllTakes (regex_expression_clauses (lit "sample_value") include_patterns exclude_patterns)
  unfolding regex_expression_clauses AllTakes lit marks
  clauses-AllTakes [] [] = tt
  clauses-AllTakes [] (p ∷ ps) = (
    marks-Takes (lit "NOT match(" ++ (lit "sample_value" ++ lit ", ?)")) (str p ∷ []) refl,
    clauses-AllTakes [] ps,
  )
  clauses-AllTakes (p ∷ ps) qs = (
    marks-Takes (lit "match(" ++ (lit "sample_value" ++ lit ", ?)")) (str p ∷ []) refl,
    clauses-AllTakes ps qs,
  )
