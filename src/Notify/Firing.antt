-- ===== src/Notify/Firing.antt =====
-- When a rule fires, and what a firing dispatches and writes.
use sobs.Prelude.{
  none, Option, refl, [], ◌++◌, map, ◌||◌, true, ◌∷◌, some, is_nil, if◌then◌else◌, arith, ◌≡◌, ◌==◌,
  ◌&&◌, not, false, all_of, List, Bool, ◌>>=◌,
}
use sobs.Text.{Text, lit, text_eq}
use sobs.Json.{Json, null, boolean, number, str, int, float, object, array, Fields, get}
use sobs.Notify.Values.{Numbers}
use sobs.Notify.Evaluate.{evaluate_condition}
use sobs.Notify.Payload.{Services, NotifRule}
use sobs.Notify.Check.{
  World, DispatchResult, Write, in_cooldown, split_conditions, should_fire, dispatch_one,
  dispatch_all, not_fired_result, fired_result, writes_of, check_rule, log_entry, fired_rule,
  raw_window,
}

module _ {F : Type 0} (nm : Numbers F) (sv : Services F) (wd : World F) where
  -- Whether a condition of the rule holds; an entry that is no object does not.
  abbrev pub holds : Json F → Bool
  holds (object cond) = (evaluate_condition nm wd.execute wd.now_millis wd.tolerance cond).0
  holds _ = false

  abbrev pub any_holds : List (Json F) → Bool
  any_holds [] = false
  any_holds (c ∷ cs) = holds c || any_holds cs

  -- Enabled, out of its cooldown, and, under the operator `all`, with at least one condition and every
  -- condition true; under any other operator with some condition true.
  abbrev pub fires : NotifRule F → Bool
  fires rule =
      rule.enabled
      && (not (in_cooldown nm sv wd rule)
          && (if text_eq rule.logic_operator (lit "all")
              then not (is_nil rule.conditions) && all_of holds rule.conditions
              else any_holds rule.conditions))

  split_conditions-none :
      (cs : List (Json F)) → ((split_conditions nm sv wd cs).1 == 0) ≡ all_of holds cs
  unfolding split_conditions all_of
  split_conditions-none [] = refl
  split_conditions-none (object cond ∷ cs) = ground (arith, split_conditions-none cs)
  split_conditions-none (null ∷ cs) = ground arith
  split_conditions-none (boolean b ∷ cs) = ground arith
  split_conditions-none (number x ∷ cs) = ground arith
  split_conditions-none (str x ∷ cs) = ground arith
  split_conditions-none (int n ∷ cs) = ground arith
  split_conditions-none (float f ∷ cs) = ground arith
  split_conditions-none (array a ∷ cs) = ground arith

  split_conditions-some :
      (cs : List (Json F)) → not (is_nil (split_conditions nm sv wd cs).0) ≡ any_holds cs
  unfolding split_conditions
  split_conditions-some [] = refl
  split_conditions-some (object cond ∷ cs) = ground (arith, split_conditions-some cs)
  split_conditions-some (null ∷ cs) = split_conditions-some cs
  split_conditions-some (boolean b ∷ cs) = split_conditions-some cs
  split_conditions-some (number x ∷ cs) = split_conditions-some cs
  split_conditions-some (str x ∷ cs) = split_conditions-some cs
  split_conditions-some (int n ∷ cs) = split_conditions-some cs
  split_conditions-some (float f ∷ cs) = split_conditions-some cs
  split_conditions-some (array a ∷ cs) = split_conditions-some cs

  -- The results of the channels, in the order of the rule's list.
  abbrev pub Dispatched : NotifRule F → List (Fields F) → List Text → List DispatchResult → Type 0
  Dispatched rule fired [] [] = Unit
  Dispatched rule fired (i ∷ ids) (r ∷ rs) =
      (dispatch_one nm sv wd rule fired i ≡ some r)
      × (r.channel_id ≡ i)
      × Dispatched rule fired ids rs
  Dispatched rule fired _ _ = ⊥

  -- A firing: one result for each channel, a log entry for each result, then the rule with its new time
  -- and the raw window.
  pub record IsFiring (rule : NotifRule F) (answer : Fields F) (writes : List (Write F))
      : Type 0 where
    pub results : List DispatchResult
    pub dispatched :
        Dispatched rule (split_conditions nm sv wd rule.conditions).0 rule.channel_ids results
    pub answered : get answer (lit "fired") ≡ some (boolean true)
    pub written :
        writes
        ≡ map (λ dr. log_entry rule.id rule.name dr) results
          ++ fired_rule rule ∷ raw_window rule.id ∷ []

  dispatch_one-channel_id :
      (rule : NotifRule F) (fired : List (Fields F)) (i : Text) (r : DispatchResult)
      → dispatch_one nm sv wd rule fired i ≡ some r
      → r.channel_id ≡ i
  unfolding dispatch_one
  dispatch_one-channel_id rule fired i r h = ground arith

  dispatch_all-Dispatched :
      (rule : NotifRule F) (fired : List (Fields F)) (ids : List Text) (rs : List DispatchResult)
      → dispatch_all nm sv wd rule fired ids ≡ some rs
      → Dispatched rule fired ids rs
  unfolding dispatch_all
  dispatch_all-Dispatched rule fired [] [] h = tt
  dispatch_all-Dispatched rule fired [] (r ∷ rs) h = cc
  dispatch_all-Dispatched rule fired (i ∷ ids) [] h = ground arith
  dispatch_all-Dispatched rule fired (i ∷ ids) (r ∷ rs) h =
      by_parts (dispatch_one nm sv wd rule fired i) (dispatch_all nm sv wd rule fired ids) refl
        (dispatch_all-Dispatched rule fired ids rs) (dispatch_one-channel_id rule fired i r) h
    where
      by_parts :
          (o : Option DispatchResult) (os : Option (List DispatchResult))
          → dispatch_one nm sv wd rule fired i ≡ o
          → (os ≡ some rs → Dispatched rule fired ids rs)
          → (dispatch_one nm sv wd rule fired i ≡ some r → r.channel_id ≡ i)
          → (o >>= λ x. os >>= λ xs. some (x ∷ xs)) ≡ some (r ∷ rs)
          → Dispatched rule fired (i ∷ ids) (r ∷ rs)
      by_parts none os e rest same h = absurd (ground arith)
      by_parts (some x) none e rest same h = absurd (ground arith)
      by_parts (some x) (some xs) e rest same h =
          (ground arith, same (ground arith), rest (ground arith))

  should_fire-any_all :
      (rule : NotifRule F)
      → should_fire nm sv wd rule ≡ (
          if text_eq rule.logic_operator (lit "all")
          then not (is_nil rule.conditions) && all_of holds rule.conditions
          else any_holds rule.conditions)
  unfolding should_fire
  should_fire-any_all rule =
      rw (split_conditions-none rule.conditions, split_conditions-some rule.conditions) refl

  -- The outcomes of a check.
  pub data Checked (rule : NotifRule F) : Option (Fields F × List (Write F)) → Type 0 where
    quiet :
        (answer : Fields F)
        → fires rule ≡ false
        → get answer (lit "fired") ≡ some (boolean false)
        → Checked rule (some (answer, []))
    fired :
        (answer : Fields F) (writes : List (Write F))
        → fires rule ≡ true
        → IsFiring rule answer writes
        → Checked rule (some (answer, writes))
    panicked :
        fires rule ≡ true
        → dispatch_all nm sv wd rule (split_conditions nm sv wd rule.conditions).0 rule.channel_ids
          ≡ none
        → Checked rule none

  get-fired_result :
      (rule : NotifRule F) (fs : List (Fields F)) (rs : List DispatchResult)
      → get (fired_result nm sv wd rule fs rs) (lit "fired") ≡ some (boolean true)
  unfolding fired_result get lit text_eq
  get-fired_result rule fs rs = refl

  get-not_fired_result :
      (rule : NotifRule F) (reason : Text)
      → get (not_fired_result nm sv wd rule reason) (lit "fired") ≡ some (boolean false)
  unfolding not_fired_result get lit text_eq
  get-not_fired_result rule reason = refl

  fired-Checked :
      (rule : NotifRule F) (o : Option (List DispatchResult))
      → fires rule ≡ true
      → dispatch_all nm sv wd rule (split_conditions nm sv wd rule.conditions).0 rule.channel_ids
        ≡ o
      → Checked rule (elim o [
        | none ↦ none
        | some results ↦ some (
          fired_result nm sv wd rule (split_conditions nm sv wd rule.conditions).0 results,
          writes_of nm sv wd rule results,
        )
      ])
  unfolding writes_of
  fired-Checked rule none f h = panicked f h
  fired-Checked rule (some rs) f h = fired _ _ f (record {
    results = rs;
    dispatched =
        dispatch_all-Dispatched rule (split_conditions nm sv wd rule.conditions).0 rule.channel_ids
          rs h;
    answered = get-fired_result rule (split_conditions nm sv wd rule.conditions).0 rs;
    written = refl;
  })

  -- The check of a rule that is disabled, in its cooldown, or whose conditions do not hold under its
  -- operator answers with `fired` false and writes nothing. For any other rule it fails where a dispatch
  -- panics; else it has a result for each channel in the order of the rule, answers with `fired` true,
  -- and writes a log entry for each result, then the rule and the raw window.
  pub check_rule-Checked : (rule : NotifRule F) → Checked rule (check_rule nm sv wd rule)
  unfolding check_rule
  check_rule-Checked rule =
      by_tests rule.enabled (in_cooldown nm sv wd rule) (should_fire nm sv wd rule)
        (λ a b c. fired-Checked rule _ (ground (arith, should_fire-any_all rule)) refl)
        (λ q. ground (arith, should_fire-any_all rule))
    where
      by_tests :
          (e c s : Bool)
          → (e ≡ true
              → c ≡ false
              → s ≡ true
              → Checked rule
                  (elim (dispatch_all nm sv wd rule
                    (split_conditions nm sv wd rule.conditions).0
                    rule.channel_ids) [
                      | none ↦ none
                      | some results ↦ some (
                        fired_result nm sv wd rule
                            (split_conditions nm sv wd rule.conditions).0
                            results,
                        writes_of nm sv wd rule results,
                      )
                    ]))
          → ((e && (not c && s)) ≡ false → fires rule ≡ false)
          → Checked rule (
              if not e
              then some (not_fired_result nm sv wd rule (lit "disabled"), [])
              else if c
              then some (not_fired_result nm sv wd rule (lit "cooldown"), [])
              else if not s
              then some (not_fired_result nm sv wd rule (lit "conditions not met"), [])
              else (elim (dispatch_all nm sv wd rule
                  (split_conditions nm sv wd rule.conditions).0
                  rule.channel_ids) [
                    | none ↦ none
                    | some results ↦ some (
                      fired_result nm sv wd rule
                          (split_conditions nm sv wd rule.conditions).0
                          results,
                      writes_of nm sv wd rule results,
                    )
                  ]))
      by_tests false c s go stop = quiet _ (stop refl) (get-not_fired_result rule _)
      by_tests true true s go stop = quiet _ (stop refl) (get-not_fired_result rule _)
      by_tests true false false go stop = quiet _ (stop refl) (get-not_fired_result rule _)
      by_tests true false true go stop = go refl refl refl
