-- ===== src/Notify/Check.antt =====
-- One rule: whether it fires, what is dispatched and what is written; and the request that checks all
-- rules.
use sobs.Prelude.{
  ◌>>=◌, ℕ, suc, ◌+◌, ◌/◌, Bool, true, false, not, ◌&&◌, Option, none, some, List, [], ◌∷◌, ◌++◌,
  map, ◌==◌, if◌then◌else◌, length, is_nil,
}
use sobs.Prelude.Int.{pos}
use sobs.Text.{Text, lit, text_eq}
use sobs.Json.{Json, boolean, str, int, float, object, array, Fields, no_fields, field, set, get}
use sobs.Store.Params.{QueryResult}
use sobs.Notify.Values.{Numbers, obj_str_or}
use sobs.Notify.Evaluate.{Query, evaluate_condition}
use sobs.Notify.Payload.{
  Services, NotifRule, NotifChannel, items_of, mask_output_enabled, build_payload,
}

-- What the check reads: the answers of the database, the column `ts` of the query for the last firing of
-- a rule as a float64 of milliseconds (`none` where the query fails or finds no row), the clock, the
-- tolerance of `eq`, and the channels by their id. One firing reads the clock once. `dispatch` is
-- dispatchNotificationChannel; `none` is a panic.
pub record World (F : Type 0) : Type 0 where
  pub execute : Query F → Option (QueryResult (Json F))
  pub last_fired : Text → Option F
  pub now_millis : ℕ
  pub tolerance : F
  pub channels : Text → Option NotifChannel
  pub dispatch : Text → Text → Fields F → Option Text

pub record DispatchResult : Type 0 where
  pub channel_id : Text
  pub channel_name : Text
  pub status : Text
  pub err_msg : Text
  pub summary : Text

-- The rows that a firing inserts, in order: a log entry, or the rule with its new time of firing.
pub data Write (F : Type 0) : Type 0 where
  log_entry : (rule_id rule_name : Text) → DispatchResult → Write F
  fired_rule : NotifRule F → Write F
  raw_window : (rule_id : Text) → Write F

module _ {F : Type 0} (nm : Numbers F) (sv : Services F) (wd : World F) where
  open nm use {lt, subtract, of_int, round4, thousandth}
  open wd use {execute, last_fired, now_millis, tolerance, channels, dispatch}

  last_fired_ts : NotifRule F → F
  last_fired_ts rule = elim (last_fired rule.id) [ none ↦ of_int (pos 0) | some ts ↦ thousandth ts ]

  unfoldable pub in_cooldown : NotifRule F → Bool
  unfolding last_fired_ts
  in_cooldown rule =
      lt (subtract (of_int (pos (now_millis / 1000))) (last_fired_ts rule))
        (of_int rule.cooldown_second)

  -- The loop over the conditions: those that matched, with their value, and the number that did not.
  unfoldable pub split_conditions : List (Json F) → List (Fields F) × ℕ
  split_conditions [] = ([], 0)
  split_conditions (object cond ∷ cs) =
      let (fired, not_fired) = split_conditions cs in
      let (matched, value) = evaluate_condition nm execute now_millis tolerance cond in
      if matched
      then (set cond (lit "_value") (float (round4 value)) ∷ fired, not_fired)
      else (fired, suc not_fired)
  split_conditions (_ ∷ cs) = let (fired, not_fired) = split_conditions cs in (fired, suc not_fired)

  unfoldable pub should_fire : NotifRule F → Bool
  unfolding split_conditions
  should_fire rule =
      let (fired, not_fired) = split_conditions rule.conditions in
      if text_eq rule.logic_operator (lit "all")
      then not (is_nil rule.conditions) && (not_fired == 0)
      else not (is_nil fired)

  -- One round of the loop over the channels; the payloads of an unknown or disabled channel are masked.
  unfoldable pub dispatch_one : NotifRule F → List (Fields F) → Text → Option DispatchResult
  dispatch_one rule fired ch_id =
      let default_summary = obj_str_or nm (build_payload nm sv rule fired true) (lit "summary") in
      elim (channels ch_id) [
        | none ↦ some (record {
          channel_id = ch_id;
          channel_name = [];
          status = lit "error";
          err_msg = lit "channel not found";
          summary = default_summary;
        })
        | some ch ↦
            let payload =
              build_payload nm sv rule fired (mask_output_enabled nm sv ch.config_json) in
            if not ch.enabled
            then some (record {
              channel_id = ch_id;
              channel_name = [];
              status = lit "skipped";
              err_msg = lit "channel disabled";
              summary = default_summary;
            })
            else elim (dispatch ch.channel_type ch.config_json payload) [
              | none ↦ none
              | some status ↦ some (record {
                channel_id = ch_id;
                channel_name = ch.name;
                status = if text_eq status (lit "ok") then lit "ok" else lit "error";
                err_msg = if text_eq status (lit "ok") then [] else status;
                summary = obj_str_or nm payload (lit "summary");
              })
            ]
      ]

  unfoldable pub dispatch_all :
      NotifRule F → List (Fields F) → List Text → Option (List DispatchResult)
  unfolding dispatch_one
  dispatch_all rule fired [] = some []
  dispatch_all rule fired (ch_id ∷ ids) = do
    r ← dispatch_one rule fired ch_id
    rs ← dispatch_all rule fired ids
    some (r ∷ rs)

  unfoldable pub result_object : DispatchResult → Fields F
  result_object dr =
      let o = field (lit "channel_id") (str dr.channel_id) no_fields in
      let named =
        if is_nil dr.channel_name then o else set o (lit "channel_name") (str dr.channel_name) in
      set (set (set named (lit "status") (str dr.status)) (lit "error") (str dr.err_msg))
        (lit "summary") (str dr.summary)

  unfoldable pub not_fired_result : NotifRule F → Text → Fields F
  not_fired_result rule reason =
      field (lit "rule_id") (str rule.id)
        (field (lit "fired") (boolean false) (field (lit "reason") (str reason) no_fields))

  unfoldable pub fired_result : NotifRule F → List (Fields F) → List DispatchResult → Fields F
  unfolding result_object
  fired_result rule fired results = field (lit "rule_id") (str rule.id) (
      field (lit "rule_name") (str rule.name) (
        field (lit "fired") (boolean true) (
          field (lit "summary")
            (str (obj_str_or nm (build_payload nm sv rule fired true) (lit "summary")))
            (field (lit "dispatch_results") (array (items_of (map result_object results)))
              no_fields))))

  unfoldable pub writes_of : NotifRule F → List DispatchResult → List (Write F)
  writes_of rule results =
      map (λ dr. log_entry rule.id rule.name dr) results
      ++ fired_rule rule ∷ raw_window rule.id ∷ []

  -- checkNotificationRule: its answer and what it writes; `none` is a panic, before anything is written.
  unfoldable pub check_rule : NotifRule F → Option (Fields F × List (Write F))
  unfolding in_cooldown should_fire dispatch_all not_fired_result fired_result writes_of
  check_rule rule =
      let fired = (split_conditions rule.conditions).0 in
      if not rule.enabled
      then some (not_fired_result rule (lit "disabled"), [])
      else if in_cooldown rule
      then some (not_fired_result rule (lit "cooldown"), [])
      else if not (should_fire rule)
      then some (not_fired_result rule (lit "conditions not met"), [])
      else elim (dispatch_all rule fired rule.channel_ids) [
        | none ↦ none
        | some results ↦ some (fired_result rule fired results, writes_of rule results)
      ]

  -- The closure that recovers from a panic.
  unfoldable pub guarded_check : NotifRule F → Fields F × List (Write F)
  unfolding check_rule
  guarded_check rule = elim (check_rule rule) [
    | some r ↦ r
    | none ↦ (
      field (lit "rule_id") (str rule.id) (
          field (lit "fired") (boolean false)
            (field (lit "error") (str (lit "rule evaluation failed")) no_fields)),
      [],
    )
  ]

  is_fired : Fields F → Bool
  is_fired o = elim (get o (lit "fired")) [
    | none ↦ false
    | some v ↦ elim v [ boolean b ↦ b | _ ↦ false ]
  ]

  unfoldable pub count_fired : List (Fields F) → ℕ
  unfolding is_fired
  count_fired [] = 0
  count_fired (o ∷ os) = (if is_fired o then 1 else 0) + count_fired os

  -- handleApiNotificationsCheck: the body of the answer, and what is written; the agent runs are a part
  -- of its own.
  unfoldable pub check_all : List (NotifRule F) → Json F → Fields F × List (Write F)
  unfolding guarded_check count_fired
  check_all rules agent_runs =
      let checks = map guarded_check rules in
      let results = map (λ r. r.0) checks in
      (
        field (lit "ok") (boolean true) (
            field (lit "evaluated") (int (pos (length results))) (
              field (lit "fired") (int (pos (count_fired results))) (
                field (lit "results") (array (items_of results))
                  (field (lit "agent_runs") agent_runs no_fields)))),
        all_writes checks,
      )
    where
      all_writes : List (Fields F × List (Write F)) → List (Write F)
      all_writes [] = []
      all_writes (r ∷ rs) = r.1 ++ all_writes rs
