-- ===== src/Notify/Payload.antt =====
-- The payload of a notification, and a channel's choice of masking.
use sobs.Prelude.{
  Bool, true, not, ◌||◌, Option, none, some, List, [], ◌∷◌, ◌++◌, map, if◌then◌else◌, is_nil,
}
use sobs.Prelude.Int.{ℤ}
use sobs.Text.{Text, lit, text_eq, trim_space, to_lower, to_upper, join, member}
use sobs.Json.{Json, str, object, array, Fields, no_fields, field, Items, no_items, item, get}
use sobs.Notify.Values.{Numbers, obj_str_or, obj_str_def, to_str}

-- What the rest of the server gives to the notifications: the parser of JSON documents, the two
-- maskings of output, and the time of the firing.
pub record Services (F : Type 0) : Type 0 where
  pub parse_json : Text → Option (Json F)
  pub mask_value : Json F → Json F
  pub mask_string : Text → Text
  pub fired_at : Text

pub record NotifRule (F : Type 0) : Type 0 where
  pub id : Text
  pub name : Text
  pub logic_operator : Text
  pub severity : Text
  pub enabled : Bool
  pub conditions : List (Json F)
  pub channel_ids : List Text
  pub cooldown_second : ℤ

pub record NotifChannel : Type 0 where
  pub id : Text
  pub name : Text
  pub channel_type : Text
  pub config_json : Text
  pub enabled : Bool

-- `≥` and `≤` are three bytes of UTF-8.
unfoldable pub comparator_label : Text → Text
comparator_label c =
    if text_eq c (lit "gt")
    then lit ">"
    else if text_eq c (lit "lt")
    then lit "<"
    else if text_eq c (lit "gte")
    then 0xe2 ∷ 0x89 ∷ 0xa5 ∷ []
    else if text_eq c (lit "lte")
    then 0xe2 ∷ 0x89 ∷ 0xa4 ∷ []
    else if text_eq c (lit "eq")
    then lit "="
    else lit ">"

abbrev pub items_of : {F : Type 0} → List (Fields F) → Items F
items_of [] = no_items
items_of (o ∷ os) = item (object o) (items_of os)

module _ {F : Type 0} (nm : Numbers F) (sv : Services F) where
  open sv use {parse_json, mask_value, mask_string, fired_at}

  unfoldable pub mask_output_enabled : Text → Bool
  mask_output_enabled config_json =
      elim (parse_json (if is_nil (trim_space config_json) then lit "{}" else config_json)) [
        | none ↦ true
        | some parsed ↦ elim parsed [
          | object config ↦ elim (get config (lit "mask_output_enabled")) [
            | none ↦ true
            | some v ↦ not (
                member (to_lower (trim_space (to_str nm v)))
                  (lit "0" ∷ lit "false" ∷ lit "no" ∷ lit "off" ∷ []))
          ]
          | _ ↦ true
        ]
      ]

  unfoldable pub cond_threshold : Fields F → Text
  cond_threshold cond = elim (get cond (lit "threshold")) [ none ↦ lit "0" | some v ↦ to_str nm v ]

  unfoldable pub cond_value : Fields F → Text
  cond_value cond = elim (get cond (lit "_value")) [ none ↦ lit "n/a" | some v ↦ to_str nm v ]

  unfoldable pub tag_expression : Fields F → Text
  tag_expression cond =
      let record_type = obj_str_or nm cond (lit "record_type") in
      let tag_key = obj_str_or nm cond (lit "tag_key") in
      let tag_value = obj_str_or nm cond (lit "tag_value") in
      let record_type_str =
        if is_nil record_type || text_eq record_type (lit "all")
        then []
        else lit "[" ++ (record_type ++ lit "] ") in
      let tag_expr =
        if is_nil tag_value
        then tag_key
        else tag_key
          ++ (lit " "
              ++ (obj_str_def nm cond (lit "tag_match_operator") (lit "eq")
                  ++ (lit " " ++ tag_value))) in
      lit "tag " ++ (record_type_str ++ tag_expr)

  unfoldable pub signal_expression : Fields F → Text
  signal_expression cond =
      let service = obj_str_or nm cond (lit "service") in
      let service_str = if is_nil service then [] else lit " [" ++ (service ++ lit "]") in
      obj_str_or nm cond (lit "source")
      ++ (lit "/" ++ (obj_str_or nm cond (lit "signal") ++ service_str))

  unfoldable pub condition_summary : Fields F → Text
  unfolding tag_expression signal_expression comparator_label cond_threshold cond_value
  condition_summary cond =
      let comp =
        comparator_label (trim_space (obj_str_def nm cond (lit "comparator") (lit "gt"))) in
      let subject =
        if text_eq (obj_str_or nm cond (lit "type")) (lit "tag")
        then tag_expression cond
        else signal_expression cond in
      subject
      ++ (lit " "
          ++ (comp
              ++ (lit " "
                  ++ (cond_threshold cond ++ (lit " (value=" ++ (cond_value cond ++ lit ")"))))))

  unfoldable pub payload_summary : NotifRule F → List (Fields F) → Bool → Text
  unfolding condition_summary
  payload_summary rule fired mask_enabled =
      let summary =
        lit "[SOBS] Rule '"
        ++ (rule.name
            ++ (lit "' triggered ("
                ++ (to_upper rule.severity
                    ++ (lit "): " ++ join (lit "; ") (map condition_summary fired))))) in
      if mask_enabled then mask_string summary else summary

  unfoldable pub build_payload : NotifRule F → List (Fields F) → Bool → Fields F
  unfolding payload_summary
  build_payload rule fired mask_enabled =
      let payload = array (items_of fired) in
      field (lit "rule_name") (str rule.name) (
        field (lit "severity") (str rule.severity) (
          field (lit "conditions") (if mask_enabled then mask_value payload else payload) (
            field (lit "summary") (str (payload_summary rule fired mask_enabled))
              (field (lit "fired_at") (str fired_at) no_fields))))
