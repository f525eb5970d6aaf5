-- ===== src/Ingest.antt =====
-- go/cmd/sobs/ingest_tag_rules.go: the tags that rules give to records as they are taken in.
pub mod Reading
pub mod Tags
pub mod Versions
mod Tests
use sobs.Prelude.{
  ℕ, zero, suc, ◌+◌, ◌-◌, ◌*◌, ◌/◌, ◌%◌, ◌≤◌, ◌<◌, ◌≡◌, refl, sym, ap, ap₂, ◌∙◌, subst, ◌≢◌, ◌↔◌,
  ◌⊎◌, inl, inr, Bool, true, false, not, ◌&&◌, ◌||◌, false≢true, Option, none, some, List, [], ◌∷◌,
  ◌++◌, map, append_assoc, append-nil, arith, ltb, leb, ◌==◌, if◌then◌else◌, ltb→lt, ==_iff,
  Bool-cases, Option-cases, is_some, from_option, length, get_elem?, take, drop, is_nil, keep_if,
  all_of, All, length-append, length-take, take-append-drop,
}
use sobs.Text.{
  Text, lit, text_eq, cut_prefix, has_prefix, cut_suffix, has_suffix, trim_left, trim_right, trim,
  is_space, trim_space, lower_byte, to_lower, to_upper, index, contains, split, join, before_byte,
  after_byte, before_last_byte, member, decimal, itoa, split_on,
}
use sobs.Json.{
  Json, Fields, Items, null, boolean, number, str, int, float, object, array, no_fields, field,
  no_items, item, get,
}
use sobs.Ingest.Reading.{map_str, map_str_list, as_map_list, row_attrs}
use sobs.Notify.Values.{Numbers, to_str}

-- What packages strconv, fmt, crypto/md5 and the regular expression engine do: `format_float` is
-- FormatFloat(f, 'f', -1, 64), and `regex` compiles a pattern to its search, or fails.
pub record Tools (F : Type 0) : Type 0 where
  pub numbers : Numbers F
  pub format_float : F → Text
  pub md5_hex : Text → Text
  pub regex : Text → Option (Text → Bool)

-- What the conditions read of a record.
pub record Subject (F : Type 0) : Type 0 where
  pub service : Text
  pub severity : Text
  pub body : Text
  pub attrs : Fields F
  pub span_name : Text
  pub event_type : Text

-- A row of sobs_record_tags.
pub record TagRow : Type 0 where
  pub record_type : Text
  pub record_id : Text
  pub tag_key : Text
  pub tag_value : Text
  pub is_auto : ℕ
  pub is_deleted : ℕ
  pub version : ℕ

-- The matched keys in the order in which they were first matched, with their values.
unfoldable pub put_tag : Text → Text → List (Text × Text) → List (Text × Text)
put_tag k v [] = (k, v) ∷ []
put_tag k v (t ∷ tags) =
    let rest = put_tag k v tags in if text_eq t.0 k then (t.0, v) ∷ tags else t ∷ rest

-- The rows of one record, from a version on.
unfoldable pub rows_from : Text → Text → ℕ → List (Text × Text) → List TagRow
rows_from rt id version [] = []
rows_from rt id version (t ∷ tags) =
    record {
      record_type = rt;
      record_id = id;
      tag_key = t.0;
      tag_value = t.1;
      is_auto = 1;
      is_deleted = 0;
      version = version;
    }
    ∷ rows_from rt id (suc version) tags

module _ {F : Type 0} (tools : Tools F) where
  open tools use {numbers, format_float, md5_hex, regex}

  unfoldable pub c_str : Fields F → Text → Text
  c_str m k = elim (get m k) [
    | none ↦ []
    | some v ↦ elim v [
      | str s ↦ s
      | null ↦ []
      | float f ↦ format_float f
      | boolean b ↦ if b then lit "True" else lit "False"
      | w ↦ numbers.sprint w
    ]
  ]

  bar : Text
  bar = lit "|"

  unfoldable pub record_id_for_span : Text → Text → Text
  unfolding bar
  record_id_for_span trace_id span_id = md5_hex (trace_id ++ (bar ++ span_id))

  unfoldable pub record_id_for_log : Text → Text → Text → Text → Text
  unfolding bar
  record_id_for_log ts service trace_id span_id =
      md5_hex (service ++ (bar ++ (ts ++ (bar ++ (trace_id ++ (bar ++ span_id))))))

  condition_value : Fields F → Subject F → Text
  condition_value cond r =
      let f = map_str cond (lit "match_field") in
      if text_eq f (lit "service_name")
      then r.service
      else if text_eq f (lit "severity")
      then r.severity
      else if text_eq f (lit "body")
      then r.body
      else if text_eq f (lit "span_name")
      then r.span_name
      else if text_eq f (lit "event_type")
      then r.event_type
      else if text_eq f (lit "attribute")
      then to_str numbers (from_option null (get r.attrs (map_str cond (lit "match_attr_key"))))
      else []

  unfoldable pub match_single_condition : Fields F → Subject F → Bool
  unfolding condition_value
  match_single_condition cond r =
      let value = condition_value cond r in
      let op = map_str cond (lit "match_operator") in
      let match_value = map_str cond (lit "match_value") in
      if text_eq op (lit "eq")
      then text_eq value match_value
      else if text_eq op (lit "contains")
      then contains (to_lower value) (to_lower match_value)
      else if text_eq op (lit "regex")
      then elim (regex match_value) [ none ↦ false | some search ↦ search value ]
      else false

  -- The triple of a rule without conditions, as a condition.
  legacy_condition : Fields F → Fields F
  legacy_condition rule = field (lit "match_field") (str (map_str rule (lit "match_field"))) (
      field (lit "match_operator") (str (map_str rule (lit "match_operator"))) (
        field (lit "match_value") (str (map_str rule (lit "match_value")))
          (field (lit "match_attr_key") (str (map_str rule (lit "match_attr_key"))) no_fields)))

  unfoldable pub match_tag_rule : Fields F → Text → Subject F → Bool
  unfolding match_single_condition legacy_condition all_of
  match_tag_rule rule record_type r =
      let types = map_str_list (get rule (lit "record_types")) in
      let conditions = as_map_list (get rule (lit "conditions")) in
      if not (is_nil types) && not (member (lit "all") types) && not (member record_type types)
      then false
      else if is_nil conditions
      then match_single_condition (legacy_condition rule) r
      else all_of (λ cond. match_single_condition cond r) conditions

  -- What one rule does to the matches; an entry that is no map is passed over.
  unfoldable pub add_match : Text → Subject F → Json F → List (Text × Text) → List (Text × Text)
  unfolding match_tag_rule put_tag
  add_match rt r rule tags = elim rule [
    | object o ↦
        if match_tag_rule o rt r
        then put_tag (map_str o (lit "tag_key")) (map_str o (lit "tag_value")) tags
        else tags
    | _ ↦ tags
  ]

  unfoldable pub match_rules :
      Text → Subject F → List (Text × Text) → List (Json F) → List (Text × Text)
  unfolding add_match
  match_rules rt r tags [] = tags
  match_rules rt r tags (rule ∷ rules) = match_rules rt r (add_match rt r rule tags) rules

  unfoldable pub subject_of : Fields F → Subject F
  subject_of row = record {
    service = c_str row (lit "ServiceName");
    severity = c_str row (lit "SeverityText");
    body = c_str row (lit "Body");
    attrs = row_attrs row;
    span_name = c_str row (lit "SpanName");
    event_type = c_str row (lit "EventName");
  }

  unfoldable pub record_id : Text → Fields F → Text
  unfolding record_id_for_span record_id_for_log
  record_id rt row =
      let trace_id = c_str row (lit "TraceId") in
      let span_id = c_str row (lit "SpanId") in
      if text_eq rt (lit "trace") || text_eq rt (lit "ai")
      then record_id_for_span trace_id span_id
      else record_id_for_log (c_str row (lit "Timestamp")) (c_str row (lit "ServiceName")) trace_id
          span_id

  unfoldable pub tag_rows : Text → List (Json F) → ℕ → List (Fields F) → List TagRow
  unfolding match_rules subject_of record_id rows_from
  tag_rows rt rules version [] = []
  tag_rows rt rules version (row ∷ rows) =
      let tags = match_rules rt (subject_of row) [] rules in
      rows_from rt (record_id rt row) version tags ++ tag_rows rt rules (version + length tags) rows

  -- The rows that are inserted; `none` is no insert.
  unfoldable pub apply_tag_rules : Text → List (Json F) → ℕ → List (Fields F) → Option (List TagRow)
  unfolding tag_rows
  apply_tag_rules rt rules version rows =
      let out = tag_rows rt rules version rows in
      if is_nil rules || is_nil rows then none else if is_nil out then none else some out
