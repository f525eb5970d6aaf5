-- ===== src/Notify/Tests.antt =====
-- A rule of one condition and one channel, over numbers that stand for float64.
use sobs.Prelude.{ℕ, ◌≡◌, refl, true, false, none, some, [], ◌∷◌}
use sobs.Prelude.Int.{pos}
use sobs.Text.{lit, text_eq, trim_space, to_lower, decimal}
use sobs.Json.{get, str, object, Fields, field, no_fields}
use sobs.Store.Params.{FloatFormat}
use sobs.Notify.Values.{
  is_falsy_any, is_empty_container, py_str, normalize_tag, or_default_val, normalize_condition,
}
use sobs.Notify.Sample.{numbers}
use sobs.Notify.Evaluate.{signal_query, tag_query}
use sobs.Notify.Payload.{Services, NotifRule, NotifChannel}
use sobs.Notify.Check.{World, check_rule}
use sobs.Notify.Normal.{IsNormal, normalize_condition-IsNormal}
use sobs.Notify.Queries.{Fits, queries-Fit}
use sobs.Notify.Firing.{Checked, check_rule-Checked}

abbrev whole : FloatFormat ℕ
whole = record {
  is_nan = λ f. false;
  is_pos_inf = λ f. false;
  is_neg_inf = λ f. false;
  format = decimal;
}

abbrev services : Services ℕ
services = record {
  parse_json = λ s. none;
  mask_value = λ v. v;
  mask_string = λ s. s;
  fired_at = [];
}

abbrev signal_fields : Fields ℕ
signal_fields =
    field (lit "source") (str (lit "errors")) (field (lit "signal") (str (lit "count")) no_fields)

abbrev tag_fields : Fields ℕ
tag_fields =
    field (lit "type") (str (lit "tag")) (field (lit "tag_key") (str (lit "env")) no_fields)

abbrev channel : NotifChannel
channel = record {
  id = lit "c";
  name = lit "ops";
  channel_type = lit "slack";
  config_json = [];
  enabled = true;
}

abbrev rule : NotifRule ℕ
rule = record {
  id = lit "r";
  name = lit "errors";
  logic_operator = lit "any";
  severity = lit "warning";
  enabled = true;
  conditions = object signal_fields ∷ [];
  channel_ids = lit "c" ∷ [];
  cooldown_second = pos 0;
}

abbrev world : World ℕ
world = record {
  execute = λ q. some (record { columns = lit "v" ∷ []; rows = (str (lit "12") ∷ []) ∷ [] });
  last_fired = λ id. some 0;
  now_millis = 1000;
  tolerance = 1;
  channels = λ id. some channel;
  dispatch = λ kind config payload. some (lit "ok");
}

normalize_condition-tag_fields :
    normalize_condition numbers (object tag_fields) ≡ some (normalize_tag numbers tag_fields)
unfolding normalize_condition lit get text_eq or_default_val trim_space to_lower normalize_tag
    is_falsy_any is_empty_container py_str
normalize_condition-tag_fields = refl

normalize_condition-IsNormal_example : IsNormal (normalize_tag numbers tag_fields)
normalize_condition-IsNormal_example =
    normalize_condition-IsNormal numbers (object tag_fields) (normalize_tag numbers tag_fields)
      normalize_condition-tag_fields

queries-Fit_example :
    Fits whole numbers (signal_query numbers tag_fields)
    × Fits whole numbers (tag_query numbers 1000 tag_fields)
queries-Fit_example = queries-Fit whole numbers 1000 tag_fields

check_rule-Checked_example :
    Checked numbers services world rule (check_rule numbers services world rule)
check_rule-Checked_example = check_rule-Checked numbers services world rule
