-- ===== src/Masking/Tests.antt =====
-- A payload with a password under another spelling, inside a list.
use sobs.Prelude.{none, ℕ, ◌≡◌, refl, true, false, [], ◌∷◌}
use sobs.Text.{join, split_on, contains, Text, lit, text_eq, trim_space, to_lower, member}
use sobs.Json.{Json, str, int, object, array, no_fields, field, no_items, item}
use sobs.Masking.Loaded.{AreLoaded, load_masking_custom_patterns-AreLoaded}
use sobs.Masking.Patterns.{
  load_masking_custom_patterns, accepted, validate_custom_masking_pattern, Engine,
}
use sobs.Masking.{
  mask, Settings, active_sensitive_keys, mask_payload_for_output, default_sensitive_keys,
  masked_body,
}
use sobs.Masking.Covered.{IsMasked, mask_payload_for_output-IsMasked}
use sobs.Masking.Alike.{
  Alike, alike_objects, alike_arrays, secret, shared, same_value, items, end_of_fields,
  end_of_items, mask_payload_for_output-Alike,
}
use sobs.Prelude.Int.{pos}

abbrev engine : Engine
engine = record {
  compile_error = λ p. none;
  replacer = λ p. none;
  has_nested_quantifier = λ p. false;
  has_ambiguous_altern = λ p. false;
  inline_flags = λ p. [];
  unname_groups = λ p. p;
}

abbrev settings : Settings
settings = record {
  output_enabled = true;
  sql_output_enabled = false;
  custom_keys = lit "Pin" ∷ [];
  sorted = λ xs. xs;
  custom_patterns = [];
  engine = engine;
}

abbrev payload_of : Json ℕ → Json ℕ
payload_of secret_value = object (
    field (lit "rows")
      (array (
        item
          (object
            (field (lit " PassWord") secret_value (field (lit "sql") (str (lit "x")) no_fields)))
          no_items))
      no_fields)

payload-masked :
    masked_body settings (payload_of (str (lit "hunter2"))) ≡ payload_of (str (lit "****"))
unfolding masked_body lit text_eq member trim_space to_lower mask
payload-masked = refl

mask_payload_for_output-IsMasked_example :
    IsMasked
      (active_sensitive_keys settings)
      (mask_payload_for_output settings (payload_of (int (pos 7))) true)
    × ((k : Text)
        → member k default_sensitive_keys ≡ true
        → member k (active_sensitive_keys settings) ≡ true)
mask_payload_for_output-IsMasked_example =
    mask_payload_for_output-IsMasked settings (payload_of (int (pos 7))) true refl

payloads-Alike :
    Alike
      (active_sensitive_keys settings)
      (payload_of (int (pos 7)))
      (payload_of (str (lit "hunter2")))
unfolding active_sensitive_keys lit text_eq member trim_space to_lower
payloads-Alike = alike_objects (
    shared
      (alike_arrays
        (items (alike_objects (secret refl (shared same_value end_of_fields))) end_of_items))
      end_of_fields)

mask_payload_for_output-Alike_example :
    mask_payload_for_output settings (payload_of (int (pos 7))) true
    ≡ mask_payload_for_output settings (payload_of (str (lit "hunter2"))) true
mask_payload_for_output-Alike_example =
    mask_payload_for_output-Alike settings (payload_of (int (pos 7)))
      (payload_of (str (lit "hunter2"))) true refl payloads-Alike

pattern-accepted :
    validate_custom_masking_pattern engine (lit " AK[0-9]+\\Z ") ≡ accepted (lit "AK[0-9]+\\Z")
unfolding validate_custom_masking_pattern lit trim_space contains split_on join
pattern-accepted = refl

load_masking_custom_patterns-AreLoaded_example :
    AreLoaded engine
      (lit " AK[0-9]+\\Z " ∷ lit "(x)\\2" ∷ [])
      (load_masking_custom_patterns engine (lit " AK[0-9]+\\Z " ∷ lit "(x)\\2" ∷ []))
load_masking_custom_patterns-AreLoaded_example =
    load_masking_custom_patterns-AreLoaded engine (lit " AK[0-9]+\\Z " ∷ lit "(x)\\2" ∷ [])
