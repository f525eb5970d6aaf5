-- ===== src/Masking.antt =====
-- go/cmd/sobs/output_mask.go and masking.go: the keys that are masked, and the masking of JSON values.
pub mod Patterns
pub mod Valid
pub mod Loaded
pub mod Covered
pub mod Alike
mod Tests
use sobs.Prelude.{
  ℕ, zero, suc, ◌+◌, ◌-◌, ◌*◌, ◌/◌, ◌%◌, ◌≤◌, ◌<◌, ◌≡◌, refl, sym, ap, ap₂, ◌∙◌, subst, ◌≢◌, ◌↔◌,
  ◌⊎◌, inl, inr, Bool, true, false, not, ◌&&◌, ◌||◌, false≢true, Option, none, some, List, [], ◌∷◌,
  ◌++◌, map, append_assoc, append-nil, arith, ltb, leb, ◌==◌, if◌then◌else◌, ltb→lt, ==_iff,
  Bool-cases, Option-cases, is_some, from_option, length, get_elem?, take, drop, is_nil, keep_if,
  all_of, All, length-append, length-take, take-append-drop,
}
use sobs.Text.{
  Text, lit, text_eq, cut_prefix, has_prefix, cut_suffix, has_suffix, trim_left, trim_right, trim,
  is_space, trim_space, lower_byte, to_lower, to_upper, index, contains, split, join, before_byte,
  after_byte, before_last_byte, member, decimal, itoa, split_on,
}
use sobs.Masking.Patterns.{Engine, active_mask_patterns}
use sobs.Json.{
  Json, Fields, Items, null, boolean, number, str, int, float, object, array, no_fields, field,
  no_items, item, set,
}

unfoldable pub mask : Text
mask = lit "****"

abbrev pub default_sensitive_keys : List Text
default_sensitive_keys =
    lit "password"
    ∷ lit "passwd"
    ∷ lit "pwd"
    ∷ lit "secret"
    ∷ lit "client_secret"
    ∷ lit "api_key"
    ∷ lit "api_secret"
    ∷ lit "apikey"
    ∷ lit "token"
    ∷ lit "access_token"
    ∷ lit "refresh_token"
    ∷ lit "id_token"
    ∷ lit "auth_token"
    ∷ lit "bearer_token"
    ∷ lit "authorization"
    ∷ lit "x-authorization"
    ∷ lit "x-api-key"
    ∷ lit "private_key"
    ∷ lit "private-key"
    ∷ lit "credit_card"
    ∷ lit "card_number"
    ∷ lit "cvv"
    ∷ lit "cvc"
    ∷ lit "ssn"
    ∷ lit "social_security_number"
    ∷ lit "s3_secret_access_key"
    ∷ lit "backup_encryption_password"
    ∷ lit "smtp_password"
    ∷ []

abbrev pub sql_output_mask_fields : List Text
sql_output_mask_fields = lit "sql" ∷ lit "query" ∷ lit "sample_sql" ∷ lit "override_sql" ∷ []

unfoldable pub normalize_sensitive_key : Text → Text
normalize_sensitive_key v = to_lower (trim_space v)

-- What the settings and package sort give: the switches, the lists under masking.custom_keys and
-- masking.custom_patterns, sort.Strings, and the regular expression engines.
pub record Settings : Type 0 where
  pub output_enabled : Bool
  pub sql_output_enabled : Bool
  pub custom_keys : List Text
  pub sorted : List Text → List Text
  pub custom_patterns : List Text
  pub engine : Engine

-- The loop of loadMaskingCustomKeys; the first argument is what it has seen.
unfoldable pub unique_keys : List Text → List Text → List Text
unfolding normalize_sensitive_key member
unique_keys seen [] = []
unique_keys seen (v ∷ vs) =
    let k = normalize_sensitive_key v in
    let keep = not (is_nil k) && not (member k seen) in
    let rest = unique_keys (if keep then k ∷ seen else seen) vs in if keep then k ∷ rest else rest

unfoldable pub load_masking_custom_keys : Settings → List Text
unfolding unique_keys
load_masking_custom_keys st = (st.sorted) (unique_keys [] st.custom_keys)

unfoldable pub effective_key_active : Settings → Text → Bool
unfolding load_masking_custom_keys
effective_key_active st key =
    member key default_sensitive_keys || member key (load_masking_custom_keys st)

-- The keys of the set that the code builds, in the order in which it adds them.
unfoldable pub active_sensitive_keys : Settings → List Text
unfolding effective_key_active keep_if
active_sensitive_keys st =
    keep_if (effective_key_active st) default_sensitive_keys
    ++ keep_if (effective_key_active st) (map normalize_sensitive_key (load_masking_custom_keys st))

unfoldable pub replace_all : List (Text → Text) → Text → Text
replace_all [] s = s
replace_all (f ∷ fs) s = replace_all fs (f s)

abbrev pub is_str : {F : Type 0} → Json F → Bool
is_str (str s) = true
is_str null = false
is_str (boolean b) = false
is_str (number n) = false
is_str (int n) = false
is_str (float f) = false
is_str (object o) = false
is_str (array a) = false

module _ {F : Type 0} (keys : List Text) (patterns : List (Text → Text)) (mask_sql : Bool) where
  -- What a field holds behind the masking: the mask, its value, or its masked value.
  unfoldable pub mask_field : Text → Json F → Json F → Json F
  mask_field k v masked =
      let kn = normalize_sensitive_key k in
      if member kn keys
      then str mask
      else if member kn sql_output_mask_fields && not mask_sql && is_str v
      then v
      else masked

  -- maskPayloadJSON with redactScalar. The keys of an object are distinct, so that the value under a
  -- key is the one beside it; the first argument of `mask_fields` is the object built so far.
  unfoldable mutual
    unfolding mask_field replace_all set

    pub mask_payload_json : Json F → Json F
    mask_payload_json null = null
    mask_payload_json (boolean b) = boolean b
    mask_payload_json (number n) = number n
    mask_payload_json (str s) = str (replace_all patterns s)
    mask_payload_json (int n) = int n
    mask_payload_json (float f) = float f
    mask_payload_json (object o) = object (mask_fields no_fields o)
    mask_payload_json (array a) = array (mask_items a)

    pub mask_fields : Fields F → Fields F → Fields F
    mask_fields out no_fields = out
    mask_fields out (field k v o) = mask_fields (set out k (mask_field k v (mask_payload_json v))) o

    pub mask_items : Items F → Items F
    mask_items no_items = no_items
    mask_items (item v a) = item (mask_payload_json v) (mask_items a)

module _ {F : Type 0} (st : Settings) where
  unfoldable pub mask_payload_for_output : Json F → Bool → Json F
  unfolding mask_payload_json active_sensitive_keys active_mask_patterns
  mask_payload_for_output v mask_sql =
      if not (st.output_enabled)
      then v
      else mask_payload_json (active_sensitive_keys st)
          (active_mask_patterns (st.engine) st.custom_patterns) mask_sql v

  unfoldable pub mask_value_for_output : Json F → Json F
  unfolding mask_payload_for_output
  mask_value_for_output v = mask_payload_for_output v true

  -- The body that writeMaskedJSON writes.
  unfoldable pub masked_body : Json F → Json F
  unfolding mask_payload_for_output
  masked_body payload = mask_payload_for_output payload st.sql_output_enabled
