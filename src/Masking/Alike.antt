-- ===== src/Masking/Alike.antt =====
-- What stands under the sensitive keys does not show in the masked payload.
use sobs.Prelude.{
  ◌≡◌, refl, sym, ap, ap₂, ◌∙◌, Bool, true, false, not, ◌&&◌, List, arith, if◌then◌else◌,
}
use sobs.Text.{Text, member}
use sobs.Json.{Json, Fields, Items, str, object, array, no_fields, field, no_items, item, set}
use sobs.Masking.{
  mask, normalize_sensitive_key, Settings, active_sensitive_keys, mask_field, mask_payload_json,
  mask_fields, mask_items, mask_payload_for_output, is_str, sql_output_mask_fields,
}
use sobs.Masking.Patterns.{active_mask_patterns}

-- Two payloads that differ in values under sensitive keys alone, at any depth.
mutual
  pub data Alike {F : Type 0} (sensitive : List Text) : Json F → Json F → Type 0 where
    same_value : {v : Json F} → Alike sensitive v v
    alike_objects :
        {o o' : Fields F} → AlikeFields sensitive o o' → Alike sensitive (object o) (object o')
    alike_arrays :
        {a a' : Items F} → AlikeItems sensitive a a' → Alike sensitive (array a) (array a')

  pub data AlikeFields {F : Type 0} (sensitive : List Text) : Fields F → Fields F → Type 0 where
    end_of_fields : AlikeFields sensitive no_fields no_fields
    secret :
        {k : Text} {v v' : Json F} {o o' : Fields F}
        → member (normalize_sensitive_key k) sensitive ≡ true
        → AlikeFields sensitive o o'
        → AlikeFields sensitive (field k v o) (field k v' o')
    shared :
        {k : Text} {v v' : Json F} {o o' : Fields F}
        → Alike sensitive v v'
        → AlikeFields sensitive o o'
        → AlikeFields sensitive (field k v o) (field k v' o')

  pub data AlikeItems {F : Type 0} (sensitive : List Text) : Items F → Items F → Type 0 where
    end_of_items : AlikeItems sensitive no_items no_items
    items :
        {v v' : Json F} {a a' : Items F}
        → Alike sensitive v v'
        → AlikeItems sensitive a a'
        → AlikeItems sensitive (item v a) (item v' a')

module _ {F : Type 0} (keys : List Text) (patterns : List (Text → Text)) (mask_sql : Bool) where
  mask_field-secret :
      (k : Text) (v v' w w' : Json F)
      → member (normalize_sensitive_key k) keys ≡ true
      → mask_field keys patterns mask_sql k v w ≡ mask_field keys patterns mask_sql k v' w'
  unfolding mask_field
  mask_field-secret k v v' w w' h = rw h refl

  mask_field-not_str :
      (k : Text) (v w : Json F)
      → is_str v ≡ false
      → mask_field keys patterns mask_sql k v w
        ≡ (if member (normalize_sensitive_key k) keys then str mask else w)
  unfolding mask_field
  mask_field-not_str k v w h =
      by_test (member (normalize_sensitive_key k) keys)
        (member (normalize_sensitive_key k) sql_output_mask_fields) (not mask_sql) (is_str v) h
    where
      by_test :
          (t a b c : Bool)
          → c ≡ false
          → (if t then str mask else if a && b && c then v else w) ≡ (if t then str mask else w)
      by_test true a b c e = refl
      by_test false a b c e = ground arith

  fields-step :
      (out : Fields F) (k : Text) (x x' : Json F) (o o' : Fields F)
      → x ≡ x'
      → ((next : Fields F)
          → mask_fields keys patterns mask_sql next o ≡ mask_fields keys patterns mask_sql next o')
      → mask_fields keys patterns mask_sql (set out k x) o
        ≡ mask_fields keys patterns mask_sql (set out k x') o'
  fields-step out k x x' o o' e h =
      ap (λ y. mask_fields keys patterns mask_sql (set out k y) o) e ∙ h (set out k x')

  mask_field-shared :
      (k : Text) (v v' w w' : Json F)
      → Alike keys v v'
      → w ≡ w'
      → mask_field keys patterns mask_sql k v w ≡ mask_field keys patterns mask_sql k v' w'
  unfolding mask_field
  mask_field-shared k v v' w w' same_value e = rw e refl
  mask_field-shared k v v' w w' (alike_objects h) e =
      mask_field-not_str k (object _) w refl
      ∙ (ap (λ y. if member (normalize_sensitive_key k) keys then str mask else y) e
          ∙ sym (mask_field-not_str k (object _) w' refl))
  mask_field-shared k v v' w w' (alike_arrays h) e =
      mask_field-not_str k (array _) w refl
      ∙ (ap (λ y. if member (normalize_sensitive_key k) keys then str mask else y) e
          ∙ sym (mask_field-not_str k (array _) w' refl))

  mutual
    unfolding mask_payload_json

    mask_payload_json-Alike :
        (v v' : Json F)
        → Alike keys v v'
        → mask_payload_json keys patterns mask_sql v ≡ mask_payload_json keys patterns mask_sql v'
    mask_payload_json-Alike v v' same_value = refl
    mask_payload_json-Alike v v' (alike_objects h) = ap object (mask_fields-Alike no_fields _ _ h)
    mask_payload_json-Alike v v' (alike_arrays h) = ap array (mask_items-Alike _ _ h)

    mask_fields-Alike :
        (out o o' : Fields F)
        → AlikeFields keys o o'
        → mask_fields keys patterns mask_sql out o ≡ mask_fields keys patterns mask_sql out o'
    mask_fields-Alike out o o' end_of_fields = refl
    mask_fields-Alike out _ _ (secret {k = k} {v = v} {v' = v'} {o = o} {o' = o'} hk h) =
        fields-step out k
          (mask_field keys patterns mask_sql k v (mask_payload_json keys patterns mask_sql v))
          (mask_field keys patterns mask_sql k v' (mask_payload_json keys patterns mask_sql v')) o
          o' (mask_field-secret k v v' _ _ hk) (λ next. mask_fields-Alike next o o' h)
    mask_fields-Alike out _ _ (shared {k = k} {v = v} {v' = v'} {o = o} {o' = o'} hv h) =
        fields-step out k
          (mask_field keys patterns mask_sql k v (mask_payload_json keys patterns mask_sql v))
          (mask_field keys patterns mask_sql k v' (mask_payload_json keys patterns mask_sql v')) o
          o' (mask_field-shared k v v' _ _ hv (mask_payload_json-Alike v v' hv))
          (λ next. mask_fields-Alike next o o' h)

    mask_items-Alike :
        (a a' : Items F)
        → AlikeItems keys a a'
        → mask_items keys patterns mask_sql a ≡ mask_items keys patterns mask_sql a'
    mask_items-Alike a a' end_of_items = refl
    mask_items-Alike a a' (items hv h) =
        ap₂ item (mask_payload_json-Alike _ _ hv) (mask_items-Alike _ _ h)

-- With output masking on, payloads that differ in values under active keys alone are written alike.
pub mask_payload_for_output-Alike :
    {F : Type 0} (st : Settings) (v v' : Json F) (mask_sql : Bool)
    → st.output_enabled ≡ true
    → Alike (active_sensitive_keys st) v v'
    → mask_payload_for_output st v mask_sql ≡ mask_payload_for_output st v' mask_sql
unfolding mask_payload_for_output
mask_payload_for_output-Alike st v v' mask_sql h e = rw h (
    mask_payload_json-Alike (active_sensitive_keys st)
      (active_mask_patterns st.engine st.custom_patterns) mask_sql v v' e)
