-- ===== src/Masking/Covered.antt =====
-- No sensitive key keeps its value.
use sobs.Prelude.{
  ◌≡◌, refl, sym, ap, ◌∙◌, subst, inl, inr, Bool, true, false, not, ◌&&◌, false≢true, List, [], ◌∷◌,
  ◌++◌, arith, if◌then◌else◌, keep_if,
}
use sobs.Text.{Text, text_eq, member}
use sobs.Text.Laws.{text_eq_iff, text_eq-cases}
use sobs.Json.{
  Json, Fields, Items, null, boolean, number, str, int, float, object, array, no_fields, field,
  no_items, item, set,
}
use sobs.Masking.{
  mask, default_sensitive_keys, normalize_sensitive_key, Settings, active_sensitive_keys,
  effective_key_active, mask_field, mask_payload_json, mask_fields, mask_items,
  mask_payload_for_output, is_str, sql_output_mask_fields,
}
use sobs.Masking.Patterns.{active_mask_patterns}

-- At every depth, a field whose normalised key is sensitive holds the mask.
module _ {F : Type 0} (sensitive : List Text) where
  unfoldable mutual
    pub IsMasked : Json F → Type 0
    IsMasked null = Unit
    IsMasked (boolean b) = Unit
    IsMasked (number n) = Unit
    IsMasked (str s) = Unit
    IsMasked (int n) = Unit
    IsMasked (float f) = Unit
    IsMasked (object o) = AreMasked o
    IsMasked (array a) = AllMasked a

    pub AreMasked : Fields F → Type 0
    AreMasked no_fields = Unit
    AreMasked (field k v o) =
        (member (normalize_sensitive_key k) sensitive ≡ true → v ≡ str mask)
        × IsMasked v
        × AreMasked o

    pub AllMasked : Items F → Type 0
    AllMasked no_items = Unit
    AllMasked (item v a) = IsMasked v × AllMasked a

  set-AreMasked :
      (o : Fields F) (k : Text) (v : Json F)
      → AreMasked o
      → (member (normalize_sensitive_key k) sensitive ≡ true → v ≡ str mask)
      → IsMasked v
      → AreMasked (set o k v)
  unfolding set IsMasked
  set-AreMasked no_fields k v h hk hv = (hk, hv, tt)
  set-AreMasked (field k' v' o) k v h hk hv =
      by_test (text_eq k' k) refl (set-AreMasked o k v h.2 hk hv)
    where
      by_test :
          (t : Bool)
          → text_eq k' k ≡ t
          → AreMasked (set o k v)
          → AreMasked (if t then field k' v o else field k' v' (set o k v))
      by_test true e r = (
        subst (λ x. member (normalize_sensitive_key x) sensitive ≡ true → v ≡ str mask)
            (sym ((text_eq_iff k' k).0 e)) hk,
        hv,
        h.2,
      )
      by_test false e r = (h.0, h.1, r)

  str-IsMasked : (v : Json F) → is_str v ≡ true → IsMasked v
  unfolding IsMasked
  str-IsMasked (str s) h = tt
  str-IsMasked null h = tt
  str-IsMasked (boolean b) h = tt
  str-IsMasked (number n) h = tt
  str-IsMasked (int n) h = tt
  str-IsMasked (float f) h = tt
  str-IsMasked (object o) h = absurd (false≢true h)
  str-IsMasked (array a) h = absurd (false≢true h)

module _ {F : Type 0} (keys : List Text) (patterns : List (Text → Text)) (mask_sql : Bool) where
  mask_field-sensitive :
      (k : Text) (v masked : Json F)
      → member (normalize_sensitive_key k) keys ≡ true
      → mask_field keys patterns mask_sql k v masked ≡ str mask
  unfolding mask_field
  mask_field-sensitive k v masked h = rw h refl

  mask_field-IsMasked :
      (k : Text) (v masked : Json F)
      → IsMasked keys masked
      → IsMasked keys (mask_field keys patterns mask_sql k v masked)
  unfolding mask_field IsMasked
  mask_field-IsMasked k v masked h =
      by_test (member (normalize_sensitive_key k) keys)
        (member (normalize_sensitive_key k) sql_output_mask_fields && not mask_sql) (is_str v) refl
    where
      by_test :
          (t t' t'' : Bool)
          → is_str v ≡ t''
          → IsMasked keys (if t then str mask else if t' && t'' then v else masked)
      by_test true t' t'' e = tt
      by_test false true true e = str-IsMasked keys v e
      by_test false true false e = h
      by_test false false t'' e = h

  mutual
    unfolding mask_payload_json IsMasked

    mask_payload_json-IsMasked :
        (v : Json F) → IsMasked keys (mask_payload_json keys patterns mask_sql v)
    mask_payload_json-IsMasked null = tt
    mask_payload_json-IsMasked (boolean b) = tt
    mask_payload_json-IsMasked (number n) = tt
    mask_payload_json-IsMasked (str s) = tt
    mask_payload_json-IsMasked (int n) = tt
    mask_payload_json-IsMasked (float f) = tt
    mask_payload_json-IsMasked (object o) = mask_fields-AreMasked no_fields o tt
    mask_payload_json-IsMasked (array a) = mask_items-AllMasked a

    mask_fields-AreMasked :
        (out o : Fields F)
        → AreMasked keys out
        → AreMasked keys (mask_fields keys patterns mask_sql out o)
    mask_fields-AreMasked out no_fields h = h
    mask_fields-AreMasked out (field k v o) h = mask_fields-AreMasked _ o (
        set-AreMasked keys out k _ h
          (mask_field-sensitive k v (mask_payload_json keys patterns mask_sql v))
          (mask_field-IsMasked k v (mask_payload_json keys patterns mask_sql v)
            (mask_payload_json-IsMasked v)))

    mask_items-AllMasked : (a : Items F) → AllMasked keys (mask_items keys patterns mask_sql a)
    mask_items-AllMasked no_items = tt
    mask_items-AllMasked (item v a) = (mask_payload_json-IsMasked v, mask_items-AllMasked a)

member-keep_if :
    (s : Text) (p : Text → Bool) (xs : List Text)
    → member s xs ≡ true
    → p s ≡ true
    → member s (keep_if p xs) ≡ true
unfolding member keep_if
member-keep_if s p [] h hp = h
member-keep_if s p (x ∷ xs) h hp = elim (text_eq-cases s x) [
  | inl (e, q) ↦ ground (arith, e, sym (ap p q) ∙ hp)
  | inr e ↦ ground (arith, e, h, member-keep_if s p xs)
]

member-append : (s : Text) (xs ys : List Text) → member s xs ≡ true → member s (xs ++ ys) ≡ true
unfolding member
member-append s [] ys h = absurd (false≢true h)
member-append s (x ∷ xs) ys h = ground (arith, member-append s xs ys)

-- Every default key is active, whatever the settings are.
default-IsActive :
    (st : Settings) (k : Text)
    → member k default_sensitive_keys ≡ true
    → member k (active_sensitive_keys st) ≡ true
unfolding active_sensitive_keys effective_key_active
default-IsActive st k h =
    member-append k _ _
      (member-keep_if k (effective_key_active st) default_sensitive_keys h (rw h refl))

-- With output masking on, in the payload that leaves the program every field, at whatever depth, whose
-- key is active under its normal form holds the mask; and every default key is active, whatever the
-- settings are.
pub mask_payload_for_output-IsMasked :
    {F : Type 0} (st : Settings) (v : Json F) (mask_sql : Bool)
    → st.output_enabled ≡ true
    → IsMasked (active_sensitive_keys st) (mask_payload_for_output st v mask_sql)
      × ((k : Text)
          → member k default_sensitive_keys ≡ true
          → member k (active_sensitive_keys st) ≡ true)
unfolding mask_payload_for_output
mask_payload_for_output-IsMasked st v mask_sql h = (
  rw h (
      mask_payload_json-IsMasked (active_sensitive_keys st)
        (active_mask_patterns st.engine st.custom_patterns) mask_sql v),
  default-IsActive st,
)
