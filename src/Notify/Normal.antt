-- ===== src/Notify/Normal.antt =====
-- What a normalised condition holds.
use sobs.Prelude.{
  ◌≡◌, refl, subst, ◌⊎◌, inl, inr, Bool, true, false, Option, none, some, List, arith,
  if◌then◌else◌, from_option,
}
use sobs.Prelude.Int.{ℤ, pos, ◌≤ℤ◌}
use sobs.Text.{Text, lit, text_eq, trim_space, to_lower, member}
use sobs.Json.{Json, null, boolean, number, str, int, float, object, array, Fields, get}
use sobs.Notify.Values.{
  is_falsy_any, py_int_trunc, or_default_val, Numbers, clamp_int, one_of, comparator_of,
  comparators, record_types, tag_operators, normalize_tag, normalize_signal, normalize_condition,
  cond_window_minutes,
}

module _ {F : Type 0} where
  -- The key holds a word of the list.
  pub record HoldsWord (o : Fields F) (key : Text) (words : List Text) : Type 0 where
    pub word : Text
    pub found : get o key ≡ some (str word)
    pub known : member word words ≡ true

  pub record IsNormal (o : Fields F) : Type 0 where
    pub comparator : HoldsWord o (lit "comparator") comparators
    pub window : ℤ
    pub window_found : get o (lit "window_minutes") ≡ some (int window)
    pub window_low : pos 1 ≤ℤ window
    pub window_high : window ≤ℤ pos 60
    pub kind :
        (get o (lit "type") ≡ some (str (lit "signal")))
        ⊎ ((get o (lit "type") ≡ some (str (lit "tag")))
            × HoldsWord o (lit "record_type") record_types
            × HoldsWord o (lit "tag_match_operator") tag_operators)

one_of-member :
    (words : List Text) (def w : Text)
    → member def words ≡ true
    → member (one_of words def w) words ≡ true
unfolding one_of
one_of-member words def w h = ground arith

defaults-member :
    (member (lit "gt") comparators ≡ true)
    × (member (lit "all") record_types ≡ true)
    × (member (lit "eq") tag_operators ≡ true)
unfolding member lit text_eq
defaults-member = (refl, refl, refl)

clamp_int-bounded : (n lo hi : ℤ) → lo ≤ℤ hi → (lo ≤ℤ clamp_int n lo hi) × (clamp_int n lo hi ≤ℤ hi)
unfolding clamp_int
clamp_int-bounded n lo hi h = ground arith

module _ {F : Type 0} (nm : Numbers F) where
  cond_window_minutes-bounded :
      (o : Fields F) → (pos 1 ≤ℤ cond_window_minutes nm o) × (cond_window_minutes nm o ≤ℤ pos 60)
  unfolding cond_window_minutes
  cond_window_minutes-bounded o = by_field (get o (lit "window_minutes"))
    where
      Bounded : ℤ → Type 0
      Bounded n = (pos 1 ≤ℤ n) × (n ≤ℤ pos 60)

      clamped : (n : ℤ) → Bounded (clamp_int n (pos 1) (pos 60))
      clamped n = clamp_int-bounded n (pos 1) (pos 60) (omega arith)

      by_falsy :
          (t : Bool) (n : ℤ)
          → Bounded (if t then clamp_int (pos 5) (pos 1) (pos 60) else clamp_int n (pos 1) (pos 60))
      by_falsy true n = clamped (pos 5)
      by_falsy false n = clamped n

      by_field :
          (m : Option (Json F))
          → Bounded (elim m [
            | none ↦ clamp_int (pos 5) (pos 1) (pos 60)
            | some v ↦
                if is_falsy_any nm v
                then clamp_int (pos 5) (pos 1) (pos 60)
                else clamp_int (from_option (pos 5) (py_int_trunc nm v)) (pos 1) (pos 60)
          ])
      by_field none = clamped (pos 5)
      by_field (some v) = by_falsy (is_falsy_any nm v) (from_option (pos 5) (py_int_trunc nm v))

  normalize_tag-IsNormal : (o : Fields F) → IsNormal (normalize_tag nm o)
  unfolding normalize_tag get lit text_eq comparator_of
  normalize_tag-IsNormal o = record {
    comparator = record {
      word = _;
      found = refl;
      known = one_of-member comparators (lit "gt") _ defaults-member.0;
    };
    window = cond_window_minutes nm o;
    window_found = refl;
    window_low = (cond_window_minutes-bounded o).0;
    window_high = (cond_window_minutes-bounded o).1;
    kind = inr (
      refl,
      record {
        word = _;
        found = refl;
        known = one_of-member record_types (lit "all") _ defaults-member.1;
      },
      record {
        word = _;
        found = refl;
        known = one_of-member tag_operators (lit "eq") _ defaults-member.2;
      },
    );
  }

  normalize_signal-IsNormal : (o : Fields F) → IsNormal (normalize_signal nm o)
  unfolding normalize_signal get lit text_eq comparator_of
  normalize_signal-IsNormal o = record {
    comparator = record {
      word = _;
      found = refl;
      known = one_of-member comparators (lit "gt") _ defaults-member.0;
    };
    window = cond_window_minutes nm o;
    window_found = refl;
    window_low = (cond_window_minutes-bounded o).0;
    window_high = (cond_window_minutes-bounded o).1;
    kind = inl refl;
  }

  -- A normalised condition has a known comparator and a window of 1 to 60 minutes, and it is a signal,
  -- or a tag with a known record type and a known operator.
  pub normalize_condition-IsNormal :
      (raw : Json F) (o : Fields F) → normalize_condition nm raw ≡ some o → IsNormal o
  unfolding normalize_condition
  normalize_condition-IsNormal (object x) o h =
      by_kind
        (text_eq (to_lower (trim_space (or_default_val nm (get x (lit "type")) (lit "signal"))))
          (lit "tag"))
        h
    where
      by_kind :
          (t : Bool)
          → some (if t then normalize_tag nm x else normalize_signal nm x) ≡ some o
          → IsNormal o
      by_kind true e = subst IsNormal (ground arith) (normalize_tag-IsNormal x)
      by_kind false e = subst IsNormal (ground arith) (normalize_signal-IsNormal x)
  normalize_condition-IsNormal null o h = absurd (ground arith)
  normalize_condition-IsNormal (boolean b) o h = absurd (ground arith)
  normalize_condition-IsNormal (number x) o h = absurd (ground arith)
  normalize_condition-IsNormal (str x) o h = absurd (ground arith)
  normalize_condition-IsNormal (int n) o h = absurd (ground arith)
  normalize_condition-IsNormal (float f) o h = absurd (ground arith)
  normalize_condition-IsNormal (array a) o h = absurd (ground arith)
