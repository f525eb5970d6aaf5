-- ===== src/Json.antt =====
-- go/internal/jsonenc/jsonenc.go: ordered JSON objects, and the encoder that matches Python's json.dumps.
pub mod Encode
pub mod Objects
pub mod Ascii
pub mod Sorting
pub mod Tests
use sobs.Prelude.{
  ℕ, zero, suc, ◌+◌, ◌-◌, ◌*◌, ◌/◌, ◌%◌, ◌≤◌, ◌<◌, ◌≡◌, refl, sym, ap, ap₂, ◌∙◌, subst, ◌≢◌, ◌↔◌,
  ◌⊎◌, inl, inr, Bool, true, false, not, ◌&&◌, ◌||◌, false≢true, Option, none, some, List, [], ◌∷◌,
  ◌++◌, map, append_assoc, append-nil, arith, ltb, leb, ◌==◌, if◌then◌else◌, ltb→lt, ==_iff,
  Bool-cases, Option-cases, is_some, from_option, length, get_elem?, take, drop, is_nil, keep_if,
  all_of, All, length-append, length-take, take-append-drop,
}
use sobs.Prelude.Int.{sub_ℕ, negsuc, neg_part, ◌-ℤ◌, pos_part, pos, ℤ}
use sobs.Text.{
  Text, lit, text_eq, cut_prefix, has_prefix, cut_suffix, has_suffix, trim_left, trim_right, trim,
  is_space, trim_space, lower_byte, to_lower, to_upper, index, contains, split, join, before_byte,
  after_byte, before_last_byte, member, decimal, itoa, split_on,
}
use sobs.Text.Utf8.{runes, encode_rune}

-- The values that the encoder knows, over a type of float64. A json.Number is its literal. The fields
-- of an object stand in the order in which the keys were first set.
mutual
  pub data Json (F : Type 0) : Type 0 where
    null : Json F
    boolean : Bool → Json F
    number : Text → Json F
    str : Text → Json F
    int : ℤ → Json F
    float : F → Json F
    object : Fields F → Json F
    array : Items F → Json F

  pub data Fields (F : Type 0) : Type 0 where
    no_fields : Fields F
    field : Text → Json F → Fields F → Fields F

  pub data Items (F : Type 0) : Type 0 where
    no_items : Items F
    item : Json F → Items F → Items F

module _ {F : Type 0} where
  -- NewObject is `no_fields`.
  unfoldable pub set : Fields F → Text → Json F → Fields F
  set no_fields k v = field k v no_fields
  set (field k' v' o) k v =
      let rest = set o k v in if text_eq k' k then field k' v o else field k' v' rest

  unfoldable pub get : Fields F → Text → Option (Json F)
  get no_fields k = none
  get (field k' v' o) k = let rest = get o k in if text_eq k' k then some v' else rest

  unfoldable pub keys : Fields F → List Text
  keys no_fields = []
  keys (field k v o) = k ∷ keys o

-- The knobs of json.dumps.
pub record Options : Type 0 where
  pub sort_keys : Bool
  pub ensure_ascii : Bool
  pub item_sep : Text
  pub key_sep : Text
  pub trailing_nl : Bool
  pub indent : Text

abbrev pub quart_jsonify : Options
quart_jsonify = record {
  sort_keys = true;
  ensure_ascii = true;
  item_sep = lit ",";
  key_sep = lit ":";
  trailing_nl = true;
  indent = [];
}

abbrev pub compact : Options
compact = record {
  sort_keys = false;
  ensure_ascii = false;
  item_sep = lit ",";
  key_sep = lit ":";
  trailing_nl = false;
  indent = [];
}

abbrev pub jinja_tojson : Options
jinja_tojson = record {
  sort_keys = true;
  ensure_ascii = true;
  item_sep = lit ", ";
  key_sep = lit ": ";
  trailing_nl = false;
  indent = [];
}

-- What packages math and strconv say of a float64; `scientific` is FormatFloat(f, 'e', -1, 64).
pub record Floats (F : Type 0) : Type 0 where
  pub is_zero : F → Bool
  pub signbit : F → Bool
  pub is_nan : F → Bool
  pub is_pos_inf : F → Bool
  pub is_neg_inf : F → Bool
  pub scientific : F → Text

-- strconv.Atoi of an exponent: a sign, then digits.
digits_value : ℕ → Text → ℕ
digits_value n [] = n
digits_value n (c ∷ s) = digits_value (n * 10 + (c - b'0')) s

atoi : Text → ℤ
unfolding digits_value
atoi [] = pos 0
atoi (c ∷ s) =
    if c == b'-'
    then sub_ℕ 0 (digits_value 0 s)
    else if c == b'+'
    then pos (digits_value 0 s)
    else pos (digits_value 0 (c ∷ s))

zeros : ℕ → Text
zeros zero = []
zeros (suc n) = b'0' ∷ zeros n

-- A number of at least two digits.
two_digits : ℕ → Text
two_digits n = let s = decimal n in if ltb (length s) 2 then b'0' ∷ s else s

-- The rendering of a finite number that is not 0, without its sign: its significant digits, and how
-- many of them stand to the left of the point.
place_point : Text → ℤ → Text
unfolding zeros two_digits
place_point digits decpt =
    let left = pos_part decpt in
    let ex = decpt -ℤ pos 1 in
    let rest = if ltb 1 (length digits) then b'.' ∷ drop 1 digits else [] in
    let sign = if ltb 0 (neg_part ex) then lit "-" else lit "+" in
    if leb 4 (neg_part decpt) || ltb 16 left
    then take 1 digits ++ (rest ++ (lit "e" ++ (sign ++ two_digits (pos_part ex + neg_part ex))))
    else if left == 0
    then lit "0." ++ (zeros (neg_part decpt) ++ digits)
    else if leb (length digits) left
    then digits ++ (zeros (left - length digits) ++ lit ".0")
    else take left digits ++ (lit "." ++ drop left digits)

module _ {F : Type 0} (fl : Floats F) where
  open fl use {is_zero, signbit, is_nan, is_pos_inf, is_neg_inf, scientific}

  -- The digits before the exponent, with the point (the first one) taken out.
  unfoldable pub py_float_repr : F → Text
  unfolding atoi place_point
  py_float_repr f =
      let s = scientific f in
      let neg = has_prefix s (lit "-") in
      let body = if neg then drop 1 s else s in
      let mantissa = before_byte b'e' body in
      let digits =
        if contains mantissa (lit ".")
        then before_byte b'.' mantissa ++ after_byte b'.' mantissa
        else mantissa in
      let decpt = atoi (after_byte b'e' body) -ℤ negsuc 0 in
      let out = place_point digits decpt in
      if is_zero f
      then if signbit f then lit "-0.0" else lit "0.0"
      else if neg
      then lit "-" ++ out
      else out

  unfoldable pub encode_float : F → Text
  encode_float f =
      if is_pos_inf f
      then lit "Infinity"
      else if is_neg_inf f
      then lit "-Infinity"
      else if is_nan f
      then lit "NaN"
      else py_float_repr f
