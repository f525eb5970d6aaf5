-- ===== src/Notify/Values.antt =====
-- How a parsed condition is read and normalised.
use sobs.Prelude.{
  Bool, true, false, not, ◌&&◌, ◌||◌, Option, none, some, List, [], ◌∷◌, ◌==◌, if◌then◌else◌,
  from_option, is_nil,
}
use sobs.Prelude.Int.{ℤ, pos, negsuc, ltb_ℤ}
use sobs.Text.{Text, lit, text_eq, trim_space, to_lower, member}
use sobs.Json.{
  Json, null, boolean, number, str, int, float, object, array, Fields, no_fields, field, no_items,
  get, Floats, py_float_repr,
}

-- What packages math, strconv and fmt do with a float64: `parse` and `parse_ok` are the two results of
-- ParseFloat, `parse_int` is Atoi, `truncate` is the conversion to int, `abs_below d e` is
-- math.Abs(d) < e, `thousandth` divides by 1000, `round4` is roundHalfEven to four places, and `sprint`
-- is the %v form of a value.
pub record Numbers (F : Type 0) : Type 0 where
  pub floats : Floats F
  pub parse : Text → F
  pub parse_ok : Text → Bool
  pub parse_int : Text → Option ℤ
  pub truncate : F → ℤ
  pub of_int : ℤ → F
  pub lt : F → F → Bool
  pub le : F → F → Bool
  pub abs_below : F → F → Bool
  pub subtract : F → F → F
  pub thousandth : F → F
  pub round4 : F → F
  pub sprint : Json F → Text

abbrev pub comparators : List Text
comparators = lit "gt" ∷ lit "lt" ∷ lit "gte" ∷ lit "lte" ∷ lit "eq" ∷ []

abbrev pub record_types : List Text
record_types = lit "log" ∷ lit "trace" ∷ lit "error" ∷ lit "ai" ∷ lit "rum" ∷ lit "all" ∷ []

abbrev pub tag_operators : List Text
tag_operators = lit "eq" ∷ lit "contains" ∷ lit "regex" ∷ []

unfoldable pub or_default : Text → Text → Text
or_default v def = if is_nil v then def else v

unfoldable pub clamp_int : ℤ → ℤ → ℤ → ℤ
clamp_int n lo hi = if ltb_ℤ n lo then lo else if ltb_ℤ hi n then hi else n

-- A word of the list, or the default for any other.
unfoldable pub one_of : List Text → Text → Text → Text
one_of words def w = if member w words then w else def

module _ {F : Type 0} (nm : Numbers F) where
  open nm use {floats, parse, parse_ok, parse_int, truncate, of_int, sprint}

  is_zero_text : Text → Bool
  is_zero_text x = parse_ok x && floats.is_zero (parse x)

  unfoldable pub is_falsy_any : Json F → Bool
  unfolding is_zero_text
  is_falsy_any null = true
  is_falsy_any (str x) = is_nil x
  is_falsy_any (boolean b) = not b
  is_falsy_any (number x) = is_zero_text x
  is_falsy_any (int (pos n)) = n == 0
  is_falsy_any (int (negsuc n)) = false
  is_falsy_any (float f) = floats.is_zero f
  is_falsy_any (object o) = false
  is_falsy_any (array a) = false

  unfoldable pub is_empty_container : Json F → Bool
  is_empty_container (array no_items) = true
  is_empty_container (object no_fields) = true
  is_empty_container _ = false

  unfoldable pub is_truthy : Json F → Bool
  unfolding is_zero_text
  is_truthy null = false
  is_truthy (str x) = not (is_nil x)
  is_truthy (boolean b) = b
  is_truthy (number x) = not (is_zero_text x)
  is_truthy (object no_fields) = false
  is_truthy (array no_items) = false
  is_truthy _ = true

  -- pyStr of a value that is present
  unfoldable pub py_str : Json F → Text
  py_str null = lit "None"
  py_str (str x) = x
  py_str (number x) = x
  py_str (boolean b) = if b then lit "True" else lit "False"
  py_str v = sprint v

  -- toStr and pyStrAny
  unfoldable pub to_str : Json F → Text
  to_str null = []
  to_str (str x) = x
  to_str (boolean b) = if b then lit "True" else lit "False"
  to_str (float f) =
      if floats.is_nan f
      then lit "nan"
      else if floats.is_pos_inf f
      then lit "inf"
      else if floats.is_neg_inf f
      then lit "-inf"
      else py_float_repr floats f
  to_str v = sprint v

  unfoldable pub or_default_val : Option (Json F) → Text → Text
  or_default_val none def = def
  or_default_val (some v) def = if is_falsy_any v || is_empty_container v then def else py_str v

  unfoldable pub obj_str_or : Fields F → Text → Text
  obj_str_or o k = elim (get o k) [
    | none ↦ []
    | some v ↦ if is_truthy v then trim_space (py_str v) else []
  ]

  unfoldable pub obj_str_def : Fields F → Text → Text → Text
  obj_str_def o k def = or_default (trim_space (obj_str_or o k)) def

  unfoldable pub cond_float : Fields F → Text → F → F
  cond_float o k def = elim (get o k) [
    | none ↦ def
    | some v ↦ let s = trim_space (to_str v) in if parse_ok s then parse s else def
  ]

  unfoldable pub cond_int : Fields F → Text → ℤ → ℤ
  cond_int o k def = elim (get o k) [
    | none ↦ def
    | some v ↦
        let s = trim_space (to_str v) in
        elim (parse_int s) [ some n ↦ n | none ↦ if parse_ok s then truncate (parse s) else def ]
  ]

  unfoldable pub py_int_trunc : Json F → Option ℤ
  py_int_trunc (boolean b) = some (if b then pos 1 else pos 0)
  py_int_trunc (int n) = some n
  py_int_trunc (float f) = some (truncate f)
  py_int_trunc (number x) = elim (parse_int x) [
    | some n ↦ some n
    | none ↦ if parse_ok x then some (truncate (parse x)) else none
  ]
  py_int_trunc (str x) = parse_int (trim_space x)
  py_int_trunc _ = none

  unfoldable pub cond_window_minutes : Fields F → ℤ
  cond_window_minutes o = elim (get o (lit "window_minutes")) [
    | none ↦ clamp_int (pos 5) (pos 1) (pos 60)
    | some v ↦
        if is_falsy_any v
        then clamp_int (pos 5) (pos 1) (pos 60)
        else clamp_int (from_option (pos 5) (py_int_trunc v)) (pos 1) (pos 60)
  ]

  -- The closure `gs`.
  unfoldable pub get_text : Fields F → Text → Text
  get_text o k = trim_space (or_default_val (get o k) [])

  unfoldable pub comparator_of : Fields F → Text
  unfolding get_text one_of
  comparator_of o =
      one_of comparators (lit "gt")
        (to_lower (or_default (get_text o (lit "comparator")) (lit "gt")))

  unfoldable pub threshold_of : Fields F → F
  threshold_of o = cond_float o (lit "threshold") (of_int (pos 0))

  unfoldable pub normalize_tag : Fields F → Fields F
  unfolding get_text one_of
  normalize_tag o = field (lit "type") (str (lit "tag")) (
      field (lit "record_type")
        (str (
          one_of record_types (lit "all")
            (to_lower (or_default (get_text o (lit "record_type")) (lit "all")))))
        (field (lit "tag_key") (str (get_text o (lit "tag_key"))) (
          field (lit "tag_match_operator")
            (str (
              one_of tag_operators (lit "eq")
                (to_lower (or_default (get_text o (lit "tag_match_operator")) (lit "eq")))))
            (field (lit "tag_value") (str (get_text o (lit "tag_value"))) (
              field (lit "comparator") (str (comparator_of o)) (
                field (lit "threshold") (float (threshold_of o))
                  (field (lit "window_minutes") (int (cond_window_minutes o)) no_fields)))))))

  unfoldable pub normalize_signal : Fields F → Fields F
  unfolding get_text
  normalize_signal o = field (lit "type") (str (lit "signal")) (
      field (lit "source") (str (get_text o (lit "source"))) (
        field (lit "signal") (str (get_text o (lit "signal"))) (
          field (lit "service") (str (get_text o (lit "service"))) (
            field (lit "comparator") (str (comparator_of o)) (
              field (lit "threshold") (float (threshold_of o))
                (field (lit "window_minutes") (int (cond_window_minutes o)) no_fields))))))

  -- `none` is the nil of an entry that is no object.
  unfoldable pub normalize_condition : Json F → Option (Fields F)
  normalize_condition (object o) =
      let cond_type = to_lower (trim_space (or_default_val (get o (lit "type")) (lit "signal"))) in
      some (if text_eq cond_type (lit "tag") then normalize_tag o else normalize_signal o)
  normalize_condition _ = none

  -- `rowMaps(res)[0][key]`: of equal columns the last counts, and a key with no column reads as nil.
  -- A row has a cell for each column.
  unfoldable pub cell : List Text → List (Json F) → Text → Json F → Json F
  cell [] row key found = found
  cell (c ∷ cs) [] key found = found
  cell (c ∷ cs) (v ∷ row) key found = cell cs row key (if text_eq c key then v else found)

  -- cFloat of such a cell
  unfoldable pub cell_value : List Text → List (Json F) → Text → F
  unfolding cell
  cell_value columns row key = c_float (cell columns row key null)
    where
      c_float : Json F → F
      c_float (float f) = f
      c_float (str x) = parse (trim_space x)
      c_float _ = of_int (pos 0)
