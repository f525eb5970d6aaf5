-- ===== src/Store/Params.antt =====
-- go/internal/store/params.go: positional parameters are written into the query text, since the
-- embedded engine takes no bound parameters; and the two accessors of a result.
pub mod Escape
pub mod Placeholders
mod Pieces
pub mod Columns
pub mod Tests
use sobs.Prelude.{
  ℕ, suc, Bool, true, false, not, ◌||◌, Option, none, some, List, [], ◌∷◌, ◌++◌, ◌==◌,
  if◌then◌else◌,
}
use sobs.Prelude.Int.{ℤ}
use sobs.Text.{Text, lit, text_eq, itoa}

-- A value of type `any`, by the cases of `quoteLiteral`; `other` carries its `%v` form.
pub data Param (F : Type 0) : Type 0 where
  null : Param F
  str : Text → Param F
  int : ℤ → Param F
  float : F → Param F
  boolean : Bool → Param F
  other : Text → Param F

-- What packages math and strconv say of a float64.
pub record FloatFormat (F : Type 0) : Type 0 where
  pub is_nan : F → Bool
  pub is_pos_inf : F → Bool
  pub is_neg_inf : F → Bool
  pub format : F → Text

escape_byte : ℕ → Text
escape_byte c = if c == 92 then 92 ∷ 92 ∷ [] else if c == b'\'' then 92 ∷ b'\'' ∷ [] else c ∷ []

unfoldable pub ch_escape : Text → Text
unfolding escape_byte
ch_escape [] = []
ch_escape (c ∷ s) = escape_byte c ++ ch_escape s

abbrev quoted : Text → Text
quoted s = b'\'' ∷ (s ++ b'\'' ∷ [])

module _ {F : Type 0} (fmt : FloatFormat F) where
  open fmt use {is_nan, is_pos_inf, is_neg_inf, format}

  unfoldable pub quote_literal : Param F → Text
  quote_literal null = lit "NULL"
  quote_literal (str x) = quoted (ch_escape x)
  quote_literal (int x) = itoa x
  quote_literal (float x) =
      if is_nan x
      then lit "CAST('nan' AS Float64)"
      else if is_pos_inf x
      then lit "CAST('inf' AS Float64)"
      else if is_neg_inf x
      then lit "CAST('-inf' AS Float64)"
      else format x
  quote_literal (boolean true) = lit "1"
  quote_literal (boolean false) = lit "0"
  quote_literal (other v) = quoted (ch_escape v)

  -- One byte of the loop under the open quote (0 outside quotes) and the parameters left: what is
  -- written, and both after it. `none` is the error of a placeholder with no parameter.
  unfoldable pub inline_byte : ℕ → ℕ → List (Param F) → Option (Text × ℕ × List (Param F))
  inline_byte c quote params =
      if not (quote == 0)
      then some (c ∷ [], (if c == quote then 0 else quote), params)
      else if c == b'\'' || c == b'"'
      then some (c ∷ [], c, params)
      else if c == b'?'
      then elim params [ [] ↦ none | p ∷ ps ↦ some (quote_literal p, quote, ps) ]
      else some (c ∷ [], quote, params)

  unfoldable pub inline_loop : Text → ℕ → List (Param F) → Option Text
  unfolding inline_byte
  inline_loop [] quote params = some []
  inline_loop (c ∷ s) quote params = elim (inline_byte c quote params) [
    | none ↦ none
    | some (out, quote', params') ↦ elim (inline_loop s quote' params') [
      | none ↦ none
      | some rest ↦ some (out ++ rest)
    ]
  ]

  unfoldable pub inline_params : Text → List (Param F) → Option Text
  unfolding inline_loop
  inline_params query [] = some query
  inline_params query (p ∷ ps) = inline_loop query 0 (p ∷ ps)

-- A result set: column names and rows of cells.
pub record QueryResult (A : Type 0) : Type 0 where
  pub columns : List Text
  pub rows : List (List A)

module _ {A : Type 0} where
  -- `none` is Go's nil row.
  unfoldable pub first : QueryResult A → Option (List A)
  first r = elim r.rows [ [] ↦ none | row ∷ _ ↦ some row ]

column_index_from : List Text → Text → Option ℕ
column_index_from [] name = none
column_index_from (c ∷ cs) name =
    let rest = column_index_from cs name in
    if text_eq c name then some 0 else elim rest [ none ↦ none | some i ↦ some (suc i) ]

-- `none` is -1.
unfoldable pub column_index : {A : Type 0} → QueryResult A → Text → Option ℕ
unfolding column_index_from
column_index r name = column_index_from r.columns name
