-- ===== src/Store/Params/Tests.antt =====
-- A query with a quoted question mark, and a result set.
use sobs.Prelude.{
  ℕ, ◌<◌, ◌≡◌, refl, ◌↔◌, false, true, none, some, List, [], ◌∷◌, ◌++◌, arith, length,
}
use sobs.Text.{Text, lit, decimal}
use sobs.Store.Params.{
  FloatFormat, Param, str, boolean, quote_literal, inline_params, QueryResult, column_index,
}
use sobs.Store.Params.Escape.{read_literal, starts_with_quote, read_literal-quote_literal}
use sobs.Store.Params.Placeholders.{
  Ending, closed, open_double, Piece, plain, single, placeholder, print, fill, count,
  inline_params-print, inline_params_fails_iff,
}
use sobs.Store.Params.Columns.{IsFirstAt, column_index-IsFirstAt}

abbrev whole : FloatFormat ℕ
whole = record {
  is_nan = λ f. false;
  is_pos_inf = λ f. false;
  is_neg_inf = λ f. false;
  format = decimal;
}

abbrev pieces : List Piece
pieces =
    plain b'=' (omega arith) (omega arith) (omega arith)
    ∷ single (b'?' ∷ []) (omega arith, tt)
    ∷ placeholder
    ∷ []

abbrev open_end : Ending
open_end = open_double (b'?' ∷ []) (omega arith, tt)

abbrev quote_in_it : Text
quote_in_it = b'a' ∷ b'\'' ∷ 92 ∷ []

and-starts_with_quote : starts_with_quote (lit " AND") ≡ false
unfolding starts_with_quote lit
and-starts_with_quote = refl

read_literal-quote_literal_example :
    read_literal (quote_literal whole (str quote_in_it) ++ lit " AND")
    ≡ some (quote_in_it, lit " AND")
read_literal-quote_literal_example =
    read_literal-quote_literal whole quote_in_it (lit " AND") and-starts_with_quote

inline_params-print_example :
    inline_params whole (print pieces closed) (str quote_in_it ∷ [])
    ≡ fill whole pieces closed (str quote_in_it ∷ [])
inline_params-print_example = inline_params-print whole pieces closed (str quote_in_it) []

abbrev one_param : List (Param ℕ)
one_param = str quote_in_it ∷ []

inline_params_fails_iff_example :
    (inline_params whole (print (placeholder ∷ pieces) open_end) (str quote_in_it ∷ []) ≡ none)
    ↔ (length one_param < count (placeholder ∷ pieces))
inline_params_fails_iff_example =
    inline_params_fails_iff whole (placeholder ∷ pieces) open_end (str quote_in_it) []

abbrev two_columns : QueryResult ℕ
two_columns = record { columns = lit "Id" ∷ lit "Name" ∷ lit "Name" ∷ []; rows = [] }

column_index-IsFirstAt_example :
    IsFirstAt two_columns.columns (lit "Name") (column_index two_columns (lit "Name"))
column_index-IsFirstAt_example = column_index-IsFirstAt two_columns (lit "Name")

-- The question mark stands inside the literal, behind an escaped quote, and is replaced all the same.
abbrev escaped_quote : Text
escaped_quote = b'\'' ∷ 92 ∷ b'\'' ∷ b'?' ∷ b'\'' ∷ []

escaped_quote-inlined :
    inline_params whole escaped_quote (boolean true ∷ [])
    ≡ some (b'\'' ∷ 92 ∷ b'\'' ∷ b'1' ∷ b'\'' ∷ [])
unfolding inline_params quote_literal lit
escaped_quote-inlined = refl
