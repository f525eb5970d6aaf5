-- ===== src/Store/Params/Columns.antt =====
-- The accessors of a result set.
use sobs.Prelude.{
  ℕ, zero, suc, ◌≡◌, ◌≢◌, ◌<◌, refl, Option, none, some, List, [], ◌∷◌, arith, get_elem?,
}
use sobs.Text.{Text}
use sobs.Text.Laws.{text_eq_iff}
use sobs.Store.Params.{column_index_from, column_index, QueryResult}

column_index_from-found :
    (cs : List Text) (name : Text) (i : ℕ)
    → column_index_from cs name ≡ some i
    → get_elem? cs i ≡ some name
unfolding column_index_from
column_index_from-found [] name i h = cc
column_index_from-found (c ∷ cs) name zero h = ground (arith, text_eq_iff c name)
column_index_from-found (c ∷ cs) name (suc i) h = ground (arith, column_index_from-found cs name i)

column_index_from-least :
    (cs : List Text) (name : Text) (i j : ℕ)
    → column_index_from cs name ≡ some i
    → j < i
    → get_elem? cs j ≢ some name
unfolding column_index_from
column_index_from-least [] name i j h lt = cc
column_index_from-least (c ∷ cs) name zero j h lt = absurd (omega arith)
column_index_from-least (c ∷ cs) name (suc i) zero h lt = ground (arith, text_eq_iff c name)
column_index_from-least (c ∷ cs) name (suc i) (suc j) h lt =
    ground (arith, column_index_from-least cs name i j)

column_index_from-none :
    (cs : List Text) (name : Text) (j : ℕ)
    → column_index_from cs name ≡ none
    → get_elem? cs j ≢ some name
unfolding column_index_from
column_index_from-none [] name j h = cc
column_index_from-none (c ∷ cs) name zero h = ground (arith, text_eq_iff c name)
column_index_from-none (c ∷ cs) name (suc j) h = ground (arith, column_index_from-none cs name j)

-- What `ColumnIndex` answers: the first position that holds the name, or that no position does.
abbrev pub IsFirstAt : List Text → Text → Option ℕ → Type 0
IsFirstAt cs name none = (j : ℕ) → get_elem? cs j ≢ some name
IsFirstAt cs name (some i) =
    (get_elem? cs i ≡ some name) × ((j : ℕ) → j < i → get_elem? cs j ≢ some name)

-- The index of a column is the first position at which its name stands, and the answer -1 (`none`)
-- means that the result has no column of that name.
pub column_index-IsFirstAt :
    {A : Type 0} (r : QueryResult A) (name : Text) → IsFirstAt r.columns name (column_index r name)
unfolding column_index
column_index-IsFirstAt r name = by_case (column_index_from r.columns name) refl
  where
    by_case : (o : Option ℕ) → column_index_from r.columns name ≡ o → IsFirstAt r.columns name o
    by_case none h = λ j. column_index_from-none r.columns name j h
    by_case (some i) h = (
      column_index_from-found r.columns name i h,
      λ j lt. column_index_from-least r.columns name i j h lt,
    )
