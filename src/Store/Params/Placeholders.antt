-- ===== src/Store/Params/Placeholders.antt =====
-- Which question marks of a query are placeholders, and when there are enough parameters.
use sobs.Prelude.{
  ℕ, suc, ◌<◌, ◌≡◌, ◌≢◌, ◌↔◌, refl, Option, none, some, List, [], ◌∷◌, ◌++◌, arith, append_assoc,
  length, All,
}
use sobs.Text.{Text}
use sobs.Store.Params.{quote_literal, inline_loop, inline_params, FloatFormat, Param}

-- A query in pieces: bytes that are neither a quote nor a question mark, a quoted stretch that does
-- not hold its own quote, and a placeholder. A stretch runs from a quote to the next same quote,
-- whatever stands before that one: a backslash does not keep it open.
pub data Piece : Type 0 where
  plain : (c : ℕ) → c ≢ b'\'' → c ≢ b'"' → c ≢ b'?' → Piece
  single : (body : Text) → All (λ c. c ≢ b'\'') body → Piece
  double : (body : Text) → All (λ c. c ≢ b'"') body → Piece
  placeholder : Piece

-- What follows the pieces: nothing, or a stretch that is never closed.
pub data Ending : Type 0 where
  closed : Ending
  open_single : (body : Text) → All (λ c. c ≢ b'\'') body → Ending
  open_double : (body : Text) → All (λ c. c ≢ b'"') body → Ending

abbrev pub end_text : Ending → Text
end_text closed = []
end_text (open_single body _) = b'\'' ∷ body
end_text (open_double body _) = b'"' ∷ body

unfoldable pub print : List Piece → Ending → Text
print [] e = end_text e
print (plain c _ _ _ ∷ ps) e = c ∷ print ps e
print (single body _ ∷ ps) e = b'\'' ∷ (body ++ b'\'' ∷ print ps e)
print (double body _ ∷ ps) e = b'"' ∷ (body ++ b'"' ∷ print ps e)
print (placeholder ∷ ps) e = b'?' ∷ print ps e

abbrev before : Text → Option Text → Option Text
before out none = none
before out (some rest) = some (out ++ rest)

module _ {F : Type 0} (fmt : FloatFormat F) where
  -- The pieces with each placeholder replaced by the next parameter's literal.
  pub fill : List Piece → Ending → List (Param F) → Option Text
  fill [] e params = some (end_text e)
  fill (plain c _ _ _ ∷ ps) e params = before (c ∷ []) (fill ps e params)
  fill (single body _ ∷ ps) e params = before (b'\'' ∷ (body ++ b'\'' ∷ [])) (fill ps e params)
  fill (double body _ ∷ ps) e params = before (b'"' ∷ (body ++ b'"' ∷ [])) (fill ps e params)
  fill (placeholder ∷ ps) e [] = none
  fill (placeholder ∷ ps) e (p ∷ params) = before (quote_literal fmt p) (fill ps e params)

  inline_loop-quoted :
      (q : ℕ) (body s : Text) (params : List (Param F))
      → q ≢ 0
      → All (λ c. c ≢ q) body
      → inline_loop fmt (body ++ q ∷ s) q params
        ≡ before (body ++ q ∷ []) (inline_loop fmt s 0 params)
  unfolding inline_loop
  inline_loop-quoted q [] s params nz h = ground arith
  inline_loop-quoted q (c ∷ body) s params nz h =
      ground (arith, inline_loop-quoted q body s params nz h.1)

  inline_loop-open :
      (q : ℕ) (body : Text) (params : List (Param F))
      → q ≢ 0
      → All (λ c. c ≢ q) body
      → inline_loop fmt body q params ≡ some body
  unfolding inline_loop
  inline_loop-open q [] params nz h = refl
  inline_loop-open q (c ∷ body) params nz h = ground (arith, inline_loop-open q body params nz h.1)

  inline_loop-print :
      (ps : List Piece) (e : Ending) (params : List (Param F))
      → inline_loop fmt (print ps e) 0 params ≡ fill ps e params
  unfolding inline_loop print fill
  inline_loop-print [] closed params = refl
  inline_loop-print [] (open_single body h) params =
      ground (arith, inline_loop-open b'\'' body params (omega arith) h)
  inline_loop-print [] (open_double body h) params =
      ground (arith, inline_loop-open b'"' body params (omega arith) h)
  inline_loop-print (plain c a b d ∷ ps) e params = ground (arith, inline_loop-print ps e params)
  inline_loop-print (single body h ∷ ps) e params = ground (
    arith,
    inline_loop-quoted b'\'' body (print ps e) params (omega arith) h,
    inline_loop-print ps e params,
    append_assoc body (b'\'' ∷ []) [],
  )
  inline_loop-print (double body h ∷ ps) e params = ground (
    arith,
    inline_loop-quoted b'"' body (print ps e) params (omega arith) h,
    inline_loop-print ps e params,
    append_assoc body (b'"' ∷ []) [],
  )
  inline_loop-print (placeholder ∷ ps) e [] = refl
  inline_loop-print (placeholder ∷ ps) e (p ∷ params) =
      ground (arith, inline_loop-print ps e params)

abbrev pub count : List Piece → ℕ
count [] = 0
count (placeholder ∷ ps) = suc (count ps)
count (plain c _ _ _ ∷ ps) = count ps
count (single body _ ∷ ps) = count ps
count (double body _ ∷ ps) = count ps

module _ {F : Type 0} (fmt : FloatFormat F) where
  fill-fails :
      (ps : List Piece) (e : Ending) (params : List (Param F))
      → fill fmt ps e params ≡ none
      → length params < count ps
  unfolding fill
  fill-fails [] e params h = cc
  fill-fails (plain c _ _ _ ∷ ps) e params h = ground (arith, fill-fails ps e params)
  fill-fails (single b _ ∷ ps) e params h = ground (arith, fill-fails ps e params)
  fill-fails (double b _ ∷ ps) e params h = ground (arith, fill-fails ps e params)
  fill-fails (placeholder ∷ ps) e [] h = omega arith
  fill-fails (placeholder ∷ ps) e (p ∷ params) h = ground (arith, fill-fails ps e params)

  fill-few :
      (ps : List Piece) (e : Ending) (params : List (Param F))
      → length params < count ps
      → fill fmt ps e params ≡ none
  unfolding fill
  fill-few [] e params h = absurd (omega arith)
  fill-few (plain c _ _ _ ∷ ps) e params h = ground (arith, fill-few ps e params)
  fill-few (single b _ ∷ ps) e params h = ground (arith, fill-few ps e params)
  fill-few (double b _ ∷ ps) e params h = ground (arith, fill-few ps e params)
  fill-few (placeholder ∷ ps) e [] h = refl
  fill-few (placeholder ∷ ps) e (p ∷ params) h = ground (arith, fill-few ps e params)

  -- For a query in pieces with any ending (every query is one, by Pieces.print_total) and at least one
  -- parameter, the inlined query is the pieces with the placeholders outside the quoted stretches
  -- replaced in order by the literals of the parameters, and the stretches and the ending copied as
  -- they are; it is an error where the parameters do not suffice. A stretch runs from a quote to the
  -- next same quote, even if a backslash stands before that one.
  pub inline_params-print :
      (ps : List Piece) (e : Ending) (p : Param F) (params : List (Param F))
      → inline_params fmt (print ps e) (p ∷ params) ≡ fill fmt ps e (p ∷ params)
  unfolding inline_params
  inline_params-print ps e p params = inline_loop-print fmt ps e (p ∷ params)

  -- For a query in pieces with any ending (every query is one, by Pieces.print_total) and at least one
  -- parameter, inlining fails exactly when the query has more placeholders outside its quoted stretches
  -- than there are parameters, where a stretch runs from a quote to the next same quote even if a
  -- backslash stands before it.
  pub inline_params_fails_iff :
      (ps : List Piece) (e : Ending) (p : Param F) (params : List (Param F))
      → (inline_params fmt (print ps e) (p ∷ params) ≡ none) ↔ (length (p ∷ params) < count ps)
  inline_params_fails_iff ps e p params =
      rw (inline_params-print ps e p params)
        (fill-fails ps e (p ∷ params), fill-few ps e (p ∷ params))
