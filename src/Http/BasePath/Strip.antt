-- ===== src/Http/BasePath/Strip.antt =====
-- What the application's router sees of a request's path.
use sobs.Prelude.{
  ◌≡◌, ◌≢◌, ◌⊎◌, inl, inr, ◌∙◌, sym, true, false, [], ◌∷◌, ◌++◌, some, arith, Option-cases,
  append_assoc,
}
use sobs.Text.{Text, has_prefix, cut_prefix}
use sobs.Text.Laws.{cut_prefix-append, cut_prefix-eq-some, text_eq_iff, text_eq-cases}
use sobs.Http.{Request}
use sobs.Http.BasePath.{slash, effective_base_path, apply_base_path}

-- The path that the router sees, by what stands behind the base path.
pub data Strips (base path stripped : Text) : Type 0 where
  root : path ≡ base → stripped ≡ slash ∷ [] → Strips base path stripped
  below :
      (rest : Text)
      → path ≡ base ++ slash ∷ rest
      → stripped ≡ slash ∷ rest
      → Strips base path stripped
  apart :
      stripped ≡ path
      → path ≢ base
      → ((rest : Text) → path ≢ base ++ slash ∷ rest)
      → Strips base path stripped

below-cases :
    (base path : Text)
    → ((rest : Text) × (path ≡ base ++ slash ∷ rest)
        × (has_prefix path (base ++ slash ∷ []) ≡ true)
        × (cut_prefix path base ≡ some (slash ∷ rest)))
      ⊎ ((has_prefix path (base ++ slash ∷ []) ≡ false)
          × ((rest : Text) → path ≢ base ++ slash ∷ rest))
unfolding has_prefix
below-cases base path = elim (Option-cases (cut_prefix path (base ++ slash ∷ []))) [
  | inl e ↦ inr (rw e, λ rest whole. cc (is_prefix rest whole, e))
  | inr (rest, e) ↦
      let whole : path ≡ base ++ slash ∷ rest =
        cut_prefix-eq-some path (base ++ slash ∷ []) rest e ∙ append_assoc base (slash ∷ []) rest in
      inl (rest, whole, rw e, rw whole (cut_prefix-append base (slash ∷ rest)))
]
  where
    is_prefix :
        (rest : Text)
        → path ≡ base ++ slash ∷ rest
        → cut_prefix path (base ++ slash ∷ []) ≡ some rest
    is_prefix rest whole =
        rw (whole ∙ sym (append_assoc base (slash ∷ []) rest))
          (cut_prefix-append (base ++ slash ∷ []) rest)

-- Under a base path (forwarded, or else configured) the router sees "/" for the base path itself and
-- what follows the base path for a path below it; any other path reaches it as it is, also one that
-- only begins with the same bytes.
pub apply_base_path-Strips :
    (configured : Text) (r : Request)
    → effective_base_path configured r ≢ []
    → Strips (effective_base_path configured r) r.path (apply_base_path configured r).path
unfolding apply_base_path
apply_base_path-Strips configured r nonempty =
    let base = effective_base_path configured r in
    elim (text_eq-cases r.path base) [
      | inl (e, same) ↦ root same (ground arith)
      | inr e ↦ elim (below-cases base r.path) [
        | inl (rest, whole, prefixed, cut) ↦ below rest whole (ground arith)
        | inr (no_prefix, no_rest) ↦
            apart (ground arith) (λ same. cc (e, (text_eq_iff r.path base).1 same)) no_rest
      ]
    ]
