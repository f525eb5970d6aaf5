-- ===== src/Http/Auth/Keys.antt =====
-- Which requests the API-key layer lets through.
use sobs.Text.{to_lower, has_prefix, lit, trim_space, Text}
use sobs.Text.Laws.{text_eq-cases, trim_space_idem, text_eq_iff, has_prefix-append}
use sobs.Http.{Request}
use sobs.Http.Auth.{
  Server, ci_push_status, hash_api_key, is_valid_ci_push_api_key, enforce_api_key,
  resolve_managed_ci_target_app_id,
}
use sobs.Prelude.{
  refl, inr, inl, ◌∷◌, Bool-cases, ◌↔◌, none, Bool, is_nil, arith, true, not, [], ◌≢◌, ◌≡◌, ◌&&◌,
}

-- A provided key that is good for an application: it is not blank, its fingerprint is the stored one,
-- and the stored one has not expired.
pub record IsGoodKey (s : Server) (app key : Text) : Type 0 where
  pub present : trim_space key ≢ []
  pub matches : (ci_push_status s app).hash ≡ hash_api_key s (trim_space key)
  pub unexpired : to_lower (ci_push_status s app).state ≢ lit "expired"

hash_api_key-present :
    (s : Server) (key : Text)
    → trim_space key ≢ []
    → (hash_api_key s (trim_space key) ≢ [])
      × (has_prefix (hash_api_key s (trim_space key)) (lit "scrypt:v1:") ≡ true)
unfolding hash_api_key lit
hash_api_key-present s key h = ground (
  arith,
  trim_space_idem key,
  has_prefix-append (lit "scrypt:v1:") (s.scrypt_hex (trim_space key)),
)

is_valid→IsGoodKey :
    (s : Server) (app key : Text) → is_valid_ci_push_api_key s app key ≡ true → IsGoodKey s app key
unfolding is_valid_ci_push_api_key
is_valid→IsGoodKey s app key h = ground (
  arith,
  text_eq_iff (hash_api_key s (trim_space key)) (ci_push_status s app).hash,
  text_eq_iff (to_lower (ci_push_status s app).state) (lit "expired"),
)

IsGoodKey→is_valid :
    (s : Server) (app key : Text) → IsGoodKey s app key → is_valid_ci_push_api_key s app key ≡ true
unfolding is_valid_ci_push_api_key
IsGoodKey→is_valid s app key g = ground (
  arith,
  hash_api_key-present s key,
  text_eq_iff (hash_api_key s (trim_space key)) (ci_push_status s app).hash,
  text_eq_iff (to_lower (ci_push_status s app).state) (lit "expired"),
)

-- The key that a request carries, and the application whose managed key guards its route.
abbrev pub carried_key : Request → Text
carried_key r = trim_space (r.header (lit "X-API-Key"))

abbrev pub target_app : Server → Request → Text
target_app s r = resolve_managed_ci_target_app_id s r.path

-- The route belongs to an application that has a managed key.
pub record IsManaged (s : Server) (r : Request) : Type 0 where
  pub reachable : s.has_db ≡ true
  pub targeted : target_app s r ≢ []
  pub configured : (ci_push_status s (target_app s r)).configured ≡ true

-- The reasons for which a request passes: the static key, a good managed key, or nothing to check.
pub data Admits (s : Server) (r : Request) : Type 0 where
  static : s.auth.api_key ≢ [] → carried_key r ≡ s.auth.api_key → Admits s r
  managed : IsManaged s r → IsGoodKey s (target_app s r) (carried_key r) → Admits s r
  unguarded : s.auth.api_key ≡ [] → ¬ IsManaged s r → Admits s r

-- The code's test for it.
abbrev managed_configured : Server → Request → Bool
managed_configured s r =
    s.has_db && (not (is_nil (target_app s r)) && (ci_push_status s (target_app s r)).configured)

IsManaged-iff : (s : Server) (r : Request) → (managed_configured s r ≡ true) ↔ IsManaged s r
IsManaged-iff s r = (λ h. ground arith, λ m. ground arith)

Admits-without_static :
    (s : Server) (r : Request) → s.auth.api_key ≡ [] → enforce_api_key s r ≡ none → Admits s r
unfolding enforce_api_key
Admits-without_static s r e h = elim (Bool-cases (managed_configured s r)) [
  | inl m ↦
      managed ((IsManaged-iff s r).0 m)
        (is_valid→IsGoodKey s (target_app s r) (carried_key r) (ground arith))
  | inr m ↦ unguarded e (λ v. cc ((IsManaged-iff s r).1 v, m))
]

Admits-with_static :
    (s : Server) (r : Request) → s.auth.api_key ≢ [] → enforce_api_key s r ≡ none → Admits s r
unfolding enforce_api_key
Admits-with_static s r e h = elim (text_eq-cases (carried_key r) s.auth.api_key) [
  | inl (_, same) ↦ static e same
  | inr other ↦
      managed ((IsManaged-iff s r).0 (ground arith))
        (is_valid→IsGoodKey s (target_app s r) (carried_key r) (ground arith))
]

Admits→none : (s : Server) (r : Request) → Admits s r → enforce_api_key s r ≡ none
unfolding enforce_api_key
Admits→none s r (static e same) = ground (arith, text_eq_iff (carried_key r) s.auth.api_key)
Admits→none s r (managed m g) =
    ground (arith, (IsManaged-iff s r).1 m, IsGoodKey→is_valid s (target_app s r) (carried_key r) g)
Admits→none s r (unguarded e not_managed) = elim (Bool-cases (managed_configured s r)) [
  | inl m ↦ absurd (not_managed ((IsManaged-iff s r).0 m))
  | inr m ↦ ground arith
]

-- The API-key layer lets a request through exactly when its key is the static one, or its route
-- belongs to an application whose managed key it carries, or no static key is set and the route
-- belongs to no application with a managed key.
pub enforce_api_key_iff : (s : Server) (r : Request) → (enforce_api_key s r ≡ none) ↔ Admits s r
enforce_api_key_iff s r = (λ h. by_static s.auth.api_key refl h, Admits→none s r)
  where
    by_static : (key : Text) → s.auth.api_key ≡ key → enforce_api_key s r ≡ none → Admits s r
    by_static [] e h = Admits-without_static s r e h
    by_static (c ∷ key) e h = Admits-with_static s r (λ nil. cc (e, nil)) h
