-- ===== src/Http/Auth/Classes.antt =====
-- Which layer a route falls under.
use sobs.Text.Laws.{text_eq-cases, cut_prefix-eq-some, text_eq_iff, has_prefix-append}
use sobs.Http.Auth.{classify_auth, public_paths, auth_public, auth_api_key}
use sobs.Text.{cut_prefix, text_eq, member, has_prefix, lit, Text}
use sobs.Prelude.{
  refl, sym, subst, Option-cases, ◌↔◌, false, arith, Bool-cases, ◌++◌, true, inr, inl, ◌≢◌, ◌≡◌,
}

-- The requests that pass with no check.
pub data IsPublic (method path : Text) : Type 0 where
  preflight : method ≡ lit "OPTIONS" → IsPublic method path
  health : path ≡ lit "/health" → IsPublic method path
  health_db : path ≡ lit "/health/db" → IsPublic method path
  healthz : path ≡ lit "/healthz" → IsPublic method path
  service_worker : path ≡ lit "/service-worker.js" → IsPublic method path
  static_file : (rest : Text) → path ≡ lit "/static/" ++ rest → IsPublic method path
  mcp : path ≡ lit "/mcp" → IsPublic method path
  below_mcp : (rest : Text) → path ≡ lit "/mcp/" ++ rest → IsPublic method path

IsPublic-listed : (method path : Text) → member path public_paths ≡ true → IsPublic method path
unfolding member
IsPublic-listed method path h = elim (text_eq-cases path (lit "/health")) [
  | inl (_, e) ↦ health e
  | inr a ↦ elim (text_eq-cases path (lit "/health/db")) [
    | inl (_, e) ↦ health_db e
    | inr b ↦ elim (text_eq-cases path (lit "/healthz")) [
      | inl (_, e) ↦ healthz e
      | inr c ↦ service_worker ((text_eq_iff path (lit "/service-worker.js")).0 (ground arith))
    ]
  ]
]

has_prefix-eq-true : (path p : Text) → has_prefix path p ≡ true → (rest : Text) × (path ≡ p ++ rest)
unfolding has_prefix
has_prefix-eq-true path p h = elim (Option-cases (cut_prefix path p)) [
  | inl e ↦ absurd (ground arith)
  | inr (rest, e) ↦ (rest, cut_prefix-eq-some path p rest e)
]

classify_auth→IsPublic :
    (method path : Text) → classify_auth method path ≡ auth_public → IsPublic method path
unfolding classify_auth
classify_auth→IsPublic method path h = elim (text_eq-cases method (lit "OPTIONS")) [
  | inl (_, e) ↦ preflight e
  | inr not_options ↦ elim (Bool-cases (member path public_paths)) [
    | inl e ↦ IsPublic-listed method path e
    | inr not_listed ↦ elim (Bool-cases (has_prefix path (lit "/static/"))) [
      | inl e ↦
          let (rest, below) = has_prefix-eq-true path (lit "/static/") e in static_file rest below
      | inr not_static ↦ elim (text_eq-cases path (lit "/mcp")) [
        | inl (_, e) ↦ mcp e
        | inr not_mcp ↦
            let (rest, below) = has_prefix-eq-true path (lit "/mcp/") (ground arith) in
            below_mcp rest below
      ]
    ]
  ]
]

classify_auth-listed :
    (method path : Text) → member path public_paths ≡ true → classify_auth method path ≡ auth_public
unfolding classify_auth
classify_auth-listed method path h = ground arith

IsPublic→classify_auth :
    (method path : Text) → IsPublic method path → classify_auth method path ≡ auth_public
unfolding classify_auth member text_eq lit
IsPublic→classify_auth method path (preflight e) = rw e (ground arith)
IsPublic→classify_auth method path (health e) =
    classify_auth-listed method path (subst (λ p. member p public_paths ≡ true) (sym e) refl)
IsPublic→classify_auth method path (health_db e) =
    classify_auth-listed method path (subst (λ p. member p public_paths ≡ true) (sym e) refl)
IsPublic→classify_auth method path (healthz e) =
    classify_auth-listed method path (subst (λ p. member p public_paths ≡ true) (sym e) refl)
IsPublic→classify_auth method path (service_worker e) =
    classify_auth-listed method path (subst (λ p. member p public_paths ≡ true) (sym e) refl)
IsPublic→classify_auth method path (static_file rest e) =
    let below =
      subst (λ p. has_prefix p (lit "/static/") ≡ true) (sym e) (has_prefix-append _ rest) in
    ground arith
IsPublic→classify_auth method path (mcp e) =
    let at = subst (λ p. text_eq p (lit "/mcp") ≡ true) (sym e) refl in ground arith
IsPublic→classify_auth method path (below_mcp rest e) =
    let below = subst (λ p. has_prefix p (lit "/mcp/") ≡ true) (sym e) (has_prefix-append _ rest) in
    ground arith

-- A request falls under no layer exactly when it is an OPTIONS request, or its path is /health,
-- /health/db, /healthz, /service-worker.js or /mcp, or below /static/ or /mcp/.
pub classify_auth_iff :
    (method path : Text) → (classify_auth method path ≡ auth_public) ↔ IsPublic method path
classify_auth_iff method path =
    (classify_auth→IsPublic method path, IsPublic→classify_auth method path)

-- The five tests that come before the one for /v1/ fail below it, and that one passes.
v1_tests :
    (rest : Text)
    → (member (lit "/v1/" ++ rest) public_paths ≡ false)
      × (has_prefix (lit "/v1/" ++ rest) (lit "/static/") ≡ false)
      × (text_eq (lit "/v1/" ++ rest) (lit "/mcp") ≡ false)
      × (has_prefix (lit "/v1/" ++ rest) (lit "/mcp/") ≡ false)
      × (has_prefix (lit "/v1/" ++ rest) (lit "/api/tags/") ≡ false)
unfolding lit member text_eq has_prefix cut_prefix
v1_tests rest = (refl, refl, refl, refl, refl)

-- Every request below /v1/ but a preflight and a GET below /v1/rum/assets/ falls under the API key.
pub classify_auth-v1 :
    (method rest : Text)
    → method ≢ lit "OPTIONS"
    → ¬ ((method ≡ lit "GET") × (has_prefix (lit "/v1/" ++ rest) (lit "/v1/rum/assets/") ≡ true))
    → classify_auth method (lit "/v1/" ++ rest) ≡ auth_api_key
unfolding classify_auth
classify_auth-v1 method rest not_options not_asset =
    let (in_list, static, at_mcp, under_mcp, tags) = v1_tests rest in
    ground (
      arith,
      text_eq_iff method (lit "OPTIONS"),
      text_eq_iff method (lit "GET"),
      has_prefix-append (lit "/v1/") rest,
      in_list,
      static,
      at_mcp,
      under_mcp,
      tags,
    )
