-- ===== src/Http/Auth/Enforce.antt =====
-- The two layers of enforcement. `none` lets the request proceed; a response blocks it.
use sobs.Prelude.{
  ℕ, Bool, false, ◌&&◌, ◌||◌, not, Option, none, some, [], ◌∷◌, ◌++◌, ◌==◌, is_nil, if◌then◌else◌,
  from_option, length,
}
use sobs.Text.{
  Text, lit, text_eq, has_prefix, cut_prefix, cut_suffix, contains, to_lower, trim_space,
  trim_right, before_byte, after_byte, decimal,
}
use sobs.Http.{Request, Response}
use sobs.Http.Auth.Config.{
  AuthConfig, Mode, no_auth, basic, external, invalid, mode, AuthClass, auth_public, auth_api_key,
  auth_basic, classify_auth, is_state_changing_method,
}
use sobs.Http.Auth.Origin.{same_origin_request}

-- The server's configuration, and what it asks of the database (the release's application, the stored
-- CI-push settings, the state of an expiry date) and of other packages (scrypt in hex, base64, URLs,
-- the status that the external service answers to an Authorization header).
pub record Server : Type 0 where
  pub auth : AuthConfig
  pub has_db : Bool
  pub release_app_id : Text → Option Text
  pub ci_setting : Text → Text → Text
  pub expiry_state : Text → Text
  pub scrypt_hex : Text → Text
  pub base64_decode : Text → Option Text
  pub parse_url : Text → Option (Text × Text)
  pub upstream_status : Text → Text → Option ℕ

pub record CiPushStatus : Type 0 where
  pub configured : Bool
  pub hash : Text
  pub state : Text

unfoldable pub ci_push_status : Server → Text → CiPushStatus
ci_push_status s app_id =
    let id = trim_space app_id in
    let key_hash = trim_space (s.ci_setting id (lit "hash")) in
    let expires_at = trim_space (s.ci_setting id (lit "expires_at")) in
    if is_nil id then record { configured = false; hash = []; state = lit "missing" } else record {
      configured = not (is_nil key_hash);
      hash = key_hash;
      state = if is_nil key_hash then lit "missing" else s.expiry_state expires_at;
    }

unfoldable pub hash_api_key : Server → Text → Text
hash_api_key s value =
    let raw = trim_space value in if is_nil raw then [] else lit "scrypt:v1:" ++ s.scrypt_hex raw

unfoldable pub is_valid_ci_push_api_key : Server → Text → Text → Bool
is_valid_ci_push_api_key s app_id provided_key =
    let candidate = trim_space provided_key in
    let meta = ci_push_status s app_id in
    if is_nil candidate
    then false
    else if is_nil meta.hash
    then false
    else if text_eq (to_lower meta.state) (lit "expired")
    then false
    else if not (has_prefix meta.hash (lit "scrypt:v1:"))
    then false
    else text_eq (hash_api_key s candidate) meta.hash

single_segment : Text → Bool
single_segment id = not (is_nil id || contains id (lit "/"))

app_target : Text → Text
app_target rest =
    let app_id = trim_space (from_option rest (cut_suffix rest (lit "/releases"))) in
    if single_segment app_id then app_id else []

release_target : Server → Text → Text
release_target s rest =
    let rel : Text = elim (cut_suffix rest (lit "/artifacts/meta")) [
      | some r ↦ r
      | none ↦ from_option rest (cut_suffix rest (lit "/artifacts"))
    ] in
    let rel_id = trim_space rel in
    let found : Text = elim (s.release_app_id rel_id) [
      | none ↦ []
      | some app_id ↦ trim_space app_id
    ] in
    if single_segment rel_id then found else []

unfoldable pub resolve_managed_ci_target_app_id : Server → Text → Text
unfolding app_target release_target single_segment
resolve_managed_ci_target_app_id s path = elim (cut_prefix path (lit "/v1/apps/")) [
  | some rest ↦ app_target rest
  | none ↦ elim (cut_prefix path (lit "/v1/releases/")) [
    | some rest ↦ release_target s rest
    | none ↦ []
  ]
]

-- writeJSON of the object with the one field "error"
unfoldable pub error_json : ℕ → Text → Response
error_json status message =
    let body = lit "{\"error\":\"" ++ (message ++ lit "\"}\n") in
    record {
      status = status;
      headers =
          (lit "Content-Type", lit "application/json")
          ∷ (lit "Content-Length", decimal (length body))
          ∷ [];
      body = body;
    }

unfoldable pub enforce_api_key : Server → Request → Option Response
enforce_api_key s r =
    let key = trim_space (r.header (lit "X-API-Key")) in
    let static_key = s.auth.api_key in
    let static_ok = not (is_nil static_key) && text_eq key static_key in
    let target = resolve_managed_ci_target_app_id s r.path in
    let managed_configured =
      s.has_db && (not (is_nil target) && (ci_push_status s target).configured) in
    let managed_ok = managed_configured && is_valid_ci_push_api_key s target key in
    let unauthorized = some (error_json 401 (lit "Unauthorized")) in
    if not (is_nil static_key)
    then (if not static_ok && not managed_ok then unauthorized else none)
    else if managed_configured && not managed_ok
    then unauthorized
    else none

unfoldable pub external_endpoint : Server → Text
external_endpoint s =
    trim_right (λ c. c == b'/') s.auth.external_url ++ lit "/internal/auth/validate"

unfoldable pub check_external_auth : Server → Text → Bool
check_external_auth s authorization =
    if is_nil s.auth.external_url
    then false
    else elim (s.upstream_status (external_endpoint s) authorization) [
      | none ↦ false
      | some status ↦ status == 200
    ]

-- The credentials of an Authorization header, against the configured ones.
unfoldable pub basic_accepts : Server → Text → Bool
basic_accepts s authorization = elim (cut_prefix authorization (lit "Basic ")) [
  | none ↦ false
  | some encoded ↦ elim (s.base64_decode encoded) [
    | none ↦ false
    | some decoded ↦
        text_eq (before_byte b':' decoded) s.auth.basic_user
        && text_eq (after_byte b':' decoded) s.auth.basic_pass
  ]
]

has_line_break : Text → Bool
has_line_break v = contains v (13 ∷ []) || contains v (10 ∷ [])

-- The Authorization header, or the session cookie in its place.
unfoldable pub bearer : Request → Text
unfolding has_line_break
bearer r =
    let auth = r.header (lit "Authorization") in
    if has_prefix auth (lit "Bearer ") then auth else elim (r.cookie (lit "session")) [
      | none ↦ auth
      | some v ↦ if is_nil v || has_line_break v then auth else lit "Bearer " ++ v
    ]

unfoldable pub external_accepts : Server → Request → Bool
external_accepts s r = has_prefix (bearer r) (lit "Bearer ") && check_external_auth s (bearer r)

unfoldable pub challenge : Text → Response
challenge www_auth = record {
  status = 401;
  headers =
      (lit "WWW-Authenticate", www_auth)
      ∷ (lit "Content-Type", lit "text/html; charset=utf-8")
      ∷ [];
  body = lit "Unauthorized";
}

unfoldable pub enforce_mode : Mode → Server → Request → Option Response
enforce_mode invalid s r = some (error_json 500 (lit "Server auth misconfiguration"))
enforce_mode no_auth s r = none
enforce_mode basic s r =
    if s.auth.csrf_check
      && is_state_changing_method r.method
      && not (same_origin_request s.parse_url r)
    then some (error_json 403 (lit "CSRF origin check failed"))
    else if basic_accepts s (r.header (lit "Authorization"))
    then none
    else some (challenge (lit "Basic realm=\"SOBS\""))
enforce_mode external s r =
    if s.auth.csrf_check
      && is_state_changing_method r.method
      && not (same_origin_request s.parse_url r)
    then some (error_json 403 (lit "CSRF origin check failed"))
    else if external_accepts s r
    then none
    else some (challenge (lit "Bearer realm=\"SOBS\""))

unfoldable pub enforce_ui_auth : Server → Request → Option Response
unfolding enforce_mode
enforce_ui_auth s r = enforce_mode (mode s.auth) s r

enforce_class : AuthClass → Server → Request → Option Response
enforce_class auth_api_key s r = enforce_api_key s r
enforce_class auth_basic s r = enforce_ui_auth s r
enforce_class auth_public s r = none

unfoldable pub enforce_auth : Server → Request → Option Response
unfolding enforce_class
enforce_auth s r = enforce_class (classify_auth r.method r.path) s r
