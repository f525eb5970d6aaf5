-- ===== src/Http/Auth/Config.antt =====
-- The configuration, the classes of routes, and the methods that change state.
use sobs.Prelude.{
  Bool, false, ◌&&◌, ◌||◌, not, Option, none, some, List, [], ◌∷◌, is_nil, if◌then◌else◌,
  from_option,
}
use sobs.Text.{Text, lit, text_eq, has_prefix, member, to_lower, trim_space}

pub record AuthConfig : Type 0 where
  pub api_key : Text
  pub basic_user : Text
  pub basic_pass : Text
  pub external_url : Text
  pub csrf_check : Bool
  pub behind_tls : Bool

-- os.LookupEnv is the argument `env`.
unfoldable pub env_flag : (Text → Option Text) → Text → Bool → Bool
env_flag env name default = elim (env name) [
  | none ↦ default
  | some raw ↦ member (to_lower (trim_space raw)) (lit "1" ∷ lit "true" ∷ lit "yes" ∷ lit "on" ∷ [])
]

unfoldable pub load_auth_config : (Text → Option Text) → AuthConfig
unfolding env_flag
load_auth_config env =
    let behind_tls = env_flag env (lit "SOBS_BEHIND_TLS") false in
    let get_env = λ (name : Text). from_option [] (env name) in
    record {
      api_key = get_env (lit "SOBS_API_KEY");
      basic_user = get_env (lit "SOBS_BASIC_AUTH_USERNAME");
      basic_pass = get_env (lit "SOBS_BASIC_AUTH_PASSWORD");
      external_url = get_env (lit "SOBS_EXTERNAL_AUTH_URL");
      csrf_check = env_flag env (lit "SOBS_CSRF_ORIGIN_CHECK") behind_tls;
      behind_tls = behind_tls;
    }

-- The four texts that `mode` returns.
pub data Mode : Type 0 where
  no_auth basic external invalid : Mode

unfoldable pub mode : AuthConfig → Mode
mode a =
    let has_user = not (is_nil a.basic_user) in
    let has_pass = not (is_nil a.basic_pass) in
    let has_external = not (is_nil a.external_url) in
    if has_external && (has_user || has_pass)
    then invalid
    else if (has_user && not has_pass) || (not has_user && has_pass)
    then invalid
    else if has_external
    then external
    else if has_user && has_pass
    then basic
    else no_auth

pub data AuthClass : Type 0 where
  auth_public auth_api_key auth_basic : AuthClass

abbrev pub public_paths : List Text
public_paths = lit "/health" ∷ lit "/health/db" ∷ lit "/healthz" ∷ lit "/service-worker.js" ∷ []

unfoldable pub classify_auth : Text → Text → AuthClass
classify_auth method path =
    if text_eq method (lit "OPTIONS")
    then auth_public
    else if member path public_paths
    then auth_public
    else if has_prefix path (lit "/static/")
    then auth_public
    else if text_eq path (lit "/mcp") || has_prefix path (lit "/mcp/")
    then auth_public
    else if has_prefix path (lit "/api/tags/")
    then auth_api_key
    else if has_prefix path (lit "/v1/")
    then (if text_eq method (lit "GET") && has_prefix path (lit "/v1/rum/assets/")
        then auth_basic
        else auth_api_key)
    else auth_basic

unfoldable pub is_state_changing_method : Text → Bool
is_state_changing_method m = member m (lit "POST" ∷ lit "PUT" ∷ lit "PATCH" ∷ lit "DELETE" ∷ [])
