-- ===== src/Http/Auth/Tests.antt =====
-- A server with a static key, one with a login for its pages, and their requests.
use sobs.Prelude.{
  ◌≡◌, refl, ◌≢◌, ◌↔◌, true, false, ◌||◌, none, some, [], ◌++◌, arith, if◌then◌else◌,
}
use sobs.Text.{Text, lit, text_eq, has_prefix, member}
use sobs.Http.{Request}
use sobs.Http.Auth.{
  Server, AuthConfig, enforce_api_key, enforce_ui_auth, classify_auth, auth_public, auth_api_key,
}
use sobs.Http.Auth.Keys.{Admits, enforce_api_key_iff}
use sobs.Http.Auth.Ui.{Passes, enforce_ui_auth_iff}
use sobs.Http.Auth.Classes.{IsPublic, classify_auth_iff, classify_auth-v1}

abbrev keyed : AuthConfig
keyed = record {
  api_key = lit "k1";
  basic_user = lit "u";
  basic_pass = lit "p";
  external_url = [];
  csrf_check = true;
  behind_tls = false;
}

abbrev server : Server
server = record {
  auth = keyed;
  has_db = true;
  release_app_id = λ id. none;
  ci_setting = λ app name. [];
  expiry_state = λ at. [];
  scrypt_hex = λ key. key;
  base64_decode = λ s. if text_eq s (lit "dTpw") then some (lit "u:p") else none;
  parse_url = λ u. none;
  upstream_status = λ url token. none;
}

abbrev request_with : Text → Text → Text → Request
request_with method path header_value = record {
  method = method;
  path = path;
  raw_path = [];
  header = λ name.
      if text_eq name (lit "X-API-Key") || text_eq name (lit "Authorization")
      then header_value
      else [];
  cookie = λ name. none;
  host = lit "localhost";
  remote_addr = lit "10.0.0.1:80";
  tls = false;
}

abbrev ingest : Request
ingest = request_with (lit "POST") (lit "/v1/logs") (lit "k1")

abbrev page : Request
page = request_with (lit "GET") (lit "/logs") (lit "Basic dTpw")

enforce_api_key_iff_example : (enforce_api_key server ingest ≡ none) ↔ Admits server ingest
enforce_api_key_iff_example = enforce_api_key_iff server ingest

enforce_ui_auth_iff_example : (enforce_ui_auth server page ≡ none) ↔ Passes server page
enforce_ui_auth_iff_example = enforce_ui_auth_iff server page

health-auth_public : classify_auth (lit "GET") (lit "/static/app.js") ≡ auth_public
unfolding classify_auth lit text_eq member has_prefix
health-auth_public = refl

classify_auth_iff_example :
    (classify_auth (lit "GET") (lit "/static/app.js") ≡ auth_public)
    ↔ IsPublic (lit "GET") (lit "/static/app.js")
classify_auth_iff_example = classify_auth_iff (lit "GET") (lit "/static/app.js")

post-is_not_options : lit "POST" ≢ lit "OPTIONS"
unfolding lit
post-is_not_options = λ h. ground arith

post-is_not_asset : ¬ (
    (lit "POST" ≡ lit "GET")
    × (has_prefix (lit "/v1/" ++ lit "logs") (lit "/v1/rum/assets/") ≡ true))
unfolding lit
post-is_not_asset = λ h. ground arith

classify_auth-v1_example : classify_auth (lit "POST") (lit "/v1/" ++ lit "logs") ≡ auth_api_key
classify_auth-v1_example =
    classify_auth-v1 (lit "POST") (lit "logs") post-is_not_options post-is_not_asset
