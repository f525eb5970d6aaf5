-- ===== src/Http/Auth/Ui.antt =====
-- Which requests the authentication of the pages and of the JSON API lets through.
use sobs.Http.{Request}
use sobs.Http.Auth.{
  Server, Mode, no_auth, basic, external, invalid, mode, enforce_ui_auth, same_origin_request,
  is_state_changing_method, basic_accepts, external_accepts, check_external_auth, bearer,
}
use sobs.Text.{has_prefix, after_byte, before_byte, cut_prefix, lit, Text}
use sobs.Text.Laws.{text_eq_iff, cut_prefix-append, cut_prefix-eq-some}
use sobs.Prelude.{[], ◌≢◌, ℕ, refl, ◌↔◌, none, arith, Option, some, ◌++◌, true, ◌≡◌}
use sobs.Http.Auth.Enforce.{external_endpoint, enforce_mode}

-- A Basic header with the configured user and password behind base64.
pub record IsBasicLogin (s : Server) (authorization : Text) : Type 0 where
  pub encoded : Text
  pub decoded : Text
  pub header : authorization ≡ lit "Basic " ++ encoded
  pub decodes : s.base64_decode encoded ≡ some decoded
  pub user : before_byte b':' decoded ≡ s.auth.basic_user
  pub password : after_byte b':' decoded ≡ s.auth.basic_pass

basic_accepts→IsBasicLogin : (s : Server) (a : Text) → basic_accepts s a ≡ true → IsBasicLogin s a
unfolding basic_accepts
basic_accepts→IsBasicLogin s a h = by_header (cut_prefix a (lit "Basic ")) refl
  where
    by_decoded :
        (encoded : Text) (o : Option Text)
        → cut_prefix a (lit "Basic ") ≡ some encoded
        → s.base64_decode encoded ≡ o
        → IsBasicLogin s a
    by_decoded encoded none e d = absurd (ground arith)
    by_decoded encoded (some decoded) e d = record {
      encoded = encoded;
      decoded = decoded;
      header = cut_prefix-eq-some a (lit "Basic ") encoded e;
      decodes = d;
      user = ground (arith, text_eq_iff (before_byte b':' decoded) s.auth.basic_user);
      password = ground (arith, text_eq_iff (after_byte b':' decoded) s.auth.basic_pass);
    }

    by_header : (o : Option Text) → cut_prefix a (lit "Basic ") ≡ o → IsBasicLogin s a
    by_header none e = absurd (ground arith)
    by_header (some encoded) e = by_decoded encoded (s.base64_decode encoded) e refl

IsBasicLogin→basic_accepts : (s : Server) (a : Text) → IsBasicLogin s a → basic_accepts s a ≡ true
unfolding basic_accepts
IsBasicLogin→basic_accepts s a l = ground (
  arith,
  cut_prefix-append (lit "Basic ") l.encoded,
  text_eq_iff (before_byte b':' l.decoded) s.auth.basic_user,
  text_eq_iff (after_byte b':' l.decoded) s.auth.basic_pass,
)

-- A bearer token, from the header or the session cookie, that the configured service answers with 200.
pub record IsExternalLogin (s : Server) (r : Request) : Type 0 where
  pub token : has_prefix (bearer r) (lit "Bearer ") ≡ true
  pub configured : s.auth.external_url ≢ []
  pub accepted : s.upstream_status (external_endpoint s) (bearer r) ≡ some 200

external_accepts_iff :
    (s : Server) (r : Request) → (external_accepts s r ≡ true) ↔ IsExternalLogin s r
unfolding external_accepts check_external_auth
external_accepts_iff s r =
    (λ h. by_answer (s.upstream_status (external_endpoint s) (bearer r)) refl h, λ l. ground arith)
  where
    by_answer :
        (o : Option ℕ)
        → s.upstream_status (external_endpoint s) (bearer r) ≡ o
        → external_accepts s r ≡ true
        → IsExternalLogin s r
    by_answer none e h = absurd (ground arith)
    by_answer (some status) e h = ground arith

-- A write needs a matching origin, where the check is on.
abbrev pub IsOriginOk : Server → Request → Type 0
IsOriginOk s r =
    s.auth.csrf_check ≡ true
    → is_state_changing_method r.method ≡ true
    → same_origin_request s.parse_url r ≡ true

pub data Passes (s : Server) (r : Request) : Type 0 where
  open_server : mode s.auth ≡ no_auth → Passes s r
  basic_login :
      mode s.auth ≡ basic
      → IsOriginOk s r
      → IsBasicLogin s (r.header (lit "Authorization"))
      → Passes s r
  external_login : mode s.auth ≡ external → IsOriginOk s r → IsExternalLogin s r → Passes s r

enforce-Passes :
    (s : Server) (r : Request) (m : Mode) → mode s.auth ≡ m → enforce_mode m s r ≡ none → Passes s r
unfolding enforce_mode
enforce-Passes s r no_auth e h = open_server e
enforce-Passes s r basic e h =
    basic_login e (λ a b. ground arith)
      (basic_accepts→IsBasicLogin s (r.header (lit "Authorization")) (ground arith))
enforce-Passes s r external e h =
    external_login e (λ a b. ground arith) ((external_accepts_iff s r).0 (ground arith))
enforce-Passes s r invalid e h = cc

-- A page or JSON request goes through exactly when no authentication is configured, or its origin is
-- good wherever that is checked and it carries the configured Basic credentials (in basic mode) or a
-- token that the external service accepts (in external mode).
pub enforce_ui_auth_iff : (s : Server) (r : Request) → (enforce_ui_auth s r ≡ none) ↔ Passes s r
unfolding enforce_ui_auth
enforce_ui_auth_iff s r = (enforce-Passes s r (mode s.auth) refl, passes)
  where
    passes : Passes s r → enforce_ui_auth s r ≡ none
    passes (open_server e) = ground arith
    passes (basic_login e o l) =
        ground (arith, o, IsBasicLogin→basic_accepts s (r.header (lit "Authorization")) l)
    passes (external_login e o l) = ground (arith, o, (external_accepts_iff s r).1 l)
