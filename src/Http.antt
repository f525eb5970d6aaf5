-- ===== src/Http.antt =====
-- What the request handlers read of net/http's request and write to its response.
pub mod BasePath
pub mod RouteGuard
pub mod Auth
use sobs.Prelude.{ℕ, Bool, Option, List}
use sobs.Text.{Text}

-- `header` is `r.Header.Get`: the empty text for a header that is not there. `cookie` is `r.Cookie`.
pub record Request : Type 0 where
  pub method : Text
  pub path : Text
  pub raw_path : Text
  pub header : Text → Text
  pub cookie : Text → Option Text
  pub host : Text
  pub remote_addr : Text
  pub tls : Bool

pub record Response : Type 0 where
  pub status : ℕ
  pub headers : List (Text × Text)
  pub body : Text
