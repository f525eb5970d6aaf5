-- ===== src/Http/Auth/Origin.antt =====
-- The same-origin test. `url.Parse` is the argument `parse_url`: the scheme and the host of a URL, or
-- `none` for an error.
use sobs.Prelude.{Bool, false, ◌||◌, Option, none, some, [], ◌++◌, is_nil, if◌then◌else◌}
use sobs.Text.{Text, lit, text_eq, to_lower, trim_space, before_byte}
use sobs.Http.{Request}

module _ (parse_url : Text → Option (Text × Text)) where
  origin_of : Text → Text
  origin_of raw = elim (parse_url raw) [
    | none ↦ []
    | some (scheme, host) ↦
        if is_nil scheme || is_nil host then [] else to_lower scheme ++ (lit "://" ++ to_lower host)
  ]

  unfoldable pub normalize_origin : Text → Text
  unfolding origin_of
  normalize_origin value = let raw = trim_space value in if is_nil raw then [] else origin_of raw

-- The first of several values between commas, trimmed and in lower case.
unfoldable pub first_csv_lower : Text → Text
first_csv_lower v = to_lower (trim_space (before_byte b',' v))

unfoldable pub expected_host : Request → Text
expected_host r =
    let forwarded = first_csv_lower (r.header (lit "X-Forwarded-Host")) in
    if is_nil forwarded then to_lower (trim_space r.host) else forwarded

unfoldable pub expected_scheme : Request → Text
expected_scheme r =
    let forwarded = first_csv_lower (r.header (lit "X-Forwarded-Proto")) in
    if is_nil forwarded then (if r.tls then lit "https" else lit "http") else forwarded

module _ (parse_url : Text → Option (Text × Text)) where
  unfoldable pub same_origin_request : Request → Bool
  same_origin_request r =
      let origin = normalize_origin parse_url (r.header (lit "Origin")) in
      let referer_origin = normalize_origin parse_url (r.header (lit "Referer")) in
      let expected_origin = expected_scheme r ++ (lit "://" ++ expected_host r) in
      if is_nil (expected_host r)
      then false
      else text_eq origin expected_origin || text_eq referer_origin expected_origin
