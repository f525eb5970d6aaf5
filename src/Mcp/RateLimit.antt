-- ===== src/Mcp/RateLimit.antt =====
-- go/cmd/sobs/mcp_ratelimit.go: the sliding-window limiter of the MCP endpoints, the client's
-- address and the on/off setting. Times are nanoseconds of one clock; the process-global map of the
-- Go code is the value `Times`, and its mutex makes each check one step.
pub mod Window
pub mod Tests
use sobs.Prelude.{
  ℕ, ◌+◌, ◌*◌, ◌≤◌, Bool, true, false, Option, none, some, List, [], ◌∷◌, ◌++◌, leb, is_nil,
  if◌then◌else◌, length, keep_if,
}
use sobs.Text.{Text, lit, text_eq, trim_space, before_byte, before_last_byte}

abbrev pub rate_limit_requests : ℕ
rate_limit_requests = 60

abbrev pub rate_limit_window : ℕ
rate_limit_window = 60 * 1_000_000_000

-- A missing key is an empty list, as for a Go map of slices.
abbrev pub Times : Type 0
Times = Text → List ℕ

unfoldable pub update : Times → Text → List ℕ → Times
update store ip ts j = if text_eq ip j then ts else store j

-- `!t.Before(now.Add(-window))`
unfoldable pub within : ℕ → ℕ → Bool
within now t = leb now (t + rate_limit_window)

unfoldable pub check_rate_limit : ℕ → Text → Times → Bool × Times
unfolding within update
check_rate_limit now ip store =
    let kept = keep_if (within now) (store ip) in
    if leb rate_limit_requests (length kept)
    then (false, update store ip kept)
    else (true, update store ip (kept ++ now ∷ []))

-- The first X-Forwarded-For hop, else the remote address without its port, else "unknown".
unfoldable pub client_ip : Text → Text → Text
unfolding before_byte before_last_byte trim_space
client_ip xff remote_addr =
    let first = trim_space (before_byte b',' xff) in
    let ip : Text = elim (before_last_byte b':' remote_addr) [
      | some host ↦ host
      | none ↦ remote_addr
    ] in
    let fallback = if is_nil ip then lit "unknown" else ip in
    if is_nil xff then fallback else if is_nil first then fallback else first

-- The value of the setting mcp.enabled; an absent setting reads as the empty text.
unfoldable pub mcp_enabled : Text → Bool
mcp_enabled setting = text_eq (if is_nil setting then lit "1" else setting) (lit "1")
