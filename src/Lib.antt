-- ===== src/Lib.antt =====
-- SOBS is an observability server: it takes in logs, traces and metrics over HTTP, keeps them
-- in an embedded ClickHouse (chdb), shows them on pages and over a JSON API, and sends
-- notifications. A request passes the base path, the authentication and the method guards, and
-- then reaches a handler, which queries or writes the store. This library models the parts of
-- the Go program under go/ that decide something:
--
--   Text (with Laws and Utf8)   strings as lists of bytes, and the functions of package strings
--   Store.Params   go/internal/store/params.go: inlineParams, quoteLiteral, chEscape, First, ColumnIndex
--   Json   go/internal/jsonenc/jsonenc.go: Object (set, get, keys), the encoder (Json.Encode), PyFloatRepr
--   Http.BasePath   go/cmd/sobs/basepath.go: normalizeBasePath, effectiveBasePath, applyBasePath
--   Http.RouteGuard   go/cmd/sobs/route_guard.go: route, the exact and the parameterised guard
--   Http.Auth   go/cmd/sobs/auth.go, with ciPushStatus (repositories.go) and hashAPIKey
--     (repositories_actions.go): the configuration (Config), the same-origin test (Origin), the layers (Enforce)
--   Mcp.RateLimit   go/cmd/sobs/mcp_ratelimit.go: the sliding window of each client
--   WriteQueue   go/cmd/sobs/writequeue.go: the bounded channel and its one writer
--   Query.Validate and Query.Difflib   go/cmd/sobs/sql_validate.go: which statements may run, and the names
--     that are suggested for a blocked one
--   Query.Regex   go/cmd/sobs/regex_validate.go: the query behind the check of a filter's regular expression;
--     the text of the error sources is an embedded file, so an argument
--   Render   go/internal/render: the lexer of lex.go (Render.Lex), the parser of parse.go (Render.Parse, its
--     tags in Tags, its recursion in Run), the helpers of both and of eval.go (Render.Words); Grammar is the
--     description that the parser is compared with
--   Masking   go/cmd/sobs/output_mask.go and masking.go: the active keys, maskPayloadJSON and its callers; the
--     validation and loading of patterns (Masking.Patterns; what is loaded is in Loaded)
--   Ingest   go/cmd/sobs/ingest_tag_rules.go: the tags that rules give to records
--   Prune   go/cmd/sobs/dm_prune.go: parseDmPrunePeriod, runDmPrune; the engine answers each statement after
--     those executed before it; Prune.Log describes the log of a prune
--   Notify   go/cmd/sobs/notif_check.go: conditions (Values, Evaluate), the payload (Payload), firing (Check);
--     the small readers of JSON values come from the files that declare them
--
-- A function of the source keeps its name in the spelling of this library (enforceAPIKey is
-- enforce_api_key). Numbers are natural numbers or integers without bounds; the lengths, times
-- and counts of these files stay far below 2^63. A handler that writes a response returns it:
-- `none` where the Go function returns false. State that Go keeps in globals or channels is an
-- argument and a result. In WriteQueue an interleaving is a list of events; the timers of the
-- source are events that may occur at any time. A float64 is an abstract type with a record of
-- the operations of packages math and strconv; the ratio of the closest names is kept as a
-- fraction. In Query.Difflib the work list runs on 2 |a| + 1 units of fuel for a first sequence
-- of |a| elements: a round uses one unit, and of a box that spans n elements at most 2 n + 1
-- rounds come. The parser of templates spends one unit on each node; one unit more than there
-- are tokens is enough. What remains of the tokens is kept in place of the position, which
-- makes a position at the end and one behind it the same; reading the current token there is
-- the panic that Go has for an index out of range. decimal runs on n + 1 units for the number
-- n, more than it has digits.
--
-- Upper and lower case and white space are those of ASCII. What packages regexp, net/url,
-- encoding/base64 and scrypt find, the answers of the database and of other servers, and the
-- route tables generated from the URL map are arguments. Not modelled: the handlers that mostly
-- put SQL and pages together, the evaluator of templates, the loading of notification rules and
-- channels, the ingest of telemetry but for its tag rules, the saving of masking keys and
-- patterns, anomaly rules, the deduplication of agents, and the driver of the embedded
-- database.
pub mod Prelude
pub mod Text
pub mod Store
pub mod Json
pub mod Http
pub mod Mcp
pub mod WriteQueue
pub mod Query
pub mod Notify
pub mod Render
pub mod Masking
pub mod Ingest
pub mod Prune
