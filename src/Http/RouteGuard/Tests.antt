-- ===== src/Http/RouteGuard/Tests.antt =====
-- A table of one route with two methods, and one of a template.
use sobs.Prelude.{◌≡◌, refl, false, none, some, [], ◌∷◌, arith, All}
use mathlib.Core.List.{Memᴰ}
use sobs.Text.{lit, text_eq, has_suffix, trim, split, join}
use sobs.Http.{Request, Response}
use sobs.Http.RouteGuard.{
  RawTable, guard_key, route, ParamRoute, literal, placeholder, param_route_for, segments,
}
use sobs.Http.RouteGuard.Methods.{Answers, IsWord, allow_line, comma_space, route-Answers}
use sobs.Http.RouteGuard.Params.{
  IsLookup, Matches, exact, any, done, param_route_for-IsLookup, param_route_for_unique,
}

abbrev posted : Request
posted = record {
  method = lit "DELETE";
  path = lit "/api/x";
  raw_path = [];
  header = λ name. [];
  cookie = λ name. none;
  host = [];
  remote_addr = [];
  tls = false;
}

abbrev handler : Request → Response
handler r = record { status = 200; headers = []; body = [] }

abbrev table : RawTable
table = (lit "/api/x", join comma_space (lit "GET" ∷ lit "POST" ∷ [])) ∷ []

exact_pattern : has_suffix (lit "/api/x") (lit "/") ≡ false
unfolding has_suffix lit
exact_pattern = refl

two_words : All IsWord (lit "GET" ∷ lit "POST" ∷ [])
unfolding lit
two_words = (
  ((λ h. ground arith), ((λ h. ground arith), ((λ h. ground arith), tt))),
  (
    ((λ h. ground arith), ((λ h. ground arith), ((λ h. ground arith), ((λ h. ground arith), tt)))),
    tt,
  ),
)

listed :
    allow_line (guard_key (lit "/api/x")) table
    ≡ some (join comma_space (lit "GET" ∷ lit "POST" ∷ []))
unfolding guard_key lit allow_line text_eq
listed = refl

route-Answers_example :
    Answers
      (lit "GET" ∷ lit "POST" ∷ [])
      (join comma_space (lit "GET" ∷ lit "POST" ∷ []))
      (guard_key (lit "/api/x"))
      handler
      posted
      (route table (lit "/api/x") handler posted)
route-Answers_example =
    route-Answers table (lit "/api/x") (lit "GET") (lit "POST" ∷ []) handler posted exact_pattern
      two_words listed

abbrev template : ParamRoute
template = record {
  segs = literal (lit "api") ∷ placeholder ∷ [];
  allow = lit "GET";
  methods = lit "GET" ∷ [];
}

param_route_for-IsLookup_example :
    IsLookup
      (template ∷ [])
      (segments (lit "api/7"))
      (param_route_for (template ∷ []) (lit "api/7"))
param_route_for-IsLookup_example = param_route_for-IsLookup (template ∷ []) (lit "api/7")

template-Matches : Matches template.segs (segments (lit "api/7"))
unfolding split lit trim
template-Matches = exact (λ h. ground arith) refl (any (λ h. ground arith) done)

param_route_for_unique_example : param_route_for (template ∷ []) (lit "api/7") ≡ some template
param_route_for_unique_example =
    param_route_for_unique (template ∷ []) (lit "api/7") template (Memᴰ.head refl) template-Matches
      ((λ m. refl), tt)
