-- ===== src/Http/RouteGuard.antt =====
-- go/cmd/sobs/route_guard.go: which methods a route serves, and the answers to all others. The two
-- route tables are generated (route_allow_gen.go, urlmap_gen.go) and are arguments here.
pub mod Methods
pub mod Params
pub mod Tests
use sobs.Prelude.{
  ℕ, Bool, true, false, ◌&&◌, ◌||◌, not, Option, none, some, List, [], ◌∷◌, ◌++◌, map, ◌==◌, is_nil,
  if◌then◌else◌, length,
}
use sobs.Text.{Text, lit, text_eq, has_prefix, has_suffix, split, split_on, trim, member, decimal}
use sobs.Http.{Request, Response}

pub record RouteMethodSet : Type 0 where
  pub allow : Text
  pub methods : List Text

-- A route table: paths or templates with their sorted Allow lines.
abbrev pub RawTable : Type 0
RawTable = List (Text × Text)

abbrev pub options : Text
options = lit "OPTIONS"

abbrev pub explicit_options_routes : List Text
explicit_options_routes =
    lit "/v1/logs" ∷ lit "/v1/traces" ∷ lit "/v1/metrics" ∷ lit "/v1/rum/assets" ∷ []

method_set : Text → RouteMethodSet
method_set allow = record { allow = allow; methods = split_on (lit ", ") allow }

unfoldable pub build_route_methods : RawTable → List (Text × RouteMethodSet)
unfolding method_set
build_route_methods [] = []
build_route_methods ((path, allow) ∷ raw) = (path, method_set allow) ∷ build_route_methods raw

unfoldable pub find_route : Text → List (Text × RouteMethodSet) → Option RouteMethodSet
find_route key [] = none
find_route key ((path, g) ∷ routes) =
    let rest = find_route key routes in if text_eq path key then some g else rest

abbrev pub method_not_allowed_405_body : Text
method_not_allowed_405_body =
    lit
      "<!doctype html>\n<html lang=en>\n<title>405 Method Not Allowed</title>\n<h1>Method Not Allowed</h1>\n<p>The method is not allowed for the requested URL.</p>\n"

unfoldable pub write_method_guard : Text → Text → Response
write_method_guard method allow =
    if text_eq method options
    then record {
      status = 200;
      headers =
          (lit "Allow", allow)
          ∷ (lit "Content-Type", lit "text/html; charset=utf-8")
          ∷ (lit "Content-Length", lit "0")
          ∷ [];
      body = [];
    }
    else record {
      status = 405;
      headers =
          (lit "Allow", allow)
          ∷ (lit "Content-Type", lit "text/html; charset=utf-8")
          ∷ (lit "Content-Length", decimal (length method_not_allowed_405_body))
          ∷ [];
      body = method_not_allowed_405_body;
    }

unfoldable pub guard_key : Text → Text
guard_key pattern = if text_eq pattern (lit "/{$}") then lit "/" else pattern

guarded : Bool → RouteMethodSet → (Request → Response) → Request → Response
guarded auto_options g h r =
    if auto_options && text_eq r.method options
    then write_method_guard r.method g.allow
    else if member r.method g.methods
    then h r
    else write_method_guard r.method g.allow

-- The handler that `route` registers for a pattern.
unfoldable pub route : RawTable → Text → (Request → Response) → Request → Response
unfolding guarded build_route_methods find_route
route raw pattern h r =
    let key = guard_key pattern in
    let checked : Response = elim (find_route key (build_route_methods raw)) [
      | none ↦ h r
      | some g ↦ guarded (not (member key explicit_options_routes)) g h r
    ] in
    if has_suffix pattern (lit "/") then h r else checked

-- `none` is false: the caller goes on.
unfoldable pub exact_method_guard : RawTable → Text → Text → Option Response
unfolding build_route_methods find_route
exact_method_guard raw method path = elim (find_route path (build_route_methods raw)) [
  | none ↦ none
  | some g ↦ if member method g.methods then none else some (write_method_guard method g.allow)
]

-- A segment of a template: a literal, or a placeholder.
pub data ParamSeg : Type 0 where
  literal : Text → ParamSeg
  placeholder : ParamSeg

pub record ParamRoute : Type 0 where
  pub segs : List ParamSeg
  pub allow : Text
  pub methods : List Text

param_seg : Text → ParamSeg
param_seg p = if has_prefix p (lit "<") && has_suffix p (lit ">") then placeholder else literal p

-- strings.Split(strings.Trim(path, "/"), "/")
abbrev pub segments : Text → List Text
segments path = split b'/' (trim (λ c. c == b'/') path)

unfoldable pub build_param_routes : RawTable → List ParamRoute
unfolding param_seg
build_param_routes [] = []
build_param_routes ((tmpl, allow) ∷ raw) =
    record {
      segs = map param_seg (segments tmpl);
      allow = allow;
      methods = split_on (lit ", ") allow;
    }
    ∷ build_param_routes raw

seg_accepts : ParamSeg → Text → Bool
seg_accepts (literal text) part = not (is_nil part) && text_eq part text
seg_accepts placeholder part = not (is_nil part)

-- The loop over the segments, after the test that the lengths agree.
match_segs : List ParamSeg → List Text → Bool
match_segs (seg ∷ segs) (part ∷ parts) = seg_accepts seg part && match_segs segs parts
match_segs _ _ = true

unfoldable pub find_param_route : List ParamRoute → List Text → Option ParamRoute
unfolding match_segs seg_accepts
find_param_route [] parts = none
find_param_route (pr ∷ routes) parts =
    let rest = find_param_route routes parts in
    if length pr.segs == length parts && match_segs pr.segs parts then some pr else rest

unfoldable pub param_route_for : List ParamRoute → Text → Option ParamRoute
unfolding find_param_route
param_route_for routes path = find_param_route routes (segments path)

-- `none` is false: the caller goes on.
unfoldable pub param_method_guard : List ParamRoute → Request → Option Response
param_method_guard routes r = elim (param_route_for routes r.path) [
  | none ↦ none
  | some pr ↦
      if text_eq r.method options
      then some (write_method_guard r.method pr.allow)
      else if member r.method pr.methods
      then none
      else some (write_method_guard r.method pr.allow)
]
