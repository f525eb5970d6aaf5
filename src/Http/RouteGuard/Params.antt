-- ===== src/Http/RouteGuard/Params.antt =====
-- Which template a path belongs to.
use sobs.Prelude.{
  ◌≡◌, refl, sym, ap, subst, ◌≢◌, inl, inr, Bool, true, false, ◌&&◌, Option, none, some, List, [],
  ◌∷◌, arith, ◌==◌, Bool-cases, length, All,
}
use mathlib.Core.List.{Memᴰ}
use sobs.Text.{Text}
use sobs.Text.Laws.{text_eq_iff}
use sobs.Http.RouteGuard.{
  ParamSeg, literal, placeholder, ParamRoute, seg_accepts, match_segs, find_param_route,
  param_route_for, segments,
}

-- A path's segments fit a template: no segment is empty, a literal is met by itself, a placeholder by
-- anything.
pub data Matches : List ParamSeg → List Text → Type 0 where
  done : Matches [] []
  exact :
      {text part : Text} {segs : List ParamSeg} {parts : List Text}
      → part ≢ []
      → part ≡ text
      → Matches segs parts
      → Matches (literal text ∷ segs) (part ∷ parts)
  any :
      {part : Text} {segs : List ParamSeg} {parts : List Text}
      → part ≢ []
      → Matches segs parts
      → Matches (placeholder ∷ segs) (part ∷ parts)

abbrev fits : List ParamSeg → List Text → Bool
fits segs parts = length segs == length parts && match_segs segs parts

fits→Matches :
    (segs : List ParamSeg) (parts : List Text) → fits segs parts ≡ true → Matches segs parts
unfolding match_segs seg_accepts
fits→Matches [] [] h = done
fits→Matches [] (p ∷ parts) h = absurd (ground arith)
fits→Matches (s ∷ segs) [] h = absurd (ground arith)
fits→Matches (literal t ∷ segs) (p ∷ parts) h =
    exact (ground arith) (ground (arith, text_eq_iff p t)) (fits→Matches segs parts (ground arith))
fits→Matches (placeholder ∷ segs) (p ∷ parts) h =
    any (ground arith) (fits→Matches segs parts (ground arith))

Matches→fits :
    (segs : List ParamSeg) (parts : List Text) → Matches segs parts → fits segs parts ≡ true
unfolding match_segs seg_accepts
Matches→fits segs parts done = refl
Matches→fits _ _ (exact {text = t} {part = p} {segs = segs} {parts = parts} ne e m) =
    ground (arith, text_eq_iff p t, Matches→fits segs parts m)
Matches→fits _ _ (any {part = p} {segs = segs} {parts = parts} ne m) =
    ground (arith, Matches→fits segs parts m)

-- What a lookup answers: a route of the table that the path fits, or none where no route fits.
abbrev pub IsLookup : List ParamRoute → List Text → Option ParamRoute → Type 0
IsLookup routes parts none = All (λ pr. ¬ Matches pr.segs parts) routes
IsLookup routes parts (some pr) = Memᴰ pr routes × Matches pr.segs parts

find_param_route-IsLookup :
    (routes : List ParamRoute) (parts : List Text)
    → IsLookup routes parts (find_param_route routes parts)
unfolding find_param_route
find_param_route-IsLookup [] parts = tt
find_param_route-IsLookup (pr ∷ routes) parts = elim (Bool-cases (fits pr.segs parts)) [
  | inl e ↦ rw e (Memᴰ.head refl, fits→Matches pr.segs parts e)
  | inr e ↦ rw e (later (find_param_route routes parts) (find_param_route-IsLookup routes parts) e)
]
  where
    later :
        (o : Option ParamRoute)
        → IsLookup routes parts o
        → fits pr.segs parts ≡ false
        → IsLookup (pr ∷ routes) parts o
    later none l e = (λ m. cc (Matches→fits pr.segs parts m, e), l)
    later (some q) (mem, m) e = (Memᴰ.tail mem, m)

-- The route found for a path is one of the table whose template the path fits; where none is found, no
-- template of the table fits.
pub param_route_for-IsLookup :
    (routes : List ParamRoute) (path : Text)
    → IsLookup routes (segments path) (param_route_for routes path)
unfolding param_route_for
param_route_for-IsLookup routes path = find_param_route-IsLookup routes (segments path)

All-mem :
    (P : ParamRoute → Type 0) {pr : ParamRoute} (routes : List ParamRoute)
    → Memᴰ pr routes
    → All P routes
    → P pr
All-mem P [] m h = elim m [ ]
All-mem P (q ∷ routes) (Memᴰ.head e) h = subst P (sym e) h.0
All-mem P (q ∷ routes) (Memᴰ.tail m) h = All-mem P routes m h.1

-- Where the path fits one template alone, that template is found, in whatever order the table lists
-- its routes (Go's map iteration fixes none).
pub param_route_for_unique :
    (routes : List ParamRoute) (path : Text) (pr : ParamRoute)
    → Memᴰ pr routes
    → Matches pr.segs (segments path)
    → All (λ q. Matches q.segs (segments path) → q ≡ pr) routes
    → param_route_for routes path ≡ some pr
param_route_for_unique routes path pr mem m only =
    found (param_route_for routes path) (param_route_for-IsLookup routes path)
  where
    found : (o : Option ParamRoute) → IsLookup routes (segments path) o → o ≡ some pr
    found none none_fits =
        absurd (All-mem (λ q. ¬ Matches q.segs (segments path)) routes mem none_fits m)
    found (some q) (q_mem, q_fits) =
        ap some (All-mem (λ x. Matches x.segs (segments path) → x ≡ pr) routes q_mem only q_fits)
