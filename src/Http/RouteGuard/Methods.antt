-- ===== src/Http/RouteGuard/Methods.antt =====
-- The Allow line of a route decides which methods reach its handler.
use sobs.Prelude.{
  ◌≡◌, refl, sym, ap, ◌∙◌, subst, ◌≢◌, ◌⊎◌, inl, inr, true, false, not, Option, none, some, List,
  [], ◌∷◌, ◌++◌, append-nil, arith, if◌then◌else◌, Bool-cases, All,
}
use sobs.Text.{
  member, has_suffix, cut_prefix, lit, has_prefix, Text, text_eq, split_from, split_on, join,
}
use sobs.Text.Laws.{text_eq-cases, text_eq_iff}
use sobs.Http.{Request, Response}
use sobs.Http.RouteGuard.{
  RawTable, RouteMethodSet, options, method_set, build_route_methods, find_route, route,
  write_method_guard, guard_key, explicit_options_routes, guarded,
}

-- The Allow line that a raw table has for a path.
unfoldable pub allow_line : Text → RawTable → Option Text
allow_line key [] = none
allow_line key ((path, allow) ∷ raw) =
    let rest = allow_line key raw in if text_eq path key then some allow else rest

find_route-build :
    (key : Text) (raw : RawTable) (allow : Text)
    → allow_line key raw ≡ some allow
    → find_route key (build_route_methods raw) ≡ some (method_set allow)
unfolding allow_line find_route build_route_methods
find_route-build key [] allow h = cc
find_route-build key ((path, a) ∷ raw) allow h = ground (arith, find_route-build key raw allow)

abbrev pub comma_space : Text
comma_space = lit ", "

-- A method's name holds no comma.
abbrev pub IsWord : Text → Type 0
IsWord w = All (λ c. c ≢ b',') w

split_from-word :
    (w rest head : Text) (tail : List Text)
    → IsWord w
    → split_from comma_space 0 rest ≡ head ∷ tail
    → split_from comma_space 0 (w ++ rest) ≡ (w ++ head) ∷ tail
unfolding split_from has_prefix cut_prefix lit
split_from-word [] rest head tail h e = e
split_from-word (c ∷ w) rest head tail h e = ground (arith, split_from-word w rest head tail h.1 e)

split_from-comma :
    (rest : Text)
    → split_from comma_space 0 (comma_space ++ rest) ≡ [] ∷ split_from comma_space 0 rest
unfolding split_from has_prefix cut_prefix lit
split_from-comma rest = refl

split_on-join :
    (w : Text) (ws : List Text)
    → All IsWord (w ∷ ws)
    → split_on comma_space (join comma_space (w ∷ ws)) ≡ w ∷ ws
unfolding split_on join
split_on-join w [] h =
    rw (← append-nil w) (split_from-word w [] [] [] h.0 refl ∙ ap (λ x. x ∷ []) refl)
split_on-join w (v ∷ ws) h =
    split_from-word w (comma_space ++ join comma_space (v ∷ ws)) [] (v ∷ ws) h.0
      (split_from-comma (join comma_space (v ∷ ws)) ∙ ap (λ l. [] ∷ l) (split_on-join v ws h.1))
    ∙ ap (λ x. x ∷ v ∷ ws) (append-nil w)

-- The routes whose handlers answer OPTIONS themselves.
pub data DeclaresOptions (key : Text) : Type 0 where
  logs : key ≡ lit "/v1/logs" → DeclaresOptions key
  traces : key ≡ lit "/v1/traces" → DeclaresOptions key
  metrics : key ≡ lit "/v1/metrics" → DeclaresOptions key
  rum_assets : key ≡ lit "/v1/rum/assets" → DeclaresOptions key

member→DeclaresOptions :
    (key : Text) → member key explicit_options_routes ≡ true → DeclaresOptions key
unfolding member
member→DeclaresOptions key h = elim (text_eq-cases key (lit "/v1/logs")) [
  | inl (_, e) ↦ logs e
  | inr a ↦ elim (text_eq-cases key (lit "/v1/traces")) [
    | inl (_, e) ↦ traces e
    | inr b ↦ elim (text_eq-cases key (lit "/v1/metrics")) [
      | inl (_, e) ↦ metrics e
      | inr c ↦ rum_assets ((text_eq_iff key (lit "/v1/rum/assets")).0 (ground arith))
    ]
  ]
]

DeclaresOptions→member :
    (key : Text) → DeclaresOptions key → member key explicit_options_routes ≡ true
unfolding member text_eq lit
DeclaresOptions→member key (logs e) =
    subst (λ k. member k explicit_options_routes ≡ true) (sym e) refl
DeclaresOptions→member key (traces e) =
    subst (λ k. member k explicit_options_routes ≡ true) (sym e) refl
DeclaresOptions→member key (metrics e) =
    subst (λ k. member k explicit_options_routes ≡ true) (sym e) refl
DeclaresOptions→member key (rum_assets e) =
    subst (λ k. member k explicit_options_routes ≡ true) (sym e) refl

-- What a guarded route answers to a request.
pub data Answers (methods : List Text) (allow key : Text) (h : Request → Response) (r : Request)
    (a : Response) : Type 0 where
  served :
      member r.method methods ≡ true
      → (r.method ≡ options → DeclaresOptions key)
      → a ≡ h r
      → Answers methods allow key h r a
  described :
      r.method ≡ options
      → (member r.method methods ≡ true → ¬ DeclaresOptions key)
      → a.status ≡ 200
      → a.body ≡ []
      → allow_line (lit "Allow") a.headers ≡ some allow
      → Answers methods allow key h r a
  refused :
      member r.method methods ≡ false
      → r.method ≢ options
      → a.status ≡ 405
      → allow_line (lit "Allow") a.headers ≡ some allow
      → Answers methods allow key h r a

write_method_guard_allow :
    (method allow : Text)
    → allow_line (lit "Allow") (write_method_guard method allow).headers ≡ some allow
unfolding write_method_guard allow_line
write_method_guard_allow method allow = ground (arith, text_eq_iff (lit "Allow") (lit "Allow"))

guarded-Answers :
    (g : RouteMethodSet) (key : Text) (h : Request → Response) (r : Request)
    → Answers g.methods g.allow key h r (guarded (not (member key explicit_options_routes)) g h r)
unfolding guarded write_method_guard
guarded-Answers g key h r =
    by_tests (text_eq-cases r.method options) (Bool-cases (member key explicit_options_routes))
      (Bool-cases (member r.method g.methods))
  where
    answer : Response
    answer = guarded (not (member key explicit_options_routes)) g h r

    by_tests :
        ((text_eq r.method options ≡ true) × (r.method ≡ options))
          ⊎ (text_eq r.method options ≡ false)
        → (member key explicit_options_routes ≡ true) ⊎ (member key explicit_options_routes ≡ false)
        → (member r.method g.methods ≡ true) ⊎ (member r.method g.methods ≡ false)
        → Answers g.methods g.allow key h r answer
    by_tests (inl (t, e)) (inl x) (inl m) =
        served m (λ _. member→DeclaresOptions key x) (ground arith)
    by_tests (inl (t, e)) (inr x) _ =
        described e (λ _ d. cc (x, DeclaresOptions→member key d)) (ground arith) (ground arith)
          (ground (arith, write_method_guard_allow r.method g.allow))
    by_tests (inl (t, e)) (inl x) (inr m) =
        described e (λ l _. cc (l, m)) (ground arith) (ground arith)
          (ground (arith, write_method_guard_allow r.method g.allow))
    by_tests (inr t) x (inl m) =
        served m (λ e. cc (t, (text_eq_iff r.method options).1 e)) (ground arith)
    by_tests (inr t) x (inr m) =
        refused m (λ e. cc (t, (text_eq_iff r.method options).1 e)) (ground arith)
          (ground (arith, write_method_guard_allow r.method g.allow))

-- On an exact pattern whose Allow line lists the methods `w ∷ ws`, a request runs the handler exactly
-- where its method is listed, except that OPTIONS reaches it on the four routes that declare it alone:
-- /v1/logs, /v1/traces, /v1/metrics and /v1/rum/assets. Any other OPTIONS gets an empty 200 and any
-- other method a 405, both with the Allow line.
pub route-Answers :
    (raw : RawTable) (pattern w : Text) (ws : List Text) (h : Request → Response) (r : Request)
    → has_suffix pattern (lit "/") ≡ false
    → All IsWord (w ∷ ws)
    → allow_line (guard_key pattern) raw ≡ some (join comma_space (w ∷ ws))
    → Answers (w ∷ ws) (join comma_space (w ∷ ws)) (guard_key pattern) h r (route raw pattern h r)
unfolding route
route-Answers raw pattern w ws h r exact words listed =
    subst (λ a. Answers (w ∷ ws) allow key h r a) (sym to_guarded)
      (guarded-Answers (record { allow = allow; methods = w ∷ ws }) key h r)
  where
    allow : Text
    allow = join comma_space (w ∷ ws)

    key : Text
    key = guard_key pattern

    same_set : method_set allow ≡ record { allow = allow; methods = w ∷ ws }
    same_set =
        unfold method_set in
        ap (λ ms. record { allow = allow; methods = ms }) (split_on-join w ws words)

    to_guarded :
        route raw pattern h r
        ≡ guarded
            (not (member key explicit_options_routes))
            (record { allow = allow; methods = w ∷ ws })
            h
            r
    to_guarded = ground (arith, find_route-build key raw allow listed, same_set, exact)
