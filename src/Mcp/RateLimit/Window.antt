-- ===== src/Mcp/RateLimit/Window.antt =====
-- The limiter agrees with one that keeps every admitted request for ever.
use sobs.Prelude.{
  ℕ, ◌≤◌, ◌≡◌, refl, true, List, [], ◌∷◌, ◌++◌, arith, ltb, if◌then◌else◌, length, keep_if,
  length-append, append_assoc, All, append-nil, Bool-cases, inl, inr,
}
use sobs.Text.{Text, text_eq}
use sobs.Text.Laws.{text_eq_iff}
use sobs.Mcp.RateLimit.{rate_limit_requests, Times, update, within, check_rate_limit}

-- A request: its client and its time.
abbrev pub Request : Type 0
Request = Text × ℕ

-- The times of a client's requests in a history that lie in the window ending at `now`.
unfoldable pub recent : ℕ → Text → List Request → List ℕ
recent now ip [] = []
recent now ip ((j, t) ∷ h) =
    let rest = recent now ip h in
    if text_eq j ip then (if within now t then t ∷ rest else rest) else rest

-- The requests that the limiter admits, in order, and the state after them.
unfoldable pub run : Times → List Request → List Request × Times
run store [] = ([], store)
run store ((ip, now) ∷ rs) =
    let (allowed, store') = check_rate_limit now ip store in
    let (admitted, final) = run store' rs in
    (if allowed then (ip, now) ∷ admitted else admitted, final)

-- The reference: it remembers all that it admitted, and admits a request while fewer than the limit
-- of them lie in the window.
unfoldable pub reference : List Request → List Request → List Request
reference h [] = []
reference h ((ip, now) ∷ rs) =
    let kept = (ip, now) ∷ reference (h ++ (ip, now) ∷ []) rs in
    let dropped = reference h rs in
    if ltb (length (recent now ip h)) rate_limit_requests then kept else dropped

-- The requests come in the order of the clock, from `now` on.
abbrev pub InOrder : ℕ → List Request → Type 0
InOrder now [] = Unit
InOrder now ((ip, t) ∷ rs) = (now ≤ t) × InOrder t rs

-- The stored times show every window that ends now or later as the history does.
abbrev Agrees : ℕ → Times → List Request → Type 0
Agrees now store h = (ip : Text) (t : ℕ) → now ≤ t → keep_if (within t) (store ip) ≡ recent t ip h

within_mono : (now t x : ℕ) → now ≤ t → within t x ≡ true → within now x ≡ true
unfolding within
within_mono now t x h w = ground arith

keep_if-within :
    (now t : ℕ) (xs : List ℕ)
    → now ≤ t
    → keep_if (within t) (keep_if (within now) xs) ≡ keep_if (within t) xs
unfolding keep_if
keep_if-within now t [] h = refl
keep_if-within now t (x ∷ xs) h = ground (arith, keep_if-within now t xs, within_mono now t x)

keep_if-append :
    (t : ℕ) (xs ys : List ℕ)
    → keep_if (within t) (xs ++ ys) ≡ keep_if (within t) xs ++ keep_if (within t) ys
unfolding keep_if
keep_if-append t [] ys = refl
keep_if-append t (x ∷ xs) ys = ground (arith, keep_if-append t xs ys)

recent-append :
    (t : ℕ) (ip : Text) (h k : List Request) → recent t ip (h ++ k) ≡ recent t ip h ++ recent t ip k
unfolding recent
recent-append t ip [] k = refl
recent-append t ip ((j, x) ∷ h) k = ground (arith, recent-append t ip h k)

module _ (now : ℕ) (ip : Text) (store : Times) (h : List Request)
    (agrees : Agrees now store h) where
  Agrees-rejected : Agrees now (update store ip (keep_if (within now) (store ip))) h
  unfolding update
  Agrees-rejected j t le =
      ground (arith, text_eq_iff ip j, keep_if-within now t (store ip), agrees j t)

  Agrees-admitted :
      Agrees now
        (update store ip (keep_if (within now) (store ip) ++ now ∷ []))
        (h ++ (ip, now) ∷ [])
  unfolding update recent keep_if
  Agrees-admitted j t le = ground (
    arith,
    text_eq_iff ip j,
    keep_if-append t (keep_if (within now) (store ip)) (now ∷ []),
    recent-append t j h ((ip, now) ∷ []),
    keep_if-within now t (store ip),
    agrees j t,
    append-nil (recent t j h),
  )

Agrees-later :
    (now t : ℕ) (store : Times) (h : List Request) → now ≤ t → Agrees now store h → Agrees t store h
Agrees-later now t store h le agrees = λ ip x lx. agrees ip x (omega arith)

run-reference :
    (now : ℕ) (store : Times) (h rs : List Request)
    → Agrees now store h
    → InOrder now rs
    → (run store rs).0 ≡ reference h rs
unfolding run reference check_rate_limit
run-reference now store h [] agrees order = refl
run-reference now store h ((ip, t) ∷ rs) agrees order = ground (
  arith,
  agrees ip t order.0,
  run-reference t _ h rs (Agrees-rejected t ip store h later) order.1,
  run-reference t _ (h ++ (ip, t) ∷ []) rs (Agrees-admitted t ip store h later) order.1,
)
  where
    later : Agrees t store h
    later = Agrees-later now t store h order.0 agrees

-- Started empty, on requests in the order of the clock, the limiter admits exactly the requests that
-- one admits which keeps every admitted request for ever: dropping old times changes no verdict.
pub run-eq-reference : (rs : List Request) → InOrder 0 rs → (run (λ ip. []) rs).0 ≡ reference [] rs
unfolding recent keep_if
run-eq-reference rs order = run-reference 0 (λ ip. []) [] rs (λ ip t le. refl) order

-- Every window of the reference's history holds at most the limit of one client's requests.
abbrev IsWithinLimit : ℕ → List Request → Type 0
IsWithinLimit now h = (ip : Text) (t : ℕ) → now ≤ t → length (recent t ip h) ≤ rate_limit_requests

recent_mono :
    (now t : ℕ) (ip : Text) (h : List Request)
    → now ≤ t
    → length (recent t ip h) ≤ length (recent now ip h)
unfolding recent
recent_mono now t ip [] le = omega arith
recent_mono now t ip ((j, x) ∷ h) le = ground (arith, recent_mono now t ip h, within_mono now t x)

IsWithinLimit-admitted :
    (now t : ℕ) (ip : Text) (h : List Request)
    → now ≤ t
    → IsWithinLimit now h
    → ltb (length (recent t ip h)) rate_limit_requests ≡ true
    → IsWithinLimit t (h ++ (ip, t) ∷ [])
unfolding recent
IsWithinLimit-admitted now t ip h le ok fits = λ j x lx. ground (
  arith,
  recent-append x j h ((ip, t) ∷ []),
  length-append (recent x j h) (t ∷ []),
  text_eq_iff ip j,
  append-nil (recent x j h),
  ok j x,
  recent_mono t x ip h,
)

reference-IsWithinLimit :
    (now : ℕ) (h rs : List Request)
    → IsWithinLimit now h
    → InOrder now rs
    → (t : ℕ) → All (λ r. r.1 ≤ t) rs
    → now ≤ t
    → (ip : Text) → length (recent t ip (h ++ reference h rs)) ≤ rate_limit_requests
unfolding reference
reference-IsWithinLimit now h [] ok order t past le ip = rw append-nil (ok ip t le)
reference-IsWithinLimit now h ((j, x) ∷ rs) ok order t past le ip =
    elim (Bool-cases (ltb (length (recent x j h)) rate_limit_requests)) [
      | inl fits ↦ rw fits (
          rw (← append_assoc h ((j, x) ∷ [])) (
            reference-IsWithinLimit x (h ++ (j, x) ∷ []) rs
              (IsWithinLimit-admitted now x j h order.0 ok fits) order.1 t past.1 past.0 ip))
      | inr full ↦ rw full (
          reference-IsWithinLimit x h rs (λ i y ly. ok i y (omega arith)) order.1 t past.1 past.0
            ip)
    ]

-- On requests in the order of the clock, from a fresh limiter: in every window that ends at or after
-- the last of them, at most 60 requests of one client were admitted.
pub run-IsWithinLimit :
    (rs : List Request) (t : ℕ)
    → InOrder 0 rs
    → All (λ r. r.1 ≤ t) rs
    → (ip : Text) → length (recent t ip (run (λ ip. []) rs).0) ≤ rate_limit_requests
run-IsWithinLimit rs t order past ip = rw (run-eq-reference rs order) (
    reference-IsWithinLimit 0 [] rs (λ i x lx. unfold recent in omega arith) order t past
      (omega arith) ip)
