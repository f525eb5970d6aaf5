-- ===== src/Mcp/RateLimit/Tests.antt =====
-- Three requests of two clients.
use sobs.Prelude.{◌≤◌, ◌≡◌, List, [], ◌∷◌, arith, length, All}
use sobs.Text.{lit}
use sobs.Mcp.RateLimit.{rate_limit_requests}
use sobs.Mcp.RateLimit.Window.{
  Request, run, reference, recent, InOrder, run-eq-reference, run-IsWithinLimit,
}

abbrev three : List Request
three = (lit "10.0.0.1", 5) ∷ (lit "10.0.0.2", 5) ∷ (lit "10.0.0.1", 9) ∷ []

three-InOrder : InOrder 0 three
three-InOrder = (omega arith, (omega arith, (omega arith, tt)))

three-past : All (λ r. r.1 ≤ 9) three
three-past = (omega arith, (omega arith, (omega arith, tt)))

run-eq-reference_example : (run (λ ip. []) three).0 ≡ reference [] three
run-eq-reference_example = run-eq-reference three three-InOrder

run-IsWithinLimit_example :
    length (recent 9 (lit "10.0.0.1") (run (λ ip. []) three).0) ≤ rate_limit_requests
run-IsWithinLimit_example = run-IsWithinLimit three 9 three-InOrder three-past (lit "10.0.0.1")
