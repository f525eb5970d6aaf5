-- ===== src/WriteQueue/Tests.antt =====
-- Two writes of which the second fails, sent before the writer receives the first.
use sobs.Prelude.{ℕ, suc, ◌≡◌, refl, Bool, true, false, none, some, List, [], ◌∷◌, arith}
use sobs.WriteQueue.{step, Config, Task, Queue, Event, send, receive, flush, new_queue, run, ran}
use sobs.WriteQueue.Order.{IsOrderly, run-IsOrderly}
use sobs.WriteQueue.Drain.{finish, finish-runs}

abbrev small : Config
small = record { capacity = 2; batch_max = 1 }

abbrev adds : Task ℕ Bool
adds = record { op = λ d. (none, suc d); wait = false }

abbrev fails : Task ℕ Bool
fails = record { op = λ d. (some true, d); wait = true }

abbrev events : List (Event ℕ Bool)
events = send adds ∷ send fails ∷ receive ∷ flush ∷ receive ∷ []

abbrev reached : Queue ℕ Bool
reached = record {
  db = 1;
  ch = [];
  batch = fails ∷ [];
  done = (adds, none) ∷ [];
  sent = adds ∷ fails ∷ [];
}

run-reached : run small events (new_queue 0) ≡ some reached
unfolding run new_queue step
run-reached = refl

run-IsOrderly_example : IsOrderly small 0 reached
run-IsOrderly_example = run-IsOrderly small 0 events reached (omega arith) run-reached

finish-runs_example :
    (q' : Queue ℕ Bool) × (run small (finish reached) reached ≡ some q')
    × (q'.ch ≡ [])
    × (q'.batch ≡ [])
    × (ran q'.done ≡ reached.sent)
finish-runs_example = finish-runs small 0 reached run-IsOrderly_example
