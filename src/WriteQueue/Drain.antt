-- ===== src/WriteQueue/Drain.antt =====
-- The writer can always finish what was sent.
use sobs.Prelude.{refl, ◌≡◌, List, [], ◌∷◌, ◌++◌, arith, some, append_assoc, append-nil, Option}
use sobs.WriteQueue.{ran, Config, Task, Queue, Event, receive, flush, run_write_batch, step, run}
use sobs.WriteQueue.Order.{ran-run_write_batch, ran-append, IsOrderly}

module _ {D E : Type 0} where
  -- The writer's events that empty the channel when no batch is open.
  empty_channel : List (Task D E) → List (Event D E)
  empty_channel [] = []
  empty_channel (t ∷ ts) = receive ∷ flush ∷ empty_channel ts

  -- The open batch first, then the tasks in the channel one by one.
  pub finish : Queue D E → List (Event D E)
  unfolding empty_channel
  finish q = elim q.batch [ [] ↦ empty_channel q.ch | _ ∷ _ ↦ flush ∷ empty_channel q.ch ]

  run-empty_channel :
      (cfg : Config) (ts : List (Task D E)) (d : D) (done : List (Task D E × Option E))
      (sent : List (Task D E))
      → run cfg
          (empty_channel ts)
          (record { db = d; ch = ts; batch = []; done = done; sent = sent })
        ≡ some (record {
          db = (run_write_batch ts d).1;
          ch = [];
          batch = [];
          done = done ++ (run_write_batch ts d).0;
          sent = sent;
        })
  unfolding run step empty_channel run_write_batch
  run-empty_channel cfg [] d done sent = ground (arith, append-nil done)
  run-empty_channel cfg (t ∷ ts) d done sent = ground (
    arith,
    run-empty_channel cfg ts (t.op d).1 (done ++ (t, (t.op d).0) ∷ []) sent,
    append_assoc done ((t, (t.op d).0) ∷ []) (run_write_batch ts (t.op d).1).0,
  )

module _ {D E : Type 0} (cfg : Config) (start : D) where
  -- From any state that the writer can reach, its own events alone (receiving and flushing) lead to a
  -- state with an empty channel and no open batch, in which exactly the tasks that were sent have run,
  -- each once, in the order sent.
  pub finish-runs :
      (q : Queue D E)
      → IsOrderly cfg start q
      → (q' : Queue D E) × (run cfg (finish q) q ≡ some q')
        × (q'.ch ≡ [])
        × (q'.batch ≡ [])
        × (ran q'.done ≡ q.sent)
  unfolding finish run step
  finish-runs q v = by_batch q.batch refl
    where
      ending : List (Task D E × Option E) → D → Queue D E
      ending done d = record {
        db = (run_write_batch q.ch d).1;
        ch = [];
        batch = [];
        done = done ++ (run_write_batch q.ch d).0;
        sent = q.sent;
      }

      by_batch :
          (b : List (Task D E))
          → q.batch ≡ b
          → (q' : Queue D E) × (run cfg (finish q) q ≡ some q')
            × (q'.ch ≡ [])
            × (q'.batch ≡ [])
            × (ran q'.done ≡ q.sent)
      by_batch [] e = (
        ending q.done q.db,
        ground (arith, run-empty_channel cfg q.ch q.db q.done q.sent),
        refl,
        refl,
        ground (
          arith,
          v.in_order,
          ran-append q.done (run_write_batch q.ch q.db).0,
          ran-run_write_batch q.ch q.db,
        ),
      )
      by_batch (t ∷ ts) e =
          let d = (run_write_batch q.batch q.db).1 in
          let done = q.done ++ (run_write_batch q.batch q.db).0 in
          (
            ending done d,
            ground (arith, run-empty_channel cfg q.ch d done q.sent),
            refl,
            refl,
            ground (
              arith,
              v.in_order,
              ran-append done (run_write_batch q.ch d).0,
              ran-run_write_batch q.ch d,
              ran-append q.done (run_write_batch q.batch q.db).0,
              ran-run_write_batch q.batch q.db,
              append_assoc (ran q.done) q.batch q.ch,
            ),
          )
