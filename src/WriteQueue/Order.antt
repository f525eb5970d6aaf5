-- ===== src/WriteQueue/Order.antt =====
-- Whatever the interleaving, the writes run one at a time in the order they were sent, and the
-- channel and the batch keep their sizes.
use sobs.Prelude.{
  ◌≤◌, ◌<◌, ◌≡◌, refl, ap, Option, some, List, [], ◌∷◌, ◌++◌, arith, length, append_assoc,
  length-append, Option-cases, inl, inr,
}
use sobs.WriteQueue.{
  ran, Config, Task, Queue, Event, send, refuse, receive, flush, new_queue, run_write_batch, step,
  run,
}

module _ {D E : Type 0} (cfg : Config) (start : D) where
  -- What holds between two events.
  pub record IsOrderly (q : Queue D E) : Type 0 where
    pub in_order : ran q.done ++ (q.batch ++ q.ch) ≡ q.sent
    pub serial : run_write_batch (ran q.done) start ≡ (q.done, q.db)
    pub ch_fits : length q.ch ≤ cfg.capacity
    pub batch_fits : length q.batch ≤ cfg.batch_max

module _ {D E : Type 0} where
  pub ran-run_write_batch : (ts : List (Task D E)) (d : D) → ran (run_write_batch ts d).0 ≡ ts
  unfolding run_write_batch ran
  ran-run_write_batch [] d = refl
  ran-run_write_batch (t ∷ ts) d = ap (λ l. t ∷ l) (ran-run_write_batch ts (t.op d).1)

  pub ran-append : (rs ss : List (Task D E × Option E)) → ran (rs ++ ss) ≡ ran rs ++ ran ss
  unfolding ran
  ran-append [] ss = refl
  ran-append ((t, e) ∷ rs) ss = ap (λ l. t ∷ l) (ran-append rs ss)

  run_write_batch-append :
      (ts us : List (Task D E)) (d : D)
      → run_write_batch (ts ++ us) d ≡ (
        (run_write_batch ts d).0 ++ (run_write_batch us (run_write_batch ts d).1).0,
        (run_write_batch us (run_write_batch ts d).1).1,
      )
  unfolding run_write_batch
  run_write_batch-append [] us d = refl
  run_write_batch-append (t ∷ ts) us d = ground (arith, run_write_batch-append ts us (t.op d).1)

module _ {D E : Type 0} (cfg : Config) (start : D) (room : 0 < cfg.batch_max) where
  send-IsOrderly :
      (t : Task D E) (q q' : Queue D E)
      → IsOrderly cfg start q
      → step cfg (send t) q ≡ some q'
      → IsOrderly cfg start q'
  unfolding step
  send-IsOrderly t q q' v h = ground (
    arith,
    length-append q.ch (t ∷ []),
    append_assoc (ran q.done) (q.batch ++ q.ch) (t ∷ []),
    append_assoc q.batch q.ch (t ∷ []),
  )

  receive-IsOrderly :
      (q q' : Queue D E)
      → IsOrderly cfg start q
      → step cfg receive q ≡ some q'
      → IsOrderly cfg start q'
  unfolding step
  receive-IsOrderly q q' v h = by_channel q.ch refl h
    where
      by_channel :
          (ts : List (Task D E))
          → q.ch ≡ ts
          → step cfg receive (record q { ch = ts }) ≡ some q'
          → IsOrderly cfg start q'
      by_channel [] e g = cc
      by_channel (t ∷ rest) e g =
          ground (arith, length-append q.batch (t ∷ []), append_assoc q.batch (t ∷ []) rest)

  flush-IsOrderly :
      (q q' : Queue D E)
      → IsOrderly cfg start q
      → step cfg flush q ≡ some q'
      → IsOrderly cfg start q'
  unfolding step
  flush-IsOrderly q q' v h = ground (
    arith,
    ran-append q.done (run_write_batch q.batch q.db).0,
    ran-run_write_batch q.batch q.db,
    run_write_batch-append (ran q.done) q.batch start,
    append_assoc (ran q.done) q.batch q.ch,
  )

  step-IsOrderly :
      (e : Event D E) (q q' : Queue D E)
      → IsOrderly cfg start q
      → step cfg e q ≡ some q'
      → IsOrderly cfg start q'
  step-IsOrderly (send t) q q' v h = send-IsOrderly t q q' v h
  step-IsOrderly (refuse t) q q' v h = unfold step in ground arith
  step-IsOrderly receive q q' v h = receive-IsOrderly q q' v h
  step-IsOrderly flush q q' v h = flush-IsOrderly q q' v h

  run-keeps :
      (es : List (Event D E)) (q q' : Queue D E)
      → IsOrderly cfg start q
      → run cfg es q ≡ some q'
      → IsOrderly cfg start q'
  unfolding run
  run-keeps [] q q' v h = ground arith
  run-keeps (e ∷ es) q q' v h = elim (Option-cases (step cfg e q)) [
    | inl no_step ↦ cc (no_step, h)
    | inr (q1, one) ↦ run-keeps es q1 q' (step-IsOrderly e q q1 v one) (rw (one, run) at h)
  ]

new_queue-IsOrderly :
    {D E : Type 0} (cfg : Config) (start : D) → IsOrderly {E = E} cfg start (new_queue start)
unfolding new_queue run_write_batch ran
new_queue-IsOrderly cfg start = ground arith

-- From a new queue with room in a batch, after any events: the tasks that ran, the open batch and the
-- channel together are what was sent, in that order; the recorded errors and the database are those of
-- running the finished tasks one after the other; the channel and the batch keep their sizes.
pub run-IsOrderly :
    {D E : Type 0} (cfg : Config) (start : D) (es : List (Event D E)) (q : Queue D E)
    → 0 < cfg.batch_max
    → run cfg es (new_queue start) ≡ some q
    → IsOrderly cfg start q
run-IsOrderly cfg start es q room h =
    run-keeps cfg start room es (new_queue start) q (new_queue-IsOrderly cfg start) h
