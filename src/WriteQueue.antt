-- ===== src/WriteQueue.antt =====
-- go/cmd/sobs/writequeue.go: the single background writer behind a bounded channel. An interleaving
-- of the senders and the writer is a list of events, each one step of the state.
pub mod Order
pub mod Drain
pub mod Tests
use Prim.Native.Nat.{max}
use sobs.Prelude.{
  ℕ, ◌+◌, Bool, true, false, ◌&&◌, ◌||◌, Option, none, some, List, [], ◌∷◌, ◌++◌, ltb, is_nil, not,
  if◌then◌else◌, length,
}

-- The sizes: of the channel, and of a batch.
pub record Config : Type 0 where
  pub capacity : ℕ
  pub batch_max : ℕ

-- `newDefaultWriteQueue`: the values of SOBS_WRITE_QUEUE_MAX and SOBS_WRITE_BATCH_MAX, at least 1.
-- (SOBS_WRITE_BATCH_WAIT_MS sets when the timer fires; here it may fire at any time.)
unfoldable pub new_config : ℕ → ℕ → Config
new_config queue_max batch_max = record { capacity = max 1 queue_max; batch_max = max 1 batch_max }

-- A task: its operation on the database, and whether a sender waits for it.
pub record Task (D E : Type 0) : Type 0 where
  pub op : D → Option E × D
  pub wait : Bool

-- `done` holds the finished tasks with the errors recorded for them, in the order they ran;
-- `sent` is the order in which the channel took the tasks.
pub record Queue (D E : Type 0) : Type 0 where
  pub db : D
  pub ch : List (Task D E)
  pub batch : List (Task D E)
  pub done : List (Task D E × Option E)
  pub sent : List (Task D E)

-- `refuse`: a sender gave up after its second. `flush`: the batch is full, or its timer fired.
pub data Event (D E : Type 0) : Type 0 where
  send : Task D E → Event D E
  refuse : Task D E → Event D E
  receive : Event D E
  flush : Event D E

-- What `enqueue` returns: errWriteQueueFull, or the operation's error (`none` is nil).
pub data Reply (E : Type 0) : Type 0 where
  queue_full : Reply E
  returned : Option E → Reply E

module _ {D E : Type 0} where
  pub new_queue : D → Queue D E
  new_queue d = record { db = d; ch = []; batch = []; done = []; sent = [] }

  unfoldable pub depth : Queue D E → ℕ
  depth q = length q.ch

  -- The results of the tasks run one after the other, and the database after them.
  unfoldable pub run_write_batch : List (Task D E) → D → List (Task D E × Option E) × D
  run_write_batch [] d = ([], d)
  run_write_batch (t ∷ ts) d =
      let (err, d') = t.op d in
      let (results, final) = run_write_batch ts d' in ((t, err) ∷ results, final)

  -- The tasks of a list of results.
  unfoldable pub ran : List (Task D E × Option E) → List (Task D E)
  ran [] = []
  ran ((t, err) ∷ rs) = t ∷ ran rs

  -- The end of `enqueue`. `finished` is the error recorded when the task was done, and `none` if the
  -- sender stopped waiting first; `t.err` is then still nil.
  unfoldable pub reply : Bool → Task D E → Option (Option E) → Reply E
  reply false t finished = queue_full
  reply true t finished =
      if t.wait
      then elim finished [ none ↦ returned none | some err ↦ returned err ]
      else returned none

  -- The body of the writer's loop as far as one channel operation, and the rest of its round.
  receive_task : Config → Queue D E → Option (Queue D E)
  receive_task cfg q = elim q.ch [
    | [] ↦ none
    | t ∷ rest ↦
        if is_nil q.batch || ltb (length q.batch) cfg.batch_max
        then some (record q { ch = rest; batch = q.batch ++ t ∷ [] })
        else none
  ]

  flush_batch : Queue D E → Option (Queue D E)
  unfolding run_write_batch
  flush_batch q =
      let (results, d) = run_write_batch q.batch q.db in
      if is_nil q.batch
      then none
      else some (record q { db = d; batch = []; done = q.done ++ results })

  -- One event; `none` where it cannot happen in this state.
  unfoldable pub step : Config → Event D E → Queue D E → Option (Queue D E)
  unfolding receive_task flush_batch
  step cfg (send t) q =
      if ltb (length q.ch) cfg.capacity
      then some (record q { ch = q.ch ++ t ∷ []; sent = q.sent ++ t ∷ [] })
      else none
  step cfg (refuse t) q = some q
  step cfg receive q = receive_task cfg q
  step cfg flush q = flush_batch q

  unfoldable pub run : Config → List (Event D E) → Queue D E → Option (Queue D E)
  run cfg [] q = some q
  run cfg (e ∷ es) q = elim (step cfg e q) [ none ↦ none | some q' ↦ run cfg es q' ]
