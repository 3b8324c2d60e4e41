-- ===== src/Worker/QueueConsumer/Agreement.antt =====
-- apps/worker/queue-consumer.ts: the two workers settle a message alike.
use railfog.Prelude.{ℕ, suc, ◌≤◌, ◌≡◌, refl, Bool, Option, none, some, Text, arith, if◌then◌else◌}
use railfog.Errors.{Result, ok, err}
use railfog.Providers.SqliteQueue.{Message}
use railfog.Worker.QueueConsumer.{
  Queue, Backoff, is_ok, settle, dispatch, process_next, resilient_settle, resilient_dispatch,
  resilient_process_next,
}

module _ (q : Queue) (dlq : Option (Text → q.Store → Result Text × q.Store))
    (invoke : Message → q.Store → Result (Unit {0}) × q.Store) (timeout max_receives : ℕ) where
  open q use {Store}

  Agree : Backoff → Bool × (Backoff × Store) → Bool × Store → Type 0
  Agree b (processed, (b', s')) plain =
      ((processed, s') ≡ plain)
      × (if processed
          then b' ≡ record { consecutive_empty_polls = 0; last_sleep_ms = 0 }
          else (b'.last_sleep_ms ≡ b.last_sleep_ms)
            × (b.consecutive_empty_polls ≤ b'.consecutive_empty_polls)
            × (b'.consecutive_empty_polls ≤ suc b.consecutive_empty_polls))

  acked-Agree :
      (b : Backoff) (acked : Result (Unit {0})) (s : Store)
      → Agree b
          (
            is_ok acked,
            (
              if is_ok acked then record { consecutive_empty_polls = 0; last_sleep_ms = 0 } else b,
              s,
            ),
          )
          (is_ok acked, s)
  unfolding Agree
  acked-Agree b (ok _) s = (refl, refl)
  acked-Agree b (err _) s = (refl, (refl, omega arith, omega arith))

  settle-Agree :
      (m : Message) (outcome : Result (Unit {0})) (b : Backoff) (s : Store)
      → Agree b
          (resilient_settle q dlq invoke timeout max_receives m outcome (b, s))
          (settle q dlq invoke timeout max_receives m outcome s)
  unfolding Agree resilient_settle settle
  settle-Agree m (ok _) b s = acked-Agree b (q.ack m.id s).0 (q.ack m.id s).1
  settle-Agree m (err _) b s = (refl, (refl, omega arith, omega arith))

  dispatch-Agree :
      (got : Result (Option Message)) (b : Backoff) (s : Store)
      → Agree b
          (resilient_dispatch q dlq invoke timeout max_receives got (b, s))
          (dispatch q dlq invoke timeout max_receives got s)
  unfolding Agree resilient_dispatch dispatch
  dispatch-Agree (err _) b s = (refl, (refl, omega arith, omega arith))
  dispatch-Agree (ok none) b s = (refl, (refl, omega arith, omega arith))
  dispatch-Agree (ok (some m)) b s = settle-Agree m (invoke m s).0 b (invoke m s).1

  -- The resilient worker settles each message as the plain worker does, whatever the provider, the
  -- dead letters and the function do. Its counters start again after a success; otherwise the last
  -- sleep stays and the count of empty polls grows by at most one.
  pub resilient_process_next-agrees :
      (b : Backoff) (s : Store)
      → let (processed, (b', s')) =
          resilient_process_next q dlq invoke timeout max_receives (b, s) in
        ((processed, s') ≡ process_next q dlq invoke timeout max_receives s)
        × (if processed
            then b' ≡ record { consecutive_empty_polls = 0; last_sleep_ms = 0 }
            else (b'.last_sleep_ms ≡ b.last_sleep_ms)
              × (b.consecutive_empty_polls ≤ b'.consecutive_empty_polls)
              × (b'.consecutive_empty_polls ≤ suc b.consecutive_empty_polls))
  unfolding resilient_process_next process_next Agree
  resilient_process_next-agrees b s =
      dispatch-Agree (q.receive timeout s).0 b (q.receive timeout s).1
