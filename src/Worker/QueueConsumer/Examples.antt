-- ===== src/Worker/QueueConsumer/Examples.antt =====
-- apps/worker/queue-consumer.ts: the theorems at concrete queues and runs.
use railfog.Prelude.{ℕ, ◌≡◌, refl, false, none, some, [], ◌∷◌, codes}
use railfog.Errors.{Result, ErrorCode, err}
use railfog.Providers.SqliteQueue.{Entry, Message, dead_letter_send, receive_dlq}
use railfog.Worker.QueueConsumer.{
  idle, start, stop, starts, stops, Reachable, created, goes, process_next, default_max_receives,
}
use railfog.Worker.QueueConsumer.OwnDeadLetters.{own_dead_letter_lost, own_table}
use railfog.Worker.QueueConsumer.Settling.{
  process_next-Keeps, mailbox, elsewhere, outcome_of, Keeps, received,
}

abbrev poison : Entry
poison = record {
  id = codes "p";
  body = codes "{}";
  attempts = 4;
  visible_after = 0;
  is_dlq = false;
  expires_at = none;
}

abbrev failing : Message → Result (Unit {0})
failing m = err ErrorCode.internal

process_next-Keeps_example :
    Keeps failing 10 1000 5
      (received failing 10 1000 5 (poison ∷ []))
      (poison ∷ [])
      []
      (process_next (mailbox 10) elsewhere (outcome_of failing) 1000 5 (poison ∷ [], [])).1
process_next-Keeps_example = process_next-Keeps failing 10 1000 5 (poison ∷ []) []

own_dead_letter_lost_example :
    let s =
      (process_next
        (own_table 10)
        (some dead_letter_send)
        (outcome_of failing)
        1000
        default_max_receives
        (poison ∷ [])).1 in
    (s ≡ []) × ((t : ℕ) → (receive_dlq t s).0 ≡ none)
own_dead_letter_lost_example =
    own_dead_letter_lost failing ErrorCode.internal 10 1000 poison refl refl refl refl

stopped_after_start : Reachable (stop (start idle))
stopped_after_start =
    goes (start idle) (stop (start idle)) (goes idle (start idle) created (starts idle))
      (stops (start idle))
