-- ===== src/Worker/QueueConsumer/OwnDeadLetters.antt =====
-- apps/worker/queue-consumer.ts with providers/queues/sqlite-queue-provider.ts: a worker that routes
-- to the provider's own `deadLetter`.
use railfog.Prelude.{
  text_eq_refl, ℕ, suc, ◌+◌, ◌≤◌, ◌≡◌, refl, ◌∙◌, true, false, none, some, List, [], ◌∷◌, arith,
}
use railfog.Errors.{ErrorCode, Result, ok, err}
use railfog.Providers.SqliteKv.{is_due}
use railfog.Providers.SqliteQueue.Lifecycle.{received_again}
use railfog.Providers.SqliteQueue.{
  earliest, purge_expired, receive_dlq, taken, message_of, is_waiting, Entry, Message, receive, ack,
  dead_letter_send,
}
use railfog.Providers.SqliteQueue.Receiving.{open_count}
use railfog.Worker.QueueConsumer.{
  default_max_receives, Queue, give_up, settle, dispatch, process_next,
}
use railfog.Worker.QueueConsumer.Settling.{answer_of, outcome_of}

-- The provider's own `deadLetter` as the worker's `dlqProvider`: both in one table.
abbrev pub own_table : (now : ℕ) → Queue
own_table now = record {
  Store = List Entry;
  receive = λ timeout rows. (
    answer_of (receive (suc (open_count rows)) timeout (λ _. now) rows).0,
    (receive (suc (open_count rows)) timeout (λ _. now) rows).1,
  );
  ack = λ id rows. (ok tt, ack id rows);
}

ack-one : (r : Entry) → ack r.id (r ∷ []) ≡ []
unfolding ack
ack-one r = rw (text_eq_refl r.id)

receive_dlq-empty : (t : ℕ) → (receive_dlq t []).0 ≡ none
unfolding receive_dlq purge_expired earliest
receive_dlq-empty t = refl

give_up-own :
    (handler : Message → Result (Unit {0})) (code : ErrorCode) (now timeout : ℕ) (m : Message)
    (rows : List Entry)
    → 5 ≤ m.attempts
    → handler m ≡ err code
    → (settle
        (own_table now)
        (some dead_letter_send)
        (outcome_of handler)
        timeout
        default_max_receives
        m
        (handler m)
        rows).1
      ≡ ack m.id rows
unfolding settle give_up
give_up-own handler code now timeout m rows last fails = rw (fails, settle) (ground arith)

-- A worker of the default five receives that is given the SQLite provider's own `deadLetter` loses
-- a message, alone in its table and not expired, when its function fails on the fifth receive: the
-- sending does nothing, and the acknowledgement removes the row, so that at no later time a dead
-- letter is received.
pub own_dead_letter_lost :
    (handler : Message → Result (Unit {0})) (code : ErrorCode) (now timeout : ℕ) (r : Entry)
    → is_waiting now r ≡ true
    → is_due now r.expires_at ≡ false
    → r.attempts ≡ 4
    → handler (message_of (taken (now + timeout) r)) ≡ err code
    → let s =
        (process_next
          (own_table now)
          (some dead_letter_send)
          (outcome_of handler)
          timeout
          default_max_receives
          (r ∷ [])).1 in
      (s ≡ []) × ((t : ℕ) → (receive_dlq t s).0 ≡ none)
unfolding process_next dispatch
own_dead_letter_lost handler code now timeout r waits live four fails =
    rw
      (
        process_next,
        received_again (open_count (r ∷ [])) timeout now r waits live (ground (arith, four)),
      )
      (rw (gone) (refl, receive_dlq-empty))
  where
    gone :
        (settle
          (own_table now)
          (some dead_letter_send)
          (outcome_of handler)
          timeout
          default_max_receives
          (message_of (taken (now + timeout) r))
          (handler (message_of (taken (now + timeout) r)))
          (taken (now + timeout) r ∷ [])).1
        ≡ []
    gone =
        give_up-own handler code now timeout (message_of (taken (now + timeout) r))
          (taken (now + timeout) r ∷ []) (omega (arith, four)) fails
        ∙ ack-one (taken (now + timeout) r)
