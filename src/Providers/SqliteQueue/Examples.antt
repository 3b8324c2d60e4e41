-- ===== src/Providers/SqliteQueue/Examples.antt =====
-- providers/queues/sqlite-queue-provider.ts: the theorems at concrete tables, and tests by
-- evaluation.
use railfog.Prelude.{
  ℕ, ◌+◌, ◌*◌, ◌≤◌, ◌<◌, ◌≡◌, refl, Bool, true, false, Option, none, some, List, [], ◌∷◌, Text,
  codes, arith, filterb, map,
}
use railfog.Errors.{ok, err, ErrorCode}
use railfog.Providers.SqliteQueue.{
  Entry, Message, Delay, receive, receive_dlq, send, purge_expired, earliest, update, take_entry,
  receive_turn,
}
use railfog.Providers.SqliteQueue.Receiving.{receive_returns}
use railfog.Providers.SqliteQueue.Delivery.{
  receive-contents, receive_hides, HiddenUntil, contents, lives,
}
use railfog.Providers.SqliteQueue.Lifecycle.{redelivery, send-receive}

abbrev mail : Text
mail = codes "m1"

abbrev worn : Entry
worn = record {
  id = mail;
  body = codes "{}";
  attempts = 5;
  visible_after = 90;
  is_dlq = false;
  expires_at = some 5000;
}

abbrev fresh : Entry
fresh = record {
  id = codes "m2";
  body = codes "[]";
  attempts = 1;
  visible_after = 95;
  is_dlq = false;
  expires_at = none;
}

-- The first message goes to the dead letters, and the second is delivered.
received_second :
    (receive 3 1000 (λ _. 100) (worn ∷ fresh ∷ [])).0
    ≡ some (some (record { id = codes "m2"; body = codes "[]"; attempts = 2 }))
unfolding receive receive_turn take_entry earliest purge_expired update railfog.Prelude.text_eq
received_second = refl

too_late :
    (send 4 0 mail (codes "{}") (some (Delay.millis 900_001)) []).0
    ≡ err ErrorCode.validation_failed
unfolding send
too_late = refl

receive_returns_example :
    (answer : Option Message) × ((receive 3 1000 (λ _. 100) (worn ∷ fresh ∷ [])).0 ≡ some answer)
receive_returns_example = receive_returns 3 1000 (λ _. 100) (worn ∷ fresh ∷ []) (omega arith)

receive-contents_example :
    filterb (lives 100) (map contents (receive 3 1000 (λ _. 100) (worn ∷ fresh ∷ [])).1)
    ≡ filterb (lives 100) (map contents (worn ∷ fresh ∷ []))
receive-contents_example = receive-contents 3 1000 100 (worn ∷ fresh ∷ [])

receive_hides_example :
    (2 ≤ 5)
    × ((turn : ℕ) × (turn < 3)
        × HiddenUntil (codes "m2") (100 + 1000) (receive 3 1000 (λ _. 100) (worn ∷ fresh ∷ [])).1)
receive_hides_example =
    receive_hides 3 1000 (λ _. 100) (worn ∷ fresh ∷ [])
      (record { id = codes "m2"; body = codes "[]"; attempts = 2 }) received_second

redelivery_example :
    let (answer, rows) = receive 2 1000 (λ _. 100) (worn ∷ []) in
    (answer ≡ some none)
    × ((receive_dlq 100 rows).0 ≡ some (record { id = mail; body = codes "{}"; attempts = 6 }))
redelivery_example = redelivery 0 1000 100 worn refl refl

send-receive_example :
    let (sent, rows) = send 4 0 mail (codes "{}") (some (Delay.millis 2000)) [] in
    (sent ≡ ok mail)
    × ((receive 1 1000 (λ _. 2000) rows).0
        ≡ some (some (record { id = mail; body = codes "{}"; attempts = 1 })))
send-receive_example =
    send-receive 0 1000 4 0 2000 2000 mail (codes "{}") (omega arith) (omega arith)
