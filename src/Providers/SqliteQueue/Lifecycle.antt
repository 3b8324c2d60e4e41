-- ===== src/Providers/SqliteQueue/Lifecycle.antt =====
-- providers/queues/sqlite-queue-provider.ts: one message from `send` to its acknowledgement, or to
-- the dead letters.
use railfog.Prelude.{
  ◌∙◌, ap, ℕ, suc, ◌+◌, ◌*◌, ◌≤◌, ◌≡◌, refl, Bool, true, false, ◌&&◌, Option, none, some, List, [],
  ◌∷◌, Text, text_eq_refl, arith, ltb, leb, if◌then◌else◌, length, Bool-cases, inl, inr,
}
use railfog.Errors.{ok}
use railfog.Providers.SqliteKv.{is_due}
use railfog.Providers.SqliteQueue.{
  is_dead, Entry, Message, Delay, purge_expired, earliest, update, is_waiting, taken, buried,
  message_of, take_entry, receive_turn, receive, max_receives, send, max_payload_size_bytes,
  receive_dlq,
}

purge-one : (t : ℕ) (r : Entry) → is_due t r.expires_at ≡ false → purge_expired t (r ∷ []) ≡ r ∷ []
unfolding purge_expired
purge-one t r live = rw live

purge-due : (t : ℕ) (r : Entry) → is_due t r.expires_at ≡ true → purge_expired t (r ∷ []) ≡ []
unfolding purge_expired
purge-due t r due = rw due

earliest-one : (p : Entry → Bool) (r : Entry) → p r ≡ true → earliest p (r ∷ []) ≡ some r
unfolding earliest
earliest-one p r passes = rw passes

earliest-no : (p : Entry → Bool) (r : Entry) → p r ≡ false → earliest p (r ∷ []) ≡ none
unfolding earliest
earliest-no p r fails = rw fails

update-one : (r : Entry) (f : Entry → Entry) → update r.id f (r ∷ []) ≡ f r ∷ []
unfolding update
update-one r f = rw (text_eq_refl r.id)

-- A turn over a table of one row that waits and lives.
turn-one :
    (timeout t : ℕ) (r : Entry)
    → is_waiting t r ≡ true
    → is_due t r.expires_at ≡ false
    → receive_turn timeout t (r ∷ []) ≡ take_entry (t + timeout) (some r) (r ∷ [])
unfolding receive_turn
turn-one timeout t r waits live = rw (purge-one t r live, earliest-one (is_waiting t) r waits)

take_entry-one :
    (next : ℕ) (r : Entry)
    → take_entry next (some r) (r ∷ []) ≡ (
        if ltb max_receives (suc r.attempts)
        then (none, buried (taken next r) ∷ [])
        else (some (some (message_of (taken next r))), taken next r ∷ []))
unfolding take_entry
take_entry-one next r = rw (update-one r (taken next), update-one (taken next r) buried)

turn-empty :
    (timeout t : ℕ) (r : Entry)
    → is_waiting t r ≡ false
    → is_due t r.expires_at ≡ false
    → receive_turn timeout t (r ∷ []) ≡ (some none, r ∷ [])
unfolding receive_turn take_entry
turn-empty timeout t r busy live = rw (purge-one t r live, earliest-no (is_waiting t) r busy)

turn-expired :
    (timeout t : ℕ) (r : Entry)
    → is_due t r.expires_at ≡ true
    → receive_turn timeout t (r ∷ []) ≡ (some none, [])
unfolding receive_turn take_entry earliest
turn-expired timeout t r due = rw (purge-due t r due)

receive-done :
    (fuel timeout t : ℕ) (rows rows' : List Entry) (answer : Option Message)
    → receive_turn timeout t rows ≡ (some answer, rows')
    → receive (suc fuel) timeout (λ _. t) rows ≡ (some answer, rows')
unfolding receive
receive-done fuel timeout t rows rows' answer e = rw (receive, e) (ap (λ x. (some answer, x.1)) e)

receive-again :
    (fuel timeout t : ℕ) (rows rows' : List Entry)
    → receive_turn timeout t rows ≡ (none, rows')
    → receive (suc fuel) timeout (λ _. t) rows ≡ receive fuel timeout (λ _. t) rows'
unfolding receive
receive-again fuel timeout t rows rows' e =
    rw (receive, e) (ap (λ x. receive fuel timeout (λ _. t) x.1) e)

pub received_again :
    (fuel timeout t : ℕ) (r : Entry)
    → is_waiting t r ≡ true
    → is_due t r.expires_at ≡ false
    → ltb r.attempts max_receives ≡ true
    → receive (suc fuel) timeout (λ _. t) (r ∷ [])
      ≡ (some (some (message_of (taken (t + timeout) r))), taken (t + timeout) r ∷ [])
received_again fuel timeout t r waits live few =
    receive-done fuel timeout t (r ∷ []) (taken (t + timeout) r ∷ [])
      (some (message_of (taken (t + timeout) r)))
      (turn-one timeout t r waits live ∙ take_entry-one (t + timeout) r ∙ ground arith)

buried_at_last :
    (fuel timeout t : ℕ) (r : Entry)
    → is_waiting t r ≡ true
    → is_due t r.expires_at ≡ false
    → ltb r.attempts max_receives ≡ false
    → receive (suc (suc fuel)) timeout (λ _. t) (r ∷ [])
      ≡ (some none, buried (taken (t + timeout) r) ∷ [])
buried_at_last fuel timeout t r waits live many =
    receive-again (suc fuel) timeout t (r ∷ []) (buried (taken (t + timeout) r) ∷ [])
      (turn-one timeout t r waits live ∙ take_entry-one (t + timeout) r ∙ ground arith)
    ∙ receive-done fuel timeout t (buried (taken (t + timeout) r) ∷ [])
        (buried (taken (t + timeout) r) ∷ []) none
        (turn-empty timeout t (buried (taken (t + timeout) r)) (ground arith) live)

receive_dlq-one :
    (t : ℕ) (r : Entry)
    → is_dead t r ≡ true
    → is_due t r.expires_at ≡ false
    → (receive_dlq t (r ∷ [])).0 ≡ some (message_of r)
unfolding receive_dlq
receive_dlq-one t r dead live = rw (purge-one t r live, earliest-one (is_dead t) r dead)

-- A message that waits, alone in its table and not expired, because nobody acknowledged it within
-- its visibility timeout, is received again, with its attempts counted, as long as it was received
-- less than five times; after that `receive` tells of no message, and the message is with the dead
-- letters, whose `receive` delivers it. Two turns are enough, at one clock reading.
pub redelivery :
    (fuel timeout t : ℕ) (r : Entry)
    → is_waiting t r ≡ true
    → is_due t r.expires_at ≡ false
    → let (answer, rows) = receive (suc (suc fuel)) timeout (λ _. t) (r ∷ []) in
      if ltb r.attempts max_receives
      then (answer ≡ some (some (message_of (taken (t + timeout) r))))
        × (rows ≡ taken (t + timeout) r ∷ [])
      else (answer ≡ some none)
        × ((receive_dlq t rows).0 ≡ some (message_of (taken (t + timeout) r)))
redelivery fuel timeout t r waits live = elim (Bool-cases (ltb r.attempts max_receives)) [
  | inl few ↦ rw (few, received_again (suc fuel) timeout t r waits live few) (refl, refl)
  | inr many ↦
      rw (many, buried_at_last fuel timeout t r waits live many)
        (refl, receive_dlq-one t (buried (taken (t + timeout) r)) (ground arith) live)
]

abbrev sent_entry : (id body : Text) (visible_after expires_at : ℕ) → Entry
sent_entry id body visible_after expires_at = record {
  id = id;
  body = body;
  attempts = 0;
  visible_after = visible_after;
  is_dlq = false;
  expires_at = some expires_at;
}

send_accepts :
    (retention_days now ms : ℕ) (id body : Text)
    → ms ≤ 900_000
    → length body ≤ max_payload_size_bytes
    → send retention_days now id body (some (Delay.millis ms)) []
      ≡ (ok id, sent_entry id body (now + ms) (now + retention_days * 86_400_000) ∷ [])
unfolding send
send_accepts retention_days now ms id body short small = ground arith

sent_one :
    (fuel timeout t visible expires : ℕ) (id body : Text)
    → (receive (suc fuel) timeout (λ _. t) (sent_entry id body visible expires ∷ [])).0
      ≡ some (
          if leb visible t && ltb t expires
          then some (record { id = id; body = body; attempts = 1 })
          else none)
sent_one fuel timeout t visible expires id body = elim (Bool-cases (leb expires t)) [
  | inl due ↦
      ap (λ x. x.0) (receive-done fuel timeout t (r ∷ []) [] none (turn-expired timeout t r due))
      ∙ ground arith
  | inr live ↦ elim (Bool-cases (leb visible t)) [
    | inl seen ↦
        ap (λ x. x.0) (received_again fuel timeout t r (ground arith) live (ground arith))
        ∙ ground arith
    | inr unseen ↦
        ap (λ x. x.0)
          (receive-done fuel timeout t (r ∷ []) (r ∷ []) none
            (turn-empty timeout t r (ground arith) live))
        ∙ ground arith
  ]
]
  where
    r : Entry
    r = sent_entry id body visible expires

-- A message that was sent to an empty queue, with a delay of at most 900 seconds and a body of at
-- most 128 KiB, is accepted; it is received from the end of its delay until its retention is over,
-- the first time with one attempt; before and after, no message is.
pub send-receive :
    (fuel timeout retention_days now ms t : ℕ) (id body : Text)
    → ms ≤ 900_000
    → length body ≤ max_payload_size_bytes
    → let (sent, rows) = send retention_days now id body (some (Delay.millis ms)) [] in
      (sent ≡ ok id)
      × ((receive (suc fuel) timeout (λ _. t) rows).0
          ≡ some (
              if leb (now + ms) t && ltb t (now + retention_days * 86_400_000)
              then some (record { id = id; body = body; attempts = 1 })
              else none))
send-receive fuel timeout retention_days now ms t id body short small =
    rw (send_accepts retention_days now ms id body short small)
      (refl, (sent_one fuel timeout t (now + ms) (now + retention_days * 86_400_000) id body))
