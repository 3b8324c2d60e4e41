-- ===== src/Providers/SqliteQueue.antt =====
-- providers/queues/sqlite-queue-provider.ts. The table `messages` is the list of its rows, with one
-- row for an id (the primary key); each SQL statement is the list operation that it states. Of the
-- rows that are visible equally long, `ORDER BY visible_after LIMIT 1` is read as the first. Times
-- are milliseconds; a body is its JSON text in UTF-8 bytes; the new id of a message is an argument.
-- Opening and closing the database are left out, and so are failures of SQLite itself.
pub mod Receiving
pub mod Delivery
pub mod Lifecycle
pub mod Examples
use railfog.Prelude.{
  ℕ, zero, suc, ◌+◌, ◌*◌, min, max, Bool, true, false, not, ◌&&◌, Option, none, some, List, [], ◌∷◌,
  ◌++◌, Text, text_eq, ltb, leb, if◌then◌else◌, or_default, length, filterb, map,
}
use railfog.Errors.{Result, ErrorCode, ok, err, ◌>>◌, throw_if}
use railfog.Providers.SqliteKv.{is_due}

pub record Entry : Type 0 where
  pub id : Text
  pub body : Text
  pub attempts : ℕ
  pub visible_after : ℕ
  pub is_dlq : Bool
  pub expires_at : Option ℕ

pub record Message : Type 0 where
  pub id : Text
  pub body : Text
  pub attempts : ℕ

abbrev default_visibility_timeout_ms : ℕ
default_visibility_timeout_ms = 30_000

abbrev pub max_receives : ℕ
max_receives = 5

abbrev max_delay_ms : ℕ
max_delay_ms = 900_000

abbrev pub max_payload_size_bytes : ℕ
max_payload_size_bytes = 131_072

abbrev pub retention_of : (retention_days : Option ℕ) → ℕ
retention_of retention_days = min (max (or_default retention_days 4) 1) 14

-- `DELETE FROM messages WHERE expires_at IS NOT NULL AND expires_at <= ?`
unfoldable pub purge_expired : (now : ℕ) → List Entry → List Entry
purge_expired now = filterb (λ r. not (is_due now r.expires_at))

-- The option `delay`: no finite number or one below 0; or a delay, in milliseconds.
pub data Delay : Type 0 where
  invalid : Delay
  millis : (ms : ℕ) → Delay

abbrev pub validate_delay : Option Delay → Result (Unit {0})
validate_delay none = ok tt
validate_delay (some Delay.invalid) = err ErrorCode.validation_failed
validate_delay (some (Delay.millis ms)) = throw_if (ltb max_delay_ms ms) ErrorCode.validation_failed

-- `(opts?.delay || 0) * 1000`
abbrev pub delay_ms : Option Delay → ℕ
delay_ms (some (Delay.millis ms)) = ms
delay_ms _ = 0

unfoldable pub send :
    (retention_days now : ℕ) (id body : Text) → Option Delay → List Entry → Result Text × List Entry
send retention_days now id body delay rows =
    let added =
      rows
      ++ record {
        id = id;
        body = body;
        attempts = 0;
        visible_after = now + delay_ms delay;
        is_dlq = false;
        expires_at = some (now + retention_days * 86_400_000);
      }
        ∷ [] in
    elim (validate_delay delay
      >> throw_if (ltb max_payload_size_bytes (length body)) ErrorCode.payload_too_large) [
        | err code ↦ (err code, rows)
        | ok _ ↦ (ok id, added)
      ]

-- `sendBatch`, given each body with its new id: the first failure ends it, and what was sent before
-- stays sent.
unfoldable pub send_batch :
    (retention_days now : ℕ) → List (Text × Text) → List Entry → Result (List Text) × List Entry
send_batch retention_days now [] rows = (ok [], rows)
send_batch retention_days now ((id, body) ∷ bodies) rows =
    let (sent, rows') = send retention_days now id body none rows in
    let (rest, rows'') = send_batch retention_days now bodies rows' in
    elim sent [
      | err code ↦ (err code, rows')
      | ok id' ↦ elim rest [ err code ↦ (err code, rows'') | ok ids ↦ (ok (id' ∷ ids), rows'') ]
    ]

-- `SELECT … WHERE p ORDER BY visible_after ASC LIMIT 1`
abbrev pub sooner : Entry → Option Entry → Entry
sooner r none = r
sooner r (some r') = if leb r.visible_after r'.visible_after then r else r'

unfoldable pub earliest : (Entry → Bool) → List Entry → Option Entry
earliest p [] = none
earliest p (r ∷ rows) = let rest = earliest p rows in if p r then some (sooner r rest) else rest

-- `UPDATE messages SET … WHERE id = ?`
unfoldable pub update : Text → (Entry → Entry) → List Entry → List Entry
update id f = map (λ r. if text_eq r.id id then f r else r)

abbrev pub is_waiting : (now : ℕ) → Entry → Bool
is_waiting now r = leb r.visible_after now && not r.is_dlq

abbrev pub is_dead : (now : ℕ) → Entry → Bool
is_dead now r = r.is_dlq && leb r.visible_after now

abbrev pub taken : (next_visible : ℕ) → Entry → Entry
taken next_visible r = record r { attempts = suc r.attempts; visible_after = next_visible }

abbrev pub buried : Entry → Entry
buried r = record r { is_dlq = true; visible_after = 0 }

abbrev pub message_of : Entry → Message
message_of r = record { id = r.id; body = r.body; attempts = r.attempts }

-- What one turn of `receive` does with the row selected: no row ends it with `null`, a row that was
-- received too often goes to the dead letters and asks for another turn (`none` in front), any other
-- is the message.
unfoldable pub take_entry :
    (next_visible : ℕ) → Option Entry → List Entry → Option (Option Message) × List Entry
take_entry next_visible none rows = (some none, rows)
take_entry next_visible (some r) rows =
    let r' = taken next_visible r in
    let rows' = update r.id (taken next_visible) rows in
    if ltb max_receives r'.attempts
    then (none, update r.id buried rows')
    else (some (some (message_of r')), rows')

-- One turn of the `while (true)`.
unfoldable pub receive_turn :
    (visibility_timeout_ms now : ℕ) → List Entry → Option (Option Message) × List Entry
receive_turn visibility_timeout_ms now rows =
    let live = purge_expired now rows in
    take_entry (now + visibility_timeout_ms) (earliest (is_waiting now) live) live

-- `receive`, with at most `fuel` turns, whose clock is read turn by turn: the turns are numbered by
-- the count of turns left. `none` in front: the fuel was too little.
unfoldable pub receive :
    (fuel visibility_timeout_ms : ℕ) (clock : ℕ → ℕ)
    → List Entry
    → Option (Option Message) × List Entry
receive zero visibility_timeout_ms clock rows = (none, rows)
receive (suc f) visibility_timeout_ms clock rows =
    let (done, rows') = receive_turn visibility_timeout_ms (clock f) rows in
    elim done [
      | some answer ↦ (some answer, rows')
      | none ↦ receive f visibility_timeout_ms clock rows'
    ]

unfoldable pub ack : Text → List Entry → List Entry
ack id = filterb (λ r. not (text_eq r.id id))

-- The end of `receiveDlq`, by the row selected.
take_dead : (next_visible : ℕ) → Option Entry → List Entry → Option Message × List Entry
take_dead next_visible none rows = (none, rows)
take_dead next_visible (some r) rows =
    (some (message_of r), update r.id (λ x. record x { visible_after = next_visible }) rows)

unfoldable pub receive_dlq : (now : ℕ) → List Entry → Option Message × List Entry
unfolding take_dead
receive_dlq now rows =
    let live = purge_expired now rows in
    take_dead (now + default_visibility_timeout_ms) (earliest (is_dead now) live) live

-- `deadLetter.send`, which resolves to an empty id.
abbrev pub dead_letter_send : Text → List Entry → Result Text × List Entry
dead_letter_send body rows = (ok [], rows)
