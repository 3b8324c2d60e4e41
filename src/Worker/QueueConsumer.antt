-- ===== src/Worker/QueueConsumer.antt =====
-- apps/worker/queue-consumer.ts: `QueueConsumerWorker` and `ResilientQueueConsumerWorker`, over a
-- queue provider whose calls may throw. The function that a message is dispatched to is an argument,
-- which may itself use the store. The promises that the worker keeps are the flags and counts of
-- `Lifecycle`; the timer of a sleep is left out.
pub mod Agreement
pub mod Settling
pub mod OwnDeadLetters
pub mod Loops
pub mod Examples
use railfog.Prelude.{
  ◌≡◌, ℕ, zero, suc, ◌+◌, ◌-◌, Bool, true, false, not, ◌&&◌, ◌||◌, Option, none, some, Text, ltb,
  leb, if◌then◌else◌, or_default,
}
use railfog.Errors.{Result, ok, err}
use railfog.Policy.Retry.{RetryPolicy, calculate_next_sleep}
use railfog.Providers.SqliteQueue.{Message}

abbrev pub default_max_receives : ℕ
default_max_receives = 5

-- What the worker uses of a provider.
pub record Queue : Type 1 where
  pub Store : Type 0
  pub receive : (visibility_timeout_ms : ℕ) → Store → Result (Option Message) × Store
  pub ack : Text → Store → Result (Unit {0}) × Store

abbrev pub is_ok {ℓ} : {A : Type ℓ} → Result A → Bool
is_ok (ok _) = true
is_ok (err _) = false

-- `if (this.options.dlqProvider) try { await dlqProvider.send(body) } catch {}`
abbrev pub send_dead : {S : Type 0} → Option (Text → S → Result Text × S) → Text → S → S
send_dead none body s = s
send_dead (some send) body s = (send body s).1

-- The counters of the resilient worker.
pub record Backoff : Type 0 where
  pub consecutive_empty_polls : ℕ
  pub last_sleep_ms : ℕ

module _ (q : Queue) where
  open q use {Store, receive, ack}

  module _ (dlq : Option (Text → Store → Result Text × Store))
      (invoke : Message → Store → Result (Unit {0}) × Store)
      (visibility_timeout_ms max_receives : ℕ) where
    -- The `catch` of the invocation.
    unfoldable pub give_up : Message → Store → Store
    give_up m s = if leb max_receives m.attempts then (ack m.id (send_dead dlq m.body s)).1 else s

    -- The end of `processNext`, by the outcome of the invocation.
    unfoldable pub settle : Message → Result (Unit {0}) → Store → Bool × Store
    settle m (err _) s = (false, give_up m s)
    settle m (ok _) s = let (acked, s') = ack m.id s in (is_ok acked, s')

    -- `processNext` from the answer of `receive` on.
    unfoldable pub dispatch : Result (Option Message) → Store → Bool × Store
    dispatch (err _) s = (false, s)
    dispatch (ok none) s = (false, s)
    dispatch (ok (some m)) s = let (outcome, s') = invoke m s in settle m outcome s'

    unfoldable pub process_next : Store → Bool × Store
    process_next s = let (got, s') = receive visibility_timeout_ms s in dispatch got s'

    -- The same for the resilient worker, which counts its empty polls.
    unfoldable pub resilient_settle :
        Message → Result (Unit {0}) → Backoff × Store → Bool × (Backoff × Store)
    resilient_settle m (err _) (b, s) = (false, (b, give_up m s))
    resilient_settle m (ok _) (b, s) =
        let (acked, s') = ack m.id s in
        (
          is_ok acked,
          (
            if is_ok acked then record { consecutive_empty_polls = 0; last_sleep_ms = 0 } else b,
            s',
          ),
        )

    unfoldable pub resilient_dispatch :
        Result (Option Message) → Backoff × Store → Bool × (Backoff × Store)
    resilient_dispatch (err _) (b, s) =
        (false, (record b { consecutive_empty_polls = suc b.consecutive_empty_polls }, s))
    resilient_dispatch (ok none) (b, s) =
        (false, (record b { consecutive_empty_polls = suc b.consecutive_empty_polls }, s))
    resilient_dispatch (ok (some m)) (b, s) =
        let (outcome, s') = invoke m s in resilient_settle m outcome (b, s')

    unfoldable pub resilient_process_next : Backoff × Store → Bool × (Backoff × Store)
    resilient_process_next (b, s) =
        let (got, s') = receive visibility_timeout_ms s in resilient_dispatch got (b, s')

    -- The sleep of a round of `runLoop` that processed nothing.
    unfoldable pub back_off : RetryPolicy → Backoff → ℕ × Backoff
    back_off policy b =
        let sleep_ms =
          calculate_next_sleep policy (b.consecutive_empty_polls - 1) b.last_sleep_ms in
        (sleep_ms, record b { last_sleep_ms = sleep_ms })

    -- A round of the resilient `runLoop` while the worker runs: the sleep it ends in, if any.
    unfoldable pub resilient_round : RetryPolicy → Backoff × Store → Option ℕ × (Backoff × Store)
    resilient_round policy s =
        let (processed, (b, s')) = resilient_process_next s in
        let (sleep_ms, b') = back_off policy b in
        if processed then (none, (b, s')) else (some sleep_ms, (b', s'))

-- The fields `running`, `stopPromise`, `currentProcessingPromise` and `loopPromise`; the last one is
-- modelled by the count of the calls of `runLoop` that have not ended.
pub record Lifecycle : Type 0 where
  pub running : Bool
  pub stopping : Bool
  pub processing : Bool
  pub loops : ℕ

abbrev pub idle : Lifecycle
idle = record { running = false; stopping = false; processing = false; loops = 0 }

unfoldable pub start : Lifecycle → Lifecycle
start w = if w.running || w.stopping then w else record w { running = true; loops = suc w.loops }

-- `stop` up to its first `await`.
unfoldable pub stop : Lifecycle → Lifecycle
stop w =
    if w.stopping
    then w
    else (if not w.running && (not w.processing && not (ltb 0 w.loops))
        then w
        else record w { running = false; stopping = true })

-- What happens between the awaits, in any order that they allow.
pub data Step : Lifecycle → Lifecycle → Type 0 where
  starts : (w : Lifecycle) → Step w (start w)
  stops : (w : Lifecycle) → Step w (stop w)
  -- A loop finds the worker running and calls `processNext`.
  polls :
      (w : Lifecycle)
      → w.running ≡ true
      → ltb 0 w.loops ≡ true
      → Step w (record w { processing = true })
  -- That call ends, in success or failure.
  settles : (w : Lifecycle) → w.processing ≡ true → Step w (record w { processing = false })
  -- A loop finds the worker stopped and ends.
  loop_ends :
      (w : Lifecycle) (n : ℕ)
      → w.running ≡ false
      → w.processing ≡ false
      → w.loops ≡ suc n
      → Step w (record w { loops = n })
  -- `stop` has awaited the processing and the loop.
  stop_ends :
      (w : Lifecycle)
      → w.stopping ≡ true
      → w.processing ≡ false
      → w.loops ≡ 0
      → Step w (record w { stopping = false })

pub data Reachable : Lifecycle → Type 0 where
  created : Reachable idle
  goes : (w w' : Lifecycle) → Reachable w → Step w w' → Reachable w'
