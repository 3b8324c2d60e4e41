-- ===== src/Policy/CircuitBreaker.antt =====
-- packages/policy/circuit-breaker.ts, over one key of a key-value provider (KvProvider.antt).
-- Times are milliseconds. `elapsed < cooldown` is written `now < last + cooldown`, the same test
-- for a clock that runs backwards. Provider calls that throw are not modelled.
pub mod Machine
pub mod Stored
pub mod Calls
pub mod Examples
use railfog.Prelude.{
  ℕ, zero, suc, ◌+◌, Bool, true, false, ◌||◌, Option, none, some, ltb, leb, if◌then◌else◌,
  or_default,
}
use railfog.KvProvider.{KvKey, Commit, committed, conflict}

pub data CircuitState : Type 0 where
  closed opened half_open : CircuitState

abbrev pub is_state : CircuitState → CircuitState → Bool
is_state CircuitState.closed CircuitState.closed = true
is_state CircuitState.opened CircuitState.opened = true
is_state CircuitState.half_open CircuitState.half_open = true
is_state _ _ = false

pub record Options : Type 0 where
  pub failure_threshold : ℕ
  pub cooldown_ms : ℕ
  pub half_open_success_threshold : ℕ

abbrev pub default_options : Options
default_options = record {
  failure_threshold = 5;
  cooldown_ms = 30_000;
  half_open_success_threshold = 2;
}

-- The state record without its version: what a mutator returns.
pub record Circuit : Type 0 where
  pub state : CircuitState
  pub consecutive_failures : ℕ
  pub consecutive_successes : ℕ
  pub last_state_change : ℕ

pub record StateRecord : Type 0 where
  pub circuit : Circuit
  pub open circuit use *
  pub version : ℕ

-- What the key holds: an object each of whose fields may be missing.
pub record RawRecord : Type 0 where
  pub raw_state : Option CircuitState
  pub raw_failures : Option ℕ
  pub raw_successes : Option ℕ
  pub raw_last_change : Option ℕ
  pub raw_version : Option ℕ

unfoldable pub to_raw : StateRecord → RawRecord
to_raw r = record {
  raw_state = some r.state;
  raw_failures = some r.consecutive_failures;
  raw_successes = some r.consecutive_successes;
  raw_last_change = some r.last_state_change;
  raw_version = some r.version;
}

abbrev pub initial : Circuit
initial = record {
  state = CircuitState.closed;
  consecutive_failures = 0;
  consecutive_successes = 0;
  last_state_change = 0;
}

-- The reading of `getState`; `none` is a missing value or one that is no object.
unfoldable pub parse_state : Option RawRecord → StateRecord
parse_state none = record { circuit = initial; version = 0 }
parse_state (some raw) = record {
  circuit = record {
    state = or_default raw.raw_state CircuitState.closed;
    consecutive_failures = or_default raw.raw_failures 0;
    consecutive_successes = or_default raw.raw_successes 0;
    last_state_change = or_default raw.raw_last_change 0;
  };
  version = or_default raw.raw_version 0;
}

module _ (o : Options) where
  -- The mutator of `recordSuccess`; `none` is `null`, no write.
  unfoldable pub on_success : (before : CircuitState) (now : ℕ) → Circuit → Option Circuit
  on_success before now latest =
      let in_half = is_state latest.state CircuitState.half_open in
      let next = (if in_half then latest.consecutive_successes else 0) + 1 in
      if in_half || (is_state before CircuitState.opened || is_state before CircuitState.half_open)
      then (if leb o.half_open_success_threshold next
          then some (record initial { last_state_change = now })
          else some (record {
            state = CircuitState.half_open;
            consecutive_failures = 0;
            consecutive_successes = next;
            last_state_change = if in_half then latest.last_state_change else now;
          }))
      else (if is_state latest.state CircuitState.closed
          then (if ltb 0 latest.consecutive_failures
              then some (record initial { last_state_change = latest.last_state_change })
              else none)
          else none)

  -- The mutator of `recordFailure`.
  unfoldable pub on_failure : (before : CircuitState) (now : ℕ) → Circuit → Option Circuit
  on_failure before now latest =
      let next = latest.consecutive_failures + 1 in
      if is_state latest.state CircuitState.half_open
        || (is_state before CircuitState.opened || is_state before CircuitState.half_open)
      then some (record {
        state = CircuitState.opened;
        consecutive_failures = o.failure_threshold;
        consecutive_successes = 0;
        last_state_change = now;
      })
      else (if is_state latest.state CircuitState.opened
          then none
          else (if leb o.failure_threshold next
              then some (record {
                state = CircuitState.opened;
                consecutive_failures = next;
                consecutive_successes = 0;
                last_state_change = now;
              })
              else some (record {
                state = CircuitState.closed;
                consecutive_failures = next;
                consecutive_successes = 0;
                last_state_change = latest.last_state_change;
              })))

  -- The guard of `execute`: may the operation run?
  unfoldable pub admits : (now : ℕ) → Circuit → Bool
  admits now current =
      if is_state current.state CircuitState.opened
      then (if ltb now (current.last_state_change + o.cooldown_ms) then false else true)
      else true

-- The mutator of `reset`.
unfoldable pub on_reset : (now : ℕ) → Circuit → Option Circuit
on_reset now latest = some (record initial { last_state_change = now })

-- How a call of `execute` ends: the operation's value, its own error, or `UnavailableError`.
pub data Ran {ℓ} (T : Type ℓ) : Type ℓ where
  returned thrown : T → Ran T
  unavailable : Ran T

abbrev pub is_returned {ℓ} : {T : Type ℓ} → Ran T → Bool
is_returned (Ran.returned x) = true
is_returned _ = false

abbrev pub replace {ℓ κ} : {A : Type ℓ} {B : Type κ} → A → Option B → Option A
replace a none = none
replace a (some b) = some a

-- The end of a turn, by the result of the commit.
finish {ℓ} : {S : Type ℓ} → StateRecord → Commit × S → Option StateRecord × S
finish written (committed v, s) =
    (some (record written { version = or_default v written.version }), s)
finish written (conflict, s) = (none, s)

module _ (kv : KvKey RawRecord) where
  open kv use {Store, get, check_set}

  unfoldable pub get_state : Store → StateRecord × Store
  get_state s = let (raw, s') = get s in (parse_state raw, s')

  -- What one turn of `mutateState` makes of the mutation: it writes nothing, or commits the new
  -- record against the version that it read, over what `others` did to the store meanwhile. `none`
  -- in front is a conflict, which asks for another turn.
  unfoldable pub write_back :
      (others : Store → Store) → StateRecord → Option Circuit → Store → Option StateRecord × Store
  unfolding finish
  write_back others current none s = (some current, s)
  write_back others current (some next) s =
      let written : StateRecord = record { circuit = next; version = suc current.version } in
      finish written (check_set current.version (to_raw written) (others s))

  -- One turn of the `while (true)`.
  unfoldable pub attempt :
      (others : Store → Store) (mutator : Circuit → Option Circuit)
      → Store
      → Option StateRecord × Store
  unfolding get_state write_back
  attempt others mutator s =
      let (current, s') = get_state s in write_back others current (mutator current.circuit) s'

  -- `mutateState`, with at most `fuel` turns. The mutator and the other clients may act differently
  -- in each turn, which is numbered by the count of turns left.
  unfoldable pub mutate_state :
      (fuel : ℕ) (others : ℕ → Store → Store) (mutator : ℕ → Circuit → Option Circuit)
      → Store
      → Option StateRecord × Store
  mutate_state zero others mutator s = (none, s)
  mutate_state (suc f) others mutator s =
      let (done, s') = attempt (others f) (mutator f) s in
      elim done [ some r ↦ (some r, s') | none ↦ mutate_state f others mutator s' ]

  -- `execute`: the outcome the operation would have, and the outcome of the call with the store it
  -- leaves; `none` says that the recording of the outcome still spins. The clock and the other
  -- clients are read turn by turn, as above.
  unfoldable pub execute {ℓ} :
      {T : Type ℓ} (o : Options) (fuel now : ℕ) (clock : ℕ → ℕ) (others : ℕ → Store → Store)
      → Ran T
      → Store
      → Option (Ran T) × Store
  execute o fuel now clock others operation s =
      let (current, s') = get_state s in
      let before = current.state in
      let record_success = mutate_state fuel others (λ turn. on_success o before (clock turn)) s' in
      let record_failure = mutate_state fuel others (λ turn. on_failure o before (clock turn)) s' in
      let (recorded, s'') = if is_returned operation then record_success else record_failure in
      if admits o now current.circuit
      then (replace operation recorded, s'')
      else (some Ran.unavailable, s')

  unfoldable pub reset :
      (fuel now : ℕ) (others : ℕ → Store → Store) → Store → Option StateRecord × Store
  reset fuel now others s = mutate_state fuel others (λ turn. on_reset now) s
