-- ===== src/Policy/CircuitBreaker/Examples.antt =====
-- packages/policy/circuit-breaker.ts: the theorems at concrete circuits, over a SQLite table, and
-- tests by evaluation.
use railfog.Prelude.{
  text_eq, ℕ, ◌≡◌, refl, none, some, List, [], ◌∷◌, codes, Text, arith, or_default,
}
use railfog.Errors.{ok}
use railfog.KvProvider.{KvKey}
use railfog.Providers.KeyPath.{
  is_unreserved, encode_byte, encode_component, encode_key_path, validate_key,
}
use railfog.Providers.SqliteKv.{find_row}
use railfog.Providers.SqliteKv.Contract.{KvTable, sqlite_kv}
use railfog.Policy.CircuitBreaker.{
  CircuitState, default_options, Circuit, RawRecord, StateRecord, initial, on_failure, on_reset,
  admits, Ran, parse_state, mutate_state, execute, reset,
}
use railfog.Policy.CircuitBreaker.Machine.{IsValid}
use railfog.Policy.CircuitBreaker.Stored.{
  mutate_state_alone, stored, Agrees, Seen, mutate_state_returns, mutate_state_atomic,
}
use railfog.Policy.CircuitBreaker.Calls.{execute_refines, reset_spins}

abbrev breaker_key : List Text
breaker_key = codes "breaker" ∷ []

breaker_key-valid : validate_key breaker_key ≡ ok tt
unfolding validate_key
breaker_key-valid = refl

abbrev kv : KvKey RawRecord
kv = sqlite_kv 0 breaker_key breaker_key-valid

abbrev empty_table : KvTable RawRecord
empty_table = ([], tt)

-- A record that was stored by a plain `set`, with no `version`.
abbrev bare_table : KvTable RawRecord
bare_table = (
  record {
    key_path = codes "breaker/";
    key = breaker_key;
    value = record {
      raw_state = some CircuitState.opened;
      raw_failures = some 5;
      raw_successes = none;
      raw_last_change = some 100;
      raw_version = none;
    };
    version = 1;
    expires_at = none;
  }
      ∷ [],
  (tt, tt),
)

empty_table-Agrees : Agrees kv empty_table
unfolding find_row parse_state
empty_table-Agrees = refl

bare_table-differs : ¬ Agrees kv bare_table
unfolding find_row parse_state encode_key_path encode_component encode_byte is_unreserved text_eq
bare_table-differs e = omega (arith, e)

abbrev tripped : Circuit
tripped = record {
  state = CircuitState.opened;
  consecutive_failures = 5;
  consecutive_successes = 0;
  last_state_change = 100;
}

tripped-IsValid : IsValid default_options tripped
tripped-IsValid = ground arith

-- The operation fails once, on an empty table.
execute_refines_example :
    let (outcome, s') =
      execute kv {T = ℕ} default_options 1 7 (λ _. 12) (λ _ s. s) (Ran.thrown 42) empty_table in
    (outcome ≡ some (Ran.thrown 42))
    × ((stored kv s').circuit ≡ record initial { consecutive_failures = 1 })
    × Agrees kv s'
unfolding find_row parse_state admits on_failure
execute_refines_example =
    execute_refines kv {T = ℕ} default_options 0 7 (λ _. 12) (λ _ s. s) (Ran.thrown 42) empty_table
      (λ _ s. refl) empty_table-Agrees

mutate_state_returns_example :
    (r : StateRecord) × ((mutate_state kv 3 (λ _ s. s) (λ _. on_reset 9) empty_table).0 ≡ some r)
mutate_state_returns_example =
    mutate_state_returns kv (λ _ s. s) (λ _. on_reset 9) 3 2 empty_table (omega arith) (λ s. refl)
      (λ _ t agrees. agrees) empty_table-Agrees

-- The state that a reset of the empty table leaves.
abbrev after_reset : StateRecord
after_reset = stored kv (mutate_state kv 1 (λ _ s. s) (λ _. on_reset 9) empty_table).1

mutate_state_atomic_example :
    (turn : ℕ) × (t : KvTable RawRecord) × Seen kv (λ _ s. s) (λ _. on_reset 9) 1 empty_table turn t
    × (after_reset.circuit ≡ or_default (on_reset 9 (stored kv t).circuit) (stored kv t).circuit)
    × (after_reset ≡ after_reset)
    × (Agrees kv t → Agrees kv (mutate_state kv 1 (λ _ s. s) (λ _. on_reset 9) empty_table).1)
mutate_state_atomic_example =
    mutate_state_atomic kv (λ _ s. s) (λ _. on_reset 9) 1 empty_table after_reset
      (mutate_state_alone kv (λ _ s. s) (λ _. on_reset 9) 0 empty_table (λ s. refl)
        empty_table-Agrees).0

reset_spins_example : (reset kv 1000 9 (λ _ s. s) bare_table).0 ≡ none
reset_spins_example = reset_spins kv 1000 9 (λ _ s. s) bare_table (λ _ s. refl) bare_table-differs
