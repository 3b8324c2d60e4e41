-- ===== src/Policy/CircuitBreaker/Calls.antt =====
-- packages/policy/circuit-breaker.ts: `execute` and `reset` over the store, against the state
-- machine of Machine.antt.
use railfog.Prelude.{
  ℕ, suc, ◌≡◌, refl, ◌∙◌, ap, Option, none, some, if◌then◌else◌, Bool-cases, inl, inr,
}
use railfog.KvProvider.{KvKey}
use railfog.Policy.CircuitBreaker.{
  Options, Circuit, RawRecord, Ran, is_returned, on_success, on_failure, on_reset, admits,
  get_state, mutate_state, execute, reset, replace, parse_state,
}
use railfog.Policy.CircuitBreaker.Machine.{settle, execute_alone_at}
use railfog.Policy.CircuitBreaker.Stored.{
  stored, Agrees, IsQuiet, mutate_state_alone, mutate_state_spins, get-Agrees,
}

module _ (kv : KvKey RawRecord) where
  open kv use {Store}

  -- A caller that is alone, over a store whose versions agree: `execute` ends, with the operation's
  -- own outcome where the stored circuit admits the call and with `unavailable` where it does not;
  -- the circuit stored afterwards is the one that the state machine gives for the time of the guard and,
  -- when it records the outcome, for the time that the clock then says; and the versions agree.
  pub execute_refines {ℓ} :
      {T : Type ℓ} (o : Options) (fuel now : ℕ) (clock : ℕ → ℕ) (others : ℕ → Store → Store)
      (operation : Ran T) (s : Store)
      → ((turn : ℕ) → IsQuiet kv (others turn))
      → Agrees kv s
      → let (outcome, s') = execute kv o (suc fuel) now clock others operation s in
        (outcome ≡ some (if admits o now (stored kv s).circuit then operation else Ran.unavailable))
        × ((stored kv s').circuit
            ≡ execute_alone_at o (stored kv s).circuit now (clock fuel) (is_returned operation))
        × Agrees kv s'
  unfolding execute get_state
  execute_refines o fuel now clock others operation s quiet agrees =
      rw (kv.get_value s) (elim (Bool-cases (admits o now (stored kv s).circuit)) [
        | inl admitted ↦ rw admitted (elim (Bool-cases (is_returned operation)) [
          | inl returned ↦
              rw returned (recorded (λ turn. on_success o (stored kv s).state (clock turn)))
          | inr thrown ↦
              rw thrown (recorded (λ turn. on_failure o (stored kv s).state (clock turn)))
        ])
        | inr refused ↦ rw refused (refl, ap (λ r. r.circuit) same, got)
      ])
    where
      same : stored kv (kv.get s).1 ≡ stored kv s
      same = ap parse_state (kv.get_read s)

      got : Agrees kv (kv.get s).1
      got = get-Agrees kv others (λ turn c. none) s agrees

      recorded :
          (m : ℕ → Circuit → Option Circuit)
          → let (told, s') = mutate_state kv (suc fuel) others m (kv.get s).1 in
            (replace operation told ≡ some operation)
            × ((stored kv s').circuit ≡ settle (stored kv s).circuit (m fuel))
            × Agrees kv s'
      recorded m =
          let (told, effect, agree) =
            mutate_state_alone kv others m fuel (kv.get s).1 (quiet fuel) got in
          (rw told, effect ∙ ap (λ r. settle r.circuit (m fuel)) same, agree)

  -- On a stored record whose version differs from the row's, `reset` never returns, however many
  -- turns it takes and though no other client interferes.
  pub reset_spins :
      (fuel now : ℕ) (others : ℕ → Store → Store) (s : Store)
      → ((turn : ℕ) → IsQuiet kv (others turn))
      → ¬ Agrees kv s
      → (reset kv fuel now others s).0 ≡ none
  unfolding reset on_reset
  reset_spins fuel now others s quiet differs =
      mutate_state_spins kv others (λ turn. on_reset now) fuel s quiet (λ turn c e. cc) differs
