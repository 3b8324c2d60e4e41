-- ===== src/Policy/CircuitBreaker/Stored.antt =====
-- packages/policy/circuit-breaker.ts: the optimistic loop of `mutateState` over the stored record,
-- with other clients of the key between the read and the commit.
use railfog.Prelude.{
  ℕ, zero, suc, ◌<◌, ◌≡◌, refl, sym, ◌∙◌, ap, ◌≢◌, ◌⊎◌, inl, inr, Option, none, some, arith,
  or_default, Option-cases, some-inj,
}
use native.Mathlib.Decide.{ℕ_discrete}
use railfog.KvProvider.{KvKey, Commit, committed, conflict}
use railfog.Policy.CircuitBreaker.{
  Circuit, StateRecord, RawRecord, to_raw, parse_state, get_state, write_back, attempt,
  mutate_state, finish,
}

parse-to_raw : (r : StateRecord) → parse_state (some (to_raw r)) ≡ r
unfolding parse_state to_raw
parse-to_raw r = refl

finish-store {ℓ} : {S : Type ℓ} (r : StateRecord) (p : Commit × S) → (finish r p).1 ≡ p.1
unfolding finish
finish-store r (committed v, s) = refl
finish-store r (conflict, s) = refl

finish-committed {ℓ} :
    {S : Type ℓ} (r : StateRecord) (p : Commit × S) (v : ℕ)
    → p.0 ≡ committed (some v)
    → (finish r p).0 ≡ some (record r { version = v })
unfolding finish
finish-committed r (committed v', s) v e = ground arith
finish-committed r (conflict, s) v e = cc

module _ (kv : KvKey RawRecord) where
  open kv use {Store, read, version}

  abbrev pub stored : Store → StateRecord
  stored s = parse_state (read s)

  -- The version written in the record is the one that the provider keeps for the row.
  abbrev pub Agrees : Store → Type 0
  Agrees s = (stored s).version ≡ version s

  abbrev pub IsQuiet : (Store → Store) → Type 0
  IsQuiet others = (s : Store) → others s ≡ s

  get_state-stored : (s : Store) → (get_state kv s).0 ≡ stored s
  unfolding get_state
  get_state-stored s = rw kv.get_value

  abbrev written : ℕ → Circuit → StateRecord
  written v next = record { circuit = next; version = suc v }

  attempt-stored :
      (others : Store → Store) (mutator : Circuit → Option Circuit) (s : Store)
      → attempt kv others mutator s
        ≡ write_back kv others (stored s) (mutator (stored s).circuit) (kv.get s).1
  unfolding attempt get_state
  attempt-stored others mutator s = rw kv.get_value

  -- How one turn ends: nothing to write, written, or refused.
  data Turn (others : Store → Store) (mutator : Circuit → Option Circuit) (s : Store)
      (r : Option StateRecord × Store) : Type 0 where
    kept :
        mutator (stored s).circuit ≡ none
        → r.0 ≡ some (stored s)
        → stored r.1 ≡ stored s
        → version r.1 ≡ version s
        → Turn others mutator s r
    wrote :
        (next : Circuit)
        → mutator (stored s).circuit ≡ some next
        → version (others (kv.get s).1) ≡ (stored s).version
        → r.0 ≡ some (written (stored s).version next)
        → stored r.1 ≡ written (stored s).version next
        → version r.1 ≡ suc (stored s).version
        → Turn others mutator s r
    refused :
        (next : Circuit)
        → mutator (stored s).circuit ≡ some next
        → version (others (kv.get s).1) ≢ (stored s).version
        → r.0 ≡ none
        → r.1 ≡ others (kv.get s).1
        → Turn others mutator s r

  attempt-Turn :
      (others : Store → Store) (mutator : Circuit → Option Circuit) (s : Store)
      → Turn others mutator s (attempt kv others mutator s)
  unfolding attempt write_back
  attempt-Turn others mutator s = elim (Option-cases (mutator (stored s).circuit)) [
    | inl e ↦
        rw (attempt-stored others mutator s, e)
          (kept e refl (ap parse_state (kv.get_read s)) (kv.get_version s))
    | inr (next, e) ↦
        rw (attempt-stored others mutator s, e)
          (elim (ℕ_discrete (version (others (kv.get s).1)) (stored s).version) [
            | yes same ↦
                wrote next e same (finish-committed _ _ _ (kv.commit_ok _ _ _ same))
                  (ap (λ t. stored t) (finish-store _ _)
                    ∙ (ap parse_state (kv.commit_read _ _ _ same) ∙ parse-to_raw _))
                  (ap version (finish-store _ _) ∙ kv.commit_version _ _ _ same)
            | no differ ↦ rw (kv.commit_conflict _ _ _ differ) (refused next e differ refl refl)
          ])
  ]

  module _ (others : ℕ → Store → Store) (mutator : ℕ → Circuit → Option Circuit) where
    mutate_state-done :
        (f : ℕ) (s : Store) (r : StateRecord)
        → (attempt kv (others f) (mutator f) s).0 ≡ some r
        → mutate_state kv (suc f) others mutator s
          ≡ (some r, (attempt kv (others f) (mutator f) s).1)
    unfolding mutate_state
    mutate_state-done f s r e = rw (e, mutate_state)

    mutate_state-again :
        (f : ℕ) (s : Store)
        → (attempt kv (others f) (mutator f) s).0 ≡ none
        → mutate_state kv (suc f) others mutator s
          ≡ mutate_state kv f others mutator (attempt kv (others f) (mutator f) s).1
    unfolding mutate_state
    mutate_state-again f s e = rw (e, mutate_state)

    pub get-Agrees : (s : Store) → Agrees s → Agrees (kv.get s).1
    get-Agrees s agrees =
        ap (λ r. (parse_state r).version) (kv.get_read s) ∙ (agrees ∙ sym (kv.get_version s))

    get-Agrees_back : (s : Store) → Agrees (kv.get s).1 → Agrees s
    get-Agrees_back s agrees =
        ap (λ r. (parse_state r).version) (sym (kv.get_read s)) ∙ (agrees ∙ kv.get_version s)

    -- The loop returns within `fuel` turns, if the record's version agrees with the row's, other
    -- clients keep it so, and in one of those turns no other client comes between.
    pub mutate_state_returns :
        (fuel quiet_turn : ℕ) (s : Store)
        → quiet_turn < fuel
        → IsQuiet (others quiet_turn)
        → ((turn : ℕ) (t : Store) → Agrees t → Agrees (others turn t))
        → Agrees s
        → (r : StateRecord) × ((mutate_state kv fuel others mutator s).0 ≡ some r)
    mutate_state_returns zero q s lt quiet keeps agrees = absurd (omega arith)
    mutate_state_returns (suc f) q s lt quiet keeps agrees =
        elim (attempt-Turn (others f) (mutator f) s) [
          | kept e done same v ↦ (_, ap (λ p. p.0) (mutate_state-done f s _ done))
          | wrote next e v done same v' ↦ (_, ap (λ p. p.0) (mutate_state-done f s _ done))
          | refused next e differ again same ↦ elim (ℕ_discrete q f) [
            | yes now ↦ absurd (
                differ
                  (ap version (rw (← now) (quiet (kv.get s).1)) ∙ (kv.get_version s ∙ sym agrees)))
            | no later ↦
                let (r, returns) =
                  mutate_state_returns f q (attempt kv (others f) (mutator f) s).1 (omega arith)
                    quiet keeps (rw same (keeps f (kv.get s).1 (get-Agrees s agrees))) in
                (r, ap (λ p. p.0) (mutate_state-again f s again) ∙ returns)
          ]
        ]

    -- The store `t` that the loop has before it in `turn`, if the turns before it were refused.
    abbrev pub Seen : ℕ → Store → ℕ → Store → Type 0
    Seen zero s turn t = ⊥
    Seen (suc f) s turn t = ((turn ≡ f) × (t ≡ s)) ⊎ Seen f (others f (kv.get s).1) turn t

    -- A call that returns took effect at once: in some turn the store that the loop saw held a state
    -- which that turn's mutator maps to the state stored at the end (the same state, where it gives
    -- `null`); the caller is told exactly what is stored; and the record's version agrees with the
    -- row's, if it did when that turn began.
    pub mutate_state_atomic :
        (fuel : ℕ) (s : Store) (r : StateRecord)
        → (mutate_state kv fuel others mutator s).0 ≡ some r
        → (turn : ℕ) × (t : Store) × Seen fuel s turn t
          × (r.circuit ≡ or_default (mutator turn (stored t).circuit) (stored t).circuit)
          × (stored (mutate_state kv fuel others mutator s).1 ≡ r)
          × (Agrees t → Agrees (mutate_state kv fuel others mutator s).1)
    unfolding mutate_state
    mutate_state_atomic zero s r h = cc
    mutate_state_atomic (suc f) s r h = elim (attempt-Turn (others f) (mutator f) s) [
      | kept e done same v ↦
          let ends = mutate_state-done f s _ done in
          let told : stored s ≡ r = some-inj (sym (ap (λ p. p.0) ends) ∙ h) in
          (
            f,
            s,
            inl (refl, refl),
            rw e (ap (λ q. q.circuit) (sym told)),
            ap (λ p. stored p.1) ends ∙ (same ∙ told),
            λ agrees.
                ap (λ p. (stored p.1).version) ends
                ∙ (ap (λ q. q.version) same
                    ∙ (agrees ∙ (sym v ∙ ap (λ p. version p.1) (sym ends)))),
          )
      | wrote next e v done same v' ↦
          let ends = mutate_state-done f s _ done in
          let told : written (stored s).version next ≡ r =
            some-inj (sym (ap (λ p. p.0) ends) ∙ h) in
          (
            f,
            s,
            inl (refl, refl),
            rw e (ap (λ q. q.circuit) (sym told)),
            ap (λ p. stored p.1) ends ∙ (same ∙ told),
            λ agrees.
                ap (λ p. (stored p.1).version) ends
                ∙ (ap (λ q. q.version) same ∙ (sym v' ∙ ap (λ p. version p.1) (sym ends))),
          )
      | refused next e differ again same ↦
          let ends = mutate_state-again f s again ∙ ap (mutate_state kv f others mutator) same in
          let (turn, t, seen, effect, told, agree) =
            mutate_state_atomic f (others f (kv.get s).1) r (sym (ap (λ p. p.0) ends) ∙ h) in
          (
            turn,
            t,
            inr seen,
            effect,
            ap (λ p. stored p.1) ends ∙ told,
            λ agrees.
                ap (λ p. (stored p.1).version) ends
                ∙ (agree agrees ∙ ap (λ p. version p.1) (sym ends)),
          )
    ]

    -- With no one between and agreeing versions one turn is enough.
    pub mutate_state_alone :
        (f : ℕ) (s : Store)
        → IsQuiet (others f)
        → Agrees s
        → let (told, s') = mutate_state kv (suc f) others mutator s in
          (told ≡ some (stored s'))
          × ((stored s').circuit ≡ or_default (mutator f (stored s).circuit) (stored s).circuit)
          × Agrees s'
    mutate_state_alone f s quiet agrees = elim (attempt-Turn (others f) (mutator f) s) [
      | kept e done same v ↦
          rw (mutate_state-done f s _ done, e)
            (
              ap some (sym same),
              ap (λ q. q.circuit) same,
              ap (λ q. q.version) same ∙ (agrees ∙ sym v),
            )
      | wrote next e v done same v' ↦
          rw (mutate_state-done f s _ done, e)
            (ap some (sym same), ap (λ q. q.circuit) same, ap (λ q. q.version) same ∙ sym v')
      | refused next e differ again same ↦
          absurd (differ (ap version (quiet (kv.get s).1) ∙ (kv.get_version s ∙ sym agrees)))
    ]

    -- Where the record's version differs from the row's (a record written without `version`, or by a
    -- plain `set`), a mutation that always writes never returns, though nobody interferes.
    pub mutate_state_spins :
        (fuel : ℕ) (s : Store)
        → ((turn : ℕ) (t : Store) → others turn t ≡ t)
        → ((turn : ℕ) (c : Circuit) → mutator turn c ≢ none)
        → ¬ Agrees s
        → (mutate_state kv fuel others mutator s).0 ≡ none
    unfolding mutate_state
    mutate_state_spins zero s quiet writes differs = refl
    mutate_state_spins (suc f) s quiet writes differs =
        elim (attempt-Turn (others f) (mutator f) s) [
          | kept e done same v ↦ absurd (writes f _ e)
          | wrote next e v done same v' ↦ absurd (
              differs
                (sym (sym (kv.get_version s) ∙ (ap version (sym (quiet f (kv.get s).1)) ∙ v))))
          | refused next e differ again same ↦
              ap (λ p. p.0) (mutate_state-again f s again)
              ∙ mutate_state_spins f (attempt kv (others f) (mutator f) s).1 quiet writes
                  (rw (same, quiet f (kv.get s).1) (λ agrees. differs (get-Agrees_back s agrees)))
        ]
