-- ===== src/Policy/CircuitBreaker/Machine.antt =====
-- packages/policy/circuit-breaker.ts: the state machine that the mutators make, for one caller at a
-- time, and for callers that overlap.
use railfog.Prelude.{
  ℕ, ◌+◌, ◌≤◌, ◌<◌, ◌≡◌, refl, ◌↔◌, Bool, true, false, List, [], ◌∷◌, inl, inr, ◌⊎◌, arith, length,
  map, or_default, Option, if◌then◌else◌, All,
}
use railfog.Policy.CircuitBreaker.{
  CircuitState, Options, Circuit, on_success, on_failure, on_reset, admits,
}

-- The state that a mutator leaves: `null` leaves the state as it was.
abbrev pub settle : Circuit → (Circuit → Option Circuit) → Circuit
settle c mutator = or_default (mutator c) c

-- Calls at these times, all of whose operations fail, or all of whose operations return.
abbrev pub failing : List ℕ → List (ℕ × Bool)
failing = map (λ now. (now, false))

abbrev pub succeeding : List ℕ → List (ℕ × Bool)
succeeding = map (λ now. (now, true))

module _ (o : Options) where
  pub record IsValid (c : Circuit) : Type 0 where
    pub closed_below :
        c.state ≡ CircuitState.closed
        → (c.consecutive_failures < o.failure_threshold) × (c.consecutive_successes ≡ 0)
    pub opened_reached :
        c.state ≡ CircuitState.opened
        → (o.failure_threshold ≤ c.consecutive_failures) × (c.consecutive_successes ≡ 0)
    pub half_open_between :
        c.state ≡ CircuitState.half_open
        → (c.consecutive_failures ≡ 0)
          × (0 < c.consecutive_successes)
          × (c.consecutive_successes < o.half_open_success_threshold)

  -- Whatever state the caller saw before its operation, and whatever the clock says, each of the
  -- three mutators keeps a valid circuit valid, if the failure threshold is at least 1.
  pub mutators-IsValid :
      (before : CircuitState) (now : ℕ) (c : Circuit)
      → 0 < o.failure_threshold
      → IsValid c
      → IsValid (settle c (on_success o before now))
        × IsValid (settle c (on_failure o before now))
        × IsValid (settle c (on_reset now))
  unfolding on_success on_failure on_reset
  mutators-IsValid before now c h v = (ground arith, ground arith, ground arith)

  -- One call of `execute` by a caller who is alone: the time of its guard, the time at which the outcome
  -- is recorded, and whether the operation returns.
  abbrev pub execute_alone_at : Circuit → (now recorded : ℕ) → (returns : Bool) → Circuit
  execute_alone_at c now recorded returns =
      if admits o now c
      then settle c
          (if returns then on_success o c.state recorded else on_failure o c.state recorded)
      else c

  -- The same with an operation that takes no time.
  unfoldable pub execute_alone : Circuit → ℕ × Bool → Circuit
  execute_alone c (now, returns) = execute_alone_at c now now returns

  pub run_alone : Circuit → List (ℕ × Bool) → Circuit
  run_alone c [] = c
  run_alone c (call ∷ calls) = run_alone (execute_alone c call) calls

  opened-failing :
      (c : Circuit) (times : List ℕ)
      → c.state ≡ CircuitState.opened
      → (run_alone c (failing times)).state ≡ CircuitState.opened
  unfolding run_alone execute_alone on_failure admits
  opened-failing c [] h = h
  opened-failing c (t ∷ ts) h = opened-failing (execute_alone c (t, false)) ts (ground arith)

  execute_alone-fail :
      (c : Circuit) (t : ℕ)
      → c.state ≡ CircuitState.closed
      → let c' = execute_alone c (t, false) in
        ((c'.state ≡ CircuitState.opened) × (o.failure_threshold ≤ c.consecutive_failures + 1))
        ⊎ ((c'.state ≡ CircuitState.closed)
            × (c'.consecutive_failures ≡ c.consecutive_failures + 1)
            × (c.consecutive_failures + 1 < o.failure_threshold))
  unfolding execute_alone on_failure admits
  execute_alone-fail c t h = ground arith

  -- A closed circuit is open after a run of failing calls exactly when the failures it had counted
  -- and those of the run reach the threshold, at whatever times they come.
  pub trips_iff :
      (c : Circuit) (times : List ℕ)
      → c.state ≡ CircuitState.closed
      → c.consecutive_failures < o.failure_threshold
      → ((run_alone c (failing times)).state ≡ CircuitState.opened)
        ↔ (o.failure_threshold ≤ c.consecutive_failures + length times)
  unfolding run_alone
  trips_iff c [] h b = (λ e. cc, λ e. absurd (omega arith))
  trips_iff c (t ∷ ts) h b = elim (execute_alone-fail c t h) [
    | inl (now_open, enough) ↦
        (λ _. omega arith, λ _. opened-failing (execute_alone c (t, false)) ts now_open)
    | inr (still, counted, few) ↦
        ground (arith, trips_iff (execute_alone c (t, false)) ts still (omega arith))
  ]

  -- An open circuit refuses every call before its cooldown is over, and stays as it is.
  pub cooling_unchanged :
      (c : Circuit) (calls : List (ℕ × Bool))
      → c.state ≡ CircuitState.opened
      → All (λ call. call.0 < c.last_state_change + o.cooldown_ms) calls
      → run_alone c calls ≡ c
  unfolding run_alone execute_alone admits
  cooling_unchanged c [] h b = refl
  cooling_unchanged c ((now, returns) ∷ calls) h (b, bs) =
      let same : execute_alone c (now, returns) ≡ c = ground arith in
      rw same (cooling_unchanged c calls h bs)

  closed-succeeding :
      (c : Circuit) (times : List ℕ)
      → c.state ≡ CircuitState.closed
      → (run_alone c (succeeding times)).state ≡ CircuitState.closed
  unfolding run_alone execute_alone on_success admits
  closed-succeeding c [] h = h
  closed-succeeding c (t ∷ ts) h = closed-succeeding (execute_alone c (t, true)) ts (ground arith)

  execute_alone-succeed :
      (c : Circuit) (t : ℕ)
      → c.state ≡ CircuitState.half_open
      → let c' = execute_alone c (t, true) in
        ((c'.state ≡ CircuitState.closed)
          × (o.half_open_success_threshold ≤ c.consecutive_successes + 1))
        ⊎ ((c'.state ≡ CircuitState.half_open)
            × (c'.consecutive_successes ≡ c.consecutive_successes + 1)
            × (c.consecutive_successes + 1 < o.half_open_success_threshold))
  unfolding execute_alone on_success admits
  execute_alone-succeed c t h = ground arith

  half_open-succeeding :
      (c : Circuit) (times : List ℕ)
      → c.state ≡ CircuitState.half_open
      → c.consecutive_successes < o.half_open_success_threshold
      → ((run_alone c (succeeding times)).state ≡ CircuitState.closed)
        ↔ (o.half_open_success_threshold ≤ c.consecutive_successes + length times)
  unfolding run_alone
  half_open-succeeding c [] h b = (λ e. cc, λ e. absurd (omega arith))
  half_open-succeeding c (t ∷ ts) h b = elim (execute_alone-succeed c t h) [
    | inl (now_closed, enough) ↦
        (λ _. omega arith, λ _. closed-succeeding (execute_alone c (t, true)) ts now_closed)
    | inr (still, counted, few) ↦
        ground (arith, half_open-succeeding (execute_alone c (t, true)) ts still (omega arith))
  ]

  execute_alone-probe :
      (c : Circuit) (t : ℕ)
      → c.state ≡ CircuitState.opened
      → c.last_state_change + o.cooldown_ms ≤ t
      → let c' = execute_alone c (t, true) in
        ((c'.state ≡ CircuitState.closed) × (o.half_open_success_threshold ≤ 1))
        ⊎ ((c'.state ≡ CircuitState.half_open)
            × (c'.consecutive_successes ≡ 1)
            × (1 < o.half_open_success_threshold))
  unfolding execute_alone on_success admits
  execute_alone-probe c t h cooled = ground arith

  -- Once its cooldown is over, an open circuit is closed by a run of successful calls exactly when
  -- the run is as long as the half-open threshold asks.
  pub recovers_iff :
      (c : Circuit) (now : ℕ) (times : List ℕ)
      → c.state ≡ CircuitState.opened
      → c.last_state_change + o.cooldown_ms ≤ now
      → ((run_alone c (succeeding (now ∷ times))).state ≡ CircuitState.closed)
        ↔ (o.half_open_success_threshold ≤ length (now ∷ times))
  unfolding run_alone
  recovers_iff c now ts h cooled = elim (execute_alone-probe c now h cooled) [
    | inl (now_closed, enough) ↦
        (λ _. omega arith, λ _. closed-succeeding (execute_alone c (now, true)) ts now_closed)
    | inr (half, counted, few) ↦
        ground (arith, half_open-succeeding (execute_alone c (now, true)) ts half (omega arith))
  ]
