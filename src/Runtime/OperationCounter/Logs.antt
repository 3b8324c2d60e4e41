-- ===== src/Runtime/OperationCounter/Logs.antt =====
-- runtime/limits/operation-counter.ts: the truncation of logs to their budget of bytes.
use railfog.Prelude.{
  ltb→lt, ◌/◌, le→ltb-false, leb→le, ℕ, zero, suc, ◌+◌, ◌-◌, ◌≤◌, ◌<◌, ◌≡◌, refl, ◌∙◌, ap, true,
  false, List, [], ◌∷◌, ◌++◌, Text, arith, ltb, leb, if◌then◌else◌, length, take, Bool-cases, inl,
  inr,
}
use railfog.Runtime.OperationCounter.{
  search_turn, Limits, Tracker, new_tracker, utf8_length, slice_end, search, truncate_to_utf8_bytes,
  log_truncated_marker, append_log,
}

-- What a turn finds fits, if what the next one finds does.
search_turn-fits :
    (again : ℕ → ℕ → ℕ → ℕ) (candidate : Text) (max_bytes low high best : ℕ)
    → ((low' high' best' : ℕ)
        → utf8_length (take best' candidate) ≤ max_bytes
        → utf8_length (take (again low' high' best') candidate) ≤ max_bytes)
    → utf8_length (take best candidate) ≤ max_bytes
    → utf8_length (take (search_turn again candidate max_bytes low high best) candidate) ≤ max_bytes
unfolding search_turn
search_turn-fits again candidate max_bytes low high best later fits =
    elim (Bool-cases (ltb low high)) [
      | inr done ↦ rw done fits
      | inl more ↦ elim (Bool-cases (leb (utf8_length (take end candidate)) max_bytes)) [
        | inl small ↦ rw (more, small) (later (mid + 1) high _ (better small))
        | inr large ↦ rw (more, large) (later low end best fits)
      ]
    ]
  where
    mid : ℕ
    mid = (low + (high - 1)) / 2

    end : ℕ
    end = slice_end candidate mid

    better :
        leb (utf8_length (take end candidate)) max_bytes ≡ true
        → utf8_length (take (if ltb best end then end else best) candidate) ≤ max_bytes
    better small = elim (Bool-cases (ltb best end)) [
      | inl longer ↦ rw longer (leb→le _ _ small)
      | inr shorter ↦ rw shorter fits
    ]

search-fits :
    (fuel : ℕ) (candidate : Text) (max_bytes low high best : ℕ)
    → utf8_length (take best candidate) ≤ max_bytes
    → utf8_length (take (search fuel candidate max_bytes low high best) candidate) ≤ max_bytes
unfolding search
search-fits zero candidate max_bytes low high best fits = fits
search-fits (suc f) candidate max_bytes low high best fits =
    search_turn-fits (λ l h b. search f candidate max_bytes l h b) candidate max_bytes low high best
      (λ l h b. search-fits f candidate max_bytes l h b) fits

slice_end-le : (candidate : Text) (mid : ℕ) → slice_end candidate mid ≤ mid
slice_end-le candidate mid = ground arith

middle :
    (low high : ℕ) → low < high → (low ≤ (low + (high - 1)) / 2) × ((low + (high - 1)) / 2 < high)
middle low high less = (omega (arith, less), omega (arith, less))

-- Two continuations that agree on shorter intervals give the same.
search_turn-agrees :
    (again again' : ℕ → ℕ → ℕ → ℕ) (candidate : Text) (max_bytes low high best : ℕ)
    → ((l h b : ℕ) → h + low < high + l → again l h b ≡ again' l h b)
    → search_turn again candidate max_bytes low high best
      ≡ search_turn again' candidate max_bytes low high best
unfolding search_turn
search_turn-agrees again again' candidate max_bytes low high best same =
    elim (Bool-cases (ltb low high)) [
      | inr done ↦ rw done
      | inl more ↦ elim (Bool-cases (leb (utf8_length (take end candidate)) max_bytes)) [
        | inl small ↦ rw (more, small) (same (mid + 1) high _ (omega (arith, bounds more)))
        | inr large ↦
            rw (more, large)
              (same low end best (omega (arith, bounds more, slice_end-le candidate mid)))
      ]
    ]
  where
    mid : ℕ
    mid = (low + (high - 1)) / 2

    end : ℕ
    end = slice_end candidate mid

    bounds : ltb low high ≡ true → (low ≤ mid) × (mid < high)
    bounds more = middle low high (ltb→lt low high more)

-- More turns than the interval has members change nothing.
search-enough :
    (fuel : ℕ) (candidate : Text) (max_bytes low high best : ℕ)
    → high ≤ low + fuel
    → search (suc fuel) candidate max_bytes low high best
      ≡ search fuel candidate max_bytes low high best
unfolding search search_turn
search-enough zero candidate max_bytes low high best enough =
    rw (le→ltb-false low high (omega (arith, enough)))
search-enough (suc f) candidate max_bytes low high best enough =
    search_turn-agrees (λ l h b. search (suc f) candidate max_bytes l h b)
      (λ l h b. search f candidate max_bytes l h b) candidate max_bytes low high best
      (λ l h b shorter. search-enough f candidate max_bytes l h b (omega (arith, enough, shorter)))

truncated-fits :
    (str : Text) (max_bytes : ℕ) → utf8_length (truncate_to_utf8_bytes str max_bytes) ≤ max_bytes
unfolding truncate_to_utf8_bytes utf8_length
truncated-fits str zero = omega arith
truncated-fits str (suc n) = elim (Bool-cases (leb (utf8_length (take (suc n) str)) (suc n))) [
  | inl small ↦ rw small (leb→le _ _ small)
  | inr large ↦ rw large (
      search-fits (suc (suc (length (take (suc n) str)))) (take (suc n) str) (suc n) 0
        (suc (length (take (suc n) str))) 0 (omega arith))
]

-- The bytes of the outputs of these chunks.
pub bytes_logged : Limits → List Text → Tracker → ℕ
bytes_logged limits [] t = 0
bytes_logged limits (chunk ∷ chunks) t =
    let (result, t') = append_log limits chunk t in
    utf8_length result.output + bytes_logged limits chunks t'

utf8_length-marked : (cs : Text) → utf8_length (cs ++ log_truncated_marker) ≡ utf8_length cs + 15
unfolding utf8_length
utf8_length-marked [] = refl
utf8_length-marked (c ∷ []) = omega arith
utf8_length-marked (c ∷ d ∷ cs) = omega (arith, utf8_length-marked (d ∷ cs))

append_log-bounded :
    (limits : Limits) (chunk : Text) (t : Tracker)
    → t.current_log_bytes ≤ limits.max_log_bytes
    → t.log_truncated ≡ false
    → let (result, t') = append_log limits chunk t in
      (t'.current_log_bytes ≤ limits.max_log_bytes)
      × (utf8_length result.output + t.current_log_bytes
          ≤ t'.current_log_bytes + (if t'.log_truncated then 15 else 0))
unfolding append_log
append_log-bounded limits chunk t within whole =
    elim (Bool-cases (leb (t.current_log_bytes + utf8_length chunk) limits.max_log_bytes)) [
      | inl fits ↦ rw (whole, fits, append_log) (leb→le _ _ fits, omega arith)
      | inr crosses ↦
          rw (whole, crosses, append_log)
            (
              omega arith,
              omega (
                arith,
                within,
                utf8_length-marked
                    (truncate_to_utf8_bytes chunk (limits.max_log_bytes - t.current_log_bytes)),
                truncated-fits chunk (limits.max_log_bytes - t.current_log_bytes),
              ),
            )
    ]

append_log-silent :
    (limits : Limits) (chunk : Text) (t : Tracker)
    → t.log_truncated ≡ true
    → append_log limits chunk t ≡ (record { output = []; truncated = true }, t)
unfolding append_log
append_log-silent limits chunk t cut = ground arith

silent :
    (limits : Limits) (chunks : List Text) (t : Tracker)
    → t.log_truncated ≡ true
    → bytes_logged limits chunks t ≡ 0
unfolding bytes_logged utf8_length
silent limits [] t cut = refl
silent limits (chunk ∷ chunks) t cut =
    ap (λ a. utf8_length a.0.output + bytes_logged limits chunks a.1)
      (append_log-silent limits chunk t cut)
    ∙ ground (arith, silent limits chunks t cut)

logged_from :
    (limits : Limits) (chunks : List Text) (t : Tracker)
    → t.current_log_bytes ≤ limits.max_log_bytes
    → t.log_truncated ≡ false
    → bytes_logged limits chunks t + t.current_log_bytes ≤ limits.max_log_bytes + 15
unfolding bytes_logged
logged_from limits [] t within whole = omega (arith, within)
logged_from limits (chunk ∷ chunks) t within whole =
    let (within', grows) = append_log-bounded limits chunk t within whole in
    elim (Bool-cases (append_log limits chunk t).1.log_truncated) [
      | inl cut ↦ ground (arith, silent limits chunks (append_log limits chunk t).1 cut)
      | inr on ↦ ground (arith, logged_from limits chunks (append_log limits chunk t).1 within' on)
    ]

-- However many and long the chunks are that an invocation logs, their outputs together take up at
-- most the limit and the 15 bytes of one marker, in UTF-8.
pub log_bounded :
    (limits : Limits) (chunks : List Text)
    → bytes_logged limits chunks new_tracker ≤ limits.max_log_bytes + 15
log_bounded limits chunks = omega (arith, logged_from limits chunks new_tracker (omega arith) refl)
