-- ===== src/Errors.antt =====
-- packages/errors/mod.ts: the error taxonomy (PLAT-12), its HTTP statuses, and the result type
-- through which the other modules carry a thrown error. Messages are left out.
use railfog.Prelude.{inr, inl, ◌⊎◌, ap, arith, false, ◌≡◌, refl, ℕ, Bool, if◌then◌else◌}

pub data ErrorCode : Type 0 where
  resource_not_found permission_denied validation_failed rate_limited call_depth_exceeded :
      ErrorCode
  timeout payload_too_large conflict unavailable internal : ErrorCode

status_from_error_code : ErrorCode → ℕ
status_from_error_code ErrorCode.resource_not_found = 404
status_from_error_code ErrorCode.permission_denied = 403
status_from_error_code ErrorCode.validation_failed = 400
status_from_error_code ErrorCode.rate_limited = 429
status_from_error_code ErrorCode.call_depth_exceeded = 429
status_from_error_code ErrorCode.timeout = 504
status_from_error_code ErrorCode.payload_too_large = 413
status_from_error_code ErrorCode.conflict = 409
status_from_error_code ErrorCode.unavailable = 503
status_from_error_code ErrorCode.internal = 500

-- A call either returns or throws an error with its code.
pub data Result {ℓ} (X : Type ℓ) : Type ℓ where
  err : (code : ErrorCode) → Result X
  ok : (value : X) → Result X

-- Statements in sequence: what stands after a throw is not run.
infixl 5 ◌>>◌ ◌>>=◌
abbrev pub ◌>>◌ {κ} : {Y : Type κ} → Result (Unit {0}) → Result Y → Result Y
err code >> rest = err code
ok _ >> rest = rest

abbrev pub ◌>>=◌ {ι κ} : {X : Type ι} {Y : Type κ} → Result X → (X → Result Y) → Result Y
err code >>= rest = err code
ok value >>= rest = rest value

-- `if (bad) throw new E(…)`
abbrev pub throw_if : Bool → ErrorCode → Result (Unit {0})
throw_if bad code = if bad then err code else ok tt

-- What a sequence that returns has passed.
pub then_ok {κ} :
    {Y : Type κ} (first : Result (Unit {0})) (rest : Result Y) (value : Y)
    → (first >> rest) ≡ ok value
    → (first ≡ ok tt) × (rest ≡ ok value)
then_ok (err code) rest value e = absurd cc
then_ok (ok _) rest value e = (refl, e)

pub bind_ok {ι κ} :
    {X : Type ι} {Y : Type κ} (first : Result X) (rest : X → Result Y) (value : Y)
    → (first >>= rest) ≡ ok value
    → (x : X) × (first ≡ ok x) × (rest x ≡ ok value)
bind_ok (err code) rest value e = absurd cc
bind_ok (ok x) rest value e = (x, refl, e)

pub throw_if-ok : (bad : Bool) (code : ErrorCode) → throw_if bad code ≡ ok tt → bad ≡ false
throw_if-ok bad code e = ground arith

value_or {ι} : {X : Type ι} → X → Result X → X
value_or other (err code) = other
value_or other (ok value) = value

pub ok-inj {ι} : {X : Type ι} {x y : X} → ok x ≡ ok y → x ≡ y
unfolding value_or
ok-inj {X} {x} {y} e = ap (value_or x) e

pub Result-cases : (r : Result (Unit {0})) → ((code : ErrorCode) × (r ≡ err code)) ⊎ (r ≡ ok tt)
Result-cases (err code) = inl (code, refl)
Result-cases (ok tt) = inr refl
