-- ===== src/Runtime/KillEnforcer/Examples.antt =====
-- runtime/limits/kill-enforcer.ts: the theorems at concrete streams, and tests by evaluation.
use railfog.Prelude.{◌≡◌, refl, true, none, some, [], ◌∷◌, codes}
use railfog.Errors.{ErrorCode, err}
use railfog.Runtime.KillEnforcer.{
  Given, Enforcer, new_enforcer, Body, validate_request_body, check_cpu_limit,
}
use railfog.Runtime.KillEnforcer.Bodies.{chunks_of, declares, validate_request_body-exact}

abbrev small : Enforcer
small = record {
  timeout_ms = 30_000;
  cpu_ms = 200;
  max_request_body_bytes = 3;
  max_response_body_bytes = 3;
  max_streamed_bytes = 3;
}

no_timeout :
    new_enforcer (record {
      timeout_ms = Given.whole 0;
      cpu_ms = Given.whole 200;
      max_request_body_bytes = none;
      max_response_body_bytes = none;
      max_streamed_bytes = none;
    })
    ≡ err ErrorCode.validation_failed
unfolding new_enforcer
no_timeout = refl

cpu_spent : check_cpu_limit small (Given.whole 200) ≡ err ErrorCode.timeout
unfolding check_cpu_limit
cpu_spent = refl

validate_request_body-exact_example :
    validate_request_body small
      (declares (some 2))
      (some (chunks_of (codes "ab" ∷ codes "cd" ∷ [])))
    ≡ Body.rejected ErrorCode.payload_too_large true
validate_request_body-exact_example =
    validate_request_body-exact small (some 2) (codes "ab" ∷ codes "cd" ∷ [])
