-- ===== src/Api/DeploymentService/Examples.antt =====
-- apps/api/deployment-service.ts: deployments that finish, at concrete records, and tests.
use railfog.Prelude.{
  zero, suc, ◌≡◌, refl, ℕ, true, false, some, [], ◌∷◌, ◌++◌, Text, codes, text_leb, text_eq,
  find_entry, put_entry,
}
use railfog.Errors.{ErrorCode, err}
use railfog.Api.DeploymentService.{
  RevisionState, RevisionRecord, DeploymentService, HealthCheck, Probe, is_healthy, run_probes,
  get_active_pointer, finish_deploy, rollback, set_active_pointer, save_revision_record,
  get_revision,
}
use railfog.Api.DeploymentService.Lifecycle.{finish_all, finish_all_newest}

abbrev pub record_of : Text → RevisionRecord ℕ
record_of id = record {
  id = id;
  project = codes "p";
  function_name = codes "f";
  artifact_id = codes "sha256:0";
  integrity = codes "sha256-0";
  state = RevisionState.ready;
  created_at = 1;
  manifest = 0;
}

abbrev empty : DeploymentService ℕ
empty = record {
  revisions = [];
  active_pointers = [];
  project_routes = [];
  project_metadata = [];
  last_timestamp = 0;
}

-- The third probe throws.
abbrev flaky : ℕ → Probe
flaky zero = Probe.answered true
flaky (suc zero) = Probe.answered true
flaky n = Probe.threw

probe_runs :
    (is_healthy HealthCheck.always ≡ true) × (is_healthy (HealthCheck.probes flaky) ≡ false)
unfolding is_healthy run_probes
probe_runs = (refl, refl)

-- The newer deployment finishes first, and keeps the traffic.
late_run :
    get_active_pointer (codes "p") (codes "f") (
      finish_all
        (codes "p")
        (codes "f")
        ((record_of (codes "rev_2"), true) ∷ (record_of (codes "rev_1"), true) ∷ [])
        empty)
    ≡ some (codes "rev_2")
unfolding get_active_pointer finish_all finish_deploy save_revision_record set_active_pointer
    find_entry put_entry text_eq text_leb
late_run = refl

-- A failed revision is no target of a rollback.
failed_run :
    (rollback
      (codes "p")
      (codes "f")
      (codes "rev_1")
      (finish_deploy (codes "p") (codes "f") (record_of (codes "rev_1")) false empty).1).0
    ≡ err ErrorCode.validation_failed
unfolding rollback get_revision finish_deploy save_revision_record find_entry put_entry text_eq
failed_run = refl

finish_all_newest_example :
    (id : Text) × (get_active_pointer (codes "p") (codes "f") (
        finish_all
          (codes "p")
          (codes "f")
          (((record_of (codes "rev_3"), false) ∷ [])
            ++ (record_of (codes "rev_2"), true) ∷ (record_of (codes "rev_1"), true) ∷ [])
          empty)
      ≡ some id)
    × (text_leb (codes "rev_2") id ≡ true)
finish_all_newest_example =
    finish_all_newest (codes "p") (codes "f") ((record_of (codes "rev_3"), false) ∷ [])
      (record_of (codes "rev_2")) ((record_of (codes "rev_1"), true) ∷ []) empty
