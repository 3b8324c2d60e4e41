-- ===== src/Api/DeploymentState/Examples.antt =====
-- apps/api/deployment-service.ts: runs of calls, and tests.
use railfog.Prelude.{
  min, inr, ◌≡◌, refl, ℕ, true, false, List, [], ◌∷◌, ◌++◌, Text, codes, text_leb, text_eq,
  find_entry, put_entry, arith,
}
use railfog.Errors.{ok}
use railfog.Core.Ulid.{RandomBytes, generate_ulid}
use railfog.Api.DeploymentService.{
  RevisionState, RevisionRecord, PackagedArtifact, get_active_pointer, get_revision, begin_deploy,
  next_monotonic_timestamp, finish_deploy, rollback, set_active_pointer, save_revision_record,
}
use railfog.Api.DeploymentService.Pointers.{PointsToDeployed}
use railfog.Api.DeploymentService.Examples.{record_of}
use railfog.Api.DeploymentState.{
  StateFile, new_service, snapshot_of, hydrate, restore_revision, delete_project, list_projects,
}
use railfog.Api.DeploymentState.Snapshots.{restarted}
use railfog.Api.DeploymentState.Runs.{
  Operation, perform_all, hydrate-perform_all, finishes, rolls_back, restores, deletes,
}
use railfog.Api.DeploymentState.Activation.{AllAllowed, perform_all-PointsToDeployed}
use railfog.Api.DeploymentState.Identifiers.{begin_deploy_ordered}

abbrev deployed_record : RevisionRecord ℕ
deployed_record = record (record_of (codes "rev_9")) { state = RevisionState.deployed }

abbrev operations : List (Operation ℕ)
operations =
    finishes (codes "p") (codes "f") (record_of (codes "rev_1")) true
    ∷ finishes (codes "p") (codes "f") (record_of (codes "rev_2")) false
    ∷ restores (codes "q") (codes "f") deployed_record true
    ∷ rolls_back (codes "p") (codes "f") (codes "rev_1")
    ∷ []

projects_run : list_projects (perform_all operations new_service) ≡ codes "p" ∷ codes "q" ∷ []
unfolding list_projects perform_all get_revision finish_deploy rollback restore_revision
    get_active_pointer save_revision_record set_active_pointer find_entry put_entry text_eq text_leb
projects_run = refl

-- A manifest that JSON text does not keep as it is.
abbrev at_most_nine : ℕ → ℕ
at_most_nine n = min n 9

hydrate-perform_all_example :
    let s = perform_all operations new_service in
    hydrate (StateFile.holds (snapshot_of at_most_nine s)) ≡ restarted at_most_nine s
hydrate-perform_all_example = hydrate-perform_all at_most_nine operations

operations_allowed : AllAllowed operations new_service
unfolding get_revision finish_deploy rollback restore_revision get_active_pointer
    save_revision_record set_active_pointer find_entry put_entry text_eq text_leb
operations_allowed = (refl, (refl, (inr refl, (tt, tt))))

new_points : PointsToDeployed {M = ℕ} new_service
unfolding get_active_pointer find_entry
new_points project function_name id e = absurd cc

perform_all-PointsToDeployed_example : PointsToDeployed (perform_all operations new_service)
perform_all-PointsToDeployed_example =
    perform_all-PointsToDeployed operations new_service operations_allowed new_points

abbrev zeros : RandomBytes
zeros = record { b0 = 0; b1 = 0; b2 = 0; b3 = 0; b4 = 0; b5 = 0; b6 = 0; b7 = 0; b8 = 0; b9 = 0 }

abbrev artifact_id : Text
artifact_id = codes "sha256:0123456789abcdef0123456789abcdef0123456789abcdef0123456789abcdef"

abbrev hash : List ℕ → Text
hash bytes = artifact_id

abbrev artifact : PackagedArtifact ℕ
artifact = record { id = artifact_id; integrity = artifact_id; bytes = []; manifest = 0 }

-- The record that is made at a time.
abbrev made_at : ℕ → Text → RevisionRecord ℕ
made_at t id = record {
  id = id;
  project = codes "p";
  function_name = codes "f";
  artifact_id = artifact_id;
  integrity = artifact_id;
  state = RevisionState.ready;
  created_at = t;
  manifest = 0;
}

-- The clock stands still, and a project is deleted in between.
abbrev first_id : Text
first_id = codes "rev_" ++ generate_ulid 1000 zeros

abbrev second_id : Text
second_id = codes "rev_" ++ generate_ulid 1001 zeros

first_begun :
    (begin_deploy hash hash 1000 zeros (codes "p") (codes "f") artifact new_service).0
    ≡ ok (made_at 1000 first_id)
unfolding begin_deploy next_monotonic_timestamp text_eq
first_begun = refl

second_begun :
    (begin_deploy hash hash 1000 zeros (codes "p") (codes "f") artifact (
      perform_all
        (deletes (codes "q") ∷ [])
        (begin_deploy hash hash 1000 zeros (codes "p") (codes "f") artifact new_service).1)).0
    ≡ ok (made_at 1001 second_id)
unfolding begin_deploy next_monotonic_timestamp text_eq perform_all delete_project
second_begun = refl

begin_deploy_ordered_example : text_leb second_id first_id ≡ false
begin_deploy_ordered_example =
    begin_deploy_ordered hash hash 1000 1000 zeros zeros (codes "p") (codes "f") (codes "p")
      (codes "f") artifact artifact (deletes (codes "q") ∷ []) new_service (made_at 1000 first_id)
      (made_at 1001 second_id) first_begun second_begun (omega arith)
