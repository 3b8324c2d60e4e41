-- ===== src/Api/DeploymentState/Runs.antt =====
-- apps/api/deployment-service.ts: runs of calls from the state of the constructor.
use railfog.Prelude.{DistinctKeys-put_entry, ℕ, ◌≡◌, Bool, List, [], ◌∷◌, Text}
use railfog.Runtime.RouteMatcher.{RouteConfig}
use railfog.Api.DeploymentService.{
  RevisionRecord, ProjectMetadata, DeploymentService, next_monotonic_timestamp, finish_deploy,
  rollback,
}
use railfog.Api.DeploymentState.{
  restore_revision, set_project_routes, set_project_metadata, delete_project, snapshot_of, hydrate,
  new_service, StateFile, new_service, StateFile,
}
use railfog.Api.DeploymentState.Kept.{
  IsKept, finish_deploy-IsKept, rollback-IsKept, restore_revision-IsKept, delete_project-IsKept,
}
use railfog.Api.DeploymentState.Snapshots.{hydrate-snapshot_of, restarted}

-- The calls that change the state; a deployment begins and, later, finishes.
pub data Operation (M : Type 0) : Type 0 where
  begins : (now : ℕ) → Operation M
  finishes : (project function_name : Text) → RevisionRecord M → (healthy : Bool) → Operation M
  rolls_back : (project function_name target_revision_id : Text) → Operation M
  restores : (project function_name : Text) → RevisionRecord M → (is_active : Bool) → Operation M
  sets_routes : (project : Text) → List RouteConfig → Operation M
  sets_metadata : (project : Text) → ProjectMetadata → Operation M
  deletes : (project : Text) → Operation M

module _ {M : Type 0} where
  abbrev pub perform : Operation M → DeploymentService M → DeploymentService M
  perform (begins now) s = (next_monotonic_timestamp now s).1
  perform (finishes project function_name revision healthy) s =
      (finish_deploy project function_name revision healthy s).1
  perform (rolls_back project function_name target) s = (rollback project function_name target s).1
  perform (restores project function_name revision is_active) s =
      (restore_revision project function_name revision is_active s).1
  perform (sets_routes project routes) s = set_project_routes project routes s
  perform (sets_metadata project meta) s = set_project_metadata project meta s
  perform (deletes project) s = (delete_project project s).1

  unfoldable pub perform_all : List (Operation M) → DeploymentService M → DeploymentService M
  perform_all [] s = s
  perform_all (operation ∷ operations) s = perform_all operations (perform operation s)

  perform-IsKept :
      (operation : Operation M) (s : DeploymentService M) → IsKept s → IsKept (perform operation s)
  unfolding next_monotonic_timestamp set_project_routes set_project_metadata
  perform-IsKept (begins now) s kept = record {
    revisions = kept.revisions;
    pointers = kept.pointers;
    routes = kept.routes;
    metadata = kept.metadata;
  }
  perform-IsKept (finishes project function_name revision healthy) s kept =
      finish_deploy-IsKept project function_name revision healthy s kept
  perform-IsKept (rolls_back project function_name target) s kept =
      rollback-IsKept project function_name target s kept
  perform-IsKept (restores project function_name revision is_active) s kept =
      restore_revision-IsKept project function_name revision is_active s kept
  perform-IsKept (sets_routes project routes) s kept = record {
    revisions = kept.revisions;
    pointers = kept.pointers;
    routes = DistinctKeys-put_entry project routes s.project_routes kept.routes;
    metadata = kept.metadata;
  }
  perform-IsKept (sets_metadata project meta) s kept = record {
    revisions = kept.revisions;
    pointers = kept.pointers;
    routes = kept.routes;
    metadata = DistinctKeys-put_entry project meta s.project_metadata kept.metadata;
  }
  perform-IsKept (deletes project) s kept = delete_project-IsKept project s kept

  perform_all-IsKept :
      (operations : List (Operation M)) (s : DeploymentService M)
      → IsKept s
      → IsKept (perform_all operations s)
  unfolding perform_all
  perform_all-IsKept [] s kept = kept
  perform_all-IsKept (operation ∷ operations) s kept =
      perform_all-IsKept operations (perform operation s) (perform-IsKept operation s kept)

  -- The text that `schedulePersist` writes of the state after any calls, when it writes it, is read by
  -- `hydrate` as that state: each record, pointer, route and metadata is the same, but that the
  -- manifests are what JSON text keeps of them, and that the last timestamp begins at 0 again.
  pub hydrate-perform_all :
      (as_json : M → M) (operations : List (Operation M))
      → let s = perform_all operations new_service in
        hydrate (StateFile.holds (snapshot_of as_json s)) ≡ restarted as_json s
  hydrate-perform_all as_json operations =
      hydrate-snapshot_of as_json (perform_all operations new_service) (
        perform_all-IsKept operations new_service
          (record { revisions = (tt, tt); pointers = (tt, tt); routes = tt; metadata = tt }))
