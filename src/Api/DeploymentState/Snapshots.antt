-- ===== src/Api/DeploymentState/Snapshots.antt =====
-- apps/api/deployment-service.ts: the snapshot of a state is read back.
use railfog.Prelude.{
  map_same, map_onto, map_values, DistinctKeys-map_values, ◌≡◌, refl, ap, ◌∙◌, List, [], Text, map,
  put_all, put_all-entries, All-mono, sym,
}
use railfog.Api.DeploymentService.{RevisionRecord, DeploymentService}
use railfog.Api.DeploymentState.{
  StateFile, snapshot_of, hydrate, by_id, outer_of, as_stored_record, written_records,
  written_project, read_project, read_pointers,
}
use railfog.Api.DeploymentState.Kept.{KeptRecords, KeptFunctions, IsKept}

module _ {M : Type 0} (as_json : M → M) where
  -- Each record with its manifest as JSON text keeps it.
  abbrev pub as_stored_functions :
      List (Text × List (Text × RevisionRecord M)) → List (Text × List (Text × RevisionRecord M))
  as_stored_functions fn_map = map_values (map_values (as_stored_record as_json)) fn_map

  -- The state that a restart has of a state: the manifests as JSON text keeps them, and no timestamp.
  abbrev pub restarted : DeploymentService M → DeploymentService M
  restarted s = record s {
    revisions = map_values as_stored_functions s.revisions;
    last_timestamp = 0;
  }

  by_id-written :
      (m : List (Text × RevisionRecord M))
      → KeptRecords m
      → by_id (written_records as_json m) ≡ map_values (as_stored_record as_json) m
  by_id-written m (u, keyed) =
      ap (put_all []) (
        map_onto (λ r. (r.id, r)) (λ e. as_stored_record as_json e.1)
          (λ e. (e.0, as_stored_record as_json e.1)) m
          (All-mono (λ e same. ap (λ k. (k, as_stored_record as_json e.1)) (sym same)) m keyed))
      ∙ put_all-entries (map_values (as_stored_record as_json) m)
          (DistinctKeys-map_values (as_stored_record as_json) m u)

  outer_of-written :
      (m : List (Text × List (Text × RevisionRecord M)))
      → KeptFunctions m
      → outer_of (map (λ fn. (fn.0, written_records as_json fn.1)) m) ≡ as_stored_functions m
  outer_of-written m (u, kept) =
      ap (put_all []) (
        map_onto (λ fn. (fn.0, by_id fn.1)) (λ fn. (fn.0, written_records as_json fn.1))
          (λ fn. (fn.0, map_values (as_stored_record as_json) fn.1)) m
          (All-mono (λ e h. ap (λ r. (e.0, r)) (by_id-written e.1 h)) m kept))
      ∙ put_all-entries (as_stored_functions m)
          (DistinctKeys-map_values (map_values (as_stored_record as_json)) m u)

  pub hydrate-snapshot_of :
      (s : DeploymentService M)
      → IsKept s
      → hydrate (StateFile.holds (snapshot_of as_json s)) ≡ restarted s
  unfolding hydrate snapshot_of
  hydrate-snapshot_of s kept =
      rw
        (
          projects,
          pointers,
          put_all-entries s.project_routes kept.routes,
          put_all-entries s.project_metadata kept.metadata,
        )
        refl
    where
      projects :
          put_all [] (map read_project (map (written_project as_json) s.revisions))
          ≡ map_values as_stored_functions s.revisions
      projects =
          ap (put_all []) (
            map_onto read_project (written_project as_json) (λ e. (e.0, as_stored_functions e.1))
              s.revisions
              (All-mono (λ e h. ap (λ r. (e.0, r)) (outer_of-written e.1 h)) s.revisions
                kept.revisions.1))
          ∙ put_all-entries (map_values as_stored_functions s.revisions)
              (DistinctKeys-map_values as_stored_functions s.revisions kept.revisions.0)

      pointers : put_all [] (map read_pointers s.active_pointers) ≡ s.active_pointers
      pointers =
          ap (put_all []) (
            map_same read_pointers s.active_pointers (
              All-mono (λ e h. ap (λ r. (e.0, r)) (put_all-entries e.1 h)) s.active_pointers
                kept.pointers.1))
          ∙ put_all-entries s.active_pointers kept.pointers.0
