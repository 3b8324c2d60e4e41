-- ===== src/Api/DeploymentState/Identifiers.antt =====
-- apps/api/deployment-service.ts with packages/core/id/ulid.ts: the identifiers of deployments that
-- begin one after the other, with any calls in between.
use railfog.Prelude.{
  ℕ, ◌^◌, ◌≤◌, ◌<◌, ◌≡◌, refl, subst, Bool, true, false, Option, none, some, List, [], ◌∷◌, ◌++◌,
  Text, text_eq, text_leb, if◌then◌else◌, Bool-cases, inl, inr, arith,
}
use railfog.Errors.{ok, ok-inj}
use railfog.Core.Ulid.{RandomBytes, generate_ulid}
use railfog.Core.Ulid.Order.{generate_ulid_ordered}
use railfog.Api.DeploymentService.{
  begin_checked, RevisionState, RevisionRecord, DeploymentService, PackagedArtifact, is_deployed,
  may_activate, get_active_pointer, save_revision_record, set_active_pointer, begin_deploy,
  next_monotonic_timestamp, finish_deploy, rollback, roll_back_to, revision_id_prefix,
}
use railfog.Api.DeploymentState.{
  restore_revision, restore_over, set_project_routes, set_project_metadata, delete_project,
}
use railfog.Api.DeploymentState.Runs.{
  Operation, perform, perform_all, begins, finishes, rolls_back, restores, sets_routes,
  sets_metadata, deletes,
}

module _ {M : Type 0} where
  finish_deploy-last :
      (project function_name : Text) (revision : RevisionRecord M) (healthy : Bool)
      (s : DeploymentService M)
      → s.last_timestamp ≤ (finish_deploy project function_name revision healthy s).1.last_timestamp
  unfolding finish_deploy save_revision_record set_active_pointer
  finish_deploy-last project function_name revision false s = omega arith
  finish_deploy-last project function_name revision true s =
      elim (Bool-cases (
        may_activate
          (get_active_pointer project function_name (
            save_revision_record project function_name
              (record revision { state = RevisionState.deployed }) s))
          revision.id)) [ inl newer ↦ rw newer (omega arith) | inr older ↦ rw older (omega arith) ]

  roll_back_to-last :
      (project function_name target : Text) (o : Option (RevisionRecord M))
      (s : DeploymentService M)
      → s.last_timestamp ≤ (roll_back_to project function_name target o s).1.last_timestamp
  unfolding set_active_pointer
  roll_back_to-last project function_name target none s = omega arith
  roll_back_to-last project function_name target (some revision) s =
      elim (Bool-cases (is_deployed revision.state)) [
        | inl ready ↦ rw ready (omega arith)
        | inr other ↦ rw other (omega arith)
      ]

  restore_over-last :
      (project function_name : Text) (revision : RevisionRecord M) (is_active : Bool)
      (o : Option (RevisionRecord M)) (s : DeploymentService M)
      → s.last_timestamp
        ≤ (restore_over project function_name revision is_active o s).1.last_timestamp
  unfolding set_active_pointer save_revision_record
  restore_over-last project function_name revision true none s = omega arith
  restore_over-last project function_name revision false none s = omega arith
  restore_over-last project function_name revision is_active (some existing) s =
      elim (Bool-cases (text_eq existing.artifact_id revision.artifact_id)) [
        | inr other ↦ rw other (omega arith)
        | inl same ↦ rw same (active is_active)
      ]
    where
      active :
          (is_active : Bool)
          → s.last_timestamp
            ≤ (if is_active
                then set_active_pointer project function_name revision.id s
                else s).last_timestamp
      active true = omega arith
      active false = omega arith

  -- No call takes the clock of the identifiers back.
  perform-last :
      (operation : Operation M) (s : DeploymentService M)
      → s.last_timestamp ≤ (perform operation s).last_timestamp
  unfolding next_monotonic_timestamp set_project_routes set_project_metadata restore_revision
      rollback delete_project
  perform-last (begins now) s = ground arith
  perform-last (finishes project function_name revision healthy) s =
      finish_deploy-last project function_name revision healthy s
  perform-last (rolls_back project function_name target) s =
      roll_back_to-last project function_name target _ s
  perform-last (restores project function_name revision is_active) s =
      restore_over-last project function_name revision is_active _ s
  perform-last (sets_routes project routes) s = omega arith
  perform-last (sets_metadata project meta) s = omega arith
  perform-last (deletes project) s = omega arith

  perform_all-last :
      (operations : List (Operation M)) (s : DeploymentService M)
      → s.last_timestamp ≤ (perform_all operations s).last_timestamp
  unfolding perform_all
  perform_all-last [] s = omega arith
  perform_all-last (operation ∷ operations) s =
      omega (arith, perform-last operation s, perform_all-last operations (perform operation s))

  begin_checked-begun :
      (refused : Bool) (now : ℕ) (random : RandomBytes) (project function_name : Text)
      (artifact : PackagedArtifact M) (s : DeploymentService M) (revision : RevisionRecord M)
      → (begin_checked refused now random project function_name artifact s).0 ≡ ok revision
      → (s.last_timestamp < revision.created_at)
        × ((begin_checked refused now random project function_name artifact s).1.last_timestamp
            ≡ revision.created_at)
        × (revision.id ≡ revision_id_prefix ++ generate_ulid revision.created_at random)
  unfolding next_monotonic_timestamp
  begin_checked-begun true now random project function_name artifact s revision e = absurd cc
  begin_checked-begun false now random project function_name artifact s revision e =
      subst
        (λ r.
          (s.last_timestamp < r.created_at)
          × ((begin_checked false now random project function_name artifact s).1.last_timestamp
              ≡ r.created_at)
          × (r.id ≡ revision_id_prefix ++ generate_ulid r.created_at random))
        (ok-inj e) (ground arith, refl, refl)

  module _ (compute_artifact_id compute_integrity : List ℕ → Text) (now now' : ℕ)
      (random random' : RandomBytes) (project function_name project' function_name' : Text)
      (artifact artifact' : PackagedArtifact M) where
    -- A deployment that begins after another, whatever calls are made in between and whatever the clock
    -- and the random bytes say, has a greater identifier, if its time is below 2 ^ 50 milliseconds.
    pub begin_deploy_ordered :
        (operations : List (Operation M)) (s : DeploymentService M)
        (revision revision' : RevisionRecord M)
        → (begin_deploy compute_artifact_id compute_integrity now random project function_name
            artifact s).0
          ≡ ok revision
        → (begin_deploy compute_artifact_id compute_integrity now' random' project' function_name'
            artifact'
            (perform_all operations
              (begin_deploy compute_artifact_id compute_integrity now random project function_name
                artifact s).1)).0
          ≡ ok revision'
        → revision'.created_at < 2 ^ 50
        → text_leb revision'.id revision.id ≡ false
    unfolding begin_deploy text_leb
    begin_deploy_ordered operations s revision revision' e e' fits =
        let first =
          (begin_deploy compute_artifact_id compute_integrity now random project function_name
            artifact s).1 in
        let (_, last, id) =
          begin_checked-begun _ now random project function_name artifact s revision e in
        let (later, _, id') =
          begin_checked-begun _ now' random' project' function_name' artifact'
            (perform_all operations first) revision' e' in
        rw (id, id')
          (generate_ulid_ordered revision.created_at revision'.created_at random random'
            (omega (arith, last, later, perform_all-last operations first)) fits)
