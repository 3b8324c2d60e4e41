-- ===== src/Api/DeploymentState/Activation.antt =====
-- apps/api/deployment-service.ts: active pointers lead to deployed records after any calls.
use railfog.Prelude.{
  ◌≡◌, refl, ap, sym, ◌∙◌, Bool, true, false, Option, none, some, List, [], ◌∷◌, Text, text_eq,
  if◌then◌else◌, Bool-cases, inl, inr, ◌⊎◌, find_entry-drop_entry, find_entry, drop_entry,
}
use railfog.Api.DeploymentService.{
  RevisionRecord, DeploymentService, find_in, is_deployed, get_active_pointer, get_revision,
  save_revision_record, set_active_pointer, next_monotonic_timestamp,
}
use railfog.Api.DeploymentService.Pointers.{
  PointsToDeployed, finish_deploy-PointsToDeployed, rollback-PointsToDeployed,
  save-PointsToDeployed, set-PointsToDeployed, saved_found,
}
use railfog.Api.DeploymentState.{
  restore_revision, restore_over, set_project_routes, set_project_metadata, delete_project,
}
use railfog.Api.DeploymentState.Runs.{
  Operation, perform, perform_all, begins, finishes, rolls_back, restores, sets_routes,
  sets_metadata, deletes,
}

find_in-absent :
    {V : Type 0} (absent : Bool) (key : Text) (o : Option (List (Text × V))) (v : V)
    → find_in key (if absent then none else o) ≡ some v
    → (absent ≡ false) × (find_in key o ≡ some v)
find_in-absent true key o v e = absurd (cc)
find_in-absent false key o v e = (refl, e)

find_in-drop_entry :
    {V : Type 0} (project project' key : Text) (m : List (Text × List (Text × V))) (v : V)
    → find_in key (find_entry project' (drop_entry project m)) ≡ some v
    → (text_eq project project' ≡ false) × (find_in key (find_entry project' m) ≡ some v)
find_in-drop_entry project project' key m v e =
    find_in-absent (text_eq project project') key (find_entry project' m) v
      (ap (find_in key) (sym (find_entry-drop_entry project project' m)) ∙ e)

module _ {M : Type 0} where
  delete-PointsToDeployed :
      (project : Text) (s : DeploymentService M)
      → PointsToDeployed s
      → PointsToDeployed (delete_project project s).1
  unfolding delete_project get_active_pointer get_revision
  delete-PointsToDeployed project s sound project' function_name id e =
      let (other, at) = find_in-drop_entry project project' function_name s.active_pointers id e in
      let (revision, found, deployed) = sound project' function_name id at in
      (
        revision,
        ap (λ m. find_in id (find_in function_name m))
              (find_entry-drop_entry project project' s.revisions ∙ rw other refl)
            ∙ found,
        deployed,
      )

  -- What may be restored: a record that is not there yet and is deployed or not activated; or one that
  -- is there, and is deployed or not activated.
  abbrev Restorable : Option (RevisionRecord M) → RevisionRecord M → (is_active : Bool) → Type 0
  Restorable none revision is_active = (is_active ≡ false) ⊎ (is_deployed revision.state ≡ true)
  Restorable (some existing) revision is_active =
      (is_active ≡ false) ⊎ (is_deployed existing.state ≡ true)

  abbrev pub Allowed : Operation M → DeploymentService M → Type 0
  Allowed (finishes project function_name revision healthy) s =
      get_revision project function_name revision.id s ≡ none
  Allowed (restores project function_name revision is_active) s =
      Restorable (get_revision project function_name revision.id s) revision is_active
  Allowed _ s = Unit

  restore_over-PointsToDeployed :
      (project function_name : Text) (revision : RevisionRecord M) (is_active : Bool)
      (o : Option (RevisionRecord M)) (s : DeploymentService M)
      → get_revision project function_name revision.id s ≡ o
      → Restorable o revision is_active
      → PointsToDeployed s
      → PointsToDeployed (restore_over project function_name revision is_active o s).1
  restore_over-PointsToDeployed project function_name revision false none s e h sound =
      save-PointsToDeployed project function_name
        (record revision { project = project; function_name = function_name }) s (inl e) sound
  restore_over-PointsToDeployed project function_name revision true none s e (inl inactive) sound =
      absurd cc
  restore_over-PointsToDeployed project function_name revision true none s e (inr ready) sound =
      let moved = record revision { project = project; function_name = function_name } in
      set-PointsToDeployed project function_name revision.id moved
        (save_revision_record project function_name moved s)
        (saved_found project function_name moved s) ready
        (save-PointsToDeployed project function_name moved s (inl e) sound)
  restore_over-PointsToDeployed project function_name revision is_active (some existing) s e h
        sound =
      elim (Bool-cases (text_eq existing.artifact_id revision.artifact_id)) [
        | inr other ↦ rw other sound
        | inl same ↦ rw same (active is_active h)
      ]
    where
      active :
          (is_active : Bool)
          → (is_active ≡ false) ⊎ (is_deployed existing.state ≡ true)
          → PointsToDeployed
              (if is_active then set_active_pointer project function_name revision.id s else s)
      active false h' = sound
      active true (inl inactive) = absurd cc
      active true (inr ready) =
          set-PointsToDeployed project function_name revision.id existing s e ready sound

  perform-PointsToDeployed :
      (operation : Operation M) (s : DeploymentService M)
      → Allowed operation s
      → PointsToDeployed s
      → PointsToDeployed (perform operation s)
  unfolding get_active_pointer get_revision next_monotonic_timestamp set_project_routes
      set_project_metadata restore_revision
  perform-PointsToDeployed (begins now) s allowed sound = sound
  perform-PointsToDeployed (finishes project function_name revision healthy) s allowed sound =
      finish_deploy-PointsToDeployed project function_name revision healthy s allowed sound
  perform-PointsToDeployed (rolls_back project function_name target) s allowed sound =
      rollback-PointsToDeployed project function_name target s sound
  perform-PointsToDeployed (restores project function_name revision is_active) s allowed sound =
      restore_over-PointsToDeployed project function_name revision is_active
        (get_revision project function_name revision.id s) s refl allowed sound
  perform-PointsToDeployed (sets_routes project routes) s allowed sound = sound
  perform-PointsToDeployed (sets_metadata project meta) s allowed sound = sound
  perform-PointsToDeployed (deletes project) s allowed sound =
      delete-PointsToDeployed project s sound

  -- Each call of a run is allowed where it is made.
  abbrev pub AllAllowed : List (Operation M) → DeploymentService M → Type 0
  AllAllowed [] s = Unit
  AllAllowed (operation ∷ operations) s =
      Allowed operation s × AllAllowed operations (perform operation s)

  -- After any calls, an active pointer leads to a record of its project and function that is deployed,
  -- if each deployment that finishes has an identifier that its function has no record of yet, and
  -- each restored record that is activated is deployed, as given where it is new and as it stands
  -- where it is not.
  pub perform_all-PointsToDeployed :
      (operations : List (Operation M)) (s : DeploymentService M)
      → AllAllowed operations s
      → PointsToDeployed s
      → PointsToDeployed (perform_all operations s)
  unfolding perform_all
  perform_all-PointsToDeployed [] s allowed sound = sound
  perform_all-PointsToDeployed (operation ∷ operations) s (first, rest) sound =
      perform_all-PointsToDeployed operations (perform operation s) rest
        (perform-PointsToDeployed operation s first sound)
