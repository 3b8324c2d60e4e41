-- ===== src/Api/DeploymentState/Kept.antt =====
-- apps/api/deployment-service.ts: the maps of a state have distinct keys, records stand under their
-- identifiers, and each call keeps it so.
use railfog.Prelude.{
  All-or_default, text_eq_sound, ◌≡◌, Bool, true, false, Option, none, some, List, [], Text,
  if◌then◌else◌, or_default, find_entry, put_entry, All, DistinctKeys, DistinctKeys-put_entry,
  All-put_entry, DistinctKeys-drop_entry, All-drop_entry, Bool-cases, inl, inr, text_eq,
}
use railfog.Api.DeploymentService.{
  RevisionState, RevisionRecord, DeploymentService, is_deployed, may_activate, set_active_pointer,
  get_active_pointer, save_revision_record, get_revision, finish_deploy, rollback, roll_back_to,
}
use railfog.Api.DeploymentState.{restore_revision, restore_over, delete_project}

module _ {M : Type 0} where
  -- The records of a function, each under its identifier.
  abbrev pub KeptRecords : List (Text × RevisionRecord M) → Type 0
  KeptRecords m = DistinctKeys m × All (λ e. e.0 ≡ e.1.id) m

  abbrev pub KeptFunctions : List (Text × List (Text × RevisionRecord M)) → Type 0
  KeptFunctions m = DistinctKeys m × All (λ e. KeptRecords e.1) m

  pub record IsKept (s : DeploymentService M) : Type 0 where
    pub revisions : DistinctKeys s.revisions × All (λ e. KeptFunctions e.1) s.revisions
    pub pointers : DistinctKeys s.active_pointers × All (λ e. DistinctKeys e.1) s.active_pointers
    pub routes : DistinctKeys s.project_routes
    pub metadata : DistinctKeys s.project_metadata

  put_record :
      (revision : RevisionRecord M) (m : List (Text × RevisionRecord M))
      → KeptRecords m
      → KeptRecords (put_entry revision.id revision m)
  unfolding put_entry
  put_record revision m (u, h) = (
    DistinctKeys-put_entry revision.id revision m u,
    All-put_entry (λ e. e.0 ≡ e.1.id) revision.id revision m
        (λ k same. text_eq_sound k revision.id same) h,
  )

  put_function :
      (function_name : Text) (records : List (Text × RevisionRecord M))
      (m : List (Text × List (Text × RevisionRecord M)))
      → KeptRecords records
      → KeptFunctions m
      → KeptFunctions (put_entry function_name records m)
  put_function function_name records m kept (u, h) = (
    DistinctKeys-put_entry function_name records m u,
    All-put_entry (λ e. KeptRecords e.1) function_name records m (λ k same. kept) h,
  )

  save-IsKept :
      (project function_name : Text) (revision : RevisionRecord M) (s : DeploymentService M)
      → IsKept s
      → IsKept (save_revision_record project function_name revision s)
  unfolding save_revision_record
  save-IsKept project function_name revision s kept =
      let (u, h) = kept.revisions in
      let functions = All-or_default KeptFunctions project s.revisions (tt, tt) h in
      let records =
        All-or_default KeptRecords function_name (or_default (find_entry project s.revisions) [])
          (tt, tt) functions.1 in
      let function_map = or_default (find_entry project s.revisions) [] in
      let record_map = or_default (find_entry function_name function_map) [] in
      let saved =
        put_function function_name (put_entry revision.id revision record_map) function_map
          (put_record revision record_map records) functions in
      record {
        revisions = (
          DistinctKeys-put_entry project _ s.revisions u,
          All-put_entry (λ e. KeptFunctions e.1) project
              (put_entry function_name (put_entry revision.id revision record_map) function_map)
              s.revisions (λ k same. saved) h,
        );
        pointers = kept.pointers;
        routes = kept.routes;
        metadata = kept.metadata;
      }

  set-IsKept :
      (project function_name id : Text) (s : DeploymentService M)
      → IsKept s
      → IsKept (set_active_pointer project function_name id s)
  unfolding set_active_pointer
  set-IsKept project function_name id s kept =
      let (u, h) = kept.pointers in
      let function_map = or_default (find_entry project s.active_pointers) [] in
      let functions = All-or_default (λ m. DistinctKeys m) project s.active_pointers tt h in
      record {
        revisions = kept.revisions;
        pointers = (
          DistinctKeys-put_entry project _ s.active_pointers u,
          All-put_entry (λ e. DistinctKeys e.1) project (put_entry function_name id function_map)
              s.active_pointers
              (λ k same. DistinctKeys-put_entry function_name id function_map functions) h,
        );
        routes = kept.routes;
        metadata = kept.metadata;
      }

  pub finish_deploy-IsKept :
      (project function_name : Text) (revision : RevisionRecord M) (healthy : Bool)
      (s : DeploymentService M)
      → IsKept s
      → IsKept (finish_deploy project function_name revision healthy s).1
  unfolding finish_deploy
  finish_deploy-IsKept project function_name revision false s kept =
      save-IsKept project function_name _ s kept
  finish_deploy-IsKept project function_name revision true s kept =
      let saved =
        save_revision_record project function_name
          (record revision { state = RevisionState.deployed }) s in
      let kept' =
        save-IsKept project function_name (record revision { state = RevisionState.deployed }) s
          kept in
      elim (Bool-cases
        (may_activate (get_active_pointer project function_name saved) revision.id)) [
          | inl newer ↦ rw newer (set-IsKept project function_name revision.id saved kept')
          | inr older ↦ rw older kept'
        ]

  pub rollback-IsKept :
      (project function_name target : Text) (s : DeploymentService M)
      → IsKept s
      → IsKept (rollback project function_name target s).1
  unfolding rollback
  rollback-IsKept project function_name target s kept =
      by_found (get_revision project function_name target s)
    where
      by_found :
          (o : Option (RevisionRecord M)) → IsKept (roll_back_to project function_name target o s).1
      by_found none = kept
      by_found (some revision) = elim (Bool-cases (is_deployed revision.state)) [
        | inl ready ↦ rw ready (set-IsKept project function_name target s kept)
        | inr other ↦ rw other kept
      ]

  pub restore_revision-IsKept :
      (project function_name : Text) (revision : RevisionRecord M) (is_active : Bool)
      (s : DeploymentService M)
      → IsKept s
      → IsKept (restore_revision project function_name revision is_active s).1
  unfolding restore_revision
  restore_revision-IsKept project function_name revision is_active s kept =
      by_found is_active (get_revision project function_name revision.id s)
    where
      activated-kept :
          (active : Bool)
          → IsKept (if active then set_active_pointer project function_name revision.id s else s)
      activated-kept true = set-IsKept project function_name revision.id s kept
      activated-kept false = kept

      by_found :
          (active : Bool) (o : Option (RevisionRecord M))
          → IsKept (restore_over project function_name revision active o s).1
      by_found true none =
          set-IsKept project function_name revision.id _
            (save-IsKept project function_name _ s kept)
      by_found false none = save-IsKept project function_name _ s kept
      by_found active (some existing) =
          elim (Bool-cases (text_eq existing.artifact_id revision.artifact_id)) [
            | inr other ↦ rw other kept
            | inl same ↦ rw same (activated-kept active)
          ]

  pub delete_project-IsKept :
      (project : Text) (s : DeploymentService M) → IsKept s → IsKept (delete_project project s).1
  unfolding delete_project
  delete_project-IsKept project s kept = record {
    revisions = (
      DistinctKeys-drop_entry project s.revisions kept.revisions.0,
      All-drop_entry (λ e. KeptFunctions e.1) project s.revisions kept.revisions.1,
    );
    pointers = (
      DistinctKeys-drop_entry project s.active_pointers kept.pointers.0,
      All-drop_entry (λ e. DistinctKeys e.1) project s.active_pointers kept.pointers.1,
    );
    routes = DistinctKeys-drop_entry project s.project_routes kept.routes;
    metadata = DistinctKeys-drop_entry project s.project_metadata kept.metadata;
  }
