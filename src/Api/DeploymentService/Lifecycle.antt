-- ===== src/Api/DeploymentService/Lifecycle.antt =====
-- apps/api/deployment-service.ts: which deployment serves after several have finished, in any order, and
-- what a rollback does.
use railfog.Prelude.{
  text_leb_refl, ◌≡◌, refl, ap, sym, ◌∙◌, Bool, true, false, Option, none, some, List, [], ◌∷◌,
  ◌++◌, Text, text_eq_refl, Bool-cases, inl, inr, text_leb, text_leb-total, text_leb_trans,
}
use railfog.Api.DeploymentService.{
  RevisionState, RevisionRecord, DeploymentService, may_activate, get_active_pointer,
  set_active_pointer, save_revision_record, finish_deploy,
}
use railfog.Api.DeploymentService.Pointers.{
  get_active_pointer-set_active_pointer, get_active_pointer-save_revision_record,
}

module _ {M : Type 0} (project function_name : Text) where
  -- The active revision is `base` or a later one.
  abbrev pub AtLeast : (base : Text) → DeploymentService M → Type 0
  AtLeast base s =
      (id : Text) × (get_active_pointer project function_name s ≡ some id)
      × (text_leb base id ≡ true)

  set_found :
      (id : Text) (s : DeploymentService M)
      → get_active_pointer project function_name (set_active_pointer project function_name id s)
        ≡ some id
  set_found id s =
      get_active_pointer-set_active_pointer project function_name project function_name id s
      ∙ rw (text_eq_refl project, text_eq_refl function_name) refl

  saved_pointer :
      (revision : RevisionRecord M) (s : DeploymentService M)
      → get_active_pointer project function_name
          (save_revision_record project function_name revision s)
        ≡ get_active_pointer project function_name s
  saved_pointer revision s =
      get_active_pointer-save_revision_record project function_name project function_name revision s

  finish_deploy-AtLeast :
      (base : Text) (revision : RevisionRecord M) (healthy : Bool) (s : DeploymentService M)
      → AtLeast base s
      → AtLeast base (finish_deploy project function_name revision healthy s).1
  unfolding finish_deploy
  finish_deploy-AtLeast base revision false s (id, at, above) = (id, saved_pointer _ s ∙ at, above)
  finish_deploy-AtLeast base revision true s (id, at, above) =
      let saved =
        save_revision_record project function_name
          (record revision { state = RevisionState.deployed }) s in
      let kept = saved_pointer (record revision { state = RevisionState.deployed }) s ∙ at in
      elim (Bool-cases
        (may_activate (get_active_pointer project function_name saved) revision.id)) [
          | inr older ↦ rw older (id, kept, above)
          | inl newer ↦ rw newer (
            revision.id,
            set_found revision.id saved,
            text_leb_trans base id revision.id above
                (ap (λ o. may_activate o revision.id) (sym kept) ∙ newer),
          )
        ]

  finish_deploy_own :
      (revision : RevisionRecord M) (s : DeploymentService M)
      → AtLeast revision.id (finish_deploy project function_name revision true s).1
  unfolding finish_deploy
  finish_deploy_own revision s =
      let saved =
        save_revision_record project function_name
          (record revision { state = RevisionState.deployed }) s in
      elim (Bool-cases
        (may_activate (get_active_pointer project function_name saved) revision.id)) [
          | inl newer ↦
              rw newer (revision.id, set_found revision.id saved, text_leb_refl revision.id)
          | inr older ↦
              rw older (passed (get_active_pointer project function_name saved) refl older)
        ]
    where
      passed :
          (o : Option Text)
          → get_active_pointer project function_name (
              save_revision_record project function_name
                (record revision { state = RevisionState.deployed })
                s)
            ≡ o
          → may_activate o revision.id ≡ false
          → AtLeast revision.id (
              save_revision_record project function_name
                (record revision { state = RevisionState.deployed })
                s)
      passed none at older = absurd cc
      passed (some id) at older = (id, at, text_leb-total id revision.id older)

  -- Deployments that finish one after the other, healthy or not.
  unfoldable pub finish_all :
      List (RevisionRecord M × Bool) → DeploymentService M → DeploymentService M
  finish_all [] s = s
  finish_all ((revision, healthy) ∷ later) s =
      finish_all later (finish_deploy project function_name revision healthy s).1

  finish_all-AtLeast :
      (base : Text) (later : List (RevisionRecord M × Bool)) (s : DeploymentService M)
      → AtLeast base s
      → AtLeast base (finish_all later s)
  unfolding finish_all
  finish_all-AtLeast base [] s h = h
  finish_all-AtLeast base ((revision, healthy) ∷ later) s h =
      finish_all-AtLeast base later (finish_deploy project function_name revision healthy s).1
        (finish_deploy-AtLeast base revision healthy s h)

  -- However the deployments of a function finish one after the other, the active revision is not below
  -- any of them that is healthy: an older one that finishes later does not take its place.
  pub finish_all_newest :
      (earlier : List (RevisionRecord M × Bool)) (revision : RevisionRecord M)
      (later : List (RevisionRecord M × Bool)) (s : DeploymentService M)
      → (id : Text) × (get_active_pointer project function_name
            (finish_all (earlier ++ (revision, true) ∷ later) s)
          ≡ some id)
        × (text_leb revision.id id ≡ true)
  unfolding finish_all
  finish_all_newest [] revision later s =
      finish_all-AtLeast revision.id later (finish_deploy project function_name revision true s).1
        (finish_deploy_own revision s)
  finish_all_newest ((first, healthy) ∷ earlier) revision later s =
      finish_all_newest earlier revision later
        (finish_deploy project function_name first healthy s).1
