-- ===== src/Api/DeploymentService/Pointers.antt =====
-- apps/api/deployment-service.ts: what is found after a record is saved or a pointer is set, and that
-- active pointers lead to records that were deployed.
use railfog.Prelude.{
  ◌⊎◌, ◌≡◌, refl, ap, sym, ◌∙◌, Bool, true, false, ◌&&◌, Option, none, some, some-inj, List, [],
  Text, text_eq, text_eq_sound, text_eq_refl, if◌then◌else◌, or_default, find_entry, put_entry,
  find_entry-put_entry, arith, Bool-cases, inl, inr,
}
use railfog.Api.DeploymentService.{
  RevisionState, RevisionRecord, DeploymentService, find_in, is_deployed, may_activate,
  get_active_pointer, set_active_pointer, save_revision_record, get_revision, finish_deploy,
  rollback, roll_back_to,
}

-- Two entries deep.
find_in-or_default :
    {V : Type 0} (key : Text) (m : Option (List (Text × V)))
    → find_entry key (or_default m []) ≡ find_in key m
unfolding find_entry
find_in-or_default key none = refl
find_in-or_default key (some m) = refl

find_in-if :
    {V : Type 0} (same : Bool) (key : Text) (m : List (Text × V)) (o : Option (List (Text × V)))
    → find_in key (if same then some m else o) ≡ (if same then find_entry key m else find_in key o)
find_in-if true key m o = refl
find_in-if false key m o = refl

find_in-put_entry :
    {V : Type 0} (outer inner outer' inner' : Text) (v : V) (m : List (Text × List (Text × V)))
    → find_in inner' (
        find_entry outer'
          (put_entry outer (put_entry inner v (or_default (find_entry outer m) [])) m))
      ≡ (if text_eq outer outer' && text_eq inner inner'
          then some v
          else find_in inner' (find_entry outer' m))
find_in-put_entry outer inner outer' inner' v m = elim (Bool-cases (text_eq outer outer')) [
  | inl same ↦
      rw
        (
          find_entry-put_entry outer outer' (put_entry inner v (or_default (find_entry outer m) []))
              m,
          same,
        )
        (find_entry-put_entry inner inner' v (or_default (find_entry outer m) [])
          ∙ ap (λ o. if text_eq inner inner' then some v else o)
              (find_in-or_default inner' (find_entry outer m)
                ∙ ap (λ k. find_in inner' (find_entry k m)) (text_eq_sound outer outer' same)))
  | inr other ↦
      rw
        (
          find_entry-put_entry outer outer' (put_entry inner v (or_default (find_entry outer m) []))
              m,
          other,
        )
        refl
]

some-ne-none : {A : Type 0} {a : A} → some a ≡ none → ⊥
some-ne-none e = absurd (cc (e))

both : (a b : Bool) → (a && b) ≡ true → (a ≡ true) × (b ≡ true)
both a b e = ground arith

module _ {M : Type 0} where
  -- The pointer that was set is found, and the others as before.
  pub get_active_pointer-set_active_pointer :
      (project function_name project' function_name' id : Text) (s : DeploymentService M)
      → get_active_pointer project' function_name' (set_active_pointer project function_name id s)
        ≡ (if text_eq project project' && text_eq function_name function_name'
            then some id
            else get_active_pointer project' function_name' s)
  unfolding get_active_pointer set_active_pointer
  get_active_pointer-set_active_pointer project function_name project' function_name' id s =
      find_in-put_entry project function_name project' function_name' id s.active_pointers

  pub get_active_pointer-save_revision_record :
      (project function_name project' function_name' : Text) (revision : RevisionRecord M)
      (s : DeploymentService M)
      → get_active_pointer project' function_name'
          (save_revision_record project function_name revision s)
        ≡ get_active_pointer project' function_name' s
  unfolding get_active_pointer save_revision_record
  get_active_pointer-save_revision_record project function_name project' function_name' revision s =
      refl

  pub get_revision-set_active_pointer :
      (project function_name project' function_name' id id' : Text) (s : DeploymentService M)
      → get_revision project' function_name' id' (set_active_pointer project function_name id s)
        ≡ get_revision project' function_name' id' s
  unfolding get_revision set_active_pointer
  get_revision-set_active_pointer project function_name project' function_name' id id' s = refl

  -- The record that was saved is found, and the others as before.
  pub get_revision-save_revision_record :
      (project function_name project' function_name' id' : Text) (revision : RevisionRecord M)
      (s : DeploymentService M)
      → get_revision project' function_name' id'
          (save_revision_record project function_name revision s)
        ≡ (if (text_eq project project' && text_eq function_name function_name')
              && text_eq revision.id id'
            then some revision
            else get_revision project' function_name' id' s)
  unfolding get_revision save_revision_record
  get_revision-save_revision_record project function_name project' function_name' id' revision s =
      elim (Bool-cases (text_eq project project' && text_eq function_name function_name')) [
        | inl same ↦
            rw
              (
                find_in-put_entry project function_name project' function_name' inner s.revisions,
                same,
              )
              (find_entry-put_entry revision.id id' revision
                  (or_default (find_entry function_name fn_map) [])
                ∙ ap (λ o. if text_eq revision.id id' then some revision else o)
                    (find_in-or_default id' (find_entry function_name fn_map)
                      ∙ ap (find_in id') (
                          find_in-or_default function_name (find_entry project s.revisions)
                          ∙ moved same)))
        | inr other ↦
            rw
              (
                find_in-put_entry project function_name project' function_name' inner s.revisions,
                other,
              )
              refl
      ]
    where
      fn_map : List (Text × List (Text × RevisionRecord M))
      fn_map = or_default (find_entry project s.revisions) []

      inner : List (Text × RevisionRecord M)
      inner = put_entry revision.id revision (or_default (find_entry function_name fn_map) [])

      moved :
          (text_eq project project' && text_eq function_name function_name') ≡ true
          → find_in function_name (find_entry project s.revisions)
            ≡ find_in function_name' (find_entry project' s.revisions)
      moved same =
          let (same_project, same_function) =
            both (text_eq project project') (text_eq function_name function_name') same in
          cc (
            text_eq_sound project project' same_project,
            text_eq_sound function_name function_name' same_function,
          )

  -- Each active pointer leads to a record of its project and function that is deployed.
  abbrev pub PointsToDeployed : DeploymentService M → Type 0
  PointsToDeployed s =
      (project function_name id : Text)
      → get_active_pointer project function_name s ≡ some id
      → (revision : RevisionRecord M) × (get_revision project function_name id s ≡ some revision)
        × (is_deployed revision.state ≡ true)

  -- Saving a record whose identifier is new, or that is deployed, keeps it.
  pub save-PointsToDeployed :
      (project function_name : Text) (revision : RevisionRecord M) (s : DeploymentService M)
      → (get_revision project function_name revision.id s ≡ none)
        ⊎ (is_deployed revision.state ≡ true)
      → PointsToDeployed s
      → PointsToDeployed (save_revision_record project function_name revision s)
  save-PointsToDeployed project function_name revision s new sound project' function_name' id e =
      let (found, at, deployed) = sound project' function_name' id (
        sym (
          get_active_pointer-save_revision_record project function_name project' function_name'
            revision s)
        ∙ e) in
      let saved =
        get_revision-save_revision_record project function_name project' function_name' id revision
          s in
      elim (Bool-cases (
        (text_eq project project' && text_eq function_name function_name')
        && text_eq revision.id id)) [
          | inr other ↦ (found, saved ∙ rw other at, deployed)
          | inl same ↦ elim new [
            | inr ready ↦ (revision, saved ∙ rw same refl, ready)
            | inl unused ↦ absurd (clash found at same unused)
          ]
        ]
    where
      clash :
          (found : RevisionRecord M)
          → get_revision project' function_name' id s ≡ some found
          → ((text_eq project project' && text_eq function_name function_name')
              && text_eq revision.id id)
            ≡ true
          → get_revision project function_name revision.id s ≡ none
          → ⊥
      clash found at same unused =
          let (names, same_id) =
            both (text_eq project project' && text_eq function_name function_name')
              (text_eq revision.id id) same in
          let (same_project, same_function) =
            both (text_eq project project') (text_eq function_name function_name') names in
          some-ne-none {A = RevisionRecord M} {a = found} (
            cc (
              text_eq_sound project project' same_project,
              text_eq_sound function_name function_name' same_function,
              text_eq_sound revision.id id same_id,
              at,
              unused,
            ))

  -- So does setting a pointer to a record that is deployed.
  pub set-PointsToDeployed :
      (project function_name id : Text) (revision : RevisionRecord M) (s : DeploymentService M)
      → get_revision project function_name id s ≡ some revision
      → is_deployed revision.state ≡ true
      → PointsToDeployed s
      → PointsToDeployed (set_active_pointer project function_name id s)
  unfolding set_active_pointer get_revision
  set-PointsToDeployed project function_name id revision s at ready sound project' function_name'
        id' e =
      let found =
        get_active_pointer-set_active_pointer project function_name project' function_name' id s in
      elim (Bool-cases (text_eq project project' && text_eq function_name function_name')) [
        | inr other ↦ sound project' function_name' id' (sym (found ∙ rw other refl) ∙ e)
        | inl same ↦ (revision, target same (some-inj (sym (found ∙ rw same refl) ∙ e)), ready)
      ]
    where
      target :
          (text_eq project project' && text_eq function_name function_name') ≡ true
          → id ≡ id'
          → get_revision project' function_name' id' s ≡ some revision
      target same same_id =
          let (same_project, same_function) =
            both (text_eq project project') (text_eq function_name function_name') same in
          cc (
            text_eq_sound project project' same_project,
            text_eq_sound function_name function_name' same_function,
            same_id,
            at,
          )

  pub saved_found :
      (project function_name : Text) (revision : RevisionRecord M) (s : DeploymentService M)
      → get_revision project function_name revision.id
          (save_revision_record project function_name revision s)
        ≡ some revision
  saved_found project function_name revision s =
      get_revision-save_revision_record project function_name project function_name revision.id
        revision s
      ∙ rw (text_eq_refl project, text_eq_refl function_name, text_eq_refl revision.id) refl

  pub finish_deploy-PointsToDeployed :
      (project function_name : Text) (revision : RevisionRecord M) (healthy : Bool)
      (s : DeploymentService M)
      → get_revision project function_name revision.id s ≡ none
      → PointsToDeployed s
      → PointsToDeployed (finish_deploy project function_name revision healthy s).1
  unfolding finish_deploy
  finish_deploy-PointsToDeployed project function_name revision false s new sound =
      save-PointsToDeployed project function_name (record revision { state = RevisionState.failed })
        s (inl new) sound
  finish_deploy-PointsToDeployed project function_name revision true s new sound =
      let deployed = record revision { state = RevisionState.deployed } in
      let saved = save_revision_record project function_name deployed s in
      let kept = save-PointsToDeployed project function_name deployed s (inr refl) sound in
      elim (Bool-cases
        (may_activate (get_active_pointer project function_name saved) revision.id)) [
          | inr older ↦ rw older kept
          | inl newer ↦ rw newer (
              set-PointsToDeployed project function_name revision.id deployed saved
                (saved_found project function_name deployed s) refl kept)
        ]

  pub rollback-PointsToDeployed :
      (project function_name target : Text) (s : DeploymentService M)
      → PointsToDeployed s
      → PointsToDeployed (rollback project function_name target s).1
  unfolding rollback
  rollback-PointsToDeployed project function_name target s sound =
      by_found (get_revision project function_name target s) refl
    where
      by_found :
          (o : Option (RevisionRecord M))
          → get_revision project function_name target s ≡ o
          → PointsToDeployed (roll_back_to project function_name target o s).1
      by_found none e = sound
      by_found (some revision) e = elim (Bool-cases (is_deployed revision.state)) [
        | inl ready ↦
            rw ready (set-PointsToDeployed project function_name target revision s e ready sound)
        | inr other ↦ rw other sound
      ]
