-- ===== src/Api/DeploymentService.antt =====
-- apps/api/deployment-service.ts. A `Map` is the list of its entries, and a manifest is opaque. `deploy`
-- is split where it awaits: `begin_deploy` makes the record, and `finish_deploy` saves it once its probes
-- have answered; other calls may come in between. The file of the snapshot is written without failure, and
-- the hashes of content-address.ts are parameters.
pub mod Pointers
pub mod Lifecycle
pub mod Examples
use railfog.Prelude.{
  ℕ, zero, suc, ◌+◌, Bool, true, false, not, ◌&&◌, ◌||◌, Option, none, some, List, [], ◌∷◌, ◌++◌,
  map, Text, codes, text_eq, text_leb, ◌==◌, ltb, leb, if◌then◌else◌, or_default, length, all, drop,
  find_entry, put_entry, drop_entry, starts_with, is_digit,
}
use railfog.Errors.{Result, ErrorCode, ok, err, ◌>>◌, ◌>>=◌, throw_if}
use railfog.Core.Ulid.{RandomBytes, generate_ulid}
use railfog.Runtime.RouteMatcher.{RouteConfig}

pub data RevisionState : Type 0 where
  created building ready deployed failed suspended : RevisionState

pub record RevisionRecord (M : Type 0) : Type 0 where
  pub id : Text
  pub project : Text
  pub function_name : Text
  pub artifact_id : Text
  pub integrity : Text
  pub state : RevisionState
  pub created_at : ℕ
  pub manifest : M

pub record DeploymentResult : Type 0 where
  pub revision_id : Text
  pub state : RevisionState
  pub active : Bool

pub record PackagedArtifact (M : Type 0) : Type 0 where
  pub id : Text
  pub integrity : Text
  pub bytes : List ℕ
  pub manifest : M

pub record ProjectMetadata : Type 0 where
  pub environment : Option Text
  pub domains : Option (List Text)

pub record DeploymentService (M : Type 0) : Type 0 where
  pub revisions : List (Text × List (Text × List (Text × RevisionRecord M)))
  pub active_pointers : List (Text × List (Text × Text))
  pub project_routes : List (Text × List RouteConfig)
  pub project_metadata : List (Text × ProjectMetadata)
  pub last_timestamp : ℕ

-- `map.get(key)?.…`
abbrev pub find_in : {V : Type 0} → Text → Option (List (Text × V)) → Option V
find_in key none = none
find_in key (some m) = find_entry key m

-- What a probe does: it answers, or throws.
pub data Probe : Type 0 where
  answered : (success : Bool) → Probe
  threw : Probe

abbrev pub succeeds : Probe → Bool
succeeds (Probe.answered success) = success
succeeds Probe.threw = false

abbrev pub required_healthy_probes : ℕ
required_healthy_probes = 3

-- The `for` loop, with the rounds that are left and the number of the next one.
unfoldable pub run_probes : (rounds i : ℕ) → (ℕ → Probe) → Bool
run_probes zero i probe = true
run_probes (suc rounds) i probe =
    let later = run_probes rounds (suc i) probe in if succeeds (probe i) then later else false

pub data HealthCheck : Type 0 where
  -- None was given.
  always : HealthCheck
  probes : (ℕ → Probe) → HealthCheck
  -- What `executeHealthCheck` says of the options.
  executed : (passed : Bool) → HealthCheck

unfoldable pub is_healthy : HealthCheck → Bool
is_healthy HealthCheck.always = run_probes required_healthy_probes 0 (λ _. Probe.answered true)
is_healthy (HealthCheck.probes probe) = run_probes required_healthy_probes 0 probe
is_healthy (HealthCheck.executed passed) = passed

-- `ARTIFACT_ID_REGEX`
abbrev is_lower_hex : ℕ → Bool
is_lower_hex c = is_digit c || (leb b'a' c && leb c b'f')

abbrev pub is_artifact_id : Text → Bool
is_artifact_id id =
    starts_with (codes "sha256:") id && (length id == 71 && all is_lower_hex (drop 7 id))

abbrev pub revision_id_prefix : Text
revision_id_prefix = codes "rev_"

-- `!currentActiveId || currentActiveId <= revisionId`; the empty text is below each.
abbrev pub may_activate : Option Text → (revision_id : Text) → Bool
may_activate none revision_id = true
may_activate (some current_active_id) revision_id = text_leb current_active_id revision_id

abbrev pub is_deployed : RevisionState → Bool
is_deployed RevisionState.deployed = true
is_deployed _ = false

module _ {M : Type 0} where
  unfoldable pub next_monotonic_timestamp :
      (now : ℕ) → DeploymentService M → ℕ × DeploymentService M
  next_monotonic_timestamp now s =
      let t = if leb now s.last_timestamp then suc s.last_timestamp else now in
      (t, record s { last_timestamp = t })

  unfoldable pub get_active_pointer :
      (project function_name : Text) → DeploymentService M → Option Text
  get_active_pointer project function_name s =
      find_in function_name (find_entry project s.active_pointers)

  unfoldable pub set_active_pointer :
      (project function_name revision_id : Text) → DeploymentService M → DeploymentService M
  set_active_pointer project function_name revision_id s =
      let fn_map = or_default (find_entry project s.active_pointers) [] in
      record s {
        active_pointers =
            put_entry project (put_entry function_name revision_id fn_map) s.active_pointers;
      }

  unfoldable pub save_revision_record :
      (project function_name : Text) → RevisionRecord M → DeploymentService M → DeploymentService M
  save_revision_record project function_name revision s =
      let fn_map = or_default (find_entry project s.revisions) [] in
      let rev_map = or_default (find_entry function_name fn_map) [] in
      record s {
        revisions =
            put_entry project
              (put_entry function_name (put_entry revision.id revision rev_map) fn_map) s.revisions;
      }

  unfoldable pub get_revision :
      (project function_name revision_id : Text) → DeploymentService M → Option (RevisionRecord M)
  get_revision project function_name revision_id s =
      find_in revision_id (find_in function_name (find_entry project s.revisions))

  -- The two checks at the beginning of `deploy`, which throw alike.
  abbrev is_refused :
      (compute_artifact_id compute_integrity : List ℕ → Text) → PackagedArtifact M → Bool
  is_refused compute_artifact_id compute_integrity artifact =
      not (is_artifact_id artifact.id)
      || (not (text_eq artifact.id (compute_artifact_id artifact.bytes))
          || not (text_eq artifact.integrity (compute_integrity artifact.bytes)))

  abbrev pub begin_checked :
      (refused : Bool) (now : ℕ)
      → RandomBytes
      → (project function_name : Text) → PackagedArtifact M
      → DeploymentService M
      → Result (RevisionRecord M) × DeploymentService M
  begin_checked true now random project function_name artifact s =
      (err ErrorCode.validation_failed, s)
  begin_checked false now random project function_name artifact s =
      let (created_at, s') = next_monotonic_timestamp now s in
      (
        ok (record {
          id = revision_id_prefix ++ generate_ulid created_at random;
          project = project;
          function_name = function_name;
          artifact_id = artifact.id;
          integrity = artifact.integrity;
          state = RevisionState.ready;
          created_at = created_at;
          manifest = artifact.manifest;
        }),
        s',
      )

  -- `deploy` up to its probes; the record is `Ready` when the artifact is stored.
  unfoldable pub begin_deploy :
      (compute_artifact_id compute_integrity : List ℕ → Text) (now : ℕ)
      → RandomBytes
      → (project function_name : Text) → PackagedArtifact M
      → DeploymentService M
      → Result (RevisionRecord M) × DeploymentService M
  begin_deploy compute_artifact_id compute_integrity now random project function_name artifact s =
      begin_checked (is_refused compute_artifact_id compute_integrity artifact) now random project
        function_name artifact s

  -- The end of `deploy`, where the probes passed or did not.
  unfoldable pub finish_deploy :
      (project function_name : Text)
      → RevisionRecord M
      → (healthy : Bool) → DeploymentService M
      → DeploymentResult × DeploymentService M
  finish_deploy project function_name revision true s =
      let saved =
        save_revision_record project function_name
          (record revision { state = RevisionState.deployed }) s in
      if may_activate (get_active_pointer project function_name saved) revision.id
      then (
        record { revision_id = revision.id; state = RevisionState.deployed; active = true },
        set_active_pointer project function_name revision.id saved,
      )
      else (
        record { revision_id = revision.id; state = RevisionState.deployed; active = false },
        saved,
      )
  finish_deploy project function_name revision false s = (
    record { revision_id = revision.id; state = RevisionState.failed; active = false },
    save_revision_record project function_name (record revision { state = RevisionState.failed }) s,
  )

  -- The end of `rollback`, by the record that was found: the previous and the active identifier.
  abbrev pub roll_back_to :
      (project function_name target_revision_id : Text)
      → Option (RevisionRecord M)
      → DeploymentService M
      → Result (Text × Text) × DeploymentService M
  roll_back_to project function_name target none s = (err ErrorCode.resource_not_found, s)
  roll_back_to project function_name target (some revision) s =
      if is_deployed revision.state
      then (
        ok (or_default (get_active_pointer project function_name s) [], target),
        set_active_pointer project function_name target s,
      )
      else (err ErrorCode.validation_failed, s)

  unfoldable pub rollback :
      (project function_name target_revision_id : Text)
      → DeploymentService M
      → Result (Text × Text) × DeploymentService M
  rollback project function_name target s =
      roll_back_to project function_name target (get_revision project function_name target s) s
