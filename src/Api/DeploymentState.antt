-- ===== src/Api/DeploymentState.antt =====
-- apps/api/deployment-service.ts: restoring a record, the projects' routes and metadata, the listings,
-- deleting a project, and the snapshot of the state that is written to a file and read from it.
pub mod Kept
pub mod Runs
pub mod Activation
pub mod Identifiers
pub mod Snapshots
pub mod Examples
use railfog.Prelude.{
  Bool, true, false, ◌||◌, Option, none, some, List, [], ◌∷◌, ◌++◌, map, Text, text_eq, text_leb,
  if◌then◌else◌, or_default, find_entry, put_entry, drop_entry, any, put_all,
}
use railfog.Errors.{Result, ErrorCode, ok, err}
use railfog.Runtime.RouteMatcher.{RouteConfig}
use railfog.Api.DeploymentService.{
  RevisionRecord, ProjectMetadata, DeploymentService, find_in, get_active_pointer,
  set_active_pointer, save_revision_record, get_revision,
}

abbrev keys_of {ℓ} : {V : Type ℓ} → List (Text × V) → List Text
keys_of m = map (λ entry. entry.0) m

abbrev values_of {ℓ} : {V : Type ℓ} → List (Text × V) → List V
values_of m = map (λ entry. entry.1) m

abbrev is_key {ℓ} : {V : Type ℓ} → Text → List (Text × V) → Bool
is_key key [] = false
is_key key ((k, v) ∷ m) = text_eq k key || is_key key m

-- `new Set(…)` in order of insertion, and `sort()`.
abbrev add_all : (set : List Text) → List Text → List Text
add_all set [] = set
add_all set (x ∷ xs) = add_all (if any (text_eq x) set then set else set ++ x ∷ []) xs

abbrev insert_text : Text → List Text → List Text
insert_text x [] = x ∷ []
insert_text x (y ∷ ys) =
    let rest = insert_text x ys in if text_leb x y then x ∷ y ∷ ys else y ∷ rest

abbrev sort_texts : List Text → List Text
sort_texts [] = []
sort_texts (x ∷ xs) = insert_text x (sort_texts xs)

module _ {M : Type 0} where
  -- `if (isActive)` at the end of `restoreRevision`.
  abbrev activated :
      (project function_name id : Text) (is_active : Bool)
      → DeploymentService M
      → DeploymentService M
  activated project function_name id is_active s =
      if is_active then set_active_pointer project function_name id s else s

  abbrev pub restore_over :
      (project function_name : Text)
      → RevisionRecord M
      → (is_active : Bool) → Option (RevisionRecord M)
      → DeploymentService M
      → Result (Unit {0}) × DeploymentService M
  restore_over project function_name revision is_active none s = (
    ok tt,
    activated project function_name revision.id is_active (
        save_revision_record project function_name
          (record revision { project = project; function_name = function_name }) s),
  )
  restore_over project function_name revision is_active (some existing) s =
      if text_eq existing.artifact_id revision.artifact_id
      then (ok tt, activated project function_name revision.id is_active s)
      else (err ErrorCode.conflict, s)

  unfoldable pub restore_revision :
      (project function_name : Text)
      → RevisionRecord M
      → (is_active : Bool) → DeploymentService M
      → Result (Unit {0}) × DeploymentService M
  restore_revision project function_name revision is_active s =
      restore_over project function_name revision is_active
        (get_revision project function_name revision.id s) s

  unfoldable pub get_active_revision :
      (project function_name : Text) → DeploymentService M → Option (RevisionRecord M)
  get_active_revision project function_name s =
      by_pointer (get_active_pointer project function_name s)
    where
      by_pointer : Option Text → Option (RevisionRecord M)
      by_pointer none = none
      by_pointer (some []) = none
      by_pointer (some (c ∷ cs)) = get_revision project function_name (c ∷ cs) s

  unfoldable pub list_functions : (project : Text) → DeploymentService M → List Text
  list_functions project s = keys_of (or_default (find_entry project s.revisions) [])

  unfoldable pub list_revisions :
      (project function_name : Text) → DeploymentService M → List (RevisionRecord M)
  list_revisions project function_name s =
      values_of (or_default (find_in function_name (find_entry project s.revisions)) [])

  unfoldable pub set_project_routes :
      (project : Text) → List RouteConfig → DeploymentService M → DeploymentService M
  set_project_routes project routes s = record s {
    project_routes = put_entry project routes s.project_routes;
  }

  unfoldable pub get_project_routes :
      (project : Text) → DeploymentService M → Option (List RouteConfig)
  get_project_routes project s = find_entry project s.project_routes

  unfoldable pub set_project_metadata :
      (project : Text) → ProjectMetadata → DeploymentService M → DeploymentService M
  set_project_metadata project meta s = record s {
    project_metadata = put_entry project meta s.project_metadata;
  }

  unfoldable pub get_project_metadata :
      (project : Text) → DeploymentService M → Option ProjectMetadata
  get_project_metadata project s = find_entry project s.project_metadata

  unfoldable pub list_projects : DeploymentService M → List Text
  list_projects s = sort_texts (
      add_all (add_all (add_all [] (keys_of s.revisions)) (keys_of s.active_pointers))
        (keys_of s.project_routes))

  unfoldable pub delete_project :
      (project : Text) → DeploymentService M → Bool × DeploymentService M
  delete_project project s = (
    (is_key project s.revisions || is_key project s.active_pointers)
        || (is_key project s.project_routes || is_key project s.project_metadata),
    record s {
      revisions = drop_entry project s.revisions;
      active_pointers = drop_entry project s.active_pointers;
      project_routes = drop_entry project s.project_routes;
      project_metadata = drop_entry project s.project_metadata;
    },
  )

-- What `schedulePersist` writes: of the records of a function, the values only. A field may be missing of
-- what is read.
pub record Snapshot (M : Type 0) : Type 0 where
  pub revisions : Option (List (Text × List (Text × List (RevisionRecord M))))
  pub active_pointers : Option (List (Text × List (Text × Text)))
  pub project_routes : Option (List (Text × List RouteConfig))
  pub project_metadata : Option (List (Text × ProjectMetadata))

-- The file when the service is made: it is missing or holds no JSON text, it is empty or blank, or it holds
-- the text of an object whose fields are of the types that the code takes them for.
pub data StateFile (M : Type 0) : Type 0 where
  unreadable blank : StateFile M
  holds : Snapshot M → StateFile M

abbrev pub read_pointers : Text × List (Text × Text) → Text × List (Text × Text)
read_pointers (project, fn_map) = (project, put_all [] fn_map)

-- The state of the constructor.
abbrev pub new_service : {M : Type 0} → DeploymentService M
new_service = record {
  revisions = [];
  active_pointers = [];
  project_routes = [];
  project_metadata = [];
  last_timestamp = 0;
}

-- What `JSON.parse` returns of what `JSON.stringify` writes of a manifest is a parameter; the other fields
-- of a record are texts and a number, which both keep.
module _ {M : Type 0} (as_json : M → M) where
  abbrev pub as_stored_record : RevisionRecord M → RevisionRecord M
  as_stored_record r = record r { manifest = as_json r.manifest }

  abbrev pub written_records : List (Text × RevisionRecord M) → List (RevisionRecord M)
  written_records records = map (λ entry. as_stored_record entry.1) records

  abbrev pub written_project :
      Text × List (Text × List (Text × RevisionRecord M))
      → Text × List (Text × List (RevisionRecord M))
  written_project (project, fn_map) = (project, map (λ fn. (fn.0, written_records fn.1)) fn_map)

  unfoldable pub snapshot_of : DeploymentService M → Snapshot M
  snapshot_of s = record {
    revisions = some (map written_project s.revisions);
    active_pointers = some s.active_pointers;
    project_routes = some s.project_routes;
    project_metadata = some s.project_metadata;
  }

module _ {M : Type 0} where
  abbrev pub by_id : List (RevisionRecord M) → List (Text × RevisionRecord M)
  by_id records = put_all [] (map (λ r. (r.id, r)) records)

  abbrev pub outer_of :
      List (Text × List (RevisionRecord M)) → List (Text × List (Text × RevisionRecord M))
  outer_of fn_map = put_all [] (map (λ fn. (fn.0, by_id fn.1)) fn_map)

  abbrev pub read_project :
      Text × List (Text × List (RevisionRecord M))
      → Text × List (Text × List (Text × RevisionRecord M))
  read_project (project, fn_map) = (project, outer_of fn_map)

  -- `hydrate`, into the state of the constructor.
  unfoldable pub hydrate : StateFile M → DeploymentService M
  hydrate StateFile.unreadable = new_service
  hydrate StateFile.blank = new_service
  hydrate (StateFile.holds parsed) = record {
    revisions = put_all [] (map read_project (or_default parsed.revisions []));
    active_pointers = put_all [] (map read_pointers (or_default parsed.active_pointers []));
    project_routes = put_all [] (or_default parsed.project_routes []);
    project_metadata = put_all [] (or_default parsed.project_metadata []);
    last_timestamp = 0;
  }
