-- ===== src/Protocol/SnapshotDistributor.antt =====
-- packages/protocol/snapshot.ts, `SnapshotDistributor`, and of core/artifact/packager.ts the parts of a
-- manifest that it reads. The clock and the random bytes are arguments. A property whose value is
-- `undefined` is left out of the object: it is read the same, and JSON does not write it.
pub mod Validity
pub mod Propagation
pub mod Examples
use railfog.Prelude.{ℕ, ◌+◌, Option, none, some, List, [], ◌∷◌, ◌++◌, Text, codes, or_default}
use railfog.Core.Ulid.{RandomBytes, generate_ulid}
use railfog.Runtime.RouteMatcher.{RouteConfig}
use railfog.Api.DeploymentService.{RevisionRecord, ProjectMetadata}
use railfog.Protocol.RoutingSnapshot.{Json, Items, Fields, Number}

pub record Permissions : Type 0 where
  pub kv : Option (List Text)
  pub objects : Option (List Text)
  pub queues : Option (List Text)
  pub secrets : Option (List Text)
  pub network : Option (List Text)

pub record FunctionLimits : Type 0 where
  pub cpu_ms : Option Number
  pub timeout_ms : Option Number
  pub memory_mb : Option Number
  pub rate : Option Number
  pub burst : Option Number

pub record Manifest : Type 0 where
  pub permissions : Option Permissions
  pub limits : Option FunctionLimits
  pub auth : Option Json
  pub triggers : Option Json

-- `value?.field`
abbrev pub optional : {A B : Type 0} → (A → Option B) → Option A → Option B
optional field none = none
optional field (some value) = field value

abbrev pub strings : List Text → Items
strings [] = Items.nil
strings (text ∷ texts) = Items.cons (Json.string text) (strings texts)

abbrev pub field_if : Text → Option Json → Fields → Fields
field_if key none rest = rest
field_if key (some value) rest = Fields.field key value rest

abbrev pub copy_strings : Option (List Text) → Option Json
copy_strings none = none
copy_strings (some texts) = some (Json.array (strings texts))

abbrev pub numeric : Option Number → Option Json
numeric none = none
numeric (some n) = some (Json.number n)

abbrev pub permissions_of : Option Permissions → Fields
permissions_of none = Fields.end
permissions_of (some p) = field_if (codes "kv") (copy_strings p.kv) (
    field_if (codes "objects") (copy_strings p.objects) (
      field_if (codes "queues") (copy_strings p.queues) (
        field_if (codes "secrets") (copy_strings p.secrets)
          (field_if (codes "network") (copy_strings p.network) Fields.end))))

-- `limits?.field ?? default`
abbrev pub limit_or : Option Number → (otherwise : ℕ) → Number
limit_or limit otherwise = or_default limit (Number.natural otherwise)

abbrev pub limits_of : Option FunctionLimits → Fields
limits_of limits =
    Fields.field (codes "cpu_ms") (Json.number (limit_or (optional (λ l. l.cpu_ms) limits) 200)) (
      Fields.field (codes "timeout_ms")
        (Json.number (limit_or (optional (λ l. l.timeout_ms) limits) 30000))
        (Fields.field (codes "memory_mb")
          (Json.number (limit_or (optional (λ l. l.memory_mb) limits) 128))
          (field_if (codes "rate") (numeric (optional (λ l. l.rate) limits))
            (field_if (codes "burst") (numeric (optional (λ l. l.burst) limits)) Fields.end))))

abbrev pub function_of : RevisionRecord (Option Manifest) → Json
function_of revision = Json.object (
    Fields.field (codes "functionName") (Json.string revision.function_name) (
      Fields.field (codes "revisionId") (Json.string revision.id) (
        Fields.field (codes "artifactId") (Json.string revision.artifact_id) (
          Fields.field (codes "permissions")
            (Json.object (permissions_of (optional (λ m. m.permissions) revision.manifest)))
            (Fields.field (codes "limits")
              (Json.object (limits_of (optional (λ m. m.limits) revision.manifest)))
              (field_if (codes "auth") (optional (λ m. m.auth) revision.manifest) (
                field_if (codes "triggers") (optional (λ m. m.triggers) revision.manifest)
                  Fields.end)))))))

-- The loop over the entries of `activeRevisions`, whose keys are distinct.
abbrev pub functions_of : List (Text × RevisionRecord (Option Manifest)) → Fields
functions_of [] = Fields.end
functions_of ((key, revision) ∷ revisions) =
    Fields.field key (function_of revision) (functions_of revisions)

abbrev pub route_of : RouteConfig → Json
route_of route = Json.object (
    Fields.field (codes "pattern") (Json.string route.pattern)
      (Fields.field (codes "function") (Json.string route.function_name) Fields.end))

abbrev pub cloned_routes : List RouteConfig → Items
cloned_routes [] = Items.nil
cloned_routes (route ∷ routes) = Items.cons (route_of route) (cloned_routes routes)

abbrev pub as_string : Option Text → Option Json
as_string none = none
as_string (some text) = some (Json.string text)

-- What a call of `createSnapshot` is given, and what it asks of the machine.
pub record Request : Type 0 where
  pub routes : List RouteConfig
  pub active_revisions : List (Text × RevisionRecord (Option Manifest))
  pub metadata : Option ProjectMetadata
  pub ulid_now : ℕ
  pub random : RandomBytes
  pub generated_at : ℕ

pub record SnapshotDistributor : Type 0 where
  pub current_version : ℕ

abbrev pub new_distributor : SnapshotDistributor
new_distributor = record { current_version = 0 }

abbrev pub routing_snapshot_of : (version : ℕ) → Request → Json
routing_snapshot_of version r = Json.object (
    Fields.field (codes "snapshotId")
      (Json.string (codes "snap_" ++ generate_ulid r.ulid_now r.random))
      (Fields.field (codes "version") (Json.number (Number.natural version)) (
        Fields.field (codes "routes") (Json.array (cloned_routes r.routes)) (
          Fields.field (codes "functions") (Json.object (functions_of r.active_revisions)) (
            Fields.field (codes "generatedAt") (Json.number (Number.natural r.generated_at)) (
              field_if (codes "environment") (as_string (optional (λ m. m.environment) r.metadata))
                (field_if (codes "domains") (copy_strings (optional (λ m. m.domains) r.metadata))
                  Fields.end)))))))

unfoldable pub create_snapshot : Request → SnapshotDistributor → Json × SnapshotDistributor
create_snapshot r distributor =
    let version = distributor.current_version + 1 in
    (routing_snapshot_of version r, record { current_version = version })
