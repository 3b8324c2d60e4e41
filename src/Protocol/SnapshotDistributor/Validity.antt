-- ===== src/Protocol/SnapshotDistributor/Validity.antt =====
-- packages/protocol/snapshot.ts: what is created passes the validation.
use railfog.Prelude.{
  ℕ, ◌+◌, ◌<◌, ◌≡◌, refl, true, false, Option, none, some, List, [], ◌∷◌, Text, codes, text_eq,
  is_empty, trim, All, arith, Bool-cases, inl, inr,
}
use railfog.Errors.{ok}
use railfog.Core.Ulid.Order.{AreBytes, is_valid_ulid-generate_ulid}
use railfog.Runtime.RouteMatcher.{RouteConfig}
use railfog.Api.DeploymentService.{RevisionRecord}
use railfog.Protocol.RoutingSnapshot.{
  Json, Fields, Number, get_field, every, every_value, is_string, is_strings, is_route, is_function,
  is_finite, is_permissions, is_version, holds_if_present, max_safe_integer,
  validate_routing_snapshot,
}
use railfog.Protocol.SnapshotDistributor.{
  Permissions, Manifest, Request, SnapshotDistributor, create_snapshot, optional, strings,
  copy_strings, field_if, permissions_of, limit_or, function_of, functions_of, cloned_routes,
}

-- A limit that a manifest gives is finite.
abbrev pub Finite : Number → Type 0
Finite n = is_finite (Json.number n) ≡ true

abbrev pub FiniteLimits : RevisionRecord (Option Manifest) → Type 0
FiniteLimits revision =
    let limits = optional (λ m. m.limits) revision.manifest in
    Finite (limit_or (optional (λ l. l.cpu_ms) limits) 200)
    × Finite (limit_or (optional (λ l. l.timeout_ms) limits) 30000)
    × Finite (limit_or (optional (λ l. l.memory_mb) limits) 128)

abbrev pub Named : Text → Type 0
Named text = is_empty (trim text) ≡ false

-- What the records of active revisions are: named, with finite limits.
abbrev pub IsSound : Text × RevisionRecord (Option Manifest) → Type 0
IsSound (key, revision) =
    Named revision.function_name
    × Named revision.id
    × Named revision.artifact_id
    × FiniteLimits revision

abbrev AllStrings : Fields → Type 0
AllStrings Fields.end = Unit
AllStrings (Fields.field key value rest) = (is_strings value ≡ true) × AllStrings rest

get_field-AllStrings :
    (key : Text) (fields : Fields)
    → AllStrings fields
    → holds_if_present is_strings (get_field key fields) ≡ true
get_field-AllStrings key Fields.end h = refl
get_field-AllStrings key (Fields.field k value rest) (h, hs) = elim (Bool-cases (text_eq k key)) [
  | inl e ↦ rw e h
  | inr e ↦ rw e (get_field-AllStrings key rest hs)
]

strings-every : (texts : List Text) → every is_string (strings texts) ≡ true
strings-every [] = refl
strings-every (text ∷ texts) = strings-every texts

field_if-AllStrings :
    (key : Text) (texts : Option (List Text)) (rest : Fields)
    → AllStrings rest
    → AllStrings (field_if key (copy_strings texts) rest)
field_if-AllStrings key none rest h = h
field_if-AllStrings key (some texts) rest h = (strings-every texts, h)

permissions_of-AllStrings :
    (permissions : Option Permissions) → AllStrings (permissions_of permissions)
permissions_of-AllStrings none = tt
permissions_of-AllStrings (some p) = field_if-AllStrings _ p.kv _ (
    field_if-AllStrings _ p.objects _ (
      field_if-AllStrings _ p.queues _
        (field_if-AllStrings _ p.secrets _ (field_if-AllStrings _ p.network _ tt))))

AllStrings-is_permissions :
    (fields : Fields) → AllStrings fields → is_permissions (Json.object fields) ≡ true
AllStrings-is_permissions fields h =
    rw
      (
        get_field-AllStrings (codes "kv") fields h,
        get_field-AllStrings (codes "objects") fields h,
        get_field-AllStrings (codes "queues") fields h,
        get_field-AllStrings (codes "secrets") fields h,
        get_field-AllStrings (codes "network") fields h,
      )
      refl

function_of-is_function :
    (key : Text) (revision : RevisionRecord (Option Manifest))
    → IsSound (key, revision)
    → is_function (function_of revision) ≡ true
unfolding text_eq
function_of-is_function key revision (named, id, artifact, (cpu, time, memory)) =
    rw
      (
        named,
        id,
        artifact,
        AllStrings-is_permissions _
            (permissions_of-AllStrings (optional (λ m. m.permissions) revision.manifest)),
        cpu,
        time,
        memory,
      )
      refl

functions_of-every :
    (revisions : List (Text × RevisionRecord (Option Manifest)))
    → All IsSound revisions
    → every_value is_function (functions_of revisions) ≡ true
functions_of-every [] h = refl
functions_of-every ((key, revision) ∷ revisions) (h, hs) =
    rw (function_of-is_function key revision h, functions_of-every revisions hs) refl

cloned_routes-every : (routes : List RouteConfig) → every is_route (cloned_routes routes) ≡ true
unfolding text_eq
cloned_routes-every [] = refl
cloned_routes-every (route ∷ routes) = cloned_routes-every routes

version-is_version :
    (n : ℕ) → n < max_safe_integer → is_version (Json.number (Number.natural (n + 1))) ≡ true
version-is_version n h = ground (arith, h)

-- When the active revisions are named and their limits finite, the random bytes are bytes, and fewer than
-- 2 ^ 53 - 1 snapshots were created before, the snapshot that is created passes the validation.
pub validate_routing_snapshot-create_snapshot :
    (r : Request) (distributor : SnapshotDistributor)
    → All IsSound r.active_revisions
    → AreBytes r.random
    → distributor.current_version < max_safe_integer
    → let (snapshot, _) = create_snapshot r distributor in
      validate_routing_snapshot snapshot ≡ ok snapshot
unfolding create_snapshot validate_routing_snapshot text_eq
validate_routing_snapshot-create_snapshot r distributor sound bytes few =
    rw
      (
        is_valid_ulid-generate_ulid r.ulid_now r.random bytes,
        version-is_version distributor.current_version few,
        cloned_routes-every r.routes,
        functions_of-every r.active_revisions sound,
      )
      refl
