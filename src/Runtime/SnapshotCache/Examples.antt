-- ===== src/Runtime/SnapshotCache/Examples.antt =====
-- Snapshots, polls and a restart, and the theorems of the validation and of the caches at them.
use railfog.Prelude.{
  text_eq, ℕ, ◌≡◌, refl, true, false, Option, none, some, List, [], ◌∷◌, codes, arith,
}
use Prim.Native.String.{String}
use railfog.Core.Ulid.{is_valid_ulid}
use railfog.Errors.{Result, ErrorCode, ok, err}
use railfog.Protocol.RoutingSnapshot.{
  Json, Items, Fields, Number, validate_routing_snapshot, snapshot_version, property,
}
use railfog.Protocol.RoutingSnapshot.Checks.{validate_routing_snapshot_sound, VersionIs, RoutesAre}
use railfog.Runtime.SnapshotCache.{
  on_event, initial_snapshot, Poller, Event, on_events, refresh_memory, refresh_disk, Refresh,
  create_disk_snapshot_cache, as_stored,
}
use railfog.Runtime.SnapshotCache.Serving.{on_events-Serves, Serves}
use railfog.Runtime.SnapshotCache.Disk.{SameText, create_disk_snapshot_cache_recovers}

abbrev text : String → Json
text s = Json.string (codes s)

abbrev natural : ℕ → Json
natural n = Json.number (Number.natural n)

abbrev limits : Fields
limits = Fields.field (codes "cpu_ms") (natural 200) (
    Fields.field (codes "timeout_ms") (natural 30000)
      (Fields.field (codes "memory_mb") (Json.number (Number.finite (codes "0.5"))) Fields.end))

abbrev permissions : Fields
permissions =
    Fields.field (codes "kv") (Json.array (Items.cons (text "users") Items.nil)) Fields.end

abbrev function : Fields
function = Fields.field (codes "functionName") (text "api") (
    Fields.field (codes "revisionId") (text "rev_1") (
      Fields.field (codes "artifactId") (text "art_1") (
        Fields.field (codes "permissions") (Json.object permissions)
          (Fields.field (codes "limits") (Json.object limits) Fields.end))))

abbrev route : Fields
route =
    Fields.field (codes "pattern") (text "/a")
      (Fields.field (codes "function") (text "api") Fields.end)

abbrev snapshot_at : (version : ℕ) → Json
snapshot_at version = Json.object (
    Fields.field (codes "snapshotId") (text "snap_01J000000000000000000000ZZ") (
      Fields.field (codes "version") (natural version) (
        Fields.field (codes "routes") (Json.array (Items.cons (Json.object route) Items.nil)) (
          Fields.field (codes "functions")
            (Json.object (Fields.field (codes "api") (Json.object function) Fields.end))
            (Fields.field (codes "generatedAt") (natural 5) Fields.end)))))

accepts : validate_routing_snapshot (snapshot_at 2) ≡ ok (snapshot_at 2)
unfolding validate_routing_snapshot is_valid_ulid text_eq
accepts = refl

refuses_zero : validate_routing_snapshot (snapshot_at 0) ≡ err ErrorCode.validation_failed
unfolding validate_routing_snapshot is_valid_ulid text_eq
refuses_zero = refl

validate_routing_snapshot_sound_example :
    (snapshot_at 2 ≡ snapshot_at 2)
    × VersionIs (snapshot_at 2)
    × RoutesAre (property (codes "routes") (snapshot_at 2))
validate_routing_snapshot_sound_example =
    validate_routing_snapshot_sound (snapshot_at 2) (snapshot_at 2) accepts

abbrev serving : Poller (Option Json)
serving = record { content = some (snapshot_at 2); timer = false; is_polling = false }

-- A later snapshot, an earlier one, a failed poll, and an answer after the timeout.
abbrev polls : List (Event (Result Json))
polls =
    Event.starts
    ∷ Event.lands (ok (snapshot_at 3))
    ∷ Event.settles
    ∷ Event.ticks
    ∷ Event.settles
    ∷ Event.lands (ok (snapshot_at 1))
    ∷ Event.lands (err ErrorCode.unavailable)
    ∷ Event.lands (ok Json.null)
    ∷ Event.stops
    ∷ []

-- The snapshot of version 2 is valid.
serves : Serves 2 serving.content
unfolding snapshot_version text_eq
serves = (snapshot_at 2, refl, accepts, omega arith)

on_events-Serves_example : Serves 2 (on_events refresh_memory polls serving).content
on_events-Serves_example = on_events-Serves 2 polls serving serves

abbrev refreshes : List (Event Refresh)
refreshes =
    Event.starts
    ∷ Event.lands (record { fetched = ok (snapshot_at 2); renamed = true })
    ∷ Event.settles
    ∷ Event.lands (record { fetched = err ErrorCode.timeout; renamed = true })
    ∷ Event.lands (record { fetched = ok (snapshot_at 3); renamed = true })
    ∷ []

create_disk_snapshot_cache_recovers_example :
    let now =
      (on_events refresh_disk refreshes (create_disk_snapshot_cache (some Json.null))).content in
    SameText (create_disk_snapshot_cache now.file).content.latest now.latest
create_disk_snapshot_cache_recovers_example =
    create_disk_snapshot_cache_recovers (some Json.null) refreshes
      (tt, (refl, (tt, (refl, (refl, tt)))))

-- The restart serves the last snapshot.
recovers_last :
    (create_disk_snapshot_cache
      (on_events refresh_disk refreshes
        (create_disk_snapshot_cache none)).content.file).content.latest
    ≡ some (snapshot_at 3)
unfolding create_disk_snapshot_cache initial_snapshot on_events on_event refresh_disk
    validate_routing_snapshot is_valid_ulid text_eq snapshot_version as_stored
recovers_last = refl
