-- ===== src/Runtime/SnapshotCache.antt =====
-- runtime/snapshot/snapshot-cache.ts and runtime/snapshot/disk-snapshot-cache.ts. What a fetch answers is
-- a rejection or a payload. A cache of either kind is a poller around what it keeps; its timer and its
-- fetches are events, in any order. `persistToDisk` is one step with the refresh that calls it: two
-- writes that overlap, which share their temporary file, are not modelled.
pub mod Serving
pub mod Storing
pub mod Disk
pub mod Examples
use railfog.Prelude.{Bool, true, false, Option, none, some, List, [], ◌∷◌, ltb, if◌then◌else◌}
use railfog.Errors.{Result, ok, err, ◌>>=◌}
use railfog.Protocol.RoutingSnapshot.{
  Json, Items, Fields, Number, validate_routing_snapshot, snapshot_version,
}

-- The state of the polling: the timer of `start`, and the lock of `pollBackground`.
pub record Poller (C : Type 0) : Type 0 where
  pub content : C
  pub timer : Bool
  pub is_polling : Bool

pub data Event (Answer : Type 0) : Type 0 where
  starts stops ticks : Event Answer
  -- A `forceRefresh` ends, of the running poll, of one that timed out before, or of a caller.
  lands : Answer → Event Answer
  -- The race of the running poll is decided, by its refresh or by its timeout.
  settles : Event Answer

module _ {C : Type 0} where
  -- The call returns at once when the lock is taken.
  abbrev pub poll_background : Poller C → Poller C
  poll_background p = if p.is_polling then p else record p { is_polling = true }

  abbrev pub start_polling : (timer : Bool) → Poller C → Poller C
  start_polling true p = p
  start_polling false p = poll_background (record p { timer = true })

  -- The callback of `setInterval`, while its timer is not cleared.
  abbrev pub on_tick : (timer : Bool) → Poller C → Poller C
  on_tick true p = poll_background p
  on_tick false p = p

module _ {Answer C : Type 0} (refresh : Answer → C → C) where
  unfoldable pub on_event : Event Answer → Poller C → Poller C
  on_event Event.starts p = start_polling p.timer p
  on_event Event.stops p = record p { timer = false }
  on_event Event.ticks p = on_tick p.timer p
  on_event (Event.lands answer) p = record p { content = refresh answer p.content }
  on_event Event.settles p = record p { is_polling = false }

  unfoldable pub on_events : List (Event Answer) → Poller C → Poller C
  on_events [] p = p
  on_events (event ∷ events) p = on_events events (on_event event p)

abbrev pub is_newer : Option Json → Json → Bool
is_newer none validated = true
is_newer (some latest) validated = ltb (snapshot_version latest) (snapshot_version validated)

-- What stands behind the fetch and the validation; an error is rethrown, with nothing changed.
abbrev pub update_latest : Result Json → Option Json → Option Json
update_latest (err code) latest = latest
update_latest (ok validated) latest = if is_newer latest validated then some validated else latest

-- `forceRefresh` of the cache in memory.
unfoldable pub refresh_memory : Result Json → Option Json → Option Json
refresh_memory fetched latest = update_latest (fetched >>= validate_routing_snapshot) latest

-- What `JSON.parse` returns of what `JSON.stringify` wrote: a number that is not finite is written as
-- `null`.
unfoldable mutual
  pub as_stored : Json → Json
  as_stored Json.null = Json.null
  as_stored (Json.boolean b) = Json.boolean b
  as_stored (Json.number (Number.natural n)) = Json.number (Number.natural n)
  as_stored (Json.number (Number.finite literal)) = Json.number (Number.finite literal)
  as_stored (Json.number Number.infinite) = Json.null
  as_stored (Json.string text) = Json.string text
  as_stored (Json.array items) = Json.array (stored_items items)
  as_stored (Json.object fields) = Json.object (stored_fields fields)

  pub stored_items : Items → Items
  stored_items Items.nil = Items.nil
  stored_items (Items.cons item items) = Items.cons (as_stored item) (stored_items items)

  pub stored_fields : Fields → Fields
  stored_fields Fields.end = Fields.end
  stored_fields (Fields.field key value rest) =
      Fields.field key (as_stored value) (stored_fields rest)

-- The cache with a file, and what the file parses to: none when it is missing, empty or no JSON.
pub record DiskCache : Type 0 where
  pub latest : Option Json
  pub file : Option Json

-- What a fetch answered, and whether the file was replaced, if it came to that; the write fails as a
-- whole, since the file changes by the `rename` only.
pub record Refresh : Type 0 where
  pub fetched : Result Json
  pub renamed : Bool

abbrev pub persist_to_disk : (renamed : Bool) → Json → DiskCache → DiskCache
persist_to_disk true snapshot d = record d { file = some (as_stored snapshot) }
persist_to_disk false snapshot d = d

abbrev pub update_disk : (renamed : Bool) → Result Json → DiskCache → DiskCache
update_disk renamed (err code) d = d
update_disk renamed (ok validated) d =
    if is_newer d.latest validated
    then persist_to_disk renamed validated (record d { latest = some validated })
    else d

-- `forceRefresh` of the cache with a file.
unfoldable pub refresh_disk : Refresh → DiskCache → DiskCache
refresh_disk r d = update_disk r.renamed (r.fetched >>= validate_routing_snapshot) d

abbrev pub recover : Result Json → Option Json
recover (err code) = none
recover (ok snapshot) = some snapshot

-- The snapshot that `createDiskSnapshotCache` starts with.
unfoldable pub initial_snapshot : (file : Option Json) → Option Json
initial_snapshot none = none
initial_snapshot (some parsed) = recover (validate_routing_snapshot parsed)

unfoldable pub create_disk_snapshot_cache : (file : Option Json) → Poller DiskCache
create_disk_snapshot_cache held = record {
  content = record { latest = initial_snapshot held; file = held };
  timer = false;
  is_polling = false;
}
