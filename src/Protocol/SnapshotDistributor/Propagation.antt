-- ===== src/Protocol/SnapshotDistributor/Propagation.antt =====
-- packages/protocol/snapshot.ts with runtime/snapshot/snapshot-cache.ts: which of the snapshots that are
-- created the data plane takes.
use railfog.Prelude.{◌+◌, ◌≤◌, ◌<◌, ◌≡◌, refl, some, text_eq, All, arith, le→ltb-false, lt→ltb}
use railfog.Errors.{ok}
use railfog.Core.Ulid.Order.{AreBytes}
use railfog.Protocol.RoutingSnapshot.{
  Json, max_safe_integer, validate_routing_snapshot, snapshot_version,
}
use railfog.Protocol.SnapshotDistributor.{
  Request, SnapshotDistributor, create_snapshot, new_distributor,
}
use railfog.Protocol.SnapshotDistributor.Validity.{
  IsSound, validate_routing_snapshot-create_snapshot,
}
use railfog.Runtime.SnapshotCache.{refresh_memory}

-- A request whose revisions are sound and whose random bytes are bytes.
abbrev pub Creates : Request → Type 0
Creates r = All IsSound r.active_revisions × AreBytes r.random

snapshot_version-create_snapshot :
    (r : Request) (distributor : SnapshotDistributor)
    → let (snapshot, _) = create_snapshot r distributor in
      snapshot_version snapshot ≡ distributor.current_version + 1
unfolding create_snapshot snapshot_version text_eq
snapshot_version-create_snapshot r distributor = refl

-- What a refresh with a valid snapshot does: it is taken when its version is greater.
refresh-taken :
    (latest snapshot : Json)
    → validate_routing_snapshot snapshot ≡ ok snapshot
    → snapshot_version latest < snapshot_version snapshot
    → refresh_memory (ok snapshot) (some latest) ≡ some snapshot
unfolding refresh_memory
refresh-taken latest snapshot passes later = rw (passes, lt→ltb _ _ later) refl

refresh-ignored :
    (latest snapshot : Json)
    → validate_routing_snapshot snapshot ≡ ok snapshot
    → snapshot_version snapshot ≤ snapshot_version latest
    → refresh_memory (ok snapshot) (some latest) ≡ some latest
unfolding refresh_memory
refresh-ignored latest snapshot passes earlier = rw (passes, le→ltb-false _ _ earlier) refl

-- A distributor creates a snapshot, and then, from other routes and revisions, a second one. When the
-- revisions of the second are named and of finite limits, its random bytes are bytes, and fewer than
-- 2 ^ 53 - 2 snapshots were created before, a cache that serves the first takes the second.
pub create_snapshot_taken :
    (first second : Request) (distributor : SnapshotDistributor)
    → Creates second
    → distributor.current_version + 1 < max_safe_integer
    → let (latest, after) = create_snapshot first distributor in
      let (snapshot, _) = create_snapshot second after in
      refresh_memory (ok snapshot) (some latest) ≡ some snapshot
unfolding create_snapshot
create_snapshot_taken first second distributor (sound, bytes) few =
    let after : SnapshotDistributor = record {
      current_version = distributor.current_version + 1;
    } in
    refresh-taken _ _ (validate_routing_snapshot-create_snapshot second after sound bytes few) (
      omega (
        arith,
        snapshot_version-create_snapshot first distributor,
        snapshot_version-create_snapshot second after,
      ))

-- The first snapshot of a new distributor, as the control plane makes one after a restart, is ignored by
-- each cache that serves a snapshot of a positive version, whatever the snapshot says.
pub new_distributor_ignored :
    (latest : Json) (r : Request)
    → Creates r
    → 1 ≤ snapshot_version latest
    → let (snapshot, _) = create_snapshot r new_distributor in
      refresh_memory (ok snapshot) (some latest) ≡ some latest
new_distributor_ignored latest r (sound, bytes) served =
    refresh-ignored latest _
      (validate_routing_snapshot-create_snapshot r new_distributor sound bytes (omega arith))
      (omega (arith, served, snapshot_version-create_snapshot r new_distributor))
