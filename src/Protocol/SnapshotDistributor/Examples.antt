-- ===== src/Protocol/SnapshotDistributor/Examples.antt =====
-- A project with one function, and the theorems of the distributor at it.
use railfog.Prelude.{ℕ, ◌≤◌, ◌≡◌, refl, Option, none, some, [], ◌∷◌, codes, text_eq, arith, All}
use railfog.Errors.{ok}
use railfog.Core.Ulid.{RandomBytes}
use railfog.Core.Ulid.Order.{AreBytes}
use railfog.Api.DeploymentService.{RevisionRecord, RevisionState}
use railfog.Protocol.RoutingSnapshot.{Json, Number, validate_routing_snapshot, snapshot_version}
use railfog.Protocol.SnapshotDistributor.{
  Manifest, Request, SnapshotDistributor, create_snapshot, new_distributor,
}
use railfog.Protocol.SnapshotDistributor.Validity.{
  IsSound, validate_routing_snapshot-create_snapshot,
}
use railfog.Protocol.SnapshotDistributor.Propagation.{
  create_snapshot_taken, new_distributor_ignored,
}
use railfog.Runtime.SnapshotCache.{refresh_memory}

abbrev random : RandomBytes
random = record {
  b0 = 0;
  b1 = 255;
  b2 = 7;
  b3 = 128;
  b4 = 31;
  b5 = 0;
  b6 = 0;
  b7 = 0;
  b8 = 0;
  b9 = 1;
}

abbrev manifest : Manifest
manifest = record {
  permissions = some (record {
    kv = some (codes "users" ∷ []);
    objects = none;
    queues = none;
    secrets = some [];
    network = none;
  });
  limits = some (record {
    cpu_ms = some (Number.natural 50);
    timeout_ms = none;
    memory_mb = none;
    rate = none;
    burst = none;
  });
  auth = none;
  triggers = none;
}

abbrev revision : RevisionRecord (Option Manifest)
revision = record {
  id = codes "rev_1";
  project = codes "shop";
  function_name = codes "api";
  artifact_id = codes "sha256:0";
  integrity = codes "sha256-0";
  state = RevisionState.deployed;
  created_at = 5;
  manifest = some manifest;
}

abbrev request : Request
request = record {
  routes = record { pattern = codes "/api"; function_name = codes "api" } ∷ [];
  active_revisions = (codes "api", revision) ∷ [];
  metadata = none;
  ulid_now = 7;
  random = random;
  generated_at = 7;
}

abbrev created_before : (count : ℕ) → SnapshotDistributor
created_before count = record { current_version = count }

is_sound : All IsSound request.active_revisions
is_sound = ((refl, refl, refl, (refl, refl, refl)), tt)

are_bytes : AreBytes random
are_bytes = (
  omega arith,
  omega arith,
  omega arith,
  omega arith,
  omega arith,
  omega arith,
  omega arith,
  omega arith,
  omega arith,
  omega arith,
)

validate_routing_snapshot-create_snapshot_example :
    let (snapshot, _) = create_snapshot request (created_before 4) in
    validate_routing_snapshot snapshot ≡ ok snapshot
validate_routing_snapshot-create_snapshot_example =
    validate_routing_snapshot-create_snapshot request (created_before 4) is_sound are_bytes
      (omega arith)

create_snapshot_taken_example :
    let (latest, after) = create_snapshot request (created_before 4) in
    let (snapshot, _) = create_snapshot request after in
    refresh_memory (ok snapshot) (some latest) ≡ some snapshot
create_snapshot_taken_example =
    create_snapshot_taken request request (created_before 4) (is_sound, are_bytes) (omega arith)

abbrev fifth : Json
fifth = (create_snapshot request (created_before 4)).0

fifth_version : 1 ≤ snapshot_version fifth
unfolding create_snapshot snapshot_version text_eq
fifth_version = omega arith

new_distributor_ignored_example :
    let (snapshot, _) = create_snapshot request new_distributor in
    refresh_memory (ok snapshot) (some fifth) ≡ some fifth
new_distributor_ignored_example =
    new_distributor_ignored fifth request (is_sound, are_bytes) fifth_version
