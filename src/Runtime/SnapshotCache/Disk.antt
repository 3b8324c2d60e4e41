-- ===== src/Runtime/SnapshotCache/Disk.antt =====
-- runtime/snapshot/disk-snapshot-cache.ts: what a restart finds in the file.
use railfog.Prelude.{
  some, ◌≡◌, refl, sym, ◌∙◌, ap, subst, true, Option, List, [], ◌∷◌, All, Bool-cases, inl, inr,
}
use railfog.Errors.{bind_ok, Result, ok, err, ◌>>=◌}
use railfog.Protocol.RoutingSnapshot.{Json, validate_routing_snapshot}
use railfog.Protocol.RoutingSnapshot.Checks.{validate_routing_snapshot_again}
use railfog.Runtime.SnapshotCache.{
  Event, on_events, refresh_disk, update_disk, DiskCache, is_newer, Refresh, as_stored, recover,
  initial_snapshot, create_disk_snapshot_cache,
}
use railfog.Runtime.SnapshotCache.Storing.{
  stored_option, stored_option_idem, validate_routing_snapshot-stored,
}
use railfog.Runtime.SnapshotCache.Serving.{KeptBy, on_events-Keeps}

-- The write of the refresh, if it comes to one, succeeds.
abbrev pub Writes : Event Refresh → Type 0
Writes Event.starts = Unit
Writes Event.stops = Unit
Writes Event.ticks = Unit
Writes (Event.lands r) = r.renamed ≡ true
Writes Event.settles = Unit

-- The same snapshot once it is written as JSON text, or none in both.
abbrev pub SameText : Option Json → Option Json → Type 0
SameText one other = stored_option one ≡ stored_option other

-- A restart starts with what is served now.
abbrev pub Recoverable : DiskCache → Type 0
Recoverable d = SameText (initial_snapshot d.file) d.latest

accepted_stored :
    (fetched : Result Json) (snapshot : Json)
    → (fetched >>= validate_routing_snapshot) ≡ ok snapshot
    → validate_routing_snapshot (as_stored snapshot) ≡ ok (as_stored snapshot)
accepted_stored fetched snapshot e =
    let (payload, _, passes) = bind_ok fetched validate_routing_snapshot snapshot e in
    validate_routing_snapshot-stored snapshot snapshot
      (validate_routing_snapshot_again payload snapshot passes)

update_disk-Recoverable :
    (result : Result Json) (d : DiskCache)
    → ((snapshot : Json)
        → result ≡ ok snapshot
        → validate_routing_snapshot (as_stored snapshot) ≡ ok (as_stored snapshot))
    → Recoverable d
    → Recoverable (update_disk true result d)
unfolding initial_snapshot
update_disk-Recoverable (err code) d valid h = h
update_disk-Recoverable (ok validated) d valid h = elim (Bool-cases (is_newer d.latest validated)) [
  | inl newer ↦ rw newer (
      ap (λ r. stored_option (recover r)) (valid validated refl)
      ∙ stored_option_idem (some validated))
  | inr older ↦ rw older h
]

refresh_disk-Recoverable :
    (r : Refresh) (d : DiskCache)
    → r.renamed ≡ true
    → Recoverable d
    → Recoverable (refresh_disk r d)
unfolding refresh_disk
refresh_disk-Recoverable r d renamed h =
    subst (λ b. Recoverable (update_disk b (r.fetched >>= validate_routing_snapshot) d))
      (sym renamed)
      (update_disk-Recoverable (r.fetched >>= validate_routing_snapshot) d
        (accepted_stored r.fetched) h)

Writes-KeptBy :
    (events : List (Event Refresh))
    → All Writes events
    → All (KeptBy refresh_disk Recoverable) events
Writes-KeptBy [] w = tt
Writes-KeptBy (Event.starts ∷ events) (w, ws) = (tt, Writes-KeptBy events ws)
Writes-KeptBy (Event.stops ∷ events) (w, ws) = (tt, Writes-KeptBy events ws)
Writes-KeptBy (Event.ticks ∷ events) (w, ws) = (tt, Writes-KeptBy events ws)
Writes-KeptBy (Event.lands r ∷ events) (renamed, ws) =
    ((λ d h. refresh_disk-Recoverable r d renamed h), Writes-KeptBy events ws)
Writes-KeptBy (Event.settles ∷ events) (w, ws) = (tt, Writes-KeptBy events ws)

-- Refreshes come one after another, each with its write: none writes while another does. When a cache is
-- created on a file, whatever the file holds, and every write succeeds, then a cache that is created
-- on the file afterwards starts with the snapshot that the first one serves, whatever payloads or
-- errors were fetched and however it was polled. The two are the same as JSON text, which has `null`
-- for a number that is not finite.
pub create_disk_snapshot_cache_recovers :
    (file : Option Json) (events : List (Event Refresh))
    → All Writes events
    → let now = (on_events refresh_disk events (create_disk_snapshot_cache file)).content in
      SameText (create_disk_snapshot_cache now.file).content.latest now.latest
unfolding create_disk_snapshot_cache
create_disk_snapshot_cache_recovers file events w =
    on_events-Keeps refresh_disk Recoverable events (create_disk_snapshot_cache file)
      (Writes-KeptBy events w) refl
