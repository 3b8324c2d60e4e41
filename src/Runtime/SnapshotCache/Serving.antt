-- ===== src/Runtime/SnapshotCache/Serving.antt =====
-- runtime/snapshot/snapshot-cache.ts and runtime/snapshot/disk-snapshot-cache.ts: what is served never
-- gets older.
use railfog.Prelude.{
  some-inj, All, subst, ℕ, ◌≤◌, ◌≡◌, refl, sym, Bool, true, false, Option, none, some, List, [],
  ◌∷◌, arith, Bool-cases, inl, inr,
}
use railfog.Errors.{Result, ok, err, ◌>>=◌, bind_ok}
use railfog.Protocol.RoutingSnapshot.{Json, validate_routing_snapshot, snapshot_version}
use railfog.Protocol.RoutingSnapshot.Checks.{validate_routing_snapshot_again}
use railfog.Runtime.SnapshotCache.{
  on_tick, Poller, Event, on_event, on_events, start_polling, poll_background, refresh_memory,
  refresh_disk, update_latest, update_disk, DiskCache, is_newer, Refresh, persist_to_disk,
}

poll_background-content : {C : Type 0} (p : Poller C) → (poll_background p).content ≡ p.content
poll_background-content p = elim (Bool-cases p.is_polling) [ inl e ↦ rw e refl | inr e ↦ rw e refl ]

start_polling-content :
    {C : Type 0} (timer : Bool) (p : Poller C) → (start_polling timer p).content ≡ p.content
start_polling-content true p = refl
start_polling-content false p = poll_background-content (record p { timer = true })

on_tick-content : {C : Type 0} (timer : Bool) (p : Poller C) → (on_tick timer p).content ≡ p.content
on_tick-content true p = poll_background-content p
on_tick-content false p = refl

-- What the refreshes keep, the polling keeps.
module _ {Answer C : Type 0} (refresh : Answer → C → C) (Keeps : C → Type 0) where
  abbrev pub KeptBy : Event Answer → Type 0
  KeptBy Event.starts = Unit
  KeptBy Event.stops = Unit
  KeptBy Event.ticks = Unit
  KeptBy (Event.lands answer) = (c : C) → Keeps c → Keeps (refresh answer c)
  KeptBy Event.settles = Unit

  on_event-Keeps :
      (event : Event Answer) (p : Poller C)
      → KeptBy event
      → Keeps p.content
      → Keeps (on_event refresh event p).content
  unfolding on_event
  on_event-Keeps Event.starts p k h = subst Keeps (sym (start_polling-content p.timer p)) h
  on_event-Keeps Event.stops p k h = h
  on_event-Keeps Event.ticks p k h = subst Keeps (sym (on_tick-content p.timer p)) h
  on_event-Keeps (Event.lands answer) p k h = k p.content h
  on_event-Keeps Event.settles p k h = h

  pub on_events-Keeps :
      (events : List (Event Answer)) (p : Poller C)
      → All KeptBy events
      → Keeps p.content
      → Keeps (on_events refresh events p).content
  unfolding on_events
  on_events-Keeps [] p k h = h
  on_events-Keeps (event ∷ events) p (k, ks) h =
      on_events-Keeps events (on_event refresh event p) ks (on_event-Keeps event p k h)

  All-KeptBy :
      ((answer : Answer) (c : C) → Keeps c → Keeps (refresh answer c))
      → (events : List (Event Answer)) → All KeptBy events
  All-KeptBy kept [] = tt
  All-KeptBy kept (Event.starts ∷ events) = (tt, All-KeptBy kept events)
  All-KeptBy kept (Event.stops ∷ events) = (tt, All-KeptBy kept events)
  All-KeptBy kept (Event.ticks ∷ events) = (tt, All-KeptBy kept events)
  All-KeptBy kept (Event.lands answer ∷ events) = (kept answer, All-KeptBy kept events)
  All-KeptBy kept (Event.settles ∷ events) = (tt, All-KeptBy kept events)

-- A snapshot is served that passes the validation, of this version or a later one.
abbrev pub Serves : (least : ℕ) → Option Json → Type 0
Serves least latest =
    (snapshot : Json) × (latest ≡ some snapshot)
    × (validate_routing_snapshot snapshot ≡ ok snapshot)
    × (least ≤ snapshot_version snapshot)

newer_later :
    (latest : Option Json) (served validated : Json)
    → latest ≡ some served
    → is_newer latest validated ≡ true
    → snapshot_version served ≤ snapshot_version validated
newer_later none served validated e h = absurd cc
newer_later (some other) served validated e h =
    let later : snapshot_version other ≤ snapshot_version validated = ground (arith, h) in
    subst (λ s. snapshot_version s ≤ snapshot_version validated) (some-inj e) later

update_latest-Serves :
    (least : ℕ) (result : Result Json) (latest : Option Json)
    → ((snapshot : Json) → result ≡ ok snapshot → validate_routing_snapshot snapshot ≡ ok snapshot)
    → Serves least latest
    → Serves least (update_latest result latest)
update_latest-Serves least (err code) latest valid h = h
update_latest-Serves least (ok validated) latest valid (served, at, passes, above) =
    elim (Bool-cases (is_newer latest validated)) [
      | inl newer ↦ rw newer (
        validated,
        refl,
        valid validated refl,
        omega (arith, above, newer_later latest served validated at newer),
      )
      | inr older ↦ rw older (served, at, passes, above)
    ]

-- What is accepted passes the validation again.
accepted :
    (fetched : Result Json) (snapshot : Json)
    → (fetched >>= validate_routing_snapshot) ≡ ok snapshot
    → validate_routing_snapshot snapshot ≡ ok snapshot
accepted fetched snapshot e =
    let (payload, _, passes) = bind_ok fetched validate_routing_snapshot snapshot e in
    validate_routing_snapshot_again payload snapshot passes

pub refresh_memory-Serves :
    (least : ℕ) (fetched : Result Json) (latest : Option Json)
    → Serves least latest
    → Serves least (refresh_memory fetched latest)
unfolding refresh_memory
refresh_memory-Serves least fetched latest h =
    update_latest-Serves least (fetched >>= validate_routing_snapshot) latest (accepted fetched) h

-- Once a valid snapshot of a version is served, whatever the fetches answer and however the polling is
-- started, stopped and timed out, a valid snapshot of that version or a later one is served.
pub on_events-Serves :
    (least : ℕ) (events : List (Event (Result Json))) (p : Poller (Option Json))
    → Serves least p.content
    → Serves least (on_events refresh_memory events p).content
on_events-Serves least events p h =
    on_events-Keeps refresh_memory (Serves least) events p
      (All-KeptBy refresh_memory (Serves least) (refresh_memory-Serves least) events) h

persist_to_disk-latest :
    (renamed : Bool) (snapshot : Json) (d : DiskCache)
    → (persist_to_disk renamed snapshot d).latest ≡ d.latest
persist_to_disk-latest true snapshot d = refl
persist_to_disk-latest false snapshot d = refl

-- The two caches serve the same.
pub update_disk-latest :
    (renamed : Bool) (result : Result Json) (d : DiskCache)
    → (update_disk renamed result d).latest ≡ update_latest result d.latest
update_disk-latest renamed (err code) d = refl
update_disk-latest renamed (ok validated) d = elim (Bool-cases (is_newer d.latest validated)) [
  | inl newer ↦
      rw newer (persist_to_disk-latest renamed validated (record d { latest = some validated }))
  | inr older ↦ rw older refl
]

refresh_disk-Serves :
    (least : ℕ) (r : Refresh) (d : DiskCache)
    → Serves least d.latest
    → Serves least (refresh_disk r d).latest
unfolding refresh_disk
refresh_disk-Serves least r d h =
    subst (Serves least)
      (sym (update_disk-latest r.renamed (r.fetched >>= validate_routing_snapshot) d))
      (update_latest-Serves least (r.fetched >>= validate_routing_snapshot) d.latest
        (accepted r.fetched) h)

-- The same of the cache with a file, whether or not its writes succeed.
pub on_events-Serves_disk :
    (least : ℕ) (events : List (Event Refresh)) (p : Poller DiskCache)
    → Serves least p.content.latest
    → Serves least (on_events refresh_disk events p).content.latest
on_events-Serves_disk least events p h =
    on_events-Keeps refresh_disk (λ d. Serves least d.latest) events p
      (All-KeptBy refresh_disk (λ d. Serves least d.latest) (refresh_disk-Serves least) events) h
