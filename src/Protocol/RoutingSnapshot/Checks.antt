-- ===== src/Protocol/RoutingSnapshot/Checks.antt =====
-- packages/protocol/snapshot.ts: what a payload that passes is.
use railfog.Prelude.{
  subst, ◌≤◌, ◌≡◌, refl, sym, Bool, true, false, ◌&&◌, Option, none, some, Text, codes, leb, leb→le,
}
use railfog.Errors.{Result, ok, ◌>>◌, ok-inj}
use railfog.Protocol.RoutingSnapshot.{
  is_finite, is_functions, Json, Items, Number, property, holds, every, is_string, is_route,
  is_routes, is_version, is_object, max_safe_integer, require, validate_routing_snapshot,
  snapshot_version, version_in, is_snapshot_id,
}

abbrev pub IsText : Option Json → Type 0
IsText value = (text : Text) × (value ≡ some (Json.string text))

abbrev pub HasRoute : Json → Type 0
HasRoute route =
    IsText (property (codes "pattern") route) × IsText (property (codes "function") route)

abbrev pub AllItems : (Json → Type 0) → Items → Type 0
AllItems P Items.nil = Unit
AllItems P (Items.cons item items) = P item × AllItems P items

-- The field is a list of routes.
abbrev pub RoutesAre : Option Json → Type 0
RoutesAre value = (routes : Items) × (value ≡ some (Json.array routes)) × AllItems HasRoute routes

abbrev pub VersionIs : Json → Type 0
VersionIs payload = (1 ≤ snapshot_version payload) × (snapshot_version payload ≤ max_safe_integer)

require-ok : (passes : Bool) → require passes ≡ ok tt → passes ≡ true
require-ok true e = refl
require-ok false e = absurd cc

and_left : (a b : Bool) → (a && b) ≡ true → a ≡ true
and_left true b e = refl
and_left false b e = e

and_right : (a b : Bool) → (a && b) ≡ true → b ≡ true
and_right true b e = e
and_right false b e = absurd cc

is_string_sound : (value : Option Json) → holds is_string value ≡ true → IsText value
is_string_sound none e = absurd cc
is_string_sound (some (Json.string text)) e = (text, refl)
is_string_sound (some Json.null) e = absurd cc
is_string_sound (some (Json.boolean b)) e = absurd cc
is_string_sound (some (Json.number n)) e = absurd cc
is_string_sound (some (Json.array items)) e = absurd cc
is_string_sound (some (Json.object fields)) e = absurd cc

is_route_sound : (route : Json) → is_route route ≡ true → HasRoute route
is_route_sound route e = (
  is_string_sound (property (codes "pattern") route) (
      and_left (holds is_string (property (codes "pattern") route))
        (holds is_string (property (codes "function") route)) e),
  is_string_sound (property (codes "function") route) (
      and_right (holds is_string (property (codes "pattern") route))
        (holds is_string (property (codes "function") route)) e),
)

every_sound : (routes : Items) → every is_route routes ≡ true → AllItems HasRoute routes
every_sound Items.nil e = tt
every_sound (Items.cons item items) e = (
  is_route_sound item (and_left (is_route item) (every is_route items) e),
  every_sound items (and_right (is_route item) (every is_route items) e),
)

is_routes_sound : (value : Option Json) → holds is_routes value ≡ true → RoutesAre value
is_routes_sound none e = absurd cc
is_routes_sound (some (Json.array routes)) e = (routes, refl, every_sound routes e)
is_routes_sound (some Json.null) e = absurd cc
is_routes_sound (some (Json.boolean b)) e = absurd cc
is_routes_sound (some (Json.number n)) e = absurd cc
is_routes_sound (some (Json.string text)) e = absurd cc
is_routes_sound (some (Json.object fields)) e = absurd cc

is_version_sound :
    (value : Option Json)
    → holds is_version value ≡ true
    → (1 ≤ version_in value) × (version_in value ≤ max_safe_integer)
is_version_sound none e = absurd cc
is_version_sound (some (Json.number (Number.natural n))) e = (
  leb→le 1 n (and_right (leb n max_safe_integer) (leb 1 n) e),
  leb→le n max_safe_integer (and_left (leb n max_safe_integer) (leb 1 n) e),
)
is_version_sound (some (Json.number (Number.finite literal))) e = absurd cc
is_version_sound (some (Json.number Number.infinite)) e = absurd cc
is_version_sound (some Json.null) e = absurd cc
is_version_sound (some (Json.boolean b)) e = absurd cc
is_version_sound (some (Json.string text)) e = absurd cc
is_version_sound (some (Json.array items)) e = absurd cc
is_version_sound (some (Json.object fields)) e = absurd cc

pub require_then :
    (passes : Bool) (rest : Result Json) (snapshot : Json)
    → (require passes >> rest) ≡ ok snapshot
    → (passes ≡ true) × (rest ≡ ok snapshot)
require_then true rest snapshot e = (refl, e)
require_then false rest snapshot e = absurd cc

-- A payload that passes is returned as it is; its version is a positive safe integer, and its routes
-- are a list, each with the texts of a pattern and of a function.
pub validate_routing_snapshot_sound :
    (payload snapshot : Json)
    → validate_routing_snapshot payload ≡ ok snapshot
    → (snapshot ≡ payload) × VersionIs payload × RoutesAre (property (codes "routes") payload)
unfolding validate_routing_snapshot snapshot_version
validate_routing_snapshot_sound payload snapshot e =
    let (_, e1) = require_then (is_object payload) _ snapshot e in
    let (_, e2) =
      require_then (holds is_snapshot_id (property (codes "snapshotId") payload)) _ snapshot e1 in
    let (v, e3) =
      require_then (holds is_version (property (codes "version") payload)) _ snapshot e2 in
    let (r, e4) =
      require_then (holds is_routes (property (codes "routes") payload)) _ snapshot e3 in
    let (_, e5) =
      require_then (holds is_functions (property (codes "functions") payload)) _ snapshot e4 in
    let (_, e6) =
      require_then (holds is_finite (property (codes "generatedAt") payload)) _ snapshot e5 in
    (
      sym (ok-inj e6),
      is_version_sound (property (codes "version") payload) v,
      is_routes_sound (property (codes "routes") payload) r,
    )

-- What was accepted once is accepted again.
pub validate_routing_snapshot_again :
    (payload snapshot : Json)
    → validate_routing_snapshot payload ≡ ok snapshot
    → validate_routing_snapshot snapshot ≡ ok snapshot
validate_routing_snapshot_again payload snapshot e =
    let (same, _, _) = validate_routing_snapshot_sound payload snapshot e in
    subst (λ p. validate_routing_snapshot p ≡ ok snapshot) (sym same) e
