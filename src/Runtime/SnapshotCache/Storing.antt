-- ===== src/Runtime/SnapshotCache/Storing.antt =====
-- runtime/snapshot/disk-snapshot-cache.ts, the JSON text in the file: a payload that passes the validation
-- passes it again after it was written and read.
use railfog.Prelude.{
  ◌≡◌, refl, ap, Bool, true, false, ◌&&◌, Option, none, some, Text, text_eq, codes, Bool-cases, inl,
  inr,
}
use railfog.Errors.{ok}
use railfog.Protocol.RoutingSnapshot.{
  Json, Items, Fields, Number, get_field, property, every, every_value, holds, holds_if_present,
  is_string, is_snapshot_id, is_version, is_finite, is_route, is_routes, is_name, is_strings,
  is_permissions, is_limits, is_function, is_functions, is_object, validate_routing_snapshot,
}
use railfog.Protocol.RoutingSnapshot.Checks.{require_then}
use railfog.Runtime.SnapshotCache.{as_stored, stored_items, stored_fields}

abbrev pub stored_option : Option Json → Option Json
stored_option none = none
stored_option (some value) = some (as_stored value)

-- Writing and reading a second time changes nothing more.
mutual
  unfolding as_stored

  as_stored_idem : (value : Json) → as_stored (as_stored value) ≡ as_stored value
  as_stored_idem Json.null = refl
  as_stored_idem (Json.boolean b) = refl
  as_stored_idem (Json.number (Number.natural n)) = refl
  as_stored_idem (Json.number (Number.finite literal)) = refl
  as_stored_idem (Json.number Number.infinite) = refl
  as_stored_idem (Json.string text) = refl
  as_stored_idem (Json.array items) = ap Json.array (stored_items_idem items)
  as_stored_idem (Json.object fields) = ap Json.object (stored_fields_idem fields)

  stored_items_idem : (items : Items) → stored_items (stored_items items) ≡ stored_items items
  stored_items_idem Items.nil = refl
  stored_items_idem (Items.cons item items) = rw (as_stored_idem item, stored_items_idem items) refl

  stored_fields_idem :
      (fields : Fields) → stored_fields (stored_fields fields) ≡ stored_fields fields
  stored_fields_idem Fields.end = refl
  stored_fields_idem (Fields.field key value rest) =
      rw (as_stored_idem value, stored_fields_idem rest) refl

pub stored_option_idem : (o : Option Json) → stored_option (stored_option o) ≡ stored_option o
stored_option_idem none = refl
stored_option_idem (some value) = ap some (as_stored_idem value)

get_field-stored :
    (key : Text) (fields : Fields)
    → get_field key (stored_fields fields) ≡ stored_option (get_field key fields)
unfolding as_stored
get_field-stored key Fields.end = refl
get_field-stored key (Fields.field k value rest) = elim (Bool-cases (text_eq k key)) [
  | inl e ↦ rw e refl
  | inr e ↦ rw e (get_field-stored key rest)
]

property-stored :
    (key : Text) (value : Json)
    → property key (as_stored value) ≡ stored_option (property key value)
unfolding as_stored
property-stored key Json.null = refl
property-stored key (Json.boolean b) = refl
property-stored key (Json.number (Number.natural n)) = refl
property-stored key (Json.number (Number.finite literal)) = refl
property-stored key (Json.number Number.infinite) = refl
property-stored key (Json.string text) = refl
property-stored key (Json.array items) = refl
property-stored key (Json.object fields) = get_field-stored key fields

-- A test that a value passes, it passes after it was stored.
abbrev IsStable : (Json → Bool) → Type 0
IsStable test = (value : Json) → test value ≡ true → test (as_stored value) ≡ true

-- It is enough to look at arrays and objects, for a test that an infinite number fails.
stable :
    (test : Json → Bool)
    → test (Json.number Number.infinite) ≡ false
    → ((items : Items)
        → test (Json.array items) ≡ true
        → test (Json.array (stored_items items)) ≡ true)
    → ((fields : Fields)
        → test (Json.object fields) ≡ true
        → test (Json.object (stored_fields fields)) ≡ true)
    → IsStable test
unfolding as_stored
stable test infinite arrays objects Json.null e = e
stable test infinite arrays objects (Json.boolean b) e = e
stable test infinite arrays objects (Json.number (Number.natural n)) e = e
stable test infinite arrays objects (Json.number (Number.finite literal)) e = e
stable test infinite arrays objects (Json.number Number.infinite) e = absurd cc
stable test infinite arrays objects (Json.string text) e = e
stable test infinite arrays objects (Json.array items) e = arrays items e
stable test infinite arrays objects (Json.object fields) e = objects fields e

holds-stored :
    (test : Json → Bool) (o : Option Json)
    → IsStable test
    → holds test o ≡ true
    → holds test (stored_option o) ≡ true
holds-stored test none s e = e
holds-stored test (some value) s e = s value e

present-stored :
    (test : Json → Bool) (o : Option Json)
    → IsStable test
    → holds_if_present test o ≡ true
    → holds_if_present test (stored_option o) ≡ true
present-stored test none s e = e
present-stored test (some value) s e = s value e

and_both :
    (a b c d : Bool)
    → (a ≡ true → c ≡ true)
    → (b ≡ true → d ≡ true)
    → (a && b) ≡ true
    → (c && d) ≡ true
and_both true b c d f g e = rw (f refl) (g e)
and_both false b c d f g e = absurd cc

every-stored :
    (test : Json → Bool) (items : Items)
    → IsStable test
    → every test items ≡ true
    → every test (stored_items items) ≡ true
unfolding as_stored
every-stored test Items.nil s e = refl
every-stored test (Items.cons item items) s e =
    and_both (test item) (every test items) _ _ (s item) (every-stored test items s) e

every_value-stored :
    (test : Json → Bool) (fields : Fields)
    → IsStable test
    → every_value test fields ≡ true
    → every_value test (stored_fields fields) ≡ true
unfolding as_stored
every_value-stored test Fields.end s e = refl
every_value-stored test (Fields.field key value rest) s e =
    and_both (test value) (every_value test rest) _ _ (s value) (every_value-stored test rest s) e

-- The same of a required field, and of an optional one, of an object that was stored.
required :
    (test : Json → Bool) (key : Text) (fields : Fields)
    → IsStable test
    → holds test (get_field key fields) ≡ true
    → holds test (get_field key (stored_fields fields)) ≡ true
required test key fields s e =
    rw (get_field-stored key fields) (holds-stored test (get_field key fields) s e)

allowed :
    (test : Json → Bool) (key : Text) (fields : Fields)
    → IsStable test
    → holds_if_present test (get_field key fields) ≡ true
    → holds_if_present test (get_field key (stored_fields fields)) ≡ true
allowed test key fields s e =
    rw (get_field-stored key fields) (present-stored test (get_field key fields) s e)

wanted :
    (test : Json → Bool) (key : Text) (value : Json)
    → IsStable test
    → holds test (property key value) ≡ true
    → holds test (property key (as_stored value)) ≡ true
wanted test key value s e =
    rw (property-stored key value) (holds-stored test (property key value) s e)

is_string-IsStable : IsStable is_string
is_string-IsStable = stable is_string refl (λ items e. e) λ fields e. e

is_finite-IsStable : IsStable is_finite
is_finite-IsStable = stable is_finite refl (λ items e. e) λ fields e. e

is_name-IsStable : IsStable is_name
is_name-IsStable = stable is_name refl (λ items e. e) λ fields e. e

is_strings-IsStable : IsStable is_strings
is_strings-IsStable =
    stable is_strings refl (λ items e. every-stored is_string items is_string-IsStable e)
      λ fields e. e

is_route-IsStable : IsStable is_route
is_route-IsStable route e =
    and_both _ _ _ _ (wanted is_string (codes "pattern") route is_string-IsStable)
      (wanted is_string (codes "function") route is_string-IsStable) e

is_routes-IsStable : IsStable is_routes
is_routes-IsStable =
    stable is_routes refl (λ items e. every-stored is_route items is_route-IsStable e) λ fields e. e

is_permissions-IsStable : IsStable is_permissions
is_permissions-IsStable =
    stable is_permissions refl (λ items e. e)
      λ fields e.
        and_both _ _ _ _ (allowed is_strings (codes "kv") fields is_strings-IsStable)
          (and_both _ _ _ _ (allowed is_strings (codes "objects") fields is_strings-IsStable) (
            and_both _ _ _ _ (allowed is_strings (codes "queues") fields is_strings-IsStable) (
              and_both _ _ _ _ (allowed is_strings (codes "secrets") fields is_strings-IsStable)
                (allowed is_strings (codes "network") fields is_strings-IsStable))))
          e

is_limits-IsStable : IsStable is_limits
is_limits-IsStable =
    stable is_limits refl (λ items e. e)
      λ fields e.
        and_both _ _ _ _ (required is_finite (codes "cpu_ms") fields is_finite-IsStable)
          (and_both _ _ _ _ (required is_finite (codes "timeout_ms") fields is_finite-IsStable)
            (required is_finite (codes "memory_mb") fields is_finite-IsStable))
          e

is_function-IsStable : IsStable is_function
is_function-IsStable =
    stable is_function refl (λ items e. e)
      λ fields e.
        and_both _ _ _ _ (required is_name (codes "functionName") fields is_name-IsStable)
          (and_both _ _ _ _ (required is_name (codes "revisionId") fields is_name-IsStable) (
            and_both _ _ _ _ (required is_name (codes "artifactId") fields is_name-IsStable) (
              and_both _ _ _ _
                (required is_permissions (codes "permissions") fields is_permissions-IsStable)
                (required is_limits (codes "limits") fields is_limits-IsStable))))
          e

is_functions-IsStable : IsStable is_functions
is_functions-IsStable =
    stable is_functions refl (λ items e. e)
      λ fields e. every_value-stored is_function fields is_function-IsStable e

pub validate_routing_snapshot-stored :
    (payload snapshot : Json)
    → validate_routing_snapshot payload ≡ ok snapshot
    → validate_routing_snapshot (as_stored payload) ≡ ok (as_stored payload)
unfolding validate_routing_snapshot
validate_routing_snapshot-stored payload snapshot e =
    let (o, e1) = require_then (is_object payload) _ snapshot e in
    let (i, e2) =
      require_then (holds is_snapshot_id (property (codes "snapshotId") payload)) _ snapshot e1 in
    let (v, e3) =
      require_then (holds is_version (property (codes "version") payload)) _ snapshot e2 in
    let (r, e4) =
      require_then (holds is_routes (property (codes "routes") payload)) _ snapshot e3 in
    let (f, e5) =
      require_then (holds is_functions (property (codes "functions") payload)) _ snapshot e4 in
    let (g, _) =
      require_then (holds is_finite (property (codes "generatedAt") payload)) _ snapshot e5 in
    rw
      (
        stable is_object refl (λ items e. e) (λ fields e. e) payload o,
        wanted is_snapshot_id (codes "snapshotId") payload
            (stable is_snapshot_id refl (λ items e. e) λ fields e. e) i,
        wanted is_version (codes "version") payload
            (stable is_version refl (λ items e. e) λ fields e. e) v,
        wanted is_routes (codes "routes") payload is_routes-IsStable r,
        wanted is_functions (codes "functions") payload is_functions-IsStable f,
        wanted is_finite (codes "generatedAt") payload is_finite-IsStable g,
      )
      refl
