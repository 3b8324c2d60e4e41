-- ===== src/Protocol/RoutingSnapshot.antt =====
-- packages/protocol/snapshot.ts, `validateRoutingSnapshot`. The payload is what `JSON.parse` returns, and
-- a missing key is `undefined`. The text of the error is left out, as is the freezing, since nothing of
-- the model changes a payload.
pub mod Checks
use railfog.Prelude.{
  ℕ, Bool, true, false, ◌&&◌, not, Option, none, some, Text, codes, text_eq, starts_with, drop,
  trim, is_empty, leb, if◌then◌else◌,
}
use railfog.Errors.{Result, ErrorCode, ok, ◌>>◌, throw_if}
use railfog.Core.Ulid.{is_valid_ulid}

-- A number of JavaScript, told apart as the checks do: an integer that is not negative, another finite
-- number by its literal, or one that is not finite.
pub data Number : Type 0 where
  natural : ℕ → Number
  finite : Text → Number
  infinite : Number

mutual
  pub data Json : Type 0 where
    null : Json
    boolean : Bool → Json
    number : Number → Json
    string : Text → Json
    array : Items → Json
    object : Fields → Json

  pub data Items : Type 0 where
    nil : Items
    cons : Json → Items → Items

  pub data Fields : Type 0 where
    end : Fields
    field : Text → Json → Fields → Fields

abbrev pub get_field : Text → Fields → Option Json
get_field key Fields.end = none
get_field key (Fields.field k value rest) = if text_eq k key then some value else get_field key rest

-- `value[key]` of a value that is neither `null` nor `undefined`, for the names of fields used here.
abbrev pub property : Text → Json → Option Json
property key (Json.object fields) = get_field key fields
property key other = none

abbrev pub every : (Json → Bool) → Items → Bool
every test Items.nil = true
every test (Items.cons item items) = test item && every test items

abbrev pub every_value : (Json → Bool) → Fields → Bool
every_value test Fields.end = true
every_value test (Fields.field key value rest) = test value && every_value test rest

-- The test of a value that is there.
abbrev pub holds : (Json → Bool) → Option Json → Bool
holds test none = false
holds test (some value) = test value

-- The test of a value that may be `undefined`.
abbrev pub holds_if_present : (Json → Bool) → Option Json → Bool
holds_if_present test none = true
holds_if_present test (some value) = test value

abbrev pub is_string : Json → Bool
is_string (Json.string text) = true
is_string other = false

abbrev pub is_snapshot_id : Json → Bool
is_snapshot_id (Json.string text) = starts_with (codes "snap_") text && is_valid_ulid (drop 5 text)
is_snapshot_id other = false

abbrev pub max_safe_integer : ℕ
max_safe_integer = 9007199254740991

abbrev pub is_version : Json → Bool
is_version (Json.number (Number.natural n)) = leb n max_safe_integer && leb 1 n
is_version other = false

abbrev pub is_finite : Json → Bool
is_finite (Json.number (Number.natural n)) = true
is_finite (Json.number (Number.finite literal)) = true
is_finite other = false

abbrev pub is_route : Json → Bool
is_route route =
    holds is_string (property (codes "pattern") route)
    && holds is_string (property (codes "function") route)

abbrev pub is_routes : Json → Bool
is_routes (Json.array routes) = every is_route routes
is_routes other = false

abbrev pub is_name : Json → Bool
is_name (Json.string text) = not (is_empty (trim text))
is_name other = false

abbrev pub is_strings : Json → Bool
is_strings (Json.array items) = every is_string items
is_strings other = false

abbrev pub is_permissions : Json → Bool
is_permissions (Json.object perms) =
    holds_if_present is_strings (get_field (codes "kv") perms)
    && (holds_if_present is_strings (get_field (codes "objects") perms)
        && (holds_if_present is_strings (get_field (codes "queues") perms)
            && (holds_if_present is_strings (get_field (codes "secrets") perms)
                && holds_if_present is_strings (get_field (codes "network") perms))))
is_permissions other = false

abbrev pub is_limits : Json → Bool
is_limits (Json.object limits) =
    holds is_finite (get_field (codes "cpu_ms") limits)
    && (holds is_finite (get_field (codes "timeout_ms") limits)
        && holds is_finite (get_field (codes "memory_mb") limits))
is_limits other = false

-- The body of the `for` loop over the functions.
abbrev pub is_function : Json → Bool
is_function (Json.object function) =
    holds is_name (get_field (codes "functionName") function)
    && (holds is_name (get_field (codes "revisionId") function)
        && (holds is_name (get_field (codes "artifactId") function)
            && (holds is_permissions (get_field (codes "permissions") function)
                && holds is_limits (get_field (codes "limits") function))))
is_function other = false

abbrev pub is_functions : Json → Bool
is_functions (Json.object functions) = every_value is_function functions
is_functions other = false

abbrev pub require : Bool → Result (Unit {0})
require passes = throw_if (not passes) ErrorCode.validation_failed

abbrev pub is_object : Json → Bool
is_object (Json.object fields) = true
is_object other = false

unfoldable pub validate_routing_snapshot : Json → Result Json
validate_routing_snapshot payload =
    require (is_object payload)
    >> (require (holds is_snapshot_id (property (codes "snapshotId") payload))
        >> (require (holds is_version (property (codes "version") payload))
            >> (require (holds is_routes (property (codes "routes") payload))
                >> (require (holds is_functions (property (codes "functions") payload))
                    >> (require (holds is_finite (property (codes "generatedAt") payload))
                        >> ok payload)))))

-- `snapshot.version`, of a payload that has passed.
abbrev pub version_in : Option Json → ℕ
version_in (some (Json.number (Number.natural n))) = n
version_in other = 0

unfoldable pub snapshot_version : Json → ℕ
snapshot_version snapshot = version_in (property (codes "version") snapshot)
