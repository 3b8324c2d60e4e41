-- ===== src/Policy/Permissions.antt =====
-- packages/policy/permission-resolver.ts. The bindings are functions over the providers' calls, which
-- are arguments; a listing of a provider is the keys that it returns and the cursor of the next page.
pub mod Isolation
pub mod Examples
use railfog.Prelude.{
  includes, includes_dots, is_empty, starts_with, ℕ, zero, suc, Bool, true, false, not, ◌&&◌, ◌||◌,
  Option, none, some, List, [], ◌∷◌, ◌++◌, map, Text, text_eq, ◌==◌, ltb, if◌then◌else◌, length,
  drop, any, filterb, trim,
}
use railfog.Errors.{Result, ErrorCode, ok, err, ◌>>◌, ◌>>=◌, throw_if}

pub record DeclaredPermissions : Type 0 where
  pub kv : Option (List Text)
  pub objects : Option (List Text)
  pub queues : Option (List Text)
  pub state : Option (List Text)
  pub data_names : Option (List Text)
  pub signal : Option (List Text)
  pub network : Option (List Text)
  pub secrets : Option (List Text)

pub record Normalized : Type 0 where
  pub kv : Option (List Text)
  pub objects : Option (List Text)
  pub queues : Option (List Text)
  pub network : Option (List Text)
  pub secrets : Option (List Text)

abbrev pub is_some {ℓ} : {A : Type ℓ} → Option A → Bool
is_some none = false
is_some (some x) = true

-- `a ?? b`
abbrev pub either {ℓ} : {A : Type ℓ} → Option A → Option A → Option A
either none b = b
either (some a) b = some a

unfoldable pub normalize_declared_capabilities : DeclaredPermissions → Result Normalized
normalize_declared_capabilities d = do
  throw_if (is_some d.kv && is_some d.state) ErrorCode.validation_failed
  throw_if (is_some d.objects && is_some d.data_names) ErrorCode.validation_failed
  throw_if (is_some d.queues && is_some d.signal) ErrorCode.validation_failed
  ok (record {
    kv = either d.state d.kv;
    objects = either d.data_names d.objects;
    queues = either d.signal d.queues;
    network = d.network;
    secrets = d.secrets;
  })

abbrev pub slash : ℕ
slash = b'/'

abbrev pub backslash : ℕ
backslash = b'\\'

-- What an identifier may not hold: `..`, `/`, `\` and null.
abbrev pub is_traversal : Text → Bool
is_traversal id =
    includes_dots id || (includes slash id || (includes backslash id || includes 0 id))

abbrev pub validate_identifier : Text → Result (Unit {0})
validate_identifier id = do
  throw_if (is_empty id || is_empty (trim id)) ErrorCode.validation_failed
  throw_if (is_traversal id) ErrorCode.validation_failed
  ok tt

-- The one resource of a capability, if there is one.
abbrev pub single : Option (List Text) → Result (Option Text)
single none = ok none
single (some []) = ok none
single (some (name ∷ [])) = validate_identifier name >> ok (some name)
single (some (name ∷ other ∷ names)) = err ErrorCode.validation_failed

pub record Scope : Type 0 where
  pub org : Text
  pub project : Text
  pub resource : Text

-- The scopes of the bindings that `resolvePermissions` returns. A queue binding has no prefix.
pub record Bindings : Type 0 where
  pub kv : Option Scope
  pub objects : Option Scope
  pub queues : Bool

abbrev pub scope_of : (org project : Text) → Option Text → Option Scope
scope_of org project none = none
scope_of org project (some name) = some (record { org = org; project = project; resource = name })

-- The checks of `orgId` and `projectId`.
abbrev pub check_ids : (org_id project_id : Text) → Result (Unit {0})
check_ids org_id project_id = do
  throw_if (is_empty org_id || is_empty project_id) ErrorCode.validation_failed
  throw_if (is_traversal org_id) ErrorCode.validation_failed
  throw_if (is_traversal project_id) ErrorCode.validation_failed
  ok tt

-- The bindings of the capabilities, in order.
abbrev pub bind_queues : Option Scope → Option Scope → Option Text → Result Bindings
bind_queues kv objects queues = ok (record { kv = kv; objects = objects; queues = is_some queues })

abbrev pub bind_objects :
    (org_id project_id : Text) → Normalized → Option Scope → Option Text → Result Bindings
bind_objects org_id project_id n kv objects =
    single n.queues >>= bind_queues kv (scope_of org_id project_id objects)

abbrev pub bind_kv : (org_id project_id : Text) → Normalized → Option Text → Result Bindings
bind_kv org_id project_id n kv =
    single n.objects >>= bind_objects org_id project_id n (scope_of org_id project_id kv)

abbrev pub bind_all : (org_id project_id : Text) → Normalized → Result Bindings
bind_all org_id project_id n = single n.kv >>= bind_kv org_id project_id n

unfoldable pub resolve_permissions :
    DeclaredPermissions → (org_id project_id : Text) → Result Bindings
resolve_permissions declared org_id project_id =
    check_ids org_id project_id
    >> (normalize_declared_capabilities declared >>= bind_all org_id project_id)

-- The key-value binding: `[...prefix, ...key]`, for `get`, `set`, `delete`, `list` and the calls of an
-- atomic builder.
unfoldable pub kv_key : Scope → List Text → List Text
kv_key scope key = scope.org ∷ scope.project ∷ scope.resource ∷ key

-- `item.key.slice(prefix.length)`
unfoldable pub kv_list {ℓ} :
    {V : Type ℓ}
    → Scope
    → (provider_list : List Text → List (List Text × V) × Option Text) → (query_prefix : List Text)
    → List (List Text × V) × Option Text
kv_list scope provider_list query_prefix =
    let (items, cursor) = provider_list (kv_key scope query_prefix) in
    (map (λ item. (drop 3 item.0, item.1)) items, cursor)

-- The object binding.
unfoldable pub object_prefix : Scope → Text
object_prefix scope = scope.org ++ slash ∷ (scope.project ++ slash ∷ (scope.resource ++ slash ∷ []))

unfoldable pub validate_object_key : Text → Result (Unit {0})
validate_object_key key =
    throw_if (starts_with (slash ∷ []) key || (includes_dots key || includes backslash key))
      ErrorCode.validation_failed

-- The key that `put`, `get`, `delete`, `head`, `presign` and `createMultipartUpload` pass on.
unfoldable pub object_key : Scope → Text → Result Text
object_key scope key = validate_object_key key >> ok (object_prefix scope ++ key)

-- The cursor passed on: a missing or empty one is none.
abbrev pub provider_cursor : Scope → Option Text → Option Text
provider_cursor scope none = none
provider_cursor scope (some []) = none
provider_cursor scope (some (c ∷ cs)) =
    some
      (if starts_with (object_prefix scope) (c ∷ cs) then c ∷ cs else object_prefix scope ++ c ∷ cs)

abbrev pub strip : Scope → Text → Text
strip scope key = drop (length (object_prefix scope)) key

abbrev pub next_cursor : Scope → Option Text → Option Text
next_cursor scope none = none
next_cursor scope (some cursor) =
    some (if starts_with (object_prefix scope) cursor then strip scope cursor else cursor)

unfoldable pub object_list :
    Scope
    → (provider_list : Text → Option Text → List Text × Option Text)
    → (query_prefix : Text) (cursor : Option Text) → Result (List Text × Option Text)
object_list scope provider_list query_prefix cursor =
    let (keys, cursor') =
      provider_list (object_prefix scope ++ query_prefix) (provider_cursor scope cursor) in
    validate_object_key query_prefix
    >> ok (
      map (strip scope) (filterb (starts_with (object_prefix scope)) keys),
      next_cursor scope cursor',
    )
