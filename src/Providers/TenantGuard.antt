-- ===== src/Providers/TenantGuard.antt =====
-- providers/guard/tenant-guard.ts: what is checked before a call is passed on, and the guarded
-- providers. An argument of type `unknown` is what the checks ask of it: whether it is a string, or an
-- array, of what. The underlying provider's operations are parameters, which return or throw and leave
-- a state; freezing and the check that the underlying provider is an object are left out. `trim` and
-- `toLowerCase` are those of ASCII text.
pub mod Isolation
pub mod Names
pub mod Examples
use railfog.Prelude.{
  ℕ, suc, Bool, true, false, not, ◌&&◌, ◌||◌, Option, none, some, List, [], ◌∷◌, ◌++◌, map, Text,
  codes, text_eq, ◌==◌, ltb, if◌then◌else◌, length, drop, any, trim, lower, includes, includes_dots,
  includes_text, is_empty, starts_with, parts_of,
}
use railfog.Errors.{Result, ErrorCode, ok, err, ◌>>◌, ◌>>=◌, throw_if}

pub data Unknown : Type 0 where
  string : Text → Unknown
  no_string : Unknown

pub data UnknownArray : Type 0 where
  array : List Unknown → UnknownArray
  no_array : UnknownArray

pub record TenantContext : Type 0 where
  pub org_id : Text
  pub project_id : Text

-- `toLowerCase().includes("%2e%2e")`
abbrev pub includes_escaped_dots : Text → Bool
includes_escaped_dots text = includes_text (codes "%2e%2e") (map lower text)

-- What a segment must not have: it covers `.`, `..`, slashes, backslashes and null bytes.
abbrev pub is_forbidden : Text → Bool
is_forbidden id =
    text_eq id (codes ".")
    || (text_eq id (codes "..")
        || (includes_dots id
            || (includes b'/' id
                || (includes b'\\' id || (includes 0 id || includes_escaped_dots id)))))

abbrev pub normalize_texts : (org_id project_id : Text) → Result TenantContext
normalize_texts org_id project_id = do
  throw_if (is_empty (trim org_id) || is_empty (trim project_id)) ErrorCode.validation_failed
  throw_if (not (text_eq org_id (trim org_id)) || not (text_eq project_id (trim project_id)))
      ErrorCode.validation_failed
  throw_if (is_forbidden org_id || is_forbidden project_id) ErrorCode.validation_failed
  ok (record { org_id = org_id; project_id = project_id })

-- `normalizeTenantContext`, of an object's two fields.
unfoldable pub normalize_tenant_context : (org_id project_id : Unknown) → Result TenantContext
normalize_tenant_context (Unknown.string org_id) (Unknown.string project_id) =
    normalize_texts org_id project_id
normalize_tenant_context _ _ = err ErrorCode.validation_failed

-- `assertValidSegment`, of a string that is not empty.
abbrev pub assert_valid_segment : Text → Result (Unit {0})
assert_valid_segment segment =
    throw_if (is_empty segment || is_forbidden segment) ErrorCode.permission_denied

-- The loop that copies the segments.
abbrev pub copied : Text → Result (List Text) → Result (List Text)
copied [] rest = err ErrorCode.permission_denied
copied (c ∷ cs) rest = rest >>= λ segments. ok ((c ∷ cs) ∷ segments)

abbrev pub copy_segments : List Unknown → Result (List Text)
copy_segments [] = ok []
copy_segments (Unknown.no_string ∷ key) = err ErrorCode.permission_denied
copy_segments (Unknown.string segment ∷ key) = copied segment (copy_segments key)

abbrev pub assert_valid_segments : List Text → Result (Unit {0})
assert_valid_segments [] = ok tt
assert_valid_segments (segment ∷ segments) =
    assert_valid_segment segment >> assert_valid_segments segments

abbrev pub is_own : TenantContext → List Text → Bool
is_own tenant (org_id ∷ project_id ∷ rest) =
    text_eq org_id tenant.org_id && text_eq project_id tenant.project_id
is_own tenant _ = false

-- The checks of a copied key.
abbrev pub check_copy : TenantContext → List Text → Result (List Text)
check_copy tenant safe_key = do
  throw_if (not (is_own tenant safe_key)) ErrorCode.permission_denied
  assert_valid_segments safe_key
  ok safe_key

unfoldable pub sanitize_kv_key : UnknownArray → TenantContext → Result (List Text)
sanitize_kv_key UnknownArray.no_array tenant = err ErrorCode.permission_denied
sanitize_kv_key (UnknownArray.array key) tenant = do
  throw_if (ltb (length key) 2) ErrorCode.permission_denied
  copy_segments key >>= check_copy tenant

-- The statements of `sanitizeKvKey`, but for the messages.
abbrev pub sanitize_kv_prefix : UnknownArray → TenantContext → Result (List Text)
sanitize_kv_prefix prefix tenant = sanitize_kv_key prefix tenant

abbrev pub object_prefix_of : TenantContext → Text
object_prefix_of tenant = tenant.org_id ++ b'/' ∷ (tenant.project_id ++ b'/' ∷ [])

abbrev pub has_traversal : Text → Bool
has_traversal key =
    includes_dots key || (includes b'\\' key || (includes 0 key || includes_escaped_dots key))

abbrev pub is_dots : Text → Bool
is_dots segment = text_eq segment (codes ".") || text_eq segment (codes "..")

unfoldable pub assert_valid_object_key : Unknown → TenantContext → Result (Unit {0})
assert_valid_object_key Unknown.no_string tenant = err ErrorCode.permission_denied
assert_valid_object_key (Unknown.string key) tenant = do
  let remainder = drop (length (object_prefix_of tenant)) key
  throw_if (not (starts_with (object_prefix_of tenant) key)) ErrorCode.permission_denied
  throw_if (has_traversal key) ErrorCode.permission_denied
  throw_if (is_empty remainder) ErrorCode.permission_denied
  throw_if (any (λ segment. is_dots segment || is_empty segment) (parts_of b'/' remainder))
      ErrorCode.permission_denied

unfoldable pub assert_valid_object_list_prefix : Unknown → TenantContext → Result (Unit {0})
assert_valid_object_list_prefix Unknown.no_string tenant = err ErrorCode.permission_denied
assert_valid_object_list_prefix (Unknown.string prefix) tenant = do
  throw_if (not (starts_with (object_prefix_of tenant) prefix)) ErrorCode.permission_denied
  throw_if (has_traversal prefix) ErrorCode.permission_denied
  throw_if (any is_dots (parts_of b'/' prefix)) ErrorCode.permission_denied

abbrev pub queue_prefix_of : TenantContext → Text
queue_prefix_of tenant = tenant.org_id ++ b'_' ∷ (tenant.project_id ++ b'_' ∷ [])

unfoldable pub assert_valid_queue_name : Unknown → TenantContext → Result (Unit {0})
assert_valid_queue_name Unknown.no_string tenant = err ErrorCode.permission_denied
assert_valid_queue_name (Unknown.string name) tenant = do
  throw_if (is_empty (trim name)) ErrorCode.permission_denied
  throw_if (not (starts_with (queue_prefix_of tenant) name)) ErrorCode.permission_denied
  throw_if (includes b'/' name || has_traversal name) ErrorCode.permission_denied
  throw_if (is_empty (drop (length (queue_prefix_of tenant)) name)) ErrorCode.permission_denied
