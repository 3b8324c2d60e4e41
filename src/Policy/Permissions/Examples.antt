-- ===== src/Policy/Permissions/Examples.antt =====
-- packages/policy/permission-resolver.ts: the theorems at concrete scopes, and tests by evaluation.
use railfog.Prelude.{◌≡◌, refl, false, Option, none, some, List, [], ◌∷◌, Text, codes}
use railfog.Errors.{ErrorCode, ok, err}
use railfog.Policy.Permissions.{
  DeclaredPermissions, Scope, Bindings, resolve_permissions, normalize_declared_capabilities,
  object_prefix, object_key, validate_object_key, object_list,
}
use railfog.Policy.Permissions.Isolation.{object_key_isolated}

abbrev nothing : DeclaredPermissions
nothing = record {
  kv = none;
  objects = none;
  queues = none;
  state = none;
  data_names = none;
  signal = none;
  network = none;
  secrets = none;
}

abbrev wants_files : DeclaredPermissions
wants_files = record nothing { objects = some (codes "files" ∷ []) }

abbrev files : Scope
files = record { org = codes "acme"; project = codes "web"; resource = codes "files" }

abbrev files_bound : Bindings
files_bound = record { kv = none; objects = some files; queues = false }

resolved_files : resolve_permissions wants_files (codes "acme") (codes "web") ≡ ok files_bound
unfolding resolve_permissions normalize_declared_capabilities
resolved_files = refl

both_names :
    resolve_permissions
      (record nothing { kv = some []; state = some [] })
      (codes "acme")
      (codes "web")
    ≡ err ErrorCode.validation_failed
unfolding resolve_permissions normalize_declared_capabilities
both_names = refl

slash_in_name :
    resolve_permissions
      (record nothing { kv = some (codes "a/b" ∷ []) })
      (codes "acme")
      (codes "web")
    ≡ err ErrorCode.validation_failed
unfolding resolve_permissions normalize_declared_capabilities
slash_in_name = refl

sent_key : object_key files (codes "x") ≡ ok (codes "acme/web/files/x")
unfolding object_key validate_object_key object_prefix
sent_key = refl

object_key_isolated_example : (files ≡ files) × (codes "x" ≡ codes "x")
object_key_isolated_example =
    object_key_isolated wants_files wants_files (codes "acme") (codes "acme") (codes "web")
      (codes "web") files_bound files_bound files files (codes "x") (codes "x")
      (codes "acme/web/files/x") resolved_files resolved_files refl refl sent_key sent_key

-- A provider that lists a key of another scope too.
abbrev lists_two : Text → Option Text → List Text × Option Text
lists_two prefix cursor = (codes "acme/web/files/x" ∷ codes "acme/web/other/y" ∷ [], none)

listed_one : object_list files lists_two [] none ≡ ok (codes "x" ∷ [], none)
unfolding object_list validate_object_key object_prefix
listed_one = refl
