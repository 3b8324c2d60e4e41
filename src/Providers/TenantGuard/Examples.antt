-- ===== src/Providers/TenantGuard/Examples.antt =====
-- providers/guard/tenant-guard.ts: the theorems at concrete keys and names, and tests.
use railfog.Prelude.{true, starts_with, ◌↔◌, text_eq, ◌≡◌, refl, List, [], ◌∷◌, ◌++◌, codes}
use railfog.Errors.{ErrorCode, ok, err}
use railfog.Providers.GuardedProviders.{create_guarded_queue_provider}
use railfog.Providers.TenantGuard.{
  queue_prefix_of, Unknown, UnknownArray, TenantContext, normalize_tenant_context, sanitize_kv_key,
  assert_valid_object_key, assert_valid_object_list_prefix, assert_valid_queue_name,
}
use railfog.Providers.TenantGuard.Names.{
  Normalized, object_list-isolated, queue_name-shared, tenant_of, Guards,
}

abbrev acme : TenantContext
acme = record { org_id = codes "acme"; project_id = codes "web" }

abbrev own_key : List Unknown
own_key =
    Unknown.string (codes "acme")
    ∷ Unknown.string (codes "web")
    ∷ Unknown.string (codes "users")
    ∷ []

abbrev other_key : List Unknown
other_key =
    Unknown.string (codes "evil")
    ∷ Unknown.string (codes "web")
    ∷ Unknown.string (codes "users")
    ∷ []

abbrev climbing_key : List Unknown
climbing_key =
    Unknown.string (codes "acme")
    ∷ Unknown.string (codes "web")
    ∷ Unknown.string (codes "%2E%2e")
    ∷ []

keys :
    (sanitize_kv_key (UnknownArray.array own_key) acme
      ≡ ok (codes "acme" ∷ codes "web" ∷ codes "users" ∷ []))
    × (sanitize_kv_key (UnknownArray.array other_key) acme ≡ err ErrorCode.permission_denied)
    × (sanitize_kv_key (UnknownArray.array climbing_key) acme ≡ err ErrorCode.permission_denied)
    × (sanitize_kv_key UnknownArray.no_array acme ≡ err ErrorCode.permission_denied)
unfolding sanitize_kv_key text_eq
keys = (refl, refl, refl, refl)

acme-Normalized : Normalized acme
unfolding normalize_tenant_context text_eq
acme-Normalized = refl

untrimmed :
    normalize_tenant_context (Unknown.string (codes "acme ")) (Unknown.string (codes "web"))
    ≡ err ErrorCode.validation_failed
unfolding normalize_tenant_context text_eq
untrimmed = refl

object_runs :
    (assert_valid_object_key (Unknown.string (codes "acme/web/a/b.txt")) acme ≡ ok tt)
    × (assert_valid_object_key (Unknown.string (codes "acme/web/a//b")) acme
        ≡ err ErrorCode.permission_denied)
    × (assert_valid_object_key (Unknown.string (codes "acme/web/")) acme
        ≡ err ErrorCode.permission_denied)
    × (assert_valid_object_list_prefix (Unknown.string (codes "acme/web/")) acme ≡ ok tt)
unfolding assert_valid_object_key assert_valid_object_list_prefix text_eq
object_runs = (refl, refl, refl, refl)

queue_runs :
    (assert_valid_queue_name (Unknown.string (codes "acme_web_jobs")) acme ≡ ok tt)
    × (assert_valid_queue_name (Unknown.string (codes "acme_web_")) acme
        ≡ err ErrorCode.permission_denied)
unfolding assert_valid_queue_name text_eq
queue_runs = (refl, refl)

-- Two distinct tenants that are both let through, and a name that both may use.
shared_runs :
    Normalized (tenant_of (codes "a_b") (codes "c"))
    × Normalized (tenant_of (codes "a") (codes "b_c"))
    × (assert_valid_queue_name
          (Unknown.string (codes "a_b_c_jobs"))
          (tenant_of (codes "a") (codes "b_c"))
        ≡ ok tt)
    × (assert_valid_queue_name
          (Unknown.string (codes "a_b_c_jobs"))
          (tenant_of (codes "a_b") (codes "c"))
        ≡ ok tt)
unfolding normalize_tenant_context assert_valid_queue_name text_eq
shared_runs = (refl, refl, refl, refl)

object_list-isolated_example : acme ≡ acme
object_list-isolated_example =
    object_list-isolated acme acme acme-Normalized acme-Normalized (codes "acme/web/")
      (codes "acme/web/a/b.txt") object_runs.3 object_runs.0 refl

abbrev underscored : TenantContext
underscored = tenant_of (codes "a" ++ b'_' ∷ codes "b") (codes "c")

abbrev underscored_later : TenantContext
underscored_later = tenant_of (codes "a") (codes "b" ++ b'_' ∷ codes "c")

underscored-Normalized : Normalized underscored × Normalized underscored_later
unfolding normalize_tenant_context text_eq
underscored-Normalized = (refl, refl)

-- The guard of the other tenant is made for the queue, too.
queue_made : Guards underscored (codes "a_b_c_jobs")
unfolding create_guarded_queue_provider assert_valid_queue_name normalize_tenant_context text_eq
queue_made = refl

queue_name-shared_example :
    (¬ (underscored ≡ underscored_later))
    × (Guards underscored (codes "a_b_c_jobs") ↔ Guards underscored_later (codes "a_b_c_jobs"))
    × (Guards underscored (codes "a_b_c_jobs")
        → (starts_with (queue_prefix_of underscored) (codes "a_b_c_jobs") ≡ true)
          × (starts_with (queue_prefix_of underscored_later) (codes "a_b_c_jobs") ≡ true))
queue_name-shared_example =
    queue_name-shared (codes "a") (codes "b") (codes "c") (codes "a_b_c_jobs")
      underscored-Normalized.0 underscored-Normalized.1
