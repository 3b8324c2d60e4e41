-- ===== src/Providers/GuardedProviders.antt =====
-- providers/guard/tenant-guard.ts, the guarded providers and the functions that make them. A provider
-- is a function of its calls and of its state, and so is a guarded one.
pub mod Isolation
pub mod Runs
pub mod Examples
use railfog.Prelude.{ℕ, Option, none, some, List, [], ◌∷◌, Text}
use railfog.Errors.{Result, ErrorCode, ok, err, ◌>>◌, ◌>>=◌}
use railfog.Providers.TenantGuard.{
  Unknown, UnknownArray, TenantContext, sanitize_kv_key, sanitize_kv_prefix,
  normalize_tenant_context, assert_valid_object_key, assert_valid_object_list_prefix,
  assert_valid_queue_name,
}

-- A call whose check throws is not passed on.
abbrev pub guarded {ℓ} :
    {A : Type ℓ} {R S : Type 0} → Result A → (A → S → Result R × S) → S → Result R × S
guarded (err code) pass_on s = (err code, s)
guarded (ok checked) pass_on s = pass_on checked s

pub data KvCall (K V : Type 0) : Type 0 where
  get : K → KvCall K V
  set : K → V → (ttl : Option ℕ) → KvCall K V
  delete : K → KvCall K V
  list : (prefix : K) (limit : Option ℕ) (cursor : Option Text) → KvCall K V

-- A step of an atomic builder.
pub data AtomicCall (K V : Type 0) : Type 0 where
  check : K → (expected_version : ℕ) → AtomicCall K V
  set : K → V → AtomicCall K V
  delete : K → AtomicCall K V

-- A call of which a presigned URL is one, with its options in `O`.
pub data ObjectCall (D O : Type 0) : Type 0 where
  put : Unknown → D → ObjectCall D O
  get : Unknown → ObjectCall D O
  delete : Unknown → ObjectCall D O
  head : Unknown → ObjectCall D O
  list : (prefix : Unknown) (limit : Option ℕ) (cursor : Option Text) → ObjectCall D O
  presign : Unknown → O → ObjectCall D O
  create_multipart_upload : Unknown → ObjectCall D O

module _ {V : Type 0} (tenant : TenantContext) where
  abbrev pub sanitize_call : KvCall UnknownArray V → Result (KvCall (List Text) V)
  sanitize_call (KvCall.get key) =
      sanitize_kv_key key tenant >>= λ safe_key. ok (KvCall.get safe_key)
  sanitize_call (KvCall.set key value ttl) =
      sanitize_kv_key key tenant >>= λ safe_key. ok (KvCall.set safe_key value ttl)
  sanitize_call (KvCall.delete key) =
      sanitize_kv_key key tenant >>= λ safe_key. ok (KvCall.delete safe_key)
  sanitize_call (KvCall.list prefix limit cursor) =
      sanitize_kv_prefix prefix tenant >>= λ safe_prefix. ok (KvCall.list safe_prefix limit cursor)

  abbrev pub sanitize_step : AtomicCall UnknownArray V → Result (AtomicCall (List Text) V)
  sanitize_step (AtomicCall.check key version) =
      sanitize_kv_key key tenant >>= λ safe_key. ok (AtomicCall.check safe_key version)
  sanitize_step (AtomicCall.set key value) =
      sanitize_kv_key key tenant >>= λ safe_key. ok (AtomicCall.set safe_key value)
  sanitize_step (AtomicCall.delete key) =
      sanitize_kv_key key tenant >>= λ safe_key. ok (AtomicCall.delete safe_key)

  -- The steps of a builder; one that throws ends them.
  abbrev pub sanitize_steps :
      List (AtomicCall UnknownArray V) → Result (List (AtomicCall (List Text) V))
  sanitize_steps [] = ok []
  sanitize_steps (step ∷ steps) = do
    safe ← sanitize_step step
    rest ← sanitize_steps steps
    ok (safe ∷ rest)

  unfoldable pub guarded_kv :
      {R S : Type 0}
      → (underlying : KvCall (List Text) V → S → Result R × S) → KvCall UnknownArray V
      → S
      → Result R × S
  guarded_kv underlying call s = guarded (sanitize_call call) underlying s

  -- `atomic()`, with the steps and the commit at its end.
  unfoldable pub guarded_commit :
      {R S : Type 0}
      → (commit : List (AtomicCall (List Text) V) → S → Result R × S)
      → List (AtomicCall UnknownArray V)
      → S
      → Result R × S
  guarded_commit commit steps s = guarded (sanitize_steps steps) commit s

abbrev pub check_object_call : {D O : Type 0} → TenantContext → ObjectCall D O → Result (Unit {0})
check_object_call tenant (ObjectCall.put key data') = assert_valid_object_key key tenant
check_object_call tenant (ObjectCall.get key) = assert_valid_object_key key tenant
check_object_call tenant (ObjectCall.delete key) = assert_valid_object_key key tenant
check_object_call tenant (ObjectCall.head key) = assert_valid_object_key key tenant
check_object_call tenant (ObjectCall.list prefix limit cursor) =
    assert_valid_object_list_prefix prefix tenant
check_object_call tenant (ObjectCall.presign key opts) = assert_valid_object_key key tenant
check_object_call tenant (ObjectCall.create_multipart_upload key) =
    assert_valid_object_key key tenant

unfoldable pub guarded_objects :
    {D O R S : Type 0}
    → TenantContext
    → (underlying : ObjectCall D O → S → Result R × S) → ObjectCall D O
    → S
    → Result R × S
guarded_objects tenant underlying call s =
    guarded (check_object_call tenant call) (λ _. underlying call) s

abbrev assert_bound : TenantContext → Option Text → Result (Unit {0})
assert_bound tenant none = ok tt
assert_bound tenant (some name) = assert_valid_queue_name (Unknown.string name) tenant

-- `createGuardedQueueProvider`: the context and the name that the guard keeps. Those of the other two
-- providers keep the context alone.
unfoldable pub create_guarded_queue_provider :
    (org_id project_id : Unknown) (queue_name : Option Text) → Result (TenantContext × Option Text)
create_guarded_queue_provider org_id project_id queue_name =
    normalize_tenant_context org_id project_id >>= λ safe_tenant.
    assert_bound safe_tenant queue_name >> ok (safe_tenant, queue_name)

abbrev assert_underlying : TenantContext → Option Text → Option Unknown → Result (Unit {0})
assert_underlying tenant none none = err ErrorCode.permission_denied
assert_underlying tenant (some bound) none = ok tt
assert_underlying tenant bound (some name) = assert_valid_queue_name name tenant

unfoldable pub assert_current_queue_name :
    TenantContext
    → (bound_queue_name : Option Text) (underlying_name : Option Unknown) → Result (Unit {0})
assert_current_queue_name tenant bound_queue_name underlying_name = do
  assert_bound tenant bound_queue_name
  assert_underlying tenant bound_queue_name underlying_name

-- Each operation of the queue, whose name is read from the state at each call.
unfoldable pub guarded_queue :
    {R S : Type 0}
    → TenantContext
    → (bound_queue_name : Option Text) → (underlying_name : S → Option Unknown)
    → (operation : S → Result R × S) → S
    → Result R × S
guarded_queue tenant bound_queue_name underlying_name operation s =
    guarded (assert_current_queue_name tenant bound_queue_name (underlying_name s)) (λ _. operation)
      s
