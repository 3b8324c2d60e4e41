-- ===== src/Providers/TenantGuard/Names.antt =====
-- providers/guard/tenant-guard.ts: what the prefixes of object keys and of queue names say of a tenant.
use railfog.Prelude.{
  some, drop, ◌≢◌, ◌↔◌, ℕ, text_eq, ◌≡◌, refl, ap, sym, ◌∙◌, true, false, not, ◌||◌, [], ◌∷◌, ◌++◌,
  Text, arith, starts_with, starts_with-split, is_empty, append_assoc, trim, LacksSlash,
  split_at_slash,
}
use railfog.Errors.{ErrorCode, ok, throw_if, then_ok, throw_if-ok}
use railfog.Providers.GuardedProviders.{create_guarded_queue_provider}
use railfog.Providers.TenantGuard.{
  Unknown, TenantContext, is_forbidden, normalize_tenant_context, object_prefix_of,
  assert_valid_object_key, assert_valid_object_list_prefix, queue_prefix_of,
  assert_valid_queue_name,
}

-- A context that `normalizeTenantContext` has let through.
abbrev pub Normalized : TenantContext → Type 0
Normalized tenant =
    normalize_tenant_context (Unknown.string tenant.org_id) (Unknown.string tenant.project_id)
    ≡ ok tenant

forbidden-LacksSlash : (id : Text) → is_forbidden id ≡ false → LacksSlash id
forbidden-LacksSlash id e = ground arith

checked-LacksSlash :
    (org project : Text)
    → throw_if (is_forbidden org || is_forbidden project) ErrorCode.validation_failed ≡ ok tt
    → LacksSlash org × LacksSlash project
checked-LacksSlash org project e = ground (
  arith,
  throw_if-ok (is_forbidden org || is_forbidden project) ErrorCode.validation_failed e,
  forbidden-LacksSlash org,
  forbidden-LacksSlash project,
)

normalized-LacksSlash :
    (tenant : TenantContext)
    → Normalized tenant
    → LacksSlash tenant.org_id × LacksSlash tenant.project_id
unfolding normalize_tenant_context
normalized-LacksSlash tenant e =
    let org = tenant.org_id in
    let project = tenant.project_id in
    let (_, e1) =
      then_ok
        (throw_if (is_empty (trim org) || is_empty (trim project)) ErrorCode.validation_failed) _
        tenant e in
    let (_, e2) =
      then_ok
        (throw_if (not (text_eq org (trim org)) || not (text_eq project (trim project)))
          ErrorCode.validation_failed)
        _ tenant e1 in
    let (checked, _) =
      then_ok (throw_if (is_forbidden org || is_forbidden project) ErrorCode.validation_failed)
        (ok tenant) tenant e2 in
    checked-LacksSlash org project checked

prefix-split :
    (t : TenantContext) (key : Text)
    → object_prefix_of t ++ key ≡ t.org_id ++ b'/' ∷ (t.project_id ++ b'/' ∷ key)
prefix-split t key =
    append_assoc t.org_id _ key ∙ ap (λ r. t.org_id ++ b'/' ∷ r) (append_assoc t.project_id _ key)

-- A text begins with the prefix of at most one tenant.
prefix_inj :
    (t t' : TenantContext) (key : Text)
    → LacksSlash t.org_id × LacksSlash t.project_id
    → LacksSlash t'.org_id × LacksSlash t'.project_id
    → starts_with (object_prefix_of t) key ≡ true
    → starts_with (object_prefix_of t') key ≡ true
    → t ≡ t'
prefix_inj t t' key (org, project) (org', project') own own' =
    let (same_org, after) = split_at_slash t.org_id t'.org_id _ _ org org' (
      sym (prefix-split t _)
      ∙ starts_with-split (object_prefix_of t) key own
      ∙ sym (starts_with-split (object_prefix_of t') key own')
      ∙ prefix-split t' _) in
    let (same_project, _) = split_at_slash t.project_id t'.project_id _ _ project project' after in
    cc

starts_with-append :
    (prefix middle text : Text)
    → starts_with prefix middle ≡ true
    → starts_with middle text ≡ true
    → starts_with prefix text ≡ true
starts_with-append [] middle text e e' = refl
starts_with-append (c ∷ cs) [] text e e' = cc
starts_with-append (c ∷ cs) (d ∷ ds) [] e e' = cc
starts_with-append (c ∷ cs) (d ∷ ds) (x ∷ xs) e e' = ground (arith, starts_with-append cs ds xs)

object_key-own :
    (key : Text) (t : TenantContext)
    → assert_valid_object_key (Unknown.string key) t ≡ ok tt
    → starts_with (object_prefix_of t) key ≡ true
unfolding assert_valid_object_key
object_key-own key t e = ground arith

list_prefix-own :
    (prefix : Text) (t : TenantContext)
    → assert_valid_object_list_prefix (Unknown.string prefix) t ≡ ok tt
    → starts_with (object_prefix_of t) prefix ≡ true
unfolding assert_valid_object_list_prefix
list_prefix-own prefix t e = ground arith

-- For contexts that are let through: a list prefix that one tenant's guard accepts begins no key that
-- another tenant's guard accepts.
pub object_list-isolated :
    (t t' : TenantContext)
    → Normalized t
    → Normalized t'
    → (prefix key : Text) → assert_valid_object_list_prefix (Unknown.string prefix) t ≡ ok tt
    → assert_valid_object_key (Unknown.string key) t' ≡ ok tt
    → starts_with prefix key ≡ true
    → t ≡ t'
object_list-isolated t t' normal normal' prefix key listed own begins =
    prefix_inj t t' key (normalized-LacksSlash t normal) (normalized-LacksSlash t' normal')
      (starts_with-append (object_prefix_of t) prefix key (list_prefix-own prefix t listed) begins)
      (object_key-own key t' own)

-- For contexts that are let through: an object key is accepted by the guard of at most one tenant.
pub object_key-isolated :
    (t t' : TenantContext)
    → Normalized t
    → Normalized t'
    → (key : Text) → assert_valid_object_key (Unknown.string key) t ≡ ok tt
    → assert_valid_object_key (Unknown.string key) t' ≡ ok tt
    → t ≡ t'
object_key-isolated t t' normal normal' key own own' =
    prefix_inj t t' key (normalized-LacksSlash t normal) (normalized-LacksSlash t' normal')
      (object_key-own key t own) (object_key-own key t' own')

abbrev pub tenant_of : (org_id project_id : Text) → TenantContext
tenant_of org_id project_id = record { org_id = org_id; project_id = project_id }

shared_prefix :
    (a b c : Text)
    → queue_prefix_of (tenant_of (a ++ b'_' ∷ b) c) ≡ queue_prefix_of (tenant_of a (b ++ b'_' ∷ c))
shared_prefix a b c =
    append_assoc a (b'_' ∷ b) _ ∙ ap (λ r. a ++ b'_' ∷ r) (sym (append_assoc b (b'_' ∷ c) _))

same_check :
    (a b c : Text) (name : Unknown)
    → assert_valid_queue_name name (tenant_of (a ++ b'_' ∷ b) c)
      ≡ assert_valid_queue_name name (tenant_of a (b ++ b'_' ∷ c))
unfolding assert_valid_queue_name
same_check a b c Unknown.no_string = refl
same_check a b c (Unknown.string name) = rw (shared_prefix a b c) refl

queue_name-own :
    (name : Text) (t : TenantContext)
    → assert_valid_queue_name (Unknown.string name) t ≡ ok tt
    → starts_with (queue_prefix_of t) name ≡ true
unfolding assert_valid_queue_name
queue_name-own name t e = ground arith

-- A guard is made for the tenant and the name, as they are.
abbrev pub Guards : TenantContext → Text → Type 0
Guards t name =
    create_guarded_queue_provider (Unknown.string t.org_id) (Unknown.string t.project_id)
      (some name)
    ≡ ok (t, some name)

Guards-iff :
    (t : TenantContext) (name : Text)
    → Normalized t
    → Guards t name ↔ (assert_valid_queue_name (Unknown.string name) t ≡ ok tt)
unfolding create_guarded_queue_provider
Guards-iff t name normal = rw normal (
  (λ e. (then_ok (assert_valid_queue_name (Unknown.string name) t) _ (t, some name) e).0),
  λ e. rw e refl,
)

longer : (a b : Text) (x : ℕ) → a ++ x ∷ b ≢ a
longer [] b x e = absurd cc
longer (c ∷ cs) b x e = longer cs b x (ap (drop 1) e)

-- An underscore is no separator. For all texts a, b and c for which the contexts `a_b`, `c` and `a`,
-- `b_c` are let through: the two tenants are distinct, a guard is made for a queue of one exactly when it
-- is made for that queue of the other, and the names of these queues begin with the prefix of each.
pub queue_name-shared :
    (a b c name : Text)
    → let t = tenant_of (a ++ b'_' ∷ b) c in
      let t' = tenant_of a (b ++ b'_' ∷ c) in
      Normalized t
      → Normalized t'
      → (¬ (t ≡ t'))
        × (Guards t name ↔ Guards t' name)
        × (Guards t name
            → (starts_with (queue_prefix_of t) name ≡ true)
              × (starts_with (queue_prefix_of t') name ≡ true))
queue_name-shared a b c name normal normal' =
    let t = tenant_of (a ++ b'_' ∷ b) c in
    let t' = tenant_of a (b ++ b'_' ∷ c) in
    let (down, up) = Guards-iff t name normal in
    let (down', up') = Guards-iff t' name normal' in
    let same = same_check a b c (Unknown.string name) in
    (
      (λ e. longer a b b'_' (ap (λ x. x.org_id) e)),
      ((λ g. up' (sym same ∙ down g)), λ g. up (same ∙ down' g)),
      λ g. (queue_name-own name t (down g), queue_name-own name t' (sym same ∙ down g)),
    )
