-- ===== src/Policy/Permissions/Isolation.antt =====
-- packages/policy/permission-resolver.ts: two scopes never share a key, and a listing shows a scope
-- nothing but its own keys.
use railfog.Prelude.{
  LacksSlash, split_at_slash, starts_with, starts_with-split, append_assoc, some-inj, subst, ◌≡◌,
  refl, sym, ◌∙◌, ap, false, Option, none, some, List, [], ◌∷◌, ◌++◌, map, Text, arith, filterb,
  Bool-cases, inl, inr,
}
use railfog.Errors.{◌>>=◌, then_ok, bind_ok, ok}
use railfog.Policy.Permissions.{
  bind_queues, bind_objects, bind_kv, bind_all, provider_cursor, check_ids, DeclaredPermissions,
  Scope, Bindings, slash, is_traversal, validate_identifier, single, scope_of, resolve_permissions,
  object_prefix, validate_object_key, object_key, strip, object_list,
  normalize_declared_capabilities,
}

-- The identifiers of a scope that `resolvePermissions` has let through.
abbrev pub IsClean : Scope → Type 0
IsClean scope = LacksSlash scope.org × (LacksSlash scope.project × LacksSlash scope.resource)

prefix-split :
    (s : Scope) (key : Text)
    → object_prefix s ++ key ≡ s.org ++ slash ∷ (s.project ++ slash ∷ (s.resource ++ slash ∷ key))
unfolding object_prefix
prefix-split s key =
    append_assoc s.org _ key
    ∙ ap (λ r. s.org ++ slash ∷ r) (append_assoc s.project _ key)
    ∙ ap (λ r. s.org ++ slash ∷ (s.project ++ slash ∷ r)) (append_assoc s.resource _ key)

object_prefix_inj :
    (s s' : Scope) (key key' : Text)
    → IsClean s
    → IsClean s'
    → object_prefix s ++ key ≡ object_prefix s' ++ key'
    → (s ≡ s') × (key ≡ key')
object_prefix_inj s s' key key' (org, (project, resource)) (org', (project', resource')) e =
    let (same_org, after_org) =
      split_at_slash s.org s'.org _ _ org org'
        (sym (prefix-split s key) ∙ e ∙ prefix-split s' key') in
    let (same_project, after_project) =
      split_at_slash s.project s'.project _ _ project project' after_org in
    let (same_resource, same_key) =
      split_at_slash s.resource s'.resource _ _ resource resource' after_project in
    (cc, same_key)

traversal-LacksSlash : (id : Text) → is_traversal id ≡ false → LacksSlash id
traversal-LacksSlash id e = ground arith

identifier-LacksSlash : (id : Text) → validate_identifier id ≡ ok tt → LacksSlash id
identifier-LacksSlash id e = ground arith

check_ids-LacksSlash :
    (org project : Text) → check_ids org project ≡ ok tt → LacksSlash org × LacksSlash project
check_ids-LacksSlash org project e = ground arith

single-LacksSlash :
    (names : Option (List Text)) (name : Text) → single names ≡ ok (some name) → LacksSlash name
single-LacksSlash none name e = absurd cc
single-LacksSlash (some []) name e = absurd cc
single-LacksSlash (some (n ∷ m ∷ ns)) name e = absurd cc
single-LacksSlash (some (n ∷ [])) name e =
    let (valid, same) = then_ok (validate_identifier n) (ok (some n)) (some name) e in
    subst (λ x. LacksSlash x) {x = n} {y = name} (cc) (identifier-LacksSlash n valid)

scope_of-IsClean :
    (org project : Text) (names : Option (List Text)) (name : Option Text) (s : Scope)
    → LacksSlash org × LacksSlash project
    → single names ≡ ok name
    → scope_of org project name ≡ some s
    → IsClean s
scope_of-IsClean org project names none s clean named e = absurd cc
scope_of-IsClean org project names (some name) s (org_clean, project_clean) named e =
    subst (λ x. IsClean x) (some-inj e)
      (org_clean, (project_clean, single-LacksSlash names name named))

resolved-IsClean :
    (declared : DeclaredPermissions) (org project : Text) (b : Bindings) (s : Scope)
    → resolve_permissions declared org project ≡ ok b
    → b.objects ≡ some s
    → IsClean s
unfolding resolve_permissions
resolved-IsClean declared org project b s e found =
    let (ids, e₁) =
      then_ok (check_ids org project)
        (normalize_declared_capabilities declared >>= bind_all org project) b e in
    let (n, _, e₂) =
      bind_ok (normalize_declared_capabilities declared) (bind_all org project) b e₁ in
    let (kv, _, e₃) = bind_ok (single n.kv) (bind_kv org project n) b e₂ in
    let (name, named, e₄) =
      bind_ok (single n.objects) (bind_objects org project n (scope_of org project kv)) b e₃ in
    let (queues, _, e₅) =
      bind_ok (single n.queues) (bind_queues (scope_of org project kv) (scope_of org project name))
        b e₄ in
    scope_of-IsClean org project n.objects name s (check_ids-LacksSlash org project ids) named cc

-- Two bindings that `resolvePermissions` returns, of whatever organisations, projects and
-- declarations, send two keys to one key of the provider only if the scopes and the keys are equal.
pub object_key_isolated :
    (declared declared' : DeclaredPermissions) (org org' project project' : Text) (b b' : Bindings)
    (s s' : Scope) (key key' full : Text)
    → resolve_permissions declared org project ≡ ok b
    → resolve_permissions declared' org' project' ≡ ok b'
    → b.objects ≡ some s
    → b'.objects ≡ some s'
    → object_key s key ≡ ok full
    → object_key s' key' ≡ ok full
    → (s ≡ s') × (key ≡ key')
unfolding object_key
object_key_isolated declared declared' org org' project project' b b' s s' key key' full e e' found
      found' sent sent' =
    let (_, same) = then_ok (validate_object_key key) (ok (object_prefix s ++ key)) full sent in
    let (_, same') =
      then_ok (validate_object_key key') (ok (object_prefix s' ++ key')) full sent' in
    object_prefix_inj s s' key key' (resolved-IsClean declared org project b s e found)
      (resolved-IsClean declared' org' project' b' s' e' found') cc

listed-stripped :
    (s : Scope) (keys : List Text)
    → map
        (λ key. object_prefix s ++ key)
        (map (strip s) (filterb (starts_with (object_prefix s)) keys))
      ≡ filterb (starts_with (object_prefix s)) keys
listed-stripped s [] = refl
listed-stripped s (k ∷ keys) = elim (Bool-cases (starts_with (object_prefix s) k)) [
  | inl own ↦ rw (own, starts_with-split (object_prefix s) k own, listed-stripped s keys)
  | inr foreign ↦ rw (foreign, listed-stripped s keys)
]

-- When a listing returns, its keys with the scope's prefix in front are the keys that the provider
-- lists and that begin with the prefix, in order.
pub object_list-own :
    (s : Scope) (provider_list : Text → Option Text → List Text × Option Text) (query_prefix : Text)
    (cursor next : Option Text) (keys : List Text)
    → object_list s provider_list query_prefix cursor ≡ ok (keys, next)
    → map (λ key. object_prefix s ++ key) keys
      ≡ filterb
          (starts_with (object_prefix s))
          (provider_list (object_prefix s ++ query_prefix) (provider_cursor s cursor)).0
unfolding object_list
object_list-own s provider_list query_prefix cursor next keys e =
    let (_, told) = then_ok (validate_object_key query_prefix) _ (keys, next) e in
    ap (map (λ key. object_prefix s ++ key)) (cc)
    ∙ listed-stripped s
        (provider_list (object_prefix s ++ query_prefix) (provider_cursor s cursor)).0
