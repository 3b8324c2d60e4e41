-- ===== src/Providers/TenantGuard/Isolation.antt =====
-- providers/guard/tenant-guard.ts: what an accepted key is, and that it is one tenant's.
use railfog.Prelude.{
  ◌↔◌, text_eq_refl, subst, ◌≡◌, refl, ap, sym, ◌∙◌, Bool, true, false, not, ◌||◌, List, [], ◌∷◌,
  map, Text, text_eq_sound, ltb, length, arith, All, is_empty,
}
use railfog.Errors.{
  ok-inj, Result, ErrorCode, ok, err, ◌>>◌, ◌>>=◌, throw_if, then_ok, throw_if-ok, bind_ok,
}
use railfog.Providers.TenantGuard.{
  check_copy, copied, Unknown, UnknownArray, TenantContext, is_forbidden, assert_valid_segments,
  assert_valid_segment, copy_segments, is_own, sanitize_kv_key,
}

-- A segment that is not empty and has none of what is forbidden.
abbrev pub CleanSegment : Text → Type 0
CleanSegment segment = (is_empty segment ≡ false) × (is_forbidden segment ≡ false)

-- `if (a || b)` passed.
or-false : (a b : Bool) → (a || b) ≡ false → (a ≡ false) × (b ≡ false)
or-false a b e = ground arith

assert_valid_segments-ok :
    (segments : List Text) → assert_valid_segments segments ≡ ok tt → All CleanSegment segments
assert_valid_segments-ok [] e = tt
assert_valid_segments-ok (segment ∷ segments) e =
    let (first, rest) =
      then_ok (assert_valid_segment segment) (assert_valid_segments segments) tt e in
    (or-false _ _ (throw_if-ok _ _ first), assert_valid_segments-ok segments rest)

copied-ok :
    (segment : Text) (rest : Result (List Text)) (copy : List Text)
    → copied segment rest ≡ ok copy
    → (more : List Text) × (rest ≡ ok more) × (copy ≡ segment ∷ more)
copied-ok [] rest copy e = absurd cc
copied-ok (c ∷ cs) (err code) copy e = absurd cc
copied-ok (c ∷ cs) (ok more) copy e = (more, refl, cc)

-- The copy has the strings of the array.
copy_segments-ok :
    (key : List Unknown) (copy : List Text)
    → copy_segments key ≡ ok copy
    → key ≡ map Unknown.string copy
copy_segments-ok [] [] e = refl
copy_segments-ok [] (c ∷ cs) e = absurd cc
copy_segments-ok (Unknown.no_string ∷ key) copy e = absurd cc
copy_segments-ok (Unknown.string segment ∷ key) copy e =
    let (more, rest, same) = copied-ok segment (copy_segments key) copy e in
    ap (λ k. Unknown.string segment ∷ k) (copy_segments-ok key more rest)
    ∙ ap (map Unknown.string) (sym same)

is_own-ok :
    (tenant : TenantContext) (key : List Text)
    → is_own tenant key ≡ true
    → (rest : List Text) × (key ≡ tenant.org_id ∷ tenant.project_id ∷ rest)
is_own-ok tenant [] e = absurd cc
is_own-ok tenant (org ∷ []) e = absurd cc
is_own-ok tenant (org ∷ project ∷ rest) e =
    (rest, ground (arith, text_eq_sound org tenant.org_id, text_eq_sound project tenant.project_id))

pub sanitize_kv_key_sound :
    (key : UnknownArray) (tenant : TenantContext) (safe_key : List Text)
    → sanitize_kv_key key tenant ≡ ok safe_key
    → (key ≡ UnknownArray.array (map Unknown.string safe_key))
      × ((rest : List Text) × (safe_key ≡ tenant.org_id ∷ tenant.project_id ∷ rest))
      × All CleanSegment safe_key
unfolding sanitize_kv_key
sanitize_kv_key_sound UnknownArray.no_array tenant safe_key e = absurd cc
sanitize_kv_key_sound (UnknownArray.array key) tenant safe_key e =
    let (_, e1) =
      then_ok (throw_if (ltb (length key) 2) ErrorCode.permission_denied) _ safe_key e in
    let (copy, copied, e2) = bind_ok (copy_segments key) (check_copy tenant) safe_key e1 in
    let (own, e3) =
      then_ok (throw_if (not (is_own tenant copy)) ErrorCode.permission_denied)
        (assert_valid_segments copy >> ok copy) safe_key e2 in
    let (clean, e4) = then_ok (assert_valid_segments copy) (ok copy) safe_key e3 in
    subst
      (λ c.
        (UnknownArray.array key ≡ UnknownArray.array (map Unknown.string c))
        × ((rest : List Text) × (c ≡ tenant.org_id ∷ tenant.project_id ∷ rest))
        × All CleanSegment c)
      (ok-inj e4)
      (
        ap UnknownArray.array (copy_segments-ok key copy copied),
        is_own-ok tenant copy (ground (arith, throw_if-ok (not (is_own tenant copy)) _ own)),
        assert_valid_segments-ok copy clean,
      )

copy_segments-string :
    (key : List Text) → All CleanSegment key → copy_segments (map Unknown.string key) ≡ ok key
copy_segments-string [] h = refl
copy_segments-string ([] ∷ key) (h, hs) = absurd (ground arith)
copy_segments-string ((c ∷ cs) ∷ key) (h, hs) = rw (copy_segments-string key hs) refl

assert_valid_segments-clean :
    (key : List Text) → All CleanSegment key → assert_valid_segments key ≡ ok tt
assert_valid_segments-clean [] h = refl
assert_valid_segments-clean (segment ∷ key) ((some_text, free), hs) =
    rw (some_text, free, assert_valid_segments-clean key hs) refl

sanitize_kv_key_complete :
    (tenant : TenantContext) (rest : List Text)
    → All CleanSegment (tenant.org_id ∷ tenant.project_id ∷ rest)
    → sanitize_kv_key
        (UnknownArray.array (map Unknown.string (tenant.org_id ∷ tenant.project_id ∷ rest)))
        tenant
      ≡ ok (tenant.org_id ∷ tenant.project_id ∷ rest)
unfolding sanitize_kv_key
sanitize_kv_key_complete tenant rest h =
    let key = tenant.org_id ∷ tenant.project_id ∷ rest in
    cc (ap (λ copy. copy >>= check_copy tenant) (copy_segments-string key h), checked, long)
  where
    checked :
        check_copy tenant (tenant.org_id ∷ tenant.project_id ∷ rest)
        ≡ ok (tenant.org_id ∷ tenant.project_id ∷ rest)
    checked =
        rw
          (
            text_eq_refl tenant.org_id,
            text_eq_refl tenant.project_id,
            assert_valid_segments-clean (tenant.org_id ∷ tenant.project_id ∷ rest) h,
          )
          refl

    long : ltb (length (map Unknown.string (tenant.org_id ∷ tenant.project_id ∷ rest))) 2 ≡ false
    long = ground arith

abbrev segments_of : UnknownArray → List Unknown
segments_of UnknownArray.no_array = []
segments_of (UnknownArray.array key) = key

-- An array is accepted, and passed on as it is, exactly when it has strings only, the tenant's two
-- identifiers first, and none of them is empty or has dots, slashes, backslashes or null bytes.
pub sanitize_kv_key-exact :
    (key : List Unknown) (tenant : TenantContext) (safe_key : List Text)
    → (sanitize_kv_key (UnknownArray.array key) tenant ≡ ok safe_key) ↔ (
        (key ≡ map Unknown.string safe_key)
        × ((rest : List Text) × (safe_key ≡ tenant.org_id ∷ tenant.project_id ∷ rest))
        × All CleanSegment safe_key)
sanitize_kv_key-exact key tenant safe_key = (forth, back)
  where
    forth :
        sanitize_kv_key (UnknownArray.array key) tenant ≡ ok safe_key
        → (key ≡ map Unknown.string safe_key)
          × ((rest : List Text) × (safe_key ≡ tenant.org_id ∷ tenant.project_id ∷ rest))
          × All CleanSegment safe_key
    forth e =
        let (same, own, clean) = sanitize_kv_key_sound (UnknownArray.array key) tenant safe_key e in
        (ap segments_of same, own, clean)

    back :
        (key ≡ map Unknown.string safe_key)
          × ((rest : List Text) × (safe_key ≡ tenant.org_id ∷ tenant.project_id ∷ rest))
          × All CleanSegment safe_key
        → sanitize_kv_key (UnknownArray.array key) tenant ≡ ok safe_key
    back (same, (rest, own), clean) =
        ap (λ k. sanitize_kv_key (UnknownArray.array k) tenant) (same ∙ ap (map Unknown.string) own)
        ∙ (sanitize_kv_key_complete tenant rest (subst (All CleanSegment) own clean)
            ∙ ap ok (sym own))
