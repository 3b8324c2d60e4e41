-- ===== src/Providers/GuardedProviders/Runs.antt =====
-- providers/guard/tenant-guard.ts over providers/kv/sqlite-provider.ts: runs of calls of one tenant,
-- and what another tenant's guarded `get` answers after them.
use railfog.Prelude.{
  ◌≤◌, ℕ, ◌≡◌, ◌≢◌, refl, ap, sym, ◌∙◌, subst, Bool, List, [], ◌∷◌, map, Text, All, inl, inr,
}
use railfog.Errors.{Result, ok, err, ◌>>=◌, ok-inj, Result-cases, bind_ok}
use railfog.Providers.KeyPath.{encode_key_path, validate_key}
use railfog.Providers.KeyPath.Decoding.{IsByte, IsKey, encode_key_path_inj}
use railfog.Providers.SqliteKv.{Row, find_row, get, mutated_key}
use railfog.Providers.SqliteKv.Table.{Unique}
use railfog.Providers.SqliteKv.Commits.{live_value, fetch-value}
use railfog.Providers.SqliteKv.Mutations.{commit_leaves, commit-Unique}
use railfog.Providers.TenantGuard.{Unknown, UnknownArray, TenantContext, sanitize_kv_key}
use railfog.Providers.TenantGuard.Isolation.{sanitize_kv_key_sound}
use railfog.Providers.GuardedProviders.{
  KvCall, AtomicCall, guarded, sanitize_call, sanitize_step, sanitize_steps, guarded_kv,
  guarded_commit,
}
use railfog.Providers.GuardedProviders.Isolation.{
  sqlite_provider, key_of, call_leaves, call-Unique, sqlite_commit, checks_of, mutations_of,
  step_key, Reply, as_reply,
}

-- Strings of UTF-8 bytes.
abbrev pub Bytes : Unknown → Type 0
Bytes (Unknown.string text) = All IsByte text
Bytes Unknown.no_string = Unit

abbrev pub BytesArray : UnknownArray → Type 0
BytesArray (UnknownArray.array key) = All Bytes key
BytesArray UnknownArray.no_array = Unit

strings-IsKey : (key : List Text) → All Bytes (map Unknown.string key) → IsKey key
strings-IsKey [] h = tt
strings-IsKey (segment ∷ key) (h, hs) = (h, strings-IsKey key hs)

-- An accepted key of bytes: it is one, and it is the tenant's.
accepted-IsKey :
    (key : UnknownArray) (tenant : TenantContext) (safe_key : List Text)
    → BytesArray key
    → sanitize_kv_key key tenant ≡ ok safe_key
    → IsKey safe_key × ((rest : List Text) × (safe_key ≡ tenant.org_id ∷ tenant.project_id ∷ rest))
accepted-IsKey key tenant safe_key bytes e =
    let (same, own, _) = sanitize_kv_key_sound key tenant safe_key e in
    (strings-IsKey safe_key (subst BytesArray same bytes), own)

others_differ :
    (key key' : UnknownArray) (t t' : TenantContext) (safe_key safe_key' : List Text)
    → ¬ (t ≡ t')
    → BytesArray key
    → BytesArray key'
    → sanitize_kv_key key t ≡ ok safe_key
    → sanitize_kv_key key' t' ≡ ok safe_key'
    → encode_key_path safe_key ≢ encode_key_path safe_key'
others_differ key key' t t' safe_key safe_key' distinct bytes bytes' e e' same =
    let (is_key, (rest, own)) = accepted-IsKey key t safe_key bytes e in
    let (is_key', (rest', own')) = accepted-IsKey key' t' safe_key' bytes' e' in
    let same_key = sym own ∙ encode_key_path_inj safe_key safe_key' is_key is_key' same ∙ own' in
    distinct cc

-- A call that the guard receives: one of the provider's own, or the commit of a builder with its steps.
pub data GuardedCall (V : Type 0) : Type 0 where
  calls : KvCall UnknownArray V → GuardedCall V
  commits : List (AtomicCall UnknownArray V) → GuardedCall V

-- The keys of the call are of bytes.
abbrev pub BytesCall : {V : Type 0} → GuardedCall V → Type 0
BytesCall (calls call) = BytesArray (key_of call)
BytesCall (commits steps) = All (λ step. BytesArray (step_key step)) steps

module _ (like : Text → Text → Bool) {V : Type 0} where
  abbrev pub perform_guarded : TenantContext → ℕ → GuardedCall V → List (Row V) → List (Row V)
  perform_guarded tenant now (calls call) rows =
      (guarded_kv tenant (sqlite_provider like now) call rows).1
  perform_guarded tenant now (commits steps) rows =
      (guarded_commit tenant (sqlite_commit now) steps rows).1

  unfoldable pub run_guarded :
      TenantContext → List (ℕ × GuardedCall V) → List (Row V) → List (Row V)
  run_guarded tenant [] rows = rows
  run_guarded tenant ((now, call) ∷ rest) rows =
      run_guarded tenant rest (perform_guarded tenant now call rows)

  wrapped_key :
      (wrap : List Text → KvCall (List Text) V)
      → ((key : List Text) → key_of (wrap key) ≡ key)
      → (checked : Result (List Text)) (safe : KvCall (List Text) V)
      → (checked >>= λ key. ok (wrap key)) ≡ ok safe
      → checked ≡ ok (key_of safe)
  wrapped_key wrap back (err code) safe e = absurd cc
  wrapped_key wrap back (ok key) safe e =
      ap ok (sym (back key)) ∙ ap (λ c. ok (key_of c)) (ok-inj e)

  sanitized_call :
      (tenant : TenantContext) (call : KvCall UnknownArray V) (safe : KvCall (List Text) V)
      → sanitize_call tenant call ≡ ok safe
      → sanitize_kv_key (key_of call) tenant ≡ ok (key_of safe)
  sanitized_call tenant (KvCall.get key) = wrapped_key KvCall.get (λ k. refl) _
  sanitized_call tenant (KvCall.set key x ttl) = wrapped_key (λ k. KvCall.set k x ttl) (λ k. refl) _
  sanitized_call tenant (KvCall.delete key) = wrapped_key KvCall.delete (λ k. refl) _
  sanitized_call tenant (KvCall.list prefix limit cursor) =
      wrapped_key (λ k. KvCall.list k limit cursor) (λ k. refl) _

  passed_leaves :
      (now : ℕ) (sanitized : Result (KvCall (List Text) V)) (other : Text) (rows : List (Row V))
      → ((safe : KvCall (List Text) V)
          → sanitized ≡ ok safe
          → encode_key_path (key_of safe) ≢ other)
      → find_row other (guarded sanitized (sqlite_provider like now) rows).1 ≡ find_row other rows
  passed_leaves now (err code) other rows differ = refl
  passed_leaves now (ok safe) other rows differ =
      call_leaves like now safe other rows (differ safe refl)

  passed-Unique :
      (now : ℕ) (sanitized : Result (KvCall (List Text) V)) (rows : List (Row V))
      → Unique rows
      → Unique (guarded sanitized (sqlite_provider like now) rows).1
  passed-Unique now (err code) rows u = u
  passed-Unique now (ok safe) rows u = call-Unique like now safe rows u

module _ {V : Type 0} where
  -- The mutations of a commit come from its steps.
  mutations_of-All :
      (P : List Text → Type 0) (steps : List (AtomicCall (List Text) V))
      → All (λ step. P (step_key step)) steps
      → All (λ m. P (mutated_key m)) (mutations_of steps)
  mutations_of-All P [] h = tt
  mutations_of-All P (AtomicCall.check key version ∷ steps) (h, hs) = mutations_of-All P steps hs
  mutations_of-All P (AtomicCall.set key x ∷ steps) (h, hs) = (h, mutations_of-All P steps hs)
  mutations_of-All P (AtomicCall.delete key ∷ steps) (h, hs) = (h, mutations_of-All P steps hs)

  wrapped_step :
      (wrap : List Text → AtomicCall (List Text) V)
      → ((key : List Text) → step_key (wrap key) ≡ key)
      → (checked : Result (List Text)) (safe : AtomicCall (List Text) V)
      → (checked >>= λ key. ok (wrap key)) ≡ ok safe
      → checked ≡ ok (step_key safe)
  wrapped_step wrap back (err code) safe e = absurd cc
  wrapped_step wrap back (ok key) safe e =
      ap ok (sym (back key)) ∙ ap (λ c. ok (step_key c)) (ok-inj e)

  sanitized_step :
      (tenant : TenantContext) (step : AtomicCall UnknownArray V) (safe : AtomicCall (List Text) V)
      → sanitize_step tenant step ≡ ok safe
      → sanitize_kv_key (step_key step) tenant ≡ ok (step_key safe)
  sanitized_step tenant (AtomicCall.check key version) =
      wrapped_step (λ k. AtomicCall.check k version) (λ k. refl) _
  sanitized_step tenant (AtomicCall.set key x) =
      wrapped_step (λ k. AtomicCall.set k x) (λ k. refl) _
  sanitized_step tenant (AtomicCall.delete key) = wrapped_step AtomicCall.delete (λ k. refl) _

  -- What is known of each key that is let through is known of the keys of the steps let through.
  sanitized_steps :
      (tenant : TenantContext) (P : List Text → Type 0) (steps : List (AtomicCall UnknownArray V))
      (safe : List (AtomicCall (List Text) V))
      → ((key : UnknownArray) (safe_key : List Text)
          → BytesArray key
          → sanitize_kv_key key tenant ≡ ok safe_key
          → P safe_key)
      → All (λ step. BytesArray (step_key step)) steps
      → sanitize_steps tenant steps ≡ ok safe
      → All (λ step. P (step_key step)) safe
  sanitized_steps tenant P [] safe known h e =
      subst (λ ss. All (λ step. P (step_key step)) ss) (ok-inj e) tt
  sanitized_steps tenant P (step ∷ steps) safe known (h, hs) e =
      let (first, at, e') = bind_ok (sanitize_step tenant step) _ safe e in
      let (rest, at', e'') = bind_ok (sanitize_steps tenant steps) _ safe e' in
      subst (λ ss. All (λ step. P (step_key step)) ss) (ok-inj e'')
        (
          known (step_key step) (step_key first) h (sanitized_step tenant step first at),
          sanitized_steps tenant P steps rest known hs at',
        )

  committed_leaves :
      (t now : ℕ) (sanitized : Result (List (AtomicCall (List Text) V))) (other : Text)
      (rows : List (Row V))
      → t ≤ now
      → Unique rows
      → ((safe : List (AtomicCall (List Text) V))
          → sanitized ≡ ok safe
          → All (λ step. encode_key_path (step_key step) ≢ other) safe)
      → live_value now (find_row other (guarded sanitized (sqlite_commit t) rows).1)
        ≡ live_value now (find_row other rows)
  committed_leaves t now (err code) other rows before u differ = refl
  committed_leaves t now (ok safe) other rows before u differ =
      commit_leaves t now other (checks_of safe) (mutations_of safe) rows before u
        (mutations_of-All (λ key. encode_key_path key ≢ other) safe (differ safe refl))

  committed-Unique :
      (t : ℕ) (sanitized : Result (List (AtomicCall (List Text) V))) (rows : List (Row V))
      → Unique rows
      → Unique (guarded sanitized (sqlite_commit t) rows).1
  committed-Unique t (err code) rows u = u
  committed-Unique t (ok safe) rows u = commit-Unique t (checks_of safe) (mutations_of safe) rows u

  get-answer :
      (now : ℕ) (key : List Text) (rows rows' : List (Row V))
      → live_value now (find_row (encode_key_path key) rows)
        ≡ live_value now (find_row (encode_key_path key) rows')
      → (get now key rows).0 ≡ (get now key rows').0
  unfolding get
  get-answer now key rows rows' e = elim (Result-cases (validate_key key)) [
    | inl (code, f) ↦ rw (get, f) refl
    | inr f ↦
        rw (get, f)
          (ap ok (
            fetch-value now (encode_key_path key) (find_row (encode_key_path key) rows) rows
            ∙ e
            ∙ sym (
                fetch-value now (encode_key_path key) (find_row (encode_key_path key) rows')
                  rows')))
  ]

module _ (like : Text → Text → Bool) {V : Type 0} (t t' : TenantContext) (distinct : ¬ (t ≡ t'))
    (key : UnknownArray) (safe_key : List Text) (bytes : BytesArray key)
    (accepted : sanitize_kv_key key t' ≡ ok safe_key) (now : ℕ) where
  perform_leaves :
      (at : ℕ) (call : GuardedCall V) (rows : List (Row V))
      → at ≤ now
      → Unique rows
      → BytesCall call
      → live_value now (find_row (encode_key_path safe_key) (perform_guarded like t at call rows))
        ≡ live_value now (find_row (encode_key_path safe_key) rows)
  unfolding guarded_kv guarded_commit
  perform_leaves at (calls call) rows before u h = ap (live_value now) (
      passed_leaves like at (sanitize_call t call) (encode_key_path safe_key) rows (λ safe e.
        others_differ (key_of call) key t t' (key_of safe) safe_key distinct h bytes
          (sanitized_call like t call safe e) accepted))
  perform_leaves at (commits steps) rows before u h =
      committed_leaves at now (sanitize_steps t steps) (encode_key_path safe_key) rows before u
        (λ safe e.
          sanitized_steps t (λ k. encode_key_path k ≢ encode_key_path safe_key) steps safe
            (λ k safe_k b a. others_differ k key t t' safe_k safe_key distinct b bytes a accepted) h
            e)

  perform-Unique :
      (at : ℕ) (call : GuardedCall V) (rows : List (Row V))
      → Unique rows
      → Unique (perform_guarded like t at call rows)
  unfolding guarded_kv guarded_commit
  perform-Unique at (calls call) rows u = passed-Unique like at (sanitize_call t call) rows u
  perform-Unique at (commits steps) rows u = committed-Unique at (sanitize_steps t steps) rows u

  run_leaves :
      (run : List (ℕ × GuardedCall V)) (rows : List (Row V))
      → Unique rows
      → All (λ timed. (timed.0 ≤ now) × BytesCall timed.1) run
      → live_value now (find_row (encode_key_path safe_key) (run_guarded like t run rows))
        ≡ live_value now (find_row (encode_key_path safe_key) rows)
  unfolding run_guarded
  run_leaves [] rows u h = refl
  run_leaves ((at, call) ∷ run) rows u ((before, h), hs) =
      run_leaves run (perform_guarded like t at call rows) (perform-Unique at call rows u) hs
      ∙ perform_leaves at call rows before u h

  -- Tenants do not touch one another. Of two distinct tenants, let the guard of one receive any calls
  -- and commits of atomic builders, with keys of bytes, at times that are not later than `now`, over
  -- a table that keeps its primary key. The guarded `get` of the other at `now`, of a key of bytes that
  -- is accepted, then answers as it would have before.
  pub guarded_kv-isolated :
      (run : List (ℕ × GuardedCall V)) (rows : List (Row V))
      → Unique rows
      → All (λ timed. (timed.0 ≤ now) × BytesCall timed.1) run
      → (guarded_kv t' (sqlite_provider like now) (KvCall.get key) (run_guarded like t run rows)).0
        ≡ (guarded_kv t' (sqlite_provider like now) (KvCall.get key) rows).0
  unfolding guarded_kv
  guarded_kv-isolated run rows u h =
      rw accepted
        (ap (as_reply Reply.value) (get-answer now safe_key _ rows (run_leaves run rows u h)))
