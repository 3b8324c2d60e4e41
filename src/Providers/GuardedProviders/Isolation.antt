-- ===== src/Providers/GuardedProviders/Isolation.antt =====
-- providers/guard/tenant-guard.ts over providers/kv/sqlite-provider.ts: what the calls of one tenant
-- leave of another's entries.
use railfog.Prelude.{
  ℕ, ◌≡◌, ◌≢◌, refl, sym, ◌∙◌, Bool, true, false, not, ◌&&◌, Option, none, some, List, [], ◌∷◌,
  Text, text_eq, text_eq_sound, text_eq-false, arith, filterb, Bool-cases, inl, inr,
}
use railfog.Errors.{Result-cases, Result, ok, err}
use railfog.Providers.KeyPath.{encode_key_path, validate_key}
use railfog.Providers.SqliteKv.{
  Row, find_row, fetch, get, set, delete, list, delete_row, is_expired, Mutation, sets, deletes,
  commit,
}
use railfog.KvProvider.{Commit}
use railfog.Providers.SqliteKv.Table.{find_row-upsert_ne, Unique, Unique-filterb, Unique-upsert}
use railfog.Providers.SqliteKv.Commits.{fetch-Unique}
use railfog.Providers.GuardedProviders.{KvCall, AtomicCall}

pub data Reply (V : Type 0) : Type 0 where
  value : Option V → Reply V
  done : Reply V
  page : List (Row V) → Option Text → Reply V

abbrev pub as_reply : {A V : Type 0} → (A → Reply V) → Result A → Result (Reply V)
as_reply reply (err code) = err code
as_reply reply (ok a) = ok (reply a)

abbrev replied : {A V S : Type 0} → (A → Reply V) → Result A × S → Result (Reply V) × S
replied reply result = (as_reply reply result.0, result.1)

module _ (like : Text → Text → Bool) {V : Type 0} where
  -- The SQLite provider, at one clock value, as what a guard stands before.
  abbrev pub sqlite_provider :
      (now : ℕ) → KvCall (List Text) V → List (Row V) → Result (Reply V) × List (Row V)
  sqlite_provider now (KvCall.get key) rows = replied Reply.value (get now key rows)
  sqlite_provider now (KvCall.set key x ttl) rows =
      replied (λ _. Reply.done) (set now key x ttl rows)
  sqlite_provider now (KvCall.delete key) rows = replied (λ _. Reply.done) (delete key rows)
  sqlite_provider now (KvCall.list prefix limit cursor) rows =
      let (found, next) = list like now prefix limit cursor rows in
      (ok (Reply.page found next), rows)

-- What the builder of the SQLite provider collects of its steps.
abbrev pub checks_of : {V : Type 0} → List (AtomicCall (List Text) V) → List (List Text × ℕ)
checks_of [] = []
checks_of (AtomicCall.check key version ∷ steps) = (key, version) ∷ checks_of steps
checks_of (AtomicCall.set key x ∷ steps) = checks_of steps
checks_of (AtomicCall.delete key ∷ steps) = checks_of steps

abbrev pub mutations_of : {V : Type 0} → List (AtomicCall (List Text) V) → List (Mutation V)
mutations_of [] = []
mutations_of (AtomicCall.check key version ∷ steps) = mutations_of steps
mutations_of (AtomicCall.set key x ∷ steps) = sets key x ∷ mutations_of steps
mutations_of (AtomicCall.delete key ∷ steps) = deletes key ∷ mutations_of steps

abbrev pub sqlite_commit :
    {V : Type 0}
    → (now : ℕ) → List (AtomicCall (List Text) V)
    → List (Row V)
    → Result Commit × List (Row V)
sqlite_commit now steps rows = commit now (checks_of steps) (mutations_of steps) rows

abbrev pub step_key : {K V : Type 0} → AtomicCall K V → K
step_key (AtomicCall.check key version) = key
step_key (AtomicCall.set key x) = key
step_key (AtomicCall.delete key) = key

module _ {V : Type 0} where
  abbrev pub key_of : {K : Type 0} → KvCall K V → K
  key_of (KvCall.get key) = key
  key_of (KvCall.set key x ttl) = key
  key_of (KvCall.delete key) = key
  key_of (KvCall.list prefix limit cursor) = prefix

  -- Rows of another path stay.
  find_row-filterb_ne :
      (other : Text) (q : Row V → Bool) (rows : List (Row V))
      → ((r : Row V) → text_eq r.key_path other ≡ true → q r ≡ true)
      → find_row other (filterb q rows) ≡ find_row other rows
  unfolding find_row
  find_row-filterb_ne other q [] keeps = refl
  find_row-filterb_ne other q (r ∷ rows) keeps =
      ground (arith, keeps r, find_row-filterb_ne other q rows keeps)

  other_path :
      (path other : Text)
      → path ≢ other
      → (r : Row V) → text_eq r.key_path other ≡ true
      → text_eq r.key_path path ≡ false
  other_path path other differ r e =
      text_eq-false λ same. differ (sym same ∙ text_eq_sound r.key_path other e)

  fetch_leaves :
      (now : ℕ) (path other : Text) (o : Option (Row V)) (rows : List (Row V))
      → path ≢ other
      → find_row other (fetch now path o rows).1 ≡ find_row other rows
  unfolding fetch
  fetch_leaves now path other none rows differ = refl
  fetch_leaves now path other (some r) rows differ = elim (Bool-cases (is_expired now r)) [
    | inl due ↦
        rw (due, fetch)
          (find_row-filterb_ne other (λ x. not (text_eq x.key_path path && is_expired now x)) rows
            λ x same. rw (other_path path other differ x same) refl)
    | inr live ↦ rw (live, fetch) refl
  ]

  get_leaves :
      (now : ℕ) (key : List Text) (other : Text) (rows : List (Row V))
      → encode_key_path key ≢ other
      → find_row other (get now key rows).1 ≡ find_row other rows
  unfolding get
  get_leaves now key other rows differ = elim (Result-cases (validate_key key)) [
    | inl (code, e) ↦ rw (get, e) refl
    | inr e ↦ rw (get, e) (fetch_leaves now (encode_key_path key) other _ rows differ)
  ]

  set_leaves :
      (now : ℕ) (key : List Text) (x : V) (ttl : Option ℕ) (other : Text) (rows : List (Row V))
      → encode_key_path key ≢ other
      → find_row other (set now key x ttl rows).1 ≡ find_row other rows
  unfolding set
  set_leaves now key x ttl other rows differ = elim (Result-cases (validate_key key)) [
    | inl (code, e) ↦ rw (set, e) refl
    | inr e ↦ rw (set, e) (find_row-upsert_ne (encode_key_path key) other key x _ rows differ)
  ]

  delete_leaves :
      (key : List Text) (other : Text) (rows : List (Row V))
      → encode_key_path key ≢ other
      → find_row other (delete key rows).1 ≡ find_row other rows
  unfolding delete delete_row
  delete_leaves key other rows differ = elim (Result-cases (validate_key key)) [
    | inl (code, e) ↦ rw (delete, e) refl
    | inr e ↦
        rw (delete, e)
          (find_row-filterb_ne other (λ x. not (text_eq x.key_path (encode_key_path key))) rows
            λ x same. rw (other_path (encode_key_path key) other differ x same) refl)
  ]

module _ (like : Text → Text → Bool) {V : Type 0} where
  pub call_leaves :
      (now : ℕ) (call : KvCall (List Text) V) (other : Text) (rows : List (Row V))
      → encode_key_path (key_of call) ≢ other
      → find_row other (sqlite_provider like now call rows).1 ≡ find_row other rows
  call_leaves now (KvCall.get key) other rows differ = get_leaves now key other rows differ
  call_leaves now (KvCall.set key x ttl) other rows differ =
      set_leaves now key x ttl other rows differ
  call_leaves now (KvCall.delete key) other rows differ = delete_leaves key other rows differ
  call_leaves now (KvCall.list prefix limit cursor) other rows differ = refl

module _ (like : Text → Text → Bool) {V : Type 0} where
  get-kept :
      (now : ℕ) (key : List Text) (rows : List (Row V)) → Unique rows → Unique (get now key rows).1
  unfolding get
  get-kept now key rows u = elim (Result-cases (validate_key key)) [
    | inl (code, e) ↦ rw (get, e) u
    | inr e ↦ rw (get, e) (fetch-Unique now (encode_key_path key) _ rows u)
  ]

  set-kept :
      (now : ℕ) (key : List Text) (x : V) (ttl : Option ℕ) (rows : List (Row V))
      → Unique rows
      → Unique (set now key x ttl rows).1
  unfolding set
  set-kept now key x ttl rows u = elim (Result-cases (validate_key key)) [
    | inl (code, e) ↦ rw (set, e) u
    | inr e ↦ rw (set, e) (Unique-upsert (encode_key_path key) key x _ rows u)
  ]

  delete-kept : (key : List Text) (rows : List (Row V)) → Unique rows → Unique (delete key rows).1
  unfolding delete delete_row
  delete-kept key rows u = elim (Result-cases (validate_key key)) [
    | inl (code, e) ↦ rw (delete, e) u
    | inr e ↦
        rw (delete, e) (Unique-filterb (λ r. not (text_eq r.key_path (encode_key_path key))) rows u)
  ]

  pub call-Unique :
      (now : ℕ) (call : KvCall (List Text) V) (rows : List (Row V))
      → Unique rows
      → Unique (sqlite_provider like now call rows).1
  call-Unique now (KvCall.get key) rows u = get-kept now key rows u
  call-Unique now (KvCall.set key x ttl) rows u = set-kept now key x ttl rows u
  call-Unique now (KvCall.delete key) rows u = delete-kept key rows u
  call-Unique now (KvCall.list prefix limit cursor) rows u = u
