-- ===== src/Providers/SqliteKv/Commits.antt =====
-- providers/kv/sqlite-provider.ts: what `get` and a commit of one check and one `set` leave to be
-- seen of a key.
use railfog.Prelude.{
  all, ℕ, suc, ◌≡◌, refl, sym, ◌∙◌, ap, ◌≢◌, ◌⊎◌, true, false, not, Option, none, some, List, [],
  ◌∷◌, Text, text_eq, arith, if◌then◌else◌, Bool-cases, inl, inr, ◌&&◌,
}
use railfog.Errors.{Result, ok}
use railfog.KvProvider.{Commit, committed, conflict}
use railfog.Providers.KeyPath.{encode_key_path, validate_key}
use railfog.Providers.SqliteKv.{
  check_holds, Row, is_expired, find_row, purge, fetch, get, sets, commit, row_version, upsert,
  stored_version,
}
use railfog.Providers.SqliteKv.Table.{
  keep, Unique, Unique-filterb, find_row-filterb, upserted, find_row-upsert,
}

abbrev pub live_value : {V : Type 0} → ℕ → Option (Row V) → Option V
live_value now none = none
live_value now (some r) = if is_expired now r then none else some r.value

module _ {V : Type 0} where
  -- What the statements of `get`, by the row found, leave to be seen.
  pub fetch-value :
      (now : ℕ) (path : Text) (o : Option (Row V)) (rows : List (Row V))
      → (fetch now path o rows).0 ≡ live_value now o
  unfolding fetch
  fetch-value now path none rows = refl
  fetch-value now path (some r) rows = ground arith

  pub fetch-Unique :
      (now : ℕ) (path : Text) (o : Option (Row V)) (rows : List (Row V))
      → Unique rows
      → Unique (fetch now path o rows).1
  unfolding fetch
  fetch-Unique now path none rows u = u
  fetch-Unique now path (some r) rows u = elim (Bool-cases (is_expired now r)) [
    | inl due ↦
        rw (due, fetch)
          (Unique-filterb (λ x. not (text_eq x.key_path path && is_expired now x)) rows u)
    | inr live ↦ rw (live, fetch) u
  ]

  -- A row that is seen only while it is live, `live r`, is seen alike before and after.
  pub fetch-seen {ℓ} :
      {B : Type ℓ} (f : Option (Row V) → B) (now : ℕ) (path : Text) (o : Option (Row V))
      (rows : List (Row V))
      → ((r : Row V) → is_expired now r ≡ true → f (some r) ≡ f none)
      → Unique rows
      → find_row path rows ≡ o
      → f (find_row path (fetch now path o rows).1) ≡ f o
  unfolding fetch
  fetch-seen f now path none rows dead u e = ap f e
  fetch-seen f now path (some r) rows dead u e = elim (Bool-cases (is_expired now r)) [
    | inl due ↦
        rw (due, fetch)
          (ap f (
              find_row-filterb (λ x. not (text_eq x.key_path path && is_expired now x)) path rows u
              ∙ ap (keep (λ x. not (text_eq x.key_path path && is_expired now x))) e)
            ∙ gone (Bool-cases (not (text_eq r.key_path path && is_expired now r))) due)
    | inr live ↦ rw (live, fetch) (ap f e)
  ]
    where
      gone :
          (not (text_eq r.key_path path && is_expired now r) ≡ true)
            ⊎ (not (text_eq r.key_path path && is_expired now r) ≡ false)
          → is_expired now r ≡ true
          → f (keep (λ x. not (text_eq x.key_path path && is_expired now x)) (some r)) ≡ f (some r)
      gone (inl kept) due = ap f (rw kept)
      gone (inr dropped) due = ap f (rw dropped) ∙ sym (dead r due)

  keep-seen {ℓ} :
      {B : Type ℓ} (f : Option (Row V) → B) (now : ℕ) (o : Option (Row V))
      → ((r : Row V) → is_expired now r ≡ true → f (some r) ≡ f none)
      → f (keep (λ r. not (is_expired now r)) o) ≡ f o
  keep-seen f now none dead = refl
  keep-seen f now (some r) dead = elim (Bool-cases (is_expired now r)) [
    | inl due ↦ rw due (sym (dead r due))
    | inr live ↦ rw live
  ]

  pub live_value-dead :
      (now : ℕ) (r : Row V)
      → is_expired now r ≡ true
      → live_value now (some r) ≡ live_value now none
  live_value-dead now r due = rw due

  pub row_version-dead :
      (now : ℕ) (r : Row V)
      → is_expired now r ≡ true
      → row_version now (some r) ≡ row_version {V = V} now none
  row_version-dead now r due = rw due

  -- In a purged table every row is live.
  stored_version-keep :
      (now : ℕ) (path : Text) (key : List Text) (x : V) (o : Option (Row V))
      → (upserted path key x none (keep (λ r. not (is_expired now r)) o)).version
        ≡ suc (row_version now o)
  stored_version-keep now path key x none = refl
  stored_version-keep now path key x (some r) = ground arith

  upserted-live :
      (now : ℕ) (path : Text) (key : List Text) (x : V) (o : Option (Row V))
      → is_expired now (upserted path key x none o) ≡ false
  upserted-live now path key x none = refl
  upserted-live now path key x (some r) = refl

  upserted-value :
      (path : Text) (key : List Text) (x : V) (o : Option (Row V))
      → (upserted path key x none o).value ≡ x
  upserted-value path key x none = refl
  upserted-value path key x (some r) = refl

  -- Each row is seen alike in the purged table.
  pub live_value-purge :
      (now : ℕ) (path : Text) (rows : List (Row V))
      → Unique rows
      → live_value now (find_row path (purge now rows)) ≡ live_value now (find_row path rows)
  unfolding purge
  live_value-purge now path rows u =
      ap (live_value now) (find_row-filterb (λ r. not (is_expired now r)) path rows u)
      ∙ keep-seen (live_value now) now (find_row path rows) (live_value-dead now)

  pub row_version-purge :
      (now : ℕ) (path : Text) (rows : List (Row V))
      → Unique rows
      → row_version now (find_row path (purge now rows)) ≡ row_version now (find_row path rows)
  unfolding purge
  row_version-purge now path rows u =
      ap (row_version now) (find_row-filterb (λ r. not (is_expired now r)) path rows u)
      ∙ keep-seen (row_version now) now (find_row path rows) (row_version-dead now)

  pub checks-purge :
      (now : ℕ) (rows : List (Row V))
      → Unique rows
      → (checks : List (List Text × ℕ))
      → all (check_holds now (purge now rows)) checks ≡ all (check_holds now rows) checks
  unfolding check_holds
  checks-purge now rows u [] = refl
  checks-purge now rows u ((key, v) ∷ checks) =
      rw (row_version-purge now (encode_key_path key) rows u, checks-purge now rows u checks)

module _ {V : Type 0} (now : ℕ) (key : List Text) where
  -- The value of the key in the table, if it has not expired; and its version.
  abbrev pub value_of : List (Row V) → Option V
  value_of rows = live_value now (find_row (encode_key_path key) rows)

  abbrev pub version_of : List (Row V) → ℕ
  version_of rows = row_version now (find_row (encode_key_path key) rows)

  -- `kv.atomic().check(key, v).set(key, x).commit()`
  abbrev pub check_set : ℕ → V → List (Row V) → Result Commit × List (Row V)
  check_set v x = commit now ((key, v) ∷ []) (sets key x ∷ [])

  pub get-valid :
      (rows : List (Row V))
      → validate_key key ≡ ok tt
      → get now key rows ≡ (
        ok (fetch now (encode_key_path key) (find_row (encode_key_path key) rows) rows).0,
        (fetch now (encode_key_path key) (find_row (encode_key_path key) rows) rows).1,
      )
  unfolding get
  get-valid rows valid = rw (valid, get)

  written-row :
      (x : V) (rows : List (Row V))
      → Unique rows
      → find_row (encode_key_path key) (upsert (encode_key_path key) key x none (purge now rows))
        ≡ some (
            upserted
              (encode_key_path key)
              key
              x
              none
              (keep (λ r. not (is_expired now r)) (find_row (encode_key_path key) rows)))
  unfolding purge
  written-row x rows u =
      find_row-upsert (encode_key_path key) key x none (purge now rows)
      ∙ ap (λ o. some (upserted (encode_key_path key) key x none o))
          (find_row-filterb (λ r. not (is_expired now r)) (encode_key_path key) rows u)

  written-version :
      (x : V) (rows : List (Row V))
      → Unique rows
      → stored_version (
          find_row (encode_key_path key) (upsert (encode_key_path key) key x none (purge now rows)))
        ≡ suc (version_of rows)
  written-version x rows u =
      ap stored_version (written-row x rows u)
      ∙ stored_version-keep now (encode_key_path key) key x (find_row (encode_key_path key) rows)

  -- Where the expected version is the row's, the commit writes the value, and tells the next version.
  pub check_set_ok :
      (v : ℕ) (x : V) (rows : List (Row V))
      → validate_key key ≡ ok tt
      → Unique rows
      → version_of rows ≡ v
      → check_set v x rows
        ≡ (ok (committed (some (suc v))), upsert (encode_key_path key) key x none (purge now rows))
  unfolding commit
  check_set_ok v x rows valid u e =
      rw (valid, commit)
        (ground
          (arith, row_version-purge now (encode_key_path key) rows u, written-version x rows u))

  -- Where it is not, the commit changes nothing.
  pub check_set_conflict :
      (v : ℕ) (x : V) (rows : List (Row V))
      → validate_key key ≡ ok tt
      → Unique rows
      → version_of rows ≢ v
      → check_set v x rows ≡ (ok conflict, rows)
  unfolding commit
  check_set_conflict v x rows valid u ne =
      rw (valid, commit) (ground (arith, row_version-purge now (encode_key_path key) rows u))

  -- After a commit that succeeds the value is the one written, under the next version.
  pub written-seen :
      (x : V) (rows : List (Row V))
      → Unique rows
      → let rows' = upsert (encode_key_path key) key x none (purge now rows) in
        (value_of rows' ≡ some x) × (version_of rows' ≡ suc (version_of rows))
  written-seen x rows u = rw (written-row x rows u) (
    ground (
      arith,
      upserted-live now (encode_key_path key) key x kept,
      upserted-value (encode_key_path key) key x kept,
    ),
    ground (
      arith,
      upserted-live now (encode_key_path key) key x kept,
      stored_version-keep now (encode_key_path key) key x (find_row (encode_key_path key) rows),
    ),
  )
    where
      kept : Option (Row V)
      kept = keep (λ r. not (is_expired now r)) (find_row (encode_key_path key) rows)
