-- ===== src/Providers/SqliteKv.antt =====
-- providers/kv/sqlite-provider.ts. The table `kv_entries` is the list of its rows, of which at most
-- one has a given `key_path` (the primary key); each SQL statement is the list operation that it
-- states. Times are milliseconds, and one call reads one clock value. Values stand for their JSON
-- text. Opening and closing the database are left out, and so are failures of SQLite itself.
pub mod Table
pub mod Commits
pub mod Mutations
pub mod Contract
pub mod Listing
pub mod Examples
use railfog.Prelude.{
  text_leb, ℕ, suc, ◌+◌, ◌*◌, Bool, true, false, not, ◌&&◌, ◌||◌, Option, none, some, List, [], ◌∷◌,
  map, Text, text_eq, ltb, leb, ◌==◌, if◌then◌else◌, length, take, filterb, all, ◌++◌, max, min,
}
use railfog.Errors.{Result, ErrorCode, ok, err, ◌>>◌}
use railfog.KvProvider.{Commit, committed, conflict}
use railfog.Providers.KeyPath.{encode_key_path, validate_key, percent}

pub record Row (V : Type 0) : Type 0 where
  pub key_path : Text
  pub key : List Text
  pub value : V
  pub version : ℕ
  pub expires_at : Option ℕ

-- `expires_at IS NOT NULL AND expires_at <= now`
abbrev pub is_due : ℕ → Option ℕ → Bool
is_due now none = false
is_due now (some t) = leb t now

-- `opts.ttl` is in seconds.
abbrev expiry : ℕ → Option ℕ → Option ℕ
expiry now none = none
expiry now (some ttl) = some (now + ttl * 1000)

module _ {V : Type 0} where
  abbrev pub is_expired : ℕ → Row V → Bool
  is_expired now r = is_due now r.expires_at

  -- `SELECT … WHERE key_path = ?`
  unfoldable pub find_row : Text → List (Row V) → Option (Row V)
  find_row path [] = none
  find_row path (r ∷ rows) = if text_eq r.key_path path then some r else find_row path rows

  -- `DELETE FROM kv_entries WHERE expires_at IS NOT NULL AND expires_at <= ?`
  unfoldable pub purge : ℕ → List (Row V) → List (Row V)
  purge now = filterb (λ r. not (is_expired now r))

  -- `DELETE FROM kv_entries WHERE key_path = ?`
  unfoldable pub delete_row : Text → List (Row V) → List (Row V)
  delete_row path = filterb (λ r. not (text_eq r.key_path path))

  -- `INSERT … ON CONFLICT(key_path) DO UPDATE SET …`: a new row has version 1, and an update keeps
  -- the key and adds 1 to the version.
  unfoldable pub upsert : Text → List Text → V → Option ℕ → List (Row V) → List (Row V)
  upsert path key value expires [] =
      record { key_path = path; key = key; value = value; version = 1; expires_at = expires } ∷ []
  upsert path key value expires (r ∷ rows) =
      if text_eq r.key_path path
      then record r { value = value; version = suc r.version; expires_at = expires } ∷ rows
      else r ∷ upsert path key value expires rows

  -- The end of `get`, by the row that was selected.
  unfoldable pub fetch : ℕ → Text → Option (Row V) → List (Row V) → Option V × List (Row V)
  fetch now path none rows = (none, rows)
  fetch now path (some r) rows =
      if is_expired now r
      then (none, filterb (λ x. not (text_eq x.key_path path && is_expired now x)) rows)
      else (some r.value, rows)

  unfoldable pub get : ℕ → List Text → List (Row V) → Result (Option V) × List (Row V)
  unfolding fetch
  get now key rows =
      let path = encode_key_path key in
      let (found, rows') = fetch now path (find_row path rows) rows in
      elim (validate_key key) [ err e ↦ (err e, rows) | ok _ ↦ (ok found, rows') ]

  unfoldable pub set :
      ℕ → List Text → V → (ttl : Option ℕ) → List (Row V) → Result (Unit {0}) × List (Row V)
  set now key value ttl rows = elim (validate_key key) [
    | err e ↦ (err e, rows)
    | ok _ ↦ (ok tt, upsert (encode_key_path key) key value (expiry now ttl) rows)
  ]

  unfoldable pub delete : List Text → List (Row V) → Result (Unit {0}) × List (Row V)
  delete key rows = elim (validate_key key) [
    | err e ↦ (err e, rows)
    | ok _ ↦ (ok tt, delete_row (encode_key_path key) rows)
  ]

-- What an atomic builder has collected.
pub data Mutation (V : Type 0) : Type 0 where
  sets : List Text → V → Mutation V
  deletes : List Text → Mutation V

abbrev pub mutated_key : {V : Type 0} → Mutation V → List Text
mutated_key (sets key value) = key
mutated_key (deletes key) = key

abbrev validate_all : {V : Type 0} → List (Mutation V) → Result (Unit {0})
validate_all [] = ok tt
validate_all (m ∷ ms) = validate_key (mutated_key m) >> validate_all ms

-- The version that a check sees: 0 for a missing or expired row.
abbrev pub row_version : {V : Type 0} → ℕ → Option (Row V) → ℕ
row_version now none = 0
row_version now (some r) = if is_expired now r then 0 else r.version

abbrev stored_version : {V : Type 0} → Option (Row V) → ℕ
stored_version none = 0
stored_version (some r) = r.version

module _ {V : Type 0} where
  unfoldable pub check_holds : ℕ → List (Row V) → List Text × ℕ → Bool
  check_holds now rows (key, expected) =
      row_version now (find_row (encode_key_path key) rows) == expected

  -- The mutations in order, with the highest version that a `set` returned.
  unfoldable pub apply_all : List (Mutation V) → ℕ → List (Row V) → ℕ × List (Row V)
  apply_all [] highest rows = (highest, rows)
  apply_all (sets key value ∷ ms) highest rows =
      let path = encode_key_path key in
      let rows' = upsert path key value none rows in
      apply_all ms (max highest (stored_version (find_row path rows'))) rows'
  apply_all (deletes key ∷ ms) highest rows =
      apply_all ms highest (delete_row (encode_key_path key) rows)

  -- `commit`: a refused check rolls the purge back too.
  unfoldable pub commit :
      ℕ
      → (checks : List (List Text × ℕ)) (mutations : List (Mutation V)) → List (Row V)
      → Result Commit × List (Row V)
  unfolding check_holds apply_all
  commit now checks mutations rows =
      let live = purge now rows in
      let (highest, rows') = apply_all mutations 0 live in
      elim (validate_all mutations) [
        | err e ↦ (err e, rows)
        | ok _ ↦
            if all (check_holds now live) checks
            then (ok (committed (if ltb 0 highest then some highest else none)), rows')
            else (ok conflict, rows)
      ]

-- `ORDER BY key_path ASC`, bytewise.
unfoldable pub insert_sorted : {V : Type 0} → Row V → List (Row V) → List (Row V)
insert_sorted r [] = r ∷ []
insert_sorted r (x ∷ xs) =
    if text_leb r.key_path x.key_path then r ∷ x ∷ xs else x ∷ insert_sorted r xs

unfoldable pub order_by_path : {V : Type 0} → List (Row V) → List (Row V)
unfolding insert_sorted text_leb
order_by_path [] = []
order_by_path (r ∷ rows) = insert_sorted r (order_by_path rows)

abbrev last_path : {V : Type 0} → Row V → List (Row V) → Text
last_path r [] = r.key_path
last_path r (x ∷ xs) = last_path x xs

-- The cursor is the last path returned; `btoa` and `atob` around it undo one another.
abbrev cursor_of : {V : Type 0} → List (Row V) → Option Text
cursor_of [] = none
cursor_of (r ∷ rows) = some (last_path r rows)

unfoldable pub page_limit : Option ℕ → ℕ
page_limit none = 100
page_limit (some n) = if ltb 0 n then min n 1000 else 100

abbrev pub is_after : Option Text → Text → Bool
is_after none path = true
is_after (some []) path = true
is_after (some c) path = not (text_leb path c)

-- One row more than the limit was asked for: it says whether a next page exists.
unfoldable pub paginate : {V : Type 0} → ℕ → List (Row V) → List (Row V) × Option Text
paginate n found =
    if ltb n (length found) then (take n found, cursor_of (take n found)) else (found, none)

-- `list`, over SQLite's LIKE.
module _ (like : Text → Text → Bool) {V : Type 0} where
  unfoldable pub selects : ℕ → List Text → Option Text → Row V → Bool
  selects now prefix cursor r =
      like (encode_key_path prefix ++ percent ∷ []) r.key_path
      && (not (is_expired now r) && is_after cursor r.key_path)

  unfoldable pub list :
      ℕ
      → (prefix : List Text) (limit : Option ℕ) (cursor : Option Text) → List (Row V)
      → List (Row V) × Option Text
  unfolding page_limit selects order_by_path paginate
  list now prefix limit cursor rows =
      let n = page_limit limit in
      paginate n (take (suc n) (order_by_path (filterb (selects now prefix cursor) rows)))
