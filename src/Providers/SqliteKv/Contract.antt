-- ===== src/Providers/SqliteKv/Contract.antt =====
-- providers/kv/sqlite-provider.ts: the contract of KvProvider.antt, met by this provider at one clock
-- value.
use native.Mathlib.Decide.{ℕ_discrete}
use mathlib.Core.HLevel.{Σ_prop_path}
use mathlib.Core.Path.{sym, ap₂}
use railfog.Prelude.{
  inr, inl, Bool-cases, ℕ, suc, ◌≡◌, refl, ◌∙◌, ap, ◌≢◌, true, false, not, Option, none, some, List,
  Text, all,
}
use railfog.Errors.{Result, ok, err}
use railfog.KvProvider.{KvKey, Commit, committed, conflict}
use railfog.Providers.KeyPath.{encode_key_path, validate_key}
use railfog.Providers.SqliteKv.{
  apply_all, validate_all, Row, is_expired, find_row, purge, get, Mutation, commit, row_version,
  check_holds, upsert,
}
use railfog.Providers.SqliteKv.Table.{
  find_row-upsert_ne, Unique, Unique-prop, Unique-filterb, Unique-upsert,
}
use railfog.Providers.SqliteKv.Mutations.{
  AllSeen, effect, holds-AllSeen, AllSeen-holds, apply_all-effect, commit-held, commit-refused,
}
use railfog.Providers.SqliteKv.Commits.{
  live_value, value_of, version_of, check_set, get-valid, fetch-Unique, check_set_ok,
  check_set_conflict, fetch-value, fetch-seen, written-seen, live_value-dead, row_version-dead,
  live_value-purge, checks-purge,
}

-- A result read where it cannot be an error: for a valid key.
abbrev or_none : {A : Type 0} → Result (Option A) → Option A
or_none (ok o) = o
or_none (err e) = none

abbrev or_conflict : Result Commit → Commit
or_conflict (ok c) = c
or_conflict (err e) = conflict

-- A table that keeps its primary key.
abbrev pub KvTable : Type 0 → Type 0
KvTable V = (rows : List (Row V)) × Unique rows

module _ {V : Type 0} (now : ℕ) (key : List Text) (valid : validate_key key ≡ ok tt) where
  pub get-Unique : (rows : List (Row V)) → Unique rows → Unique (get now key rows).1
  get-Unique rows u =
      rw (get-valid now key rows valid)
        (fetch-Unique now (encode_key_path key) (find_row (encode_key_path key) rows) rows u)

  pub check_set-Unique :
      (v : ℕ) (x : V) (rows : List (Row V)) → Unique rows → Unique (check_set now key v x rows).1
  unfolding purge
  check_set-Unique v x rows u = elim (ℕ_discrete (version_of now key rows) v) [
    | yes same ↦ rw (check_set_ok now key v x rows valid u same) (
        Unique-upsert (encode_key_path key) key x none (purge now rows)
          (Unique-filterb (λ r. not (is_expired now r)) rows u))
    | no differ ↦ rw (check_set_conflict now key v x rows valid u differ) u
  ]

  unfoldable pub get_table : KvTable V → Option V × KvTable V
  get_table (rows, u) = (or_none (get now key rows).0, ((get now key rows).1, get-Unique rows u))

  unfoldable pub check_set_table : ℕ → V → KvTable V → Commit × KvTable V
  check_set_table v x (rows, u) = (
    or_conflict (check_set now key v x rows).0,
    ((check_set now key v x rows).1, check_set-Unique v x rows u),
  )

  pub get_table-value : (s : KvTable V) → (get_table s).0 ≡ value_of now key s.0
  unfolding get_table
  get_table-value (rows, u) =
      rw (get-valid now key rows valid)
        (fetch-value now (encode_key_path key) (find_row (encode_key_path key) rows) rows)

  pub get_table-seen {ℓ} :
      {B : Type ℓ} (f : Option (Row V) → B) (s : KvTable V)
      → ((r : Row V) → is_expired now r ≡ true → f (some r) ≡ f none)
      → f (find_row (encode_key_path key) (get_table s).1.0)
        ≡ f (find_row (encode_key_path key) s.0)
  unfolding get_table
  get_table-seen f (rows, u) dead = rw (get-valid now key rows valid) (
      fetch-seen f now (encode_key_path key) (find_row (encode_key_path key) rows) rows dead u refl)

  pub check_set_table-ok :
      (v : ℕ) (x : V) (s : KvTable V)
      → version_of now key s.0 ≡ v
      → ((check_set_table v x s).0 ≡ committed (some (suc v)))
        × (value_of now key (check_set_table v x s).1.0 ≡ some x)
        × (version_of now key (check_set_table v x s).1.0 ≡ suc v)
  unfolding check_set_table
  check_set_table-ok v x (rows, u) e =
      let seen = written-seen now key x rows u in
      rw (check_set_ok now key v x rows valid u e) (refl, seen.0, seen.1 ∙ ap suc e)

  pub check_set_table-conflict :
      (v : ℕ) (x : V) (s : KvTable V)
      → version_of now key s.0 ≢ v
      → check_set_table v x s ≡ (conflict, s)
  unfolding check_set_table
  check_set_table-conflict v x (rows, u) ne =
      ap₂ (λ c t. (c, t))
        (ap (λ p. or_conflict p.0) (check_set_conflict now key v x rows valid u ne))
        (Σ_prop_path Unique-prop (ap (λ p. p.1) (check_set_conflict now key v x rows valid u ne)))

  -- This provider, at one clock value and one valid key, meets the contract.
  abbrev pub sqlite_kv : KvKey V
  sqlite_kv = record {
    Store = KvTable V;
    read = λ s. value_of now key s.0;
    version = λ s. version_of now key s.0;
    get = get_table;
    check_set = check_set_table;
    get_value = get_table-value;
    get_read = λ s. get_table-seen (live_value now) s (live_value-dead now);
    get_version = λ s. get_table-seen (row_version now) s (row_version-dead now);
    commit_ok = λ v x s e. (check_set_table-ok v x s e).0;
    commit_read = λ v x s e. (check_set_table-ok v x s e).1;
    commit_version = λ v x s e. (check_set_table-ok v x s e).2;
    commit_conflict = check_set_table-conflict;
  }

-- Compare and set, for a valid key in a table that keeps its primary key. Where the expected version
-- is the key's version (0 for a missing or expired row), the commit tells the next version, the key
-- then has the new value and that version, and every other row is seen as before; where it is not,
-- the commit answers with a conflict and the table is unchanged.
pub compare_and_set :
    {V : Type 0} (now : ℕ) (key : List Text) (v : ℕ) (x : V) (rows : List (Row V))
    → validate_key key ≡ ok tt
    → Unique rows
    → let (result, rows') = check_set now key v x rows in
      (version_of now key rows ≡ v
        → (result ≡ ok (committed (some (suc v))))
          × (value_of now key rows' ≡ some x)
          × (version_of now key rows' ≡ suc v)
          × ((path : Text)
              → encode_key_path key ≢ path
              → live_value now (find_row path rows') ≡ live_value now (find_row path rows)))
      × (version_of now key rows ≢ v → (result ≡ ok conflict) × (rows' ≡ rows))
compare_and_set now key v x rows valid u = (hit, miss)
  where
    others :
        (path : Text)
        → encode_key_path key ≢ path
        → live_value now (find_row path (upsert (encode_key_path key) key x none (purge now rows)))
          ≡ live_value now (find_row path rows)
    others path ne =
        ap (live_value now)
          (find_row-upsert_ne (encode_key_path key) path key x none (purge now rows) ne)
        ∙ live_value-purge now path rows u

    hit :
        version_of now key rows ≡ v
        → ((check_set now key v x rows).0 ≡ ok (committed (some (suc v))))
          × (value_of now key (check_set now key v x rows).1 ≡ some x)
          × (version_of now key (check_set now key v x rows).1 ≡ suc v)
          × ((path : Text)
              → encode_key_path key ≢ path
              → live_value now (find_row path (check_set now key v x rows).1)
                ≡ live_value now (find_row path rows))
    hit e =
        let seen = written-seen now key x rows u in
        rw (check_set_ok now key v x rows valid u e) (refl, seen.0, seen.1 ∙ ap suc e, others)

    miss :
        version_of now key rows ≢ v
        → ((check_set now key v x rows).0 ≡ ok conflict) × ((check_set now key v x rows).1 ≡ rows)
    miss ne = rw (check_set_conflict now key v x rows valid u ne) (refl, refl)

-- A commit of any checks and mutations, all of whose keys are valid, in a table that keeps its primary
-- key. When each check names the version that the table has for its key (0 for a missing or expired
-- row), the commit succeeds, and at each path stands what the mutations, in their order, make of what
-- was seen there before: the last one that names the path decides, and a path that none names is seen
-- as before. Otherwise the commit is refused, and changes nothing.
pub commit_atomic :
    {V : Type 0} (now : ℕ) (checks : List (List Text × ℕ)) (mutations : List (Mutation V))
    (rows : List (Row V))
    → validate_all mutations ≡ ok tt
    → Unique rows
    → let (result, rows') = commit now checks mutations rows in
      (AllSeen now rows checks
        → ((told : Option ℕ) × (result ≡ ok (committed told)))
          × ((path : Text)
              → live_value now (find_row path rows')
                ≡ effect path mutations (live_value now (find_row path rows))))
      × (¬ AllSeen now rows checks → (result ≡ ok conflict) × (rows' ≡ rows))
commit_atomic now checks mutations rows valid u =
    elim (Bool-cases (all (check_holds now (purge now rows)) checks)) [
      | inl held ↦
          let (told, e) = commit-held now checks mutations rows valid held in
          (
            (λ seen. (
              (told, ap (λ p. p.0) e),
              λ path. ap (λ p. live_value now (find_row path p.1)) e ∙ applied path,
            )),
            λ unseen. absurd (unseen (holds-AllSeen now rows checks (sym purged ∙ held))),
          )
      | inr failed ↦
          let e = commit-refused now checks mutations rows valid failed in
          (
            (λ seen.
                absurd (false_true (sym failed ∙ purged ∙ AllSeen-holds now rows checks seen))),
            λ unseen. (ap (λ p. p.0) e, ap (λ p. p.1) e),
          )
    ]
  where
    purged : all (check_holds now (purge now rows)) checks ≡ all (check_holds now rows) checks
    purged = checks-purge now rows u checks

    false_true : false ≡ true → ⊥
    false_true e = absurd cc

    applied :
        (path : Text)
        → live_value now (find_row path (apply_all mutations 0 (purge now rows)).1)
          ≡ effect path mutations (live_value now (find_row path rows))
    applied path =
        apply_all-effect now path mutations 0 (purge now rows)
        ∙ ap (effect path mutations) (live_value-purge now path rows u)
