-- ===== src/KvProvider.antt =====
-- primitives/kv/kv-provider.ts: the key-value contract, seen through one key, as its clients use
-- it. `read` and `version` are views of the stored row (version 0 stands for a missing row); the
-- operations return the store that they leave. The laws are KV-3's optimistic concurrency.
use railfog.Prelude.{ℕ, suc, ◌≡◌, ◌≢◌, Option, some}

-- What `commit()` resolves to: `{ ok: true, version? }` or `{ ok: false }`.
pub data Commit : Type 0 where
  committed : Option ℕ → Commit
  conflict : Commit

pub record KvKey (V : Type 0) : Type 1 where
  pub Store : Type 0
  pub read : Store → Option V
  pub version : Store → ℕ
  -- `kv.get(key)`: the value found, and the store after it.
  pub get : Store → Option V × Store
  -- `kv.atomic().check(key, v).set(key, x).commit()`
  pub check_set : ℕ → V → Store → Commit × Store
  pub get_value : (s : Store) → (get s).0 ≡ read s
  pub get_read : (s : Store) → read (get s).1 ≡ read s
  pub get_version : (s : Store) → version (get s).1 ≡ version s
  pub commit_ok :
      (v : ℕ) (x : V) (s : Store) → version s ≡ v → (check_set v x s).0 ≡ committed (some (suc v))
  pub commit_read : (v : ℕ) (x : V) (s : Store) → version s ≡ v → read (check_set v x s).1 ≡ some x
  pub commit_version :
      (v : ℕ) (x : V) (s : Store) → version s ≡ v → version (check_set v x s).1 ≡ suc v
  pub commit_conflict :
      (v : ℕ) (x : V) (s : Store) → version s ≢ v → check_set v x s ≡ (conflict, s)
