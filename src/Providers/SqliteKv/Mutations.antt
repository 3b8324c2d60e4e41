-- ===== src/Providers/SqliteKv/Mutations.antt =====
-- providers/kv/sqlite-provider.ts, `commit`: what its checks ask, and what its mutations leave.
use railfog.Prelude.{
  ltb, ℕ, ◌≤◌, ◌≡◌, ◌≢◌, refl, sym, ◌∙◌, ap, true, false, not, Option, none, some, List, [], ◌∷◌,
  Text, text_eq, text_eq_sound, text_eq_iff, arith, if◌then◌else◌, Bool-cases, inl, inr, All, all,
  subst,
}
use railfog.Errors.{ErrorCode, ok, err, Result-cases}
use railfog.KvProvider.{committed, conflict}
use railfog.Providers.KeyPath.{encode_key_path}
use railfog.Providers.SqliteKv.{
  Row, is_expired, is_due, find_row, delete_row, purge, upsert, Mutation, sets, deletes,
  mutated_key, apply_all, check_holds, commit, validate_all,
}
use railfog.Providers.SqliteKv.Table.{
  upserted, find_row-upsert, find_row-upsert_ne, Unique, Unique-upsert, Unique-filterb,
  find_row-filterb, keep,
}
use railfog.Providers.SqliteKv.Commits.{live_value, version_of}

-- Each check names the version that the table has.
abbrev pub AllSeen : {V : Type 0} → (now : ℕ) → List (Row V) → List (List Text × ℕ) → Type 0
AllSeen now rows checks = All (λ check. version_of now check.0 rows ≡ check.1) checks

-- What the mutations, in their order, make of what is at a path.
abbrev pub effect : {V : Type 0} → (path : Text) → List (Mutation V) → Option V → Option V
effect path [] seen = seen
effect path (sets key x ∷ ms) seen =
    effect path ms (if text_eq (encode_key_path key) path then some x else seen)
effect path (deletes key ∷ ms) seen =
    effect path ms (if text_eq (encode_key_path key) path then none else seen)

module _ {V : Type 0} (now : ℕ) (checks : List (List Text × ℕ)) (mutations : List (Mutation V))
    (rows : List (Row V)) (valid : validate_all mutations ≡ ok tt) where
  pub commit-held :
      all (check_holds now (purge now rows)) checks ≡ true
      → (told : Option ℕ) × (commit now checks mutations rows
          ≡ (ok (committed told), (apply_all mutations 0 (purge now rows)).1))
  unfolding commit
  commit-held held = (
    (if ltb 0 (apply_all mutations 0 (purge now rows)).0
        then some (apply_all mutations 0 (purge now rows)).0
        else none),
    rw (valid, commit) (rw held refl),
  )

  pub commit-refused :
      all (check_holds now (purge now rows)) checks ≡ false
      → commit now checks mutations rows ≡ (ok conflict, rows)
  unfolding commit
  commit-refused failed = rw (valid, commit) (rw failed refl)

module _ {V : Type 0} where
  commit-invalid :
      (now : ℕ) (checks : List (List Text × ℕ)) (mutations : List (Mutation V))
      (rows : List (Row V)) (code : ErrorCode)
      → validate_all mutations ≡ err code
      → commit now checks mutations rows ≡ (err code, rows)
  unfolding commit
  commit-invalid now checks mutations rows code e = rw (e, commit) refl

module _ {V : Type 0} where
  pub holds-AllSeen :
      (now : ℕ) (rows : List (Row V)) (checks : List (List Text × ℕ))
      → all (check_holds now rows) checks ≡ true
      → AllSeen now rows checks
  unfolding check_holds
  holds-AllSeen now rows [] h = tt
  holds-AllSeen now rows ((key, v) ∷ checks) h =
      (ground (arith, h), holds-AllSeen now rows checks (ground (arith, h)))

  pub AllSeen-holds :
      (now : ℕ) (rows : List (Row V)) (checks : List (List Text × ℕ))
      → AllSeen now rows checks
      → all (check_holds now rows) checks ≡ true
  unfolding check_holds
  AllSeen-holds now rows [] h = refl
  AllSeen-holds now rows ((key, v) ∷ checks) (h, hs) =
      ground (arith, h, AllSeen-holds now rows checks hs)

  upserted-seen :
      (now : ℕ) (path : Text) (key : List Text) (x : V) (o : Option (Row V))
      → live_value now (some (upserted path key x none o)) ≡ some x
  upserted-seen now path key x none = refl
  upserted-seen now path key x (some r) = refl

  find_row-delete_row :
      (path : Text) (rows : List (Row V)) → find_row path (delete_row path rows) ≡ none
  unfolding find_row delete_row
  find_row-delete_row path [] = refl
  find_row-delete_row path (r ∷ rows) = ground (arith, find_row-delete_row path rows)

  pub find_row-delete_row_ne :
      (path other : Text) (rows : List (Row V))
      → path ≢ other
      → find_row other (delete_row path rows) ≡ find_row other rows
  unfolding find_row delete_row
  find_row-delete_row_ne path other [] ne = refl
  find_row-delete_row_ne path other (r ∷ rows) ne = ground (
    arith,
    find_row-delete_row_ne path other rows ne,
    text_eq_iff r.key_path path,
    text_eq_iff r.key_path other,
  )

  upsert-seen :
      (now : ℕ) (path : Text) (key : List Text) (x : V) (rows : List (Row V))
      → live_value now (find_row path (upsert (encode_key_path key) key x none rows)) ≡ (
          if text_eq (encode_key_path key) path
          then some x
          else live_value now (find_row path rows))
  upsert-seen now path key x rows = elim (Bool-cases (text_eq (encode_key_path key) path)) [
    | inl same ↦ rw same (
        subst
          (λ p. live_value now (find_row p (upsert (encode_key_path key) key x none rows)) ≡ some x)
          (text_eq_sound (encode_key_path key) path same)
          (ap (live_value now) (find_row-upsert (encode_key_path key) key x none rows)
            ∙ upserted-seen now (encode_key_path key) key x (find_row (encode_key_path key) rows)))
    | inr other ↦ rw other (
        ap (live_value now) (
          find_row-upsert_ne (encode_key_path key) path key x none rows
            (λ same. ground (arith, text_eq_iff (encode_key_path key) path))))
  ]

  delete-seen :
      (now : ℕ) (path : Text) (key : List Text) (rows : List (Row V))
      → live_value now (find_row path (delete_row (encode_key_path key) rows))
        ≡ (if text_eq (encode_key_path key) path then none else live_value now (find_row path rows))
  delete-seen now path key rows = elim (Bool-cases (text_eq (encode_key_path key) path)) [
    | inl same ↦ rw same (
        subst (λ p. live_value now (find_row p (delete_row (encode_key_path key) rows)) ≡ none)
          (text_eq_sound (encode_key_path key) path same)
          (ap (live_value now) (find_row-delete_row (encode_key_path key) rows)))
    | inr other ↦ rw other (
        ap (live_value now) (
          find_row-delete_row_ne (encode_key_path key) path rows
            (λ same. ground (arith, text_eq_iff (encode_key_path key) path))))
  ]

  pub apply_all-effect :
      (now : ℕ) (path : Text) (ms : List (Mutation V)) (highest : ℕ) (rows : List (Row V))
      → live_value now (find_row path (apply_all ms highest rows).1)
        ≡ effect path ms (live_value now (find_row path rows))
  unfolding apply_all
  apply_all-effect now path [] highest rows = refl
  apply_all-effect now path (sets key x ∷ ms) highest rows =
      apply_all-effect now path ms _ (upsert (encode_key_path key) key x none rows)
      ∙ ap (effect path ms) (upsert-seen now path key x rows)
  apply_all-effect now path (deletes key ∷ ms) highest rows =
      apply_all-effect now path ms highest (delete_row (encode_key_path key) rows)
      ∙ ap (effect path ms) (delete-seen now path key rows)

  pub apply_all-Unique :
      (ms : List (Mutation V)) (highest : ℕ) (rows : List (Row V))
      → Unique rows
      → Unique (apply_all ms highest rows).1
  unfolding apply_all delete_row
  apply_all-Unique [] highest rows u = u
  apply_all-Unique (sets key x ∷ ms) highest rows u =
      apply_all-Unique ms _ (upsert (encode_key_path key) key x none rows)
        (Unique-upsert (encode_key_path key) key x none rows u)
  apply_all-Unique (deletes key ∷ ms) highest rows u =
      apply_all-Unique ms highest (delete_row (encode_key_path key) rows)
        (Unique-filterb (λ r. not (text_eq r.key_path (encode_key_path key))) rows u)

  apply_all_leaves :
      (other : Text) (ms : List (Mutation V)) (highest : ℕ) (rows : List (Row V))
      → All (λ m. encode_key_path (mutated_key m) ≢ other) ms
      → find_row other (apply_all ms highest rows).1 ≡ find_row other rows
  unfolding apply_all
  apply_all_leaves other [] highest rows differ = refl
  apply_all_leaves other (sets key x ∷ ms) highest rows (d, ds) =
      apply_all_leaves other ms _ (upsert (encode_key_path key) key x none rows) ds
      ∙ find_row-upsert_ne (encode_key_path key) other key x none rows d
  apply_all_leaves other (deletes key ∷ ms) highest rows (d, ds) =
      apply_all_leaves other ms highest (delete_row (encode_key_path key) rows) ds
      ∙ find_row-delete_row_ne (encode_key_path key) other rows d

  expired_later :
      (t now : ℕ) (r : Row V) → t ≤ now → is_expired t r ≡ true → is_expired now r ≡ true
  expired_later t now r before due = go r.expires_at due
    where
      go : (expires : Option ℕ) → is_due t expires ≡ true → is_due now expires ≡ true
      go none h = absurd cc
      go (some at) h = ground (arith, h, before)

  keep-seen_later :
      (t now : ℕ) (o : Option (Row V))
      → t ≤ now
      → live_value now (keep (λ r. not (is_expired t r)) o) ≡ live_value now o
  keep-seen_later t now none before = refl
  keep-seen_later t now (some r) before = elim (Bool-cases (is_expired t r)) [
    | inl due ↦ rw (due, expired_later t now r before due) refl
    | inr live ↦ rw live refl
  ]

  -- A purge takes nothing that is seen at its time or later.
  purge-seen_later :
      (t now : ℕ) (path : Text) (rows : List (Row V))
      → t ≤ now
      → Unique rows
      → live_value now (find_row path (purge t rows)) ≡ live_value now (find_row path rows)
  unfolding purge
  purge-seen_later t now path rows before u =
      ap (live_value now) (find_row-filterb (λ r. not (is_expired t r)) path rows u)
      ∙ keep-seen_later t now (find_row path rows) before

  -- What a commit at a time leaves to be seen, then or later, at a path that it does not name.
  pub commit_leaves :
      (t now : ℕ) (other : Text) (checks : List (List Text × ℕ)) (ms : List (Mutation V))
      (rows : List (Row V))
      → t ≤ now
      → Unique rows
      → All (λ m. encode_key_path (mutated_key m) ≢ other) ms
      → live_value now (find_row other (commit t checks ms rows).1)
        ≡ live_value now (find_row other rows)
  commit_leaves t now other checks ms rows before u differ = elim (Result-cases (validate_all ms)) [
    | inl (code, e) ↦
        ap (λ p. live_value now (find_row other p.1)) (commit-invalid t checks ms rows code e)
    | inr valid ↦ elim (Bool-cases (all (check_holds t (purge t rows)) checks)) [
      | inl held ↦
          let (told, e) = commit-held t checks ms rows valid held in
          ap (λ p. live_value now (find_row other p.1)) e
          ∙ ap (live_value now) (apply_all_leaves other ms 0 (purge t rows) differ)
          ∙ purge-seen_later t now other rows before u
      | inr failed ↦
          ap (λ p. live_value now (find_row other p.1))
            (commit-refused t checks ms rows valid failed)
    ]
  ]

  pub commit-Unique :
      (t : ℕ) (checks : List (List Text × ℕ)) (ms : List (Mutation V)) (rows : List (Row V))
      → Unique rows
      → Unique (commit t checks ms rows).1
  unfolding purge
  commit-Unique t checks ms rows u = elim (Result-cases (validate_all ms)) [
    | inl (code, e) ↦ subst (λ p. Unique p.1) (sym (commit-invalid t checks ms rows code e)) u
    | inr valid ↦ elim (Bool-cases (all (check_holds t (purge t rows)) checks)) [
      | inl held ↦
          let (told, e) = commit-held t checks ms rows valid held in
          subst (λ p. Unique p.1) (sym e)
            (apply_all-Unique ms 0 (purge t rows)
              (Unique-filterb (λ r. not (is_expired t r)) rows u))
      | inr failed ↦ subst (λ p. Unique p.1) (sym (commit-refused t checks ms rows valid failed)) u
    ]
  ]
