-- ===== src/Providers/SqliteKv/Table.antt =====
-- providers/kv/sqlite-provider.ts: looking a row up after each statement, in a table that keeps its
-- primary key.
use railfog.Prelude.{
  ℕ, suc, ◌≡◌, refl, ◌≢◌, Bool, Option, none, some, List, [], ◌∷◌, Text, text_eq, text_eq_iff,
  text_eq_refl, arith, if◌then◌else◌, filterb, All, Bool-cases, inl, inr, subst,
}
use railfog.Providers.SqliteKv.{Row, find_row, upsert}

abbrev pub keep {ℓ} : {A : Type ℓ} → (A → Bool) → Option A → Option A
keep q none = none
keep q (some r) = if q r then some r else none

module _ {V : Type 0} where
  -- No row has the path.
  abbrev pub Lacks : Text → List (Row V) → Type 0
  Lacks path rows = All (λ r. r.key_path ≢ path) rows

  -- The primary key: no two rows have the same path.
  abbrev pub Unique : List (Row V) → Type 0
  Unique [] = Unit
  Unique (r ∷ rows) = Lacks r.key_path rows × Unique rows

  Lacks-prop : (path : Text) (rows : List (Row V)) → IsProp (Lacks path rows)
  Lacks-prop path [] = hlevel
  Lacks-prop path (r ∷ rows) = hlevel (Lacks-prop path rows)

  pub Unique-prop : (rows : List (Row V)) → IsProp (Unique rows)
  Unique-prop [] = hlevel
  Unique-prop (r ∷ rows) = hlevel (Lacks-prop r.key_path rows, Unique-prop rows)

  pub find_row-Lacks :
      (path : Text) (rows : List (Row V)) → Lacks path rows → find_row path rows ≡ none
  unfolding find_row
  find_row-Lacks path [] h = refl
  find_row-Lacks path (r ∷ rows) h =
      ground (arith, text_eq_iff r.key_path path, find_row-Lacks path rows h.1)

  Lacks-filterb :
      (q : Row V → Bool) (path : Text) (rows : List (Row V))
      → Lacks path rows
      → Lacks path (filterb q rows)
  Lacks-filterb q path [] h = tt
  Lacks-filterb q path (r ∷ rows) h = ground (arith, Lacks-filterb q path rows h.1)

  pub Unique-filterb :
      (q : Row V → Bool) (rows : List (Row V)) → Unique rows → Unique (filterb q rows)
  Unique-filterb q [] u = tt
  Unique-filterb q (r ∷ rows) u =
      ground (arith, Unique-filterb q rows u.1, Lacks-filterb q r.key_path rows u.0)

  pub find_row-filterb :
      (q : Row V → Bool) (path : Text) (rows : List (Row V))
      → Unique rows
      → find_row path (filterb q rows) ≡ keep q (find_row path rows)
  unfolding find_row
  find_row-filterb q path [] u = refl
  find_row-filterb q path (r ∷ rows) u = elim (Bool-cases (text_eq r.key_path path)) [
    | inl hit ↦
        let lacks : Lacks path rows =
          subst (λ p. Lacks p rows) ((text_eq_iff r.key_path path).0 hit) u.0 in
        ground (arith, find_row-Lacks path (filterb q rows) (Lacks-filterb q path rows lacks))
    | inr miss ↦ ground (arith, find_row-filterb q path rows u.1)
  ]

  -- The row that an upsert leaves at its own path.
  abbrev pub upserted : Text → List Text → V → Option ℕ → Option (Row V) → Row V
  upserted path key value expires none = record {
    key_path = path;
    key = key;
    value = value;
    version = 1;
    expires_at = expires;
  }
  upserted path key value expires (some r) = record r {
    value = value;
    version = suc r.version;
    expires_at = expires;
  }

  pub find_row-upsert :
      (path : Text) (key : List Text) (value : V) (expires : Option ℕ) (rows : List (Row V))
      → find_row path (upsert path key value expires rows)
        ≡ some (upserted path key value expires (find_row path rows))
  unfolding find_row upsert
  find_row-upsert path key value expires [] = ground (arith, text_eq_refl path)
  find_row-upsert path key value expires (r ∷ rows) =
      ground (arith, find_row-upsert path key value expires rows)

  pub find_row-upsert_ne :
      (path other : Text) (key : List Text) (value : V) (expires : Option ℕ) (rows : List (Row V))
      → path ≢ other
      → find_row other (upsert path key value expires rows) ≡ find_row other rows
  unfolding find_row upsert
  find_row-upsert_ne path other key value expires [] ne = ground (arith, text_eq_iff path other)
  find_row-upsert_ne path other key value expires (r ∷ rows) ne = ground (
    arith,
    find_row-upsert_ne path other key value expires rows ne,
    text_eq_iff r.key_path path,
    text_eq_iff r.key_path other,
  )

  Lacks-upsert :
      (p path : Text) (key : List Text) (value : V) (expires : Option ℕ) (rows : List (Row V))
      → path ≢ p
      → Lacks p rows
      → Lacks p (upsert path key value expires rows)
  unfolding upsert
  Lacks-upsert p path key value expires [] ne h = (ne, tt)
  Lacks-upsert p path key value expires (r ∷ rows) ne h =
      ground (arith, Lacks-upsert p path key value expires rows ne h.1)

  pub Unique-upsert :
      (path : Text) (key : List Text) (value : V) (expires : Option ℕ) (rows : List (Row V))
      → Unique rows
      → Unique (upsert path key value expires rows)
  unfolding upsert
  Unique-upsert path key value expires [] u = (tt, tt)
  Unique-upsert path key value expires (r ∷ rows) u = elim (Bool-cases (text_eq r.key_path path)) [
    | inl hit ↦ rw (hit, upsert) u
    | inr miss ↦
        rw (miss, upsert)
          (
            Lacks-upsert r.key_path path key value expires rows
                (λ e. ground (arith, text_eq_iff r.key_path path)) u.0,
            Unique-upsert path key value expires rows u.1,
          )
  ]
