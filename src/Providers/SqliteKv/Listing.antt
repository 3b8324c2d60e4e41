-- ===== src/Providers/SqliteKv/Listing.antt =====
-- providers/kv/sqlite-provider.ts: what a page of `list` holds, and which rows LIKE lets in.
use mathlib.Core.List.{append_assoc}
use railfog.Prelude.{
  text_leb, text_leb-total, text_leb_trans, ltb-false→le, ltb, ℕ, zero, suc, ◌≡◌, refl, sym, ◌∙◌,
  ap, ◌≢◌, ◌≤◌, Bool, true, false, Option, none, some, List, [], ◌∷◌, ◌++◌, Text, arith, All,
  Bool-cases, inl, inr, subst, length, take, filterb,
}
use railfog.Providers.KeyPath.{
  encode_component, slash, is_unreserved, encode_key_path, percent, underscore,
}
use railfog.Providers.KeyPath.Decoding.{
  path_of-append, path_of-char, path_of, encode_key_path-path_of,
}
use railfog.Providers.KeyPath.Like.{LikeMatches, LikeMatches-self, LikeMatches-underscore}
use railfog.Providers.SqliteKv.{
  paginate, Row, is_expired, insert_sorted, order_by_path, page_limit, selects, list,
}

-- The paths ascend.
abbrev pub IsAscending : {V : Type 0} → List (Row V) → Type 0
IsAscending [] = Unit
IsAscending (r ∷ rows) = All (λ x. text_leb r.key_path x.key_path ≡ true) rows × IsAscending rows

module _ {V : Type 0} where
  All-leb_trans :
      (s t : Text) (rows : List (Row V))
      → text_leb s t ≡ true
      → All (λ x. text_leb t x.key_path ≡ true) rows
      → All (λ x. text_leb s x.key_path ≡ true) rows
  All-leb_trans s t [] h a = tt
  All-leb_trans s t (r ∷ rows) h a =
      (text_leb_trans s t r.key_path h a.0, All-leb_trans s t rows h a.1)

  All-insert_sorted {ℓ} :
      (P : Row V → Type ℓ) (r : Row V) (rows : List (Row V))
      → P r
      → All P rows
      → All P (insert_sorted r rows)
  unfolding insert_sorted
  All-insert_sorted P r [] h a = (h, tt)
  All-insert_sorted P r (x ∷ rows) h a = elim (Bool-cases (text_leb r.key_path x.key_path)) [
    | inl le ↦ rw (le, insert_sorted) (h, a)
    | inr gt ↦ rw (gt, insert_sorted) (a.0, All-insert_sorted P r rows h a.1)
  ]

  insert_sorted-IsAscending :
      (r : Row V) (rows : List (Row V)) → IsAscending rows → IsAscending (insert_sorted r rows)
  unfolding insert_sorted
  insert_sorted-IsAscending r [] a = (tt, tt)
  insert_sorted-IsAscending r (x ∷ rows) a = elim (Bool-cases (text_leb r.key_path x.key_path)) [
    | inl le ↦ rw (le, insert_sorted) ((le, All-leb_trans r.key_path x.key_path rows le a.0), a)
    | inr gt ↦
        rw (gt, insert_sorted)
          (
            All-insert_sorted (λ y. text_leb x.key_path y.key_path ≡ true) r rows
                (text_leb-total r.key_path x.key_path gt) a.0,
            insert_sorted-IsAscending r rows a.1,
          )
  ]

  order_by_path-IsAscending : (rows : List (Row V)) → IsAscending (order_by_path rows)
  unfolding order_by_path
  order_by_path-IsAscending [] = tt
  order_by_path-IsAscending (r ∷ rows) =
      insert_sorted-IsAscending r (order_by_path rows) (order_by_path-IsAscending rows)

  All-order_by_path {ℓ} :
      (P : Row V → Type ℓ) (rows : List (Row V)) → All P rows → All P (order_by_path rows)
  unfolding order_by_path
  All-order_by_path P [] a = tt
  All-order_by_path P (r ∷ rows) a =
      All-insert_sorted P r (order_by_path rows) a.0 (All-order_by_path P rows a.1)

  All-filterb : (q : Row V → Bool) (rows : List (Row V)) → All (λ r. q r ≡ true) (filterb q rows)
  All-filterb q [] = tt
  All-filterb q (r ∷ rows) = ground (arith, All-filterb q rows)

  All-take {ℓ} :
      (P : Row V → Type ℓ) (n : ℕ) (rows : List (Row V)) → All P rows → All P (take n rows)
  All-take P zero rows a = tt
  All-take P (suc n) [] a = tt
  All-take P (suc n) (r ∷ rows) a = (a.0, All-take P n rows a.1)

  take-IsAscending : (n : ℕ) (rows : List (Row V)) → IsAscending rows → IsAscending (take n rows)
  take-IsAscending zero rows a = tt
  take-IsAscending (suc n) [] a = tt
  take-IsAscending (suc n) (r ∷ rows) a = (All-take _ n rows a.0, take-IsAscending n rows a.1)

  length-take-le : (n : ℕ) (rows : List (Row V)) → length (take n rows) ≤ n
  length-take-le zero rows = omega arith
  length-take-le (suc n) [] = omega arith
  length-take-le (suc n) (r ∷ rows) = omega (arith, length-take-le n rows)

  paginate-page {ℓ} :
      (P : Row V → Type ℓ) (n : ℕ) (found : List (Row V))
      → All P found
      → IsAscending found
      → let page = (paginate n found).0 in (length page ≤ n) × All P page × IsAscending page
  unfolding paginate
  paginate-page P n found a asc = elim (Bool-cases (ltb n (length found))) [
    | inl more ↦
        rw (more, paginate)
          (length-take-le n found, All-take P n found a, take-IsAscending n found asc)
    | inr last ↦ rw (last, paginate) (ltb-false→le n (length found) last, a, asc)
  ]

page_limit-le : (limit : Option ℕ) → page_limit limit ≤ 1000
unfolding page_limit
page_limit-le none = omega arith
page_limit-le (some n) = ground arith

append-cons-inj {ℓ} :
    {A : Type ℓ} (xs ys zs : List A) {x y : A} → xs ++ x ∷ ys ≡ xs ++ y ∷ zs → x ≡ y
append-cons-inj [] ys zs e = cc
append-cons-inj (w ∷ xs) ys zs e = append-cons-inj xs ys zs (cc)

underscore_plain : is_unreserved underscore ≡ true
unfolding is_unreserved
underscore_plain = refl

-- What is assumed of LIKE: it holds wherever its documentation makes the pattern match.
abbrev pub AcceptsMatches : (Text → Text → Bool) → Type 0
AcceptsMatches like = (p s : Text) → LikeMatches p s → like p s ≡ true

module _ (like : Text → Text → Bool) {V : Type 0} where
  -- A page holds at most the limit asked for, 100 by default and never more than 1000; it holds only
  -- rows that the query selects; and their paths ascend.
  pub list_page :
      (now : ℕ) (prefix : List Text) (limit : Option ℕ) (cursor : Option Text) (rows : List (Row V))
      → let page = (list like now prefix limit cursor rows).0 in
        (length page ≤ page_limit limit)
        × (page_limit limit ≤ 1000)
        × All (λ r. selects like now prefix cursor r ≡ true) page
        × IsAscending page
  unfolding list
  list_page now prefix limit cursor rows =
      let (short, chosen, sorted) =
        paginate-page (λ r. selects like now prefix cursor r ≡ true) (page_limit limit)
          (take (suc (page_limit limit))
            (order_by_path (filterb (selects like now prefix cursor) rows)))
          (All-take _ (suc (page_limit limit)) _
            (All-order_by_path _ _ (All-filterb (selects like now prefix cursor) rows)))
          (take-IsAscending (suc (page_limit limit)) _
            (order_by_path-IsAscending (filterb (selects like now prefix cursor) rows))) in
      (short, page_limit-le limit, chosen, sorted)

  -- A live row whose key lies below the prefix is selected by the first page's query.
  pub selects_below :
      (now : ℕ) (prefix below : List Text) (r : Row V)
      → AcceptsMatches like
      → r.key_path ≡ encode_key_path (prefix ++ below)
      → is_expired now r ≡ false
      → selects like now prefix none r ≡ true
  unfolding selects
  selects_below now prefix below r accepts e live = rw (e, live, matches)
    where
      matches :
          like (encode_key_path prefix ++ percent ∷ []) (encode_key_path (prefix ++ below)) ≡ true
      matches = accepts _ _ (
          subst (LikeMatches (encode_key_path prefix ++ percent ∷ []))
            (ap (λ p. p ++ path_of below) (encode_key_path-path_of prefix)
              ∙ (path_of-append prefix below ∙ sym (encode_key_path-path_of (prefix ++ below))))
            (LikeMatches-self (encode_key_path prefix) (path_of below)))

  -- The query does not stop at the prefix: where a segment of the prefix holds an underscore, the
  -- live rows of every key that differs from the prefix in that one character are selected too, and
  -- such a key does not lie below the prefix.
  pub selects_beyond :
      (now : ℕ) (above : List Text) (front back : Text) (below rest : List Text) (c : ℕ) (r : Row V)
      → AcceptsMatches like
      → is_unreserved c ≡ true
      → c ≢ underscore
      → let prefix = above ++ (front ++ underscore ∷ back) ∷ below in
        let key = above ++ (front ++ c ∷ back) ∷ (below ++ rest) in
        r.key_path ≡ encode_key_path key
        → is_expired now r ≡ false
        → (selects like now prefix none r ≡ true) × ((deeper : List Text) → key ≢ prefix ++ deeper)
  unfolding selects
  selects_beyond now above front back below rest c r accepts plain differs e live = (
    rw (e, live, matches),
    λ deeper same. differs (
        append-cons-inj front back back (
          append-cons-inj above (below ++ rest) (below ++ deeper)
            (same ∙ append_assoc above ((front ++ underscore ∷ back) ∷ below) deeper))),
  )
    where
      matches :
          like
            (encode_key_path (above ++ (front ++ underscore ∷ back) ∷ below) ++ percent ∷ [])
            (encode_key_path (above ++ (front ++ c ∷ back) ∷ (below ++ rest)))
          ≡ true
      matches = accepts _ _ (
          rw
            (
              encode_key_path-path_of (above ++ (front ++ underscore ∷ back) ∷ below),
              encode_key_path-path_of (above ++ (front ++ c ∷ back) ∷ (below ++ rest)),
              path_of-char above front back below underscore underscore_plain,
              path_of-char above front back (below ++ rest) c plain,
              ← path_of-append below rest,
            )
            (subst (LikeMatches _)
              (append_assoc (path_of above ++ encode_component front) _ (path_of rest)
                ∙ ap (λ p. (path_of above ++ encode_component front) ++ c ∷ p)
                    (append_assoc (encode_component back) _ (path_of rest)))
              (LikeMatches-underscore (path_of above ++ encode_component front)
                (encode_component back ++ slash ∷ path_of below) (path_of rest) c)))
