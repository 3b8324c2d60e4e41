-- ===== src/Providers/SqliteKv/Examples.antt =====
-- providers/kv/sqlite-provider.ts: the theorems at concrete tables, and tests by evaluation.
use railfog.Prelude.{
  Option, not, ◌||◌, ◌&&◌, ◌==◌, ℕ, ◌≡◌, ◌≢◌, refl, true, false, List, [], ◌∷◌, ◌++◌, codes, Text,
  arith, Bool, none, some,
}
use railfog.Errors.{ok}
use railfog.KvProvider.{committed, conflict}
use railfog.Providers.KeyPath.Like.{fold_case, done, any_text, any_one, literal}
use railfog.Providers.KeyPath.Decoding.{IsKey, encode_key_path_inj}
use railfog.Providers.SqliteKv.{Row, find_row, deletes, commit, selects}
use railfog.Providers.SqliteKv.Commits.{live_value, value_of, version_of, check_set}
use railfog.Providers.SqliteKv.Mutations.{AllSeen, effect}
use railfog.Providers.SqliteKv.Contract.{compare_and_set, commit_atomic}
use railfog.Providers.SqliteKv.Listing.{AcceptsMatches, selects_beyond}
use railfog.Providers.KeyPath.{
  underscore, percent, encode_key_path, encode_component, encode_byte, is_unreserved, hex_digit,
  validate_key,
}

tenant_path : encode_key_path (codes "org" ∷ codes "a/b" ∷ []) ≡ codes "org/a%2Fb/"
unfolding encode_key_path encode_component encode_byte is_unreserved hex_digit
tenant_path = refl

-- A LIKE that runs, to show that what is assumed of it can hold.
like : Text → Text → Bool
like [] [] = true
like [] (c ∷ s) = false
like (p ∷ ps) [] = p == percent && like ps []
like (p ∷ ps) (c ∷ s) =
    (p == percent && (like ps (c ∷ s) || like (p ∷ ps) s))
    || ((p == underscore || (not (p == percent) && fold_case p == fold_case c)) && like ps s)

like-percent : (ps s : Text) → like ps s ≡ true → like (percent ∷ ps) s ≡ true
unfolding like
like-percent ps [] h = h
like-percent ps (c ∷ s) h = ground arith

like-skip :
    (ps : Text) (c : ℕ) (s : Text)
    → like (percent ∷ ps) s ≡ true
    → like (percent ∷ ps) (c ∷ s) ≡ true
unfolding like
like-skip ps c s h = ground arith

like-text : (ps t s : Text) → like ps s ≡ true → like (percent ∷ ps) (t ++ s) ≡ true
like-text ps [] s h = like-percent ps s h
like-text ps (c ∷ t) s h = like-skip ps c (t ++ s) (like-text ps t s h)

like-AcceptsMatches : AcceptsMatches like
unfolding like
like-AcceptsMatches _ _ done = refl
like-AcceptsMatches _ _ (any_text {p = ps} {s = s'} t m) =
    like-text ps t s' (like-AcceptsMatches ps s' m)
like-AcceptsMatches _ _ (any_one {p = ps} {s = s'} c m) =
    ground (arith, like-AcceptsMatches ps s' m)
like-AcceptsMatches _ _ (literal {p = ps} {s = s'} c d e ne m) =
    ground (arith, like-AcceptsMatches ps s' m)

abbrev my_key : List Text
my_key = codes "o" ∷ codes "my_p" ∷ []

abbrev other_key : List Text
other_key = codes "o" ∷ codes "myxp" ∷ codes "k" ∷ []

my_key-valid : validate_key my_key ≡ ok tt
unfolding validate_key
my_key-valid = refl

my_key-IsKey : IsKey my_key
my_key-IsKey = omega arith

other_key-IsKey : IsKey other_key
other_key-IsKey = omega arith

abbrev other_row : Row ℕ
other_row = record {
  key_path = encode_key_path other_key;
  key = other_key;
  value = 7;
  version = 3;
  expires_at = none;
}

encode_key_path_inj_example : my_key ≡ my_key
encode_key_path_inj_example = encode_key_path_inj my_key my_key my_key-IsKey my_key-IsKey refl

compare_and_set_example :
    let (result, rows') = check_set 0 my_key 0 9 (other_row ∷ []) in
    (version_of 0 my_key (other_row ∷ []) ≡ 0
      → (result ≡ ok (committed (some 1)))
        × (value_of 0 my_key rows' ≡ some 9)
        × (version_of 0 my_key rows' ≡ 1)
        × ((path : Text)
            → encode_key_path my_key ≢ path
            → live_value 0 (find_row path rows') ≡ live_value 0 (find_row path (other_row ∷ []))))
    × (version_of 0 my_key (other_row ∷ []) ≢ 0 → (result ≡ ok conflict) × (rows' ≡ other_row ∷ []))
compare_and_set_example = compare_and_set 0 my_key 0 9 (other_row ∷ []) my_key-valid (tt, tt)

commit_atomic_example :
    let (result, rows') = commit 0 ((other_key, 2) ∷ []) (deletes my_key ∷ []) (other_row ∷ []) in
    (AllSeen 0 (other_row ∷ []) ((other_key, 2) ∷ [])
      → ((told : Option ℕ) × (result ≡ ok (committed told)))
        × ((path : Text)
            → live_value 0 (find_row path rows')
              ≡ effect path (deletes my_key ∷ []) (live_value 0 (find_row path (other_row ∷ [])))))
    × (¬ AllSeen 0 (other_row ∷ []) ((other_key, 2) ∷ [])
        → (result ≡ ok conflict) × (rows' ≡ other_row ∷ []))
commit_atomic_example =
    commit_atomic 0 ((other_key, 2) ∷ []) (deletes my_key ∷ []) (other_row ∷ [])
      (unfold validate_key in refl) (tt, tt)

selects_beyond_example :
    (selects like 0 my_key none other_row ≡ true)
    × ((deeper : List Text) → other_key ≢ my_key ++ deeper)
selects_beyond_example =
    selects_beyond like 0 (codes "o" ∷ []) (codes "my") (codes "p") [] (codes "k" ∷ []) b'x'
      other_row like-AcceptsMatches (unfold is_unreserved in refl) (omega arith) refl refl
