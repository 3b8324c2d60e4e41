-- ===== src/Core/Ulid/Examples.antt =====
-- packages/core/id/ulid.ts: the theorems at concrete times, and tests.
use railfog.Prelude.{zero, ◌≡◌, refl, ℕ, true, false, map, List, [], ◌∷◌, codes, arith}
use railfog.Core.Ulid.{
  suc, encoding, time_from, rand_half, RandomBytes, generate_ulid, is_valid_ulid,
}
use railfog.Core.Ulid.Order.{is_valid_ulid-generate_ulid}

abbrev up_to : ℕ → List ℕ → List ℕ
up_to zero rest = rest
up_to (suc n) rest = up_to n (n ∷ rest)

encoding_table : map encoding (up_to 32 []) ≡ codes "0123456789ABCDEFGHJKMNPQRSTVWXYZ"
unfolding encoding
encoding_table = refl

abbrev bytes : RandomBytes
bytes = record {
  b0 = 0;
  b1 = 255;
  b2 = 7;
  b3 = 128;
  b4 = 31;
  b5 = 0;
  b6 = 0;
  b7 = 0;
  b8 = 0;
  b9 = 1;
}

abbrev most : RandomBytes
most = record {
  b0 = 255;
  b1 = 255;
  b2 = 255;
  b3 = 255;
  b4 = 255;
  b5 = 255;
  b6 = 255;
  b7 = 255;
  b8 = 255;
  b9 = 255;
}

generated : generate_ulid 1_700_000_000_000 bytes ≡ codes "01HF7YAT0003ZGF00Z00000001"
unfolding generate_ulid time_from rand_half encoding
generated = refl

lower_refused : is_valid_ulid (codes "01hf7yat00zzzzzzzzzzzzzzzz") ≡ false
unfolding is_valid_ulid
lower_refused = refl

is_valid_ulid-generate_ulid_example : is_valid_ulid (generate_ulid 1_700_000_000_000 bytes) ≡ true
is_valid_ulid-generate_ulid_example =
    is_valid_ulid-generate_ulid 1_700_000_000_000 bytes (omega arith)
