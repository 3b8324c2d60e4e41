-- ===== src/Providers/GuardedProviders/Examples.antt =====
-- providers/guard/tenant-guard.ts, the guarded providers: the theorems at concrete calls, and tests.
use railfog.Prelude.{
  some, ◌≡◌, refl, ℕ, Bool, true, none, List, [], ◌∷◌, Text, codes, arith, text_eq,
}
use railfog.Errors.{ErrorCode, ok, err}
use railfog.Providers.TenantGuard.{Unknown, UnknownArray, TenantContext, sanitize_kv_key}
use railfog.Providers.GuardedProviders.{
  KvCall, AtomicCall, guarded_kv, guarded_queue, assert_current_queue_name,
}
use railfog.Providers.GuardedProviders.Isolation.{sqlite_provider}
use railfog.Providers.GuardedProviders.Runs.{
  run_guarded, guarded_kv-isolated, GuardedCall, calls, commits,
}
use railfog.Providers.SqliteKv.{Row}

abbrev acme : TenantContext
acme = record { org_id = codes "a"; project_id = codes "w" }

abbrev other : TenantContext
other = record { org_id = codes "bb"; project_id = codes "w" }

abbrev any_like : Text → Text → Bool
any_like pattern text = true

abbrev key_of_other : UnknownArray
key_of_other =
    UnknownArray.array
      (Unknown.string (codes "bb") ∷ Unknown.string (codes "w") ∷ Unknown.string (codes "k") ∷ [])

abbrev key_of_acme : UnknownArray
key_of_acme =
    UnknownArray.array
      (Unknown.string (codes "a") ∷ Unknown.string (codes "w") ∷ Unknown.string (codes "k") ∷ [])

-- A call with its own key, one with another tenant's, and a commit of an atomic builder.
abbrev run : List (ℕ × GuardedCall ℕ)
run =
    (5, calls (KvCall.set key_of_acme 7 none))
    ∷ (6, calls (KvCall.set key_of_other 8 none))
    ∷ (8, commits (AtomicCall.check key_of_acme 1 ∷ AtomicCall.delete key_of_acme ∷ []))
    ∷ []

-- A row of the other tenant that expires before the commit.
abbrev expiring : Row ℕ
expiring = record {
  key_path = codes "bb/w/k/";
  key = codes "bb" ∷ codes "w" ∷ codes "k" ∷ [];
  value = 3;
  version = 1;
  expires_at = some 7;
}

distinct : ¬ (acme ≡ other)
distinct e = absurd cc

other_accepted : sanitize_kv_key key_of_other other ≡ ok (codes "bb" ∷ codes "w" ∷ codes "k" ∷ [])
unfolding sanitize_kv_key text_eq
other_accepted = refl

guarded_kv-isolated_example :
    (guarded_kv other
      (sqlite_provider any_like 9)
      (KvCall.get key_of_other)
      (run_guarded any_like acme run (expiring ∷ []))).0
    ≡ (guarded_kv other (sqlite_provider any_like 9) (KvCall.get key_of_other) (expiring ∷ [])).0
guarded_kv-isolated_example =
    guarded_kv-isolated any_like acme other distinct key_of_other
      (codes "bb" ∷ codes "w" ∷ codes "k" ∷ []) (omega arith) other_accepted 9 run (expiring ∷ [])
      (tt, tt) (omega arith)

queue_refused :
    guarded_queue {R = ℕ} {S = ℕ} acme none (λ s. none) (λ s. (ok s, s)) 3
    ≡ (err ErrorCode.permission_denied, 3)
unfolding guarded_queue assert_current_queue_name
queue_refused = refl
