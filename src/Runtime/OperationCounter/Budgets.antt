-- ===== src/Runtime/OperationCounter/Budgets.antt =====
-- runtime/limits/operation-counter.ts: which operations a tracker lets through.
use railfog.Prelude.{ℕ, ◌+◌, ◌-◌, min, ◌≡◌, Bool, true, false, List, [], ◌∷◌, arith, if◌then◌else◌}
use railfog.Errors.{Result, ok, err}
use railfog.Runtime.OperationCounter.{
  Limits, Tracker, new_tracker, record_kv_op, record_object_op, record_queue_op,
}

-- The operations that a function may try.
pub data Op : Type 0 where
  kv object queue : Op

abbrev pub record_op : Op → Limits → Tracker → Result (Unit {0}) × Tracker
record_op Op.kv = record_kv_op
record_op Op.object = record_object_op
record_op Op.queue = record_queue_op

abbrev count_if : Bool → ℕ
count_if b = if b then 1 else 0

abbrev is_ok : Result (Unit {0}) → Bool
is_ok (ok _) = true
is_ok (err _) = false

-- How many of the operations of each kind were let through.
pub record Admitted : Type 0 where
  pub kv_count : ℕ
  pub object_count : ℕ
  pub queue_count : ℕ

abbrev add : Op → ℕ → Admitted → Admitted
add Op.kv n a = record a { kv_count = n + a.kv_count }
add Op.object n a = record a { object_count = n + a.object_count }
add Op.queue n a = record a { queue_count = n + a.queue_count }

abbrev pub tried : List Op → Admitted
tried [] = record { kv_count = 0; object_count = 0; queue_count = 0 }
tried (op ∷ ops) = add op 1 (tried ops)

pub admitted : Limits → List Op → Tracker → Admitted
admitted limits [] t = record { kv_count = 0; object_count = 0; queue_count = 0 }
admitted limits (op ∷ ops) t =
    let (answer, t') = record_op op limits t in
    add op (count_if (is_ok answer)) (admitted limits ops t')

admitted_from :
    (limits : Limits) (ops : List Op) (t : Tracker)
    → let a = admitted limits ops t in
      (a.kv_count ≡ min (tried ops).kv_count (limits.max_kv_ops - t.kv_ops))
      × (a.object_count ≡ min (tried ops).object_count (limits.max_object_ops - t.object_ops))
      × (a.queue_count ≡ min (tried ops).queue_count (limits.max_queue_ops - t.queue_ops))
unfolding admitted record_kv_op record_object_op record_queue_op
admitted_from limits [] t = ground arith
admitted_from limits (Op.kv ∷ ops) t =
    ground (arith, admitted_from limits ops (record_kv_op limits t).1)
admitted_from limits (Op.object ∷ ops) t =
    ground (arith, admitted_from limits ops (record_object_op limits t).1)
admitted_from limits (Op.queue ∷ ops) t =
    ground (arith, admitted_from limits ops (record_queue_op limits t).1)

-- However the operations of an invocation are ordered, as many of each kind are let through as
-- were tried, up to the limit of that kind; the kinds do not share their limits.
pub operations_admitted :
    (limits : Limits) (ops : List Op)
    → admitted limits ops new_tracker ≡ record {
      kv_count = min (tried ops).kv_count limits.max_kv_ops;
      object_count = min (tried ops).object_count limits.max_object_ops;
      queue_count = min (tried ops).queue_count limits.max_queue_ops;
    }
operations_admitted limits ops = ground (arith, admitted_from limits ops new_tracker)
