-- ===== src/Prelude/Division.antt =====
-- `Math.ceil` of a quotient of natural numbers.
use Prim.Native.Nat.{ℕ, ◌+◌, ◌-◌, ◌*◌, ◌/◌, ◌≤◌, ◌<◌}
use mathlib.Core.Logic.{◌↔◌}
use native.Mathlib.Omega.{arith}
use native.Mathlib.Nat.{add-mul, div-lt_iff_lt-mul}

-- `Math.ceil(a / b)`, for b above 0.
abbrev pub div_ceil : ℕ → ℕ → ℕ
div_ceil a b = (a + b - 1) / b

pub div_ceil_le : (a b n : ℕ) → 0 < b → (div_ceil a b ≤ n) ↔ (a ≤ n * b)
div_ceil_le a b n pos =
    let (to, from) = div-lt_iff_lt-mul {k = b} {x = a + b - 1} {y = n + 1} pos in
    (
      λ le. omega (arith, to (omega (arith, le)), add-mul n 1 b, pos),
      λ le. omega (arith, from (omega (arith, le, add-mul n 1 b, pos))),
    )
