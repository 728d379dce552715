-- ===== src/Prelude/Int.antt =====
-- Signed integers over the native numbers; the source has them as `int`, `int64` and durations.
use Prim.Native.Nat.{ℕ, suc, ◌≤◌}
use mathlib.Core.Path.{◌≡◌}
use native.Mathlib.Omega.{arith}
use mathlib.Core.Bool.{Bool, true, false}
use web_form.Prelude.Tests.{leb, nat_eq}

-- `negsuc n` is -(n + 1).
pub data ℤ : Type 0 where
  pos : ℕ → ℤ
  negsuc : ℕ → ℤ

abbrev pub pos_part : ℤ → ℕ
pos_part (pos n) = n
pos_part (negsuc n) = 0

abbrev pub neg_part : ℤ → ℕ
neg_part (pos n) = 0
neg_part (negsuc n) = suc n

-- `z <= 0`
abbrev pub not_positive : ℤ → Bool
not_positive (pos n) = nat_eq n 0
not_positive (negsuc n) = true

-- `z == 0`
abbrev pub is_zero : ℤ → Bool
is_zero (pos n) = nat_eq n 0
is_zero (negsuc n) = false

-- `z <= n` for a counter `n` that starts at 0
abbrev pub le_counter : ℤ → ℕ → Bool
le_counter (pos m) n = leb m n
le_counter (negsuc m) n = true

pub counter_less : (retry : ℤ) (n : ℕ) → le_counter retry n ≡ false → suc n ≤ pos_part retry
counter_less (pos m) n h = ground arith
counter_less (negsuc m) n h = cc

pub counter_more : (retry : ℤ) (n : ℕ) → suc n ≤ pos_part retry → le_counter retry n ≡ false
counter_more (pos m) n h = ground arith
counter_more (negsuc m) n h = absurd (omega arith)
