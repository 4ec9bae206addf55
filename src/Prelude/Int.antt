-- ===== src/Prelude/Int.antt =====
-- The C `int` results of the kernel: a signed integer over the native numbers.
use Prim.Native.Nat.{ℕ}
use mathlib.Core.Path.{◌≡◌}
use mathlib.Core.Bool.{Bool, true, false}
use native.Mathlib.Omega.{arith}
use piux_kernel.Prelude.Tests.{◌==◌}

-- `negsuc n` is -(n + 1).
pub data ℤ : Type 0 where
  pos : ℕ → ℤ
  negsuc : ℕ → ℤ

-- The error result.
abbrev pub minus_one : ℤ
minus_one = negsuc 0

-- `value < 0`.
abbrev pub is_negative : ℤ → Bool
is_negative (pos n) = false
is_negative (negsuc n) = true

-- The number behind a result that is known to be at least 0.
abbrev pub nat_part : ℤ → ℕ
nat_part (pos n) = n
nat_part (negsuc n) = 0

abbrev pub same_ℤ : ℤ → ℤ → Bool
same_ℤ (pos a) (pos b) = a == b
same_ℤ (negsuc a) (negsuc b) = a == b
same_ℤ _ _ = false

pub same_ℤ→eq : (a b : ℤ) → same_ℤ a b ≡ true → a ≡ b
same_ℤ→eq (pos a) (pos b) h = ground arith
same_ℤ→eq (negsuc a) (negsuc b) h = ground arith
same_ℤ→eq _ _ h = cc
