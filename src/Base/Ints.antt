-- ===== src/Base/Ints.antt =====
-- Signed numbers, for the variables that the program lets go below zero.
use Prim.Native.Nat.{ℕ, zero, suc}
use mathlib.Core.Path.{◌≡◌, refl, ap}
use native.Mathlib.Omega.{arith}
use mathlib.Core.Bool.{Bool, true, false}
use frisbee.Base.Tests.{◌==◌}

-- `negsuc n` is -(n + 1).
pub data ℤ : Type 0 where
  pos negsuc : ℕ → ℤ

unfoldable pub neg : ℕ → ℤ
neg zero = pos 0
neg (suc n) = negsuc n

unfoldable pub eq_int : ℤ → ℤ → Bool
eq_int (pos a) (pos b) = a == b
eq_int (negsuc a) (negsuc b) = a == b
eq_int _ _ = false

unfoldable pub is_negative : ℤ → Bool
is_negative (pos a) = false
is_negative (negsuc a) = true

pub eq_int-eq : (a b : ℤ) → eq_int a b ≡ true → a ≡ b
unfolding eq_int
eq_int-eq (pos a) (pos b) h = ap pos (ground arith)
eq_int-eq (negsuc a) (negsuc b) h = ap negsuc (ground arith)
eq_int-eq (pos a) (negsuc b) h = absurd (ground arith)
eq_int-eq (negsuc a) (pos b) h = absurd (ground arith)

pub pos-is_negative : (n : ℕ) → is_negative (pos n) ≡ false
unfolding is_negative
pos-is_negative n = refl
