-- ===== src/Prelude/Int.antt =====
-- Integers over the native numbers: `negsuc n` is -(n + 1).
use Prim.Native.Nat.{ℕ, suc, ◌+◌, ◌-◌, ◌*◌, ◌/◌, ◌≤◌}
use federated_reserve.Prelude.Tests.{leb, if◌then◌else◌}

pub data ℤ : Type 0 where
  pos : ℕ → ℤ
  negsuc : ℕ → ℤ

abbrev pub pos_part : ℤ → ℕ
pos_part (pos n) = n
pos_part (negsuc n) = 0

abbrev pub neg_part : ℤ → ℕ
neg_part (pos n) = 0
neg_part (negsuc n) = suc n

abbrev pub ◌≤ℤ◌ : ℤ → ℤ → Type 0
◌≤ℤ◌ a b = pos_part a + neg_part b ≤ pos_part b + neg_part a

abbrev pub negate : ℤ → ℤ
negate (pos n) = if leb n 0 then pos 0 else negsuc (n - 1)
negate (negsuc n) = pos (suc n)

-- `z * a / b` of two positive integers, rounded towards zero as `BigInt` division is.
abbrev pub scale : ℕ → ℕ → ℤ → ℤ
scale a b (pos n) = pos (n * a / b)
scale a b (negsuc n) = negate (pos (suc n * a / b))
