-- ===== src/Prelude/Integers.antt =====
-- Integers over the native numbers: the `int` and `qint64` members that may be negative.
use Prim.Native.Nat.{ℕ, zero, suc}
use mathlib.Core.Bool.{Bool, true, false}
use chatdesktop.Prelude.Tests.{ltb, leb, ◌==◌}

pub data ℤ : Type 0 where
  pos : ℕ → ℤ
  -- `negsuc n` is `- (n + 1)`.
  negsuc : ℕ → ℤ

abbrev pub lt : ℤ → ℤ → Bool
lt (pos m) (pos n) = ltb m n
lt (pos m) (negsuc n) = false
lt (negsuc m) (pos n) = true
lt (negsuc m) (negsuc n) = ltb n m

abbrev pub le : ℤ → ℤ → Bool
le (pos m) (pos n) = leb m n
le (pos m) (negsuc n) = false
le (negsuc m) (pos n) = true
le (negsuc m) (negsuc n) = leb n m

abbrev pub succ : ℤ → ℤ
succ (pos n) = pos (suc n)
succ (negsuc zero) = pos zero
succ (negsuc (suc n)) = negsuc n

abbrev pub int_eq : ℤ → ℤ → Bool
int_eq (pos m) (pos n) = m == n
int_eq (pos m) (negsuc n) = false
int_eq (negsuc m) (pos n) = false
int_eq (negsuc m) (negsuc n) = m == n
