-- ===== src/Prelude/Int.antt =====
-- Signed integers, as far as the program compares them.
use zsys.Prelude.Tests.{leb}
use Prim.Native.Nat.{ℕ, suc}
use mathlib.Core.Bool.{Bool, false}

-- `negsuc n` is -(n + 1).
pub data ℤ : Type 0 where
  pos : ℕ → ℤ
  negsuc : ℕ → ℤ

-- `i < a` for a natural number i.
abbrev pub lt_int : ℕ → ℤ → Bool
lt_int i (pos a) = leb (suc i) a
lt_int i (negsuc a) = false
