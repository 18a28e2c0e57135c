-- ===== src/Prelude/Int.antt =====
-- Go's 64-bit `int`: the integers with the tests and the wrapping successor that the program uses.
use Prim.Native.Nat.{ℕ, ◌+◌, suc, zero}
use mathlib.Core.Bool.{Bool, true, false}
use copfvtci.Prelude.Tests.{leb, ◌==◌, if◌then◌else◌}

-- `negsuc n` is -(n + 1).
pub data ℤ : Type 0 where
  pos : ℕ → ℤ
  negsuc : ℕ → ℤ

abbrev pub max_int : ℕ
max_int = 0x7fffffffffffffff

-- a <= b
abbrev pub leb_ℤ : ℤ → ℤ → Bool
leb_ℤ (pos a) (pos b) = leb a b
leb_ℤ (pos a) (negsuc b) = false
leb_ℤ (negsuc a) (pos b) = true
leb_ℤ (negsuc a) (negsuc b) = leb b a

abbrev pub is_zero_ℤ : ℤ → Bool
is_zero_ℤ (pos a) = a == 0
is_zero_ℤ (negsuc a) = false

-- a + 1, with the wrap-around of a 64-bit int
abbrev pub suc_ℤ : ℤ → ℤ
suc_ℤ (pos a) = if a == max_int then negsuc max_int else pos (a + 1)
suc_ℤ (negsuc zero) = pos 0
suc_ℤ (negsuc (suc a)) = negsuc a
