-- ===== src/Prelude/Int.antt =====
-- Go's `int` where the program uses negative values: enrollment counts and limits. Machine overflow is
-- out of the model: the program only compares such values and adds one.
use Prim.Native.Nat.{ℕ, zero, suc}
use mathlib.Core.Path.{◌≡◌}
use mathlib.Core.Logic.{◌↔◌}
use mathlib.Core.Bool.{Bool, true, false, not}
use native.Mathlib.Omega.{arith}
use fabric_ca_gm.Prelude.Bools.{leb, eqb}

-- `negsuc n` is -(n + 1).
pub data ℤ : Type 0 where
  pos : ℕ → ℤ
  negsuc : ℕ → ℤ

abbrev pub eqℤ : ℤ → ℤ → Bool
eqℤ (pos a) (pos b) = eqb a b
eqℤ (pos a) (negsuc b) = false
eqℤ (negsuc a) (pos b) = false
eqℤ (negsuc a) (negsuc b) = eqb a b

abbrev pub leℤ : ℤ → ℤ → Bool
leℤ (pos a) (pos b) = leb a b
leℤ (pos a) (negsuc b) = false
leℤ (negsuc a) (pos b) = true
leℤ (negsuc a) (negsuc b) = leb b a

abbrev pub ltℤ : ℤ → ℤ → Bool
ltℤ a b = not (leℤ b a)

-- z + 1
abbrev pub incr : ℤ → ℤ
incr (pos n) = pos (suc n)
incr (negsuc zero) = pos 0
incr (negsuc (suc n)) = negsuc n

abbrev pub minus_one : ℤ
minus_one = negsuc 0

pub eqℤ_iff : (a b : ℤ) → (eqℤ a b ≡ true) ↔ (a ≡ b)
eqℤ_iff (pos a) (pos b) = ground arith
eqℤ_iff (pos a) (negsuc b) = ground arith
eqℤ_iff (negsuc a) (pos b) = ground arith
eqℤ_iff (negsuc a) (negsuc b) = ground arith
