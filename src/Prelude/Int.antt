-- ===== src/Prelude/Int.antt =====
-- Python's signed integers, as far as the program compares them with a bound.
use Prim.Native.Nat.{ℕ, ◌≤◌}
use mathlib.Core.Bool.{Bool, false}
use native.Mathlib.Omega.{arith}
use grantora.Prelude.Tests.{nat_beq, leb, if◌then◌else◌}

-- `negsuc n` is -(n + 1).
pub data ℤ : Type 0 where
  pos : ℕ → ℤ
  negsuc : ℕ → ℤ

-- `max(n, floor)` for a floor that is not negative.
unfoldable pub max_with : ℕ → ℤ → ℕ
max_with floor (pos n) = if leb floor n then n else floor
max_with floor (negsuc n) = floor

pub le-max_with : (floor : ℕ) (z : ℤ) → floor ≤ max_with floor z
unfolding max_with
le-max_with floor (pos n) = ground arith
le-max_with floor (negsuc n) = ground arith

abbrev pub int_beq : ℤ → ℤ → Bool
int_beq (pos a) (pos b) = nat_beq a b
int_beq (negsuc a) (negsuc b) = nat_beq a b
int_beq _ _ = false
