-- ===== src/Base/Bytes.antt =====
-- Bytes read bit by bit. The facts about all bytes are checked by evaluation.
use Prim.Native.Nat.{ℕ, zero, suc, ◌/◌, ◌%◌, ◌^◌, ◌<◌}
use mathlib.Core.Path.{◌≡◌}
use mathlib.Core.Bool.{Bool, true, ◌&&◌}
use native.Mathlib.Omega.{arith}
use mathlib.Core.Logic.{inl, inr}
use snu_projects.Base.Tests.{◌==◌, eq_of_==, ne_of_==, Bool-cases}

-- Bit `j` of `b`.
abbrev pub test_bit : ℕ → ℕ → Bool
test_bit b j = (b / 2 ^ j) % 2 == 1

-- A test that passes on every number below a bound.
unfoldable pub all_below : ℕ → (ℕ → Bool) → Bool
all_below zero test = true
all_below (suc bound) test = all_below bound test && test bound

module _ (test : ℕ → Bool) (x : ℕ) where
  pub below : (bound : ℕ) → x < bound → all_below bound test ≡ true → test x ≡ true
  unfolding all_below
  below zero lt h = absurd (omega arith)
  below (suc bound) lt h = elim (Bool-cases (x == bound)) [
    | inl e ↦ rw (eq_of_== x bound e) (ground arith)
    | inr ne ↦ below bound (omega (arith, ne_of_== x bound ne)) (ground arith)
  ]
