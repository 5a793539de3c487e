-- ===== src/Base/Bytes.antt =====
-- Facts about small numbers, by evaluation: a test that is true of each number up to a bound.
use Prim.Native.Nat.{ℕ, zero, suc, ◌<◌}
use mathlib.Core.Path.{◌≡◌}
use mathlib.Core.Bool.{Bool, true, false}
use native.Mathlib.Omega.{arith}
use native.Mathlib.Decide.{ℕ_discrete}
use fireball_os.Base.Tests.{if◌then◌else◌}

unfoldable pub passes_below : (bound : ℕ) → (test : ℕ → Bool) → Bool
passes_below zero test = true
passes_below (suc k) test = let rest = passes_below k test in if test k then rest else false

-- A number below the bound passes the test.
pub passes-passes_below :
    (bound : ℕ) (test : ℕ → Bool) (i : ℕ)
    → passes_below bound test ≡ true
    → i < bound
    → test i ≡ true
unfolding passes_below
passes-passes_below zero test i run lt = absurd (omega arith)
passes-passes_below (suc k) test i run lt = elim (ℕ_discrete i k) [
  | yes last ↦ ground (arith, last)
  | no earlier ↦ passes-passes_below k test i (ground arith) (omega arith)
]

-- equality of two Booleans, as a test
abbrev pub same : Bool → Bool → Bool
same true b = b
same false true = false
same false false = true
