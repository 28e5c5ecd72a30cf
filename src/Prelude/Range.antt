-- ===== src/Prelude/Range.antt =====
-- A Boolean test of every number below a bound.
use Prim.Native.Nat.{ℕ, zero, suc, ◌<◌}
use mathlib.Core.Path.{◌≡◌}
use mathlib.Core.Bool.{Bool, true, ◌&&◌}
use native.Mathlib.Omega.{arith}

module _ (test : ℕ → Bool) where
  unfoldable pub every_below : ℕ → Bool
  every_below zero = true
  every_below (suc bound) = every_below bound && test bound

  -- A table that is `true` holds each entry.
  pub every_below-entry : (bound i : ℕ) → i < bound → every_below bound ≡ true → test i ≡ true
  unfolding every_below
  every_below-entry zero i small table = absurd (omega arith)
  every_below-entry (suc bound) i small table =
      ground (arith, λ (lower : i < bound). every_below-entry bound i lower)
