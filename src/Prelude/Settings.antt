-- ===== src/Prelude/Settings.antt =====
-- Numeric settings read from the environment: `parseInt(…) || fallback`.
use Prim.Native.Nat.{ℕ, zero, suc, ◌≤◌, max}
use native.Mathlib.Omega.{arith}

-- What `parseInt(text, 10)` returns: NaN, a negative number, or a natural one.
pub data ParsedInt : Type 0 where
  nan : ParsedInt
  negative : ℕ → ParsedInt
  natural : ℕ → ParsedInt

-- `Math.max(low, parsed || fallback)`
unfoldable pub at_least : ℕ → ParsedInt → ℕ → ℕ
at_least low nan fallback = max low fallback
at_least low (negative n) fallback = low
at_least low (natural zero) fallback = max low fallback
at_least low (natural (suc n)) fallback = max low (suc n)

pub le-at_least : (low : ℕ) (p : ParsedInt) (fallback : ℕ) → low ≤ at_least low p fallback
unfolding at_least
le-at_least low nan fallback = omega arith
le-at_least low (negative n) fallback = omega arith
le-at_least low (natural zero) fallback = omega arith
le-at_least low (natural (suc n)) fallback = omega arith
