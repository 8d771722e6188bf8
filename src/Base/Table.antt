-- ===== src/Base/Table.antt =====
-- A statement about every number below a bound, by evaluation.
use Prim.Native.Nat.{ℕ, zero, suc, ◌<◌}
use mathlib.Core.Path.{◌≡◌}
use mathlib.Core.Bool.{Bool, true, ◌&&◌}
use native.Mathlib.Omega.{arith}

unfoldable pub all_below : ℕ → (ℕ → Bool) → Bool
all_below zero test = true
all_below (suc bound) test = all_below bound test && test bound

pub all_below_sound :
    (bound : ℕ) (test : ℕ → Bool) (a : ℕ) → all_below bound test ≡ true → a < bound → test a ≡ true
unfolding all_below
all_below_sound (suc bound) test a table lt = ground (arith, all_below_sound bound test a)
all_below_sound zero test a table lt = absurd (omega arith)

-- And about every pair, one of them below each bound.
pub all_pairs_sound :
    (n m : ℕ) (p : ℕ → ℕ → Bool) (x y : ℕ)
    → all_below n (λ x. all_below m (p x)) ≡ true
    → x < n
    → y < m
    → p x y ≡ true
all_pairs_sound n m p x y h lt lt' =
    all_below_sound m (p x) y (all_below_sound n (λ x. all_below m (p x)) x h lt) lt'
