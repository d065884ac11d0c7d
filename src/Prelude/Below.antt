-- ===== src/Prelude/Below.antt =====
-- A test of every value in a range, and what it proves of each.
use Prim.Native.Nat.{ℕ, zero, suc, ◌+◌, ◌≤◌, ◌<◌}
use mathlib.Core.Path.{◌≡◌, ap}
use mathlib.Core.Bool.{Bool, true, false}
use native.Mathlib.Omega.{arith}
use pinx_kernel.Prelude.Tests.{if◌then◌else◌}

-- The test holds at `count` values from `first` on.
unfoldable pub holds_from : (ℕ → Bool) → ℕ → ℕ → Bool
holds_from test first zero = true
holds_from test first (suc count) =
    let later = holds_from test (first + 1) count in if test first then later else false

pub holds_at :
    (test : ℕ → Bool) (first count : ℕ) {x : ℕ}
    → first ≤ x
    → x < first + count
    → holds_from test first count ≡ true
    → test x ≡ true
unfolding holds_from
holds_at test first zero low high h = absurd (omega arith)
holds_at test first (suc count) {x} low high h =
    ground (arith, ap test {x = first} {y = x}, holds_at test (first + 1) count {x = x})
