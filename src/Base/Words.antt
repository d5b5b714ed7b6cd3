-- ===== src/Base/Words.antt =====
-- Machine words in memory: `le k x` is the `k` bytes of `x`, the lowest first, as `memcpy` finds
-- them on a little-endian machine, and `un_le` is the number that such bytes hold.
use Prim.Native.Nat.{ℕ, zero, suc, ◌+◌, ◌*◌, ◌/◌, ◌%◌, ◌^◌, ◌<◌}
use mathlib.Core.Path.{◌≡◌, refl, ap}
use mathlib.Core.List.{List, [], ◌∷◌}
use native.Mathlib.Nat.{pow-suc}
use native.Mathlib.Omega.{arith}
use flua_ck.Base.Lists.{length}

unfoldable pub le : ℕ → ℕ → List ℕ
le zero x = []
le (suc k) x = x % 256 ∷ le k (x / 256)

unfoldable pub un_le : List ℕ → ℕ
un_le [] = 0
un_le (b ∷ bs) = b + 256 * un_le bs

pub length-le : (k x : ℕ) → length (le k x) ≡ k
unfolding le
length-le zero x = refl
length-le (suc k) x = ap suc (length-le k (x / 256))

below : (k x : ℕ) → x < 256 ^ suc k → x / 256 < 256 ^ k
below k x h = omega (arith, pow-suc 256 k)

pub un_le-le : (k x : ℕ) → x < 256 ^ k → un_le (le k x) ≡ x
unfolding le un_le
un_le-le zero x h = omega arith
un_le-le (suc k) x h = omega (arith, un_le-le k (x / 256) (below k x h))
