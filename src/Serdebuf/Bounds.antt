-- ===== src/Serdebuf/Bounds.antt =====
-- serdebuf.c: how far a buffer grows, and the invariant of `struct serdebuf`.
use flua_ck.Base.{ℕ, ◌+◌, ◌-◌, ◌*◌, ◌^◌, ◌≤◌, ◌<◌, inl, inr, arith, Bool-cases, leb, length}
use flua_ck.Memory.{size_limit}
use flua_ck.Serdebuf.{Md, State, add_size, roundup2, serdebuf_roundup, new_size}
use native.Mathlib.Nat.{div-add-mod, mod-lt}

-- Cache lines and pages are not empty, a page is no smaller than a line, and no page is huge.
pub record IsMd (md : Md) : Type 0 where
  pub line : 0 < md.cacheline
  pub page : md.cacheline ≤ md.pagesize
  pub small : md.pagesize ≤ 2 ^ 32

-- The written bytes lie in the buffer, and the buffer is no larger than jemalloc allows.
pub record IsValid (s : State) : Type 0 where
  pub within : length s.sb.bytes ≤ s.sb.cap
  pub small : s.sb.cap ≤ size_limit

pub roundup2_bounds :
    (x y : ℕ) → 0 < y → x + y ≤ 2 ^ 64 → (x ≤ roundup2 x y) × (roundup2 x y < x + y)
unfolding roundup2
roundup2_bounds x y h fits = omega (arith, div-add-mod (x + (y - 1)) y, mod-lt (x + (y - 1)) h)

-- `serdebuf_roundup` never makes a request smaller, and adds less than a page, up to twice the
-- largest size that is ever granted.
pub serdebuf_roundup_bounds :
    {md : Md} (size : ℕ)
    → IsMd md
    → size ≤ 2 * size_limit
    → (size ≤ serdebuf_roundup md size) × (serdebuf_roundup md size < size + md.pagesize)
unfolding serdebuf_roundup
serdebuf_roundup_bounds {md} size good fits = elim (Bool-cases (leb md.pagesize size)) [
  | inl e ↦ ground (arith, roundup2_bounds size md.pagesize)
  | inr e ↦ ground (arith, roundup2_bounds size md.cacheline)
]

-- When `serdebuf_append` has to grow a valid buffer, the capacity that it works out covers the bytes,
-- is at most twice as large, and its computation has not wrapped around.
pub new_size_bounds :
    (c len more : ℕ)
    → len ≤ c
    → c ≤ size_limit
    → more ≤ size_limit
    → c < len + more
    → (len + more ≤ new_size c (add_size len more))
      × (new_size c (add_size len more) ≤ 2 * (len + more))
      × (new_size c (add_size len more) ≤ 2 * size_limit)
unfolding new_size
new_size_bounds c len more l h k m = ground arith
