-- ===== src/Memory.antt =====
-- malloc(3), free(3) and jemalloc's rallocx(3), as serdebuf.c, ring.c and the other files use them.
-- `grants` says which of the requests that are still to come succeed; the proofs hold for every
-- choice. The n-th request, if granted, returns the block with number n, so an address is never
-- used twice. A block holds the bytes that were written to it.
use flua_ck.Base.{
  ℕ, ◌+◌, ◌≤◌, ◌≡◌, fun_ext, Bool, true, false, ◌&&◌, Option, none, some, List, [], arith, ◌==◌,
  leb, if◌then◌else◌,
}

pub record Mem : Type 0 where
  pub cell : ℕ → Option (List ℕ)
  pub tick : ℕ
  pub grants : ℕ → Bool

-- jemalloc's largest size class; a larger request is always refused.
abbrev pub size_limit : ℕ
size_limit = 0x7000_0000_0000_0000

abbrev pub update : (ℕ → Option (List ℕ)) → ℕ → Option (List ℕ) → ℕ → Option (List ℕ)
update f p v q = if p == q then v else f q

-- Whether the next request, of `size` bytes, succeeds.
abbrev pub granted : ℕ → Mem → Bool
granted size m = m.grants m.tick && leb size size_limit

unfoldable pub malloc : ℕ → Mem → Option ℕ × Mem
malloc size m =
    if granted size m
    then (some m.tick, record m { cell = update m.cell m.tick (some []); tick = m.tick + 1 })
    else (none, record m { tick = m.tick + 1 })

-- The block keeps its number; a refusal leaves the old block as it was.
unfoldable pub rallocx : ℕ → ℕ → Mem → Option ℕ × Mem
rallocx p size m = (if granted size m then some p else none, record m { tick = m.tick + 1 })

unfoldable pub free : Option ℕ → Mem → Mem
free none m = m
free (some p) m = record m { cell = update m.cell p none }

unfoldable pub write : ℕ → List ℕ → Mem → Mem
write p bs m = record m { cell = update m.cell p (some bs) }

-- No block has a number that is still to be given out.
abbrev pub IsFresh : Mem → Type 0
IsFresh m = (q : ℕ) → m.tick ≤ q → m.cell q ≡ none

pub update-update :
    (f : ℕ → Option (List ℕ)) (p : ℕ) (v w : Option (List ℕ))
    → update (update f p v) p w ≡ update f p w
update-update f p v w = fun_ext λ q. ground arith

pub update-none : (f : ℕ → Option (List ℕ)) (p : ℕ) → f p ≡ none → update f p none ≡ f
update-none f p h = fun_ext λ q. ground (arith, h)

pub malloc-granted :
    (size : ℕ) (m : Mem)
    → granted size m ≡ true
    → malloc size m
      ≡ (some m.tick, record m { cell = update m.cell m.tick (some []); tick = m.tick + 1 })
unfolding malloc
malloc-granted size m h = rw h

pub malloc-refused :
    (size : ℕ) (m : Mem)
    → granted size m ≡ false
    → malloc size m ≡ (none, record m { tick = m.tick + 1 })
unfolding malloc
malloc-refused size m h = rw h
