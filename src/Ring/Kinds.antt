-- ===== src/Ring/Kinds.antt =====
-- The functions that ring.c registers for each of the four kinds of ring.
use flua_ck.Base.{ℕ}
use flua_ck.Handle.{World, Answer, checkcookieuv}
use flua_ck.Ring.{
  spsc, mpmc, spmc, mpsc, metatable, CkRing, RcRing, newring, retainring, releasering, ringsize,
  ringcapacity, enqueue, dequeue, trydequeue,
}
use flua_ck.Transport.{Runtime}
use flua_ck.Value.{Value}

module _ {R : Type 0} (ck : CkRing R) (rt : Runtime) where
  unfoldable pub l_ck_ring_spsc_new : ℕ → World (RcRing R) → Answer × World (RcRing R)
  l_ck_ring_spsc_new size w = newring ck spsc size w

  unfoldable pub l_ck_ring_spsc_retain : ℕ → World (RcRing R) → Answer × World (RcRing R)
  l_ck_ring_spsc_retain p w = retainring ck spsc p w

  unfoldable pub l_ck_ring_spsc_gc : ℕ → World (RcRing R) → Answer × World (RcRing R)
  l_ck_ring_spsc_gc i w = releasering ck spsc i w

  unfoldable pub l_ck_ring_spsc_cookie : ℕ → World (RcRing R) → Answer × World (RcRing R)
  l_ck_ring_spsc_cookie i w = (checkcookieuv (metatable spsc) i w, w)

  unfoldable pub l_ck_ring_spsc_size : ℕ → World (RcRing R) → Answer × World (RcRing R)
  l_ck_ring_spsc_size i w = ringsize ck spsc i w

  unfoldable pub l_ck_ring_spsc_capacity : ℕ → World (RcRing R) → Answer × World (RcRing R)
  l_ck_ring_spsc_capacity i w = ringcapacity ck spsc i w

  unfoldable pub l_ck_ring_spsc_enqueue : ℕ → Value → World (RcRing R) → Answer × World (RcRing R)
  l_ck_ring_spsc_enqueue i v w = enqueue ck rt spsc i v w

  unfoldable pub l_ck_ring_spsc_dequeue : ℕ → World (RcRing R) → Answer × World (RcRing R)
  l_ck_ring_spsc_dequeue i w = dequeue ck rt spsc i w

  unfoldable pub l_ck_ring_mpmc_new : ℕ → World (RcRing R) → Answer × World (RcRing R)
  l_ck_ring_mpmc_new size w = newring ck mpmc size w

  unfoldable pub l_ck_ring_mpmc_retain : ℕ → World (RcRing R) → Answer × World (RcRing R)
  l_ck_ring_mpmc_retain p w = retainring ck mpmc p w

  unfoldable pub l_ck_ring_mpmc_gc : ℕ → World (RcRing R) → Answer × World (RcRing R)
  l_ck_ring_mpmc_gc i w = releasering ck mpmc i w

  unfoldable pub l_ck_ring_mpmc_cookie : ℕ → World (RcRing R) → Answer × World (RcRing R)
  l_ck_ring_mpmc_cookie i w = (checkcookieuv (metatable mpmc) i w, w)

  unfoldable pub l_ck_ring_mpmc_size : ℕ → World (RcRing R) → Answer × World (RcRing R)
  l_ck_ring_mpmc_size i w = ringsize ck mpmc i w

  unfoldable pub l_ck_ring_mpmc_capacity : ℕ → World (RcRing R) → Answer × World (RcRing R)
  l_ck_ring_mpmc_capacity i w = ringcapacity ck mpmc i w

  unfoldable pub l_ck_ring_mpmc_enqueue : ℕ → Value → World (RcRing R) → Answer × World (RcRing R)
  l_ck_ring_mpmc_enqueue i v w = enqueue ck rt mpmc i v w

  unfoldable pub l_ck_ring_mpmc_dequeue : ℕ → World (RcRing R) → Answer × World (RcRing R)
  l_ck_ring_mpmc_dequeue i w = dequeue ck rt mpmc i w

  unfoldable pub l_ck_ring_mpmc_trydequeue : ℕ → World (RcRing R) → Answer × World (RcRing R)
  l_ck_ring_mpmc_trydequeue i w = trydequeue ck rt mpmc i w

  unfoldable pub l_ck_ring_spmc_new : ℕ → World (RcRing R) → Answer × World (RcRing R)
  l_ck_ring_spmc_new size w = newring ck spmc size w

  unfoldable pub l_ck_ring_spmc_retain : ℕ → World (RcRing R) → Answer × World (RcRing R)
  l_ck_ring_spmc_retain p w = retainring ck spmc p w

  unfoldable pub l_ck_ring_spmc_gc : ℕ → World (RcRing R) → Answer × World (RcRing R)
  l_ck_ring_spmc_gc i w = releasering ck spmc i w

  unfoldable pub l_ck_ring_spmc_cookie : ℕ → World (RcRing R) → Answer × World (RcRing R)
  l_ck_ring_spmc_cookie i w = (checkcookieuv (metatable spmc) i w, w)

  unfoldable pub l_ck_ring_spmc_size : ℕ → World (RcRing R) → Answer × World (RcRing R)
  l_ck_ring_spmc_size i w = ringsize ck spmc i w

  unfoldable pub l_ck_ring_spmc_capacity : ℕ → World (RcRing R) → Answer × World (RcRing R)
  l_ck_ring_spmc_capacity i w = ringcapacity ck spmc i w

  unfoldable pub l_ck_ring_spmc_enqueue : ℕ → Value → World (RcRing R) → Answer × World (RcRing R)
  l_ck_ring_spmc_enqueue i v w = enqueue ck rt spmc i v w

  unfoldable pub l_ck_ring_spmc_dequeue : ℕ → World (RcRing R) → Answer × World (RcRing R)
  l_ck_ring_spmc_dequeue i w = dequeue ck rt spmc i w

  unfoldable pub l_ck_ring_spmc_trydequeue : ℕ → World (RcRing R) → Answer × World (RcRing R)
  l_ck_ring_spmc_trydequeue i w = trydequeue ck rt spmc i w

  unfoldable pub l_ck_ring_mpsc_new : ℕ → World (RcRing R) → Answer × World (RcRing R)
  l_ck_ring_mpsc_new size w = newring ck mpsc size w

  unfoldable pub l_ck_ring_mpsc_retain : ℕ → World (RcRing R) → Answer × World (RcRing R)
  l_ck_ring_mpsc_retain p w = retainring ck mpsc p w

  unfoldable pub l_ck_ring_mpsc_gc : ℕ → World (RcRing R) → Answer × World (RcRing R)
  l_ck_ring_mpsc_gc i w = releasering ck mpsc i w

  unfoldable pub l_ck_ring_mpsc_cookie : ℕ → World (RcRing R) → Answer × World (RcRing R)
  l_ck_ring_mpsc_cookie i w = (checkcookieuv (metatable mpsc) i w, w)

  unfoldable pub l_ck_ring_mpsc_size : ℕ → World (RcRing R) → Answer × World (RcRing R)
  l_ck_ring_mpsc_size i w = ringsize ck mpsc i w

  unfoldable pub l_ck_ring_mpsc_capacity : ℕ → World (RcRing R) → Answer × World (RcRing R)
  l_ck_ring_mpsc_capacity i w = ringcapacity ck mpsc i w

  unfoldable pub l_ck_ring_mpsc_enqueue : ℕ → Value → World (RcRing R) → Answer × World (RcRing R)
  l_ck_ring_mpsc_enqueue i v w = enqueue ck rt mpsc i v w

  unfoldable pub l_ck_ring_mpsc_dequeue : ℕ → World (RcRing R) → Answer × World (RcRing R)
  l_ck_ring_mpsc_dequeue i w = dequeue ck rt mpsc i w
