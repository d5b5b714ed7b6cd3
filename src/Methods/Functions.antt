-- ===== src/Methods/Functions.antt =====
-- The functions `new` and `retain` that the modules register for each kind of userdata, and the table
-- ck.ring.
use Prim.Native.String.{String}
use flua_ck.Base.{ℕ, List, [], ◌∷◌}
use flua_ck.Cell.{LuaTo, RcSharedPr, shared_pr_new, shared_pr_retain}
use flua_ck.Ec.{CkEc, l_ck_ec32_new, l_ck_ec32_retain, l_ck_ec64_new, l_ck_ec64_retain}
use flua_ck.Fifo.Mpmc.{CkFifoMpmc, l_ck_fifo_mpmc_new, l_ck_fifo_mpmc_retain}
use flua_ck.Fifo.Spsc.{CkFifoSpsc, l_ck_fifo_spsc_new, l_ck_fifo_spsc_retain}
use flua_ck.Handle.{World, Answer}
use flua_ck.Methods.{Constructor}
use flua_ck.Ring.{Kind, spsc, mpmc, spmc, mpsc, CkRing, RcRing}
use flua_ck.Ring.Kinds.{
  l_ck_ring_spsc_new, l_ck_ring_spsc_retain, l_ck_ring_mpmc_new, l_ck_ring_mpmc_retain,
  l_ck_ring_spmc_new, l_ck_ring_spmc_retain, l_ck_ring_mpsc_new, l_ck_ring_mpsc_retain,
}
use flua_ck.Sequence.{CkSequence, l_ck_sequence_new, l_ck_sequence_retain}
use flua_ck.Shared.{RcShared, shared_const_new, shared_const_retain}
use flua_ck.Transport.{Runtime}

-- `new`, with the argument that it checks, and `retain`, with the address that it gets
abbrev funcs :
    {A Args : Type 0}
    → (Args → World A → Answer × World A)
    → (ℕ → World A → Answer × World A)
    → List (String × Constructor A)
funcs {A} {Args} new retain =
    ("new", record { Args = Args; run = new }) ∷ ("retain", record { Args = ℕ; run = retain }) ∷ []

module _ {R : Type 0} (ck : CkRing R) (rt : Runtime) where
  -- l_ck_ring_spsc_funcs and the others
  unfoldable pub l_ck_ring_funcs : Kind → List (String × Constructor (RcRing R))
  l_ck_ring_funcs spsc = funcs (l_ck_ring_spsc_new ck rt) (l_ck_ring_spsc_retain ck rt)
  l_ck_ring_funcs mpmc = funcs (l_ck_ring_mpmc_new ck rt) (l_ck_ring_mpmc_retain ck rt)
  l_ck_ring_funcs spmc = funcs (l_ck_ring_spmc_new ck rt) (l_ck_ring_spmc_retain ck rt)
  l_ck_ring_funcs mpsc = funcs (l_ck_ring_mpsc_new ck rt) (l_ck_ring_mpsc_retain ck rt)

  -- the table that luaopen_ck_ring gives to Lua
  unfoldable pub ck_ring : List (String × List (String × Constructor (RcRing R)))
  unfolding l_ck_ring_funcs
  ck_ring =
      ("spsc", l_ck_ring_funcs spsc)
      ∷ ("mpmp", l_ck_ring_funcs mpmc)
      ∷ ("spmc", l_ck_ring_funcs spmc)
      ∷ ("mpsc", l_ck_ring_funcs mpsc)
      ∷ []

module _ {F : Type 0} where
  unfoldable pub l_ck_fifo_spsc_funcs : CkFifoSpsc F → List (String × Constructor F)
  l_ck_fifo_spsc_funcs ck =
      funcs (λ (u : Unit {0}) w. l_ck_fifo_spsc_new ck w) (l_ck_fifo_spsc_retain ck)

  unfoldable pub l_ck_fifo_mpmc_funcs : CkFifoMpmc F → List (String × Constructor F)
  l_ck_fifo_mpmc_funcs ck =
      funcs (λ (u : Unit {0}) w. l_ck_fifo_mpmc_new ck w) (l_ck_fifo_mpmc_retain ck)

unfoldable pub l_ck_sequence_funcs : {S : Type 0} → CkSequence S → List (String × Constructor S)
l_ck_sequence_funcs ck =
    funcs (λ (u : Unit {0}) w. l_ck_sequence_new ck w) (l_ck_sequence_retain ck)

module _ {E : Type 0} where
  unfoldable pub l_ck_ec32_funcs : CkEc E → List (String × Constructor E)
  l_ck_ec32_funcs ck = funcs (l_ck_ec32_new ck) (l_ck_ec32_retain ck)

  unfoldable pub l_ck_ec64_funcs : CkEc E → List (String × Constructor E)
  l_ck_ec64_funcs ck = funcs (l_ck_ec64_new ck) (l_ck_ec64_retain ck)

unfoldable pub l_ck_shared_const_funcs : Runtime → List (String × Constructor RcShared)
l_ck_shared_const_funcs rt = funcs (shared_const_new rt) shared_const_retain

unfoldable pub l_ck_shared_pr_funcs : LuaTo → List (String × Constructor RcSharedPr)
l_ck_shared_pr_funcs to = funcs (shared_pr_new to) shared_pr_retain
