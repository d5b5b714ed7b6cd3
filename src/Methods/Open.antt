-- ===== src/Methods/Open.antt =====
-- luaopen_ck_ring, luaopen_ck_fifo, luaopen_ck_sequence and luaopen_ck_ec: their metatables, with the
-- methods of each; and those of shared.const and shared.pr in luaopen_ck_shared.
use Prim.Native.String.{String}
use flua_ck.Base.{ℕ, Option, none, some, List, [], ◌∷◌}
use flua_ck.Atomic.{
  PrOp, pr_add, pr_and, pr_btc, pr_btr, pr_bts, pr_cas, pr_cas_value, pr_dec, pr_dec_z, pr_faa,
  pr_fas, pr_inc, pr_inc_z, pr_load, pr_neg, pr_neg_z, pr_not, pr_or, pr_store, pr_sub, pr_xor,
  pr_ops_group3,
}
use flua_ck.Cell.{
  shared_pr_metatable, CkPr, LuaTo, RcSharedPr, shared_pr_op, shared_pr_gc, shared_pr_cookie,
  shared_pr_rfo,
}
use flua_ck.Shared.{
  shared_const_metatable, RcShared, shared_const_gc, shared_const_cookie, shared_const_load,
}
use flua_ck.Ec.{
  CkEc, Timespec, l_ck_ec32_gc, l_ck_ec32_cookie, l_ck_ec32_value, l_ck_ec32_has_waiters,
  l_ck_ec32_inc, l_ck_ec32_add, l_ck_ec32_wait, l_ck_ec32_wait_pred, l_ck_ec64_gc, l_ck_ec64_cookie,
  l_ck_ec64_value, l_ck_ec64_has_waiters, l_ck_ec64_inc, l_ck_ec64_add, l_ck_ec64_wait,
  l_ck_ec64_wait_pred,
}
use flua_ck.Fifo.Mpmc.{
  CkFifoMpmc, l_ck_fifo_mpmc_gc, l_ck_fifo_mpmc_cookie, l_ck_fifo_mpmc_enqueue,
  l_ck_fifo_mpmc_tryenqueue, l_ck_fifo_mpmc_dequeue, l_ck_fifo_mpmc_trydequeue,
}
use flua_ck.Fifo.Spsc.{
  CkFifoSpsc, l_ck_fifo_spsc_gc, l_ck_fifo_spsc_cookie, l_ck_fifo_spsc_enqueue,
  l_ck_fifo_spsc_dequeue, l_ck_fifo_spsc_isempty, l_ck_fifo_spsc_enqueue_trylock,
  l_ck_fifo_spsc_enqueue_lock, l_ck_fifo_spsc_enqueue_unlock, l_ck_fifo_spsc_dequeue_trylock,
  l_ck_fifo_spsc_dequeue_lock, l_ck_fifo_spsc_dequeue_unlock,
}
use flua_ck.Methods.{Method, Metatable, alone, newmetatable}
use flua_ck.Ring.{Kind, spsc, mpmc, spmc, mpsc, metatable, CkRing, RcRing}
use flua_ck.Ring.Kinds.{
  l_ck_ring_spsc_gc, l_ck_ring_spsc_cookie, l_ck_ring_spsc_size, l_ck_ring_spsc_capacity,
  l_ck_ring_spsc_enqueue, l_ck_ring_spsc_dequeue, l_ck_ring_mpmc_gc, l_ck_ring_mpmc_cookie,
  l_ck_ring_mpmc_size, l_ck_ring_mpmc_capacity, l_ck_ring_mpmc_enqueue, l_ck_ring_mpmc_trydequeue,
  l_ck_ring_mpmc_dequeue, l_ck_ring_spmc_gc, l_ck_ring_spmc_cookie, l_ck_ring_spmc_size,
  l_ck_ring_spmc_capacity, l_ck_ring_spmc_enqueue, l_ck_ring_spmc_trydequeue,
  l_ck_ring_spmc_dequeue, l_ck_ring_mpsc_gc, l_ck_ring_mpsc_cookie, l_ck_ring_mpsc_size,
  l_ck_ring_mpsc_capacity, l_ck_ring_mpsc_enqueue, l_ck_ring_mpsc_dequeue,
}
use flua_ck.Sequence.{
  CkSequence, l_ck_sequence_gc, l_ck_sequence_cookie, l_ck_sequence_read_begin,
  l_ck_sequence_read_retry, l_ck_sequence_write_begin, l_ck_sequence_write_end,
}
use flua_ck.Transport.{Runtime}
use flua_ck.Value.{Value}

module _ {R : Type 0} (ck : CkRing R) (rt : Runtime) where
  -- l_ck_ring_spsc_meta and the others
  unfoldable pub l_ck_ring_meta : Kind → List (String × Method (RcRing R))
  l_ck_ring_meta spsc =
      ("__gc", alone (l_ck_ring_spsc_gc ck rt))
      ∷ ("cookie", alone (l_ck_ring_spsc_cookie ck rt))
      ∷ ("size", alone (l_ck_ring_spsc_size ck rt))
      ∷ ("capacity", alone (l_ck_ring_spsc_capacity ck rt))
      ∷ ("enqueue", record { Rest = Value; run = l_ck_ring_spsc_enqueue ck rt })
      ∷ ("dequeue", alone (l_ck_ring_spsc_dequeue ck rt))
      ∷ []
  l_ck_ring_meta mpmc =
      ("__gc", alone (l_ck_ring_mpmc_gc ck rt))
      ∷ ("cookie", alone (l_ck_ring_mpmc_cookie ck rt))
      ∷ ("size", alone (l_ck_ring_mpmc_size ck rt))
      ∷ ("capacity", alone (l_ck_ring_mpmc_capacity ck rt))
      ∷ ("enqueue", record { Rest = Value; run = l_ck_ring_mpmc_enqueue ck rt })
      ∷ ("trydequeue", alone (l_ck_ring_mpmc_trydequeue ck rt))
      ∷ ("dequeue", alone (l_ck_ring_mpmc_dequeue ck rt))
      ∷ []
  l_ck_ring_meta spmc =
      ("__gc", alone (l_ck_ring_spmc_gc ck rt))
      ∷ ("cookie", alone (l_ck_ring_spmc_cookie ck rt))
      ∷ ("size", alone (l_ck_ring_spmc_size ck rt))
      ∷ ("capacity", alone (l_ck_ring_spmc_capacity ck rt))
      ∷ ("enqueue", record { Rest = Value; run = l_ck_ring_spmc_enqueue ck rt })
      ∷ ("trydequeue", alone (l_ck_ring_spmc_trydequeue ck rt))
      ∷ ("dequeue", alone (l_ck_ring_spmc_dequeue ck rt))
      ∷ []
  l_ck_ring_meta mpsc =
      ("__gc", alone (l_ck_ring_mpsc_gc ck rt))
      ∷ ("cookie", alone (l_ck_ring_mpsc_cookie ck rt))
      ∷ ("size", alone (l_ck_ring_mpsc_size ck rt))
      ∷ ("capacity", alone (l_ck_ring_mpsc_capacity ck rt))
      ∷ ("enqueue", record { Rest = Value; run = l_ck_ring_mpsc_enqueue ck rt })
      ∷ ("dequeue", alone (l_ck_ring_mpsc_dequeue ck rt))
      ∷ []

  unfoldable pub luaopen_ck_ring : List (Metatable (RcRing R)) → List (Metatable (RcRing R))
  unfolding newmetatable l_ck_ring_meta metatable
  luaopen_ck_ring registry = newmetatable (metatable mpsc) (l_ck_ring_meta mpsc) (
      newmetatable (metatable spmc) (l_ck_ring_meta spmc) (
        newmetatable (metatable mpmc) (l_ck_ring_meta mpmc)
          (newmetatable (metatable spsc) (l_ck_ring_meta spsc) registry)))

module _ {F : Type 0} (rt : Runtime) where
  unfoldable pub l_ck_fifo_spsc_meta : CkFifoSpsc F → List (String × Method F)
  l_ck_fifo_spsc_meta ck =
      ("__gc", alone (l_ck_fifo_spsc_gc ck))
      ∷ ("cookie", alone (l_ck_fifo_spsc_cookie ck))
      ∷ ("enqueue", record { Rest = Value; run = l_ck_fifo_spsc_enqueue ck rt })
      ∷ ("dequeue", alone (l_ck_fifo_spsc_dequeue ck rt))
      ∷ ("isempty", alone (l_ck_fifo_spsc_isempty ck))
      ∷ ("enqueue_trylock", alone (l_ck_fifo_spsc_enqueue_trylock ck))
      ∷ ("enqueue_lock", alone (l_ck_fifo_spsc_enqueue_lock ck))
      ∷ ("enqueue_unlock", alone (l_ck_fifo_spsc_enqueue_unlock ck))
      ∷ ("dequeue_trylock", alone (l_ck_fifo_spsc_dequeue_trylock ck))
      ∷ ("dequeue_lock", alone (l_ck_fifo_spsc_dequeue_lock ck))
      ∷ ("dequeue_unlock", alone (l_ck_fifo_spsc_dequeue_unlock ck))
      ∷ []

  unfoldable pub l_ck_fifo_mpmc_meta : CkFifoMpmc F → List (String × Method F)
  l_ck_fifo_mpmc_meta ck =
      ("__gc", alone (l_ck_fifo_mpmc_gc ck))
      ∷ ("cookie", alone (l_ck_fifo_mpmc_cookie ck))
      ∷ ("enqueue", record { Rest = Value; run = l_ck_fifo_mpmc_enqueue ck rt })
      ∷ ("tryenqueue", record { Rest = Value; run = l_ck_fifo_mpmc_tryenqueue ck rt })
      ∷ ("dequeue", alone (l_ck_fifo_mpmc_dequeue ck rt))
      ∷ ("trydequeue", alone (l_ck_fifo_mpmc_trydequeue ck rt))
      ∷ []

  -- `F` is the queue of either kind.
  unfoldable pub luaopen_ck_fifo :
      CkFifoSpsc F → CkFifoMpmc F → List (Metatable F) → List (Metatable F)
  unfolding newmetatable l_ck_fifo_spsc_meta l_ck_fifo_mpmc_meta
  luaopen_ck_fifo ck_spsc ck_mpmc registry =
      newmetatable "fifo.mpmc" (l_ck_fifo_mpmc_meta ck_mpmc)
        (newmetatable "fifo.spsc" (l_ck_fifo_spsc_meta ck_spsc) registry)

module _ {S : Type 0} (ck : CkSequence S) where
  unfoldable pub l_ck_sequence_meta : List (String × Method S)
  l_ck_sequence_meta =
      ("__gc", alone (l_ck_sequence_gc ck))
      ∷ ("cookie", alone (l_ck_sequence_cookie ck))
      ∷ ("read_begin", alone (l_ck_sequence_read_begin ck))
      ∷ ("read_retry", record { Rest = ℕ; run = l_ck_sequence_read_retry ck })
      ∷ ("write_begin", alone (l_ck_sequence_write_begin ck))
      ∷ ("write_end", alone (l_ck_sequence_write_end ck))
      ∷ []

  unfoldable pub luaopen_ck_sequence : List (Metatable S) → List (Metatable S)
  unfolding newmetatable l_ck_sequence_meta
  luaopen_ck_sequence registry = newmetatable "sequence" l_ck_sequence_meta registry

-- the arguments of `wait` and `wait_pred`: mode, old value, deadline
abbrev pub Wait : Type 0
Wait = ℕ × ℕ × Option ℕ × Option ℕ

abbrev pub Predicate : Type 0
Predicate = Timespec → Timespec → Option (List ℕ)

module _ {E : Type 0} where
  unfoldable pub l_ck_ec32_meta : CkEc E → List (String × Method E)
  l_ck_ec32_meta ck =
      ("__gc", alone (l_ck_ec32_gc ck))
      ∷ ("cookie", alone (l_ck_ec32_cookie ck))
      ∷ ("value", alone (l_ck_ec32_value ck))
      ∷ ("has_waiters", alone (l_ck_ec32_has_waiters ck))
      ∷ ("inc", record { Rest = ℕ; run = l_ck_ec32_inc ck })
      ∷ ("add", record { Rest = ℕ × ℕ; run = λ i a. l_ck_ec32_add ck i a.0 a.1 })
      ∷ (
        "wait",
        record {
          Rest = Wait;
          run = λ i (mode, value, sec, nsec). l_ck_ec32_wait ck i mode value sec nsec;
        },
      )
      ∷ (
        "wait_pred",
        record {
          Rest = Predicate × Wait;
          run = λ i (pred, wait).
              let (mode, value, sec, nsec) = wait in
              l_ck_ec32_wait_pred ck i mode value pred sec nsec;
        },
      )
      ∷ []

  unfoldable pub l_ck_ec64_meta : CkEc E → List (String × Method E)
  l_ck_ec64_meta ck =
      ("__gc", alone (l_ck_ec64_gc ck))
      ∷ ("cookie", alone (l_ck_ec64_cookie ck))
      ∷ ("value", alone (l_ck_ec64_value ck))
      ∷ ("has_waiters", alone (l_ck_ec64_has_waiters ck))
      ∷ ("inc", record { Rest = ℕ; run = l_ck_ec64_inc ck })
      ∷ ("add", record { Rest = ℕ × ℕ; run = λ i a. l_ck_ec64_add ck i a.0 a.1 })
      ∷ (
        "wait",
        record {
          Rest = Wait;
          run = λ i (mode, value, sec, nsec). l_ck_ec64_wait ck i mode value sec nsec;
        },
      )
      ∷ (
        "wait_pred",
        record {
          Rest = Predicate × Wait;
          run = λ i (pred, wait).
              let (mode, value, sec, nsec) = wait in
              l_ck_ec64_wait_pred ck i mode value pred sec nsec;
        },
      )
      ∷ []

  -- `ec64` says whether Concurrency Kit has 64-bit event counts, CK_F_EC64; `E` is a count of either
  -- width.
  unfoldable pub luaopen_ck_ec : CkEc E → Option (CkEc E) → List (Metatable E) → List (Metatable E)
  unfolding newmetatable l_ck_ec32_meta l_ck_ec64_meta
  luaopen_ck_ec ec32 none registry = newmetatable "ck_ec32_t" (l_ck_ec32_meta ec32) registry
  luaopen_ck_ec ec32 (some ec64) registry =
      newmetatable "ck_ec64_t" (l_ck_ec64_meta ec64)
        (newmetatable "ck_ec32_t" (l_ck_ec32_meta ec32) registry)

module _ (rt : Runtime) where
  unfoldable pub l_ck_shared_const_meta : List (String × Method RcShared)
  l_ck_shared_const_meta =
      ("__gc", alone shared_const_gc)
      ∷ ("cookie", alone (λ i w. (shared_const_cookie i w, w)))
      ∷ ("load", alone (shared_const_load rt))
      ∷ []

  -- luaopen_ck_shared, of the userdata of shared.const
  unfoldable pub open_shared_const : List (Metatable RcShared) → List (Metatable RcShared)
  unfolding newmetatable l_ck_shared_const_meta
  open_shared_const registry = newmetatable shared_const_metatable l_ck_shared_const_meta registry

-- the names #OP#VARIANT
unfoldable pub op_name : PrOp → String
op_name pr_add = "add"
op_name pr_and = "and"
op_name pr_btc = "btc"
op_name pr_btr = "btr"
op_name pr_bts = "bts"
op_name pr_cas = "cas"
op_name pr_cas_value = "cas_value"
op_name pr_dec = "dec"
op_name pr_dec_z = "dec_is_zero"
op_name pr_faa = "faa"
op_name pr_fas = "fas"
op_name pr_inc = "inc"
op_name pr_inc_z = "inc_is_zero"
op_name pr_load = "load"
op_name pr_neg = "neg"
op_name pr_neg_z = "neg_is_zero"
op_name pr_not = "not"
op_name pr_or = "or"
op_name pr_store = "store"
op_name pr_sub = "sub"
op_name pr_xor = "xor"

module _ (pr : CkPr) (to : LuaTo) where
  -- SHARED_PR_OPS_REG
  unfoldable pub shared_pr_ops_reg : List PrOp → List (String × Method RcSharedPr)
  unfolding op_name
  shared_pr_ops_reg [] = []
  shared_pr_ops_reg (op ∷ ops) =
      (op_name op, record { Rest = List Value; run = shared_pr_op pr to op })
      ∷ shared_pr_ops_reg ops

  unfoldable pub l_ck_shared_pr_meta : List (String × Method RcSharedPr)
  unfolding shared_pr_ops_reg pr_ops_group3
  l_ck_shared_pr_meta =
      ("__gc", alone shared_pr_gc)
      ∷ ("cookie", alone (λ i w. (shared_pr_cookie i w, w)))
      ∷ ("rfo", alone shared_pr_rfo)
      ∷ shared_pr_ops_reg pr_ops_group3

  -- luaopen_ck_shared, of the userdata of shared.pr
  unfoldable pub open_shared_pr : List (Metatable RcSharedPr) → List (Metatable RcSharedPr)
  unfolding newmetatable l_ck_shared_pr_meta
  open_shared_pr registry = newmetatable shared_pr_metatable l_ck_shared_pr_meta registry
