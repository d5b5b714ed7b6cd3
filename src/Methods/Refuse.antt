-- ===== src/Methods/Refuse.antt =====
-- The methods that ring.c, fifo.c, sequence.c, ec.c and shared.c register, against the metatables that
-- they are registered in.
use Prim.Native.String.{String}
use flua_ck.Base.{ℕ, ◌≡◌, ap, Bool, false, Option, none, some, List, [], ◌∷◌, get_elem?}
use flua_ck.Atomic.{PrOp, pr_ops_group3}
use flua_ck.Cell.{
  CkPr, LuaTo, RcSharedPr, shared_pr_metatable, shared_pr_op, shared_pr_gc, shared_pr_cookie,
  shared_pr_rfo,
}
use flua_ck.Ec.{
  CkEc, l_ck_ec32_gc, l_ck_ec32_cookie, l_ck_ec32_value, l_ck_ec32_has_waiters, l_ck_ec32_inc,
  l_ck_ec32_add, l_ck_ec32_wait, l_ck_ec32_wait_pred, l_ck_ec64_gc, l_ck_ec64_cookie,
  l_ck_ec64_value, l_ck_ec64_has_waiters, l_ck_ec64_inc, l_ck_ec64_add, l_ck_ec64_wait,
  l_ck_ec64_wait_pred,
}
use flua_ck.Fifo.Mpmc.{
  CkFifoMpmc, put_value, l_ck_fifo_mpmc_gc, l_ck_fifo_mpmc_cookie, l_ck_fifo_mpmc_enqueue,
  l_ck_fifo_mpmc_tryenqueue, l_ck_fifo_mpmc_dequeue, l_ck_fifo_mpmc_trydequeue,
}
use flua_ck.Fifo.Spsc.{
  CkFifoSpsc, l_ck_fifo_spsc_gc, l_ck_fifo_spsc_cookie, l_ck_fifo_spsc_isempty,
  l_ck_fifo_spsc_enqueue_trylock, l_ck_fifo_spsc_enqueue_lock, l_ck_fifo_spsc_enqueue_unlock,
  l_ck_fifo_spsc_dequeue_trylock, l_ck_fifo_spsc_dequeue_lock, l_ck_fifo_spsc_dequeue_unlock,
  l_ck_fifo_spsc_enqueue, l_ck_fifo_spsc_dequeue,
}
use flua_ck.Handle.{
  World, Answer, raises, type_error, Handle, Object, checkcookieuv, with_object, release,
}
use flua_ck.Handle.Other.{is_a, with_object_other, release_other, checkcookieuv_other}
use flua_ck.Methods.{Method, Metatable, lua_method}
use flua_ck.Methods.Fields.{◌&◌, none_left}
use flua_ck.Methods.Guarded.{
  AllGuarded, IsGuarded, nil-IsGuarded, newmetatable-IsGuarded, lua_method-GuardedBy,
}
use flua_ck.Methods.Open.{
  l_ck_ring_meta, luaopen_ck_ring, l_ck_fifo_spsc_meta, l_ck_fifo_mpmc_meta, luaopen_ck_fifo,
  l_ck_sequence_meta, luaopen_ck_sequence, l_ck_ec32_meta, l_ck_ec64_meta, luaopen_ck_ec,
  l_ck_shared_const_meta, open_shared_const, open_shared_pr, shared_pr_ops_reg, l_ck_shared_pr_meta,
}
use flua_ck.Memory.{Mem}
use flua_ck.Ring.{
  releasering, ringsize, ringcapacity, enqueue, dequeue, trydequeue, with_ring, Kind, spsc, mpmc,
  spmc, mpsc, metatable, CkRing, RcRing,
}
use flua_ck.Ring.Kinds.{
  l_ck_ring_spsc_gc, l_ck_ring_spsc_cookie, l_ck_ring_spsc_size, l_ck_ring_spsc_capacity,
  l_ck_ring_spsc_enqueue, l_ck_ring_spsc_dequeue, l_ck_ring_mpmc_gc, l_ck_ring_mpmc_cookie,
  l_ck_ring_mpmc_size, l_ck_ring_mpmc_capacity, l_ck_ring_mpmc_enqueue, l_ck_ring_mpmc_trydequeue,
  l_ck_ring_mpmc_dequeue, l_ck_ring_spmc_gc, l_ck_ring_spmc_cookie, l_ck_ring_spmc_size,
  l_ck_ring_spmc_capacity, l_ck_ring_spmc_enqueue, l_ck_ring_spmc_trydequeue,
  l_ck_ring_spmc_dequeue, l_ck_ring_mpsc_gc, l_ck_ring_mpsc_cookie, l_ck_ring_mpsc_size,
  l_ck_ring_mpsc_capacity, l_ck_ring_mpsc_enqueue, l_ck_ring_mpsc_dequeue,
}
use flua_ck.Shared.{
  RcShared, shared_const_metatable, shared_const_gc, shared_const_cookie, shared_const_load,
}
use flua_ck.Sequence.{
  CkSequence, l_ck_sequence_gc, l_ck_sequence_cookie, l_ck_sequence_read_begin,
  l_ck_sequence_read_retry, l_ck_sequence_write_begin, l_ck_sequence_write_end,
}
use flua_ck.Struct.{release_struct}
use flua_ck.Transport.{Runtime}

-- the three forms of a method: it uses the object, releases it, or answers the cookie
module _ {A Rest : Type 0} (metatable : String) where
  by_object :
      (method : ℕ → Rest → World A → ℕ → Object A → Answer × World A) (i : ℕ) (rest : Rest)
      (w : World A)
      → is_a metatable (get_elem? w.handles i) ≡ false
      → with_object metatable i w (method i rest w) ≡ (raises type_error, w)
  by_object method i rest w other = with_object_other metatable i w (method i rest w) other

  by_release :
      (cleanup : ℕ → A → Mem → Mem) (invalidates : Bool) (i : ℕ) (rest : Rest) (w : World A)
      → is_a metatable (get_elem? w.handles i) ≡ false
      → release cleanup invalidates metatable i w ≡ (raises type_error, w)
  by_release cleanup invalidates i rest w other =
      release_other cleanup invalidates metatable i w other

  by_cookie :
      (i : ℕ) (rest : Rest) (w : World A)
      → is_a metatable (get_elem? w.handles i) ≡ false
      → ◌≡◌ {A = Answer × World A} (checkcookieuv metatable i w, w) (raises type_error, w)
  by_cookie i rest w other = ap (λ a. (a, w)) (checkcookieuv_other metatable i w other)

module _ {R : Type 0} (ck : CkRing R) (rt : Runtime) where
  ring_meta-AllGuarded : (kind : Kind) → AllGuarded (metatable kind) (l_ck_ring_meta ck rt kind)
  unfolding l_ck_ring_meta l_ck_ring_spsc_gc l_ck_ring_spsc_cookie l_ck_ring_spsc_size
      l_ck_ring_spsc_capacity l_ck_ring_spsc_enqueue l_ck_ring_spsc_dequeue l_ck_ring_mpmc_gc
      l_ck_ring_mpmc_cookie l_ck_ring_mpmc_size l_ck_ring_mpmc_capacity l_ck_ring_mpmc_enqueue
      l_ck_ring_mpmc_trydequeue l_ck_ring_mpmc_dequeue l_ck_ring_spmc_gc l_ck_ring_spmc_cookie
      l_ck_ring_spmc_size l_ck_ring_spmc_capacity l_ck_ring_spmc_enqueue l_ck_ring_spmc_trydequeue
      l_ck_ring_spmc_dequeue l_ck_ring_mpsc_gc l_ck_ring_mpsc_cookie l_ck_ring_mpsc_size
      l_ck_ring_mpsc_capacity l_ck_ring_mpsc_enqueue l_ck_ring_mpsc_dequeue releasering ringsize
      ringcapacity enqueue dequeue trydequeue with_ring
  ring_meta-AllGuarded spsc =
      by_release _ _ _
      & by_cookie _
      & by_object _ _
      & by_object _ _
      & by_object _ _
      & by_object _ _
      & none_left
  ring_meta-AllGuarded mpmc =
      by_release _ _ _
      & by_cookie _
      & by_object _ _
      & by_object _ _
      & by_object _ _
      & by_object _ _
      & by_object _ _
      & none_left
  ring_meta-AllGuarded spmc =
      by_release _ _ _
      & by_cookie _
      & by_object _ _
      & by_object _ _
      & by_object _ _
      & by_object _ _
      & by_object _ _
      & none_left
  ring_meta-AllGuarded mpsc =
      by_release _ _ _
      & by_cookie _
      & by_object _ _
      & by_object _ _
      & by_object _ _
      & by_object _ _
      & none_left

  luaopen_ck_ring-IsGuarded : IsGuarded (luaopen_ck_ring ck rt [])
  unfolding luaopen_ck_ring
  luaopen_ck_ring-IsGuarded = newmetatable-IsGuarded _ _ _ (ring_meta-AllGuarded mpsc) (
      newmetatable-IsGuarded _ _ _ (ring_meta-AllGuarded spmc) (
        newmetatable-IsGuarded _ _ _ (ring_meta-AllGuarded mpmc)
          (newmetatable-IsGuarded _ _ _ (ring_meta-AllGuarded spsc) (nil-IsGuarded _))))

module _ {F : Type 0} (rt : Runtime) where
  fifo_spsc_meta-AllGuarded :
      (ck : CkFifoSpsc F) → AllGuarded "fifo.spsc" (l_ck_fifo_spsc_meta rt ck)
  unfolding l_ck_fifo_spsc_meta l_ck_fifo_spsc_gc l_ck_fifo_spsc_cookie l_ck_fifo_spsc_isempty
      l_ck_fifo_spsc_enqueue_trylock l_ck_fifo_spsc_enqueue_lock l_ck_fifo_spsc_enqueue_unlock
      l_ck_fifo_spsc_dequeue_trylock l_ck_fifo_spsc_dequeue_lock l_ck_fifo_spsc_dequeue_unlock
      l_ck_fifo_spsc_enqueue l_ck_fifo_spsc_dequeue
  fifo_spsc_meta-AllGuarded ck =
      by_release _ _ _
      & by_cookie _
      & by_object _ _
      & by_object _ _
      & by_object _ _
      & by_object _ _
      & by_object _ _
      & by_object _ _
      & by_object _ _
      & by_object _ _
      & by_object _ _
      & none_left

  fifo_mpmc_meta-AllGuarded :
      (ck : CkFifoMpmc F) → AllGuarded "fifo.mpmc" (l_ck_fifo_mpmc_meta rt ck)
  unfolding l_ck_fifo_mpmc_meta put_value l_ck_fifo_mpmc_gc l_ck_fifo_mpmc_cookie
      l_ck_fifo_mpmc_enqueue l_ck_fifo_mpmc_tryenqueue l_ck_fifo_mpmc_dequeue
      l_ck_fifo_mpmc_trydequeue
  fifo_mpmc_meta-AllGuarded ck =
      by_release _ _ _
      & by_cookie _
      & by_object _ _
      & by_object _ _
      & by_object _ _
      & by_object _ _
      & none_left

module _ {S : Type 0} (ck : CkSequence S) where
  sequence_meta-AllGuarded : AllGuarded "sequence" (l_ck_sequence_meta ck)
  unfolding l_ck_sequence_meta release_struct l_ck_sequence_gc l_ck_sequence_cookie
      l_ck_sequence_read_begin l_ck_sequence_read_retry l_ck_sequence_write_begin
      l_ck_sequence_write_end
  sequence_meta-AllGuarded =
      by_release _ _ _
      & by_cookie _
      & by_object _ _
      & by_object _ _
      & by_object _ _
      & by_object _ _
      & none_left

module _ {E : Type 0} (ck : CkEc E) where
  ec32_meta-AllGuarded : AllGuarded "ck_ec32_t" (l_ck_ec32_meta ck)
  unfolding l_ck_ec32_meta release_struct l_ck_ec32_gc l_ck_ec32_cookie l_ck_ec32_value
      l_ck_ec32_has_waiters l_ck_ec32_inc l_ck_ec32_add l_ck_ec32_wait l_ck_ec32_wait_pred
  ec32_meta-AllGuarded =
      by_release _ _ _
      & by_cookie _
      & by_object _ _
      & by_object _ _
      & by_object _ _
      & by_object _ _
      & by_object _ _
      & by_object _ _
      & none_left

  ec64_meta-AllGuarded : AllGuarded "ck_ec64_t" (l_ck_ec64_meta ck)
  unfolding l_ck_ec64_meta release_struct l_ck_ec64_gc l_ck_ec64_cookie l_ck_ec64_value
      l_ck_ec64_has_waiters l_ck_ec64_inc l_ck_ec64_add l_ck_ec64_wait l_ck_ec64_wait_pred
  ec64_meta-AllGuarded =
      by_release _ _ _
      & by_cookie _
      & by_object _ _
      & by_object _ _
      & by_object _ _
      & by_object _ _
      & by_object _ _
      & by_object _ _
      & none_left

shared_const_meta-AllGuarded :
    (rt : Runtime) → AllGuarded shared_const_metatable (l_ck_shared_const_meta rt)
unfolding l_ck_shared_const_meta shared_const_gc shared_const_cookie shared_const_load
shared_const_meta-AllGuarded rt = by_release _ _ _ & by_cookie _ & by_object _ _ & none_left

module _ (pr : CkPr) (to : LuaTo) where
  shared_pr_ops_reg-AllGuarded :
      (ops : List PrOp) → AllGuarded shared_pr_metatable (shared_pr_ops_reg pr to ops)
  unfolding shared_pr_ops_reg shared_pr_op
  shared_pr_ops_reg-AllGuarded [] = none_left
  shared_pr_ops_reg-AllGuarded (op ∷ ops) = by_object _ _ & shared_pr_ops_reg-AllGuarded ops

  shared_pr_meta-AllGuarded : AllGuarded shared_pr_metatable (l_ck_shared_pr_meta pr to)
  unfolding l_ck_shared_pr_meta shared_pr_gc shared_pr_cookie shared_pr_rfo
  shared_pr_meta-AllGuarded =
      by_release _ _ _ & by_cookie _ & by_object _ _ & shared_pr_ops_reg-AllGuarded pr_ops_group3

-- the metatables of a module that Lua has opened
pub data IsOpened : (A : Type 0) → List (Metatable A) → Type 1 where
  opened_ring :
      {R : Type 0} (ck : CkRing R) (rt : Runtime) → IsOpened (RcRing R) (luaopen_ck_ring ck rt [])
  opened_fifo :
      {F : Type 0} (rt : Runtime) (ck_spsc : CkFifoSpsc F) (ck_mpmc : CkFifoMpmc F)
      → IsOpened F (luaopen_ck_fifo rt ck_spsc ck_mpmc [])
  opened_sequence : {S : Type 0} (ck : CkSequence S) → IsOpened S (luaopen_ck_sequence ck [])
  opened_ec :
      {E : Type 0} (ec32 : CkEc E) (ec64 : Option (CkEc E))
      → IsOpened E (luaopen_ck_ec ec32 ec64 [])
  opened_const : (rt : Runtime) → IsOpened RcShared (open_shared_const rt [])
  opened_pr : (pr : CkPr) (to : LuaTo) → IsOpened RcSharedPr (open_shared_pr pr to [])

IsOpened-IsGuarded : (A : Type 0) (ts : List (Metatable A)) → IsOpened A ts → IsGuarded ts
unfolding luaopen_ck_fifo luaopen_ck_sequence luaopen_ck_ec open_shared_const open_shared_pr
IsOpened-IsGuarded A ts (opened_ring ck rt) = luaopen_ck_ring-IsGuarded ck rt
IsOpened-IsGuarded A ts (opened_fifo rt ck_spsc ck_mpmc) =
    newmetatable-IsGuarded _ _ _ (fifo_mpmc_meta-AllGuarded rt ck_mpmc)
      (newmetatable-IsGuarded _ _ _ (fifo_spsc_meta-AllGuarded rt ck_spsc) (nil-IsGuarded _))
IsOpened-IsGuarded A ts (opened_sequence ck) =
    newmetatable-IsGuarded _ _ _ (sequence_meta-AllGuarded ck) (nil-IsGuarded _)
IsOpened-IsGuarded A ts (opened_ec ec32 none) =
    newmetatable-IsGuarded _ _ _ (ec32_meta-AllGuarded ec32) (nil-IsGuarded _)
IsOpened-IsGuarded A ts (opened_ec ec32 (some ec64)) =
    newmetatable-IsGuarded _ _ _ (ec64_meta-AllGuarded ec64)
      (newmetatable-IsGuarded _ _ _ (ec32_meta-AllGuarded ec32) (nil-IsGuarded _))
IsOpened-IsGuarded A ts (opened_const rt) =
    newmetatable-IsGuarded _ _ _ (shared_const_meta-AllGuarded rt) (nil-IsGuarded _)
IsOpened-IsGuarded A ts (opened_pr pr to) =
    newmetatable-IsGuarded _ _ _ (shared_pr_meta-AllGuarded pr to) (nil-IsGuarded _)

-- No method of a ring, a queue, a sequence lock, an event count, a shared.const or a shared.pr works
-- on the memory of another kind of userdata: a method that Lua finds for one userdata, called with a
-- userdata of another metatable, raises an error for the type of its argument and changes nothing,
-- whatever its other arguments are.
pub lua_method-refuses :
    (A : Type 0) (ts : List (Metatable A)) (name : String) (i j : ℕ) (w later : World A)
    (h : Handle) (m : Method A) (rest : m.Rest)
    → IsOpened A ts
    → get_elem? w.handles i ≡ some h
    → lua_method ts name i w ≡ some m
    → is_a h.metatable (get_elem? later.handles j) ≡ false
    → m.run j rest later ≡ (raises type_error, later)
lua_method-refuses A ts name i j w later h m rest opened here found other =
    lua_method-GuardedBy ts name i w h (IsOpened-IsGuarded A ts opened) here found j rest later
      other
