-- ===== src/Fifo/Spsc.antt =====
-- fifo.c, the functions on `struct rcfifo_spsc`.
use flua_ck.Base.{ℕ, Bool, false, Option, none, some, List, [], ◌∷◌}
use flua_ck.Fifo.{garbage_of, free_entries, set_fifo, new_fifo, with_marshalled, with_entry}
use flua_ck.Handle.{World, Object, Answer, values, checkcookieuv, retain, release, with_object}
use flua_ck.Marshal.{marshal}
use flua_ck.Memory.{Mem, malloc}
use flua_ck.Transport.{Runtime, take_value}
use flua_ck.Value.{Value, boolean}

-- `ck_fifo_spsc_t` and its functions. `deinit` gives `garbage`, none for NULL, and `chain` the entries
-- from one on, as CK_FIFO_SPSC_NEXT leads from each to the next until NULL; `recycle`
-- gives back an entry that is not in use any more; the locks are those of the two ends.
pub record CkFifoSpsc (F : Type 0) : Type 0 where
  pub init : ℕ → F
  pub deinit : F → Option ℕ
  pub chain : F → ℕ → List ℕ
  pub recycle : F → Option ℕ × F
  pub enqueue : F → ℕ → ℕ → F
  pub dequeue : F → Option ℕ × F
  pub isempty : F → Bool
  pub enqueue_trylock : F → Bool × F
  pub enqueue_lock : F → F
  pub enqueue_unlock : F → F
  pub dequeue_trylock : F → Bool × F
  pub dequeue_lock : F → F
  pub dequeue_unlock : F → F
  pub sizeof_fifo : ℕ
  pub sizeof_entry : ℕ

module _ {F : Type 0} (ck : CkFifoSpsc F) where
  unfoldable pub l_ck_fifo_spsc_new : World F → Answer × World F
  l_ck_fifo_spsc_new w = new_fifo ck.init "fifo.spsc" ck.sizeof_fifo ck.sizeof_entry w

  unfoldable pub l_ck_fifo_spsc_retain : ℕ → World F → Answer × World F
  l_ck_fifo_spsc_retain p w = retain "fifo.spsc" p w

  unfoldable pub free_spsc : ℕ → F → Mem → Mem
  free_spsc p f m = free_entries (garbage_of (ck.chain f) (ck.deinit f)) m

  unfoldable pub l_ck_fifo_spsc_gc : ℕ → World F → Answer × World F
  l_ck_fifo_spsc_gc i w = release free_spsc false "fifo.spsc" i w

  unfoldable pub l_ck_fifo_spsc_cookie : ℕ → World F → Answer × World F
  l_ck_fifo_spsc_cookie i w = (checkcookieuv "fifo.spsc" i w, w)

  unfoldable pub l_ck_fifo_spsc_isempty : ℕ → World F → Answer × World F
  l_ck_fifo_spsc_isempty i w =
      with_object "fifo.spsc" i w (λ p o. (values (boolean (ck.isempty o.value) ∷ []), w))

  -- The functions on the locks: those that answer whether the lock was taken, and those that return
  -- when it is taken or given back.
  try_lock : (F → Bool × F) → ℕ → World F → Answer × World F
  try_lock lock i w = with_object "fifo.spsc" i w (λ p o.
      let (locked, f) = lock o.value in (values (boolean locked ∷ []), set_fifo p o f w.mem w))

  run_lock : (F → F) → ℕ → World F → Answer × World F
  run_lock lock i w =
      with_object "fifo.spsc" i w (λ p o. (values [], set_fifo p o (lock o.value) w.mem w))

  unfoldable pub l_ck_fifo_spsc_enqueue_trylock : ℕ → World F → Answer × World F
  unfolding try_lock
  l_ck_fifo_spsc_enqueue_trylock i w = try_lock ck.enqueue_trylock i w

  unfoldable pub l_ck_fifo_spsc_enqueue_lock : ℕ → World F → Answer × World F
  unfolding run_lock
  l_ck_fifo_spsc_enqueue_lock i w = run_lock ck.enqueue_lock i w

  unfoldable pub l_ck_fifo_spsc_enqueue_unlock : ℕ → World F → Answer × World F
  unfolding run_lock
  l_ck_fifo_spsc_enqueue_unlock i w = run_lock ck.enqueue_unlock i w

  unfoldable pub l_ck_fifo_spsc_dequeue_trylock : ℕ → World F → Answer × World F
  unfolding try_lock
  l_ck_fifo_spsc_dequeue_trylock i w = try_lock ck.dequeue_trylock i w

  unfoldable pub l_ck_fifo_spsc_dequeue_lock : ℕ → World F → Answer × World F
  unfolding run_lock
  l_ck_fifo_spsc_dequeue_lock i w = run_lock ck.dequeue_lock i w

  unfoldable pub l_ck_fifo_spsc_dequeue_unlock : ℕ → World F → Answer × World F
  unfolding run_lock
  l_ck_fifo_spsc_dequeue_unlock i w = run_lock ck.dequeue_unlock i w

  module _ (rt : Runtime) where
    -- the entry that `ck_fifo_spsc_recycle` gave, or a new one
    unfoldable pub push_recycled :
        ℕ → Object F → World F → ℕ → Mem → Option ℕ × F → Answer × World F
    push_recycled p o w v m (some entry, f) = (values [], set_fifo p o (ck.enqueue f entry v) m w)
    push_recycled p o w v m (none, f) =
        with_entry (set_fifo p o f m w) v (malloc ck.sizeof_entry m)
          (λ entry m'. (values [], set_fifo p o (ck.enqueue f entry v) m' w))

    unfoldable pub l_ck_fifo_spsc_enqueue : ℕ → Value → World F → Answer × World F
    unfolding push_recycled
    l_ck_fifo_spsc_enqueue i x w = with_object "fifo.spsc" i w (λ p o.
        with_marshalled w (marshal rt.md rt.lua rt.custom x w.mem)
          (λ v m. push_recycled p o w v m (ck.recycle o.value)))

    unfoldable pub pop_spsc : ℕ → Object F → World F → Option ℕ × F → Answer × World F
    pop_spsc p o w (none, f) = (values (boolean false ∷ []), set_fifo p o f w.mem w)
    pop_spsc p o w (some v, f) =
        let (answer, m) = take_value rt v w.mem in (answer, set_fifo p o f m w)

    unfoldable pub l_ck_fifo_spsc_dequeue : ℕ → World F → Answer × World F
    unfolding pop_spsc
    l_ck_fifo_spsc_dequeue i w =
        with_object "fifo.spsc" i w (λ p o. pop_spsc p o w (ck.dequeue o.value))
