-- ===== src/Fifo/Mpmc.antt =====
-- fifo.c, the functions on `struct rcfifo_mpmc`.
use flua_ck.Base.{ℕ, Bool, false, Option, none, some, List, [], ◌∷◌, if◌then◌else◌}
use flua_ck.Fifo.{garbage_of, free_entries, set_fifo, new_fifo, with_marshalled, with_entry}
use flua_ck.Handle.{World, Object, Answer, values, checkcookieuv, retain, release, with_object}
use flua_ck.Marshal.{marshal}
use flua_ck.Memory.{Mem, malloc, free}
use flua_ck.Transport.{Runtime, take_value}
use flua_ck.Value.{Value, boolean}

-- `ck_fifo_mpmc_t` and its functions. `enqueue` and `tryenqueue` take an entry and a value; a
-- dequeue gives a value and `garbage`, none for NULL. `chain` gives the entries from one on, as
-- CK_FIFO_MPMC_NEXT leads from each to the next until NULL.
pub record CkFifoMpmc (F : Type 0) : Type 0 where
  pub init : ℕ → F
  pub deinit : F → Option ℕ
  pub chain : F → ℕ → List ℕ
  pub enqueue : F → ℕ → ℕ → F
  pub tryenqueue : F → ℕ → ℕ → Bool × F
  pub dequeue : F → Option (ℕ × Option ℕ) × F
  pub trydequeue : F → Option (ℕ × Option ℕ) × F
  pub sizeof_fifo : ℕ
  pub sizeof_entry : ℕ

module _ {F : Type 0} (ck : CkFifoMpmc F) where
  unfoldable pub l_ck_fifo_mpmc_new : World F → Answer × World F
  l_ck_fifo_mpmc_new w = new_fifo ck.init "fifo.mpmc" ck.sizeof_fifo ck.sizeof_entry w

  unfoldable pub l_ck_fifo_mpmc_retain : ℕ → World F → Answer × World F
  l_ck_fifo_mpmc_retain p w = retain "fifo.mpmc" p w

  unfoldable pub free_mpmc : ℕ → F → Mem → Mem
  free_mpmc p f m = free_entries (garbage_of (ck.chain f) (ck.deinit f)) m

  unfoldable pub l_ck_fifo_mpmc_gc : ℕ → World F → Answer × World F
  l_ck_fifo_mpmc_gc i w = release free_mpmc false "fifo.mpmc" i w

  unfoldable pub l_ck_fifo_mpmc_cookie : ℕ → World F → Answer × World F
  l_ck_fifo_mpmc_cookie i w = (checkcookieuv "fifo.mpmc" i w, w)

  module _ (rt : Runtime) where
    -- an enqueue function, by what it does with the value and the entry
    unfoldable pub put_value :
        ℕ → Value → World F → (ℕ → Object F → ℕ → ℕ → Mem → Answer × World F) → Answer × World F
    put_value i x w push = with_object "fifo.mpmc" i w (λ p o.
        with_marshalled w (marshal rt.md rt.lua rt.custom x w.mem)
          (λ v m. with_entry (record w { mem = m }) v (malloc ck.sizeof_entry m) (push p o v)))

    unfoldable pub l_ck_fifo_mpmc_enqueue : ℕ → Value → World F → Answer × World F
    unfolding put_value
    l_ck_fifo_mpmc_enqueue i x w =
        put_value i x w
          (λ p o v entry m. (values [], set_fifo p o (ck.enqueue o.value entry v) m w))

    -- `if (!enqueued) free(v);`: the entry is not freed
    unfoldable pub tried : ℕ → Object F → World F → ℕ → Mem → Bool × F → Answer × World F
    tried p o w v m (enqueued, f) =
        (values (boolean enqueued ∷ []), set_fifo p o f (if enqueued then m else free (some v) m) w)

    unfoldable pub l_ck_fifo_mpmc_tryenqueue : ℕ → Value → World F → Answer × World F
    unfolding put_value tried
    l_ck_fifo_mpmc_tryenqueue i x w =
        put_value i x w (λ p o v entry m. tried p o w v m (ck.tryenqueue o.value entry v))

    pop_mpmc : ℕ → Object F → World F → Option (ℕ × Option ℕ) × F → Answer × World F
    pop_mpmc p o w (none, f) = (values (boolean false ∷ []), set_fifo p o f w.mem w)
    pop_mpmc p o w (some (v, garbage), f) =
        let (answer, m) = take_value rt v (free_entries (garbage_of (ck.chain f) garbage) w.mem) in
        (answer, set_fifo p o f m w)

    unfoldable pub l_ck_fifo_mpmc_dequeue : ℕ → World F → Answer × World F
    unfolding pop_mpmc
    l_ck_fifo_mpmc_dequeue i w =
        with_object "fifo.mpmc" i w (λ p o. pop_mpmc p o w (ck.dequeue o.value))

    unfoldable pub l_ck_fifo_mpmc_trydequeue : ℕ → World F → Answer × World F
    unfolding pop_mpmc
    l_ck_fifo_mpmc_trydequeue i w =
        with_object "fifo.mpmc" i w (λ p o. pop_mpmc p o w (ck.trydequeue o.value))
