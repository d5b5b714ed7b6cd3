-- ===== src/Fifo.antt =====
-- fifo.c: unbounded queues of Lua values, with one producer and one consumer (spsc) or many of each
-- (mpmc). Every value in a queue has an entry, a block of its own besides the value's. The queues are
-- Concurrency Kit's, and parameters.
pub mod Spsc
pub mod Mpmc
pub mod Blocks
pub mod RoundTrip
pub mod Makes
use Prim.Native.String.{String}
use flua_ck.Base.{ℕ, Option, none, some, List, [], ◌∷◌}
use flua_ck.Handle.{
  World, Object, Answer, values, raises, fatal_error, serializer_error, create, put,
}
use flua_ck.Marshal.{Marshalled, block, fatal, lua_error, from_malloc}
use flua_ck.Memory.{Mem, malloc, free}
use flua_ck.Serdebuf.{enomem}

-- the entries that the loops `while (garbage != NULL)` come to
unfoldable pub garbage_of : (ℕ → List ℕ) → Option ℕ → List ℕ
garbage_of chain none = []
garbage_of chain (some g) = chain g

-- what these loops free
unfoldable pub free_entries : List ℕ → Mem → Mem
free_entries [] m = m
free_entries (e ∷ es) m = free_entries es (free (some e) m)

module _ {F : Type 0} where
  -- The queue of the object at `p` replaced; `struct rcfifo_spsc` and `struct rcfifo_mpmc` hold the
  -- queue and the count only.
  abbrev pub set_fifo : ℕ → Object F → F → Mem → World F → World F
  set_fifo p o f m w = record w {
    mem = m;
    objects = put w.objects p (some (record o { value = f }));
  }

  module _ (init : ℕ → F) (metatable : String) where
    made_stub : ℕ → World F → Option ℕ × Mem → Answer × World F
    made_stub p w (none, m) =
        (raises (fatal_error from_malloc enomem), record w { mem = free (some p) m })
    made_stub p w (some stub, m) = create p (init stub) metatable (record w { mem = m })

    made_fifo : ℕ → World F → Option ℕ × Mem → Answer × World F
    unfolding made_stub
    made_fifo sizeof_entry w (none, m) =
        (raises (fatal_error from_malloc enomem), record w { mem = m })
    made_fifo sizeof_entry w (some p, m) = made_stub p w (malloc sizeof_entry m)

    -- The new functions, with the sizes of the struct and of an entry.
    unfoldable pub new_fifo : ℕ → ℕ → World F → Answer × World F
    unfolding made_fifo
    new_fifo sizeof_fifo sizeof_entry w = made_fifo sizeof_entry w (malloc sizeof_fifo w.mem)

  -- The enqueue functions up to the block with the value; `push` is what they do with it.
  unfoldable pub with_marshalled :
      World F → Marshalled × Mem → (ℕ → Mem → Answer × World F) → Answer × World F
  with_marshalled w (fatal source e, m) push = (raises (fatal_error source e), record w { mem = m })
  with_marshalled w (lua_error, m) push = (raises serializer_error, record w { mem = m })
  with_marshalled w (block v, m) push = push v m

  -- `entry = malloc(sizeof(*entry))`, and `free(v)` where it fails
  unfoldable pub with_entry :
      World F → ℕ → Option ℕ × Mem → (ℕ → Mem → Answer × World F) → Answer × World F
  with_entry w v (none, m) push =
      (raises (fatal_error from_malloc enomem), record w { mem = free (some v) m })
  with_entry w v (some entry, m) push = push entry m
