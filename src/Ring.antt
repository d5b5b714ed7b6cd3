-- ===== src/Ring.antt =====
-- ring.c: bounded queues of Lua values. The four kinds differ in the Concurrency Kit functions that
-- they call and in their metatables. The ring itself is Concurrency Kit's, and a parameter.
pub mod Kinds
pub mod Contents
pub mod Enqueue
pub mod Dequeue
pub mod RoundTrip
pub mod Lifetime
pub mod Makes
use Prim.Native.String.{String}
use flua_ck.Base.{
  ℕ, ◌+◌, ◌*◌, ◌%◌, ◌^◌, Bool, true, false, Option, none, some, List, [], ◌∷◌, if◌then◌else◌,
}
use flua_ck.Handle.{
  Object, World, Answer, values, raises, fault, serializer_error, fatal_error, Checked, cookie,
  refused, checkcookie, checkcookieuv, put, create, retain, release, with_object,
}
use flua_ck.Marshal.{Marshalled, block, fatal, lua_error, from_malloc, marshal}
use flua_ck.Memory.{Mem, malloc, free}
use flua_ck.Serdebuf.{enomem}
use flua_ck.Transport.{Runtime, take_value}
use flua_ck.Value.{Value, boolean, integer}

pub data Kind : Type 0 where
  spsc mpmc spmc mpsc : Kind

-- RING_SPSC_METATABLE and the others
unfoldable pub metatable : Kind → String
metatable spsc = "ring.spsc"
metatable mpmc = "ring.mpmc"
metatable spmc = "ring.spmc"
metatable mpsc = "ring.mpsc"

-- `ck_ring_t` and its functions. `enqueue` is ck_ring_enqueue_<kind>_size: whether the address was
-- put in, and the size that is reported. `dequeue` is ck_ring_dequeue_<kind>, and `trydequeue` the
-- variant that may give up.
pub record CkRing (R : Type 0) : Type 0 where
  pub init : ℕ → R
  pub enqueue : Kind → R → ℕ → Bool × ℕ × R
  pub dequeue : Kind → R → Option ℕ × R
  pub trydequeue : Kind → R → Option ℕ × R
  pub size : R → ℕ
  pub capacity : R → ℕ
  pub sizeof_rcring : ℕ

-- `struct rcring`, but for the count
pub record RcRing (R : Type 0) : Type 0 where
  pub ring : R
  pub buffer : ℕ

module _ {R : Type 0} (ck : CkRing R) where
  made_buffer : Kind → ℕ → ℕ → World (RcRing R) → Option ℕ × Mem → Answer × World (RcRing R)
  made_buffer kind size p w (none, m) =
      (raises (fatal_error from_malloc enomem), record w { mem = free (some p) m })
  made_buffer kind size p w (some b, m) =
      create p (record { ring = ck.init size; buffer = b }) (metatable kind) (record w { mem = m })

  made_ring : Kind → ℕ → World (RcRing R) → Option ℕ × Mem → Answer × World (RcRing R)
  unfolding made_buffer
  made_ring kind size w (none, m) = (raises (fatal_error from_malloc enomem), record w { mem = m })
  made_ring kind size w (some p, m) = made_buffer kind size p w (malloc (8 * size % 2 ^ 64) m)

  -- `arg` is the lua_Integer that `luaL_checkinteger` gives, kept as an `unsigned int`.
  unfoldable pub newring : Kind → ℕ → World (RcRing R) → Answer × World (RcRing R)
  unfolding made_ring
  newring kind arg w = made_ring kind (arg % 2 ^ 32) w (malloc ck.sizeof_rcring w.mem)

  unfoldable pub retainring : Kind → ℕ → World (RcRing R) → Answer × World (RcRing R)
  retainring kind p w = retain (metatable kind) p w

  -- `free(ringp->buffer)`; the struct goes after it. The values in the ring stay.
  unfoldable pub free_ring : ℕ → RcRing R → Mem → Mem
  free_ring p r m = free (some r.buffer) m

  unfoldable pub releasering : Kind → ℕ → World (RcRing R) → Answer × World (RcRing R)
  releasering kind i w = release free_ring true (metatable kind) i w

  unfoldable pub with_ring :
      Kind
      → ℕ
      → World (RcRing R)
      → (ℕ → Object (RcRing R) → Answer × World (RcRing R))
      → Answer × World (RcRing R)
  with_ring kind i w method = with_object (metatable kind) i w method

  unfoldable pub ringsize : Kind → ℕ → World (RcRing R) → Answer × World (RcRing R)
  ringsize kind i w = with_ring kind i w (λ p o. (values (integer (ck.size o.value.ring) ∷ []), w))

  unfoldable pub ringcapacity : Kind → ℕ → World (RcRing R) → Answer × World (RcRing R)
  ringcapacity kind i w =
      with_ring kind i w (λ p o. (values (integer (ck.capacity o.value.ring) ∷ []), w))

  -- the ring of the object at `p` replaced
  abbrev pub set_ring : ℕ → Object (RcRing R) → R → Mem → World (RcRing R) → World (RcRing R)
  set_ring p o r m w = record w {
    mem = m;
    objects = put w.objects p (some (record o { value = record (o.value) { ring = r } }));
  }

  module _ (rt : Runtime) where
    pushed_block :
        ℕ
        → ℕ
        → Object (RcRing R)
        → World (RcRing R)
        → Mem
        → Bool × ℕ × R
        → Answer × World (RcRing R)
    pushed_block b p o w m (enqueued, size, r) = (
      values (boolean enqueued ∷ integer size ∷ []),
      set_ring p o r (if enqueued then m else free (some b) m) w,
    )

    push_marshalled :
        Kind
        → ℕ
        → Object (RcRing R)
        → World (RcRing R)
        → Marshalled × Mem
        → Answer × World (RcRing R)
    unfolding pushed_block
    push_marshalled kind p o w (fatal source e, m) =
        (raises (fatal_error source e), record w { mem = m })
    push_marshalled kind p o w (lua_error, m) = (raises serializer_error, record w { mem = m })
    push_marshalled kind p o w (block b, m) =
        pushed_block b p o w m (ck.enqueue kind o.value.ring b)

    -- The four enqueue methods.
    unfoldable pub enqueue : Kind → ℕ → Value → World (RcRing R) → Answer × World (RcRing R)
    unfolding push_marshalled
    enqueue kind i v w =
        with_ring kind i w
          (λ p o. push_marshalled kind p o w (marshal rt.md rt.lua rt.custom v w.mem))

    pop_block : ℕ → Object (RcRing R) → World (RcRing R) → Option ℕ × R → Answer × World (RcRing R)
    pop_block p o w (none, r) = (values (boolean false ∷ []), set_ring p o r w.mem w)
    pop_block p o w (some b, r) =
        let (answer, m) = take_value rt b w.mem in (answer, set_ring p o r m w)

    -- The dequeue methods, and the trydequeue methods, which differ from them in the call only.
    unfoldable pub dequeue : Kind → ℕ → World (RcRing R) → Answer × World (RcRing R)
    unfolding pop_block
    dequeue kind i w = with_ring kind i w (λ p o. pop_block p o w (ck.dequeue kind o.value.ring))

    unfoldable pub trydequeue : Kind → ℕ → World (RcRing R) → Answer × World (RcRing R)
    unfolding pop_block
    trydequeue kind i w =
        with_ring kind i w (λ p o. pop_block p o w (ck.trydequeue kind o.value.ring))
