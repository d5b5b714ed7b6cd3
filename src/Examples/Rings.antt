-- ===== src/Examples/Rings.antt =====
-- Values through the rings of ring.c.
use flua_ck.Base.{ℕ, ◌≤◌, ◌≡◌, refl, true, none, some, List, [], ◌∷◌, arith, ==_ne}
use flua_ck.Examples.{machine-IsMd, liblua, runtime, ListRing, list_ring, list_ring_laws}
use flua_ck.Examples.Serdes.{
  greeter, greeter_bytes, encode-greeter, greeter-IsLoadable, greeter-IsSmall,
}
use flua_ck.Handle.{Object, World, check_cookie, checkcookie_of, checkcookie, cookie, put}
use flua_ck.Marshal.Total.{IsRoomy}
use flua_ck.Memory.{Mem, update, IsFresh}
use flua_ck.Ring.{spsc, metatable, RcRing, enqueue, dequeue, releasering}
use flua_ck.Ring.Contents.{Apart, alone, beside, Holds, nothing, holding, Represents}
use flua_ck.Transport.Encoded.{answer_value}
use flua_ck.Ring.Dequeue.{Taken, dequeue-first}
use flua_ck.Ring.Enqueue.{Enqueued, enqueue-Enqueued}
use flua_ck.Ring.Lifetime.{releasering-Holds}
use flua_ck.Ring.RoundTrip.{Passed, enqueue-dequeue}
use flua_ck.Serialize.{init_size, serde_type_size, string_len}
use flua_ck.Serialize.Format.{encode}
use flua_ck.Value.{serde_type}

-- a ring of four slots at address 0, with its slots in block 1, and the block 2 with a value
abbrev ring_object : List ℕ → Object (RcRing ListRing)
ring_object bs = record {
  value = record { ring = record { items = bs; bound = 4 }; buffer = 1 };
  refs = 1;
}

abbrev pub ring_memory : Mem
ring_memory = record {
  cell = update (λ p. none) 2 (some greeter_bytes);
  tick = 3;
  grants = λ n. true;
}

abbrev ring_world : List ℕ → World (RcRing ListRing)
ring_world bs = record {
  mem = ring_memory;
  objects = put (λ p. none) 0 (some (ring_object bs));
  handles = record { metatable = "ring.spsc"; cookie = some 0 } ∷ [];
}

pub ring_memory-IsFresh : IsFresh ring_memory
ring_memory-IsFresh q l = rw (==_ne 2 q (omega arith)) refl

ring_cookie : (bs : List ℕ) → checkcookie (metatable spsc) 0 (ring_world bs) ≡ cookie 0
unfolding checkcookie checkcookie_of check_cookie metatable
ring_cookie bs = refl

empty_ring : Represents list_ring_laws (ring_world []) 0 [] []
unfolding list_ring_laws
empty_ring = record {
  object = ring_object [];
  there = refl;
  blocks = refl;
  holds = nothing;
  fresh = ring_memory-IsFresh;
}

full_ring : Represents list_ring_laws (ring_world (2 ∷ [])) 0 (2 ∷ []) (greeter_bytes ∷ [])
unfolding list_ring_laws
full_ring = record {
  object = ring_object (2 ∷ []);
  there = refl;
  blocks = refl;
  holds = holding refl alone nothing;
  fresh = ring_memory-IsFresh;
}

empty_ring-capacity : 2 ≤ list_ring.capacity empty_ring.object.value.ring
unfolding empty_ring
empty_ring-capacity = omega arith

full_ring-refs : full_ring.object.refs ≡ 1
unfolding full_ring
full_ring-refs = refl

full_ring-Apart : Apart full_ring.object.value.buffer (2 ∷ [])
unfolding full_ring
full_ring-Apart = beside refl alone

pub ring-IsRoomy : IsRoomy runtime.md ring_memory greeter greeter_bytes
unfolding init_size serde_type_size string_len serde_type
ring-IsRoomy = record { granting = λ n l. refl; bytes = omega arith; guess = omega arith }

enqueue-dequeue_example : Passed list_ring_laws runtime spsc 0 0 greeter (ring_world [])
enqueue-dequeue_example =
    enqueue-dequeue list_ring_laws runtime machine-IsMd spsc 0 0 greeter greeter_bytes
      (ring_world []) tt greeter-IsSmall greeter-IsLoadable encode-greeter ring-IsRoomy
      (ring_cookie []) empty_ring empty_ring-capacity

enqueue_example :
    Enqueued list_ring_laws runtime greeter
      (ring_world (2 ∷ []))
      0
      (2 ∷ [])
      (greeter_bytes ∷ [])
      (encode liblua greeter)
      (enqueue list_ring runtime spsc 0 greeter (ring_world (2 ∷ [])))
enqueue_example =
    enqueue-Enqueued list_ring_laws runtime machine-IsMd spsc 0 0 greeter (ring_world (2 ∷ []))
      (2 ∷ []) (greeter_bytes ∷ []) tt greeter-IsSmall (ring_cookie (2 ∷ [])) full_ring

dequeue_example :
    Taken list_ring_laws
      (ring_world (2 ∷ []))
      0
      2
      []
      greeter_bytes
      []
      (answer_value runtime greeter)
      (dequeue list_ring runtime spsc 0 (ring_world (2 ∷ [])))
dequeue_example =
    dequeue-first list_ring_laws runtime spsc 0 0 (ring_world (2 ∷ [])) (ring_cookie (2 ∷ []))
      greeter 2 [] greeter_bytes [] encode-greeter greeter-IsLoadable full_ring

releasering_example :
    Holds
      (releasering list_ring spsc 0 (ring_world (2 ∷ []))).1.mem.cell
      (2 ∷ [])
      (greeter_bytes ∷ [])
releasering_example =
    releasering-Holds list_ring_laws spsc 0 0 (2 ∷ []) (greeter_bytes ∷ []) (ring_world (2 ∷ []))
      (ring_cookie (2 ∷ [])) full_ring full_ring-refs (beside refl alone) full_ring-Apart
