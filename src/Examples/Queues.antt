-- ===== src/Examples/Queues.antt =====
-- Values through the queues of fifo.c.
use flua_ck.Base.{ap, Option, ◌++◌, ℕ, ◌≡◌, refl, true, none, some, List, [], ◌∷◌, arith}
use flua_ck.Examples.{machine-IsMd, runtime}
use flua_ck.Examples.Serdes.{
  greeter, greeter_bytes, encode-greeter, greeter-IsLoadable, greeter-IsSmall,
}
use flua_ck.Fifo.Spsc.{CkFifoSpsc}
use flua_ck.Handle.{Object, World, check_cookie, checkcookie_of, checkcookie, cookie, put}
use flua_ck.Examples.Rings.{ring_memory, ring_memory-IsFresh, ring-IsRoomy}
use flua_ck.Fifo.RoundTrip.{CkFifoSpscLaws, Through, l_ck_fifo_spsc_dequeue-l_ck_fifo_spsc_enqueue}
use mathlib.Core.Option.{some-injective}

-- a queue as the list of its values
abbrev take_value_of : List ℕ → Option ℕ × List ℕ
take_value_of [] = (none, [])
take_value_of (v ∷ vs) = (some v, vs)

abbrev list_fifo : CkFifoSpsc (List ℕ)
list_fifo = record {
  init = λ stub. [];
  deinit = λ f. none;
  chain = λ f e. e ∷ [];
  recycle = λ f. (none, f);
  enqueue = λ f entry v. f ++ (v ∷ []);
  dequeue = take_value_of;
  isempty = λ f. true;
  enqueue_trylock = λ f. (true, f);
  enqueue_lock = λ f. f;
  enqueue_unlock = λ f. f;
  dequeue_trylock = λ f. (true, f);
  dequeue_lock = λ f. f;
  dequeue_unlock = λ f. f;
  sizeof_fifo = 64;
  sizeof_entry = 32;
}

take_value_of-some :
    (f : List ℕ) {v : ℕ} {f' : List ℕ} → take_value_of f ≡ (some v, f') → f ≡ v ∷ f'
take_value_of-some [] h = cc
take_value_of-some (x ∷ f) {v} h =
    let value = some-injective x v (ap (λ d. d.0) h) in let rest = ap (λ d. d.1) h in cc

take_value_of-none : (f : List ℕ) {f' : List ℕ} → take_value_of f ≡ (none, f') → f ≡ []
take_value_of-none [] h = refl
take_value_of-none (x ∷ f) h = cc

list_fifo_laws : CkFifoSpscLaws list_fifo
list_fifo_laws = record {
  contents = λ f. f;
  recycle_law = λ f. refl;
  enqueue_law = λ f entry v. refl;
  dequeue_law = λ f h. take_value_of-some f h;
  dequeue_none = λ f h. take_value_of-none f h;
}

abbrev list_fifo_object : Object (List ℕ)
list_fifo_object = record { value = []; refs = 1 }

abbrev list_fifo_world : World (List ℕ)
list_fifo_world = record {
  mem = ring_memory;
  objects = put (λ p. none) 0 (some list_fifo_object);
  handles = record { metatable = "fifo.spsc"; cookie = some 0 } ∷ [];
}

list_fifo_cookie : checkcookie "fifo.spsc" 0 list_fifo_world ≡ cookie 0
unfolding checkcookie checkcookie_of check_cookie
list_fifo_cookie = refl

list_fifo_empty : list_fifo_laws.contents list_fifo_object.value ≡ []
unfolding list_fifo_laws
list_fifo_empty = refl

spsc_queue_example : Through list_fifo_laws runtime 0 0 greeter list_fifo_world
spsc_queue_example =
    l_ck_fifo_spsc_dequeue-l_ck_fifo_spsc_enqueue list_fifo_laws runtime 0 0 greeter greeter_bytes
      list_fifo_world list_fifo_object machine-IsMd tt greeter-IsSmall greeter-IsLoadable
      encode-greeter ring_memory-IsFresh ring-IsRoomy (omega arith) list_fifo_cookie refl
      list_fifo_empty
