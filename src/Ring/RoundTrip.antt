-- ===== src/Ring/RoundTrip.antt =====
-- An enqueue and a dequeue of ring.c, one after the other.
use flua_ck.Base.{ℕ, ◌≤◌, ◌≡◌, refl, sym, ap, ◌∙◌, true, none, some, List, [], ◌∷◌, arith, inl}
use mathlib.Core.Option.{some-injective}
use flua_ck.Handle.{Object, World, Answer, values, checkcookie, cookie}
use flua_ck.Handle.Counted.{checkcookie-handles}
use flua_ck.Load.RoundTrip.{IsLoadable}
use flua_ck.Marshal.Total.{IsRoomy, not-Refused}
use flua_ck.Memory.{update, free, update-update, update-none}
use flua_ck.Ring.{Kind, metatable, CkRing, RcRing, enqueue, dequeue}
use flua_ck.Ring.Contents.{CkRingLaws, Represents}
use flua_ck.Transport.Encoded.{answer_value}
use flua_ck.Ring.Dequeue.{Taken, taken, dequeue-first}
use flua_ck.Ring.Enqueue.{Enqueued, appended, full, no_memory, lost, enqueue-Enqueued}
use flua_ck.Serdebuf.Bounds.{IsMd}
use flua_ck.Serialize.Format.{encode, IsPlain, IsSmall}
use flua_ck.Transport.{Runtime}
use flua_ck.Value.{Value, boolean, integer}

-- One value goes through the ring, and the memory is as it was.
pub record Passed {R : Type 0} {ck : CkRing R} (laws : CkRingLaws ck) (rt : Runtime) (kind : Kind)
    (i p : ℕ) (v : Value) (w : World (RcRing R)) : Type 0 where
  pub size : ℕ
  pub between : World (RcRing R)
  pub after : World (RcRing R)
  pub enqueued : enqueue ck rt kind i v w ≡ (values (boolean true ∷ integer size ∷ []), between)
  pub dequeued : dequeue ck rt kind i between ≡ (answer_value rt v, after)
  pub leaves : Represents laws after p [] []
  pub cell : after.mem.cell ≡ w.mem.cell

module _ {R : Type 0} {ck : CkRing R} (laws : CkRingLaws ck) (rt : Runtime) (kind : Kind) (i p : ℕ)
    (v : Value) (w : World (RcRing R)) where
  -- A ring of capacity 2 or more is not full when it is empty.
  not-full :
      (r : Represents laws w p [] [])
      → 2 ≤ ck.capacity r.object.value.ring
      → ¬ ((o : Object (RcRing R)) × (w.objects p ≡ some o) × (1 ≡ ck.capacity o.value.ring))
  not-full r large (o, there, k) =
      let same : ck.capacity o.value.ring ≡ ck.capacity r.object.value.ring =
        ap (λ o. ck.capacity o.value.ring) (some-injective _ _ (sym there ∙ r.there)) in
      omega (arith, same)

  dequeue-Passed :
      (e : List ℕ) (size : ℕ) (w' : World (RcRing R)) (d : Answer × World (RcRing R))
      → w.mem.cell w.mem.tick ≡ none
      → enqueue ck rt kind i v w ≡ (values (boolean true ∷ integer size ∷ []), w')
      → w'.mem.cell ≡ update w.mem.cell w.mem.tick (some e)
      → dequeue ck rt kind i w' ≡ d
      → Taken laws w' p w.mem.tick [] e [] (answer_value rt v) d
      → Passed laws rt kind i p v w
  unfolding free
  dequeue-Passed e size w' d empty q h k (taken {w' = w''} cell freed l) = record {
    size = size;
    between = w';
    after = w'';
    enqueued = q;
    dequeued = k;
    leaves = l.represents;
    cell =
        ap (λ m. m.cell) freed
        ∙ ap (λ f. update f w.mem.tick none) h
        ∙ update-update w.mem.cell w.mem.tick (some e) none
        ∙ update-none w.mem.cell w.mem.tick empty;
  }

  Enqueued-Passed :
      (e : List ℕ) (d : Answer × World (RcRing R))
      → IsLoadable rt.lua v
      → encode rt.lua v ≡ some e
      → IsRoomy rt.md w.mem v e
      → checkcookie (metatable kind) i w ≡ cookie p
      → (r : Represents laws w p [] []) → 2 ≤ ck.capacity r.object.value.ring
      → enqueue ck rt kind i v w ≡ d
      → Enqueued laws rt v w p [] [] (some e) d
      → Passed laws rt kind i p v w
  Enqueued-Passed e _ load h room c r large q (appended {size = size} {w' = w'} l cells) =
      dequeue-Passed e size w' _ (r.fresh w.mem.tick (omega arith)) q cells refl (
        dequeue-first laws rt kind i p w'
          (checkcookie-handles (metatable kind) i w w' l.handles ∙ c) v w.mem.tick [] e [] h load
          l.represents)
  Enqueued-Passed e _ load h room c r large q (full (o, there, k) l cells) =
      absurd (not-full r large (o, there, k))
  Enqueued-Passed e _ load h room c r large q (no_memory n why l cells) =
      absurd (not-Refused room why)
  Enqueued-Passed e _ load h room c r large q (lost why l cells) =
      absurd (not-Refused room (inl why))

module _ {R : Type 0} {ck : CkRing R} (laws : CkRingLaws ck) (rt : Runtime)
    (good : IsMd rt.md) where
  -- A value goes through an empty ring of capacity 2 or more: the enqueue answers true, the dequeue
  -- after it answers the value as the reading state sees it (or an error, if the uninitialised `env`
  -- of `loadshared` is true), the ring is empty again, and every block is as before the enqueue. The
  -- value has no custom serde and can be loaded back, and the allocator grants every request.
  pub enqueue-dequeue :
      (kind : Kind) (i p : ℕ) (v : Value) (e : List ℕ) (w : World (RcRing R))
      → IsPlain v
      → IsSmall rt.lua v
      → IsLoadable rt.lua v
      → encode rt.lua v ≡ some e
      → IsRoomy rt.md w.mem v e
      → checkcookie (metatable kind) i w ≡ cookie p
      → (r : Represents laws w p [] []) → 2 ≤ ck.capacity r.object.value.ring
      → Passed laws rt kind i p v w
  enqueue-dequeue kind i p v e w plain small load h room c r large =
      Enqueued-Passed laws rt kind i p v w e _ load h room c r large refl
        (rw h at (enqueue-Enqueued laws rt good kind i p v w [] [] plain small c r))
