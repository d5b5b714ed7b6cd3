-- ===== src/Fifo/RoundTrip.antt =====
-- fifo.c: an enqueue and a dequeue of an spsc queue, one after the other.
use flua_ck.Base.{
  ℕ, ◌≤◌, ◌<◌, ◌≡◌, refl, sym, ap, ◌∙◌, true, false, Option, none, some, List, [], ◌∷◌, ◌++◌, arith,
  ◌==◌, ==_self,
}
use flua_ck.Fifo.{with_marshalled, with_entry}
use flua_ck.Fifo.Spsc.{
  CkFifoSpsc, push_recycled, pop_spsc, l_ck_fifo_spsc_enqueue, l_ck_fifo_spsc_dequeue,
}
use flua_ck.Handle.{Object, World, values, checkcookie, cookie}
use flua_ck.Handle.Counted.{checkcookie-handles}
use flua_ck.Handle.Methods.{put_self, with_object-open}
use flua_ck.Load.RoundTrip.{IsLoadable}
use flua_ck.Marshal.{Marshalled}
use flua_ck.Marshal.Total.{granted-Advanced, IsRoomy, Stored, kept, marshal_total}
use flua_ck.Memory.{Mem, size_limit, granted, IsFresh, update, free, malloc-granted}
use flua_ck.Serdebuf.Bounds.{IsMd}
use flua_ck.Serialize.Format.{encode, IsPlain, IsSmall}
use flua_ck.Transport.{Runtime, take_value, load_block}
use flua_ck.Transport.Encoded.{answer_value, answer_encoded}
use flua_ck.Value.{Value}

-- ck_fifo(3): the queue holds values, oldest first, and a dequeue fails only on an empty queue. An
-- entry that is recycled does not change what the queue holds.
pub record CkFifoSpscLaws {F : Type 0} (ck : CkFifoSpsc F) : Type 0 where
  pub contents : F → List ℕ
  pub recycle_law : (f : F) → contents (ck.recycle f).1 ≡ contents f
  pub enqueue_law : (f : F) (entry v : ℕ) → contents (ck.enqueue f entry v) ≡ contents f ++ (v ∷ [])
  pub dequeue_law :
      (f : F) {v : ℕ} {f' : F} → ck.dequeue f ≡ (some v, f') → contents f ≡ v ∷ contents f'
  pub dequeue_none : (f : F) {f' : F} → ck.dequeue f ≡ (none, f') → contents f ≡ []

-- The queue at `p` holds just the value in block `v`, with the bytes `e`.
record Holding {F : Type 0} {ck : CkFifoSpsc F} (laws : CkFifoSpscLaws ck) (i p v : ℕ) (e : List ℕ)
    (w : World F) : Type 0 where
  object : Object F
  there : w.objects p ≡ some object
  contents : laws.contents object.value ≡ v ∷ []
  cell : w.mem.cell v ≡ some e
  checked : checkcookie "fifo.spsc" i w ≡ cookie p

-- One value has gone through the queue at `p`, and its block, which was not there before, is freed.
pub record Through {F : Type 0} {ck : CkFifoSpsc F} (laws : CkFifoSpscLaws ck) (rt : Runtime)
    (i p : ℕ) (x : Value) (w : World F) : Type 0 where
  pub between : World F
  pub after : World F
  pub object : Object F
  pub block : ℕ
  pub enqueued : l_ck_fifo_spsc_enqueue ck rt i x w ≡ (values [], between)
  pub dequeued : l_ck_fifo_spsc_dequeue ck rt i between ≡ (answer_value rt x, after)
  pub there : after.objects p ≡ some object
  pub contents : laws.contents object.value ≡ []
  pub unused : w.mem.cell block ≡ none
  pub used : (e : List ℕ) × (between.mem.cell block ≡ some e)
  pub freed : after.mem.cell block ≡ none

==_gt : (a b : ℕ) → b < a → (a == b) ≡ false
==_gt a b h = ground arith

cons-ne-nil {ℓ} : {A : Type ℓ} {v : ℕ} {vs : List ℕ} → v ∷ vs ≡ [] → A
cons-ne-nil h = absurd cc

one_element : {a b : ℕ} {bs : List ℕ} → a ∷ [] ≡ b ∷ bs → (b ≡ a) × (bs ≡ [])
one_element h = (cc, cc)

module _ {F : Type 0} {ck : CkFifoSpsc F} (laws : CkFifoSpscLaws ck) (rt : Runtime) (i p : ℕ) where
  -- the enqueue, by the entry that is recycled
  push-Holding :
      (w : World F) (o : Object F) (e : List ℕ) (m : Mem) (entry : Option ℕ × F)
      → laws.contents entry.1 ≡ []
      → checkcookie "fifo.spsc" i w ≡ cookie p
      → m.cell ≡ update w.mem.cell w.mem.tick (some e)
      → w.mem.tick < m.tick
      → granted ck.sizeof_entry m ≡ true
      → (w' : World F) × (push_recycled ck rt p o w w.mem.tick m entry ≡ (values [], w'))
        × Holding laws i p w.mem.tick e w'
  unfolding push_recycled with_entry
  push-Holding w o e m (some entry, f) empty c h l grant = (
    _,
    refl,
    record {
      object = record o { value = ck.enqueue f entry w.mem.tick };
      there = put_self w.objects p _;
      contents = laws.enqueue_law f entry w.mem.tick ∙ ap (λ l. l ++ (w.mem.tick ∷ [])) empty;
      cell = rw (h, ==_self w.mem.tick) refl;
      checked = checkcookie-handles "fifo.spsc" i w _ refl ∙ c;
    },
  )
  push-Holding w o e m (none, f) empty c h l grant = rw (malloc-granted ck.sizeof_entry m grant) (
    _,
    refl,
    record {
      object = record o { value = ck.enqueue f m.tick w.mem.tick };
      there = put_self w.objects p _;
      contents = laws.enqueue_law f m.tick w.mem.tick ∙ ap (λ l. l ++ (w.mem.tick ∷ [])) empty;
      cell = rw (==_gt m.tick w.mem.tick l, h, ==_self w.mem.tick) refl;
      checked = checkcookie-handles "fifo.spsc" i w _ refl ∙ c;
    },
  )

  -- the dequeue, by what comes out of the queue
  pop-Through :
      (x : Value) (v : ℕ) (e : List ℕ) (w w' : World F) (h : Holding laws i p v e w')
      (d : Option ℕ × F)
      → encode rt.lua x ≡ some e
      → IsLoadable rt.lua x
      → w.mem.cell v ≡ none
      → l_ck_fifo_spsc_enqueue ck rt i x w ≡ (values [], w')
      → ck.dequeue h.object.value ≡ d
      → l_ck_fifo_spsc_dequeue ck rt i w' ≡ pop_spsc ck rt p h.object w' d
      → Through laws rt i p x w
  unfolding pop_spsc take_value free
  pop-Through x v e w w' h (none, f) enc load unused q k r =
      cons-ne-nil (sym h.contents ∙ laws.dequeue_none h.object.value k)
  pop-Through x v e w w' h (some v', f) enc load unused q k r =
      let (same, rest) = one_element (sym h.contents ∙ laws.dequeue_law h.object.value k) in
      record {
        between = w';
        after = (pop_spsc ck rt p h.object w' (some v', f)).1;
        object = record (h.object) { value = f };
        block = v;
        enqueued = q;
        dequeued =
            r
            ∙ ap (λ a. (a, (pop_spsc ck rt p h.object w' (some v', f)).1))
                (ap (load_block rt) (ap w'.mem.cell same ∙ h.cell)
                  ∙ answer_encoded rt x e enc load);
        there = put_self w'.objects p _;
        contents = rest;
        unused = unused;
        used = (e, h.cell);
        freed = rw (same, ==_self v) refl;
      }

  Stored-Through :
      (x : Value) (e : List ℕ) (w : World F) (o : Object F) (m : Marshalled × Mem)
      → encode rt.lua x ≡ some e
      → IsLoadable rt.lua x
      → IsFresh w.mem
      → ((n : ℕ) → w.mem.tick ≤ n → w.mem.grants n ≡ true)
      → ck.sizeof_entry ≤ size_limit
      → checkcookie "fifo.spsc" i w ≡ cookie p
      → laws.contents o.value ≡ []
      → l_ck_fifo_spsc_enqueue ck rt i x w
        ≡ with_marshalled w m (λ v m. push_recycled ck rt p o w v m (ck.recycle o.value))
      → Stored w.mem e m
      → Through laws rt i p x w
  unfolding with_marshalled l_ck_fifo_spsc_dequeue
  Stored-Through x e w o _ enc load fresh grants small c empty q (kept {m' = m} a l h) =
      let (w', pushed, holding) =
        push-Holding w o e m (ck.recycle o.value) (laws.recycle_law o.value ∙ empty) c h l
          (granted-Advanced ck.sizeof_entry w.mem m a grants small) in
      pop-Through x w.mem.tick e w w' holding _ enc load (fresh w.mem.tick (omega arith))
        (q ∙ pushed) refl
        (with_object-open "fifo.spsc" i p w' holding.object _ holding.checked holding.there)

  -- A value goes through an empty spsc queue: the enqueue answers nothing, the dequeue after it answers
  -- the value as the reading state sees it (or an error, if the uninitialised `env` of `loadshared` is
  -- true), the queue is empty again, and the block that held the value is freed. The value has no
  -- custom serde and can be loaded back, and the allocator grants every request.
  pub l_ck_fifo_spsc_dequeue-l_ck_fifo_spsc_enqueue :
      (x : Value) (e : List ℕ) (w : World F) (o : Object F)
      → IsMd rt.md
      → IsPlain x
      → IsSmall rt.lua x
      → IsLoadable rt.lua x
      → encode rt.lua x ≡ some e
      → IsFresh w.mem
      → IsRoomy rt.md w.mem x e
      → ck.sizeof_entry ≤ size_limit
      → checkcookie "fifo.spsc" i w ≡ cookie p
      → w.objects p ≡ some o
      → laws.contents o.value ≡ []
      → Through laws rt i p x w
  unfolding l_ck_fifo_spsc_enqueue
  l_ck_fifo_spsc_dequeue-l_ck_fifo_spsc_enqueue x e w o good plain small load enc fresh room entry c
        here empty =
      Stored-Through x e w o _ enc load fresh room.granting entry c empty
        (with_object-open "fifo.spsc" i p w o _ c here)
        (marshal_total good rt.lua rt.custom x e w.mem plain small fresh enc room)
