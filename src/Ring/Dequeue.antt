-- ===== src/Ring/Dequeue.antt =====
-- What the dequeue functions of ring.c take out of a ring, and what becomes of its block.
use flua_ck.Base.{
  ℕ, ◌⊎◌, ◌≡◌, refl, sym, ◌∙◌, false, Option, none, some, List, [], ◌∷◌, arith, Bool-cases, inl,
  inr, ◌==◌,
}
use flua_ck.Handle.{Object, World, Answer, values, checkcookie, cookie}
use flua_ck.Handle.Methods.{put_self, with_object-open}
use flua_ck.Load.RoundTrip.{IsLoadable}
use flua_ck.Memory.{Mem, IsFresh, free}
use flua_ck.Ring.{Kind, metatable, CkRing, RcRing, with_ring, pop_block, dequeue, trydequeue}
use flua_ck.Ring.Contents.{CkRingLaws, Holds, holding, nothing, Holds-update, Represents, Leaves}
use flua_ck.Serialize.Format.{encode}
use flua_ck.Transport.Encoded.{answer_value, answer_encoded}
use flua_ck.Transport.{Runtime, take_value}
use flua_ck.Value.{Value, boolean}

-- The oldest value is answered, its block is freed, and the others are left.
pub data Taken {R : Type 0} {ck : CkRing R} (laws : CkRingLaws ck) (w : World (RcRing R)) (p b : ℕ)
    (bs : List ℕ) (e : List ℕ) (es : List (List ℕ)) (answer : Answer)
    : Answer × World (RcRing R) → Type 0 where
  taken :
      {w' : World (RcRing R)}
      → w.mem.cell b ≡ some e
      → w'.mem ≡ free (some b) w.mem
      → Leaves laws w w' p bs es
      → Taken laws w p b bs e es answer (answer, w')

-- Nothing came out.
pub data Missed {R : Type 0} {ck : CkRing R} (laws : CkRingLaws ck) (w : World (RcRing R)) (p : ℕ)
    (bs : List ℕ) (es : List (List ℕ)) : Answer × World (RcRing R) → Type 0 where
  missed :
      {w' : World (RcRing R)}
      → w'.mem ≡ w.mem
      → Leaves laws w w' p bs es
      → Missed laws w p bs es (values (boolean false ∷ []), w')

IsFresh-free : (m : Mem) (b : ℕ) → IsFresh m → IsFresh (free (some b) m)
unfolding free
IsFresh-free m b fresh q l = elim (Bool-cases (b == q)) [
  | inl s ↦ rw s refl
  | inr s ↦ rw s (fresh q l)
]

module _ {a b : ℕ} {xs ys : List ℕ} where
  cons_head : a ∷ xs ≡ b ∷ ys → a ≡ b
  cons_head h = cc

  cons_tail : a ∷ xs ≡ b ∷ ys → xs ≡ ys
  cons_tail h = cc

cons-ne-nil {ℓ} : {A : Type ℓ} {a : ℕ} {xs : List ℕ} → a ∷ xs ≡ [] → A
cons-ne-nil h = absurd cc

module _ {R : Type 0} {ck : CkRing R} (laws : CkRingLaws ck) (rt : Runtime) (w : World (RcRing R))
    (p : ℕ) where
  Taken-block :
      (v : Value) (e : List ℕ) (es : List (List ℕ)) (o : Object (RcRing R)) (b : ℕ) (ring : R)
      (bs : List ℕ)
      → encode rt.lua v ≡ some e
      → IsLoadable rt.lua v
      → IsFresh w.mem
      → laws.contents ring ≡ bs
      → Holds w.mem.cell (b ∷ bs) (e ∷ es)
      → Taken laws w p b bs e es (answer_value rt v) (pop_block ck rt p o w (some b, ring))
  unfolding pop_block take_value free
  Taken-block v e es o b ring bs h l fresh c (holding cell apart hs) =
      rw (cell, answer_encoded rt v e h l)
        (taken cell refl (record {
          represents = record {
            object = record o { value = record (o.value) { ring = ring } };
            there = put_self w.objects p _;
            blocks = c;
            holds = Holds-update none apart hs;
            fresh = IsFresh-free w.mem b fresh;
          };
          handles = refl;
          grants = refl;
          later = omega arith;
        }))

  Taken-some :
      (v : Value) (b : ℕ) (bs : List ℕ) (e : List ℕ) (es : List (List ℕ)) (o : Object (RcRing R))
      (c : ℕ) (ring : R)
      → encode rt.lua v ≡ some e
      → IsLoadable rt.lua v
      → IsFresh w.mem
      → b ∷ bs ≡ c ∷ laws.contents ring
      → Holds w.mem.cell (b ∷ bs) (e ∷ es)
      → Taken laws w p b bs e es (answer_value rt v) (pop_block ck rt p o w (some c, ring))
  Taken-some v b bs e es o c ring h l fresh q hs =
      rw (← cons_head q) (Taken-block v e es o b ring bs h l fresh (sym (cons_tail q)) hs)

  Missed-block :
      (bs : List ℕ) (es : List (List ℕ)) (o : Object (RcRing R)) (ring : R)
      → IsFresh w.mem
      → laws.contents ring ≡ bs
      → Holds w.mem.cell bs es
      → Missed laws w p bs es (pop_block ck rt p o w (none, ring))
  unfolding pop_block
  Missed-block bs es o ring fresh c hs = missed refl (record {
    represents = record {
      object = record o { value = record (o.value) { ring = ring } };
      there = put_self w.objects p _;
      blocks = c;
      holds = hs;
      fresh = fresh;
    };
    handles = refl;
    grants = refl;
    later = omega arith;
  })

module _ {R : Type 0} {ck : CkRing R} (laws : CkRingLaws ck) (rt : Runtime) (kind : Kind) (i p : ℕ)
    (w : World (RcRing R)) (open_ring : checkcookie (metatable kind) i w ≡ cookie p) where
  -- A dequeue from a ring that is not empty answers the oldest value as the reading state sees it,
  -- takes it out of the ring, and frees its block and no other; if the uninitialised `env` of
  -- `loadshared` is true, the answer is an error instead. The value can be loaded back.
  pub dequeue-first :
      (v : Value) (b : ℕ) (bs : List ℕ) (e : List ℕ) (es : List (List ℕ))
      → encode rt.lua v ≡ some e
      → IsLoadable rt.lua v
      → Represents laws w p (b ∷ bs) (e ∷ es)
      → Taken laws w p b bs e es (answer_value rt v) (dequeue ck rt kind i w)
  unfolding dequeue with_ring
  dequeue-first v b bs e es h l r =
      rw (with_object-open (metatable kind) i p w r.object _ open_ring r.there)
        (split (ck.dequeue kind r.object.value.ring) refl)
    where
      split :
          (d : Option ℕ × R)
          → ck.dequeue kind r.object.value.ring ≡ d
          → Taken laws w p b bs e es (answer_value rt v) (pop_block ck rt p r.object w d)
      split (none, ring) q =
          cons-ne-nil (sym r.blocks ∙ (laws.dequeue_none kind r.object.value.ring q).0)
      split (some c, ring) q =
          Taken-some laws rt w p v b bs e es r.object c ring h l r.fresh
            (sym r.blocks ∙ laws.dequeue_law kind r.object.value.ring q) r.holds

  -- A dequeue from an empty ring answers false, and the ring, the memory and the userdata stay as
  -- they were.
  pub dequeue_empty : Represents laws w p [] [] → Missed laws w p [] [] (dequeue ck rt kind i w)
  unfolding dequeue with_ring
  dequeue_empty r =
      rw (with_object-open (metatable kind) i p w r.object _ open_ring r.there)
        (split (ck.dequeue kind r.object.value.ring) refl)
    where
      split :
          (d : Option ℕ × R)
          → ck.dequeue kind r.object.value.ring ≡ d
          → Missed laws w p [] [] (pop_block ck rt p r.object w d)
      split (none, ring) q =
          Missed-block laws rt w p [] [] r.object ring r.fresh
            (laws.dequeue_none kind r.object.value.ring q).1 nothing
      split (some b, ring) q =
          cons-ne-nil (sym (laws.dequeue_law kind r.object.value.ring q) ∙ r.blocks)

  -- A trydequeue from a ring that is not empty does what a dequeue does, or answers false and leaves
  -- the ring, the memory and the userdata as they were.
  pub trydequeue-first :
      (v : Value) (b : ℕ) (bs : List ℕ) (e : List ℕ) (es : List (List ℕ))
      → encode rt.lua v ≡ some e
      → IsLoadable rt.lua v
      → Represents laws w p (b ∷ bs) (e ∷ es)
      → Taken laws w p b bs e es (answer_value rt v) (trydequeue ck rt kind i w)
        ⊎ Missed laws w p (b ∷ bs) (e ∷ es) (trydequeue ck rt kind i w)
  unfolding trydequeue with_ring
  trydequeue-first v b bs e es h l r =
      rw (with_object-open (metatable kind) i p w r.object _ open_ring r.there)
        (split (ck.trydequeue kind r.object.value.ring) refl)
    where
      split :
          (d : Option ℕ × R)
          → ck.trydequeue kind r.object.value.ring ≡ d
          → Taken laws w p b bs e es (answer_value rt v) (pop_block ck rt p r.object w d)
            ⊎ Missed laws w p (b ∷ bs) (e ∷ es) (pop_block ck rt p r.object w d)
      split (none, ring) q = inr (
          Missed-block laws rt w p (b ∷ bs) (e ∷ es) r.object ring r.fresh
            (laws.trydequeue_none kind r.object.value.ring q ∙ r.blocks) r.holds)
      split (some c, ring) q = inl (
          Taken-some laws rt w p v b bs e es r.object c ring h l r.fresh
            (sym r.blocks ∙ laws.trydequeue_law kind r.object.value.ring q) r.holds)
