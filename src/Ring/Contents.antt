-- ===== src/Ring/Contents.antt =====
-- What Concurrency Kit promises of a ring that one thread uses at a time, and what a ring holds.
use flua_ck.Base.{
  ℕ, ◌+◌, ◌^◌, ◌≤◌, ◌≡◌, ap, inl, inr, arith, Bool-cases, true, false, Option, none, some, List, [],
  ◌∷◌, ◌++◌, ◌==◌, suc, refl, length, if◌then◌else◌,
}
use flua_ck.Handle.{Object, World}
use flua_ck.Memory.{update, IsFresh}
use flua_ck.Ring.{Kind, CkRing, RcRing}

-- ck_ring(3): the ring is a queue of addresses. An enqueue that fails, and a dequeue that finds
-- nothing, leave the queue as it was. A ring of capacity n takes n - 1
-- addresses, and an enqueue fails only on a full one; a dequeue by `ck_ring_dequeue` fails only on an empty ring.
-- ck_ring_trydequeue may fail at any time. The size of a ring is a power of two, and at least 4.
pub record CkRingLaws {R : Type 0} (ck : CkRing R) : Type 0 where
  pub contents : R → List ℕ
  pub init_law : (k : ℕ) → contents (ck.init (2 ^ (k + 2))) ≡ []
  pub enqueue_law :
      (kind : Kind) (r : R) (b : ℕ)
      → contents (ck.enqueue kind r b).2
        ≡ (if (ck.enqueue kind r b).0 then contents r ++ (b ∷ []) else contents r)
  pub enqueue_full :
      (kind : Kind) (r : R) (b : ℕ)
      → (ck.enqueue kind r b).0 ≡ false
      → length (contents r) + 1 ≡ ck.capacity r
  pub dequeue_law :
      (kind : Kind) (r : R) {b : ℕ} {r' : R}
      → ck.dequeue kind r ≡ (some b, r')
      → contents r ≡ b ∷ contents r'
  pub dequeue_none :
      (kind : Kind) (r : R) {r' : R}
      → ck.dequeue kind r ≡ (none, r')
      → (contents r ≡ []) × (contents r' ≡ [])
  pub trydequeue_law :
      (kind : Kind) (r : R) {b : ℕ} {r' : R}
      → ck.trydequeue kind r ≡ (some b, r')
      → contents r ≡ b ∷ contents r'
  pub trydequeue_none :
      (kind : Kind) (r : R) {r' : R} → ck.trydequeue kind r ≡ (none, r') → contents r' ≡ contents r

pub data Apart (q : ℕ) : List ℕ → Type 0 where
  alone : Apart q []
  beside : {b : ℕ} {bs : List ℕ} → (q == b) ≡ false → Apart q bs → Apart q (b ∷ bs)

-- The blocks are distinct, and hold the bytes.
pub data Holds (f : ℕ → Option (List ℕ)) : List ℕ → List (List ℕ) → Type 0 where
  nothing : Holds f [] []
  holding :
      {b : ℕ} {bs : List ℕ} {e : List ℕ} {es : List (List ℕ)}
      → f b ≡ some e
      → Apart b bs
      → Holds f bs es
      → Holds f (b ∷ bs) (e ∷ es)

eq_of_test : (a b : ℕ) → (a == b) ≡ true → a ≡ b
eq_of_test a b h = ground arith

test_comm : (a b : ℕ) → (a == b) ≡ false → (b == a) ≡ false
test_comm a b h = ground arith

module _ {f : ℕ → Option (List ℕ)} where
  pub Holds-update :
      {bs : List ℕ} {es : List (List ℕ)} {q : ℕ} (v : Option (List ℕ))
      → Apart q bs
      → Holds f bs es
      → Holds (update f q v) bs es
  Holds-update v a nothing = nothing
  Holds-update v (beside n a) (holding h d hs) = holding (rw n h) d (Holds-update v a hs)

  -- An empty cell is none of the blocks.
  pub Holds-Apart :
      {bs : List ℕ} {es : List (List ℕ)} (q : ℕ) → f q ≡ none → Holds f bs es → Apart q bs
  Holds-Apart q n nothing = alone
  Holds-Apart q n (holding {b = b} h d hs) =
      beside
        (elim (Bool-cases (q == b)) [
          | inl s ↦ absurd (let same = ap f (eq_of_test q b s) in cc)
          | inr s ↦ s
        ])
        (Holds-Apart q n hs)

pub Holds-length :
    {f : ℕ → Option (List ℕ)} {bs : List ℕ} {es : List (List ℕ)}
    → Holds f bs es
    → length bs ≡ length es
Holds-length nothing = refl
Holds-length (holding h d hs) = ap suc (Holds-length hs)

Apart-append :
    {b : ℕ} {bs : List ℕ} (q : ℕ) → Apart b bs → (b == q) ≡ false → Apart b (bs ++ (q ∷ []))
Apart-append q alone n = beside n alone
Apart-append q (beside m a) n = beside m (Apart-append q a n)

-- A block put at the end
pub Holds-snoc :
    {f : ℕ → Option (List ℕ)} {bs : List ℕ} {es : List (List ℕ)} {q : ℕ} {e : List ℕ}
    → f q ≡ some e
    → Apart q bs
    → Holds f bs es
    → Holds f (bs ++ (q ∷ [])) (es ++ (e ∷ []))
Holds-snoc h a nothing = holding h alone nothing
Holds-snoc {q = q} h (beside {b = b} n a) (holding k d hs) =
    holding k (Apart-append q d (test_comm q b n)) (Holds-snoc h a hs)

-- The object at `p` is a ring with the blocks `bs`, which hold the serialized values `es`.
pub record Represents {R : Type 0} {ck : CkRing R} (laws : CkRingLaws ck) (w : World (RcRing R))
    (p : ℕ) (bs : List ℕ) (es : List (List ℕ)) : Type 0 where
  pub object : Object (RcRing R)
  pub there : w.objects p ≡ some object
  pub blocks : laws.contents object.value.ring ≡ bs
  pub holds : Holds w.mem.cell bs es
  pub fresh : IsFresh w.mem

-- A step from `w` to `w'` that leaves the ring with `bs` and `es`, and every userdata as it was.
pub record Leaves {R : Type 0} {ck : CkRing R} (laws : CkRingLaws ck) (w w' : World (RcRing R))
    (p : ℕ) (bs : List ℕ) (es : List (List ℕ)) : Type 0 where
  pub represents : Represents laws w' p bs es
  pub handles : w'.handles ≡ w.handles
  pub grants : w'.mem.grants ≡ w.mem.grants
  pub later : w.mem.tick ≤ w'.mem.tick
