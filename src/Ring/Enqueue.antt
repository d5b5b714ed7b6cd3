-- ===== src/Ring/Enqueue.antt =====
-- What the enqueue functions of ring.c do to a ring, on all of their paths.
use flua_ck.Base.{
  ℕ, ◌+◌, ◌≤◌, ◌<◌, ◌≡◌, ap, refl, length, ==_self, ◌∙◌, ◌≢◌, Bool, true, false, Option, none, some,
  List, [], ◌∷◌, ◌++◌, arith, ==_ne,
}
use flua_ck.Handle.{Object, World, Answer, values, raises, fatal_error, checkcookie, cookie}
use flua_ck.Handle.Methods.{put_self, with_object-open}
use flua_ck.Marshal.{Source, from_finalize, Marshalled}
use flua_ck.Marshal.Cases.{
  Advanced, Refused, Cases, stored, rejected, denied, leaked, marshal-Cases,
}
use flua_ck.Memory.{Mem, update, IsFresh, free, update-update, update-none}
use flua_ck.Ring.{
  Kind, metatable, CkRing, RcRing, with_ring, pushed_block, push_marshalled, enqueue,
}
use flua_ck.Ring.Contents.{
  CkRingLaws, Holds-update, Holds-Apart, Holds-snoc, Holds-length, Represents, Leaves,
}
use flua_ck.Serdebuf.{einval, enomem}
use flua_ck.Serdebuf.Bounds.{IsMd}
use flua_ck.Serialize.Format.{encode, IsPlain, IsSmall}
use flua_ck.Transport.{Runtime}
use flua_ck.Value.{Value, boolean, integer}

-- What an enqueue may answer for a value with the format `spec`, and the ring and the blocks then.
pub data Enqueued {R : Type 0} {ck : CkRing R} (laws : CkRingLaws ck) (rt : Runtime) (v : Value)
    (w : World (RcRing R)) (p : ℕ) (bs : List ℕ) (es : List (List ℕ))
    : Option (List ℕ) → Answer × World (RcRing R) → Type 0 where
  appended :
      {e : List ℕ} {size : ℕ} {w' : World (RcRing R)}
      → Leaves laws w w' p (bs ++ (w.mem.tick ∷ [])) (es ++ (e ∷ []))
      → w'.mem.cell ≡ update w.mem.cell w.mem.tick (some e)
      → Enqueued laws rt v w p bs es (some e) (values (boolean true ∷ integer size ∷ []), w')
  full :
      {e : List ℕ} {size : ℕ} {w' : World (RcRing R)}
      → (o : Object (RcRing R)) × (w.objects p ≡ some o)
        × (length es + 1 ≡ ck.capacity o.value.ring)
      → Leaves laws w w' p bs es
      → w'.mem.cell ≡ w.mem.cell
      → Enqueued laws rt v w p bs es (some e) (values (boolean false ∷ integer size ∷ []), w')
  invalid :
      {src : Source} {w' : World (RcRing R)}
      → Leaves laws w w' p bs es
      → w'.mem.cell ≡ w.mem.cell
      → Enqueued laws rt v w p bs es none (raises (fatal_error src einval), w')
  no_memory :
      {spec : Option (List ℕ)} {src : Source} {w' : World (RcRing R)}
      → src ≢ from_finalize
      → Refused rt.md w.mem v spec
      → Leaves laws w w' p bs es
      → w'.mem.cell ≡ w.mem.cell
      → Enqueued laws rt v w p bs es spec (raises (fatal_error src enomem), w')
  lost :
      {e : List ℕ} {w' : World (RcRing R)}
      → ((n : ℕ) × (w.mem.tick ≤ n) × (w.mem.grants n ≡ false))
      → Leaves laws w w' p bs es
      → w'.mem.cell ≡ update w.mem.cell w.mem.tick (some [])
      → Enqueued laws rt v w p bs es (some e) (raises (fatal_error from_finalize enomem), w')

-- The block that a request returned is not given out again.
IsFresh-update :
    (m m' : Mem) (v : Option (List ℕ))
    → IsFresh m
    → m.tick < m'.tick
    → m'.cell ≡ update m.cell m.tick v
    → IsFresh m'
IsFresh-update m m' v fresh l h q le = rw (h, ==_ne m.tick q (omega arith)) (fresh q (omega arith))

IsFresh-same : (m m' : Mem) → IsFresh m → m.tick ≤ m'.tick → m'.cell ≡ m.cell → IsFresh m'
IsFresh-same m m' fresh l h q le = rw h (fresh q (omega arith))

module _ {R : Type 0} {ck : CkRing R} (laws : CkRingLaws ck) (rt : Runtime) (kind : Kind)
    (v : Value) (w : World (RcRing R)) (p : ℕ) (bs : List ℕ) (es : List (List ℕ))
    (r : Represents laws w p bs es) where
  unchanged :
      (m : Mem)
      → Advanced w.mem m
      → m.cell ≡ w.mem.cell
      → Leaves laws w (record w { mem = m }) p bs es
  unchanged m a h = record {
    represents = record {
      object = r.object;
      there = r.there;
      blocks = r.blocks;
      holds = rw h (r.holds);
      fresh = IsFresh-same w.mem m r.fresh a.later h;
    };
    handles = refl;
    grants = a.grants;
    later = a.later;
  }

  empty : w.mem.cell w.mem.tick ≡ none
  empty = r.fresh w.mem.tick (omega arith)

  -- A block that is not in the ring changes nothing for the ring.
  with_block :
      (m : Mem) (e : List ℕ)
      → Advanced w.mem m
      → w.mem.tick < m.tick
      → m.cell ≡ update w.mem.cell w.mem.tick (some e)
      → Leaves laws w (record w { mem = m }) p bs es
  with_block m e a l h = record {
    represents = record {
      object = r.object;
      there = r.there;
      blocks = r.blocks;
      holds = rw h (Holds-update (some e) (Holds-Apart w.mem.tick empty r.holds) r.holds);
      fresh = IsFresh-update w.mem m (some e) r.fresh l h;
    };
    handles = refl;
    grants = a.grants;
    later = a.later;
  }

  freed :
      (m : Mem) (e : List ℕ)
      → m.cell ≡ update w.mem.cell w.mem.tick (some e)
      → (free (some w.mem.tick) m).cell ≡ w.mem.cell
  unfolding free
  freed m e h =
      rw (h, update-update w.mem.cell w.mem.tick (some e) none)
        (update-none w.mem.cell w.mem.tick empty)

  pushed-Enqueued :
      (m : Mem) (e : List ℕ) (pushed : Bool × ℕ × R)
      → ck.enqueue kind r.object.value.ring w.mem.tick ≡ pushed
      → Advanced w.mem m
      → w.mem.tick < m.tick
      → m.cell ≡ update w.mem.cell w.mem.tick (some e)
      → Enqueued laws rt v w p bs es (some e) (pushed_block ck rt w.mem.tick p r.object w m pushed)
  unfolding pushed_block free
  pushed-Enqueued m e (true, size, ring) q a l h =
      appended
        (record {
          represents = record {
            object = record (r.object) { value = record (r.object.value) { ring = ring } };
            there = put_self w.objects p _;
            blocks =
                rw q at (laws.enqueue_law kind r.object.value.ring w.mem.tick)
                ∙ ap (λ l. l ++ (w.mem.tick ∷ [])) r.blocks;
            holds = rw h (
                Holds-snoc (rw (==_self w.mem.tick) refl) (Holds-Apart w.mem.tick empty r.holds)
                  (Holds-update (some e) (Holds-Apart w.mem.tick empty r.holds) r.holds));
            fresh = IsFresh-update w.mem m (some e) r.fresh l h;
          };
          handles = refl;
          grants = a.grants;
          later = a.later;
        })
        h
  pushed-Enqueued m e (false, size, ring) q a l h =
      full
        (
          r.object,
          r.there,
          rw (← Holds-length r.holds, ← r.blocks)
              (laws.enqueue_full kind r.object.value.ring w.mem.tick (rw q refl)),
        )
        (record {
          represents = record {
            object = record (r.object) { value = record (r.object.value) { ring = ring } };
            there = put_self w.objects p _;
            blocks = rw q at (laws.enqueue_law kind r.object.value.ring w.mem.tick) ∙ r.blocks;
            holds = rw (freed m e h) (r.holds);
            fresh =
                IsFresh-same w.mem (free (some w.mem.tick) m) r.fresh (omega arith) (freed m e h);
          };
          handles = refl;
          grants = a.grants;
          later = a.later;
        })
        (freed m e h)

  marshalled-Enqueued :
      (spec : Option (List ℕ)) (m : Marshalled × Mem)
      → Cases rt.md v w.mem spec m
      → Enqueued laws rt v w p bs es spec (push_marshalled ck rt kind p r.object w m)
  unfolding push_marshalled
  marshalled-Enqueued _ _ (stored {e = e} {m' = m} a l h) = pushed-Enqueued m e _ refl a l h
  marshalled-Enqueued _ _ (rejected {m' = m} a h) = invalid (unchanged m a h) h
  marshalled-Enqueued _ _ (denied {m' = m} n why a h) = no_memory n why (unchanged m a h) h
  marshalled-Enqueued _ _ (leaked {m' = m} why a l h) = lost why (with_block m [] a l h) h

module _ {R : Type 0} {ck : CkRing R} (laws : CkRingLaws ck) (rt : Runtime)
    (good : IsMd rt.md) where
  -- An enqueue of a value with no custom serde, on a checked ring with blocks `bs` that hold `es`, has
  -- one of these outcomes. The value's bytes are in one new block at the end of the ring, `true`. The
  -- ring was full, `false`. The value has no format, EINVAL. The allocator refused a request or the
  -- value is too large, ENOMEM. On these, no other block comes or goes. Or `serdebuf_finalize` failed,
  -- ENOMEM, and one new block is left that is not in the ring.
  pub enqueue-Enqueued :
      (kind : Kind) (i p : ℕ) (v : Value) (w : World (RcRing R)) (bs : List ℕ) (es : List (List ℕ))
      → IsPlain v
      → IsSmall rt.lua v
      → checkcookie (metatable kind) i w ≡ cookie p
      → Represents laws w p bs es
      → Enqueued laws rt v w p bs es (encode rt.lua v) (enqueue ck rt kind i v w)
  unfolding enqueue with_ring
  enqueue-Enqueued kind i p v w bs es plain small c r =
      rw (with_object-open (metatable kind) i p w r.object _ c r.there) (
        marshalled-Enqueued laws rt kind v w p bs es r (encode rt.lua v) _
          (marshal-Cases good rt.lua rt.custom v w.mem plain small r.fresh))
