-- ===== src/Ring/Lifetime.antt =====
-- The first and the last of a ring of ring.c: `newring` and the last `releasering`.
use text.Mathlib.Text.{◌==◌ as str_eq}
use flua_ck.Base.{
  ℕ, ◌+◌, ◌*◌, ◌%◌, ◌^◌, ◌≤◌, ◌<◌, ◌≡◌, refl, inl, inr, true, false, none, some, List, [], arith,
  ==_ne, Bool-cases, length,
}
use flua_ck.Handle.{
  World, Answer, userdata, raises, fatal_error, check_cookie, checkcookie_of, checkcookie, cookie,
  create, new, refcount_init,
}
use flua_ck.Handle.Methods.{put_self, get_elem?-snoc}
use flua_ck.Handle.Twice.{release_last}
use flua_ck.Marshal.{from_malloc}
use flua_ck.Memory.{
  Mem, granted, update, IsFresh, free, malloc, malloc-granted, malloc-refused, update-update,
  update-none,
}
use flua_ck.Ring.{
  Kind, spsc, mpmc, spmc, mpsc, metatable, CkRing, RcRing, made_buffer, made_ring, newring,
  free_ring, releasering,
}
use flua_ck.Ring.Contents.{CkRingLaws, Apart, Holds, nothing, Holds-update, Represents}
use flua_ck.Serdebuf.{enomem}

same_metatable : (kind : Kind) → str_eq (metatable kind) (metatable kind) ≡ true
unfolding metatable
same_metatable spsc = refl
same_metatable mpmc = refl
same_metatable spmc = refl
same_metatable mpsc = refl

-- What `newring` may do.
pub data Made {R : Type 0} {ck : CkRing R} (laws : CkRingLaws ck) (kind : Kind)
    (w : World (RcRing R)) : Answer × World (RcRing R) → Type 0 where
  made :
      {p : ℕ} {w' : World (RcRing R)}
      → w.mem.cell p ≡ none
      → checkcookie (metatable kind) (length w.handles) w' ≡ cookie p
      → (r : Represents laws w' p [] []) → r.object.refs ≡ 1
      → Made laws kind w (userdata (length w.handles), w')
  no_memory :
      {w' : World (RcRing R)}
      → (n : ℕ) × (w.mem.tick ≤ n)
        × (n < w'.mem.tick)
        × (size : ℕ) × (granted size (record (w.mem) { tick = n }) ≡ false)
      → w'.mem.cell ≡ w.mem.cell
      → w'.objects ≡ w.objects
      → w'.handles ≡ w.handles
      → Made laws kind w (raises (fatal_error from_malloc enomem), w')

module _ {R : Type 0} {ck : CkRing R} (laws : CkRingLaws ck) (kind : Kind) (w : World (RcRing R))
    (fresh : IsFresh w.mem) (k : ℕ) where
  -- the second request of `newring`, after the struct has its block
  buffer-Made :
      (m : Mem)
      → m.cell ≡ update w.mem.cell w.mem.tick (some [])
      → m.tick ≡ w.mem.tick + 1
      → m.grants ≡ w.mem.grants
      → Made laws kind w
          (made_buffer ck kind (2 ^ (k + 2)) w.mem.tick w (malloc (8 * 2 ^ (k + 2) % 2 ^ 64) m))
  unfolding made_buffer create new checkcookie checkcookie_of check_cookie free
  buffer-Made m h t g = elim (Bool-cases (granted (8 * 2 ^ (k + 2) % 2 ^ 64) m)) [
    | inl q ↦ rw (malloc-granted _ m q) (
        made (fresh w.mem.tick (omega arith))
          (rw (get_elem?-snoc w.handles _, same_metatable kind) refl)
          (record {
            object = record {
              value = record { ring = ck.init (2 ^ (k + 2)); buffer = m.tick };
              refs = refcount_init;
            };
            there = put_self w.objects w.mem.tick _;
            blocks = laws.init_law k;
            holds = nothing;
            fresh = λ q l.
                rw (==_ne m.tick q (omega arith), h, ==_ne w.mem.tick q (omega (arith, t)))
                  (fresh q (omega (arith, t)));
          })
          refl)
    | inr q ↦ rw (malloc-refused _ m q) (
        no_memory (m.tick, omega (arith, t), omega arith, 8 * 2 ^ (k + 2) % 2 ^ 64, rw g at q)
          (rw (h, update-update w.mem.cell w.mem.tick (some []) none)
            (update-none w.mem.cell w.mem.tick (fresh w.mem.tick (omega arith))))
          refl refl)
  ]

  -- For a size that is a power of two, at least 4, and fits 32 bits, `newring` makes an empty ring
  -- with the count 1 in a new block and a userdata whose cookie is its address; or it raises ENOMEM,
  -- one of its two requests was refused, and no block, struct or userdata has come or gone.
  newring-Made : 2 ^ (k + 2) < 2 ^ 32 → Made laws kind w (newring ck kind (2 ^ (k + 2)) w)
  unfolding newring made_ring
  newring-Made small = elim (Bool-cases (granted ck.sizeof_rcring w.mem)) [
    | inr q ↦
        rw (malloc-refused ck.sizeof_rcring w.mem q)
          (no_memory (w.mem.tick, omega arith, omega arith, ck.sizeof_rcring, q) refl refl refl)
    | inl q ↦ rw (malloc-granted ck.sizeof_rcring w.mem q, fits) (buffer-Made _ refl refl refl)
  ]
    where
      fits : 2 ^ (k + 2) % 2 ^ 32 ≡ 2 ^ (k + 2)
      fits = omega (arith, small)

module _ {R : Type 0} {ck : CkRing R} (laws : CkRingLaws ck) where
  -- The release of the last reference to a ring frees the struct and the slots, but not the values
  -- that are still in the ring: their blocks are as before, and nothing holds their addresses.
  pub releasering-Holds :
      (kind : Kind) (i p : ℕ) (bs : List ℕ) (es : List (List ℕ)) (w : World (RcRing R))
      → checkcookie (metatable kind) i w ≡ cookie p
      → (r : Represents laws w p bs es) → r.object.refs ≡ 1
      → Apart p bs
      → Apart r.object.value.buffer bs
      → Holds (releasering ck kind i w).1.mem.cell bs es
  unfolding releasering free_ring free
  releasering-Holds kind i p bs es w c r one apart buffer =
      rw (release_last (free_ring ck) true (metatable kind) i p w r.object c r.there one).1
        (Holds-update none apart (Holds-update none buffer r.holds))
