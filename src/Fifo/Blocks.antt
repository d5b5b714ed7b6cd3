-- ===== src/Fifo/Blocks.antt =====
-- fifo.c: which blocks are freed when a queue goes, and when a value does not get in.
use flua_ck.Base.{
  ℕ, ◌≤◌, ◌<◌, ◌≡◌, refl, ap, ◌∙◌, fun_ext, inl, inr, Bool, true, false, Option, none, some, List,
  [], ◌∷◌, arith, ◌==◌, Bool-cases, if◌then◌else◌,
}
use flua_ck.Fifo.{garbage_of, free_entries, with_marshalled, with_entry}
use flua_ck.Fifo.Spsc.{CkFifoSpsc, free_spsc, l_ck_fifo_spsc_gc}
use flua_ck.Fifo.Mpmc.{CkFifoMpmc, put_value, tried, l_ck_fifo_mpmc_tryenqueue}
use flua_ck.Handle.{Object, World, values, checkcookie, cookie}
use flua_ck.Handle.Methods.{with_object-open}
use flua_ck.Handle.Twice.{release_last}
use flua_ck.Marshal.{Marshalled}
use flua_ck.Marshal.Total.{granted-Advanced, IsRoomy, Stored, kept, marshal_total}
use flua_ck.Memory.{Mem, size_limit, update, IsFresh, malloc, free, malloc-granted}
use flua_ck.Serdebuf.Bounds.{IsMd}
use flua_ck.Serialize.Format.{encode, IsPlain, IsSmall}
use flua_ck.Transport.{Runtime}
use flua_ck.Value.{Value, boolean}

-- whether a block is among the entries
abbrev pub among : ℕ → List ℕ → Bool
among q [] = false
among q (e ∷ es) = if e == q then true else among q es

free_entries_lem :
    (es : List ℕ) (m : Mem) (q : ℕ)
    → (free_entries es m).cell q ≡ (if among q es then none else m.cell q)
unfolding free_entries free
free_entries_lem [] m q = refl
free_entries_lem (e ∷ es) m q = elim (Bool-cases (e == q)) [
  | inl s ↦ free_entries_lem es (free (some e) m) q ∙ rw s (split (among q es) none)
  | inr s ↦ free_entries_lem es (free (some e) m) q ∙ rw s
]
  where
    split : (b : Bool) (o : Option (List ℕ)) → (if b then o else o) ≡ o
    split true o = refl
    split false o = refl

module _ {F : Type 0} (ck : CkFifoSpsc F) where
  -- The release of the last reference to an spsc queue frees the struct and the entries that
  -- `ck_fifo_spsc_deinit` gives, and leaves every other block, so those of the values still queued.
  l_ck_fifo_spsc_gc_last :
      (i p : ℕ) (w : World F) (o : Object F) (q : ℕ)
      → checkcookie "fifo.spsc" i w ≡ cookie p
      → w.objects p ≡ some o
      → o.refs ≡ 1
      → (l_ck_fifo_spsc_gc ck i w).1.mem.cell q ≡ (
          if p == q
          then none
          else if among q (garbage_of (ck.chain o.value) (ck.deinit o.value))
          then none
          else w.mem.cell q)
  unfolding l_ck_fifo_spsc_gc free_spsc free
  l_ck_fifo_spsc_gc_last i p w o q c here one =
      rw (release_last (free_spsc ck) false "fifo.spsc" i p w o c here one).1 (
        ap (λ v. if p == q then none else v)
          (free_entries_lem (garbage_of (ck.chain o.value) (ck.deinit o.value)) w.mem q))

-- Of two new blocks the first is freed.
dropped_between :
    (f : ℕ → Option (List ℕ)) (v entry : ℕ) (e : List ℕ)
    → f v ≡ none
    → v < entry
    → update (update (update f v (some e)) entry (some [])) v none ≡ update f entry (some [])
dropped_between f v entry e h l = fun_ext λ q. ground (arith, h, l)

module _ {F : Type 0} (ck : CkFifoMpmc F) (rt : Runtime) (good : IsMd rt.md) where
  tried_leak :
      (p : ℕ) (o : Object F) (w : World F) (e : List ℕ) (m : Marshalled × Mem)
      → IsFresh w.mem
      → ((n : ℕ) → w.mem.tick ≤ n → w.mem.grants n ≡ true)
      → ck.sizeof_entry ≤ size_limit
      → ((entry v : ℕ) → (ck.tryenqueue o.value entry v).0 ≡ false)
      → Stored w.mem e m
      → (entry : ℕ) × (w.mem.cell entry ≡ none)
        × ((with_marshalled w m (λ v m.
              with_entry
                (record w { mem = m })
                v
                (malloc ck.sizeof_entry m)
                (λ entry m. tried ck rt p o w v m (ck.tryenqueue o.value entry v)))).0
            ≡ values (boolean false ∷ []))
        × ((with_marshalled w m (λ v m.
              with_entry
                (record w { mem = m })
                v
                (malloc ck.sizeof_entry m)
                (λ entry m. tried ck rt p o w v m (ck.tryenqueue o.value entry v)))).1.mem.cell
            ≡ update w.mem.cell entry (some []))
  unfolding with_marshalled with_entry tried free
  tried_leak p o w e _ fresh grants small refuses (kept {m' = m} a l h) =
      rw
        (
          malloc-granted ck.sizeof_entry m
              (granted-Advanced ck.sizeof_entry w.mem m a grants small),
          refuses m.tick w.mem.tick,
          h,
        )
        (
          m.tick,
          fresh m.tick (omega arith),
          refl,
          dropped_between w.mem.cell w.mem.tick m.tick e (fresh w.mem.tick (omega arith)) l,
        )

  -- Where `ck_fifo_mpmc_tryenqueue` refuses, the answer is false, the value's block is freed, and the
  -- entry's block is left, although nothing holds its address. The value has a format and no custom
  -- serde, and the allocator grants every request.
  tryenqueue_leak :
      (i p : ℕ) (o : Object F) (x : Value) (e : List ℕ) (w : World F)
      → IsPlain x
      → IsSmall rt.lua x
      → IsFresh w.mem
      → encode rt.lua x ≡ some e
      → IsRoomy rt.md w.mem x e
      → ck.sizeof_entry ≤ size_limit
      → ((entry v : ℕ) → (ck.tryenqueue o.value entry v).0 ≡ false)
      → checkcookie "fifo.mpmc" i w ≡ cookie p
      → w.objects p ≡ some o
      → (entry : ℕ) × (w.mem.cell entry ≡ none)
        × ((l_ck_fifo_mpmc_tryenqueue ck rt i x w).0 ≡ values (boolean false ∷ []))
        × ((l_ck_fifo_mpmc_tryenqueue ck rt i x w).1.mem.cell ≡ update w.mem.cell entry (some []))
  unfolding l_ck_fifo_mpmc_tryenqueue put_value
  tryenqueue_leak i p o x e w plain small fresh h room entry refuses c here =
      rw (with_object-open "fifo.mpmc" i p w o _ c here) (
        tried_leak p o w e _ fresh room.granting entry refuses
          (marshal_total good rt.lua rt.custom x e w.mem plain small fresh h room))
