-- ===== src/Shared/Made.antt =====
-- shared.c: `serialize`, where the allocator gives what it is asked for.
use flua_ck.Base.{
  ℕ, ◌+◌, ◌<◌, ◌≡◌, refl, fun_ext, inl, inr, true, Option, some, List, [], arith, length,
}
use flua_ck.Base.Words.{le}
use flua_ck.Marshal.Cases.{Advanced, opened, init-cases, allocated-granted}
use flua_ck.Marshal.Total.{IsRoomy, granted-Advanced}
use flua_ck.Memory.{Mem, granted, malloc, rallocx, write, update, malloc-granted}
use flua_ck.Serdebuf.{Status, State, serdebuf_finalize}
use flua_ck.Serdebuf.Append.{Outcome, wrote, no_memory}
use flua_ck.Serdebuf.Bounds.{IsMd}
use flua_ck.Serialize.{init_size}
use flua_ck.Serialize.Format.{encode, IsPlain, IsSmall}
use flua_ck.Serialize.Refine.{serdebuf_serialize-encode}
use flua_ck.Shared.{
  Serialized, made, sizeof_serialized, serialize, init_into, serialize_into, finalize_into,
  keep_pointer,
}
use flua_ck.Transport.{Runtime}
use flua_ck.Value.{Value}

-- Two new blocks: the first with the value's bytes, and one that points to it.
pub data Into (m : Mem) (e : List ℕ) : Serialized × Mem → Type 0 where
  into :
      {q : ℕ} {m' : Mem}
      → Advanced m m'
      → m.tick < q
      → q < m'.tick
      → m'.cell ≡ update (update m.cell m.tick (some e)) q (some (le 8 m.tick))
      → Into m e (made q, m')

rewritten :
    (f : ℕ → Option (List ℕ)) (p q : ℕ) (a b c d : Option (List ℕ))
    → p < q
    → update (update (update (update f p a) q b) p c) q d ≡ update (update f p c) q d
rewritten f p q a b c d l = fun_ext λ k. ground arith

module _ (rt : Runtime) (good : IsMd rt.md) (v : Value) (e : List ℕ) (m : Mem)
    (room : IsRoomy rt.md m v e) where
  finalized-Into :
      (t : State)
      → t.sb.buf ≡ some m.tick
      → t.sb.bytes ≡ e
      → t.mem.cell ≡ update m.cell m.tick (some [])
      → Advanced m t.mem
      → m.tick < t.mem.tick
      → Into m e (finalize_into t (malloc sizeof_serialized t.mem))
  unfolding finalize_into keep_pointer serdebuf_finalize rallocx write
  finalized-Into t buf bytes cell a l =
      rw (malloc-granted sizeof_serialized t.mem struct_granted, buf, bytes, shrink_granted)
        (into (record { grants = a.grants; later = omega (arith, a.later) }) l (omega arith)
          (rw cell (
            rewritten m.cell m.tick t.mem.tick (some []) (some []) (some e) (some (le 8 m.tick))
              l)))
    where
      struct_granted : granted sizeof_serialized t.mem ≡ true
      struct_granted = granted-Advanced sizeof_serialized m t.mem a room.granting (omega arith)

      grown : Mem
      grown = record (t.mem) {
        cell = update t.mem.cell t.mem.tick (some []);
        tick = t.mem.tick + 1;
      }

      later : Advanced m grown
      later = record { grants = a.grants; later = omega (arith, a.later) }

      shrink_granted : granted (length e) grown ≡ true
      shrink_granted =
          granted-Advanced (length e) m grown later room.granting (omega (arith, room.bytes))

  written-Into :
      (r : Status × State)
      → Outcome rt.md (opened (init_size rt.md v) m) (some e) r
      → Into m e (serialize_into r)
  unfolding serialize_into
  written-Into r (wrote {s' = t} k q) =
      finalized-Into t k.buf q k.cell (record { grants = k.grants; later = omega (arith, k.later) })
        (omega (arith, k.later))
  written-Into r (no_memory k (inl (n, l, f))) = cc (room.granting n (omega (arith, l)), f)
  written-Into r (no_memory k (inr large)) = absurd (omega (arith, room.bytes))

  -- `serialize` puts the bytes of the value into one new block, and a pointer to it into another, and
  -- changes no other block.
  pub serialize-Into :
      IsPlain v → IsSmall rt.lua v → encode rt.lua v ≡ some e → Into m e (serialize rt v m)
  unfolding serialize init_into
  serialize-Into p small h = elim (init-cases rt.md rt.lua v m p) [
    | inl (n, i) ↦ absurd (cc (n, h))
    | inr i ↦
        rw (i, allocated-granted (init_size rt.md v) m init_granted)
          (written-Into _ (
            rw h at (
              serdebuf_serialize-encode good rt.lua rt.custom v (opened (init_size rt.md v) m) p
                small (record { valid = ground arith; block = m.tick; held = refl }))))
  ]
    where
      init_granted : granted (init_size rt.md v) m ≡ true
      init_granted =
          granted-Advanced (init_size rt.md v) m m (record { grants = refl; later = omega arith })
            room.granting room.guess
