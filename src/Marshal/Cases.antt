-- ===== src/Marshal/Cases.antt =====
-- The error paths of serialization: what becomes of the buffer's block on each of them.
use flua_ck.Base.{
  ℕ, ◌+◌, ◌*◌, ◌≤◌, ◌<◌, ◌≡◌, refl, ap, ◌∙◌, ◌≢◌, ◌⊎◌, ◌++◌, inl, inr, true, false, Option, none,
  some, List, [], arith, Bool-cases, length,
}
use flua_ck.Memory.{
  Mem, size_limit, granted, malloc, rallocx, free, write, update, IsFresh, update-update,
  update-none,
}
use flua_ck.Serdebuf.{
  Md, einval, enomem, Status, ok, error, State, cleared, serdebuf_finalize, serdebuf_destroy,
}
use flua_ck.Serdebuf.Bounds.{IsMd, IsValid}
use flua_ck.Serdebuf.Append.{Kept, Blamed, Outcome, wrote, refused, no_memory}
use flua_ck.Serialize.{Lua, allocated, init_size, serdebuf_init}
use flua_ck.Serialize.Format.{encode, encode_scalar, IsPlain, IsSmall}
use flua_ck.Serialize.Refine.{serdebuf_serialize-encode}
use flua_ck.Value.{Value, table, thread, serde_type}
use flua_ck.Marshal.{
  Source, from_finalize, Marshalled, block, fatal, marshal, init_with, serialize_with,
  finalize_with,
}

-- The requests that are still to come are the same, and no block number comes twice.
pub record Advanced (m m' : Mem) : Type 0 where
  pub grants : m'.grants ≡ m.grants
  pub later : m.tick ≤ m'.tick

-- Why there was no memory: a request was refused, or the value is too large for any allocation.
abbrev pub Refused : Md → Mem → Value → Option (List ℕ) → Type 0
Refused md m v none = Unit {0}
Refused md m v (some e) =
    ((n : ℕ) × (m.tick ≤ n) × (m.grants n ≡ false))
    ⊎ (size_limit < 2 * length e + md.pagesize)
    ⊎ (size_limit < init_size md v)

-- What `marshal` may answer for a value with the format `spec`, and the blocks that it leaves.
pub data Cases (md : Md) (v : Value) (m : Mem) : Option (List ℕ) → Marshalled × Mem → Type 0 where
  stored :
      {e : List ℕ} {m' : Mem}
      → Advanced m m'
      → m.tick < m'.tick
      → m'.cell ≡ update m.cell m.tick (some e)
      → Cases md v m (some e) (block m.tick, m')
  rejected :
      {src : Source} {m' : Mem}
      → Advanced m m'
      → m'.cell ≡ m.cell
      → Cases md v m none (fatal src einval, m')
  denied :
      {spec : Option (List ℕ)} {src : Source} {m' : Mem}
      → src ≢ from_finalize
      → Refused md m v spec
      → Advanced m m'
      → m'.cell ≡ m.cell
      → Cases md v m spec (fatal src enomem, m')
  leaked :
      {e : List ℕ} {m' : Mem}
      → ((n : ℕ) × (m.tick ≤ n) × (m.grants n ≡ false))
      → Advanced m m'
      → m.tick < m'.tick
      → m'.cell ≡ update m.cell m.tick (some [])
      → Cases md v m (some e) (fatal from_finalize enomem, m')

-- A buffer in the block that `serdebuf_init` was given.
record Filled (m : Mem) (s : State) : Type 0 where
  buf : s.sb.buf ≡ some m.tick
  cell : s.mem.cell ≡ update m.cell m.tick (some [])
  advanced : Advanced m s.mem
  beyond : m.tick < s.mem.tick

module _ (m : Mem) (fresh : m.cell m.tick ≡ none) where
  -- `serdebuf_destroy` gives the block back.
  cell-destroy : {s : State} → Filled m s → (serdebuf_destroy s).mem.cell ≡ m.cell
  unfolding serdebuf_destroy free
  cell-destroy {s} f =
      rw (f.buf, f.cell, update-update m.cell m.tick (some []) none)
        (update-none m.cell m.tick fresh)

  Advanced-destroy : {s : State} → Filled m s → Advanced m (serdebuf_destroy s).mem
  unfolding serdebuf_destroy free
  Advanced-destroy {s} f =
      rw f.buf (record { grants = f.advanced.grants; later = f.advanced.later })

  Filled-Kept : {s s' : State} → Filled m s → Kept s s' → Filled m s'
  Filled-Kept f k = record {
    buf = k.buf ∙ f.buf;
    cell = k.cell ∙ f.cell;
    advanced = record {
      grants = k.grants ∙ f.advanced.grants;
      later = omega (arith, k.later, f.advanced.later);
    };
    beyond = omega (arith, k.later, f.beyond);
  }

module _ (md : Md) (v : Value) (m : Mem) (fresh : m.cell m.tick ≡ none) where
  ungranted :
      (s : State)
      → Filled m s
      → IsValid s
      → granted (length s.sb.bytes) s.mem ≡ false
      → m.grants s.mem.tick ≡ false
  ungranted s f valid q = rw (← f.advanced.grants) (ground arith)

  -- `serdebuf_finalize` keeps the bytes in the block. Where it fails, it has lost the block.
  finalize-Cases :
      (s : State) (e : List ℕ)
      → Filled m s
      → IsValid s
      → s.sb.bytes ≡ e
      → Cases md v m (some e) (finalize_with (serdebuf_finalize s))
  unfolding serdebuf_finalize finalize_with rallocx serdebuf_destroy free write
  finalize-Cases s e f valid h = elim (Bool-cases (granted (length s.sb.bytes) s.mem)) [
    | inl q ↦
        rw (f.buf, q)
          (stored (record { grants = f.advanced.grants; later = omega (arith, f.advanced.later) })
            (omega (arith, f.beyond))
            (rw (h, f.cell) (update-update m.cell m.tick (some []) (some e))))
    | inr q ↦
        rw (f.buf, q)
          (leaked (s.mem.tick, f.advanced.later, ungranted s f valid q)
            (record { grants = f.advanced.grants; later = omega (arith, f.advanced.later) })
            (omega (arith, f.beyond)) f.cell)
  ]

  blame :
      (s : State) (spec : Option (List ℕ))
      → Filled m s
      → s.sb.bytes ≡ []
      → Blamed md s spec
      → Refused md m v spec
  blame s none f h b = tt
  blame s (some e) f h (inl (n, l, q)) =
      inl (n, omega (arith, f.advanced.later), rw f.advanced.grants at q)
  blame s (some e) f h (inr large) = inr (inl (omega (arith, ap length h)))

  serialize-Cases :
      (s : State) (spec : Option (List ℕ)) (r : Status × State)
      → Filled m s
      → s.sb.bytes ≡ []
      → Outcome md s spec r
      → Cases md v m spec (serialize_with r)
  unfolding serialize_with
  serialize-Cases s spec r f h (wrote {out = e} {s' = t} k q) =
      finalize-Cases t e (Filled-Kept m fresh f k) k.valid (q ∙ ap (λ bs. bs ++ e) h)
  serialize-Cases s spec r f h (refused k) =
      rejected (Advanced-destroy m fresh (Filled-Kept m fresh f k))
        (cell-destroy m fresh (Filled-Kept m fresh f k))
  serialize-Cases s spec r f h (no_memory k b) =
      denied (λ q. cc) (blame s spec f h b) (Advanced-destroy m fresh (Filled-Kept m fresh f k))
        (cell-destroy m fresh (Filled-Kept m fresh f k))

abbrev pub opened : ℕ → Mem → State
opened size m = record {
  sb = record { buf = some m.tick; bytes = []; cap = size };
  mem = record m { cell = update m.cell m.tick (some []); tick = m.tick + 1 };
}

abbrev unopened : Mem → State
unopened m = record { sb = cleared; mem = m }

-- `serdebuf_init` refuses the values with no type, and asks for a block for the others.
pub init-cases :
    (md : Md) (lua : Lua) (v : Value) (m : Mem)
    → IsPlain v
    → ((encode lua v ≡ none) × (serdebuf_init md v m ≡ (error einval, unopened m)))
      ⊎ (serdebuf_init md v m ≡ allocated (init_size md v) (malloc (init_size md v) m))
unfolding serdebuf_init encode encode_scalar serde_type
init-cases md lua (table ser de id) m p = rw p (inl (refl, refl))
init-cases md lua (thread id) m p = inl (refl, refl)
init-cases md lua _ m p = inr refl

pub allocated-granted :
    (size : ℕ) (m : Mem)
    → granted size m ≡ true
    → allocated size (malloc size m) ≡ (ok, opened size m)
unfolding allocated malloc
allocated-granted size m h = rw h

pub allocated-denied :
    (size : ℕ) (m : Mem)
    → granted size m ≡ false
    → allocated size (malloc size m) ≡ (error enomem, unopened (record m { tick = m.tick + 1 }))
unfolding allocated malloc
allocated-denied size m h = rw h

Refused-init :
    (md : Md) (m : Mem) (v : Value) (spec : Option (List ℕ))
    → granted (init_size md v) m ≡ false
    → Refused md m v spec
Refused-init md m v none h = tt
Refused-init md m v (some e) h = elim (Bool-cases (m.grants m.tick)) [
  | inl q ↦ inr (inr (ground arith))
  | inr q ↦ inl (m.tick, omega arith, q)
]

module _ {md : Md} (good : IsMd md) (lua : Lua) (custom : ℕ → Value → State → Status × State) where
  -- Every run of the serialization code on a value with no custom serde: a block of its own with the
  -- bytes of the format; or EINVAL or ENOMEM, with every block as before; or, where
  -- `serdebuf_finalize` fails, ENOMEM and a block that nothing points to.
  pub marshal-Cases :
      (v : Value) (m : Mem)
      → IsPlain v
      → IsSmall lua v
      → IsFresh m
      → Cases md v m (encode lua v) (marshal md lua custom v m)
  unfolding marshal init_with
  marshal-Cases v m p small fresh = elim (init-cases md lua v m p) [
    | inl (n, e) ↦ rw (e, n) (rejected (record { grants = refl; later = omega arith }) refl)
    | inr e ↦ rw e (elim (Bool-cases (granted (init_size md v) m)) [
      | inl q ↦ rw (allocated-granted (init_size md v) m q) (
          serialize-Cases md v m (fresh m.tick (omega arith)) (opened (init_size md v) m)
            (encode lua v) _
            (record {
              buf = refl;
              cell = refl;
              advanced = record { grants = refl; later = omega arith };
              beyond = omega arith;
            })
            refl
            (serdebuf_serialize-encode good lua custom v (opened (init_size md v) m) p small
              (record { valid = ground arith; block = m.tick; held = refl })))
      | inr q ↦ rw (allocated-denied (init_size md v) m q) (
          denied (λ h. cc) (Refused-init md m v (encode lua v) q)
            (record { grants = refl; later = omega arith }) refl)
    ])
  ]
