-- ===== src/Serdebuf/Append.antt =====
-- serdebuf.c: what a step does to the buffer and to the allocator, on every outcome. `Outcome` is
-- the contract of a step that writes, and the rules below follow the way that the code composes
-- such steps.
use flua_ck.Base.{
  ℕ, ◌+◌, ◌*◌, ◌≤◌, ◌<◌, ◌≡◌, refl, sym, ap, ◌∙◌, ◌⊎◌, inl, inr, true, false, Option, none, some,
  List, ◌++◌, arith, Bool-cases, ltb, length, length-append,
}
use flua_ck.Memory.{size_limit, granted, rallocx}
use flua_ck.Serdebuf.{
  Md, Errno, einval, enomem, Status, ok, error, State, ◌>>◌, add_size, serdebuf_size,
  serdebuf_roundup, serdebuf_resize, copy_bytes, new_size, serdebuf_append,
}
use flua_ck.Serdebuf.Bounds.{IsMd, IsValid, serdebuf_roundup_bounds, new_size_bounds}

-- The buffer that a step is given: it has a block, and is valid.
pub record IsOpen (s : State) : Type 0 where
  pub valid : IsValid s
  pub block : ℕ
  pub held : s.sb.buf ≡ some block

-- What a step of serialization leaves alone. Blocks neither come nor go.
pub record Kept (s s' : State) : Type 0 where
  pub valid : IsValid s'
  pub buf : s'.sb.buf ≡ s.sb.buf
  pub cell : s'.mem.cell ≡ s.mem.cell
  pub grants : s'.mem.grants ≡ s.mem.grants
  pub later : s.mem.tick ≤ s'.mem.tick

-- Why a request was refused: the allocator said so, or `total` bytes are too many for it.
abbrev pub Denied : Md → State → ℕ → Type 0
Denied md s total =
    ((n : ℕ) × (s.mem.tick ≤ n) × (s.mem.grants n ≡ false)) ⊎ (size_limit < 2 * total + md.pagesize)

abbrev pub Blamed : Md → State → Option (List ℕ) → Type 0
Blamed md s none = Unit {0}
Blamed md s (some out) = Denied md s (length s.sb.bytes + length out)

-- `some out`: the step appends `out`, or answers ENOMEM because a request was denied.
-- `none`: it answers EINVAL or ENOMEM.
pub data Outcome (md : Md) (s : State) : Option (List ℕ) → Status × State → Type 0 where
  wrote :
      {out : List ℕ} {s' : State}
      → Kept s s'
      → s'.sb.bytes ≡ s.sb.bytes ++ out
      → Outcome md s (some out) (ok, s')
  refused : {s' : State} → Kept s s' → Outcome md s none (error einval, s')
  no_memory :
      {spec : Option (List ℕ)} {s' : State}
      → Kept s s'
      → Blamed md s spec
      → Outcome md s spec (error enomem, s')

pub Kept-IsOpen : {s s' : State} → IsOpen s → Kept s s' → IsOpen s'
Kept-IsOpen o k = record { valid = k.valid; block = o.block; held = k.buf ∙ o.held }

pub Kept-trans : {s t u : State} → Kept s t → Kept t u → Kept s u
Kept-trans k l = record {
  valid = l.valid;
  buf = l.buf ∙ k.buf;
  cell = l.cell ∙ k.cell;
  grants = l.grants ∙ k.grants;
  later = omega (arith, k.later, l.later);
}

pub Kept-refl : {s : State} → IsValid s → Kept s s
Kept-refl v = record { valid = v; buf = refl; cell = refl; grants = refl; later = omega arith }

-- the state after a granted, and after a refused, request for `size` bytes
abbrev resized : ℕ → State → State
resized size s = record {
  sb = record { buf = s.sb.buf; bytes = s.sb.bytes; cap = size };
  mem = record (s.mem) { tick = s.mem.tick + 1 };
}

abbrev ticked : State → State
ticked s = record s { mem = record (s.mem) { tick = s.mem.tick + 1 } }

module _ (md : Md) (n : ℕ) {s : State} (o : IsOpen s) where
  serdebuf_resize-granted :
      granted (serdebuf_roundup md n) s.mem ≡ true
      → serdebuf_resize md n s ≡ (ok, resized (serdebuf_roundup md n) s)
  unfolding serdebuf_resize rallocx
  serdebuf_resize-granted h = rw (o.held, h)

  serdebuf_resize-refused :
      granted (serdebuf_roundup md n) s.mem ≡ false
      → serdebuf_resize md n s ≡ (error enomem, ticked s)
  unfolding serdebuf_resize rallocx
  serdebuf_resize-refused h = rw (o.held, h)

Kept-resized :
    {size : ℕ} {s : State} → length s.sb.bytes ≤ size → size ≤ size_limit → Kept s (resized size s)
Kept-resized h k = record {
  valid = omega arith;
  buf = refl;
  cell = refl;
  grants = refl;
  later = omega arith;
}

Kept-ticked : {s : State} → IsValid s → Kept s (ticked s)
Kept-ticked v = record {
  valid = omega (arith, v);
  buf = refl;
  cell = refl;
  grants = refl;
  later = omega arith;
}

Kept-copy_bytes :
    {s t : State} (p : List ℕ)
    → Kept s t
    → length t.sb.bytes + length p ≤ t.sb.cap
    → Kept s (copy_bytes p t).1
Kept-copy_bytes {t = t} p k h = record {
  valid = omega (arith, k.valid, length-append t.sb.bytes p);
  buf = k.buf;
  cell = k.cell;
  grants = k.grants;
  later = k.later;
}

module _ {md : Md} (good : IsMd md) where
  -- what is refused was refused by the allocator, or is too large for the bytes asked for
  Denied-of_refused :
      (p : List ℕ) (s : State) (size : ℕ)
      → size ≤ 2 * (length s.sb.bytes + length p) + md.pagesize
      → granted size s.mem ≡ false
      → Denied md s (length s.sb.bytes + length p)
  Denied-of_refused p s size h e = elim (Bool-cases (s.mem.grants s.mem.tick)) [
    | inl yes' ↦ inr (ground arith)
    | inr no' ↦ inl (s.mem.tick, omega arith, no')
  ]

  grow-Outcome :
      (p : List ℕ) (s : State) (n : ℕ)
      → IsOpen s
      → length s.sb.bytes + length p ≤ n
      → n ≤ 2 * (length s.sb.bytes + length p)
      → n ≤ 2 * size_limit
      → Outcome md s (some p) ((serdebuf_resize md n >> copy_bytes p) s)
  grow-Outcome p s n o low high small = elim (Bool-cases (granted (serdebuf_roundup md n) s.mem)) [
    | inl e ↦ rw (serdebuf_resize-granted md n o e) (
        wrote
          (Kept-copy_bytes p (Kept-resized (omega (arith, bounds.0)) (ground arith))
            (omega (arith, bounds.0)))
          refl)
    | inr e ↦ rw (serdebuf_resize-refused md n o e) (
        no_memory (Kept-ticked o.valid)
          (Denied-of_refused p s (serdebuf_roundup md n) (omega (arith, bounds.1)) e))
  ]
    where
      bounds : (n ≤ serdebuf_roundup md n) × (serdebuf_roundup md n < n + md.pagesize)
      bounds = serdebuf_roundup_bounds n good small

  -- `serdebuf_append` of at most `size_limit` bytes appends just these bytes, or answers ENOMEM because
  -- the allocator refused a request or the bytes are too many for any. In both cases the buffer stays
  -- in its bounds and keeps its block, and no other block comes or goes.
  pub serdebuf_append-Outcome :
      (p : List ℕ) (s : State)
      → IsOpen s
      → length p ≤ size_limit
      → Outcome md s (some p) (serdebuf_append md p s)
  unfolding serdebuf_append
  serdebuf_append-Outcome p s o h =
      elim (Bool-cases (ltb s.sb.cap (add_size (serdebuf_size s) (length p)))) [
        | inl e ↦
            let bounds =
              new_size_bounds s.sb.cap (length s.sb.bytes) (length p) o.valid.within o.valid.small h
                (ground arith) in
            rw e (
              grow-Outcome p s (new_size s.sb.cap (add_size (serdebuf_size s) (length p))) o
                bounds.0 bounds.1 bounds.2)
        | inr e ↦ rw e (wrote (Kept-copy_bytes p (Kept-refl o.valid) (ground arith)) refl)
      ]

module _ (md : Md) where
  -- An append that fails has not moved `cur`.
  pub serdebuf_append_failed :
      (p : List ℕ) (s : State) {e : Errno} {s' : State}
      → IsOpen s
      → serdebuf_append md p s ≡ (error e, s')
      → s'.sb.bytes ≡ s.sb.bytes
  unfolding serdebuf_append
  serdebuf_append_failed p s {e} {s'} o h =
      elim (Bool-cases (ltb s.sb.cap (add_size (serdebuf_size s) (length p)))) [
        | inr small ↦ cc (rw small at h)
        | inl large ↦
            elim (Bool-cases (
              granted
                (serdebuf_roundup md (new_size s.sb.cap (add_size (serdebuf_size s) (length p))))
                s.mem)) [
                  | inl yes' ↦ cc (rw (large, serdebuf_resize-granted md _ o yes') at h)
                  | inr no' ↦
                      ap (λ r. r.1.sb.bytes)
                        (sym (rw (large, serdebuf_resize-refused md _ o no') at h))
                ]
      ]
