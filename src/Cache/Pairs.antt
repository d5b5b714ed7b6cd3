-- ===== src/Cache/Pairs.antt =====
-- serde.c: the serialized methods of cache_serde, and the blocks on each path.
use flua_ck.Base.{
  ℕ, ◌≤◌, ◌<◌, ◌≡◌, refl, ap, ◌∙◌, ◌&&◌, inl, inr, true, false, some, List, [], ◌++◌, arith,
  Bool-cases, length,
}
use flua_ck.Marshal.Cases.{opened, init-cases, allocated-granted, allocated-denied}
use flua_ck.Memory.{Mem, granted, rallocx, write, update, update-update}
use flua_ck.Serdebuf.{Errno, error, Status, State, serdebuf_finalize}
use flua_ck.Serdebuf.Append.{IsOpen, Kept-IsOpen, Outcome, wrote, no_memory}
use flua_ck.Serdebuf.Bounds.{IsMd}
use flua_ck.Serialize.{init_size}
use flua_ck.Serialize.Format.{encode, IsPlain, IsSmall}
use flua_ck.Serialize.Refine.{serdebuf_serialize-encode}
use flua_ck.Cache.{
  Pair, paired, unpaired, aborted_pair, is_closure_type, serialize_pair, pair_init, pair_first,
  pair_second, pair_final,
}
use flua_ck.Transport.{Runtime}
use flua_ck.Value.{
  Value, nil, boolean, lightuserdata, integer, number, string, lclosure, cclosure, table, thread,
  serde_type, custom_type, getserdemethods, lua_isfunction,
}

-- A new block with the bytes of both methods; or an error, with the blocks as before or with one empty
-- block more, which is lost; or an assertion that fails, for a method that is not a function.
pub data PairDone (m : Mem) (ser de : Value) (key : List ℕ) : Pair × Mem → Type 0 where
  stored :
      {m' : Mem}
      → m.tick < m'.tick
      → m'.cell ≡ update m.cell m.tick (some key)
      → lua_isfunction ser ≡ true
      → lua_isfunction de ≡ true
      → PairDone m ser de key (paired m.tick key, m')
  refused_pair :
      {e : Errno} {m' : Mem}
      → m.tick ≤ m'.tick
      → m'.cell ≡ m.cell
      → PairDone m ser de key (unpaired (error e), m')
  lost :
      {e : Errno} {m' : Mem}
      → m.tick < m'.tick
      → m'.cell ≡ update m.cell m.tick (some [])
      → PairDone m ser de key (unpaired (error e), m')
  aborts :
      {m' : Mem}
      → (lua_isfunction ser && lua_isfunction de) ≡ false
      → PairDone m ser de key (aborted_pair, m')

-- What the assertions on the type codes test.
is_closure_type-serde_type : (v : Value) → is_closure_type (serde_type v) ≡ lua_isfunction v
unfolding is_closure_type serde_type custom_type lua_isfunction
is_closure_type-serde_type nil = refl
is_closure_type-serde_type (boolean b) = refl
is_closure_type-serde_type (lightuserdata p) = refl
is_closure_type-serde_type (integer n) = refl
is_closure_type-serde_type (number n) = refl
is_closure_type-serde_type (string s) = refl
is_closure_type-serde_type (lclosure p us) = refl
is_closure_type-serde_type (cclosure f us) = refl
is_closure_type-serde_type (table ser de id) = elim (Bool-cases (getserdemethods ser de)) [
  | inl q ↦ rw q refl
  | inr q ↦ rw q refl
]
is_closure_type-serde_type (thread id) = refl

module _ (rt : Runtime) (good : IsMd rt.md) (m : Mem) (ser de : Value) (key : List ℕ)
    (fs : lua_isfunction ser ≡ true) where
  final-PairDone :
      lua_isfunction de ≡ true
      → (t : State) → t.sb.buf ≡ some m.tick
      → t.sb.bytes ≡ key
      → t.mem.cell ≡ update m.cell m.tick (some [])
      → m.tick < t.mem.tick
      → PairDone m ser de key (pair_final t.sb.bytes (serdebuf_finalize t))
  unfolding pair_final serdebuf_finalize rallocx write
  final-PairDone fd t buf bytes cell l = elim (Bool-cases (granted (length key) t.mem)) [
    | inl q ↦
        rw (buf, bytes, q, cell)
          (stored (omega (arith, l)) (update-update m.cell m.tick (some []) (some key)) fs fd)
    | inr q ↦ rw (buf, bytes, q) (lost (omega (arith, l)) cell)
  ]

  -- the second method, behind the bytes of the first
  second-PairDone :
      (s : State) {first second : List ℕ} (r : Status × State)
      → s.sb.buf ≡ some m.tick
      → s.sb.bytes ≡ first
      → s.mem.cell ≡ update m.cell m.tick (some [])
      → m.tick < s.mem.tick
      → first ++ second ≡ key
      → Outcome rt.md s (some second) r
      → PairDone m ser de key (pair_second de r)
  unfolding pair_second
  second-PairDone s {first} {second} r buf bytes cell l whole (wrote {s' = t} k q) =
      elim (Bool-cases (lua_isfunction de)) [
        | inl fd ↦
            rw (is_closure_type-serde_type de, fd)
              (final-PairDone fd t (k.buf ∙ buf) (q ∙ ap (λ b. b ++ second) bytes ∙ whole)
                (k.cell ∙ cell) (omega (arith, l, k.later)))
        | inr nd ↦ rw (is_closure_type-serde_type de, nd) (aborts (rw (fs, nd) refl))
      ]
  second-PairDone s r buf bytes cell l whole (no_memory k b) =
      lost (omega (arith, l, k.later)) (k.cell ∙ cell)

module _ (rt : Runtime) (good : IsMd rt.md) (ser de : Value) (m : Mem) (first second : List ℕ) where
  -- Whether requests are granted or not, the methods end up in a new block, or in none.
  pub serialize_pair-PairDone :
      IsPlain ser
      → IsPlain de
      → IsSmall rt.lua ser
      → IsSmall rt.lua de
      → encode rt.lua ser ≡ some first
      → encode rt.lua de ≡ some second
      → PairDone m ser de (first ++ second) (serialize_pair rt ser de m)
  unfolding serialize_pair pair_init pair_first
  serialize_pair-PairDone ps pd ss sd hs hd = elim (init-cases rt.md rt.lua de m pd) [
    | inl (n, i) ↦ absurd (cc (n, hd))
    | inr i ↦ rw i (elim (Bool-cases (granted (init_size rt.md de) m)) [
      | inl q ↦ rw (allocated-granted (init_size rt.md de) m q) (
          after_first q _ (
            rw hs at
              (serdebuf_serialize-encode good rt.lua rt.custom ser start ps ss (open_start q))))
      | inr q ↦ rw (allocated-denied (init_size rt.md de) m q) (refused_pair (omega arith) refl)
    ])
  ]
    where
      start : State
      start = opened (init_size rt.md de) m

      open_start : granted (init_size rt.md de) m ≡ true → IsOpen start
      open_start q = record { valid = ground (arith, q); block = m.tick; held = refl }

      after_first :
          (q : granted (init_size rt.md de) m ≡ true) (r : Status × State)
          → Outcome rt.md start (some first) r
          → PairDone m ser de (first ++ second) (pair_first rt ser de r)
      after_first g r (wrote {s' = t} k q) = elim (Bool-cases (lua_isfunction ser)) [
        | inl fs ↦
            rw (is_closure_type-serde_type ser, fs)
              (second-PairDone rt good m ser de (first ++ second) fs t _ k.buf q k.cell
                (omega (arith, k.later)) refl
                (rw hd at (
                  serdebuf_serialize-encode good rt.lua rt.custom de t pd sd
                    (Kept-IsOpen (open_start g) k))))
        | inr ns ↦ rw (is_closure_type-serde_type ser, ns) (aborts (rw ns refl))
      ]
      after_first g r (no_memory k b) = lost (omega (arith, k.later)) k.cell
