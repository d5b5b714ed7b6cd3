-- ===== src/Cache/Types.antt =====
-- serde.c: the type codes that cache_serde answers.
use flua_ck.Base.{
  ℕ, ◌+◌, ◌≤◌, ◌<◌, ◌≡◌, refl, ap, ◌∙◌, ◌&&◌, inl, inr, Bool, true, some, List, [], ◌∷◌, ◌++◌,
  arith, ltb, Bool-cases, Option-cases, length, ==_self,
}
use mathlib.Core.Option.{some-injective}
use flua_ck.Cache.{
  CkHt, Registered, Cache, Pair, uint16_max, cache_type, release_block, use_pair, search_registry,
  searched, cache_serde,
}
use flua_ck.Cache.Entries.{CkHtLaws, HasType, AllKnown, IsCache, Private, IsCache-mem}
use flua_ck.Cache.Insert.{
  Others, Done, answered, no_type, asserted, IsCache-release, first_get-Done,
}
use flua_ck.Cache.Pairs.{PairDone, stored, refused_pair, lost, aborts, serialize_pair-PairDone}
use flua_ck.Load.{Loader, failed, invalid_type, load_type}
use flua_ck.Memory.{Mem, update}
use flua_ck.Serdebuf.Bounds.{IsMd}
use flua_ck.Serialize.{Lua}
use flua_ck.Serialize.Format.{encode, IsPlain, IsSmall}
use flua_ck.Transport.{Runtime}
use flua_ck.Value.{Value, getserdemethods}

module _ {H : Type 0} {ht : CkHt H} (laws : CkHtLaws ht) (lua : Lua) where
  -- The next block is in no place of the array.
  pub next-Private : (st : Cache H) → IsCache ht lua st → Private ht lua st.mem.tick st
  next-Private st c i at = absurd (omega (arith, c.given i st.mem.tick at))

  -- Memory with one block more.
  IsCache-next :
      (st : Cache H) (m : Mem) (x : List ℕ)
      → IsCache ht lua st
      → st.mem.tick < m.tick
      → m.cell ≡ update st.mem.cell st.mem.tick (some x)
      → IsCache ht lua (record st { mem = m })
  IsCache-next st m x c l cell =
      IsCache-mem ht lua st.mem.tick st m c (next-Private st c) (λ p n. ap (λ f. f p) cell ∙ rw n)
        (omega (arith, l)) (λ q later. ap (λ f. f q) cell ∙ ground (arith, l, later, c.fresh q))

  module _ (st : Cache H) (ser de : Value) (first second : List ℕ)
      (hs : encode lua ser ≡ some first) (hd : encode lua de ≡ some second)
      (others : Cache H → Cache H) (env : Others laws lua st.mem.tick others) where
    use_pair-Done :
        (r : Pair × Mem)
        → IsCache ht lua st
        → PairDone st.mem ser de (first ++ second) r
        → Done laws lua st ser de (use_pair ht others ser de st r)
    unfolding use_pair release_block
    use_pair-Done _ c (refused_pair {m' = m} l cell) =
        no_type
          (IsCache-mem ht lua st.mem.tick st m c (next-Private st c) (λ p n. ap (λ f. f p) cell) l
            (λ q later. ap (λ f. f q) cell ∙ c.fresh q (omega (arith, l, later))))
          (λ k j h. h)
    use_pair-Done _ c (lost {m' = m} l cell) = no_type (IsCache-next st m [] c l cell) (λ k j h. h)
    use_pair-Done _ c (aborts fails) = asserted fails
    use_pair-Done _ c (stored {m' = m} l cell fs fd) =
        elim (Bool-cases (ltb uint16_max (length (first ++ second)))) [
          | inl q ↦ rw q (
              no_type (IsCache-release laws lua st.mem.tick now kept (next-Private st c))
                (λ k j h. h))
          | inr q ↦ rw q (
              first_get-Done laws lua st ser de first second hs hd fs st.mem.tick others env now _
                kept (λ k j h. h) (next-Private st c)
                (ap (λ f. f st.mem.tick) cell ∙ rw (==_self st.mem.tick)) l refl)
        ]
      where
        now : Cache H
        now = record st { mem = m }

        kept : IsCache ht lua now
        kept = IsCache-next st m (first ++ second) c l cell

  both_true : (a b : Bool) → (a && b) ≡ true → (a ≡ true) × (b ≡ true)
  both_true a b h = ground arith

  -- A match in the registry's table is of a pair that the hash table has.
  search_registry-HasType :
      (rawequal : Value → Value → Bool) (raw : (a b : Value) → rawequal a b ≡ true → a ≡ b)
      (st : Cache H) (ser de : Value) (rs : List Registered) {t : ℕ}
      → AllKnown ht lua st rs
      → search_registry ht rawequal ser de rs ≡ some t
      → HasType ht lua st ser de t
  unfolding search_registry
  search_registry-HasType rawequal raw st ser de [] a h = cc
  search_registry-HasType rawequal raw st ser de (r ∷ rs) {t} a h =
      elim (Bool-cases (rawequal ser r.serialize && rawequal de r.deserialize)) [
        | inl q ↦
            let (s, d) = both_true _ _ q in
            rw
              (raw ser r.serialize s, raw de r.deserialize d, ← some-injective r.type t (rw q at h))
              a.0
        | inr q ↦ search_registry-HasType rawequal raw st ser de rs a.1 (rw q at h)
      ]

module _ {H : Type 0} {ht : CkHt H} (laws : CkHtLaws ht) (rt : Runtime) (good : IsMd rt.md)
    (rawequal : Value → Value → Bool) (raw : (a b : Value) → rawequal a b ≡ true → a ≡ b) where
  -- Whatever the allocator refuses and other threads do in between: cache_serde keeps the cache in
  -- order, and takes no index away. The type that it answers is the one that the hash table has for the
  -- bytes of the two methods, whose index leads to a block with these bytes; or it answers an error;
  -- or the array has 256 entries, and it would write behind its end; or one of the methods is not a
  -- function, and an assertion fails.
  pub cache_serde-Done :
      (others : Cache H → Cache H) (ser de : Value) (first second : List ℕ) (st : Cache H)
      → Others laws rt.lua st.mem.tick others
      → IsPlain ser
      → IsPlain de
      → IsSmall rt.lua ser
      → IsSmall rt.lua de
      → encode rt.lua ser ≡ some first
      → encode rt.lua de ≡ some second
      → IsCache ht rt.lua st
      → Done laws rt.lua st ser de (cache_serde ht rawequal rt others ser de st)
  unfolding cache_serde searched
  cache_serde-Done others ser de first second st env ps pd ss sd hs hd c =
      elim (Bool-cases (getserdemethods ser de)) [
        | inl q ↦ rw q (elim (Option-cases (search_registry ht rawequal ser de st.registry)) [
          | inl n ↦ rw n (
              use_pair-Done laws rt.lua st ser de first second hs hd others env _ c
                (serialize_pair-PairDone rt good ser de st.mem first second ps pd ss sd hs hd))
          | inr (t, s) ↦ rw s (
              answered c (λ k j h. h)
                (search_registry-HasType laws rt.lua rawequal raw st ser de st.registry c.known s))
        ])
        | inr q ↦ rw q (no_type c (λ k j h. h))
      ]

-- The type codes of the first 119 pairs of methods are different, and none is that of a built-in type.
-- Those of the next 128 pairs are negative, and loadsharedimpl refuses them as invalid; those of the
-- last nine are the codes of built-in types.
pub cache_type-load_type :
    (lua : Lua) (globals : Value) (load_custom : ℕ → Loader) (load : Loader) (i : ℕ)
    → i < 256
    → ((i < 119 → (cache_type i ≡ i + 9) × (cache_type i < 128))
        × (119 ≤ i
            → i < 247
            → (bs : List ℕ) (env : Bool) (stack : List Value)
            → load_type lua globals load_custom load (cache_type i) bs env stack
              ≡ failed invalid_type env)
        × (247 ≤ i → cache_type i < 9))
unfolding cache_type load_type
cache_type-load_type lua globals load_custom load i small = (
  λ l. (omega (arith, l), omega (arith, l)),
  λ l u bs env stack. ground (arith, l, u),
  λ l. omega (arith, l, small),
)
