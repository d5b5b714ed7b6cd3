-- ===== src/Cache/Insert.antt =====
-- serde.c: cache_serde with other threads around it.
use flua_ck.Base.{
  ℕ, zero, suc, ◌≤◌, ◌<◌, ◌≡◌, refl, ◌∙◌, ◌&&◌, ◌⊎◌, inl, inr, Bool, true, false, Option, none,
  some, List, [], ◌∷◌, ◌++◌, arith, ltb, Bool-cases, ltb→le, length, get_elem?,
}
use mathlib.Core.Option.{some-injective}
use flua_ck.Cache.{
  CkHt, Cache, Cached, typed, failed, overrun, aborted, serde_cache_capacity, success,
  release_block, get_again, put_result, insert, first_get,
}
use flua_ck.Cache.Entries.{
  CkHtLaws, HasType, AllKnown-Grown, IsCache, Grown, Private, IsCache-mem, IsCache-success,
}
use flua_ck.Handle.Methods.{get_elem?-snoc}
use flua_ck.Memory.{free}
use flua_ck.Serdebuf.{Errno, error}
use flua_ck.Serialize.{Lua}
use flua_ck.Serialize.Format.{encode}
use flua_ck.Value.{Value, lua_isfunction}

module _ {A : Type 0} where
  get_elem?-append :
      (xs ys : List A) (i : ℕ) {a : A} → get_elem? xs i ≡ some a → get_elem? (xs ++ ys) i ≡ some a
  get_elem?-append [] ys i h = cc
  get_elem?-append (x ∷ xs) ys zero h = h
  get_elem?-append (x ∷ xs) ys (suc i) h = get_elem?-append xs ys i h

  get_elem?_last :
      (xs : List A) (b : A) (i : ℕ) {a : A}
      → get_elem? (xs ++ (b ∷ [])) i ≡ some a
      → (get_elem? xs i ≡ some a) ⊎ (a ≡ b)
  get_elem?_last [] b zero {a} h = inr (some-injective a b (sym_some h))
    where
      sym_some : {x y : A} → some x ≡ some y → some y ≡ some x
      sym_some e = cc
  get_elem?_last [] b (suc i) h = cc
  get_elem?_last (x ∷ xs) b zero h = inl h
  get_elem?_last (x ∷ xs) b (suc i) h = get_elem?_last xs b i h

module _ {H : Type 0} {ht : CkHt H} (laws : CkHtLaws ht) (lua : Lua) where
  -- What other threads do: they keep the cache in order, take no index away, and leave the block `b`,
  -- which a call of cache_serde has asked for and not yet put into the array.
  pub record Others (b : ℕ) (others : Cache H → Cache H) : Type 0 where
    pub keeps : (st : Cache H) → IsCache ht lua st → IsCache ht lua (others st)
    pub grown : (st : Cache H) → Grown ht lua st (others st)
    pub mine : (st : Cache H) → (others st).mem.cell b ≡ st.mem.cell b
    pub apart : (st : Cache H) → Private ht lua b st → Private ht lua b (others st)
    pub later : (st : Cache H) → st.mem.tick ≤ (others st).mem.tick

  -- What cache_serde may do with these methods.
  pub data Done (st : Cache H) (ser de : Value) : Cached × Cache H → Type 0 where
    answered :
        {t : ℕ} {st' : Cache H}
        → IsCache ht lua st'
        → Grown ht lua st st'
        → HasType ht lua st' ser de t
        → Done st ser de (typed t, st')
    no_type :
        {e : Errno} {st' : Cache H}
        → IsCache ht lua st'
        → Grown ht lua st st'
        → Done st ser de (failed (error e), st')
    full :
        {st' : Cache H}
        → IsCache ht lua st'
        → Grown ht lua st st'
        → serde_cache_capacity ≤ length st'.blocks
        → Done st ser de (overrun, st')
    asserted :
        {st' : Cache H}
        → (lua_isfunction ser && lua_isfunction de) ≡ false
        → Done st ser de (aborted, st')

  -- the cache after a put that succeeded
  abbrev put_state : ℕ → List ℕ → Cache H → Cache H
  put_state b key st = record st {
    blocks = st.blocks ++ (b ∷ []);
    types = (ht.put st.types key (length st.blocks)).1;
  }

  IsCache-put :
      (b : ℕ) (key : List ℕ) (st : Cache H)
      → IsCache ht lua st
      → st.mem.cell b ≡ some key
      → b < st.mem.tick
      → IsCache ht lua (put_state b key st)
  IsCache-put b key st c cell small = record {
    indexed = λ k j h. elim (laws.put_new st.types key (length st.blocks) k j h) [
      | inl old ↦
          let (p, at, cell') = c.indexed k j old in
          (p, get_elem?-append st.blocks (b ∷ []) j at, cell')
      | inr (o, same, last) ↦ (b, rw last (get_elem?-snoc st.blocks b), rw same cell)
    ];
    known =
        AllKnown-Grown ht lua st (put_state b key st) st.registry
          (laws.put_kept st.types key (length st.blocks)) c.known;
    given = λ j p at. elim (get_elem?_last st.blocks b j at) [
      | inl old ↦ c.given j p old
      | inr same ↦ rw same small
    ];
    fresh = c.fresh;
  }

  -- the cache after a put that failed
  abbrev unput_state : List ℕ → Cache H → Cache H
  unput_state key st = record st { types = (ht.put st.types key (length st.blocks)).1 }

  IsCache-unput :
      (key : List ℕ) (st : Cache H)
      → IsCache ht lua st
      → (ht.put st.types key (length st.blocks)).0 ≡ false
      → IsCache ht lua (unput_state key st)
  IsCache-unput key st c refused = record {
    indexed = λ k j h. elim (laws.put_new st.types key (length st.blocks) k j h) [
      | inl old ↦ c.indexed k j old
      | inr (o, same, last) ↦ cc (o, refused)
    ];
    known =
        AllKnown-Grown ht lua st (unput_state key st) st.registry
          (laws.put_kept st.types key (length st.blocks)) c.known;
    given = c.given;
    fresh = c.fresh;
  }

  pub IsCache-release :
      (b : ℕ) (st : Cache H)
      → IsCache ht lua st
      → Private ht lua b st
      → IsCache ht lua (release_block b st)
  unfolding release_block free
  IsCache-release b st c apart =
      IsCache-mem ht lua b st (free (some b) st.mem) c apart (λ p n. rw n) (omega arith)
        (λ q l. ground (arith, c.fresh q l))

  module _ (st : Cache H) (ser de : Value) (first second : List ℕ)
      (hs : encode lua ser ≡ some first) (hd : encode lua de ≡ some second)
      (fs : lua_isfunction ser ≡ true) where
    abbrev key : List ℕ
    key = first ++ second

    success-Done :
        (i : ℕ) (now : Cache H)
        → IsCache ht lua now
        → Grown ht lua st now
        → ht.get now.types key ≡ some i
        → Done st ser de (success ser de i now)
    unfolding success
    success-Done i now c g at = rw fs (
        answered (IsCache-success ht lua ser de i now c hs hd at) g
          (first, second, i, hs, hd, at, refl))

    get_again-Done :
        (b : ℕ) (now : Cache H) (o : Option ℕ)
        → IsCache ht lua now
        → Grown ht lua st now
        → Private ht lua b now
        → ht.get now.types key ≡ o
        → Done st ser de (get_again ht ser de b now o)
    unfolding get_again release_block
    get_again-Done b now none c g apart at = no_type (IsCache-release b now c apart) g
    get_again-Done b now (some i) c g apart at =
        success-Done i (release_block b now) (IsCache-release b now c apart) g at

    module _ (b : ℕ) (others : Cache H → Cache H) (env : Others b others) where
      put_result-Done :
          (now : Cache H)
          → IsCache ht lua now
          → Grown ht lua st now
          → Private ht lua b now
          → now.mem.cell b ≡ some key
          → b < now.mem.tick
          → (r : Bool) → (ht.put now.types key (length now.blocks)).0 ≡ r
          → Done st ser de (
              put_result ht others ser de b key now
                (r, (ht.put now.types key (length now.blocks)).1))
      unfolding put_result
      put_result-Done now c g apart cell small true ok =
          success-Done (length now.blocks) (put_state b key now)
            (IsCache-put b key now c cell small)
            (λ k j h. laws.put_kept now.types key (length now.blocks) k j (g k j h))
            (laws.put_same now.types key (length now.blocks) ok)
      put_result-Done now c g apart cell small false refused =
          get_again-Done b (others (unput_state key now)) _
            (env.keeps (unput_state key now) (IsCache-unput key now c refused))
            (λ k j h.
              env.grown (unput_state key now) k j
                (laws.put_kept now.types key (length now.blocks) k j (g k j h)))
            (env.apart (unput_state key now) apart) refl

      insert-Done :
          (now : Cache H)
          → IsCache ht lua now
          → Grown ht lua st now
          → Private ht lua b now
          → now.mem.cell b ≡ some key
          → b < now.mem.tick
          → Done st ser de (insert ht others ser de b key now)
      unfolding insert
      insert-Done now c g apart cell small =
          elim (Bool-cases (ltb (length now.blocks) serde_cache_capacity)) [
            | inl q ↦ rw q (put_result-Done now c g apart cell small _ refl)
            | inr q ↦ rw q (full c g (ltb→le (length now.blocks) serde_cache_capacity q))
          ]

      pub first_get-Done :
          (now : Cache H) (o : Option ℕ)
          → IsCache ht lua now
          → Grown ht lua st now
          → Private ht lua b now
          → now.mem.cell b ≡ some key
          → b < now.mem.tick
          → ht.get now.types key ≡ o
          → Done st ser de (first_get ht others ser de b key now o)
      unfolding first_get release_block
      first_get-Done now (some i) c g apart cell small at =
          success-Done i (release_block b now) (IsCache-release b now c apart) g at
      first_get-Done now none c g apart cell small at =
          insert-Done (others now) (env.keeps now c) (λ k j h. env.grown now k j (g k j h))
            (env.apart now apart) (env.mine now ∙ cell) (omega (arith, small, env.later now))
