-- ===== src/Cache/Entries.antt =====
-- serde.c: the hash table of types against the array of serialized methods, and the registry's table
-- against the hash table.
use flua_ck.Base.{
  ℕ, ◌≤◌, ◌<◌, ◌≡◌, refl, ap, ◌∙◌, ◌≢◌, ◌⊎◌, inl, inr, true, false, some, List, [], ◌∷◌, ◌++◌,
  arith, ◌==◌, Bool-cases, get_elem?,
}
use flua_ck.Memory.{Mem, IsFresh}
use flua_ck.Cache.{CkHt, Registered, Cache, cache_type, without_type, success}
use flua_ck.Serialize.{Lua}
use flua_ck.Serialize.Format.{encode}
use flua_ck.Value.{Value}

-- ck_ht(3): a put adds the key where it succeeds, and never changes what another key has.
pub record CkHtLaws {H : Type 0} (ht : CkHt H) : Type 0 where
  pub put_same :
      (h : H) (k : List ℕ) (i : ℕ) → (ht.put h k i).0 ≡ true → ht.get (ht.put h k i).1 k ≡ some i
  pub put_kept :
      (h : H) (k : List ℕ) (i : ℕ) (k' : List ℕ) (j : ℕ)
      → ht.get h k' ≡ some j
      → ht.get (ht.put h k i).1 k' ≡ some j
  pub put_new :
      (h : H) (k : List ℕ) (i : ℕ) (k' : List ℕ) (j : ℕ)
      → ht.get (ht.put h k i).1 k' ≡ some j
      → (ht.get h k' ≡ some j) ⊎ (((ht.put h k i).0 ≡ true) × (k' ≡ k) × (j ≡ i))

module _ {H : Type 0} (ht : CkHt H) (lua : Lua) where
  -- The array has the bytes of `key` at `i`.
  abbrev pub EntryAt : Cache H → ℕ → List ℕ → Type 0
  EntryAt st i key = (b : ℕ) × (get_elem? st.blocks i ≡ some b) × (st.mem.cell b ≡ some key)

  -- the type that the hash table has for these methods
  abbrev pub HasType : Cache H → Value → Value → ℕ → Type 0
  HasType st ser de t =
      (first : List ℕ) × (second : List ℕ) × (i : ℕ) × (encode lua ser ≡ some first)
      × (encode lua de ≡ some second)
      × (ht.get st.types (first ++ second) ≡ some i)
      × (t ≡ cache_type i)

  abbrev pub AllKnown : Cache H → List Registered → Type 0
  AllKnown st [] = Unit {0}
  AllKnown st (r ∷ rs) = HasType st r.serialize r.deserialize r.type × AllKnown st rs

  pub record IsCache (st : Cache H) : Type 0 where
    pub indexed : (key : List ℕ) (i : ℕ) → ht.get st.types key ≡ some i → EntryAt st i key
    pub known : AllKnown st st.registry
    pub given : (i b : ℕ) → get_elem? st.blocks i ≡ some b → b < st.mem.tick
    pub fresh : IsFresh st.mem

  -- No pair of methods loses its index.
  abbrev pub Grown : Cache H → Cache H → Type 0
  Grown st st' =
      (key : List ℕ) (i : ℕ) → ht.get st.types key ≡ some i → ht.get st'.types key ≡ some i

  pub AllKnown-Grown :
      (st st' : Cache H) (rs : List Registered) → Grown st st' → AllKnown st rs → AllKnown st' rs
  AllKnown-Grown st st' [] g a = tt
  AllKnown-Grown st st' (r ∷ rs) g ((first, second, i, hs, hd, at, t), a) =
      ((first, second, i, hs, hd, g (first ++ second) i at, t), AllKnown-Grown st st' rs g a)

  AllKnown-without :
      (st : Cache H) (t : ℕ) (rs : List Registered)
      → AllKnown st rs
      → AllKnown st (without_type t rs)
  unfolding without_type
  AllKnown-without st t [] a = tt
  AllKnown-without st t (r ∷ rs) a = elim (Bool-cases (r.type == t)) [
    | inl q ↦ rw q (AllKnown-without st t rs a.1)
    | inr q ↦ rw q (a.0, AllKnown-without st t rs a.1)
  ]

  -- A block that is in no place of the array.
  abbrev pub Private : ℕ → Cache H → Type 0
  Private b st = (i : ℕ) → get_elem? st.blocks i ≢ some b

  -- Memory may change but for the blocks in the array.
  pub IsCache-mem :
      (b : ℕ) (st : Cache H) (m : Mem)
      → IsCache st
      → Private b st
      → ((p : ℕ) → (b == p) ≡ false → m.cell p ≡ st.mem.cell p)
      → st.mem.tick ≤ m.tick
      → IsFresh m
      → IsCache (record st { mem = m })
  IsCache-mem b st m c apart same later fresh = record {
    indexed =
        λ key i h. let (p, at, cell) = c.indexed key i h in (p, at, same p (other p i at) ∙ cell);
    known = AllKnown-Grown st (record st { mem = m }) st.registry (λ key i h. h) c.known;
    given = λ i p at. omega (arith, c.given i p at, later);
    fresh = fresh;
  }
    where
      equal : (p q : ℕ) → (p == q) ≡ true → q ≡ p
      equal p q e = ground arith

      other : (p i : ℕ) → get_elem? st.blocks i ≡ some p → (b == p) ≡ false
      other p i at = elim (Bool-cases (b == p)) [
        | inl e ↦ absurd (apart i (at ∙ ap some (equal b p e)))
        | inr n ↦ n
      ]

  -- The registry's table may learn a pair that the hash table has.
  pub IsCache-success :
      (ser de : Value) (i : ℕ) (st : Cache H) {first second : List ℕ}
      → IsCache st
      → encode lua ser ≡ some first
      → encode lua de ≡ some second
      → ht.get st.types (first ++ second) ≡ some i
      → IsCache (success ser de i st).1
  unfolding success
  IsCache-success ser de i st {first} {second} c hs hd at = record {
    indexed = c.indexed;
    known = (
      (first, second, i, hs, hd, at, refl),
      AllKnown-without st (cache_type i) st.registry c.known,
    );
    given = c.given;
    fresh = c.fresh;
  }
