-- ===== src/Cache/Lifetime.antt =====
-- serde.c: how the allocator of the hash table frees, and the destructor of the module. ck_ht_destroy and
-- ck_epoch are parameters.
use flua_ck.Base.{
  ℕ, zero, suc, ◌-◌, ◌^◌, ◌≡◌, refl, ap, ◌∙◌, Bool, true, false, ◌||◌, Bool-cases, inl, inr, Option,
  none, some, List, [], ◌∷◌, ◌==◌, if◌then◌else◌, length, get_elem?, take, arith,
}
use flua_ck.Cache.{Cache}
use flua_ck.Memory.{Mem, free}

-- The pointer behind the entry, at the beginning of a block, is the block's number.
unfoldable pub serde_ck_destroy : ℕ → Mem → Mem
serde_ck_destroy entry m = free (some entry) m

-- ck_epoch_call, on a record and an entry; ck_epoch_reclaim, with the entries whose functions it calls;
-- and ck_epoch_unregister
pub record CkEpoch (E : Type 0) : Type 0 where
  pub call : ℕ → ℕ → E → E
  pub reclaim : ℕ → E → List ℕ × E
  pub unregister : ℕ → E → E

-- `thread_record` is thread_serde_cache_record.
pub record Deferral (E : Type 0) : Type 0 where
  pub epoch : E
  pub mem : Mem
  pub thread_record : Option ℕ

-- the blocks that ck_ht_destroy gives to the allocator's `free`, to be freed at once
pub record CkHtMemory (H : Type 0) : Type 0 where
  pub destroy : H → List ℕ

-- `while (serde_cache_len-- > 0) free(serde_cache[serde_cache_len]);`, with what is left in the
-- `unsigned int`
free_cache : List ℕ → ℕ → Mem → ℕ × Mem
free_cache blocks zero m = (2 ^ 32 - 1, m)
free_cache blocks (suc n) m = free_cache blocks n (free (get_elem? blocks n) m)

destroy_all : List ℕ → Mem → Mem
unfolding serde_ck_destroy
destroy_all [] m = m
destroy_all (e ∷ es) m = destroy_all es (serde_ck_destroy e m)

module _ {E : Type 0} (ck : CkEpoch E) (module_record : ℕ) where
  record_of : Option ℕ → ℕ
  record_of none = module_record
  record_of (some r) = r

  unfoldable pub serde_ck_free : ℕ → Bool → Deferral E → Deferral E
  unfolding record_of
  serde_ck_free p true s = record s { epoch = ck.call (record_of s.thread_record) p s.epoch }
  serde_ck_free p false s = record s { mem = free (some p) s.mem }

  free_table : List ℕ → Deferral E → Deferral E
  unfolding serde_ck_free
  free_table [] s = s
  free_table (p ∷ ps) s = free_table ps (serde_ck_free p false s)

  reclaimed : Deferral E → List ℕ × E → Deferral E
  unfolding destroy_all
  reclaimed s (es, e) = record s {
    epoch = ck.unregister module_record e;
    mem = destroy_all es s.mem;
  }

  ended : List ℕ → Deferral E → ℕ × Deferral E
  unfolding free_cache
  ended blocks s =
      let (len, m) = free_cache blocks (length blocks) s.mem in (len, record s { mem = m })

  -- with serde_cache_len at the end
  unfoldable pub fini_serde_cache : {H : Type 0} → CkHtMemory H → Cache H → E → ℕ × Deferral E
  unfolding free_table reclaimed ended
  fini_serde_cache hm c e =
      let s =
        free_table (hm.destroy c.types) (record { epoch = e; mem = c.mem; thread_record = none }) in
      ended c.blocks (reclaimed s (ck.reclaim module_record s.epoch))

abbrev pub contains : List ℕ → ℕ → Bool
contains [] q = false
contains (p ∷ ps) q = (p == q) || contains ps q

destroy_all-cell :
    (es : List ℕ) (m : Mem) (q : ℕ)
    → (destroy_all es m).cell q ≡ (if contains es q then none else m.cell q)
unfolding destroy_all serde_ck_destroy free
destroy_all-cell [] m q = refl
destroy_all-cell (e ∷ es) m q = destroy_all-cell es (serde_ck_destroy e m) q ∙ ground arith

take-free :
    (blocks : List ℕ) (n : ℕ) (m : Mem) (q : ℕ)
    → (if contains (take n blocks) q then none else (free (get_elem? blocks n) m).cell q)
      ≡ (if contains (take (suc n) blocks) q then none else m.cell q)
unfolding free
take-free [] zero m q = refl
take-free [] (suc n) m q = refl
take-free (b ∷ bs) zero m q = ground arith
take-free (b ∷ bs) (suc n) m q = elim (Bool-cases (b == q)) [
  | inl same ↦ rw same refl
  | inr other ↦ rw other (take-free bs n m q)
]

free_cache-cell :
    (blocks : List ℕ) (n : ℕ) (m : Mem) (q : ℕ)
    → ((free_cache blocks n m).0 ≡ 2 ^ 32 - 1)
      × ((free_cache blocks n m).1.cell q ≡ (if contains (take n blocks) q then none else m.cell q))
unfolding free_cache free
free_cache-cell blocks zero m q = (refl, refl)
free_cache-cell blocks (suc n) m q =
    let (l, c) = free_cache-cell blocks n (free (get_elem? blocks n) m) q in
    (l, c ∙ take-free blocks n m q)

free_table-cell :
    {E : Type 0} (ck : CkEpoch E) (module_record : ℕ) (ps : List ℕ) (s : Deferral E) (q : ℕ)
    → ((free_table ck module_record ps s).epoch ≡ s.epoch)
      × ((free_table ck module_record ps s).mem.cell q
          ≡ (if contains ps q then none else s.mem.cell q))
unfolding free_table serde_ck_free free
free_table-cell ck module_record [] s q = (refl, refl)
free_table-cell ck module_record (p ∷ ps) s q =
    let (e, c) = free_table-cell ck module_record ps (serde_ck_free ck module_record p false s) q in
    (e, c ∙ ground arith)

or_else_none :
    (a b c : Bool) (x : Option (List ℕ))
    → (if a then none else if b then none else if c then none else x)
      ≡ (if a || b || c then none else x)
or_else_none a b c x = ground arith

take_all : (xs : List ℕ) → take (length xs) xs ≡ xs
take_all [] = refl
take_all (x ∷ xs) = ap (◌∷◌ x) (take_all xs)

-- The destructor frees the blocks of serde_cache, those of the hash table and those that wait for the
-- module's record of the epoch, and no others. The loop ends with serde_cache_len at UINT_MAX.
pub fini_serde_cache-cell :
    {E H : Type 0} (ck : CkEpoch E) (module_record : ℕ) (hm : CkHtMemory H) (c : Cache H) (e : E)
    (q : ℕ)
    → ((fini_serde_cache ck module_record hm c e).0 ≡ 2 ^ 32 - 1)
      × ((fini_serde_cache ck module_record hm c e).1.mem.cell q ≡ (
          if contains c.blocks q
            || contains (ck.reclaim module_record e).0 q
            || contains (hm.destroy c.types) q
          then none
          else c.mem.cell q))
unfolding fini_serde_cache ended reclaimed
fini_serde_cache-cell ck module_record hm c e q =
    let s =
      free_table ck module_record (hm.destroy c.types)
        (record { epoch = e; mem = c.mem; thread_record = none }) in
    let (same, table) =
      free_table-cell ck module_record (hm.destroy c.types)
        (record { epoch = e; mem = c.mem; thread_record = none }) q in
    let reclaimed_first = (ck.reclaim module_record s.epoch).0 in
    let (len, loop) =
      free_cache-cell c.blocks (length c.blocks) (destroy_all reclaimed_first s.mem) q in
    (
      len,
      loop
          ∙ rw (take_all c.blocks, destroy_all-cell reclaimed_first s.mem q, table, same)
              (or_else_none (contains c.blocks q) (contains (ck.reclaim module_record e).0 q)
                (contains (hm.destroy c.types) q) (c.mem.cell q)),
    )
