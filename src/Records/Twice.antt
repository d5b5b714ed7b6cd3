-- ===== src/Records/Twice.antt =====
-- serde.c: the records of epochs.
use flua_ck.Base.{ℕ, ◌+◌, ◌≡◌, refl, ap, sym, ◌∙◌, false, Option, none, some, [], ==_self, length}
use mathlib.Core.Option.{some-injective}
use flua_ck.Handle.{values, checkcookie, checkcookie_of, check_cookie, new}
use flua_ck.Handle.Methods.{get_elem?-snoc, put_self}
use flua_ck.Memory.{Mem, malloc}
use flua_ck.Records.{
  CkDomain, CkDomainLaws, System, Sizes, with_record, no_record, hp_recycled, register_hp_record,
  epoch_registered, epoch_allocated, epoch_recycled, register_epoch_record, record_checked,
  record_gc, l_ck_epoch_record_gc,
}

module _ {D : Type 0} {ck : CkDomain D} (laws : CkDomainLaws ck) (sizes : Sizes) where
  -- A recycled record is on the domain's list already. register_hp_record leaves it there as it is;
  -- register_epoch_record puts it on the list once more.
  pub register_epoch_record-register_hp_record :
      (t l r : ℕ) (s : System D) {d : D}
      → ck.recycle s.domain ≡ (some r, d)
      → (laws.entries (register_hp_record ck sizes l s).1.domain r ≡ laws.entries s.domain r)
        × (laws.entries (register_epoch_record ck sizes t l s).1.domain r
            ≡ laws.entries s.domain r + 1)
  unfolding register_hp_record hp_recycled register_epoch_record epoch_recycled epoch_registered
      with_record
  register_epoch_record-register_hp_record t l r s {d} q =
      let (n, free, e, u) = laws.recycle_some s.domain q in
      (rw q (e r), rw q (laws.register_entries d r r ∙ rw (==_self r) (ap (λ k. k + 1) (e r))))

  gc-registered :
      (t l r i : ℕ) (s : System D)
      → (epoch_registered ck sizes t l r s).1.registry l ≡ some i
      → (r' : ℕ) × ((l_ck_epoch_record_gc ck i
              (epoch_registered ck sizes t l r s).1).1.thread_record
            t
          ≡ some r')
        × (laws.used (l_ck_epoch_record_gc ck i (epoch_registered ck sizes t l r s).1).1.domain r'
            ≡ false)
  unfolding epoch_registered with_record l_ck_epoch_record_gc record_gc record_checked checkcookie
      new checkcookie_of check_cookie
  gc-registered t l r i s h =
      let at : (length s.world.handles ≡ i) =
        some-injective (length s.world.handles) i (sym (put_self s.registry l _) ∙ h) in
      rw (← at, get_elem?-snoc s.world.handles _)
        (r, put_self s.thread_record t _, laws.unregister_used _ r r ∙ rw (==_self r) refl)

  -- After a Lua state has opened the module and then closed, with no other state of its C thread opened
  -- in between, the thread keeps the record, which is not in use any more.
  pub l_ck_epoch_record_gc-thread_record :
      (t l i : ℕ) (s : System D)
      → (register_epoch_record ck sizes t l s).0 ≡ values []
      → (register_epoch_record ck sizes t l s).1.registry l ≡ some i
      → (r : ℕ) × ((l_ck_epoch_record_gc ck i
              (register_epoch_record ck sizes t l s).1).1.thread_record
            t
          ≡ some r)
        × (laws.used (l_ck_epoch_record_gc ck i (register_epoch_record ck sizes t l s).1).1.domain r
            ≡ false)
  unfolding register_epoch_record epoch_recycled epoch_allocated no_record
  l_ck_epoch_record_gc-thread_record t l i s fine h = by_recycle (ck.recycle s.domain) fine h
    where
      by_recycle :
          (x : Option ℕ × D)
          → (epoch_recycled ck sizes t l s x).0 ≡ values []
          → (epoch_recycled ck sizes t l s x).1.registry l ≡ some i
          → (r : ℕ) × ((l_ck_epoch_record_gc ck i
                  (epoch_recycled ck sizes t l s x).1).1.thread_record
                t
              ≡ some r)
            × (laws.used (l_ck_epoch_record_gc ck i (epoch_recycled ck sizes t l s x).1).1.domain r
                ≡ false)
      by_recycle (some r, d) fine h = gc-registered t l r i _ h
      by_recycle (none, d) fine h = by_malloc d (malloc sizes.epoch_record s.world.mem) fine h
        where
          by_malloc :
              (d : D) (x : Option ℕ × Mem)
              → (epoch_allocated ck sizes t l (record s { domain = d }) x).0 ≡ values []
              → (epoch_allocated ck sizes t l (record s { domain = d }) x).1.registry l ≡ some i
              → (r : ℕ) × ((l_ck_epoch_record_gc ck i
                      (epoch_allocated ck sizes t l (record s { domain = d }) x).1).1.thread_record
                    t
                  ≡ some r)
                × (laws.used
                      (l_ck_epoch_record_gc ck i
                        (epoch_allocated ck sizes t l (record s { domain = d }) x).1).1.domain
                      r
                    ≡ false)
          by_malloc d (none, m) fine h = cc
          by_malloc d (some r, m) fine h = gc-registered t l r i _ h
