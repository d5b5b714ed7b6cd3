-- ===== src/Records.antt =====
-- shared.c: register_hp_record, l_ck_hp_record_gc and gethprecord; serde.c: register_epoch_record and
-- l_ck_epoch_record_gc. Each Lua state has a record of Concurrency Kit for as long as it is open, in a
-- userdata of its registry.
pub mod Apart
pub mod Twice
use Prim.Native.String.{String}
use flua_ck.Base.{
  ℕ, ◌+◌, ◌≡◌, ◌≢◌, Bool, true, false, Option, none, some, List, [], length, ◌==◌, if◌then◌else◌,
}
use flua_ck.Handle.{
  World, Answer, userdata, values, raises, type_error, fatal_error, Checked, cookie, refused,
  checkcookie, new, put,
}
use flua_ck.Marshal.{from_malloc}
use flua_ck.Memory.{Mem, malloc}
use flua_ck.Serdebuf.{enomem}

-- ck_hp(3), or ck_epoch(3): the domain of the records, with ck_<hp|epoch>_recycle, which marks a free
-- record as used, _register, _purge or _reclaim, and _unregister
pub record CkDomain (D : Type 0) : Type 0 where
  pub recycle : D → Option ℕ × D
  pub register : D → ℕ → D
  pub purge : D → ℕ → D
  pub unregister : D → ℕ → D

-- `registry` is the userdata that each Lua state has under the domain's key; `thread_record` is
-- thread_serde_cache_record of each C thread.
pub record System (D : Type 0) : Type 0 where
  pub domain : D
  pub world : World (Unit {0})
  pub registry : ℕ → Option ℕ
  pub thread_record : ℕ → Option ℕ

abbrev pub ck_hp_record_metatable : String
ck_hp_record_metatable = "ck_hp_record_t"

abbrev pub ck_epoch_record_metatable : String
ck_epoch_record_metatable = "ck_epoch_record_t"

-- sizeof(ck_hp_record_t) with the pointers behind it, and sizeof(ck_epoch_record_t)
pub record Sizes : Type 0 where
  pub hp_record : ℕ
  pub epoch_record : ℕ

module _ {D : Type 0} where
  -- `new`, and `lua_rawsetp` of the registry of state `l`
  with_record : String → ℕ → ℕ → System D → Answer × System D
  with_record metatable l r s = (
    values [],
    record s {
      world = (new (some r) metatable s.world).1;
      registry = put s.registry l (some (length s.world.handles));
    },
  )

  module _ (ck : CkDomain D) (sizes : Sizes) where
    no_record : Mem → System D → Answer × System D
    no_record m s =
        (raises (fatal_error from_malloc enomem), record s { world = record (s.world) { mem = m } })

    hp_allocated : ℕ → System D → Option ℕ × Mem → Answer × System D
    unfolding no_record with_record
    hp_allocated l s (none, m) = no_record m s
    hp_allocated l s (some r, m) =
        with_record ck_hp_record_metatable l r
          (record s { domain = ck.register s.domain r; world = record (s.world) { mem = m } })

    hp_recycled : ℕ → System D → Option ℕ × D → Answer × System D
    unfolding hp_allocated with_record
    hp_recycled l s (some r, d) = with_record ck_hp_record_metatable l r (record s { domain = d })
    hp_recycled l s (none, d) =
        hp_allocated l (record s { domain = d }) (malloc sizes.hp_record s.world.mem)

    -- register_hp_record, of Lua state `l`
    unfoldable pub register_hp_record : ℕ → System D → Answer × System D
    unfolding hp_recycled
    register_hp_record l s = hp_recycled l s (ck.recycle s.domain)

    -- `t` is the C thread that runs the Lua state.
    epoch_registered : ℕ → ℕ → ℕ → System D → Answer × System D
    unfolding with_record
    epoch_registered t l r s = with_record ck_epoch_record_metatable l r (record s {
      domain = ck.register s.domain r;
      thread_record = put s.thread_record t (some r);
    })

    epoch_allocated : ℕ → ℕ → System D → Option ℕ × Mem → Answer × System D
    unfolding no_record epoch_registered
    epoch_allocated t l s (none, m) = no_record m s
    epoch_allocated t l s (some r, m) =
        epoch_registered t l r (record s { world = record (s.world) { mem = m } })

    epoch_recycled : ℕ → ℕ → System D → Option ℕ × D → Answer × System D
    unfolding epoch_allocated epoch_registered
    epoch_recycled t l s (some r, d) = epoch_registered t l r (record s { domain = d })
    epoch_recycled t l s (none, d) =
        epoch_allocated t l (record s { domain = d }) (malloc sizes.epoch_record s.world.mem)

    -- register_epoch_record: the record is registered wherever it comes from.
    unfoldable pub register_epoch_record : ℕ → ℕ → System D → Answer × System D
    unfolding epoch_recycled
    register_epoch_record t l s = epoch_recycled t l s (ck.recycle s.domain)

  module _ (ck : CkDomain D) where
    record_checked : System D → Checked → Answer × System D
    record_checked s (refused e) = (raises e, s)
    record_checked s (cookie r) =
        (values [], record s { domain = ck.unregister (ck.purge s.domain r) r })

    -- l_ck_hp_record_gc and l_ck_epoch_record_gc, on the userdata `i`
    record_gc : String → ℕ → System D → Answer × System D
    unfolding record_checked
    record_gc metatable i s = record_checked s (checkcookie metatable i s.world)

    unfoldable pub l_ck_hp_record_gc : ℕ → System D → Answer × System D
    unfolding record_gc
    l_ck_hp_record_gc i s = record_gc ck_hp_record_metatable i s

    unfoldable pub l_ck_epoch_record_gc : ℕ → System D → Answer × System D
    unfolding record_gc
    l_ck_epoch_record_gc i s = record_gc ck_epoch_record_metatable i s

  record_of : System D → Option ℕ → Checked
  record_of s none = refused type_error
  record_of s (some i) = checkcookie ck_hp_record_metatable i s.world

  -- gethprecord, of Lua state `l`
  unfoldable pub gethprecord : ℕ → System D → Checked
  unfolding record_of
  gethprecord l s = record_of s (s.registry l)

-- What Concurrency Kit promises. `entries d r` says how many times the record stands on the domain's
-- list, and `used` whether it is in use.
pub record CkDomainLaws {D : Type 0} (ck : CkDomain D) : Type 0 where
  pub entries : D → ℕ → ℕ
  pub used : D → ℕ → Bool
  pub recycle_some :
      (d : D) {r : ℕ} {d' : D}
      → ck.recycle d ≡ (some r, d')
      → (entries d r ≢ 0)
        × (used d r ≡ false)
        × ((q : ℕ) → entries d' q ≡ entries d q)
        × ((q : ℕ) → used d' q ≡ (if r == q then true else used d q))
  pub recycle_none :
      (d : D) {d' : D}
      → ck.recycle d ≡ (none, d')
      → ((q : ℕ) → entries d' q ≡ entries d q) × ((q : ℕ) → used d' q ≡ used d q)
  pub register_entries :
      (d : D) (r q : ℕ)
      → entries (ck.register d r) q ≡ (if r == q then entries d q + 1 else entries d q)
  pub register_used :
      (d : D) (r q : ℕ) → used (ck.register d r) q ≡ (if r == q then true else used d q)
  pub purge_entries : (d : D) (r q : ℕ) → entries (ck.purge d r) q ≡ entries d q
  pub purge_used : (d : D) (r q : ℕ) → used (ck.purge d r) q ≡ used d q
  pub unregister_entries : (d : D) (r q : ℕ) → entries (ck.unregister d r) q ≡ entries d q
  pub unregister_used :
      (d : D) (r q : ℕ) → used (ck.unregister d r) q ≡ (if r == q then false else used d q)
