-- ===== src/Cache.antt =====
-- serde.c: cache_serde, which gives the `serialize` and `deserialize` methods of an object a type code.
-- All threads share an array of serialized pairs of methods and a hash table from the bytes of a pair to
-- its index; each thread keeps the methods that it has met in a table of its registry.
pub mod Custom
pub mod Pairs
pub mod Entries
pub mod Insert
pub mod Types
pub mod Lifetime
use flua_ck.Base.{
  ℕ, ◌+◌, ◌%◌, ◌^◌, Bool, true, false, ◌&&◌, Option, none, some, List, [], ◌∷◌, ◌++◌, ◌==◌, ltb,
  leb, if◌then◌else◌, length,
}
use flua_ck.Memory.{Mem, free}
use flua_ck.Serdebuf.{
  einval, enomem, eoverflow, Status, ok, error, raised, State, serdebuf_finalize,
}
use flua_ck.Serialize.{serdebuf_init, serdebuf_serialize}
use flua_ck.Transport.{Runtime}
use flua_ck.Value.{
  Value, SerdeType, serde_lclosure, serde_cclosure, serde_any, serde_type, getserdemethods,
  lua_isfunction,
}

-- ck_ht_get_spmc and ck_ht_put_spmc on byte strings; a put of a key that is there fails.
pub record CkHt (H : Type 0) : Type 0 where
  pub get : H → List ℕ → Option ℕ
  pub put : H → List ℕ → ℕ → Bool × H

-- an entry `type => {serialize=fn, deserialize=fn}` of the registry's table
pub record Registered : Type 0 where
  pub type : ℕ
  pub serialize : Value
  pub deserialize : Value

-- `blocks` is serde_cache up to serde_cache_len, `types` is serde_cache_types, and `registry` the table
-- of this thread.
pub record Cache (H : Type 0) : Type 0 where
  pub blocks : List ℕ
  pub types : H
  pub mem : Mem
  pub registry : List Registered

abbrev pub serde_cache_capacity : ℕ
serde_cache_capacity = 256

abbrev pub uint16_max : ℕ
uint16_max = 0xffff

-- What cache_serde answers: the type code as a byte, an error, a write behind the end of serde_cache, or
-- an assertion that fails.
pub data Cached : Type 0 where
  typed : ℕ → Cached
  failed : Status → Cached
  overrun : Cached
  aborted : Cached

-- The serialized methods, with their length, an error, or an assertion that fails.
pub data Pair : Type 0 where
  paired : ℕ → List ℕ → Pair
  unpaired : Status → Pair
  aborted_pair : Pair

-- `type == SERDE_LCLOSURE || type == SERDE_CCLOSURE`
unfoldable pub is_closure_type : SerdeType → Bool
is_closure_type serde_lclosure = true
is_closure_type serde_cclosure = true
is_closure_type _ = false

pair_final : List ℕ → Option ℕ × State → Pair × Mem
pair_final bytes (none, s) = (unpaired (error enomem), s.mem)
pair_final bytes (some b, s) = (paired b bytes, s.mem)

pair_second : Value → Status × State → Pair × Mem
unfolding pair_final
pair_second de (ok, s) =
    if is_closure_type (serde_type de)
    then pair_final s.sb.bytes (serdebuf_finalize s)
    else (aborted_pair, s.mem)
pair_second de (error e, s) = (unpaired (error e), s.mem)
pair_second de (raised, s) = (unpaired raised, s.mem)

module _ (rt : Runtime) where
  pair_first : Value → Value → Status × State → Pair × Mem
  unfolding pair_second
  pair_first ser de (ok, s) =
      if is_closure_type (serde_type ser)
      then pair_second de (serdebuf_serialize rt.md rt.lua rt.custom de serde_any s)
      else (aborted_pair, s.mem)
  pair_first ser de (error e, s) = (unpaired (error e), s.mem)
  pair_first ser de (raised, s) = (unpaired raised, s.mem)

  pair_init : Value → Value → Status × State → Pair × Mem
  unfolding pair_first
  pair_init ser de (ok, s) =
      pair_first ser de (serdebuf_serialize rt.md rt.lua rt.custom ser serde_any s)
  pair_init ser de (error e, s) = (unpaired (error e), s.mem)
  pair_init ser de (raised, s) = (unpaired raised, s.mem)

  -- serdebuf_init on `deserialize`, then both methods, each asserted to be a function, then serdebuf_finalize. No error path destroys
  -- the buffer.
  unfoldable pub serialize_pair : Value → Value → Mem → Pair × Mem
  unfolding pair_init
  serialize_pair ser de m = pair_init ser de (serdebuf_init rt.md de m)

-- `type = i + SERDE_CUSTOM`, an int8_t
unfoldable pub cache_type : ℕ → ℕ
cache_type i = (i + 9) % 2 ^ 8

-- `lua_rawseti(L, -2, type)` replaces an entry of the same type.
unfoldable pub without_type : ℕ → List Registered → List Registered
without_type t [] = []
without_type t (r ∷ rs) = if r.type == t then without_type t rs else r ∷ without_type t rs

module _ {H : Type 0} where
  -- the end of cache_serde, at `success`
  unfoldable pub success : Value → Value → ℕ → Cache H → Cached × Cache H
  success ser de i st = (
    if lua_isfunction ser then typed (cache_type i) else aborted,
    record st {
      registry =
          record { type = cache_type i; serialize = ser; deserialize = de }
          ∷ without_type (cache_type i) st.registry;
    },
  )

  unfoldable pub release_block : ℕ → Cache H → Cache H
  release_block b st = record st { mem = free (some b) st.mem }

  module _ (ht : CkHt H) where
    -- `get` again after a put that failed
    get_again : Value → Value → ℕ → Cache H → Option ℕ → Cached × Cache H
    unfolding release_block
    get_again ser de b st none = (failed (error enomem), release_block b st)
    get_again ser de b st (some i) = success ser de i (release_block b st)

    -- `others` is what other threads do before the lock is taken, and after it is released.
    put_result :
        (Cache H → Cache H) → Value → Value → ℕ → List ℕ → Cache H → Bool × H → Cached × Cache H
    unfolding get_again
    put_result others ser de b key st (true, h) =
        success ser de (length st.blocks) (record st { blocks = st.blocks ++ (b ∷ []); types = h })
    put_result others ser de b key st (false, h) =
        let st' = others (record st { types = h }) in get_again ser de b st' (ht.get st'.types key)

    -- under serde_cache_lock
    insert : (Cache H → Cache H) → Value → Value → ℕ → List ℕ → Cache H → Cached × Cache H
    unfolding put_result
    insert others ser de b key st =
        if ltb (length st.blocks) serde_cache_capacity
        then put_result others ser de b key st (ht.put st.types key (length st.blocks))
        else (overrun, st)

    unfoldable pub first_get :
        (Cache H → Cache H) → Value → Value → ℕ → List ℕ → Cache H → Option ℕ → Cached × Cache H
    unfolding insert release_block
    first_get others ser de b key st (some i) = success ser de i (release_block b st)
    first_get others ser de b key st none = insert others ser de b key (others st)

    use_pair : (Cache H → Cache H) → Value → Value → Cache H → Pair × Mem → Cached × Cache H
    unfolding first_get release_block
    use_pair others ser de st (unpaired status, m) = (failed status, record st { mem = m })
    use_pair others ser de st (aborted_pair, m) = (aborted, record st { mem = m })
    use_pair others ser de st (paired b key, m) =
        if ltb uint16_max (length key)
        then (failed (error eoverflow), release_block b (record st { mem = m }))
        else first_get others ser de b key (record st { mem = m }) (ht.get st.types key)

    module _ (rawequal : Value → Value → Bool) where
      -- the loop over the registry's table
      unfoldable pub search_registry : Value → Value → List Registered → Option ℕ
      search_registry ser de [] = none
      search_registry ser de (r ∷ rs) =
          if rawequal ser r.serialize && rawequal de r.deserialize
          then some r.type
          else search_registry ser de rs

      searched :
          Runtime → (Cache H → Cache H) → Value → Value → Cache H → Option ℕ → Cached × Cache H
      unfolding use_pair
      searched rt others ser de st (some t) = (typed t, st)
      searched rt others ser de st none =
          use_pair others ser de st (serialize_pair rt ser de st.mem)

      -- cache_serde, for an object with these metafields
      unfoldable pub cache_serde :
          Runtime → (Cache H → Cache H) → Value → Value → Cache H → Cached × Cache H
      unfolding searched
      cache_serde rt others ser de st =
          if getserdemethods ser de
          then searched rt others ser de st (search_registry ser de st.registry)
          else (failed (error einval), st)
