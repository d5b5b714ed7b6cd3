-- ===== src/Custom.antt =====
-- An object with `serialize` and `deserialize` methods on its way from one Lua state to another:
-- the case SERDE_CUSTOM of serdebuf_serialize in serdebuf.c, with cache_serde and
-- serdebuf_serialize_custom, and loadshared in serde.c with the cache at hand.
pub mod Sent
pub mod RoundTrip
use flua_ck.Base.{ℕ, Bool, true, false, Option, none, some, List, [], ◌∷◌, if◌then◌else◌, leb, ltb}
use flua_ck.Base.Words.{un_le}
use flua_ck.Cache.{CkHt, Cache, Cached, typed, failed, overrun, aborted, cache_serde}
use flua_ck.Cache.Custom.{CustomLoad, custom, message, out_of_bounds, load_custom_value}
use flua_ck.Load.{Loaded, consume, invalid_type, loadshared}
use flua_ck.Load.{failed as load_failed}
use flua_ck.Serdebuf.{
  Errno, Status, ok, error, raised, Serdebuf, State, and_then, patch, serdebuf_size,
  serdebuf_append,
}
use flua_ck.Serialize.Custom.{Script, serdebuf_serialize_custom}
use flua_ck.Transport.{Runtime}
use flua_ck.Value.{Value, serde_custom, type_code, lua_isfunction}

-- The buffer, and the cache with the memory of both.
pub record Session (H : Type 0) : Type 0 where
  pub sb : Serdebuf
  pub cache : Cache H

-- What serdebuf_serialize answers, a write behind the end of serde_cache, or an assertion that fails.
pub data Served (H : Type 0) : Type 0 where
  served : Status → Session H → Served H
  overran : Session H → Served H
  aborts : Session H → Served H

module _ {H : Type 0} where
  abbrev pub state_of : Session H → State
  state_of se = record { sb = se.sb; mem = se.cache.mem }

  -- a session in which a step on the buffer has left `s`
  abbrev pub session_of : Cache H → State → Session H
  session_of c s = record { sb = s.sb; cache = record c { mem = s.mem } }

  returned : Cache H → Status × State → Served H
  returned c (status, s) = served status (session_of c s)

  module _ (rt : Runtime) (fwopen : Option Errno) (script : Script) where
    -- serdebuf_serialize_custom, which asserts that `serialize` is a function
    call_serialize : Value → Cache H → Status × State → Served H
    unfolding returned
    call_serialize ser c r =
        if lua_isfunction ser
        then returned c (and_then r (serdebuf_serialize_custom rt.md fwopen script))
        else aborts (session_of c r.1)

    -- `memcpy` of the type code, and the `serialize` method
    with_type : Value → ℕ → Serdebuf → Cached × Cache H → Served H
    unfolding call_serialize
    with_type ser offset sb (typed t, c) =
        call_serialize ser c (patch offset (t ∷ []) (record { sb = sb; mem = c.mem }))
    with_type ser offset sb (failed status, c) = served status (record { sb = sb; cache = c })
    with_type ser offset sb (overrun, c) = overran (record { sb = sb; cache = c })
    with_type ser offset sb (aborted, c) = aborts (record { sb = sb; cache = c })

    module _ (ht : CkHt H) (rawequal : Value → Value → Bool) (others : Cache H → Cache H) where
      after_code : Value → Value → ℕ → Cache H → Status × State → Served H
      unfolding with_type returned
      after_code ser de offset c (ok, s) =
          with_type ser offset s.sb
            (cache_serde ht rawequal rt others ser de (record c { mem = s.mem }))
      after_code ser de offset c (error e, s) = returned c (error e, s)
      after_code ser de offset c (raised, s) = returned c (raised, s)

      -- serdebuf_serialize of an object with these methods, where `serialize` does what `script` says.
      -- The type code is SERDE_CUSTOM at first.
      unfoldable pub serialize_object : Value → Value → Session H → Served H
      unfolding after_code
      serialize_object ser de se =
          after_code ser de (serdebuf_size (state_of se)) se.cache
            (serdebuf_append rt.md (type_code serde_custom ∷ []) (state_of se))

-- What loadshared finds: a value of a built-in type, or of a custom one.
pub data ObjectLoad : Type 0 where
  built_in : Loaded → ObjectLoad
  custom_type : CustomLoad → ObjectLoad

-- the end of `loadshared`; `env` is not initialised.
check_custom : Bool → CustomLoad → CustomLoad
check_custom true (custom p v r) = message
check_custom true c = c
check_custom false c = c

module _ {H : Type 0} (rt : Runtime) (call : Value → List ℕ → Option Value)
    (fmemopen : ℕ → Bool) where
  checked_load : CustomLoad × Cache H → ObjectLoad × Cache H
  unfolding check_custom
  checked_load (l, c) = (custom_type (check_custom rt.garbage l), c)

  -- the switch on the type, an int8_t
  load_typed : List ℕ → Cache H → Option (List ℕ × List ℕ) → ObjectLoad × Cache H
  unfolding checked_load
  load_typed bs c none = (custom_type out_of_bounds, c)
  load_typed bs c (some (type, rest)) =
      if leb 128 (un_le type)
      then (built_in (load_failed invalid_type rt.garbage), c)
      else if ltb (un_le type) 9
      then (built_in (loadshared rt.lua rt.globals rt.load_custom rt.garbage bs), c)
      else checked_load (load_custom_value rt call fmemopen (un_le type) rest c)

  unfoldable pub load_object : List ℕ → Cache H → ObjectLoad × Cache H
  unfolding load_typed
  load_object bs c = load_typed bs c (consume 1 bs)
