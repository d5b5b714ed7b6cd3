-- ===== src/Cache/Custom.antt =====
-- serde.c: the case of loadsharedimpl for a custom type, which calls the `deserialize` method of the
-- type on a stream of the bytes of the value.
pub mod Reload
use flua_ck.Base.{
  ℕ, ◌-◌, Bool, true, false, Option, none, some, List, [], ◌∷◌, ◌++◌, ◌==◌, if◌then◌else◌, length,
  take, get_elem?, leb,
}
use flua_ck.Base.Words.{un_le}
use flua_ck.Cache.{Cache, Registered, without_type}
use flua_ck.Load.{Loaded, loaded, failed, fault, stuck, loadshared, consume}
use flua_ck.Transport.{Runtime}
use flua_ck.Value.{Value}

-- `custom`: the read position that is returned, the value that `deserialize` answered, and the entry
-- of the registry that becomes its metatable. `message`: NULL, with a message on the stack.
-- `out_of_bounds`: a read behind a block or the array, or of a block that is gone.
pub data CustomLoad : Type 0 where
  custom : List ℕ → Value → Registered → CustomLoad
  message : CustomLoad
  out_of_bounds : CustomLoad

-- `lua_rawgeti(L, -1, type)`
unfoldable pub find_type : ℕ → List Registered → Option Registered
find_type t [] = none
find_type t (r ∷ rs) = if r.type == t then some r else find_type t rs

-- `lua_pcall` of `deserialize` on the stream: an error, or the value
called : List ℕ → Registered → Option Value → CustomLoad
called p r none = message
called p r (some x) = custom p x r

abbrev pub methods : ℕ → Value → Value → Registered
methods type ser de = record { type = type; serialize = ser; deserialize = de }

module _ {H : Type 0} where
  -- `serde_cache[type - SERDE_CUSTOM]` and the block that it points to
  block_contents : Option ℕ → Cache H → Option (List ℕ)
  block_contents none st = none
  block_contents (some b) st = st.mem.cell b

  module _ (rt : Runtime) (call : Value → List ℕ → Option Value) where
    call_deserialize : List ℕ → List ℕ → Registered → Cache H → CustomLoad × Cache H
    unfolding called
    call_deserialize p stream r st = (called p r (call r.deserialize stream), st)

    -- after both methods are loaded: the entry for `type` is set in the registry's table
    add_methods : List ℕ → List ℕ → ℕ → Value → Value → Cache H → CustomLoad × Cache H
    unfolding call_deserialize
    add_methods p stream type ser de st =
        call_deserialize p stream (methods type ser de)
          (record st { registry = methods type ser de ∷ without_type type st.registry })

    second_method : List ℕ → List ℕ → ℕ → Value → Cache H → Loaded → CustomLoad × Cache H
    unfolding add_methods
    second_method p stream type ser st (loaded rest env (de ∷ vs)) =
        add_methods p stream type ser de st
    second_method p stream type ser st (loaded rest env []) = (out_of_bounds, st)
    second_method p stream type ser st (failed m env) = (message, st)
    second_method p stream type ser st fault = (out_of_bounds, st)
    second_method p stream type ser st stuck = (out_of_bounds, st)

    first_method : List ℕ → List ℕ → ℕ → Cache H → Loaded → CustomLoad × Cache H
    unfolding second_method
    first_method p stream type st (loaded rest env (ser ∷ vs)) =
        second_method p stream type ser st
          (loadshared rt.lua rt.globals rt.load_custom rt.garbage rest)
    first_method p stream type st (loaded rest env []) = (out_of_bounds, st)
    first_method p stream type st (failed m env) = (message, st)
    first_method p stream type st fault = (out_of_bounds, st)
    first_method p stream type st stuck = (out_of_bounds, st)

    load_methods : List ℕ → List ℕ → ℕ → Cache H → Option (List ℕ) → CustomLoad × Cache H
    unfolding first_method
    load_methods p stream type st none = (out_of_bounds, st)
    load_methods p stream type st (some block) =
        first_method p stream type st (loadshared rt.lua rt.globals rt.load_custom rt.garbage block)

    with_methods : List ℕ → List ℕ → ℕ → Cache H → Option Registered → CustomLoad × Cache H
    unfolding call_deserialize load_methods block_contents
    with_methods p stream type st (some r) = call_deserialize p stream r st
    with_methods p stream type st none =
        load_methods p stream type st (block_contents (get_elem? st.blocks (type - 9)) st)

    -- `fmemopen` of that many bytes may fail. The bytes of the stream have to lie in the block.
    with_stream : (ℕ → Bool) → ℕ → Cache H → Option (List ℕ × List ℕ) → CustomLoad × Cache H
    unfolding with_methods
    with_stream fmemopen type st none = (out_of_bounds, st)
    with_stream fmemopen type st (some (size, p)) =
        if fmemopen (un_le size)
        then if leb (un_le size) (length p)
          then with_methods p (take (un_le size) p) type st (find_type type st.registry)
          else (out_of_bounds, st)
        else (message, st)

    -- the `default` case, behind the type code; `p` that it returns stands behind the size
    unfoldable pub load_custom_value : (ℕ → Bool) → ℕ → List ℕ → Cache H → CustomLoad × Cache H
    unfolding with_stream
    load_custom_value fmemopen type bs st = with_stream fmemopen type st (consume 8 bs)
