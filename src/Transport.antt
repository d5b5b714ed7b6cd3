-- ===== src/Transport.antt =====
-- How a container hands a serialized value to Lua: `ok = loadshared(L, v) != NULL; free(v);`, as the
-- dequeue functions of ring.c and fifo.c end.
pub mod Encoded
use flua_ck.Base.{ℕ, Bool, true, Option, none, some, List, [], ◌∷◌}
use flua_ck.Handle.{Answer, values, raises, fault, load_error}
use flua_ck.Load.{Loaded, loaded, failed, stuck, Loader, loadshared}
use flua_ck.Memory.{Mem, free}
use flua_ck.Serdebuf.{Md, State, Status}
use flua_ck.Serialize.{Lua}
use flua_ck.Value.{Value, boolean}

-- What the code runs in: the machine, liblua, the custom serdes, the global environment of the Lua
-- state, and what the uninitialised `env` of `loadshared` holds.
pub record Runtime : Type 0 where
  pub md : Md
  pub lua : Lua
  pub custom : ℕ → Value → State → Status × State
  pub load_custom : ℕ → Loader
  pub globals : Value
  pub garbage : Bool

-- `return (ok ? 2 : lua_error(L))`, with `true` under the loaded value
unfoldable pub answer_loaded : Loaded → Answer
answer_loaded (loaded rest env []) = fault
answer_loaded (loaded rest env (v ∷ stack)) = values (boolean true ∷ v ∷ [])
answer_loaded (failed msg env) = raises (load_error msg)
answer_loaded Loaded.fault = fault
answer_loaded stuck = fault

module _ (rt : Runtime) where
  unfoldable pub load_block : Option (List ℕ) → Answer
  load_block none = fault
  load_block (some bytes) =
      answer_loaded (loadshared rt.lua rt.globals rt.load_custom rt.garbage bytes)

  unfoldable pub take_value : ℕ → Mem → Answer × Mem
  unfolding load_block
  take_value b m = (load_block (m.cell b), free (some b) m)
