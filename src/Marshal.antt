-- ===== src/Marshal.antt =====
-- How every container turns a Lua value into one block: serdebuf_init, serdebuf_serialize and
-- serdebuf_finalize, with their error paths, as they stand in the enqueue functions of ring.c and
-- fifo.c.
pub mod Cases
pub mod Total
use flua_ck.Base.{ℕ, Option, none, some}
use flua_ck.Memory.{Mem}
use flua_ck.Serdebuf.{
  Md, Errno, enomem, Status, ok, error, raised, State, serdebuf_finalize, serdebuf_destroy,
}
use flua_ck.Serialize.{Lua, serdebuf_init, serdebuf_serialize}
use flua_ck.Value.{Value, serde_any}

-- the first argument of `fatal`
pub data Source : Type 0 where
  from_malloc from_init from_serialize from_finalize from_shared : Source

-- A block with the serialized value, or the error that is raised: `fatal` with its source, or the
-- error that a custom serializer left on the stack.
pub data Marshalled : Type 0 where
  block : ℕ → Marshalled
  fatal : Source → Errno → Marshalled
  lua_error : Marshalled

finalize_with : Option ℕ × State → Marshalled × Mem
finalize_with (none, s) = (fatal from_finalize enomem, (serdebuf_destroy s).mem)
finalize_with (some p, s) = (block p, s.mem)

serialize_with : Status × State → Marshalled × Mem
unfolding finalize_with
serialize_with (ok, s) = finalize_with (serdebuf_finalize s)
serialize_with (error e, s) = (fatal from_serialize e, (serdebuf_destroy s).mem)
serialize_with (raised, s) = (lua_error, (serdebuf_destroy s).mem)

module _ (md : Md) (lua : Lua) (custom : ℕ → Value → State → Status × State) where
  -- `serdebuf_init` never raises.
  init_with : Value → Status × State → Marshalled × Mem
  unfolding serialize_with
  init_with v (ok, s) = serialize_with (serdebuf_serialize md lua custom v serde_any s)
  init_with v (error e, s) = (fatal from_init e, s.mem)
  init_with v (raised, s) = (lua_error, s.mem)

  unfoldable pub marshal : Value → Mem → Marshalled × Mem
  unfolding init_with
  marshal v m = init_with v (serdebuf_init md v m)
