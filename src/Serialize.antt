-- ===== src/Serialize.antt =====
-- serdebuf.c: `serdebuf_init`, `serdebuf_serialize` and the functions that it calls. The case of an
-- object with a custom serde is the parameter `custom`, given the offset of the type code and the
-- object; the part of it that runs the method is in Custom.
pub mod Format
pub mod Refine
pub mod Custom
use Prim.Native.String.{String}
use text.Mathlib.Text.{◌==◌ as str_eq}
use flua_ck.Base.{
  ℕ, suc, ◌+◌, ◌-◌, Bool, true, false, Option, none, some, List, [], ◌∷◌, ◌++◌, if◌then◌else◌, leb,
  length,
}
use flua_ck.Base.Words.{le}
use flua_ck.Memory.{Mem, malloc, granted}
use flua_ck.Serdebuf.{
  Md, Errno, einval, enomem, Status, ok, error, Serdebuf, State, Step, and_then, ◌>>◌, fail,
  cleared, add_size, serdebuf_size, serdebuf_append, patch,
}
use flua_ck.Value.{
  Value, nil, boolean, lightuserdata, integer, number, string, lclosure, cclosure, table, thread,
  Upvalues, end, upvalue, SerdeType, serde_env, serde_nil, serde_boolean, serde_lightuserdata,
  serde_integer, serde_number, serde_string, serde_cclosure, serde_lclosure, serde_custom,
  serde_invalid, serde_any, type_code, serde_type,
}

-- What the code takes from liblua: lua_dump(3) hands the binary chunk of a prototype, stripped, to
-- the writer in pieces; lua_load(3) finds the prototype of a binary chunk; a prototype has so many
-- upvalues.
pub record Lua : Type 0 where
  pub dump : ℕ → List (List ℕ)
  pub undump : List ℕ → Option ℕ
  pub nupvalues : ℕ → ℕ

-- `serde_type_size`; the last three entries are guesses at a size that is not known in advance.
unfoldable pub serde_type_size : Md → SerdeType → ℕ
serde_type_size md serde_env = 0
serde_type_size md serde_nil = 0
serde_type_size md serde_boolean = 1
serde_type_size md serde_lightuserdata = 8
serde_type_size md serde_integer = 8
serde_type_size md serde_number = 8
serde_type_size md serde_string = 8
serde_type_size md serde_cclosure = md.cacheline
serde_type_size md serde_lclosure = md.pagesize
serde_type_size md serde_custom = md.cacheline
serde_type_size md serde_invalid = 0
serde_type_size md serde_any = 0

-- `luaL_len` of a string, which `serdebuf_init` adds
unfoldable pub string_len : Value → ℕ
string_len (string bs) = length bs
string_len _ = 0

unfoldable pub init_size : Md → Value → ℕ
unfolding string_len
init_size md v = add_size (1 + serde_type_size md (serde_type v)) (string_len v)

unfoldable pub allocated : ℕ → Option ℕ × Mem → Status × State
allocated size (none, m) = (error enomem, record { sb = cleared; mem = m })
allocated size (some p, m) =
    (ok, record { sb = record { buf = some p; bytes = []; cap = size }; mem = m })

init_as : Md → Value → SerdeType → Mem → Status × State
unfolding allocated
init_as md v serde_invalid m = (error einval, record { sb = cleared; mem = m })
init_as md v _ m = allocated (init_size md v) (malloc (init_size md v) m)

unfoldable pub serdebuf_init : Md → Value → Mem → Status × State
unfolding init_as
serdebuf_init md v m = init_as md v (serde_type v) m

abbrev pub done : Step
done s = (ok, s)

-- the byte of a `bool`
abbrev pub bool_byte : Bool → ℕ
bool_byte b = if b then 1 else 0

unfoldable pub serde_type_encode : Value → SerdeType → SerdeType
serde_type_encode v serde_any = serde_type v
serde_type_encode v t = t

-- the `switch (type)` of `serdebuf_serialize`, with what the case of the value does
unfoldable pub switch_type : SerdeType → Step → Step
switch_type serde_env step = done
switch_type serde_nil step = done
switch_type serde_invalid step = fail einval
switch_type serde_any step = fail einval
switch_type _ step = step

-- Values that may not be upvalues.
abbrev pub is_compound : Value → Bool
is_compound nil = false
is_compound (boolean b) = false
is_compound (lightuserdata p) = false
is_compound (integer n) = false
is_compound (number n) = false
is_compound (string s) = false
is_compound (lclosure p us) = true
is_compound (cclosure f us) = true
is_compound (table ser de id) = true
is_compound (thread id) = true

abbrev pub is_env : String → Bool
is_env name = str_eq name "_ENV"

abbrev pub count : Upvalues → ℕ
count end = 0
count (upvalue name v rest) = suc (count rest)

-- The size goes into the place before the chunk, which is at hand once the chunk is written.
unfoldable pub put_size : ℕ → Step
put_size start s = patch (start - 8) (le 8 (serdebuf_size s - start)) s

module _ (md : Md) where
  -- lua_dump(3) gives `serdebuf_writer` one piece after the other, and stops at its first error.
  unfoldable pub serdebuf_writer : List (List ℕ) → Step
  serdebuf_writer [] = done
  serdebuf_writer (piece ∷ pieces) = serdebuf_append md piece >> serdebuf_writer pieces

  unfoldable pub serdebuf_dump : List (List ℕ) → Step
  unfolding put_size
  serdebuf_dump pieces =
      serdebuf_append md (le 8 0) >> (λ s. (serdebuf_writer pieces >> put_size (serdebuf_size s)) s)

  -- `each` is the loop over the upvalues; the count is filled in behind it.
  unfoldable pub with_count : Step → ℕ → Step
  with_count each n s =
      (serdebuf_append md (le 4 0) >> (each >> patch (serdebuf_size s) (le 4 n))) s

  -- The type code, then the case of the type. `step` takes the offset of the type code.
  unfoldable pub serialize_as : Value → SerdeType → (ℕ → Step) → Step
  serialize_as v t step s =
      let type = serde_type_encode v t in
      (serdebuf_append md (type_code type ∷ []) >> switch_type type (step (serdebuf_size s))) s

  -- one round of the loop over the upvalues, up to lua_pop
  unfoldable pub serialize_upvalue : String → Value → (SerdeType → Step) → Step
  serialize_upvalue name v serialize =
      if is_env name
      then serialize serde_env
      else if is_compound v
      then fail einval
      else serialize serde_any

  module _ (lua : Lua) (custom : ℕ → Value → Step) where
    unfoldable mutual
      pub serdebuf_serialize : Value → SerdeType → Step
      serdebuf_serialize nil t = serialize_as nil t (λ o. done)
      serdebuf_serialize (boolean b) t =
          serialize_as (boolean b) t (λ o. serdebuf_append md (bool_byte b ∷ []))
      serdebuf_serialize (lightuserdata p) t =
          serialize_as (lightuserdata p) t (λ o. serdebuf_append md (le 8 p))
      serdebuf_serialize (integer n) t =
          serialize_as (integer n) t (λ o. serdebuf_append md (le 8 n))
      serdebuf_serialize (number n) t = serialize_as (number n) t (λ o. serdebuf_append md (le 8 n))
      serdebuf_serialize (string bs) t =
          serialize_as (string bs) t
            (λ o. serdebuf_append md (le 8 (length bs)) >> serdebuf_append md bs)
      serdebuf_serialize (lclosure p us) t =
          serialize_as (lclosure p us) t
            (λ o. with_count (serialize_each us) (count us) >> serdebuf_dump (lua.dump p))
      serdebuf_serialize (cclosure f us) t =
          serialize_as (cclosure f us) t
            (λ o. with_count (serialize_each us) (count us) >> serdebuf_append md (le 8 f))
      serdebuf_serialize (table ser de id) t =
          serialize_as (table ser de id) t (λ o. custom o (table ser de id))
      serdebuf_serialize (thread id) t = serialize_as (thread id) t (λ o. fail einval)

      pub serialize_each : Upvalues → Step
      serialize_each end = done
      serialize_each (upvalue name v rest) =
          serialize_upvalue name v (serdebuf_serialize v) >> serialize_each rest
