-- ===== src/Shared.antt =====
-- shared.c: "shared.const" cells, and what "shared.mut" cells share with them: a serialized value that
-- stays in shared memory and is loaded any number of times.
pub mod Made
pub mod Loads
pub mod Lifetime
pub mod Makes
use Prim.Native.String.{String}
use flua_ck.Base.{ℕ, true, Option, none, some, List, [], ◌∷◌}
use flua_ck.Base.Words.{le, un_le}
use flua_ck.Handle.{
  Object, World, Answer, values, raises, fault, type_error, serializer_error, fatal_error,
  load_error, create, retain, release, with_object, checkcookieuv,
}
use flua_ck.Load.{Loaded, loaded, failed, stuck, loadshared}
use flua_ck.Marshal.{from_malloc, from_shared}
use flua_ck.Memory.{Mem, malloc, free, write}
use flua_ck.Serdebuf.{
  Md, enomem, Status, ok, error, raised, State, serdebuf_finalize, serdebuf_destroy,
}
use flua_ck.Serialize.{Lua, serdebuf_init, serdebuf_serialize}
use flua_ck.Transport.{Runtime}
use flua_ck.Value.{Value, serde_any}

abbrev pub shared_const_metatable : String
shared_const_metatable = "shared.const"

abbrev pub shared_mut_metatable : String
shared_mut_metatable = "shared.mut"

-- sizeof(struct serialized), with Concurrency Kit's hazard, and sizeof(struct rcshared)
abbrev pub sizeof_serialized : ℕ
sizeof_serialized = 40

abbrev pub sizeof_rcshared : ℕ
sizeof_rcshared = 16

-- `struct rcshared`: the address of a `struct serialized`, whose block holds the field `pointer`.
pub record RcShared : Type 0 where
  pub serialized : ℕ

-- The result of `serialize`: the address of a new `struct serialized`, or an error.
pub data Serialized : Type 0 where
  made : ℕ → Serialized
  not_made : Status → Serialized

-- `serialized->pointer`, of a struct in the block `q`
unfoldable pub pointer_of : Option (List ℕ) → Option ℕ
pointer_of none = none
pointer_of (some bytes) = some (un_le bytes)

-- `freeserialized`
unfoldable pub freeserialized : ℕ → Mem → Mem
freeserialized q m = free (some q) (free (pointer_of (m.cell q)) m)

keep_pointer : ℕ → Option ℕ × State → Serialized × Mem
keep_pointer q (none, s) = (not_made (error enomem), free (some q) (serdebuf_destroy s).mem)
keep_pointer q (some b, s) = (made q, write q (le 8 b) s.mem)

finalize_into : State → Option ℕ × Mem → Serialized × Mem
unfolding keep_pointer
finalize_into s (none, m) = (not_made (error enomem), (serdebuf_destroy (record s { mem = m })).mem)
finalize_into s (some q, m) = keep_pointer q (serdebuf_finalize (record s { mem = m }))

serialize_into : Status × State → Serialized × Mem
unfolding finalize_into
serialize_into (ok, s) = finalize_into s (malloc sizeof_serialized s.mem)
serialize_into (error e, s) = (not_made (error e), (serdebuf_destroy s).mem)
serialize_into (raised, s) = (not_made raised, (serdebuf_destroy s).mem)

module _ (rt : Runtime) where
  init_into : Value → Status × State → Serialized × Mem
  unfolding serialize_into
  init_into v (ok, s) = serialize_into (serdebuf_serialize rt.md rt.lua rt.custom v serde_any s)
  init_into v (error e, s) = (not_made (error e), s.mem)
  init_into v (raised, s) = (not_made raised, s.mem)

  unfoldable pub serialize : Value → Mem → Serialized × Mem
  unfolding init_into
  serialize v m = init_into v (serdebuf_init rt.md v m)

  -- `free(sharedp)` on an error
  give_up : ℕ → World RcShared → Status → Answer × World RcShared
  give_up p w raised = (raises serializer_error, record w { mem = free (some p) w.mem })
  give_up p w (error e) =
      (raises (fatal_error from_shared e), record w { mem = free (some p) w.mem })
  give_up p w ok = (fault, w)

  filled : String → ℕ → World RcShared → Serialized × Mem → Answer × World RcShared
  unfolding give_up
  filled metatable p w (not_made status, m) = give_up p (record w { mem = m }) status
  filled metatable p w (made q, m) =
      create p (record { serialized = q }) metatable (record w { mem = m })

  made_shared : String → Value → World RcShared → Option ℕ × Mem → Answer × World RcShared
  unfolding filled
  made_shared metatable v w (none, m) =
      (raises (fatal_error from_malloc enomem), record w { mem = m })
  made_shared metatable v w (some p, m) = filled metatable p w (serialize v m)

  unfoldable pub newshared : String → List Value → World RcShared → Answer × World RcShared
  unfolding made_shared
  newshared metatable [] w = (raises type_error, w)
  newshared metatable (v ∷ vs) w = made_shared metatable v w (malloc sizeof_rcshared w.mem)

  unfoldable pub shared_const_new : List Value → World RcShared → Answer × World RcShared
  shared_const_new args w = newshared shared_const_metatable args w

  unfoldable pub shared_mut_new : List Value → World RcShared → Answer × World RcShared
  shared_mut_new args w = newshared shared_mut_metatable args w

  -- `if (loadshared(...) == NULL) return (lua_error(L)); return (1);`
  unfoldable pub answer_shared : Loaded → Answer
  answer_shared (loaded rest env []) = fault
  answer_shared (loaded rest env (v ∷ stack)) = values (v ∷ [])
  answer_shared (failed msg env) = raises (load_error msg)
  answer_shared Loaded.fault = fault
  answer_shared stuck = fault

  unfoldable pub load_bytes : Option (List ℕ) → Answer
  load_bytes none = fault
  load_bytes (some bytes) =
      answer_shared (loadshared rt.lua rt.globals rt.load_custom rt.garbage bytes)

  -- `loadshared` of the block that a pointer field leads to
  unfoldable pub load_pointee : Mem → Option ℕ → Answer
  unfolding load_bytes
  load_pointee m none = fault
  load_pointee m (some b) = load_bytes (m.cell b)

  unfoldable pub shared_const_load : ℕ → World RcShared → Answer × World RcShared
  shared_const_load i w =
      with_object shared_const_metatable i w
        (λ p o. (load_pointee w.mem (pointer_of (w.mem.cell o.value.serialized)), w))

unfoldable pub retainshared : String → ℕ → World RcShared → Answer × World RcShared
retainshared metatable p w = retain metatable p w

unfoldable pub shared_const_retain : ℕ → World RcShared → Answer × World RcShared
shared_const_retain p w = retainshared shared_const_metatable p w

unfoldable pub shared_mut_retain : ℕ → World RcShared → Answer × World RcShared
shared_mut_retain p w = retainshared shared_mut_metatable p w

unfoldable pub shared_const_gc : ℕ → World RcShared → Answer × World RcShared
shared_const_gc i w =
    release (λ p v m. freeserialized v.serialized m) true shared_const_metatable i w

unfoldable pub shared_const_cookie : ℕ → World RcShared → Answer
shared_const_cookie i w = checkcookieuv shared_const_metatable i w

unfoldable pub shared_mut_cookie : ℕ → World RcShared → Answer
shared_mut_cookie i w = checkcookieuv shared_mut_metatable i w

-- `ck_pr_rfo` prefetches the cell's cache line, and changes nothing.
unfoldable pub shared_mut_rfo : ℕ → World RcShared → Answer × World RcShared
shared_mut_rfo i w = with_object shared_mut_metatable i w (λ p o. (values [], w))
