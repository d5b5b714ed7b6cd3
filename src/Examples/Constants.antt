-- ===== src/Examples/Constants.antt =====
-- Values of "shared.const".
use flua_ck.Base.{◌≡◌, refl, none, [], ◌∷◌, arith}
use flua_ck.Examples.{machine-IsMd, runtime, empty_memory, empty_memory-IsFresh}
use flua_ck.Examples.Serdes.{
  greeter, greeter_bytes, encode-greeter, greeter-IsLoadable, greeter-IsSmall,
}
use flua_ck.Handle.{World, values}
use flua_ck.Marshal.Total.{IsRoomy}
use flua_ck.Serialize.{init_size, serde_type_size, string_len}
use flua_ck.Shared.{RcShared, shared_const_new, shared_const_load, shared_const_gc}
use flua_ck.Shared.Lifetime.{shared_const_new-gc}
use flua_ck.Shared.Loads.{shared_value, shared_const_new-load}
use flua_ck.Value.{serde_type}

abbrev nothing_shared : World RcShared
nothing_shared = record { mem = empty_memory; objects = λ p. none; handles = [] }

roomy : IsRoomy runtime.md empty_memory greeter greeter_bytes
unfolding init_size serde_type_size string_len serde_type
roomy = record { granting = λ n l. refl; bytes = omega arith; guess = omega arith }

shared_const_load_example :
    (shared_const_load runtime 0 (shared_const_new runtime (greeter ∷ []) nothing_shared).1).0
    ≡ shared_value runtime greeter
shared_const_load_example =
    shared_const_new-load runtime machine-IsMd greeter [] greeter_bytes nothing_shared roomy
      (omega arith) tt greeter-IsSmall greeter-IsLoadable encode-greeter

shared_const_gc_example :
    ((shared_const_gc 0 (shared_const_new runtime (greeter ∷ []) nothing_shared).1).0 ≡ values [])
    × ((shared_const_gc 0 (shared_const_new runtime (greeter ∷ []) nothing_shared).1).1.mem.cell
        ≡ empty_memory.cell)
shared_const_gc_example =
    shared_const_new-gc runtime machine-IsMd greeter [] greeter_bytes nothing_shared roomy
      empty_memory-IsFresh (omega arith) tt greeter-IsSmall encode-greeter
