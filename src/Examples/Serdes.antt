-- ===== src/Examples/Serdes.antt =====
-- Values through serdebuf.c and serde.c.
use flua_ck.Base.{ℕ, ◌≡◌, refl, true, false, none, some, List, [], ◌∷◌, arith}
use flua_ck.Base.Words.{le}
use flua_ck.Examples.{
  machine, machine-IsMd, liblua, no_custom, no_load_custom, empty_memory, empty_memory-IsFresh,
}
use flua_ck.Load.{loaded, loadshared}
use flua_ck.Load.Faithful.{loadshared-function, loadshared_misplaced, loadshared-cclosure_lost}
use flua_ck.Load.RoundTrip.{reloaded, IsLoadable, loadshared-encode}
use flua_ck.Marshal.{marshal}
use flua_ck.Marshal.Cases.{Cases, marshal-Cases}
use flua_ck.Marshal.Total.{IsRoomy, Stored, marshal_total}
use flua_ck.Serdebuf.{State}
use flua_ck.Serdebuf.Append.{IsOpen, Outcome}
use flua_ck.Serialize.{init_size, serde_type_size, string_len, serdebuf_serialize}
use flua_ck.Serialize.Format.{encode, encode_scalar, encode_upvalues, IsSmall}
use flua_ck.Serialize.Refine.{serdebuf_serialize-encode}
use flua_ck.Value.{
  Value, integer, string, lclosure, cclosure, Upvalues, end, upvalue, serde_any, serde_type,
}

-- a Lua function that uses a global and one local of its surroundings, the text "hi"
abbrev greeter_upvalues : Upvalues
greeter_upvalues = upvalue "_ENV" (integer 99) (upvalue "text" (string (104 ∷ 105 ∷ [])) end)

abbrev pub greeter : Value
greeter = lclosure 7 greeter_upvalues

abbrev pub greeter_bytes : List ℕ
greeter_bytes =
    8 ∷ 2 ∷ 0 ∷ 0 ∷ 0 ∷ 0 ∷ 6 ∷ 2 ∷ 0 ∷ 0 ∷ 0 ∷ 0 ∷ 0 ∷ 0 ∷ 0 ∷ 104 ∷ 105 ∷ 1 ∷ 0 ∷ 0 ∷ 0 ∷ 0 ∷ 0
    ∷ 0 ∷ 0 ∷ 7 ∷ []

pub encode-greeter : encode liblua greeter ≡ some greeter_bytes
unfolding encode encode_upvalues encode_scalar le
encode-greeter = refl

pub greeter-IsLoadable : IsLoadable liblua greeter
greeter-IsLoadable = (
  (omega arith, (omega arith, tt)),
  omega arith,
  record { inverse = refl; slots = refl; small = omega arith },
)

pub greeter-IsSmall : IsSmall liblua greeter
greeter-IsSmall = ((tt, (omega arith, tt)), (omega arith, tt))

-- a buffer of 64 bytes in block 0, with one byte written
abbrev open_state : State
open_state = record {
  sb = record { buf = some 0; bytes = 8 ∷ []; cap = 64 };
  mem = record { cell = λ p. none; tick = 1; grants = λ n. true };
}

open_state-IsOpen : IsOpen open_state
open_state-IsOpen = record {
  valid = record { within = omega arith; small = omega arith };
  block = 0;
  held = refl;
}

serdebuf_serialize_example :
    Outcome machine open_state
      (encode liblua greeter)
      (serdebuf_serialize machine liblua no_custom greeter serde_any open_state)
serdebuf_serialize_example =
    serdebuf_serialize-encode machine-IsMd liblua no_custom greeter open_state tt greeter-IsSmall
      open_state-IsOpen

loadshared_example :
    loadshared liblua (integer 99) no_load_custom false greeter_bytes
    ≡ loaded [] false (reloaded liblua (integer 99) greeter ∷ [])
loadshared_example =
    loadshared-encode liblua (integer 99) no_load_custom greeter greeter_bytes false encode-greeter
      greeter-IsLoadable

-- the reader's global environment is 5
loadshared-function_example :
    loadshared liblua (integer 5) no_load_custom false greeter_bytes
    ≡ loaded [] false (
        lclosure 7
          (upvalue "(no name)" (integer 5) (upvalue "(no name)" (string (104 ∷ 105 ∷ [])) end))
        ∷ [])
loadshared-function_example =
    loadshared-function liblua (integer 5) no_load_custom 7 greeter_upvalues greeter_bytes refl
      greeter-IsLoadable encode-greeter

-- the same function with its upvalues in the other order
abbrev swapped_upvalues : Upvalues
swapped_upvalues = upvalue "_ENV" (integer 99) end

abbrev swapped_bytes : List ℕ
swapped_bytes =
    8 ∷ 2 ∷ 0 ∷ 0 ∷ 0 ∷ 6 ∷ 2 ∷ 0 ∷ 0 ∷ 0 ∷ 0 ∷ 0 ∷ 0 ∷ 0 ∷ 104 ∷ 105 ∷ 0 ∷ 1 ∷ 0 ∷ 0 ∷ 0 ∷ 0 ∷ 0
    ∷ 0 ∷ 0 ∷ 7 ∷ []

encode-swapped :
    encode liblua (lclosure 7 (upvalue "text" (string (104 ∷ 105 ∷ [])) swapped_upvalues))
    ≡ some swapped_bytes
unfolding encode encode_upvalues encode_scalar le
encode-swapped = refl

loadshared_misplaced_example :
    (rest : Upvalues) × (loadshared liblua (integer 5) no_load_custom false swapped_bytes
      ≡ loaded [] false (lclosure 7 (upvalue "(no name)" (integer 5) rest) ∷ []))
loadshared_misplaced_example =
    loadshared_misplaced liblua (integer 5) no_load_custom 7 "text" (string (104 ∷ 105 ∷ []))
      swapped_upvalues swapped_bytes refl refl
      (
        (omega arith, (omega arith, tt)),
        omega arith,
        record { inverse = refl; slots = refl; small = omega arith },
      )
      encode-swapped

-- a C function at address 64 with the upvalue 3
abbrev counter_bytes : List ℕ
counter_bytes =
    7 ∷ 1 ∷ 0 ∷ 0 ∷ 0 ∷ 4 ∷ 3 ∷ 0 ∷ 0 ∷ 0 ∷ 0 ∷ 0 ∷ 0 ∷ 0 ∷ 64 ∷ 0 ∷ 0 ∷ 0 ∷ 0 ∷ 0 ∷ 0 ∷ 0 ∷ []

encode-counter : encode liblua (cclosure 64 (upvalue "" (integer 3) end)) ≡ some counter_bytes
unfolding encode encode_upvalues encode_scalar le
encode-counter = refl

loadshared-cclosure_lost_example :
    loadshared liblua (integer 5) no_load_custom false counter_bytes
    ≡ loaded [] false (integer 3 ∷ [])
loadshared-cclosure_lost_example =
    loadshared-cclosure_lost liblua (integer 5) no_load_custom 64 (upvalue "" (integer 3) end)
      (integer 3) [] counter_bytes refl ((omega arith, tt), omega arith, omega arith) encode-counter

pub greeter-IsRoomy : IsRoomy machine empty_memory greeter greeter_bytes
unfolding init_size serde_type_size string_len serde_type
greeter-IsRoomy = record { granting = λ n l. refl; bytes = omega arith; guess = omega arith }

marshal-Cases_example :
    Cases machine greeter empty_memory
      (encode liblua greeter)
      (marshal machine liblua no_custom greeter empty_memory)
marshal-Cases_example =
    marshal-Cases machine-IsMd liblua no_custom greeter empty_memory tt greeter-IsSmall
      empty_memory-IsFresh

marshal_total_example :
    Stored empty_memory greeter_bytes (marshal machine liblua no_custom greeter empty_memory)
marshal_total_example =
    marshal_total machine-IsMd liblua no_custom greeter greeter_bytes empty_memory tt
      greeter-IsSmall empty_memory-IsFresh encode-greeter greeter-IsRoomy
