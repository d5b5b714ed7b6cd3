-- ===== src/Examples/Objects.antt =====
-- An object whose methods are C functions.
use flua_ck.Base.{
  ◌+◌, ℕ, zero, suc, ◌<◌, get_elem?, length, ◌≡◌, refl, ap, sym, inl, inr, Bool, true, false,
  Option, none, some, List, [], ◌∷◌, ◌++◌, arith, ◌==◌, Bool-cases, ltb, if◌then◌else◌,
}
use mathlib.Core.Option.{some-injective}
use flua_ck.Base.Words.{le}
use flua_ck.Cache.{Cache, Registered, cache_type, cache_serde, search_registry}
use flua_ck.Cache.Custom.{custom, methods}
use flua_ck.Cache.Custom.Reload.{reloaded_methods, kept_methods}
use flua_ck.Cache.Entries.{AllKnown, IsCache}
use flua_ck.Custom.{Session, served, state_of, serialize_object, custom_type, load_object}
use flua_ck.Custom.Sent.{frame, Sent, serialize_object-Sent}
use flua_ck.Custom.RoundTrip.{reader, serialize_object-load_object}
use flua_ck.Examples.{machine-IsMd, liblua, runtime}
use flua_ck.Examples.Caches.{
  Table, same, same_self, same_eq, eq_of_test, function_table, table_laws, alone, alone-Others,
}
use flua_ck.Memory.{Mem}
use flua_ck.Serdebuf.{ok, serdebuf_append}
use flua_ck.Serialize.{put_size}
use flua_ck.Serdebuf.Append.{IsOpen}
use flua_ck.Serialize.Custom.{
  Script, finish, throw, put, Writes, finishes, writes, is_refused, IsSmallScript,
  serdebuf_serialize_custom, opened_stream, run_script, serdebuf_writefn,
}
use flua_ck.Serialize.Format.{encode, encode_upvalues}
use flua_ck.Value.{getserdemethods, lua_isfunction, Value, integer, cclosure, end}

abbrev ser_method : Value
ser_method = cclosure 1 end

abbrev de_method : Value
de_method = cclosure 2 end

abbrev raw_equal : Value → Value → Bool
raw_equal (cclosure f end) (cclosure g end) = f == g
raw_equal a b = false

raw_equal-eq : (a b : Value) → raw_equal a b ≡ true → a ≡ b
raw_equal-eq (cclosure f end) (cclosure g end) h = ap (λ x. cclosure x end) (sym (eq_of_test f g h))
raw_equal-eq a b h = cc

abbrev bytes_of_method : ℕ → List ℕ
bytes_of_method f = 7 ∷ 0 ∷ 0 ∷ 0 ∷ 0 ∷ f ∷ 0 ∷ 0 ∷ 0 ∷ 0 ∷ 0 ∷ 0 ∷ 0 ∷ []

encode-ser_method : encode liblua ser_method ≡ some (bytes_of_method 1)
unfolding encode le encode_upvalues
encode-ser_method = refl

encode-de_method : encode liblua de_method ≡ some (bytes_of_method 2)
unfolding encode le encode_upvalues
encode-de_method = refl

abbrev both_methods : List ℕ
both_methods = bytes_of_method 1 ++ bytes_of_method 2

abbrev memory : Mem
memory = record {
  cell = λ p. if p == 4 then some both_methods else none;
  tick = 5;
  grants = λ n. true;
}

abbrev one_pair : List Registered → Cache Table
one_pair registry = record {
  blocks = 4 ∷ [];
  types = λ k. if same both_methods k then some 0 else none;
  mem = memory;
  registry = registry;
}

key_of :
    (k : List ℕ) (i : ℕ)
    → (if same both_methods k then some 0 else none) ≡ some i
    → (k ≡ both_methods) × (i ≡ 0)
key_of k i h = elim (Bool-cases (same both_methods k)) [
  | inl q ↦ (same_eq both_methods k q, some-injective i 0 (sym (rw q at h)))
  | inr q ↦ absurd (none_some (rw q at h))
]
  where
    none_some : none ≡ some i → ⊥
    none_some e = cc

abbrev known : Registered
known = methods 9 ser_method de_method

block-lt : (i b : ℕ) → get_elem? (4 ∷ []) i ≡ some b → b < 5
block-lt zero b h = omega (arith, some-injective 4 b h)
block-lt (suc i) b h = cc

one_pair-IsCache :
    (registry : List Registered)
    → AllKnown function_table liblua (one_pair registry) registry
    → IsCache function_table liblua (one_pair registry)
unfolding function_table
one_pair-IsCache registry all = record {
  indexed = λ k i h. let (q, z) = key_of k i h in rw (q, z) (4, refl, refl);
  known = all;
  given = block-lt;
  fresh = λ q l. ground (arith, l);
}

known-AllKnown : AllKnown function_table liblua (one_pair (known ∷ [])) (known ∷ [])
unfolding function_table cache_type
known-AllKnown = (
  (
    bytes_of_method 1,
    bytes_of_method 2,
    0,
    encode-ser_method,
    encode-de_method,
    rw (same_self both_methods) refl,
    refl,
  ),
  tt,
)

abbrev sender : Session Table
sender = record {
  sb = record { buf = some 3; bytes = []; cap = 64 };
  cache = one_pair (known ∷ []);
}

-- a method that writes one byte, and raises an error if it cannot
abbrev write_seven : Script
write_seven = put (7 ∷ []) (λ written. if written then finish else throw)

abbrev sent_session : Session Table
sent_session = record sender { sb = record { buf = some 3; bytes = frame 9 (7 ∷ []); cap = 64 } }

serialize_object-sent :
    serialize_object runtime none write_seven function_table raw_equal alone ser_method de_method
      sender
    ≡ served ok sent_session
unfolding serialize_object serdebuf_append cache_serde getserdemethods search_registry
    serdebuf_serialize_custom le opened_stream run_script put_size serdebuf_writefn lua_isfunction
serialize_object-sent = refl

sender-IsOpen : IsOpen (state_of sender)
sender-IsOpen = record {
  valid = record { within = omega arith; small = omega arith };
  block = 3;
  held = refl;
}

write_seven-IsSmallScript : IsSmallScript write_seven
write_seven-IsSmallScript = (omega arith, small)
  where
    small : (b : Bool) → IsSmallScript (if b then finish else throw)
    small true = tt
    small false = tt

throw-Writes :
    {size : ℕ} {out : List ℕ} → Writes runtime.md sent_session.cache.mem.grants size throw out → ⊥
throw-Writes w = elim w [ ]

finish-Writes :
    {size : ℕ} {out : List ℕ}
    → Writes runtime.md sent_session.cache.mem.grants size finish out
    → out ≡ []
finish-Writes finishes = refl

write_seven-Writes :
    {size : ℕ} {out : List ℕ}
    → Writes runtime.md sent_session.cache.mem.grants size write_seven out
    → out ≡ 7 ∷ []
write_seven-Writes (writes w) = rw (finish-Writes w) refl
write_seven-Writes (is_refused why w) = absurd (throw-Writes w)

serialize_object-Sent_example :
    Sent function_table liblua runtime.md write_seven sender ser_method de_method (
      serialize_object runtime none write_seven function_table raw_equal alone ser_method de_method
        sender)
serialize_object-Sent_example =
    serialize_object-Sent table_laws runtime machine-IsMd raw_equal raw_equal-eq none write_seven
      alone ser_method de_method (bytes_of_method 1) (bytes_of_method 2) sender alone-Others
      write_seven-IsSmallScript tt tt tt tt encode-ser_method encode-de_method sender-IsOpen
      (one_pair-IsCache (known ∷ []) known-AllKnown)

-- a method that answers the number of bytes
abbrev count_bytes : Value → List ℕ → Option Value
count_bytes de bytes = some (integer (length bytes))

serialize_object-load_object_example :
    (t : ℕ) × (out : List ℕ) × Writes runtime.md sent_session.cache.mem.grants
      (length sender.sb.bytes + 9)
      write_seven
      out
    × (sent_session.sb.bytes ≡ sender.sb.bytes ++ frame t out)
    × (load_object (reader runtime (integer 5)) count_bytes (ltb 0) (frame t out) (one_pair []) ≡ (
      custom_type (
          custom out
            (integer (length out))
            (reloaded_methods (reader runtime (integer 5)) t ser_method de_method)),
      kept_methods (reader runtime (integer 5)) t ser_method de_method (one_pair []),
    ))
serialize_object-load_object_example =
    serialize_object-load_object table_laws runtime machine-IsMd raw_equal raw_equal-eq none
      write_seven alone ser_method de_method (bytes_of_method 1) (bytes_of_method 2) sender
      sent_session (integer 5) (one_pair []) count_bytes (λ bytes. integer (length bytes)) (ltb 0)
      alone-Others write_seven-IsSmallScript tt tt tt tt encode-ser_method encode-de_method
      sender-IsOpen (one_pair-IsCache (known ∷ []) known-AllKnown) serialize_object-sent
      (omega arith) (tt, omega arith, omega arith) (tt, omega arith, omega arith)
      (one_pair-IsCache [] tt) (λ k i h. h) refl (λ n more. ground (arith, more))
      (λ bytes w. rw (write_seven-Writes w) (omega arith)) (λ bytes w. refl)
