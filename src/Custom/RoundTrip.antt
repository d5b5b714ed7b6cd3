-- ===== src/Custom/RoundTrip.antt =====
-- serdebuf.c, serde.c: an object from one Lua state to another.
use flua_ck.Base.{
  ℕ, zero, suc, ◌+◌, ◌-◌, ◌^◌, ◌≤◌, ◌<◌, ◌≡◌, refl, ap, sym, ◌∙◌, Bool, true, false, Option, some,
  List, [], ◌∷◌, ◌++◌, append-nil, arith, length, length-append, leb, ltb, get_elem?,
}
use mathlib.Core.Option.{some-injective}
use flua_ck.Base.Words.{le, un_le}
use flua_ck.Cache.{CkHt, Cache, cache_type}
use flua_ck.Cache.Custom.{custom, find_type, load_custom_value}
use flua_ck.Cache.Custom.Reload.{reloaded_methods, kept_methods, load_custom_value-find_type}
use flua_ck.Cache.Entries.{CkHtLaws, IsCache, Grown}
use flua_ck.Cache.Insert.{Others}
use flua_ck.Custom.{
  Session, Served, served, overran, aborts, state_of, serialize_object, custom_type, check_custom,
  checked_load, load_typed, load_object,
}
use flua_ck.Custom.Sent.{
  frame, Sent, sent, unsent, method_raised, array_full, assertion_fails, serialize_object-Sent,
}
use flua_ck.Load.{consume}
use flua_ck.Load.RoundTrip.{reloaded, IsLoadable}
use flua_ck.Memory.{size_limit}
use flua_ck.Serdebuf.{Errno, ok}
use flua_ck.Serdebuf.Append.{IsOpen}
use flua_ck.Serdebuf.Bounds.{IsMd}
use flua_ck.Serialize.Custom.{Script, IsSmallScript, Writes, Writes-same}
use flua_ck.Serialize.Format.{encode, IsPlain, IsSmall}
use flua_ck.Transport.{Runtime}
use flua_ck.Value.{Value}

get_elem?-lt : {A : Type 0} (xs : List A) (i : ℕ) {a : A} → get_elem? xs i ≡ some a → i < length xs
get_elem?-lt [] i h = cc
get_elem?-lt (x ∷ xs) zero h = omega arith
get_elem?-lt (x ∷ xs) (suc i) h = omega (arith, get_elem?-lt xs i h)

small_type : (i : ℕ) → i < 119 → (cache_type i ≡ i + 9) × (cache_type i - 9 ≡ i)
unfolding cache_type
small_type i l = (omega (arith, l), omega (arith, l))

out_small :
    (front : List ℕ) (t : ℕ) (out bytes : List ℕ) (cap : ℕ)
    → bytes ≡ front ++ frame t out
    → length bytes ≤ cap
    → cap ≤ size_limit
    → length out < 2 ^ 64
out_small front t out bytes cap f within small =
    omega
      (arith, ap length f, length-append front (frame t out), length-append (le 8 (length out)) out)

append_cong : {xs ys us vs : List ℕ} → xs ≡ us → ys ≡ vs → us ++ vs ≡ xs ++ ys
append_cong p q = rw (p, q) refl

one_byte : (t : ℕ) → un_le (t ∷ []) ≡ t
unfolding un_le
one_byte t = omega arith

code : (t i : ℕ) → cache_type i ≡ i + 9 → t ≡ cache_type i → i < 119 → leb 128 t ≡ false
code t i nine q l = ground (arith, nine, q, l)

large : (t i : ℕ) → cache_type i ≡ i + 9 → t ≡ cache_type i → ltb t 9 ≡ false
large t i nine q = ground (arith, nine, q)

session_of_served : {H : Type 0} → Session H → Served H → Session H
session_of_served b (served status c) = c
session_of_served b (overran c) = b
session_of_served b (aborts c) = b

-- the runtime of the state that loads
abbrev pub reader : Runtime → Value → Runtime
reader rt globals = record rt { globals = globals; garbage = false }

module _ {H : Type 0} (ht : CkHt H) (rt : Runtime) (call : Value → List ℕ → Option Value)
    (fmemopen : ℕ → Bool) where
  -- the bytes of an object, in a thread that has no methods for its type
  load_object-frame :
      (t i : ℕ) (out first second : List ℕ) (ser de x : Value) (r : Cache H)
      → fmemopen (length out) ≡ true
      → rt.garbage ≡ false
      → t ≡ cache_type i
      → i < 119
      → length out < 2 ^ 64
      → r.registry ≡ []
      → IsCache ht rt.lua r
      → ht.get r.types (first ++ second) ≡ some i
      → encode rt.lua ser ≡ some first
      → encode rt.lua de ≡ some second
      → IsLoadable rt.lua ser
      → IsLoadable rt.lua de
      → call (reloaded rt.lua rt.globals de) out ≡ some x
      → load_object rt call fmemopen (frame t out) r
        ≡ (custom_type (custom out x (reloaded_methods rt t ser de)), kept_methods rt t ser de r)
  unfolding load_object load_typed checked_load check_custom consume find_type
  load_object-frame t i out first second ser de x r opens env q l small new c at hs hd ls ld h =
      let (p, at_array, cell) = c.indexed (first ++ second) i at in
      let (nine, index) = small_type i l in
      let read : (load_custom_value rt call fmemopen t (le 8 (length out) ++ out) r
          ≡ (custom out x (reloaded_methods rt t ser de), kept_methods rt t ser de r)) =
        rw (append-nil out) at
          (load_custom_value-find_type rt call fmemopen t p out [] first second ser de x r small
            opens (rw new refl)
            (ap (λ k. get_elem? r.blocks (k - 9)) q ∙ ap (get_elem? r.blocks) index ∙ at_array) cell
            hs hd ls ld env h).0 in
      rw (one_byte t, code t i nine q l, large t i nine q, read, env) refl

module _ {H : Type 0} {ht : CkHt H} (laws : CkHtLaws ht) (rt : Runtime) (good : IsMd rt.md)
    (rawequal : Value → Value → Bool) (raw : (a b : Value) → rawequal a b ≡ true → a ≡ b) where
  -- If serdebuf_serialize of an object answers 0 and the array has at most 119 pairs of methods, it
  -- has appended a frame with what the method wrote, and loadshared of this frame in a state that has
  -- met no type yet, at any later time, calls `deserialize` on these bytes. What it gives is the value
  -- that `deserialize` answers, with the methods for its metatable; the methods are kept. Each method
  -- is as loadshared reloads it. This assumes that the method writes at least one byte, that fmemopen
  -- opens a stream on any bytes but none, that `deserialize` answers on what the method may write, and
  -- that the `env` of loadshared, which is not initialised, is false.
  pub serialize_object-load_object :
      (fwopen : Option Errno) (script : Script) (others : Cache H → Cache H) (ser de : Value)
      (first second : List ℕ) (a b : Session H) (globals : Value) (r : Cache H)
      (call : Value → List ℕ → Option Value) (value : List ℕ → Value) (fmemopen : ℕ → Bool)
      → ((p : ℕ) → Others laws rt.lua p others)
      → IsSmallScript script
      → IsPlain ser
      → IsPlain de
      → IsSmall rt.lua ser
      → IsSmall rt.lua de
      → encode rt.lua ser ≡ some first
      → encode rt.lua de ≡ some second
      → IsOpen (state_of a)
      → IsCache ht rt.lua a.cache
      → serialize_object rt fwopen script ht rawequal others ser de a ≡ served ok b
      → length b.cache.blocks ≤ 119
      → IsLoadable rt.lua ser
      → IsLoadable rt.lua de
      → IsCache ht rt.lua r
      → Grown ht rt.lua b.cache r
      → r.registry ≡ []
      → ((n : ℕ) → 0 < n → fmemopen n ≡ true)
      → ((bytes : List ℕ)
          → Writes rt.md b.cache.mem.grants (length a.sb.bytes + 9) script bytes
          → 0 < length bytes)
      → ((bytes : List ℕ)
          → Writes rt.md b.cache.mem.grants (length a.sb.bytes + 9) script bytes
          → call (reloaded rt.lua globals de) bytes ≡ some (value bytes))
      → (t : ℕ) × (out : List ℕ) × Writes rt.md b.cache.mem.grants
          (length a.sb.bytes + 9)
          script
          out
        × (b.sb.bytes ≡ a.sb.bytes ++ frame t out)
        × (load_object (reader rt globals) call fmemopen (frame t out) r ≡ (
          custom_type (custom out (value out) (reloaded_methods (reader rt globals) t ser de)),
          kept_methods (reader rt globals) t ser de r,
        ))
  unfolding session_of_served
  serialize_object-load_object fwopen script others ser de first second a b globals r call value
        fmemopen env small ps pd ss sd hs hd o c e few ls ld cr g new opens some_bytes total =
      loaded_sent _ e (
        serialize_object-Sent laws rt good rawequal raw fwopen script others ser de first second a
          env small ps pd ss sd hs hd o c)
    where
      loaded_sent :
          (s : Served H)
          → s ≡ served ok b
          → Sent ht rt.lua rt.md script a ser de s
          → (t : ℕ) × (out : List ℕ) × Writes rt.md b.cache.mem.grants
              (length a.sb.bytes + 9)
              script
              out
            × (b.sb.bytes ≡ a.sb.bytes ++ frame t out)
            × (load_object (reader rt globals) call fmemopen (frame t out) r ≡ (
              custom_type (custom out (value out) (reloaded_methods (reader rt globals) t ser de)),
              kept_methods (reader rt globals) t ser de r,
            ))
      loaded_sent _ q (sent t out {b = b'} w sound (first', second', i, hs', hd', at, tq) f) =
          let same = ap (session_of_served b) q in
          let q1 = some-injective first' first (sym hs' ∙ hs) in
          let q2 = some-injective second' second (sym hd' ∙ hd) in
          let (p, at_array, cell) = sound.cache.indexed (first' ++ second') i at in
          let w' = Writes-same (ap (λ s. s.cache.mem.grants) same) refl w in
          let in_array = get_elem?-lt b'.cache.blocks i at_array in
          (
            t,
            out,
            w',
            ap (λ s. s.sb.bytes) (sym same) ∙ f,
            load_object-frame ht (reader rt globals) call fmemopen t i out first second ser de
                (value out) r (opens (length out) (some_bytes out w')) refl tq
                (omega (arith, few, in_array, ap (λ s. length s.cache.blocks) same))
                (out_small a.sb.bytes t out b'.sb.bytes b'.sb.cap f sound.valid.within
                  sound.valid.small)
                new cr
                (g (first ++ second) i (
                  ap (λ s. ht.get s.cache.types (first ++ second)) (sym same)
                  ∙ ap (ht.get b'.cache.types) (append_cong q1 q2)
                  ∙ at))
                hs hd ls ld (total out w'),
          )
      loaded_sent _ q (unsent k) = cc
      loaded_sent _ q (method_raised k) = cc
      loaded_sent _ q (array_full k l) = cc
      loaded_sent _ q (assertion_fails fails) = cc
