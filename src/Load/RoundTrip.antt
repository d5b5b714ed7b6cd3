-- ===== src/Load/RoundTrip.antt =====
-- serde.c against serdebuf.c: what `loadshared` makes of the bytes of a value, functions included.
use flua_ck.Base.{
  ℕ, suc, ◌+◌, ◌^◌, ◌≤◌, ◌<◌, ◌≡◌, refl, sym, ap, ◌∙◌, inl, inr, Bool, true, false, some, List, [],
  ◌∷◌, ◌++◌, append_assoc, append-nil, arith, Bool-cases, Option-cases, if◌then◌else◌, length,
  replicate, length-replicate,
}
use mathlib.Core.Option.{some-injective}
use flua_ck.Base.Words.{le, un_le}
use flua_ck.Load.{
  loaded, failed, invalid_env, Loader, consume, and_load, outer_env, load_values, loadupvalues,
  lua_closure, c_closure, setupvalues, above, closure_value, fresh_slots, found_chunk, load_chunk,
  load_lclosure, load_cclosure, load_type, set_from, top_value, loadsharedimpl, check_env,
  loadshared,
}
use flua_ck.Load.Slots.{
  push_all, overlay, last_or, above-push_all, setupvalues-lua, setupvalues-c_lost,
  setupvalues-c_none,
}
use flua_ck.Load.Inverse.{
  AllWords, kept_values, has_env, field, word, blob, load-scalar, load-upvalues,
}
use flua_ck.Serdebuf.Compose.{prefixed}
use flua_ck.Serialize.{Lua, is_env, count}
use flua_ck.Serialize.Format.{seq, joined, sized, encode_upvalues, encode_counted, encode}
use flua_ck.Value.{
  Value, nil, boolean, lightuserdata, integer, number, string, lclosure, cclosure, table, thread,
  Upvalues, end, upvalue,
}

-- the values for the slots of a Lua function, from the first slot on
abbrev pub slot_values : Value → Upvalues → List Value
slot_values globals us = if has_env us then globals ∷ kept_values us else kept_values us

-- What a loading state, with the given global environment, gets for a value.
abbrev pub reloaded : Lua → Value → Value → Value
reloaded lua globals (lclosure p us) =
    closure_value (lua_closure p (overlay (slot_values globals us) (fresh_slots lua globals p)))
reloaded lua globals (cclosure f us) = last_or (closure_value (c_closure f [])) (kept_values us)
reloaded lua globals nil = nil
reloaded lua globals (boolean b) = boolean b
reloaded lua globals (lightuserdata p) = lightuserdata p
reloaded lua globals (integer n) = integer n
reloaded lua globals (number n) = number n
reloaded lua globals (string bs) = string bs
reloaded lua globals (table ser de id) = table ser de id
reloaded lua globals (thread id) = thread id

-- What lua_dump(3) and lua_load(3) promise of a prototype: the chunk loads as the prototype that was
-- dumped, which has as many upvalues as its functions.
pub record IsDumpable (lua : Lua) (p : ℕ) (us : Upvalues) : Type 0 where
  pub inverse : lua.undump (joined (lua.dump p)) ≡ some p
  pub slots : lua.nupvalues p ≡ count us
  pub small : length (joined (lua.dump p)) < 2 ^ 64

abbrev pub IsLoadable : Lua → Value → Type 0
IsLoadable lua (lclosure p us) = AllWords us × (count us < 2 ^ 32) × IsDumpable lua p us
IsLoadable lua (cclosure f us) = AllWords us × (count us < 2 ^ 32) × (f < 2 ^ 64)
IsLoadable lua nil = Unit {0}
IsLoadable lua (boolean b) = Unit {0}
IsLoadable lua (lightuserdata p) = p < 2 ^ 64
IsLoadable lua (integer n) = n < 2 ^ 64
IsLoadable lua (number n) = n < 2 ^ 64
IsLoadable lua (string bs) = length bs < 2 ^ 64
IsLoadable lua (table ser de id) = Unit {0}
IsLoadable lua (thread id) = Unit {0}

length-kept_values :
    (us : Upvalues) → length (kept_values us) + (if has_env us then 1 else 0) ≤ count us
length-kept_values end = omega arith
length-kept_values (upvalue name v us) = elim (Bool-cases (is_env name)) [
  | inl q ↦ rw q (elim (Bool-cases (has_env us)) [
    | inl r ↦
        omega
          (arith, ap (λ b. length (kept_values us) + (if b then 1 else 0)) r, length-kept_values us)
    | inr r ↦
        omega
          (arith, ap (λ b. length (kept_values us) + (if b then 1 else 0)) r, length-kept_values us)
  ])
  | inr q ↦ rw q (omega (arith, length-kept_values us))
]

setupvalues-fresh :
    (lua : Lua) (globals : Value) (p : ℕ) (us : Upvalues)
    → lua.nupvalues p ≡ count us
    → setupvalues (kept_values us) (has_env us) (lua_closure p (fresh_slots lua globals p))
      ≡ closure_value (lua_closure p (overlay (slot_values globals us) (fresh_slots lua globals p)))
unfolding fresh_slots setupvalues set_from top_value
setupvalues-fresh lua globals p end h = rw h
setupvalues-fresh lua globals p (upvalue name v us) h = rw h (
    setupvalues-lua p (kept_values (upvalue name v us)) (has_env (upvalue name v us)) globals
      (replicate (count us) nil)
      (omega (arith, length-kept_values (upvalue name v us), length-replicate (count us) nil)))

load_chunk-dumped :
    (lua : Lua) (globals : Value) (p : ℕ) (us : Upvalues) (vs : List Value) (env : Bool)
    (old : List Value) (outer : Bool) (rest : List ℕ)
    → IsDumpable lua p us
    → load_chunk lua globals vs env old outer (joined (lua.dump p)) rest
      ≡ loaded rest outer (setupvalues vs env (lua_closure p (fresh_slots lua globals p)) ∷ old)
unfolding load_chunk found_chunk
load_chunk-dumped lua globals p us vs env old outer rest d =
    ap (found_chunk lua globals vs env old outer rest) d.inverse

setupvalues-cclosure :
    (f : ℕ) (us : List Value) (env : Bool)
    → setupvalues us env (c_closure f []) ≡ last_or (closure_value (c_closure f [])) us
setupvalues-cclosure f [] env = setupvalues-c_none f env
setupvalues-cclosure f (u ∷ us) env = setupvalues-c_lost f u us env

module _ (lua : Lua) (globals : Value) (load_custom : ℕ → Loader) (fuel : ℕ) where
  load : Loader
  load = loadsharedimpl lua globals load_custom (suc fuel)

  loadupvalues-encode :
      (us : Upvalues) (eu rest : List ℕ) (stack : List Value)
      → encode_upvalues us ≡ some eu
      → AllWords us
      → count us < 2 ^ 32
      → loadupvalues load ((le 4 (count us) ++ eu) ++ rest) false stack
        ≡ loaded rest (has_env us) (push_all (kept_values us) stack)
  unfolding loadupvalues load
  loadupvalues-encode us eu rest stack h w small =
      ap (λ l. loadupvalues load l false stack) (append_assoc (le 4 (count us)) eu rest)
      ∙ field 4 (eu ++ rest) (λ n r. load_values load n r false stack) (count us) small
      ∙ load-upvalues lua globals load_custom fuel us eu rest false stack h w

  load_lclosure-sized :
      (p : ℕ) (us : Upvalues) (rest : List ℕ) (env : Bool) (stack : List Value)
      → IsDumpable lua p us
      → load_lclosure lua globals stack env
          (sized (joined (lua.dump p)) ++ rest)
          (has_env us)
          (push_all (kept_values us) stack)
        ≡ loaded rest env (reloaded lua globals (lclosure p us) ∷ stack)
  unfolding load_lclosure
  load_lclosure-sized p us rest env stack d =
      blob (joined (lua.dump p)) rest
        (load_chunk lua globals (above (push_all (kept_values us) stack) stack) (has_env us) stack
          env)
        d.small
      ∙ load_chunk-dumped lua globals p us (above (push_all (kept_values us) stack) stack)
          (has_env us) stack env rest d
      ∙ ap
          (λ vs.
            loaded rest env
              (setupvalues vs (has_env us) (lua_closure p (fresh_slots lua globals p)) ∷ stack))
          (above-push_all (kept_values us) stack)
      ∙ ap (λ v. loaded rest env (v ∷ stack)) (setupvalues-fresh lua globals p us d.slots)

  load_cclosure-word :
      (f : ℕ) (us : Upvalues) (rest : List ℕ) (env : Bool) (stack : List Value)
      → f < 2 ^ 64
      → load_cclosure lua globals stack env
          (le 8 f ++ rest)
          (has_env us)
          (push_all (kept_values us) stack)
        ≡ loaded rest env (reloaded lua globals (cclosure f us) ∷ stack)
  unfolding load_cclosure
  load_cclosure-word f us rest env stack h =
      word rest
        (λ k r. loaded r env (
          setupvalues (above (push_all (kept_values us) stack) stack) (has_env us) (c_closure k [])
          ∷ stack))
        f h
      ∙ ap (λ v. loaded rest env (v ∷ stack))
          (rw above-push_all (setupvalues-cclosure f (kept_values us) (has_env us)))

encode-closure :
    (tag : ℕ) (us : Upvalues) (tail e : List ℕ)
    → prefixed (tag ∷ []) (seq (encode_counted us) (some tail)) ≡ some e
    → (eu : List ℕ) × (encode_upvalues us ≡ some eu) × (e ≡ tag ∷ ((le 4 (count us) ++ eu) ++ tail))
encode-closure tag us tail e h = elim (Option-cases (encode_upvalues us)) [
  | inl n ↦ cc (rw n at h)
  | inr (eu, s) ↦ (eu, s, sym (some-injective _ _ (rw s at h)))
]

module _ (lua : Lua) (globals : Value) (load_custom : ℕ → Loader) (fuel : ℕ) where
  -- Whatever follows the bytes of a value, and whatever is on the stack: `loadsharedimpl` reads just
  -- these bytes, and pushes the value that `reloaded` says.
  pub loadsharedimpl-encode :
      (v : Value) (e rest : List ℕ) (env : Bool) (stack : List Value)
      → encode lua v ≡ some e
      → IsLoadable lua v
      → loadsharedimpl lua globals load_custom (suc (suc fuel)) (e ++ rest) env stack
        ≡ loaded rest env (reloaded lua globals v ∷ stack)
  unfolding encode loadsharedimpl load_type consume un_le load
  loadsharedimpl-encode (lclosure p us) e rest env stack h w =
      let (eu, hu, he) = encode-closure 8 us (sized (joined (lua.dump p))) e h in
      rw he (
        ap
          (λ l.
            and_load
              (outer_env env
                (loadupvalues (loadsharedimpl lua globals load_custom (suc fuel)) l false stack))
              (load_lclosure lua globals stack env))
          (append_assoc (le 4 (count us) ++ eu) (sized (joined (lua.dump p))) rest)
        ∙ ap (λ l. and_load (outer_env env l) (load_lclosure lua globals stack env))
            (loadupvalues-encode lua globals load_custom fuel us eu
              (sized (joined (lua.dump p)) ++ rest) stack hu w.0 w.1)
        ∙ load_lclosure-sized lua globals load_custom fuel p us rest env stack w.2)
  loadsharedimpl-encode (cclosure f us) e rest env stack h w =
      let (eu, hu, he) = encode-closure 7 us (le 8 f) e h in
      rw he (
        ap
          (λ l.
            and_load
              (outer_env env
                (loadupvalues (loadsharedimpl lua globals load_custom (suc fuel)) l false stack))
              (load_cclosure lua globals stack env))
          (append_assoc (le 4 (count us) ++ eu) (le 8 f) rest)
        ∙ ap (λ l. and_load (outer_env env l) (load_cclosure lua globals stack env))
            (loadupvalues-encode lua globals load_custom fuel us eu (le 8 f ++ rest) stack hu w.0
              w.1)
        ∙ load_cclosure-word lua globals load_custom fuel f us rest env stack w.2)
  loadsharedimpl-encode v e rest env stack h w =
      load-scalar lua globals load_custom (suc fuel) v e rest env stack h w

module _ (lua : Lua) (globals : Value) (load_custom : ℕ → Loader) where
  -- The whole block of a serialized value, read by `loadshared` with the fuel that it brings: with
  -- `env` false at the start the value is pushed, and with `env` true it is an error.
  pub loadshared-encode :
      (v : Value) (e : List ℕ) (garbage : Bool)
      → encode lua v ≡ some e
      → IsLoadable lua v
      → loadshared lua globals load_custom garbage e ≡ (
          if garbage
          then failed invalid_env true
          else loaded [] false (reloaded lua globals v ∷ []))
  unfolding loadshared check_env loadsharedimpl consume
  loadshared-encode v [] garbage h w =
      cc (loadsharedimpl-encode lua globals load_custom 0 v [] [] garbage [] h w)
  loadshared-encode v (x ∷ es) garbage h w =
      ap check_env (
        ap (λ l. loadsharedimpl lua globals load_custom (suc (suc (length es))) l garbage [])
          (sym (append-nil (x ∷ es)))
        ∙ loadsharedimpl-encode lua globals load_custom (length es) v (x ∷ es) [] garbage [] h w)
      ∙ split garbage
    where
      split :
          (b : Bool)
          → check_env (loaded [] b (reloaded lua globals v ∷ []))
            ≡ (if b then failed invalid_env true else loaded [] false (reloaded lua globals v ∷ []))
      split true = refl
      split false = refl
