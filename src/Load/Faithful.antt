-- ===== src/Load/Faithful.antt =====
-- serde.c against serdebuf.c: which values come back as they were, and which do not.
use Prim.Native.String.{String}
use flua_ck.Base.{
  ℕ, zero, suc, ◌≡◌, refl, ap, ◌∙◌, inl, inr, true, false, none, some, List, [], ◌∷◌, ◌++◌,
  append-nil, arith, Bool-cases, if◌then◌else◌, length, drop, replicate, set,
}
use flua_ck.Load.{loaded, Loader, named, c_closure, closure_value, fresh_slots, loadshared}
use flua_ck.Load.Slots.{overlay, last_of, last_or}
use flua_ck.Load.Inverse.{kept_values, has_env}
use flua_ck.Load.RoundTrip.{slot_values, IsLoadable, loadshared-encode}
use flua_ck.Serialize.{Lua, is_env, count}
use flua_ck.Serialize.Format.{encode, encode_upvalues, encode_scalar}
use flua_ck.Value.{Value, table, nil, lclosure, cclosure, Upvalues, end, upvalue}

-- the upvalues as another Lua state should have them: `_ENV` is its own global environment
abbrev pub relocated : Value → Upvalues → List Value
relocated globals end = []
relocated globals (upvalue name v us) = (if is_env name then globals else v) ∷ relocated globals us

-- Only the first upvalue may be `_ENV`.
abbrev pub IsEnvFirst : Upvalues → Type 0
IsEnvFirst end = Unit {0}
IsEnvFirst (upvalue name v us) = has_env us ≡ false

relocated-kept_values :
    (globals : Value) (us : Upvalues) → has_env us ≡ false → relocated globals us ≡ kept_values us
relocated-kept_values globals end h = refl
relocated-kept_values globals (upvalue name v us) h = elim (Bool-cases (is_env name)) [
  | inl q ↦ cc (rw q at h)
  | inr q ↦ rw (q, relocated-kept_values globals us (rw q at h))
]

length-relocated : (globals : Value) (us : Upvalues) → length (relocated globals us) ≡ count us
length-relocated globals end = refl
length-relocated globals (upvalue name v us) = ap suc (length-relocated globals us)

drop-replicate :
    (n : ℕ) (v : Value) (xs : List Value) → length xs ≡ n → drop (length xs) (replicate n v) ≡ []
drop-replicate zero v [] h = refl
drop-replicate (suc n) v [] h = absurd (omega arith)
drop-replicate zero v (x ∷ xs) h = absurd (omega arith)
drop-replicate (suc n) v (x ∷ xs) h = drop-replicate n v xs (omega arith)

overlay-relocated :
    (globals : Value) (us : Upvalues) (g : Value)
    → overlay (relocated globals us) (replicate (count us) g) ≡ relocated globals us
overlay-relocated globals us g =
    ap (λ l. relocated globals us ++ l)
      (drop-replicate (count us) g (relocated globals us) (length-relocated globals us))
    ∙ append-nil (relocated globals us)

slots-relocated :
    (globals : Value) (us : Upvalues)
    → IsEnvFirst us
    → overlay (slot_values globals us) (set (replicate (count us) nil) 0 globals)
      ≡ relocated globals us
slots-relocated globals end h = refl
slots-relocated globals (upvalue name v us) h = elim (Bool-cases (is_env name)) [
  | inl q ↦
      rw (q, ← relocated-kept_values globals us h)
        (ap (◌∷◌ globals) (overlay-relocated globals us nil))
  | inr q ↦
      rw (q, h, ← relocated-kept_values globals us h)
        (ap (◌∷◌ v) (overlay-relocated globals us nil))
]

module _ (lua : Lua) (globals : Value) (load_custom : ℕ → Loader) where
  -- A Lua function comes back with its prototype and its upvalues, `_ENV` replaced by the reader's
  -- global environment, if no upvalue but the first is `_ENV`. The `env` of `loadshared`, which is not
  -- initialised, is taken to be false.
  pub loadshared-function :
      (p : ℕ) (us : Upvalues) (e : List ℕ)
      → IsEnvFirst us
      → IsLoadable lua (lclosure p us)
      → encode lua (lclosure p us) ≡ some e
      → loadshared lua globals load_custom false e
        ≡ loaded [] false (lclosure p (named "(no name)" (relocated globals us)) ∷ [])
  unfolding closure_value fresh_slots
  loadshared-function p us e first w h =
      loadshared-encode lua globals load_custom (lclosure p us) e false h w
      ∙ ap (λ vs. loaded [] false (lclosure p (named "(no name)" vs) ∷ []))
          (ap (λ n. overlay (slot_values globals us) (set (replicate n nil) 0 globals)) w.2.slots
            ∙ slots-relocated globals us first)

  -- Where `_ENV` comes after another first upvalue, the loaded function has the global environment
  -- in the first slot, whatever value stood there. The `env` of `loadshared`, which is not initialised,
  -- is taken to be false.
  pub loadshared_misplaced :
      (p : ℕ) (name : String) (v : Value) (us : Upvalues) (e : List ℕ)
      → is_env name ≡ false
      → has_env us ≡ true
      → IsLoadable lua (lclosure p (upvalue name v us))
      → encode lua (lclosure p (upvalue name v us)) ≡ some e
      → (rest : Upvalues) × (loadshared lua globals load_custom false e
          ≡ loaded [] false (lclosure p (upvalue "(no name)" globals rest) ∷ []))
  unfolding closure_value
  loadshared_misplaced p name v us e q r w h = (
    named "(no name)" (kept ++ drop (suc (length kept)) (fresh_slots lua globals p)),
    loadshared-encode lua globals load_custom (lclosure p (upvalue name v us)) e false h w
        ∙ ap
            (λ b. loaded [] false (
              lclosure p (
                named "(no name)"
                  (overlay (if b then globals ∷ kept else kept) (fresh_slots lua globals p)))
              ∷ []))
            any_env,
  )
    where
      kept : List Value
      kept = kept_values (upvalue name v us)

      any_env : has_env (upvalue name v us) ≡ true
      any_env = rw (q, r)

  -- A C function with an upvalue that is no `_ENV` comes back as the last such upvalue, and not as a
  -- function. The `env` of `loadshared`, which is not initialised, is taken to be false.
  pub loadshared-cclosure_lost :
      (f : ℕ) (us : Upvalues) (u : Value) (us' : List Value) (e : List ℕ)
      → kept_values us ≡ u ∷ us'
      → IsLoadable lua (cclosure f us)
      → encode lua (cclosure f us) ≡ some e
      → loadshared lua globals load_custom false e ≡ loaded [] false (last_of u us' ∷ [])
  loadshared-cclosure_lost f us u us' e k w h =
      loadshared-encode lua globals load_custom (cclosure f us) e false h w
      ∙ ap (λ vs. loaded [] false (last_or (closure_value (c_closure f [])) vs ∷ [])) k

  -- A function that was loaded cannot be serialized again if it uses globals: the binary chunk has no
  -- names, so its `_ENV` is an upvalue like any other, and a table. The function has `_ENV` as its
  -- first upvalue and as no other, and the reader's global environment is a table.
  encode-loadshared :
      (p : ℕ) (name : String) (v : Value) (us : Upvalues) (e : List ℕ) (ser de : Value) (id : ℕ)
      → globals ≡ table ser de id
      → is_env name ≡ true
      → IsEnvFirst (upvalue name v us)
      → IsLoadable lua (lclosure p (upvalue name v us))
      → encode lua (lclosure p (upvalue name v us)) ≡ some e
      → (loaded_value : Value) × (loadshared lua globals load_custom false e
          ≡ loaded [] false (loaded_value ∷ []))
        × (encode lua loaded_value ≡ none)
  unfolding encode encode_upvalues encode_scalar
  encode-loadshared p name v us e ser de id g q first w h = (
    lclosure p (named "(no name)" (relocated globals (upvalue name v us))),
    loadshared-function p (upvalue name v us) e first w h,
    rw (q, g) refl,
  )
