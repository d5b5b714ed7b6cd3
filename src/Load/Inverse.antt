-- ===== src/Load/Inverse.antt =====
-- serde.c against serdebuf.c: how the parts of `loadsharedimpl` read the parts of the format.
use flua_ck.Base.{
  ℕ, suc, ◌^◌, ◌<◌, ◌≡◌, refl, sym, ap, ◌∙◌, inl, inr, Bool, true, false, ◌||◌, Option, none, some,
  List, [], ◌∷◌, ◌++◌, append_assoc, Bool-cases, if◌then◌else◌, length,
}
use mathlib.Core.Option.{some-injective}
use flua_ck.Base.Words.{le, un_le, length-le, un_le-le}
use flua_ck.Load.{
  Loaded, loaded, Loader, consume, with_field, and_load, load_values, load_type, loadsharedimpl,
}
use flua_ck.Load.Slots.{push_all}
use flua_ck.Serialize.{Lua, is_env, count}
use flua_ck.Serialize.Format.{seq, sized, encode_scalar, encode_upvalues}
use flua_ck.Value.{
  Value, nil, boolean, lightuserdata, integer, number, string, lclosure, cclosure, table, thread,
  Upvalues, end, upvalue,
}

-- The numbers in a value are 64-bit patterns, and a text has a 64-bit length.
abbrev pub IsWord : Value → Type 0
IsWord nil = Unit {0}
IsWord (boolean b) = Unit {0}
IsWord (lightuserdata p) = p < 2 ^ 64
IsWord (integer n) = n < 2 ^ 64
IsWord (number n) = n < 2 ^ 64
IsWord (string bs) = length bs < 2 ^ 64
IsWord (lclosure p us) = Unit {0}
IsWord (cclosure f us) = f < 2 ^ 64
IsWord (table ser de id) = Unit {0}
IsWord (thread id) = Unit {0}

abbrev pub AllWords : Upvalues → Type 0
AllWords end = Unit {0}
AllWords (upvalue name v rest) = IsWord v × AllWords rest

-- the upvalues that are written as values, and whether one is `_ENV`
abbrev pub kept_values : Upvalues → List Value
kept_values end = []
kept_values (upvalue name v rest) = if is_env name then kept_values rest else v ∷ kept_values rest

abbrev pub has_env : Upvalues → Bool
has_env end = false
has_env (upvalue name v rest) = is_env name || has_env rest

pub consume-append : (a b : List ℕ) → consume (length a) (a ++ b) ≡ some (a, b)
unfolding consume
consume-append [] b = refl
consume-append (x ∷ a) b = rw (consume-append a b)

pub with_field-append :
    (n : ℕ) (a b : List ℕ) (next : List ℕ → List ℕ → Loaded)
    → length a ≡ n
    → with_field n (a ++ b) next ≡ next a b
with_field-append n a b next h = rw (← h, consume-append a b, with_field)

-- A number of `k` bytes, and a blob behind its length, are read back.
pub field :
    (k : ℕ) (b : List ℕ) (next : ℕ → List ℕ → Loaded) (x : ℕ)
    → x < 256 ^ k
    → with_field k (le k x ++ b) (λ f r. next (un_le f) r) ≡ next x b
field k b next x h =
    with_field-append k (le k x) b (λ f r. next (un_le f) r) (length-le k x)
    ∙ ap (λ n. next n b) (un_le-le k x h)

pub word :
    (b : List ℕ) (next : ℕ → List ℕ → Loaded) (x : ℕ)
    → x < 2 ^ 64
    → with_field 8 (le 8 x ++ b) (λ f r. next (un_le f) r) ≡ next x b
word b next x h = field 8 b next x h

pub blob :
    (bs b : List ℕ) (next : List ℕ → List ℕ → Loaded)
    → length bs < 2 ^ 64
    → with_field 8 (sized bs ++ b) (λ n r. with_field (un_le n) r next) ≡ next bs b
blob bs b next h =
    ap (λ l. with_field 8 l (λ n r. with_field (un_le n) r next))
      (append_assoc (le 8 (length bs)) bs b)
    ∙ word (bs ++ b) (λ n r. with_field n r next) (length bs) h
    ∙ with_field-append (length bs) bs b next refl

pub seq-eq-some :
    (x y : Option (List ℕ)) (e : List ℕ)
    → seq x y ≡ some e
    → (a : List ℕ) × (b : List ℕ) × (x ≡ some a) × (y ≡ some b) × (e ≡ a ++ b)
seq-eq-some none y e h = cc
seq-eq-some (some a) none e h = cc
seq-eq-some (some a) (some b) e h = (a, b, refl, refl, sym (some-injective _ _ h))

or_true : (a : Bool) → (a || true) ≡ true
or_true true = refl
or_true false = refl

or_false : (a : Bool) → (a || false) ≡ a
or_false true = refl
or_false false = refl

load_values_next :
    (load : Loader) (n : ℕ) (bs : List ℕ) (env : Bool) (stack : List Value) {bs' : List ℕ}
    {env' : Bool} {stack' : List Value}
    → load bs env stack ≡ loaded bs' env' stack'
    → load_values load (suc n) bs env stack ≡ load_values load n bs' env' stack'
unfolding load_values
load_values_next load n bs env stack h = ap (λ l. and_load l (load_values load n)) h

module _ (lua : Lua) (globals : Value) (load_custom : ℕ → Loader) where
  -- One scalar is read back as it was.
  pub load-scalar :
      (fuel : ℕ) (v : Value) (e rest : List ℕ) (env : Bool) (stack : List Value)
      → encode_scalar v ≡ some e
      → IsWord v
      → loadsharedimpl lua globals load_custom (suc fuel) (e ++ rest) env stack
        ≡ loaded rest env (v ∷ stack)
  unfolding loadsharedimpl encode_scalar load_type consume un_le
  load-scalar fuel nil e rest env stack h w = rw (← some-injective _ _ h)
  load-scalar fuel (boolean true) e rest env stack h w = rw (← some-injective _ _ h)
  load-scalar fuel (boolean false) e rest env stack h w = rw (← some-injective _ _ h)
  load-scalar fuel (lightuserdata p) e rest env stack h w =
      rw (← some-injective _ _ h) (word rest (λ k r. loaded r env (lightuserdata k ∷ stack)) p w)
  load-scalar fuel (integer n) e rest env stack h w =
      rw (← some-injective _ _ h) (word rest (λ k r. loaded r env (integer k ∷ stack)) n w)
  load-scalar fuel (number n) e rest env stack h w =
      rw (← some-injective _ _ h) (word rest (λ k r. loaded r env (number k ∷ stack)) n w)
  load-scalar fuel (string bs) e rest env stack h w =
      rw (← some-injective _ _ h) (blob bs rest (λ b r. loaded r env (string b ∷ stack)) w)
  load-scalar fuel (lclosure p us) e rest env stack h w = cc
  load-scalar fuel (cclosure f us) e rest env stack h w = cc
  load-scalar fuel (table ser de id) e rest env stack h w = cc
  load-scalar fuel (thread id) e rest env stack h w = cc

  load-env :
      (fuel : ℕ) (rest : List ℕ) (env : Bool) (stack : List Value)
      → loadsharedimpl lua globals load_custom (suc fuel) (0 ∷ rest) env stack
        ≡ loaded rest true stack
  unfolding loadsharedimpl load_type consume un_le
  load-env fuel rest env stack = refl

  -- The loop of `loadupvalues` reads the upvalues that are no `_ENV` in order, and notes an `_ENV`.
  pub load-upvalues :
      (fuel : ℕ) (us : Upvalues) (e rest : List ℕ) (env : Bool) (stack : List Value)
      → encode_upvalues us ≡ some e
      → AllWords us
      → load_values
          (loadsharedimpl lua globals load_custom (suc fuel))
          (count us)
          (e ++ rest)
          env
          stack
        ≡ loaded rest (env || has_env us) (push_all (kept_values us) stack)
  unfolding load_values encode_upvalues
  load-upvalues fuel end e rest env stack h w = rw (← some-injective _ _ h, or_false)
  load-upvalues fuel (upvalue name v us) e rest env stack h w = elim (Bool-cases (is_env name)) [
    | inl q ↦
        let (a, b, ha, hb, he) = seq-eq-some (some (0 ∷ [])) _ e (rw q at h) in
        rw (q, or_true, he, ← some-injective _ _ ha)
          (load_values_next (loadsharedimpl lua globals load_custom (suc fuel)) (count us) _ env
              stack (load-env fuel (b ++ rest) env stack)
            ∙ load-upvalues fuel us b rest true stack hb w.1)
    | inr q ↦
        let (a, b, ha, hb, he) = seq-eq-some (encode_scalar v) _ e (rw q at h) in
        rw (q, he, append_assoc a b rest)
          (load_values_next (loadsharedimpl lua globals load_custom (suc fuel)) (count us) _ env
              stack (load-scalar fuel v a (b ++ rest) env stack ha w.0)
            ∙ load-upvalues fuel us b rest env (v ∷ stack) hb w.1)
  ]
