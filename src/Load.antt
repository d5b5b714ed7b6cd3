-- ===== src/Load.antt =====
-- serde.c: `loadshared` and the functions that it calls, which read a serialized value back onto a
-- Lua stack. The bytes are those of the block from the read position on; reading past them is a
-- fault. Values of a custom type go to the parameter `load_custom`.
pub mod Slots
pub mod Faithful
pub mod Inverse
pub mod RoundTrip
use Prim.Native.String.{String}
use flua_ck.Base.{
  ℕ, zero, suc, ◌+◌, ◌-◌, Bool, true, false, Option, none, some, List, [], ◌∷◌, ◌++◌, ◌&&◌, not,
  if◌then◌else◌, ltb, leb, ◌==◌, length, set, replicate,
}
use flua_ck.Base.Words.{un_le}
use flua_ck.Serialize.{Lua}
use flua_ck.Value.{
  Value, nil, boolean, lightuserdata, integer, number, string, lclosure, cclosure, Upvalues, end,
  upvalue,
}

-- Why NULL is returned, by the message that is left on the stack.
pub data Message : Type 0 where
  invalid_type bad_chunk invalid_env : Message
  other_error : ℕ → Message

-- `loaded`: the read position, `*envp`, and the values pushed, the last one first. `fault`: a read
-- past the block, or a stack slot that is not there. `stuck`: out of fuel.
pub data Loaded : Type 0 where
  loaded : List ℕ → Bool → List Value → Loaded
  failed : Message → Bool → Loaded
  fault : Loaded
  stuck : Loaded

abbrev pub Loader : Type 0
Loader = List ℕ → Bool → List Value → Loaded

-- `consume`: the next `n` bytes and what follows them
unfoldable pub consume : ℕ → List ℕ → Option (List ℕ × List ℕ)
consume zero bs = some ([], bs)
consume (suc n) [] = none
consume (suc n) (b ∷ bs) = elim (consume n bs) [
  | none ↦ none
  | some (front, rest) ↦ some (b ∷ front, rest)
]

-- Consume a field and go on with it.
abbrev pub with_field : ℕ → List ℕ → (List ℕ → List ℕ → Loaded) → Loaded
with_field n bs next = elim (consume n bs) [ none ↦ fault | some (front, rest) ↦ next front rest ]

abbrev pub and_load : Loaded → Loader → Loaded
and_load (loaded bs env stack) next = next bs env stack
and_load (failed msg env) next = failed msg env
and_load fault next = fault
and_load stuck next = stuck

-- the loop of `loadupvalues`: `count` values, each by `loadsharedimpl`
unfoldable pub load_values : Loader → ℕ → Loader
load_values load zero bs env stack = loaded bs env stack
load_values load (suc n) bs env stack = and_load (load bs env stack) (load_values load n)

unfoldable pub loadupvalues : Loader → Loader
loadupvalues load bs env stack =
    with_field 4 bs (λ field rest. load_values load (un_le field) rest env stack)

-- The `env` of the upvalues is a variable of the closure's case: where it fails, the caller's `*envp` is
-- as before.
abbrev pub outer_env : Bool → Loaded → Loaded
outer_env env (failed msg inner) = failed msg env
outer_env env (loaded rest inner stack) = loaded rest inner stack
outer_env env fault = fault
outer_env env stuck = stuck

-- A closure on the stack: what it runs and its upvalue slots.
pub data Closure : Type 0 where
  lua_closure : ℕ → List Value → Closure
  c_closure : ℕ → List Value → Closure

abbrev pub slots : Closure → List Value
slots (lua_closure p us) = us
slots (c_closure f us) = us

abbrev pub with_slots : Closure → List Value → Closure
with_slots (lua_closure p us) us' = lua_closure p us'
with_slots (c_closure f us) us' = c_closure f us'

-- lua_setupvalue(3) for the value at the top of the stack: it is popped, unless there is no such
-- slot. `left` is what stays above the closure.
unfoldable pub setupvalue : Closure → ℕ → Value → List Value → Closure × List Value
setupvalue c n u left =
    if leb n (length (slots c)) && ltb 0 n
    then (with_slots c (set (slots c) (n - 1) u), left)
    else (c, u ∷ left)

-- The loop of `setupvalues` from round `n` on; the values are those from stack index `idx` up to the
-- closure.
unfoldable pub set_from : List Value → ℕ → Closure → List Value → Closure × List Value
set_from [] n c left = (c, left)
set_from (u ∷ us) n c left = let (c', left') = setupvalue c n u left in set_from us (n + 1) c' left'

-- the first round that does not `continue`
unfoldable pub first_round : Bool → ℕ
first_round env = if env then 2 else 1

-- the upvalues of a loaded function, under the name that lua_getupvalue(3) gives them
abbrev pub named : String → List Value → Upvalues
named name [] = end
named name (u ∷ us) = upvalue name u (named name us)

unfoldable pub closure_value : Closure → Value
closure_value (lua_closure p us) = lclosure p (named "(no name)" us)
closure_value (c_closure f us) = cclosure f (named "" us)

-- lua_insert and lua_settop keep what stood at the top: the closure, or a value left above it.
unfoldable pub top_value : Closure × List Value → Value
unfolding closure_value
top_value (c, []) = closure_value c
top_value (c, u ∷ left) = u

-- `setupvalues`: the value left at `bottom`. `us` are the loaded upvalues in order.
unfoldable pub setupvalues : List Value → Bool → Closure → Value
setupvalues us env c = top_value (set_from us (first_round env) c [])

-- The values that were pushed above the old stack, in the order of pushing. Both lists have the
-- last value first; the new one extends the old.
unfoldable pub pushed : ℕ → List Value → List Value → List Value
pushed zero stack acc = acc
pushed (suc n) [] acc = acc
pushed (suc n) (v ∷ stack) acc = pushed n stack (v ∷ acc)

abbrev pub above : List Value → List Value → List Value
above stack old = pushed (length stack - length old) stack []

-- the test of `loadshared`; a NULL with `env` set has its message covered by another
unfoldable pub check_env : Loaded → Loaded
check_env (loaded rest env stack) = if env then failed invalid_env env else loaded rest env stack
check_env (failed msg env) = failed (if env then invalid_env else msg) env
check_env fault = fault
check_env stuck = stuck

module _ (lua : Lua) (globals : Value) where
  -- lua_load(3): the first upvalue of a loaded function is the global environment, and the others
  -- are nil.
  unfoldable pub fresh_slots : ℕ → List Value
  fresh_slots p = set (replicate (lua.nupvalues p) nil) 0 globals

  -- luaL_loadbufferx(3) on the chunk, then `setupvalues` with the loaded upvalues `us`. `old` is the
  -- stack below them, and `outer` the caller's `*envp`.
  unfoldable pub found_chunk : List Value → Bool → List Value → Bool → List ℕ → Option ℕ → Loaded
  found_chunk us env old outer rest none = failed bad_chunk outer
  found_chunk us env old outer rest (some p) =
      loaded rest outer (setupvalues us env (lua_closure p (fresh_slots p)) ∷ old)

  unfoldable pub load_chunk : List Value → Bool → List Value → Bool → List ℕ → List ℕ → Loaded
  load_chunk us env old outer chunk rest = found_chunk us env old outer rest (lua.undump chunk)

  -- `loadclosure` and `setupvalues`, once the upvalues stand on the stack
  unfoldable pub load_lclosure : List Value → Bool → Loader
  load_lclosure old outer bs env stack =
      with_field 8 bs
        (λ size rest. with_field (un_le size) rest (load_chunk (above stack old) env old outer))

  -- lua_pushcfunction(3) pushes a function with no upvalues.
  unfoldable pub load_cclosure : List Value → Bool → Loader
  load_cclosure old outer bs env stack = with_field 8 bs (λ f rest.
      loaded rest outer (setupvalues (above stack old) env (c_closure (un_le f) []) ∷ old))

  module _ (load_custom : ℕ → Loader) where
    -- the `switch (type)` of `loadsharedimpl`; `load` is its recursive call
    unfoldable pub load_type : Loader → ℕ → Loader
    load_type load type bs env stack =
        if leb 128 type
        then failed invalid_type env
        else if type == 0
        then loaded bs true stack
        else if type == 1
        then loaded bs env (nil ∷ stack)
        else if type == 2
        then with_field 1 bs (λ b rest. loaded rest env (boolean (not (un_le b == 0)) ∷ stack))
        else if type == 3
        then with_field 8 bs (λ p rest. loaded rest env (lightuserdata (un_le p) ∷ stack))
        else if type == 4
        then with_field 8 bs (λ n rest. loaded rest env (integer (un_le n) ∷ stack))
        else if type == 5
        then with_field 8 bs (λ n rest. loaded rest env (number (un_le n) ∷ stack))
        else if type == 6
        then with_field 8 bs
            (λ n rest. with_field (un_le n) rest (λ s rest'. loaded rest' env (string s ∷ stack)))
        else if type == 7
        then and_load (outer_env env (loadupvalues load bs false stack)) (load_cclosure stack env)
        else if type == 8
        then and_load (outer_env env (loadupvalues load bs false stack)) (load_lclosure stack env)
        else load_custom type bs env stack

    -- `fuel` bounds how deep closures nest in the bytes.
    unfoldable pub loadsharedimpl : ℕ → Loader
    loadsharedimpl zero bs env stack = stuck
    loadsharedimpl (suc fuel) bs env stack =
        with_field 1 bs (λ type rest. load_type (loadsharedimpl fuel) (un_le type) rest env stack)

    -- A closure takes at least five bytes before the values inside it, so the length is enough.
    -- `bool env` is not initialised in the code: `garbage` is what it holds.
    unfoldable pub loadshared : Bool → List ℕ → Loaded
    loadshared garbage bs = check_env (loadsharedimpl (suc (length bs)) bs garbage [])
