-- ===== src/Load/Slots.antt =====
-- serde.c, `setupvalues`: which upvalue slot each loaded value ends up in.
use flua_ck.Base.{
  ℕ, suc, ◌+◌, ◌-◌, ◌≤◌, ◌≡◌, refl, ap, ◌∙◌, Bool, true, false, ◌&&◌, List, [], ◌∷◌, ◌++◌,
  append_assoc, append-nil, arith, if◌then◌else◌, ltb, leb, length, length-append, drop, set,
}
use flua_ck.Load.{
  lua_closure, c_closure, setupvalue, set_from, first_round, closure_value, top_value, setupvalues,
  pushed, above,
}
use flua_ck.Value.{Value}

-- the stack after pushing `vs` in order
abbrev pub push_all : List Value → List Value → List Value
push_all [] stack = stack
push_all (v ∷ vs) stack = push_all vs (v ∷ stack)

-- `xs` laid over the front of `ys`
abbrev pub overlay : List Value → List Value → List Value
overlay xs ys = xs ++ drop (length xs) ys

-- the last value of a list that is not empty
abbrev pub last_of : Value → List Value → Value
last_of v [] = v
last_of v (w ∷ ws) = last_of w ws

abbrev pub last_or : Value → List Value → Value
last_or d [] = d
last_or d (v ∷ vs) = last_of v vs

length-push_all : (vs stack : List Value) → length (push_all vs stack) ≡ length vs + length stack
length-push_all [] stack = omega arith
length-push_all (v ∷ vs) stack = omega (arith, length-push_all vs (v ∷ stack))

pushed-push_all :
    (vs stack acc : List Value) (n : ℕ)
    → pushed (length vs + n) (push_all vs stack) acc ≡ pushed n stack (vs ++ acc)
unfolding pushed
pushed-push_all [] stack acc n = ap (λ k. pushed k stack acc) (omega arith)
pushed-push_all (v ∷ vs) stack acc n =
    ap (λ k. pushed k (push_all vs (v ∷ stack)) acc) (omega arith)
    ∙ pushed-push_all vs (v ∷ stack) acc (suc n)

pub above-push_all : (vs stack : List Value) → above (push_all vs stack) stack ≡ vs
unfolding pushed
above-push_all vs stack =
    ap (λ k. pushed k (push_all vs stack) []) (omega (arith, length-push_all vs stack))
    ∙ pushed-push_all vs stack [] 0
    ∙ append-nil vs

set_next :
    (front back : List Value) (old u : Value)
    → set (front ++ (old ∷ back)) (length front) u ≡ front ++ (u ∷ back)
set_next [] back old u = refl
set_next (x ∷ front) back old u = ap (◌∷◌ x) (set_next front back old u)

setupvalue-lua :
    (p : ℕ) (front back : List Value) (old u : Value)
    → setupvalue (lua_closure p (front ++ (old ∷ back))) (length front + 1) u []
      ≡ (lua_closure p ((front ++ (u ∷ [])) ++ back), [])
unfolding setupvalue
setupvalue-lua p front back old u = rw (in_range, add_sub, set_next, append_assoc)
  where
    in_range :
        (leb (length front + 1) (length (front ++ (old ∷ back))) && ltb 0 (length front + 1)) ≡ true
    in_range = ground (arith, length-append front (old ∷ back))

    add_sub : length front + 1 - 1 ≡ length front
    add_sub = omega arith

-- From round `length front + 1` on the loop fills the slots behind `front`.
set_from-lua :
    (p : ℕ) (us front back : List Value)
    → length us ≤ length back
    → set_from us (length front + 1) (lua_closure p (front ++ back)) []
      ≡ (lua_closure p (front ++ overlay us back), [])
unfolding set_from
set_from-lua p [] front back h = refl
set_from-lua p (u ∷ us) front [] h = absurd (omega arith)
set_from-lua p (u ∷ us) front (b ∷ back) h =
    rw (setupvalue-lua p front back b u, ← next_round)
      (set_from-lua p us (front ++ (u ∷ [])) back (omega arith)
        ∙ ap (λ l. (lua_closure p l, [])) (append_assoc front (u ∷ []) _))
  where
    next_round : length (front ++ (u ∷ [])) + 1 ≡ length front + 1 + 1
    next_round = omega (arith, length-append front (u ∷ []))

no_slot : (n : ℕ) → (leb n 0 && ltb 0 n) ≡ false
no_slot n = ground arith

-- A C function has no slots: each value stays on the stack, the last one at the top.
set_from-c :
    (f : ℕ) (us : List Value) (n : ℕ) (left : List Value)
    → set_from us n (c_closure f []) left ≡ (c_closure f [], push_all us left)
unfolding set_from setupvalue
set_from-c f [] n left = refl
set_from-c f (u ∷ us) n left = rw (no_slot n) (set_from-c f us (n + 1) (u ∷ left))

push_all-top :
    (v : Value) (vs left : List Value)
    → (rest : List Value) × (push_all vs (v ∷ left) ≡ last_of v vs ∷ rest)
push_all-top v [] left = (left, refl)
push_all-top v (w ∷ vs) left = push_all-top w vs (v ∷ left)

-- A loaded Lua function has the loaded upvalues in its slots, from the second slot on if `_ENV` was
-- among the upvalues, and from the first one on if it was not. The other slots stay as lua_load(3)
-- left them.
pub setupvalues-lua :
    (p : ℕ) (us : List Value) (env : Bool) (globals : Value) (rest : List Value)
    → length us + (if env then 1 else 0) ≤ suc (length rest)
    → setupvalues us env (lua_closure p (globals ∷ rest))
      ≡ closure_value (lua_closure p (overlay (if env then globals ∷ us else us) (globals ∷ rest)))
unfolding setupvalues first_round top_value
setupvalues-lua p us true globals rest h =
    ap top_value (set_from-lua p us (globals ∷ []) rest (omega arith))
setupvalues-lua p us false globals rest h =
    ap top_value (set_from-lua p us [] (globals ∷ rest) (omega arith))

-- A loaded C function with upvalues is lost: what is left in its place is its last upvalue.
pub setupvalues-c_lost :
    (f : ℕ) (u : Value) (us : List Value) (env : Bool)
    → setupvalues (u ∷ us) env (c_closure f []) ≡ last_of u us
unfolding setupvalues top_value
setupvalues-c_lost f u us env =
    rw (set_from-c f (u ∷ us) (first_round env) [], (push_all-top u us []).1)

pub setupvalues-c_none :
    (f : ℕ) (env : Bool) → setupvalues [] env (c_closure f []) ≡ closure_value (c_closure f [])
unfolding setupvalues top_value
setupvalues-c_none f env = rw (set_from-c f [] (first_round env) [])
