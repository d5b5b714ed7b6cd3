-- ===== src/Wide/Whole.antt =====
-- shared.c: l_ck_shared_pr_md128_<NAME>_<OP><VARIANT>, on all the elements of a view. A table of Lua
-- is written as the list of its elements, in an argument and in an answer.
pub mod Swap
use flua_ck.Base.{
  ℕ, zero, suc, ◌+◌, ◌*◌, ◌≡◌, leb, Bool, true, false, ◌&&◌, Option, none, some, List, [], ◌∷◌,
  ◌++◌, ◌==◌, length, if◌then◌else◌,
}
use flua_ck.Base.Words.{le}
use flua_ck.Atomic.Pr128.{Pr128Op, pr128_cas, pr128_cas_value, pr128_load}
use flua_ck.Cell.{LuaTo}
use flua_ck.Handle.{Object, World, Answer, values, raises, type_error, fault, put, with_object}
use flua_ck.Value.{Value, boolean}
use flua_ck.Wide.{
  View, view_d, view_n, view_size, view_push, view_to, RcSharedPr128, shared_pr128_metatable,
  read_element,
}

-- ck_pr's operations on the 16 bytes behind `p`, by the type and the number of elements of a view:
-- ck_pr_load's value; ck_pr_cas's answer and what it leaves, for the bytes to compare and the bytes to
-- set; ck_pr_cas_value's answer, the bytes it found and what it leaves
pub record CkPr128 : Type 0 where
  pub load : View → List ℕ → List ℕ
  pub cas : View → List ℕ → List ℕ → List ℕ → Bool × List ℕ
  pub cas_value : View → List ℕ → List ℕ → List ℕ → Bool × List ℕ × List ℕ

-- the arguments 2 and 3, where they are tables
pub record CasTables : Type 0 where
  pub old : Option (List Value)
  pub new : Option (List Value)

-- The operations of SERDE_PR128_OPS_LIST for the type of a view: `d` has only cas.
abbrev pub view_has : View → Pr128Op → Bool
view_has view_d pr128_cas = true
view_has view_d pr128_cas_value = false
view_has view_d pr128_load = false
view_has _ op = true

-- LUA_MINSTACK, the slots that a C function may use without luaL_checkstack
abbrev pub lua_minstack : ℕ
lua_minstack = 20

-- What the function pushes and does not pop before it returns: the userdata; the elements of both
-- tables; the results; and an element of the result's table.
unfoldable pub slots : View → Pr128Op → ℕ
slots v pr128_cas = 1 + 2 * view_n v + 1
slots v pr128_cas_value = 1 + 2 * view_n v + 2 + 1
slots v pr128_load = 1 + 1 + 1

unfoldable pub table_check : View → Option (List Value) → Bool
table_check v none = false
table_check v (some xs) = length xs == view_n v

-- SERDE_PR128_<CLASS>_CHECKS
unfoldable pub view_checks : View → Pr128Op → CasTables → Bool
view_checks v pr128_cas args = table_check v args.old && table_check v args.new
view_checks v pr128_cas_value args = table_check v args.old && table_check v args.new
view_checks v pr128_load args = true

-- the loop that pushes the elements of an array from `i` on
unfoldable pub pushed : View → ℕ → ℕ → List ℕ → List Value
pushed v zero i bytes = []
pushed v (suc n) i bytes = view_push v (read_element v i bytes) ∷ pushed v n (suc i) bytes

set_bytes :
    World RcSharedPr128
    → ℕ
    → Object RcSharedPr128
    → List Value
    → List ℕ
    → Answer × World RcSharedPr128
set_bytes w p o vs bytes = (
  values vs,
  record w { objects = put w.objects p (some (record o { value = record { bytes = bytes } })) },
)

module _ (to : LuaTo) where
  -- the loop that fills an array from a table
  unfoldable pub filled_array : View → List Value → List ℕ
  filled_array v [] = []
  filled_array v (x ∷ xs) = le (view_size v) (view_to to v x) ++ filled_array v xs

  filled_table : View → Option (List Value) → List ℕ
  unfolding filled_array
  filled_table v none = []
  filled_table v (some xs) = filled_array v xs

module _ (pr : CkPr128) (to : LuaTo) where
  -- SERDE_PR128_<CLASS>_IMPL
  view_impl :
      View
      → Pr128Op
      → CasTables
      → World RcSharedPr128
      → ℕ
      → Object RcSharedPr128
      → Answer × World RcSharedPr128
  unfolding set_bytes filled_table
  view_impl v pr128_cas args w p o =
      let (ok, bytes) =
        pr.cas v o.value.bytes (filled_table to v args.old) (filled_table to v args.new) in
      set_bytes w p o (boolean ok ∷ []) bytes
  view_impl v pr128_cas_value args w p o =
      let (ok, current, bytes) =
        pr.cas_value v o.value.bytes (filled_table to v args.old) (filled_table to v args.new) in
      set_bytes w p o (boolean ok ∷ pushed v (view_n v) 0 current) bytes
  view_impl v pr128_load args w p o = (values (pushed v (view_n v) 0 (pr.load v o.value.bytes)), w)

  view_checked :
      View
      → Pr128Op
      → CasTables
      → World RcSharedPr128
      → ℕ
      → Object RcSharedPr128
      → Answer × World RcSharedPr128
  unfolding view_impl
  view_checked v op args w p o =
      if view_checks v op args
      then if leb (slots v op) lua_minstack then view_impl v op args w p o else (fault, w)
      else (raises type_error, w)

  -- The function of a view and an operation that it has, on a table with the userdata `h`. To push more
  -- values than there are slots is a write behind the end of Lua's stack: a fault.
  unfoldable pub md128_view_op :
      (v : View) (op : Pr128Op)
      → view_has v op ≡ true
      → ℕ
      → CasTables
      → World RcSharedPr128
      → Answer × World RcSharedPr128
  unfolding view_checked
  md128_view_op v op has h args w =
      with_object shared_pr128_metatable h w (λ p o. view_checked v op args w p o)
