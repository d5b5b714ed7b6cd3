-- ===== src/Wide/New.antt =====
-- shared.c: l_ck_shared_pr_md128_new.
pub mod Initial
use flua_ck.Base.{
  ℕ, ◌-◌, ◌/◌, Bool, true, false, ◌&&◌, ◌||◌, not, Option, none, some, List, [], ◌∷◌, ◌++◌, ◌==◌,
  leb, if◌then◌else◌, length, replicate,
}
use flua_ck.Base.Words.{le}
use flua_ck.Cell.{LuaTo}
use flua_ck.Handle.{World, Answer, raises, type_error, fatal_error, create}
use flua_ck.Marshal.{from_malloc}
use flua_ck.Memory.{Mem, malloc}
use flua_ck.Serdebuf.{enomem}
use flua_ck.Value.{Value, integer, number, lightuserdata}
use flua_ck.Wide.{RcSharedPr128, shared_pr128_metatable, sizeof_rcsharedpr128}

-- The argument of `new`, by its lua_type: a table has the elements that lua_geti finds.
pub data Argument : Type 0 where
  no_value : Argument
  text : List ℕ → Argument
  elements : List Value → Argument
  other_type : Argument

-- lua_type of an element of a table, and lua_isinteger
pub data ElementType : Type 0 where
  type_number type_lightuserdata type_other : ElementType

unfoldable pub element_type : Value → ElementType
element_type (integer n) = type_number
element_type (number n) = type_number
element_type (lightuserdata p) = type_lightuserdata
element_type v = type_other

unfoldable pub lua_isinteger : Value → Bool
lua_isinteger (integer n) = true
lua_isinteger v = false

unfoldable pub same_type : ElementType → ElementType → Bool
same_type type_number type_number = true
same_type type_lightuserdata type_lightuserdata = true
same_type type_other type_other = true
same_type a b = false

-- the switch on the length of the table, with the type of element 1
unfoldable pub length_allowed : ℕ → ElementType → Bool → Bool
length_allowed n type_number isint = n == 2 || ((n == 4 || (n == 8 || n == 16)) && isint)
length_allowed n type_lightuserdata isint = n == 2
length_allowed n type_other isint = false

-- the loop over the elements from 2 on
unfoldable pub all_alike : ElementType → Bool → List Value → Bool
all_alike type isint [] = true
all_alike type isint (v ∷ vs) =
    (same_type (element_type v) type && (not isint || lua_isinteger v)) && all_alike type isint vs

unfoldable pub elements_allowed : List Value → Bool
elements_allowed [] = false
elements_allowed (v ∷ vs) =
    length_allowed (length (v ∷ vs)) (element_type v) (lua_isinteger v)
    && all_alike (element_type v) (lua_isinteger v) vs

-- What the uninitialised memory and variables of `new` hold: the 16 bytes of a new block, and what
-- luaL_checklstring answers for the argument whose number is in `i`, with the string argument at hand.
pub record Garbage : Type 0 where
  pub block : List ℕ
  pub checklstring : List ℕ → Option (List ℕ)

-- `memcpy` and `memset` of the string
unfoldable pub padded : List ℕ → List ℕ
padded s = s ++ replicate (16 - length s) 0

wide_made : List ℕ → World RcSharedPr128 → Option ℕ × Mem → Answer × World RcSharedPr128
wide_made bytes w (none, m) = (raises (fatal_error from_malloc enomem), record w { mem = m })
wide_made bytes w (some p, m) =
    create p (record { bytes = bytes }) shared_pr128_metatable (record w { mem = m })

wide_alloc : List ℕ → World RcSharedPr128 → Answer × World RcSharedPr128
unfolding wide_made
wide_alloc bytes w = wide_made bytes w (malloc sizeof_rcsharedpr128 w.mem)

wide_text : Option (List ℕ) → World RcSharedPr128 → Answer × World RcSharedPr128
unfolding wide_alloc
wide_text none w = (raises type_error, w)
wide_text (some s) w = if leb (length s) 16 then wide_alloc (padded s) w else (raises type_error, w)

module _ (to : LuaTo) where
  -- the stores of the loop, one after the other, of elements of `size` bytes
  unfoldable pub stored_integers : ℕ → List Value → List ℕ
  stored_integers size [] = []
  stored_integers size (v ∷ vs) = le size (to.lua_tointeger v) ++ stored_integers size vs

  unfoldable pub stored_numbers : List Value → List ℕ
  stored_numbers [] = []
  stored_numbers (v ∷ vs) = le 8 (to.lua_tonumber v) ++ stored_numbers vs

  -- the switch on the type of the elements; there is no case for LUA_TLIGHTUSERDATA.
  stored_as : ElementType → Bool → List Value → List ℕ → List ℕ
  stored_as type_number true vs garbage = stored_integers (16 / length vs) vs
  stored_as type_number false vs garbage = stored_numbers vs
  stored_as type_lightuserdata isint vs garbage = garbage
  stored_as type_other isint vs garbage = garbage

  unfoldable pub stored_elements : List Value → List ℕ → List ℕ
  unfolding stored_as
  stored_elements [] garbage = garbage
  stored_elements (v ∷ vs) garbage = stored_as (element_type v) (lua_isinteger v) (v ∷ vs) garbage

  -- l_ck_shared_pr_md128_new
  unfoldable pub md128_new : Garbage → Argument → World RcSharedPr128 → Answer × World RcSharedPr128
  unfolding wide_text wide_alloc
  md128_new g no_value w = wide_alloc g.block w
  md128_new g (text s) w = wide_text (g.checklstring s) w
  md128_new g (elements vs) w =
      if elements_allowed vs
      then wide_alloc (stored_elements vs g.block) w
      else (raises type_error, w)
  md128_new g other_type w = (raises type_error, w)
