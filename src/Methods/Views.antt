-- ===== src/Methods/Views.antt =====
-- shared.c: the metatables of shared.pr.md128, its views and their elements, with the functions that
-- are their __index.
pub mod Reached
pub mod Drawing
use Prim.Native.String.{String}
use text.Mathlib.Text.{◌==◌ as str_eq}
use flua_ck.Base.{ℕ, Bool, true, false, Option, none, some, List, [], ◌∷◌, if◌then◌else◌, ◌==◌}
use flua_ck.Atomic.{PrOp, pr_ops_list, FeatureType}
use flua_ck.Atomic.Macros.{Features, Macro, implemented, unimplemented, undefined, pr_op}
use flua_ck.Atomic.Pr128.{
  Pr128Op, pr128_cas, pr128_cas_value, pr128_load, Elements, Features128, Macro128, row, pr128_op,
  pr128_ops_list,
}
use flua_ck.Handle.{World, LuaError, type_error, Checked, cookie, refused, checkcookie}
use flua_ck.Methods.{find_field}
use flua_ck.Methods.Open.{op_name}
use flua_ck.Value.{Value}
use flua_ck.Cell.{LuaTo}
use flua_ck.Wide.{
  View, view_u8, view_u16, view_u32, view_u64, view_c, view_d, view_i, view_p, view_u, view_type,
  RcSharedPr128, shared_pr128_metatable,
}

-- the C functions l_ck_shared_pr_md128_gc, _index, _cookie, _rfo, _<NAME>_index, _<NAME>_<OP> and
-- _<NAME>_i_<OP>
pub data Function : Type 0 where
  md128_gc md128_index md128_cookie md128_rfo : Function
  view_index : View → Function
  view_op : View → Pr128Op → Function
  element_op : View → PrOp → Function

unfoldable pub op128_name : Pr128Op → String
op128_name pr128_cas = "cas"
op128_name pr128_cas_value = "cas_value"
op128_name pr128_load = "load"

-- md128_views
unfoldable pub view_name : View → String
view_name view_u8 = "u8"
view_name view_u16 = "u16"
view_name view_u32 = "u32"
view_name view_u64 = "u64"
view_name view_c = "c"
view_name view_d = "d"
view_name view_i = "i"
view_name view_p = "p"
view_name view_u = "u"

abbrev pub md128_views : List View
md128_views =
    view_u8 ∷ view_u16 ∷ view_u32 ∷ view_u64 ∷ view_c ∷ view_d ∷ view_i ∷ view_p ∷ view_u ∷ []

unfoldable pub l_ck_shared_pr_md128_meta : List (String × Function)
l_ck_shared_pr_md128_meta =
    ("__gc", md128_gc)
    ∷ ("__index", md128_index)
    ∷ ("cookie", md128_cookie)
    ∷ ("rfo", md128_rfo)
    ∷ []

-- MD128_VIEW_OP_IMPL, for what PR128_OP_<OP>_<FT> expands to
view_row : View → Macro128 → List (String × Function) → List (String × Function)
unfolding op128_name
view_row v (row op n) rest = (op128_name op, view_op v op) ∷ rest
view_row v Macro128.unimplemented rest = rest
view_row v Macro128.undefined rest = rest

-- MD128_VIEW_I_OP_IMPL, for what PR_OP_<OP>_<FT> expands to
element_row : View → Macro → List (String × Function) → List (String × Function)
unfolding op_name
element_row v (implemented op) rest = (op_name op, element_op v op) ∷ rest
element_row v Macro.unimplemented rest = rest
element_row v Macro.undefined rest = rest

module _ (features128 : Features128) where
  view_rows : View → List (Pr128Op × Elements) → List (String × Function)
  unfolding view_row
  view_rows v [] = []
  view_rows v ((op, n) ∷ ops) =
      view_row v (pr128_op features128 op n (view_type v)) (view_rows v ops)

  -- MD128_VIEW_META: l_ck_shared_pr_md128_<NAME>_meta
  unfoldable pub view_meta : View → List (String × Function)
  unfolding view_rows
  view_meta v = ("__index", view_index v) ∷ view_rows v (pr128_ops_list (view_type v))

module _ (features : Features) where
  element_rows : View → List PrOp → List (String × Function)
  unfolding element_row
  element_rows v [] = []
  element_rows v (op ∷ ops) = element_row v (pr_op features op (view_type v)) (element_rows v ops)

  -- MD128_VIEW_META: l_ck_shared_pr_md128_<NAME>_i_meta
  unfoldable pub element_meta : View → List (String × Function)
  unfolding element_rows
  element_meta v = element_rows v (pr_ops_list (view_type v))

-- What a Lua program holds: the userdata of a 128-bit cell, a view, which is a table with the userdata
-- at MD128_VALUE, and an element, which is a table with the userdata and, at MD128_INDEX, an index.
pub data Reference : Type 0 where
  whole : ℕ → Reference
  view_table : View → ℕ → Reference
  element_table : View → ℕ → Value → Reference

-- a key that is a string, or another Lua value
pub data Key : Type 0 where
  field : String → Key
  at : Value → Key

pub data Indexed : Type 0 where
  function : Function → Indexed
  reference : Reference → Indexed
  value : Value → Indexed
  nothing : Indexed
  raised : LuaError → Indexed
  calls : Function → Reference → Key → Indexed

-- luaL_checkoption
view_of : String → List View → Option View
unfolding view_name
view_of name [] = none
view_of name (v ∷ vs) = if str_eq (view_name v) name then some v else view_of name vs

checked_view : ℕ → Option View → Indexed
checked_view h none = raised type_error
checked_view h (some v) = reference (view_table v h)

md128_field : ℕ → String → Option Function → Indexed
unfolding checked_view view_of
md128_field h name (some f) = function f
md128_field h name none = checked_view h (view_of name md128_views)

md128_key : ℕ → Key → Indexed
unfolding md128_field find_field l_ck_shared_pr_md128_meta
md128_key h (field name) = md128_field h name (find_field name l_ck_shared_pr_md128_meta)
md128_key h (at v) = raised type_error

md128_checked : ℕ → Key → Checked → Indexed
unfolding md128_key
md128_checked h key (refused e) = raised e
md128_checked h key (cookie p) = md128_key h key

unfoldable pub l_ck_shared_pr_md128_index : ℕ → Key → World RcSharedPr128 → Indexed
unfolding md128_checked
l_ck_shared_pr_md128_index h key w = md128_checked h key (checkcookie shared_pr128_metatable h w)

-- `lua_index` below is Lua's indexing: a field of the table itself, or else what the function in the
-- field __index of its metatable gives. That function is one of the two above and below; `calls` says
-- that another one would be called with the two.
module _ (features : Features) (features128 : Features128) (to : LuaTo) where
  view_field : Option Function → Indexed
  view_field none = nothing
  view_field (some f) = function f

  view_element : View → ℕ → Value → Option ℕ → Indexed
  view_element v h k none = raised type_error
  view_element v h k (some i) = reference (element_table v h k)

  -- l_ck_shared_pr_md128_<NAME>_index, on the table of a view
  unfoldable pub l_ck_shared_pr_md128_view_index : View → ℕ → Key → Indexed
  unfolding view_field view_element find_field view_meta
  l_ck_shared_pr_md128_view_index v h (field name) =
      view_field (find_field name (view_meta features128 v))
  l_ck_shared_pr_md128_view_index v h (at k) = view_element v h k (to.lua_checkinteger k)

  raw_key : Key → Option ℕ
  raw_key (field name) = none
  raw_key (at k) = to.lua_checkinteger k

  -- MD128_VALUE is 0, and MD128_INDEX is 1.
  raw_field : Reference → Option ℕ → Option Indexed
  raw_field (whole h) n = none
  raw_field (view_table v h) none = none
  raw_field (view_table v h) (some n) = if n == 0 then some (reference (whole h)) else none
  raw_field (element_table v h k) none = none
  raw_field (element_table v h k) (some n) =
      if n == 0 then some (reference (whole h)) else if n == 1 then some (value k) else none

  meta_of : Reference → List (String × Function)
  unfolding view_meta element_meta l_ck_shared_pr_md128_meta
  meta_of (whole h) = l_ck_shared_pr_md128_meta
  meta_of (view_table v h) = view_meta features128 v
  meta_of (element_table v h k) = element_meta features v

  by_index : Option Function → Reference → Key → World RcSharedPr128 → Indexed
  unfolding l_ck_shared_pr_md128_index l_ck_shared_pr_md128_view_index
  by_index none r key w = nothing
  by_index (some md128_index) (whole h) key w = l_ck_shared_pr_md128_index h key w
  by_index (some (view_index v)) (view_table u h) key w = l_ck_shared_pr_md128_view_index v h key
  by_index (some f) r key w = calls f r key

  or_meta : Reference → Key → World RcSharedPr128 → Option Indexed → Indexed
  unfolding by_index meta_of find_field
  or_meta r key w (some x) = x
  or_meta r key w none = by_index (find_field "__index" (meta_of r)) r key w

  unfoldable pub lua_index : Reference → Key → World RcSharedPr128 → Indexed
  unfolding or_meta raw_field raw_key
  lua_index r key w = or_meta r key w (raw_field r (raw_key key))
