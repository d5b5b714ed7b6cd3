-- ===== src/Methods/Views/Reached.antt =====
-- shared.c: what a Lua program finds in a view of a 128-bit cell, and in an element of it.
use Prim.Native.String.{String}
use text.Mathlib.Text.{◌==◌ as str_eq}
use flua_ck.Base.{ℕ, suc, ◌≡◌, refl, false, none, some, List, [], ◌∷◌, ◌==◌, arith}
use flua_ck.Atomic.{
  PrOp, pr_ops_list, pr_add, pr_and, pr_btc, pr_btr, pr_bts, pr_cas, pr_cas_value, pr_dec, pr_dec_z,
  pr_faa, pr_fas, pr_inc, pr_inc_z, pr_load, pr_neg, pr_neg_z, pr_not, pr_or, pr_store, pr_sub,
  pr_xor,
}
use flua_ck.Atomic.Macros.{Features, Macro, implemented, pr_op}
use flua_ck.Cell.{LuaTo}
use flua_ck.Atomic.Pr128.{
  pr128_cas, pr128_cas_value, pr128_load, Pr128Op, Elements, Features128, Macro128, row, pr128_op,
  pr128_ops_list,
}
use flua_ck.Handle.{World, checkcookie, cookie}
use flua_ck.Methods.{find_field, or_earlier}
use flua_ck.Methods.Open.{op_name}
use flua_ck.Methods.Views.{
  Function, whole, view_table, element_table, field, at, reference, nothing, view_index, view_name,
  op128_name, element_row, element_rows, element_meta, view_meta, view_rows, view_row,
  l_ck_shared_pr_md128_meta, l_ck_shared_pr_md128_index, l_ck_shared_pr_md128_view_index,
  view_element, md128_checked, md128_key, md128_field, view_of, checked_view, lua_index, or_meta,
  raw_field, raw_key, by_index, meta_of,
}
use flua_ck.Value.{Value}
use flua_ck.Wide.{
  view_u8, view_u16, view_u32, view_u64, view_c, view_d, view_i, view_p, view_u, View, view_type,
  RcSharedPr128, shared_pr128_metatable,
}

-- no operation is called __index
op_name-index : (op : PrOp) → str_eq (op_name op) "__index" ≡ false
unfolding op_name
op_name-index pr_add = refl
op_name-index pr_and = refl
op_name-index pr_btc = refl
op_name-index pr_btr = refl
op_name-index pr_bts = refl
op_name-index pr_cas = refl
op_name-index pr_cas_value = refl
op_name-index pr_dec = refl
op_name-index pr_dec_z = refl
op_name-index pr_faa = refl
op_name-index pr_fas = refl
op_name-index pr_inc = refl
op_name-index pr_inc_z = refl
op_name-index pr_load = refl
op_name-index pr_neg = refl
op_name-index pr_neg_z = refl
op_name-index pr_not = refl
op_name-index pr_or = refl
op_name-index pr_store = refl
op_name-index pr_sub = refl
op_name-index pr_xor = refl

element_row-index :
    (v : View) (m : Macro) (rest : List (String × Function))
    → find_field "__index" rest ≡ none
    → find_field "__index" (element_row v m rest) ≡ none
unfolding find_field or_earlier element_row
element_row-index v (implemented op) rest h = rw (h, op_name-index op) refl
element_row-index v Macro.unimplemented rest h = h
element_row-index v Macro.undefined rest h = h

element_rows-index :
    (features : Features) (v : View) (ops : List PrOp)
    → find_field "__index" (element_rows features v ops) ≡ none
unfolding element_rows find_field
element_rows-index features v [] = refl
element_rows-index features v (op ∷ ops) =
    element_row-index v (pr_op features op (view_type v)) (element_rows features v ops)
      (element_rows-index features v ops)

op128_name-index : (op : Pr128Op) → str_eq (op128_name op) "__index" ≡ false
unfolding op128_name
op128_name-index pr128_cas = refl
op128_name-index pr128_cas_value = refl
op128_name-index pr128_load = refl

view_row-index :
    (v : View) (m : Macro128) (rest : List (String × Function))
    → find_field "__index" rest ≡ none
    → find_field "__index" (view_row v m rest) ≡ none
unfolding find_field or_earlier view_row
view_row-index v (row op n) rest h = rw (h, op128_name-index op) refl
view_row-index v Macro128.unimplemented rest h = h
view_row-index v Macro128.undefined rest h = h

view_rows-index :
    (features128 : Features128) (v : View) (ops : List (Pr128Op × Elements))
    → find_field "__index" (view_rows features128 v ops) ≡ none
unfolding view_rows find_field
view_rows-index features128 v [] = refl
view_rows-index features128 v ((op, n) ∷ ops) =
    view_row-index v (pr128_op features128 op n (view_type v)) (view_rows features128 v ops)
      (view_rows-index features128 v ops)

view_meta-index :
    (features128 : Features128) (v : View)
    → find_field "__index" (view_meta features128 v) ≡ some (view_index v)
unfolding view_meta find_field or_earlier
view_meta-index features128 v =
    rw (view_rows-index features128 v (pr128_ops_list (view_type v))) refl

-- the name of a view is no field of the metatable, but an option
md128_key-view : (v : View) (h : ℕ) → md128_key h (field (view_name v)) ≡ reference (view_table v h)
unfolding md128_key md128_field l_ck_shared_pr_md128_meta find_field or_earlier view_name view_of
    checked_view
md128_key-view view_u8 h = refl
md128_key-view view_u16 h = refl
md128_key-view view_u32 h = refl
md128_key-view view_u64 h = refl
md128_key-view view_c h = refl
md128_key-view view_d h = refl
md128_key-view view_i h = refl
md128_key-view view_p h = refl
md128_key-view view_u h = refl

module _ (features : Features) (features128 : Features128) (to : LuaTo) where
  element-nothing :
      (v : View) (h : ℕ) (k : Value) (name : String) (w : World RcSharedPr128)
      → lua_index features features128 to (element_table v h k) (field name) w ≡ nothing
  unfolding lua_index or_meta raw_field raw_key by_index meta_of element_meta
  element-nothing v h k name w = rw (element_rows-index features v (pr_ops_list (view_type v))) refl

  whole-view :
      (v : View) (h p : ℕ) (w : World RcSharedPr128)
      → checkcookie shared_pr128_metatable h w ≡ cookie p
      → lua_index features features128 to (whole h) (field (view_name v)) w
        ≡ reference (view_table v h)
  unfolding lua_index or_meta raw_field raw_key by_index meta_of l_ck_shared_pr_md128_meta
      find_field or_earlier l_ck_shared_pr_md128_index md128_checked
  whole-view v h p w c = rw c (md128_key-view v h)

  view-element :
      (v : View) (h i : ℕ) (k : Value) (w : World RcSharedPr128)
      → to.lua_checkinteger k ≡ some (suc i)
      → lua_index features features128 to (view_table v h) (at k) w
        ≡ reference (element_table v h k)
  unfolding lua_index or_meta raw_field raw_key by_index meta_of view_element
      l_ck_shared_pr_md128_view_index
  view-element v h i k w e = rw (e, not_zero, view_meta-index features128 v, e) refl
    where
      not_zero : (suc i == 0) ≡ false
      not_zero = ground arith

  -- Of an open 128-bit cell, a view and an index that is an integer but 0: `cell.NAME` is the view, and
  -- `cell.NAME[i]` an element with the cell and the index, but in the element Lua finds nothing under
  -- any name, whatever methods its metatable has, because the metatable has no __index.
  pub lua_index-element :
      (v : View) (h p i : ℕ) (k : Value) (w : World RcSharedPr128)
      → checkcookie shared_pr128_metatable h w ≡ cookie p
      → to.lua_checkinteger k ≡ some (suc i)
      → (lua_index features features128 to (whole h) (field (view_name v)) w
          ≡ reference (view_table v h))
        × (lua_index features features128 to (view_table v h) (at k) w
            ≡ reference (element_table v h k))
        × ((name : String)
            → lua_index features features128 to (element_table v h k) (field name) w ≡ nothing)
  lua_index-element v h p i k w c e =
      (whole-view v h p w c, view-element v h i k w e, λ name. element-nothing v h k name w)
