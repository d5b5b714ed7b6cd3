-- ===== src/Methods/Views/Drawing.antt =====
-- shared.c: the metatables of 128-bit cells as the comment above l_ck_shared_pr_md128_meta draws them.
use Prim.Native.String.{String}
use flua_ck.Base.{◌≡◌, refl, true, List, [], ◌∷◌}
use flua_ck.Atomic.{pr_ops_list, pr_ops_group1, pr_ops_group2, pr_ops_group3}
use flua_ck.Atomic.Macros.{
  ifdef, pr_op, pr_op_add, pr_op_and, pr_op_btc, pr_op_btr, pr_op_bts, pr_op_cas, pr_op_cas_value,
  pr_op_dec, pr_op_dec_z, pr_op_faa, pr_op_fas, pr_op_inc, pr_op_inc_z, pr_op_load, pr_op_neg,
  pr_op_neg_z, pr_op_not, pr_op_or, pr_op_store, pr_op_sub, pr_op_xor,
}
use flua_ck.Atomic.Pr128.{
  pr128_op, pr128_op_cas, pr128_op_cas_value, pr128_op_load, ifdef128, pr128_ops_list,
  pr128_ops_group, pr128_ops_group5,
}
use flua_ck.Methods.Open.{op_name}
use flua_ck.Methods.Views.{
  Function, l_ck_shared_pr_md128_meta, op128_name, view_row, view_rows, view_meta, element_row,
  element_rows, element_meta,
}
use flua_ck.Wide.{
  View, view_u8, view_u16, view_u32, view_u64, view_c, view_d, view_i, view_p, view_u, view_type,
}

names : List (String × Function) → List String
names [] = []
names ((n, f) ∷ fs) = n ∷ names fs

-- md128
abbrev drawn_md128 : List String
drawn_md128 = "__gc" ∷ "__index" ∷ "cookie" ∷ "rfo" ∷ []

-- Typed Views
abbrev drawn_view : View → List String
drawn_view view_u8 = "__index" ∷ "cas" ∷ "cas_value" ∷ "load" ∷ []
drawn_view view_u16 = "__index" ∷ "cas" ∷ "cas_value" ∷ "load" ∷ []
drawn_view view_u32 = "__index" ∷ "cas" ∷ "cas_value" ∷ "load" ∷ []
drawn_view view_u64 = "__index" ∷ "cas" ∷ "cas_value" ∷ "load" ∷ []
drawn_view view_c = "__index" ∷ "cas" ∷ "cas_value" ∷ "load" ∷ []
drawn_view view_d = "__index" ∷ "cas" ∷ []
drawn_view view_i = "__index" ∷ "cas" ∷ "cas_value" ∷ "load" ∷ []
drawn_view view_p = "__index" ∷ "cas" ∷ "cas_value" ∷ "load" ∷ []
drawn_view view_u = "__index" ∷ "cas" ∷ "cas_value" ∷ "load" ∷ []

-- Typed View Components
abbrev drawn_element : View → List String
drawn_element view_u8 =
    "add" ∷ "and" ∷ "cas" ∷ "cas_value" ∷ "dec" ∷ "dec_is_zero" ∷ "faa" ∷ "fas" ∷ "inc"
    ∷ "inc_is_zero" ∷ "load" ∷ "neg" ∷ "neg_is_zero" ∷ "not" ∷ "or" ∷ "store" ∷ "sub" ∷ "xor" ∷ []
drawn_element view_u16 =
    "add" ∷ "and" ∷ "btc" ∷ "btr" ∷ "bts" ∷ "cas" ∷ "cas_value" ∷ "dec" ∷ "dec_is_zero" ∷ "faa"
    ∷ "fas" ∷ "inc" ∷ "inc_is_zero" ∷ "load" ∷ "neg" ∷ "neg_is_zero" ∷ "not" ∷ "or" ∷ "store"
    ∷ "sub" ∷ "xor" ∷ []
drawn_element view_u32 =
    "add" ∷ "and" ∷ "btc" ∷ "btr" ∷ "bts" ∷ "cas" ∷ "cas_value" ∷ "dec" ∷ "dec_is_zero" ∷ "faa"
    ∷ "fas" ∷ "inc" ∷ "inc_is_zero" ∷ "load" ∷ "neg" ∷ "neg_is_zero" ∷ "not" ∷ "or" ∷ "store"
    ∷ "sub" ∷ "xor" ∷ []
drawn_element view_u64 =
    "add" ∷ "and" ∷ "btc" ∷ "btr" ∷ "bts" ∷ "cas" ∷ "cas_value" ∷ "dec" ∷ "dec_is_zero" ∷ "faa"
    ∷ "fas" ∷ "inc" ∷ "inc_is_zero" ∷ "load" ∷ "neg" ∷ "neg_is_zero" ∷ "not" ∷ "or" ∷ "store"
    ∷ "sub" ∷ "xor" ∷ []
drawn_element view_c =
    "add" ∷ "and" ∷ "cas" ∷ "cas_value" ∷ "dec" ∷ "dec_is_zero" ∷ "faa" ∷ "fas" ∷ "inc"
    ∷ "inc_is_zero" ∷ "load" ∷ "neg" ∷ "neg_is_zero" ∷ "not" ∷ "or" ∷ "store" ∷ "sub" ∷ "xor" ∷ []
drawn_element view_d =
    "add" ∷ "cas" ∷ "cas_value" ∷ "dec" ∷ "faa" ∷ "fas" ∷ "inc" ∷ "load" ∷ "neg" ∷ "store" ∷ "sub"
    ∷ []
drawn_element view_i =
    "add" ∷ "and" ∷ "btc" ∷ "btr" ∷ "bts" ∷ "cas" ∷ "cas_value" ∷ "dec" ∷ "dec_is_zero" ∷ "faa"
    ∷ "fas" ∷ "inc" ∷ "inc_is_zero" ∷ "load" ∷ "neg" ∷ "neg_is_zero" ∷ "not" ∷ "or" ∷ "store"
    ∷ "sub" ∷ "xor" ∷ []
drawn_element view_p =
    "add" ∷ "and" ∷ "btc" ∷ "btr" ∷ "bts" ∷ "cas" ∷ "cas_value" ∷ "dec" ∷ "dec_is_zero" ∷ "faa"
    ∷ "fas" ∷ "inc" ∷ "inc_is_zero" ∷ "load" ∷ "neg" ∷ "neg_is_zero" ∷ "not" ∷ "or" ∷ "store"
    ∷ "sub" ∷ "xor" ∷ []
drawn_element view_u =
    "add" ∷ "and" ∷ "btc" ∷ "btr" ∷ "bts" ∷ "cas" ∷ "cas_value" ∷ "dec" ∷ "dec_is_zero" ∷ "faa"
    ∷ "fas" ∷ "inc" ∷ "inc_is_zero" ∷ "load" ∷ "neg" ∷ "neg_is_zero" ∷ "not" ∷ "or" ∷ "store"
    ∷ "sub" ∷ "xor" ∷ []

-- Where Concurrency Kit has all the operations, the metatables of a 128-bit cell, of its views and of
-- their elements have the names of the drawing, in its order.
names-drawn :
    (v : View)
    → (names l_ck_shared_pr_md128_meta ≡ drawn_md128)
      × (names (view_meta (λ op ft n. true) v) ≡ drawn_view v)
      × (names (element_meta (λ op ft. true) v) ≡ drawn_element v)
unfolding names l_ck_shared_pr_md128_meta view_meta view_rows view_row op128_name element_meta
    element_rows element_row op_name view_type pr128_ops_list pr128_ops_group pr128_ops_group5
    pr128_op pr128_op_cas pr128_op_cas_value pr128_op_load ifdef128 pr_ops_list pr_ops_group1
    pr_ops_group2 pr_ops_group3 ifdef pr_op pr_op_add pr_op_and pr_op_btc pr_op_btr pr_op_bts
    pr_op_cas pr_op_cas_value pr_op_dec pr_op_dec_z pr_op_faa pr_op_fas pr_op_inc pr_op_inc_z
    pr_op_load pr_op_neg pr_op_neg_z pr_op_not pr_op_or pr_op_store pr_op_sub pr_op_xor
names-drawn view_u8 = (refl, refl, refl)
names-drawn view_u16 = (refl, refl, refl)
names-drawn view_u32 = (refl, refl, refl)
names-drawn view_u64 = (refl, refl, refl)
names-drawn view_c = (refl, refl, refl)
names-drawn view_d = (refl, refl, refl)
names-drawn view_i = (refl, refl, refl)
names-drawn view_p = (refl, refl, refl)
names-drawn view_u = (refl, refl, refl)
