-- ===== src/Wide/Bounds.antt =====
-- shared.c: the index of an element of a 128-bit cell.
use flua_ck.Base.{
  ℕ, suc, ◌+◌, ◌*◌, ◌≡◌, refl, ap, ◌∙◌, true, some, List, [], ◌∷◌, ◌++◌, arith, ltb, leb, ◌&&◌,
  length, drop, take-append, drop-append,
}
use flua_ck.Base.Words.{le, un_le}
use flua_ck.Atomic.{op_class, pr_store, width}
use flua_ck.Cell.{CkPr, LuaTo, class_checks, class_impl}
use flua_ck.Cell.Laws.{CkPrLaws}
use flua_ck.Handle.{Object, World, values, raises, type_error, checkcookie, cookie, put}
use flua_ck.Handle.Methods.{with_object-open}
use flua_ck.Value.{Value}
use flua_ck.Wide.{
  View, view_type, view_n, view_size, view_to, RcSharedPr128, shared_pr128_metatable, struct_bytes,
  of_struct_bytes, write_element, element_done, element_op, indexed_op, md128_view_i_op,
}

-- The element behind the last one starts where the union ends.
view_n-view_size : (v : View) → view_n v * view_size v ≡ 16
unfolding view_n view_size view_type width
view_n-view_size v = ground arith

drop-drop_append :
    {A : Type 0} (xs ys : List A) (n : ℕ) → drop (length xs + n) (xs ++ ys) ≡ drop n ys
drop-drop_append [] ys n = ap (λ k. drop k ys) (zero_left n)
  where
    zero_left : (n : ℕ) → 0 + n ≡ n
    zero_left n = omega arith
drop-drop_append (x ∷ xs) ys n =
    ap (λ k. drop k (x ∷ xs ++ ys)) (suc_left (length xs) n) ∙ drop-drop_append xs ys n
  where
    suc_left : (m n : ℕ) → suc m + n ≡ suc (m + n)
    suc_left m n = omega arith

-- A store to the element behind the last one.
write_element_last :
    (v : View) (x : ℕ) (o : Object RcSharedPr128)
    → length o.value.bytes ≡ 16
    → of_struct_bytes (write_element v (view_n v) x (struct_bytes o))
      ≡ record o { refs = un_le (le (view_size v) x ++ drop (view_size v) (le 8 o.refs)) }
unfolding of_struct_bytes write_element struct_bytes
write_element_last v x o full =
    rw
      (
        view_n-view_size v,
        ← full,
        take-append o.value.bytes (le 8 o.refs),
        drop-drop_append o.value.bytes (le 8 o.refs) (view_size v),
        take-append o.value.bytes _,
        drop-append o.value.bytes _,
      )
      refl

in_bounds : (v : View) → (ltb 0 (view_n v) && leb (view_n v) (view_n v)) ≡ true
unfolding view_n
in_bounds v = ground arith

module _ {pr : CkPr} (laws : CkPrLaws pr) (to : LuaTo) where
  -- Index 0 is refused. The index N of a view of N elements is accepted, and a store through it leaves
  -- the 128 bits as they were and overwrites as many bytes of the reference count.
  pub md128_view_i_store :
      (v : View) (i p : ℕ) (self first last x : Value) (xs : List Value) (w : World RcSharedPr128)
      (o : Object RcSharedPr128)
      → checkcookie shared_pr128_metatable i w ≡ cookie p
      → w.objects p ≡ some o
      → length o.value.bytes ≡ 16
      → to.lua_checkinteger first ≡ some 0
      → to.lua_checkinteger last ≡ some (view_n v)
      → (md128_view_i_op pr to v pr_store i self first (x ∷ xs) w ≡ (raises type_error, w))
        × (md128_view_i_op pr to v pr_store i self last (x ∷ xs) w ≡ (
          values [],
          record w {
            objects = put w.objects p (
                some (record o {
                  refs =
                      un_le (le (view_size v) (view_to to v x) ++ drop (view_size v) (le 8 o.refs));
                }));
          },
        ))
  unfolding md128_view_i_op indexed_op element_op element_done class_checks op_class class_impl
  md128_view_i_store v i p self first last x xs w o c h full zeroth end = (
    rw (with_object-open shared_pr128_metatable i p w o _ c h, zeroth) refl,
    rw
        (
          with_object-open shared_pr128_metatable i p w o _ c h,
          end,
          in_bounds v,
          laws.store_law (view_type v),
          write_element_last v (view_to to v x) o full,
        )
        refl,
  )
