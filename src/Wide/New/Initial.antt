-- ===== src/Wide/New/Initial.antt =====
-- shared.c: what a new 128-bit cell holds.
use flua_ck.Base.{
  ℕ, zero, suc, ◌+◌, ◌*◌, ◌/◌, ◌^◌, ◌<◌, ◌≡◌, refl, ap, sym, ◌∙◌, true, some, List, [], ◌∷◌, ◌++◌,
  ltb, leb, ◌&&◌, append_assoc, arith, length, take, drop, get_elem?, take-append,
}
use mathlib.Core.Option.{some-injective}
use flua_ck.Base.Words.{le, un_le, un_le-le, length-le}
use flua_ck.Atomic.{op_class, pr_load, width}
use flua_ck.Cell.{CkPr, LuaTo, class_checks, class_impl}
use flua_ck.Cell.Laws.{CkPrLaws}
use flua_ck.Handle.{World, values, checkcookie, cookie}
use flua_ck.Handle.Methods.{create-checkcookie, with_object-open}
use flua_ck.Memory.{granted, malloc-granted}
use flua_ck.Value.{Value, integer, lightuserdata}
use flua_ck.Wide.{
  View, view_size, view_type, view_n, view_push, RcSharedPr128, sizeof_rcsharedpr128,
  shared_pr128_metatable, struct_bytes, read_element, element_done, element_op, indexed_op,
  md128_view_i_op,
}
use flua_ck.Wide.New.{
  Garbage, elements, element_type, lua_isinteger, same_type, length_allowed, all_alike,
  elements_allowed, stored_integers, stored_as, stored_elements, wide_made, wide_alloc, md128_new,
}

drop-add_append :
    {A : Type 0} (xs ys : List A) (n : ℕ) → drop (n + length xs) (xs ++ ys) ≡ drop n ys
drop-add_append [] ys n = ap (λ k. drop k ys) (zero_right n)
  where
    zero_right : (n : ℕ) → n + 0 ≡ n
    zero_right n = omega arith
drop-add_append (x ∷ xs) ys n =
    ap (λ k. drop k (x ∷ xs ++ ys)) (suc_right n (length xs)) ∙ drop-add_append xs ys n
  where
    suc_right : (m n : ℕ) → m + suc n ≡ suc (m + n)
    suc_right m n = omega arith

take-le : (size n : ℕ) (bs : List ℕ) → take size (le size n ++ bs) ≡ le size n
take-le size n bs =
    ap (λ k. take k (le size n ++ bs)) (sym (length-le size n)) ∙ take-append (le size n) bs

drop-le : (size d i n : ℕ) (bs : List ℕ) → d ≡ i + size → drop d (le size n ++ bs) ≡ drop i bs
drop-le size d i n bs h =
    ap (λ k. drop k (le size n ++ bs)) (h ∙ ap (λ k. i + k) (sym (length-le size n)))
    ∙ drop-add_append (le size n) bs i

zero_times : (size : ℕ) → 0 * size ≡ 0
zero_times size = ground arith

next : (size i : ℕ) → suc i * size ≡ i * size + size
next size i = ground arith

-- The only block that `wide_alloc` asks for.
wide_alloc-granted :
    (bytes : List ℕ) (w : World RcSharedPr128)
    → granted sizeof_rcsharedpr128 w.mem ≡ true
    → (checkcookie shared_pr128_metatable (length w.handles) (wide_alloc bytes w).1
        ≡ cookie w.mem.tick)
      × ((wide_alloc bytes w).1.objects w.mem.tick
          ≡ some (record { value = record { bytes = bytes }; refs = 1 }))
unfolding wide_alloc wide_made
wide_alloc-granted bytes w h =
    rw (malloc-granted sizeof_rcsharedpr128 w.mem h)
      (create-checkcookie w.mem.tick _ shared_pr128_metatable _ refl)

view_size-view_n : (v : View) → 16 / view_n v ≡ view_size v
unfolding view_n view_size view_type width
view_size-view_n v = ground arith

in_bounds : (n i : ℕ) → 0 < i → i < n → (ltb 0 i && leb i n) ≡ true
in_bounds n i positive below = ground arith

module _ (to : LuaTo) where
  -- Element `i` of the stored integers.
  read-stored_integers :
      (size i : ℕ) (vs : List Value) (rest : List ℕ) {x : Value}
      → get_elem? vs i ≡ some x
      → to.lua_tointeger x < 256 ^ size
      → un_le (take size (drop (i * size) (stored_integers to size vs ++ rest)))
        ≡ to.lua_tointeger x
  unfolding stored_integers
  read-stored_integers size i [] rest h small = cc
  read-stored_integers size zero (v ∷ vs) rest {x} h small =
      let v-x = some-injective v x h in
      rw
        (
          zero_times size,
          v-x,
          append_assoc (le size (to.lua_tointeger x)) (stored_integers to size vs) rest,
          take-le size (to.lua_tointeger x) (stored_integers to size vs ++ rest),
        )
        (un_le-le size (to.lua_tointeger x) small)
  read-stored_integers size (suc i) (v ∷ vs) rest h small =
      rw
        (
          append_assoc (le size (to.lua_tointeger v)) (stored_integers to size vs) rest,
          drop-le size (suc i * size) (i * size) (to.lua_tointeger v)
              (stored_integers to size vs ++ rest) (next size i),
        )
        (read-stored_integers size i vs rest h small)

  -- A new cell of two light userdata holds what the block held, whatever the pointers are.
  md128_new-lightuserdata :
      (g : Garbage) (p q : ℕ) (w : World RcSharedPr128)
      → granted sizeof_rcsharedpr128 w.mem ≡ true
      → (checkcookie shared_pr128_metatable
            (length w.handles)
            (md128_new to g (elements (lightuserdata p ∷ lightuserdata q ∷ [])) w).1
          ≡ cookie w.mem.tick)
        × ((md128_new to g (elements (lightuserdata p ∷ lightuserdata q ∷ [])) w).1.objects
              w.mem.tick
            ≡ some (record { value = record { bytes = g.block }; refs = 1 }))
  unfolding md128_new elements_allowed element_type lua_isinteger same_type length_allowed all_alike
      stored_elements stored_as
  md128_new-lightuserdata g p q w h = wide_alloc-granted g.block w h

  -- the block of a new cell of integers
  new-integers :
      (v : View) (g : Garbage) (n : ℕ) (vs : List Value) (w : World RcSharedPr128)
      → elements_allowed (integer n ∷ vs) ≡ true
      → length (integer n ∷ vs) ≡ view_n v
      → granted sizeof_rcsharedpr128 w.mem ≡ true
      → (checkcookie shared_pr128_metatable
            (length w.handles)
            (md128_new to g (elements (integer n ∷ vs)) w).1
          ≡ cookie w.mem.tick)
        × ((md128_new to g (elements (integer n ∷ vs)) w).1.objects w.mem.tick
            ≡ some (record {
              value = record { bytes = stored_integers to (view_size v) (integer n ∷ vs) };
              refs = 1;
            }))
  unfolding md128_new element_type lua_isinteger stored_elements stored_as
  new-integers v g n vs w allowed long h =
      rw (allowed, long, view_size-view_n v) (wide_alloc-granted _ w h)

  read_element-new :
      (v : View) (i : ℕ) (vs : List Value) {x : Value}
      → get_elem? vs i ≡ some x
      → to.lua_tointeger x < 256 ^ view_size v
      → read_element v i (
          struct_bytes
            (record { value = record { bytes = stored_integers to (view_size v) vs }; refs = 1 }))
        ≡ to.lua_tointeger x
  unfolding read_element struct_bytes
  read_element-new v i vs h small = read-stored_integers (view_size v) i vs (le 8 1) h small

  -- In a view with as many elements as the table of integers that a cell was made of, `load` of
  -- index `i` answers the integer after the `i`-th, if it fits the type of the view.
  md128_new-load :
      {pr : CkPr} (laws : CkPrLaws pr) (v : View) (g : Garbage) (n i : ℕ) (vs : List Value)
      (self index : Value) {x : Value} (w : World RcSharedPr128)
      → elements_allowed (integer n ∷ vs) ≡ true
      → length (integer n ∷ vs) ≡ view_n v
      → granted sizeof_rcsharedpr128 w.mem ≡ true
      → to.lua_checkinteger index ≡ some i
      → 0 < i
      → i < view_n v
      → get_elem? (integer n ∷ vs) i ≡ some x
      → to.lua_tointeger x < 256 ^ view_size v
      → (md128_view_i_op pr to v pr_load
          (length w.handles)
          self
          index
          []
          (md128_new to g (elements (integer n ∷ vs)) w).1).0
        ≡ values (view_push v (to.lua_tointeger x) ∷ [])
  unfolding md128_view_i_op indexed_op element_op element_done class_checks op_class class_impl
  md128_new-load laws v g n i vs self index w allowed long h checked positive below there small =
      let (c, o) = new-integers v g n vs w allowed long h in
      rw
        (
          with_object-open shared_pr128_metatable (length w.handles) w.mem.tick _ _ _ c o,
          checked,
          in_bounds (view_n v) i positive below,
          laws.load_law (view_type v),
          read_element-new v i (integer n ∷ vs) there small,
        )
        refl
