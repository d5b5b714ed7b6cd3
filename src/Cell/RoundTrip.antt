-- ===== src/Cell/RoundTrip.antt =====
-- shared.c: two methods of one "shared.pr" cell, one after the other.
use flua_ck.Base.{
  ℕ, ◌+◌, ◌-◌, ◌%◌, ◌^◌, ◌≤◌, ◌<◌, ◌≡◌, refl, ap, ◌∙◌, fun_ext, true, false, Option, some, List, [],
  ◌∷◌, arith,
}
use native.Mathlib.Decide.{dec_lt}
use flua_ck.Atomic.{
  PrOp, FeatureType, width, op_class, ft_8, pr_add, pr_load, pr_not, pr_store, pr_sub,
}
use flua_ck.Cell.{
  CkPr, LuaTo, RcSharedPr, shared_pr_metatable, class_types, class_checks, class_impl, f_types,
  f_bitwise_types, lua_to, lua_push, lua_toboolean, set_bits, pr_switch, pr_checked, shared_pr_op,
}
use flua_ck.Cell.Laws.{CkPrLaws, LuaToLaws, is_word}
use flua_ck.Cell.Outcome.{with_bits}
use flua_ck.Handle.{Object, World, values, checkcookie, cookie, put}
use flua_ck.Handle.Counted.{checkcookie-handles}
use flua_ck.Handle.Methods.{put_self, with_object-open}
use flua_ck.Value.{
  Value, boolean, lightuserdata, integer, number, serde_boolean, serde_type, custom_type,
}

-- the cell with the word `x`
abbrev pub cell_with : Object RcSharedPr → ℕ → Object RcSharedPr
cell_with o x = record o { value = record (o.value) { bits = x } }

-- The userdata `i` holds the cell at `p`, which is `o`.
pub record IsOpen (i p : ℕ) (w : World RcSharedPr) (o : Object RcSharedPr) : Type 0 where
  pub checked : checkcookie shared_pr_metatable i w ≡ cookie p
  pub there : w.objects p ≡ some o

pub with_bits-IsOpen :
    (i p : ℕ) (w : World RcSharedPr) (o : Object RcSharedPr) (x : ℕ)
    → IsOpen i p w o
    → IsOpen i p (with_bits w p o x) (cell_with o x)
with_bits-IsOpen i p w o x h = record {
  checked = checkcookie-handles shared_pr_metatable i w (with_bits w p o x) refl ∙ h.checked;
  there = put_self w.objects p _;
}

put-put :
    (f : ℕ → Option (Object RcSharedPr)) (p : ℕ) (v u : Option (Object RcSharedPr))
    → put (put f p v) p u ≡ put f p u
put-put f p v u = fun_ext λ q. ground arith

put_same :
    (f : ℕ → Option (Object RcSharedPr)) (p : ℕ) {v : Option (Object RcSharedPr)}
    → f p ≡ v
    → put f p v ≡ f
put_same f p h = fun_ext λ q. ground (arith, h)

module _ (pr : CkPr) (to : LuaTo) where
  -- a method whose checks pass, on a cell whose type its class lists
  pub shared_pr_op-IsOpen :
      (op : PrOp) (i p : ℕ) (args : List Value) (w : World RcSharedPr) (o : Object RcSharedPr)
      {ft : FeatureType}
      → IsOpen i p w o
      → class_checks to (op_class op) args ≡ true
      → class_types (op_class op) o.value.type ≡ some ft
      → shared_pr_op pr to op i args w ≡ (
          let (vs, x) =
            class_impl pr to
              (op_class op)
              op
              ft
              (lua_push o.value.type)
              (lua_to to o.value.type)
              args
              o.value.bits in
          (values vs, with_bits w p o x))
  unfolding shared_pr_op pr_checked pr_switch set_bits
  shared_pr_op-IsOpen op i p args w o h c t =
      rw (with_object-open shared_pr_metatable i p w o _ h.checked h.there, c, t) refl

  -- two methods in a row
  two_ops :
      (a b : PrOp) (i p : ℕ) (xs ys : List Value) (w : World RcSharedPr) (o : Object RcSharedPr)
      {fa fb : FeatureType}
      → IsOpen i p w o
      → class_checks to (op_class a) xs ≡ true
      → class_types (op_class a) o.value.type ≡ some fa
      → class_checks to (op_class b) ys ≡ true
      → class_types (op_class b) o.value.type ≡ some fb
      → shared_pr_op pr to b i ys (shared_pr_op pr to a i xs w).1 ≡ (
          let (us, x) =
            class_impl pr to
              (op_class a)
              a
              fa
              (lua_push o.value.type)
              (lua_to to o.value.type)
              xs
              o.value.bits in
          let (vs, y) =
            class_impl pr to
              (op_class b)
              b
              fb
              (lua_push o.value.type)
              (lua_to to o.value.type)
              ys
              x in
          (values vs, with_bits w p o y))
  two_ops a b i p xs ys w o {fa} {fb} h ca ta cb tb =
      ap (λ r. shared_pr_op pr to b i ys r.1) (shared_pr_op-IsOpen a i p xs w o h ca ta)
      ∙ shared_pr_op-IsOpen b i p ys (with_bits w p o x) (cell_with o x)
          (with_bits-IsOpen i p w o x h) cb tb
      ∙ ap (λ f. (values after.0, record w { objects = f }))
          (put-put w.objects p (some (cell_with o x)) (some (cell_with o after.1)))
    where
      x : ℕ
      x =
          (class_impl pr to (op_class a) a fa (lua_push o.value.type) (lua_to to o.value.type) xs
            o.value.bits).1

      after : List Value × ℕ
      after =
          class_impl pr to (op_class b) b fb (lua_push o.value.type) (lua_to to o.value.type) ys x

-- A value that a cell can hold comes back from its pattern.
pub lua_push-lua_to :
    {to : LuaTo} (laws : LuaToLaws to) (v : Value) {ft : FeatureType}
    → f_types (serde_type v) ≡ some ft
    → lua_push (serde_type v) (lua_to to (serde_type v) v) ≡ v
unfolding lua_push lua_to lua_toboolean f_types serde_type custom_type
lua_push-lua_to laws (boolean true) h = refl
lua_push-lua_to laws (boolean false) h = refl
lua_push-lua_to laws (lightuserdata p) h = rw (laws.touserdata_law p)
lua_push-lua_to laws (integer n) h = rw (laws.tointeger_law n)
lua_push-lua_to laws (number n) h = rw (laws.tonumber_law n)
lua_push-lua_to laws v h = ground arith

mod_lt : (x m : ℕ) → 0 < m → x % m < m
mod_lt x m h = grind arith

mod-lt : (x m : ℕ) → x < m → x % m ≡ x
mod-lt x m h = grind arith

mod_once : (x m : ℕ) → x < m → (x + m) % m ≡ x
mod_once x m h = grind arith

mod_over : (x m : ℕ) → m ≤ x → x < m + m → x % m ≡ x - m
mod_over x m h g = grind arith

wrap_back : (m x d : ℕ) → x < m → d < m → ((x + d) % m + (m - d)) % m ≡ x
wrap_back m x d hx hd = elim (dec_lt (x + d) m) [
  | yes small ↦ rw (mod-lt (x + d) m small) (ap (λ y. y % m) (omega arith) ∙ mod_once x m hx)
  | no large ↦
      ap (λ y. (y + (m - d)) % m) (mod_over (x + d) m (omega arith) (omega arith))
      ∙ ap (λ y. y % m) (omega arith)
      ∙ mod-lt x m hx
]

module _ {pr : CkPr} (laws : CkPrLaws pr) {to : LuaTo} (conversions : LuaToLaws to) where
  -- After a value of the cell's own type is stored, `load` answers that value.
  store-load :
      (i p : ℕ) (v : Value) (vs : List Value) (w : World RcSharedPr) (o : Object RcSharedPr)
      {ft : FeatureType}
      → IsOpen i p w o
      → serde_type v ≡ o.value.type
      → f_types (serde_type v) ≡ some ft
      → (shared_pr_op pr to pr_load i [] (shared_pr_op pr to pr_store i (v ∷ vs) w).1).0
        ≡ values (v ∷ [])
  unfolding class_checks op_class class_types class_impl
  store-load i p v vs w o {ft} h t f =
      ap (λ r. r.0)
        (two_ops pr to pr_store pr_load i p (v ∷ vs) [] w o {fa = ft} {fb = ft} h refl (rw (← t) f)
          refl (rw (← t) f))
      ∙ rw (laws.load_law ft, laws.store_law ft, ← t, lua_push-lua_to conversions v f) refl

  -- `sub` takes away what `add` has added, modulo the width of the cell's type.
  add-sub :
      (i p : ℕ) (v : Value) (us vs : List Value) (w : World RcSharedPr) (o : Object RcSharedPr)
      {ft : FeatureType}
      → IsOpen i p w o
      → f_types o.value.type ≡ some ft
      → is_word ft ≡ true
      → o.value.bits < 2 ^ width ft
      → lua_to to o.value.type v < 2 ^ width ft
      → (shared_pr_op pr to pr_sub i (v ∷ vs) (shared_pr_op pr to pr_add i (v ∷ us) w).1).1 ≡ w
  unfolding class_checks op_class class_types class_impl
  add-sub i p v us vs w o {ft} h f word small fits =
      ap (λ r. r.1)
        (two_ops pr to pr_add pr_sub i p (v ∷ us) (v ∷ vs) w o {fa = ft} {fb = ft} h refl f refl f)
      ∙ ap (with_bits w p o) (
          ap (λ y. pr.binary pr_sub ft y d) (laws.binary_law pr_add ft x d word small fits)
          ∙ laws.binary_law pr_sub ft _ d word
              (mod_lt (x + d) (2 ^ width ft) (omega (arith, small))) fits
          ∙ wrap_back (2 ^ width ft) x d small fits)
      ∙ ap (λ f. record w { objects = f }) (put_same w.objects p h.there)
    where
      x : ℕ
      x = o.value.bits

      d : ℕ
      d = lua_to to o.value.type v

  -- `not` turns the word 1 of a boolean cell into 254, which is true.
  not-load :
      (i p : ℕ) (us vs : List Value) (w : World RcSharedPr) (o : Object RcSharedPr)
      → IsOpen i p w o
      → o.value ≡ record { bits = 1; type = serde_boolean }
      → (shared_pr_op pr to pr_load i vs (shared_pr_op pr to pr_not i us w).1).0
        ≡ values (boolean true ∷ [])
  unfolding class_checks op_class class_types class_impl lua_push f_types f_bitwise_types width
  not-load i p us vs w o h one =
      ap (λ r. r.0)
        (two_ops pr to pr_not pr_load i p us vs w o {fa = ft_8} {fb = ft_8} h refl (rw one refl)
          refl (rw one refl))
      ∙ rw
          (
            laws.load_law ft_8,
            laws.unary_law pr_not ft_8 o.value.bits refl (rw one (omega arith)),
            one,
          )
          refl
