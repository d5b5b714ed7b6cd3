-- ===== src/Cell/Outcome.antt =====
-- shared.c: the methods of "shared.pr", on every branch.
use flua_ck.Base.{
  ℕ, ◌≡◌, ◌<◌, ◌^◌, true, false, Option, none, some, List, inl, arith, inr, Bool-cases,
  Option-cases,
}
use flua_ck.Atomic.{PrOp, op_class, FeatureType, width}
use flua_ck.Cell.{
  CkPr, LuaTo, RcSharedPr, shared_pr_metatable, f_types, class_checks, set_bits, pr_switch,
  pr_checked, shared_pr_op,
}
use flua_ck.Cell.Effect.{
  arguments, given, available, LuaToBounds, effect, class_types-available, class_checks-given,
}
use flua_ck.Cell.Laws.{CkPrLaws}
use flua_ck.Cell.Performs.{class_impl-effect}
use flua_ck.Handle.{
  Object, World, Answer, values, raises, type_error, internal_error, checkcookie, cookie, put,
}
use flua_ck.Handle.Methods.{with_object-open}
use flua_ck.Value.{Value}

-- the world with a new word in the cell at `p`
abbrev pub with_bits : World RcSharedPr → ℕ → Object RcSharedPr → ℕ → World RcSharedPr
with_bits w p o x = record w {
  objects = put w.objects p (some (record o { value = record (o.value) { bits = x } }));
}

-- The pattern in a cell is one of its C type.
abbrev pub IsCell : RcSharedPr → Type 0
IsCell c = (ft : FeatureType) → f_types c.type ≡ some ft → c.bits < 2 ^ width ft

-- What the method of `op` does.
pub data PrOutcome (pr : CkPr) (to : LuaTo) (op : PrOp) (args : List Value) (w : World RcSharedPr)
    (p : ℕ) (o : Object RcSharedPr) : Answer × World RcSharedPr → Type 0 where
  bad_argument :
      given to (arguments op) args ≡ false → PrOutcome pr to op args w p o (raises type_error, w)
  not_listed :
      given to (arguments op) args ≡ true
      → available (f_types o.value.type) op ≡ none
      → PrOutcome pr to op args w p o (raises internal_error, w)
  applied :
      (ft : FeatureType)
      → given to (arguments op) args ≡ true
      → available (f_types o.value.type) op ≡ some ft
      → PrOutcome pr to op args w p o (
        values (effect pr to o.value.type ft op args o.value.bits).0,
        with_bits w p o (effect pr to o.value.type ft op args o.value.bits).1,
      )

available_type :
    (x : Option FeatureType) (op : PrOp) {ft : FeatureType} → available x op ≡ some ft → x ≡ some ft
available_type x op a = ground arith

module _ {pr : CkPr} (laws : CkPrLaws pr) {to : LuaTo} (bounds : LuaToBounds to) where
  pr_checked-PrOutcome :
      (op : PrOp) (args : List Value) (w : World RcSharedPr) (p : ℕ) (o : Object RcSharedPr)
      → IsCell o.value
      → PrOutcome pr to op args w p o
          (pr_checked pr to op args w p o (class_checks to (op_class op) args))
  unfolding pr_checked pr_switch set_bits
  pr_checked-PrOutcome op args w p o cell = elim (Bool-cases (given to (arguments op) args)) [
    | inl g ↦ elim (Option-cases (available (f_types o.value.type) op)) [
      | inl n ↦
          rw (class_checks-given to op args, g, class_types-available op o.value.type, n)
            (not_listed g n)
      | inr (ft, a) ↦
          let h = available_type (f_types o.value.type) op a in
          rw
            (
              class_checks-given to op args,
              g,
              class_types-available op o.value.type,
              a,
              class_impl-effect laws bounds o.value.type ft h o.value.bits (cell ft h) op args a g,
            )
            (applied ft g a)
    ]
    | inr b ↦ rw (class_checks-given to op args, b) (bad_argument b)
  ]

  -- Every method of a cell, with any arguments. If an argument is missing, or the number of a bit is
  -- not an integer, it raises an error; if pr.h does not list the operation for the C type of the
  -- cell, an internal error; and in both cases nothing changes. Else it answers what the operation is to
  -- answer and leaves the word that it is to leave, the operands in their order, and only the word of
  -- this cell changes. Words wrap around; the bit operations, and the arithmetic of a `double`, are as
  -- Concurrency Kit has them.
  pub shared_pr_op-PrOutcome :
      (op : PrOp) (i : ℕ) (args : List Value) (w : World RcSharedPr) (p : ℕ) (o : Object RcSharedPr)
      → checkcookie shared_pr_metatable i w ≡ cookie p
      → w.objects p ≡ some o
      → IsCell o.value
      → PrOutcome pr to op args w p o (shared_pr_op pr to op i args w)
  unfolding shared_pr_op
  shared_pr_op-PrOutcome op i args w p o c h cell =
      rw (with_object-open shared_pr_metatable i p w o _ c h)
        (pr_checked-PrOutcome op args w p o cell)
