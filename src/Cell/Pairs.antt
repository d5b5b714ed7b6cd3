-- ===== src/Cell/Pairs.antt =====
-- shared.c: methods of "shared.pr" that are other methods in one step.
use flua_ck.Base.{ℕ, ◌≡◌, refl, true, List, [], ◌∷◌, Option, none, some}
use flua_ck.Atomic.{
  PrOp, FeatureType, op_class, pr_add, pr_cas, pr_cas_value, pr_faa, pr_fas, pr_load, pr_store,
}
use flua_ck.Cell.{
  CkPr, LuaTo, RcSharedPr, shared_pr_metatable, class_types, class_checks, class_impl, lua_push,
  lua_to, set_bits, pr_switch, pr_checked, shared_pr_op,
}
use flua_ck.Cell.Laws.{CkPrLaws}
use flua_ck.Handle.{Object, World, Answer, LuaError, values, raises, fault, internal_error}
use flua_ck.Handle.Methods.{with_object_pointwise}
use flua_ck.Value.{Value}

-- Two methods that pass their checks, and whose classes have the same types, agree on what their
-- implementations agree on.
same_view :
    (pr : CkPr) (to : LuaTo) {B : Type 0} (view view' : Answer × World RcSharedPr → B) (a b : PrOp)
    (xs ys : List Value) (i : ℕ) (w : World RcSharedPr)
    → class_checks to (op_class a) xs ≡ true
    → class_checks to (op_class b) ys ≡ true
    → class_types (op_class a) ≡ class_types (op_class b)
    → ((e : LuaError) → view (raises e, w) ≡ view' (raises e, w))
    → view (fault, w) ≡ view' (fault, w)
    → ((p : ℕ) (o : Object RcSharedPr) (ft : FeatureType)
        → view (
            set_bits w p o (
              class_impl pr to
                (op_class a)
                a
                ft
                (lua_push o.value.type)
                (lua_to to o.value.type)
                xs
                o.value.bits))
          ≡ view' (
              set_bits w p o (
                class_impl pr to
                  (op_class b)
                  b
                  ft
                  (lua_push o.value.type)
                  (lua_to to o.value.type)
                  ys
                  o.value.bits)))
    → view (shared_pr_op pr to a i xs w) ≡ view' (shared_pr_op pr to b i ys w)
unfolding shared_pr_op pr_checked pr_switch
same_view pr to view view' a b xs ys i w ca cb types error missing same =
    with_object_pointwise view view' shared_pr_metatable i w
      (λ p o. pr_checked pr to a xs w p o (class_checks to (op_class a) xs))
      (λ p o. pr_checked pr to b ys w p o (class_checks to (op_class b) ys)) error missing
      (λ p o. rw (ca, cb, types) (by_type p o (class_types (op_class b) o.value.type)))
  where
    by_type :
        (p : ℕ) (o : Object RcSharedPr) (x : Option FeatureType)
        → view (pr_switch pr to a xs w p o x) ≡ view' (pr_switch pr to b ys w p o x)
    by_type p o none = error internal_error
    by_type p o (some ft) = same p o ft

-- the answer with its first value only
abbrev pub first_only : Answer → Answer
first_only (values (v ∷ vs)) = values (v ∷ [])
first_only a = a

-- the answer without its first value
abbrev pub behind_first : Answer → Answer
behind_first (values (v ∷ vs)) = values vs
behind_first a = a

module _ {pr : CkPr} (laws : CkPrLaws pr) (to : LuaTo) (i : ℕ) (w : World RcSharedPr) where
  -- Whatever the userdata and the cell are: `faa` answers what `load` answers, and leaves what `add`
  -- leaves; `fas` answers what `load` answers, and leaves what `store` leaves.
  pub fetch-load :
      (v : Value) (vs : List Value)
      → ((shared_pr_op pr to pr_faa i (v ∷ vs) w).0 ≡ (shared_pr_op pr to pr_load i [] w).0)
        × ((shared_pr_op pr to pr_faa i (v ∷ vs) w).1 ≡ (shared_pr_op pr to pr_add i (v ∷ vs) w).1)
        × ((shared_pr_op pr to pr_fas i (v ∷ vs) w).0 ≡ (shared_pr_op pr to pr_load i [] w).0)
        × ((shared_pr_op pr to pr_fas i (v ∷ vs) w).1
            ≡ (shared_pr_op pr to pr_store i (v ∷ vs) w).1)
  unfolding class_checks op_class class_types class_impl set_bits
  fetch-load v vs = (
    same_view pr to (λ r. r.0) (λ r. r.0) pr_faa pr_load (v ∷ vs) [] i w refl refl refl (λ e. refl)
        refl (λ p o ft. rw (laws.faa_law ft, laws.load_law ft)),
    same_view pr to (λ r. r.1) (λ r. r.1) pr_faa pr_add (v ∷ vs) (v ∷ vs) i w refl refl refl
        (λ e. refl) refl (λ p o ft. rw (laws.faa_law ft)),
    same_view pr to (λ r. r.0) (λ r. r.0) pr_fas pr_load (v ∷ vs) [] i w refl refl refl (λ e. refl)
        refl (λ p o ft. rw (laws.fas_law ft, laws.load_law ft)),
    same_view pr to (λ r. r.1) (λ r. r.1) pr_fas pr_store (v ∷ vs) (v ∷ vs) i w refl refl refl
        (λ e. refl) refl (λ p o ft. rw (laws.fas_law ft, laws.store_law ft)),
  )

  -- Whatever the userdata and the cell are: `cas_value` leaves what `cas` leaves, and answers what
  -- `cas` answers and then, if it answers values, what `load` answers.
  pub cas_value-cas :
      (old new : Value) (vs : List Value)
      → (first_only (shared_pr_op pr to pr_cas_value i (old ∷ new ∷ vs) w).0
          ≡ (shared_pr_op pr to pr_cas i (old ∷ new ∷ vs) w).0)
        × (behind_first (shared_pr_op pr to pr_cas_value i (old ∷ new ∷ vs) w).0
            ≡ (shared_pr_op pr to pr_load i [] w).0)
        × ((shared_pr_op pr to pr_cas_value i (old ∷ new ∷ vs) w).1
            ≡ (shared_pr_op pr to pr_cas i (old ∷ new ∷ vs) w).1)
  unfolding class_checks op_class class_types class_impl set_bits
  cas_value-cas old new vs = (
    same_view pr to (λ r. first_only r.0) (λ r. r.0) pr_cas_value pr_cas (old ∷ new ∷ vs)
        (old ∷ new ∷ vs) i w refl refl refl (λ e. refl) refl
        (λ p o ft. rw (laws.cas_value_law ft, laws.cas_law ft)),
    same_view pr to (λ r. behind_first r.0) (λ r. r.0) pr_cas_value pr_load (old ∷ new ∷ vs) [] i w
        refl refl refl (λ e. refl) refl (λ p o ft. rw (laws.cas_value_law ft, laws.load_law ft)),
    same_view pr to (λ r. r.1) (λ r. r.1) pr_cas_value pr_cas (old ∷ new ∷ vs) (old ∷ new ∷ vs) i w
        refl refl refl (λ e. refl) refl (λ p o ft. rw (laws.cas_value_law ft, laws.cas_law ft)),
  )
