-- ===== src/Cell/New.antt =====
-- shared.c: l_ck_shared_pr_new.
use flua_ck.Base.{
  ℕ, ◌≡◌, refl, ap, ◌∙◌, false, none, some, List, [], ◌∷◌, inl, inr, arith, Bool-cases,
  Option-cases, length,
}
use flua_ck.Atomic.{FeatureType, op_class, pr_load}
use flua_ck.Cell.{
  CkPr, LuaTo, RcSharedPr, shared_pr_metatable, sizeof_rcsharedpr, class_types, class_checks,
  class_impl, f_types, lua_to, typed_cell, made_cell, shared_pr_op, shared_pr_new,
}
use flua_ck.Cell.Laws.{CkPrLaws, LuaToLaws}
use flua_ck.Cell.RoundTrip.{IsOpen, shared_pr_op-IsOpen, lua_push-lua_to}
use flua_ck.Handle.{World, Answer, userdata, values, raises, fatal_error, type_error, new, create}
use flua_ck.Handle.Counted.{IsCounted, create-IsCounted}
use flua_ck.Handle.Methods.{create-checkcookie}
use flua_ck.Marshal.{from_malloc}
use flua_ck.Memory.{
  IsFresh, granted, free, update-update, update-none, malloc-granted, malloc-refused,
}
use flua_ck.Serdebuf.{enomem}
use flua_ck.Value.{Value, serde_type}

-- What `new` may do with the argument `v`.
pub data NewCell (pr : CkPr) (to : LuaTo) (v : Value) (w : World RcSharedPr)
    : Answer × World RcSharedPr → Type 0 where
  made :
      {ft : FeatureType} {w' : World RcSharedPr}
      → f_types (serde_type v) ≡ some ft
      → (shared_pr_op pr to pr_load (length w.handles) [] w').0 ≡ values (v ∷ [])
      → IsCounted w'
      → NewCell pr to v w (userdata (length w.handles), w')
  refused_type :
      {w' : World RcSharedPr}
      → f_types (serde_type v) ≡ none
      → w'.mem.cell ≡ w.mem.cell
      → w'.objects ≡ w.objects
      → w'.handles ≡ w.handles
      → NewCell pr to v w (raises type_error, w')
  no_memory :
      {w' : World RcSharedPr}
      → granted sizeof_rcsharedpr w.mem ≡ false
      → w'.mem.cell ≡ w.mem.cell
      → w'.objects ≡ w.objects
      → w'.handles ≡ w.handles
      → NewCell pr to v w (raises (fatal_error from_malloc enomem), w')

module _ {pr : CkPr} (laws : CkPrLaws pr) {to : LuaTo} (conversions : LuaToLaws to) where
  -- `load` on a cell that holds the pattern of a value
  load-IsOpen :
      (i p refs : ℕ) (v : Value) (w : World RcSharedPr) {ft : FeatureType}
      → f_types (serde_type v) ≡ some ft
      → IsOpen i p w (record {
        value = record { bits = lua_to to (serde_type v) v; type = serde_type v };
        refs = refs;
      })
      → (shared_pr_op pr to pr_load i [] w).0 ≡ values (v ∷ [])
  unfolding class_checks op_class class_types class_impl
  load-IsOpen i p refs v w {ft} s h =
      ap (λ r. r.0) (shared_pr_op-IsOpen pr to pr_load i p [] w _ {ft = ft} h refl s)
      ∙ rw (laws.load_law ft, lua_push-lua_to conversions v s) refl

  create-IsOpen :
      (p : ℕ) (cell : RcSharedPr) (w : World RcSharedPr)
      → IsOpen
          (length w.handles)
          p
          (create p cell shared_pr_metatable w).1
          (record { value = cell; refs = 1 })
  create-IsOpen p cell w =
      let (checked, there) = create-checkcookie p cell shared_pr_metatable w refl in
      record { checked = checked; there = there }

  typed_cell-NewCell :
      (v : Value) (p : ℕ) (w w1 : World RcSharedPr)
      → ((free (some p) w1.mem).cell ≡ w.mem.cell)
      → w1.objects ≡ w.objects
      → w1.handles ≡ w.handles
      → w1.objects p ≡ none
      → IsCounted w1
      → NewCell pr to v w (typed_cell to v p w1 (f_types (serde_type v)))
  unfolding typed_cell create new
  typed_cell-NewCell v p w w1 freed objects handles unused counted =
      elim (Option-cases (f_types (serde_type v))) [
        | inl n ↦ rw n (refused_type n freed objects handles)
        | inr (ft, s) ↦ rw s (
            rw (← handles) (
              made s (load-IsOpen (length w1.handles) p 1 v _ s (create-IsOpen p _ w1))
                (create-IsCounted p _ shared_pr_metatable w1 unused counted)))
      ]

  -- `new` makes a cell from which `load` gets the argument back, and every count is right; or it
  -- refuses a value that is no boolean, lightuserdata, integer or number, or fails for want of
  -- memory, and leaves the blocks, the structs and the userdata as they were. No struct stands at
  -- an address that was not given out yet.
  pub shared_pr_new-NewCell :
      (v : Value) (vs : List Value) (w : World RcSharedPr)
      → IsFresh w.mem
      → w.objects w.mem.tick ≡ none
      → IsCounted w
      → NewCell pr to v w (shared_pr_new to (v ∷ vs) w)
  unfolding shared_pr_new made_cell free
  shared_pr_new-NewCell v vs w fresh unused counted =
      elim (Bool-cases (granted sizeof_rcsharedpr w.mem)) [
        | inl q ↦ rw (malloc-granted sizeof_rcsharedpr w.mem q) (
            typed_cell-NewCell v w.mem.tick w _
              (update-update w.mem.cell w.mem.tick (some []) none
                ∙ update-none w.mem.cell w.mem.tick (fresh w.mem.tick (omega arith)))
              refl refl unused counted)
        | inr q ↦ rw (malloc-refused sizeof_rcsharedpr w.mem q) (no_memory q refl refl refl)
      ]
