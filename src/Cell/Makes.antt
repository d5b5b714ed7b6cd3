-- ===== src/Cell/Makes.antt =====
-- shared.c: the metatable of a new shared.pr.
use flua_ck.Atomic.{FeatureType}
use flua_ck.Base.{ℕ, Option, none, some, List, [], ◌∷◌}
use flua_ck.Cell.{LuaTo, RcSharedPr, shared_pr_metatable, typed_cell, made_cell, shared_pr_new}
use flua_ck.Handle.{World}
use flua_ck.Handle.Makes.{Makes, create-Makes}
use flua_ck.Memory.{Mem}
use flua_ck.Value.{Value}

module _ (to : LuaTo) where
  typed_cell-Makes :
      (v : Value) (p : ℕ) (w : World RcSharedPr) (x : Option FeatureType)
      → Makes shared_pr_metatable (typed_cell to v p w x)
  unfolding typed_cell
  typed_cell-Makes v p w none u e = cc
  typed_cell-Makes v p w (some ft) u e = create-Makes p _ shared_pr_metatable _ u e

  made_cell-Makes :
      (v : Value) (w : World RcSharedPr) (x : Option ℕ × Mem)
      → Makes shared_pr_metatable (made_cell to v w x)
  unfolding made_cell
  made_cell-Makes v w (none, m) u e = cc
  made_cell-Makes v w (some p, m) u e = typed_cell-Makes v p _ _ u e

  pub shared_pr_new-Makes :
      (args : List Value) (w : World RcSharedPr)
      → Makes shared_pr_metatable (shared_pr_new to args w)
  unfolding shared_pr_new
  shared_pr_new-Makes [] w u e = cc
  shared_pr_new-Makes (v ∷ vs) w u e = made_cell-Makes v w _ u e
