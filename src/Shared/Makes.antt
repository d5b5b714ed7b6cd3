-- ===== src/Shared/Makes.antt =====
-- shared.c: the metatable of a new shared.const or shared.mut.
use Prim.Native.String.{String}
use flua_ck.Base.{ℕ, Option, none, some, List, [], ◌∷◌}
use flua_ck.Handle.{World}
use flua_ck.Handle.Makes.{Makes, create-Makes}
use flua_ck.Memory.{Mem}
use flua_ck.Serdebuf.{Status, ok, error, raised}
use flua_ck.Shared.{RcShared, Serialized, made, not_made, give_up, filled, made_shared, newshared}
use flua_ck.Transport.{Runtime}
use flua_ck.Value.{Value}

module _ (rt : Runtime) (metatable : String) where
  give_up-Makes : (p : ℕ) (w : World RcShared) (s : Status) → Makes metatable (give_up rt p w s)
  unfolding give_up
  give_up-Makes p w ok u e = cc
  give_up-Makes p w (error c) u e = cc
  give_up-Makes p w raised u e = cc

  filled-Makes :
      (p : ℕ) (w : World RcShared) (x : Serialized × Mem)
      → Makes metatable (filled rt metatable p w x)
  unfolding filled
  filled-Makes p w (not_made status, m) u e = give_up-Makes p _ status u e
  filled-Makes p w (made q, m) u e = create-Makes p _ metatable _ u e

  made_shared-Makes :
      (v : Value) (w : World RcShared) (x : Option ℕ × Mem)
      → Makes metatable (made_shared rt metatable v w x)
  unfolding made_shared
  made_shared-Makes v w (none, m) u e = cc
  made_shared-Makes v w (some p, m) u e = filled-Makes p w _ u e

  pub newshared-Makes :
      (args : List Value) (w : World RcShared) → Makes metatable (newshared rt metatable args w)
  unfolding newshared
  newshared-Makes [] w u e = cc
  newshared-Makes (v ∷ vs) w u e = made_shared-Makes v w _ u e
