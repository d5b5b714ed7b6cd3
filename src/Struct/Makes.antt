-- ===== src/Struct/Makes.antt =====
-- sequence.c, ec.c: the metatable of a new container.
use Prim.Native.String.{String}
use flua_ck.Base.{ℕ, Option, none, some}
use flua_ck.Handle.{World}
use flua_ck.Handle.Makes.{Makes, create-Makes}
use flua_ck.Memory.{Mem}
use flua_ck.Struct.{made_struct, new_struct}

module _ {A : Type 0} (metatable : String) where
  made_struct-Makes :
      (v : A) (w : World A) (x : Option ℕ × Mem) → Makes metatable (made_struct metatable v w x)
  unfolding made_struct
  made_struct-Makes v w (none, m) u e = cc
  made_struct-Makes v w (some p, m) u e = create-Makes p v metatable _ u e

  pub new_struct-Makes :
      (size : ℕ) (v : A) (w : World A) → Makes metatable (new_struct metatable size v w)
  unfolding new_struct
  new_struct-Makes size v w = made_struct-Makes v w _
