-- ===== src/Fifo/Makes.antt =====
-- fifo.c: the metatable of a new queue.
use Prim.Native.String.{String}
use flua_ck.Base.{ℕ, Option, none, some}
use flua_ck.Handle.{World}
use flua_ck.Handle.Makes.{Makes, create-Makes}
use flua_ck.Fifo.{made_stub, made_fifo, new_fifo}
use flua_ck.Memory.{Mem}

module _ {F : Type 0} (init : ℕ → F) (metatable : String) where
  made_stub-Makes :
      (p : ℕ) (w : World F) (x : Option ℕ × Mem) → Makes metatable (made_stub init metatable p w x)
  unfolding made_stub
  made_stub-Makes p w (none, m) u e = cc
  made_stub-Makes p w (some stub, m) u e = create-Makes p _ metatable _ u e

  made_fifo-Makes :
      (sizeof_entry : ℕ) (w : World F) (x : Option ℕ × Mem)
      → Makes metatable (made_fifo init metatable sizeof_entry w x)
  unfolding made_fifo
  made_fifo-Makes sizeof_entry w (none, m) u e = cc
  made_fifo-Makes sizeof_entry w (some p, m) u e = made_stub-Makes p w _ u e

  pub new_fifo-Makes :
      (sizeof_fifo sizeof_entry : ℕ) (w : World F)
      → Makes metatable (new_fifo init metatable sizeof_fifo sizeof_entry w)
  unfolding new_fifo
  new_fifo-Makes sizeof_fifo sizeof_entry w = made_fifo-Makes sizeof_entry w _
