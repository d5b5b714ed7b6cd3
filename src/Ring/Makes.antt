-- ===== src/Ring/Makes.antt =====
-- ring.c: the metatable of a new ring.
use flua_ck.Base.{ℕ, ◌%◌, ◌^◌, Option, none, some}
use flua_ck.Handle.{World}
use flua_ck.Handle.Makes.{Makes, create-Makes}
use flua_ck.Memory.{Mem, malloc}
use flua_ck.Ring.{Kind, metatable, CkRing, RcRing, made_buffer, made_ring, newring}

module _ {R : Type 0} (ck : CkRing R) (kind : Kind) where
  made_buffer-Makes :
      (size p : ℕ) (w : World (RcRing R)) (x : Option ℕ × Mem)
      → Makes (metatable kind) (made_buffer ck kind size p w x)
  unfolding made_buffer
  made_buffer-Makes size p w (none, m) u e = cc
  made_buffer-Makes size p w (some b, m) u e = create-Makes p _ (metatable kind) _ u e

  made_ring-Makes :
      (size : ℕ) (w : World (RcRing R)) (x : Option ℕ × Mem)
      → Makes (metatable kind) (made_ring ck kind size w x)
  unfolding made_ring
  made_ring-Makes size w (none, m) u e = cc
  made_ring-Makes size w (some p, m) u e = made_buffer-Makes size p w _ u e

  pub newring-Makes :
      (size : ℕ) (w : World (RcRing R)) → Makes (metatable kind) (newring ck kind size w)
  unfolding newring
  newring-Makes size w = made_ring-Makes (size % 2 ^ 32) w (malloc ck.sizeof_rcring w.mem)
