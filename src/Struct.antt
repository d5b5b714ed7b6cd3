-- ===== src/Struct.antt =====
-- The containers that are one struct with no other block: sequence.c and ec.c. Their new, retain and
-- __gc functions are the same but for the struct's initialisation and the metatable.
pub mod Made
pub mod Makes
use Prim.Native.String.{String}
use flua_ck.Base.{ℕ, false, Option, none, some}
use flua_ck.Handle.{World, Answer, raises, fatal_error, create, release}
use flua_ck.Marshal.{from_malloc}
use flua_ck.Memory.{Mem, malloc}
use flua_ck.Serdebuf.{enomem}

module _ {A : Type 0} (metatable : String) where
  made_struct : A → World A → Option ℕ × Mem → Answer × World A
  made_struct v w (none, m) = (raises (fatal_error from_malloc enomem), record w { mem = m })
  made_struct v w (some p, m) = create p v metatable (record w { mem = m })

  unfoldable pub new_struct : ℕ → A → World A → Answer × World A
  unfolding made_struct
  new_struct size v w = made_struct v w (malloc size w.mem)

  -- `if (refcount_release(&p->refs)) free(p);`, and no `invalidate`
  unfoldable pub release_struct : ℕ → World A → Answer × World A
  release_struct i w = release (λ p v m. m) false metatable i w
