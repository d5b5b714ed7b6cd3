-- ===== src/Struct/Made.antt =====
-- sequence.c and ec.c: what the new functions make.
use Prim.Native.String.{String}
use text.Mathlib.Text.{◌==◌ as str_eq}
use flua_ck.Base.{ℕ, ◌≤◌, ◌≡◌, refl, inl, inr, true, false, none, some, arith, Bool-cases, length}
use flua_ck.Handle.{
  World, Answer, userdata, raises, fatal_error, check_cookie, checkcookie_of, checkcookie, cookie,
  create, new,
}
use flua_ck.Handle.Counted.{IsCounted, create-IsCounted}
use flua_ck.Handle.Methods.{put_self, get_elem?-snoc}
use flua_ck.Marshal.{from_malloc}
use flua_ck.Memory.{size_limit, IsFresh, granted, malloc-granted, malloc-refused}
use flua_ck.Serdebuf.{enomem}
use flua_ck.Struct.{made_struct, new_struct}

-- What a new function may do.
pub data Created {A : Type 0} (metatable : String) (v : A) (w : World A)
    : Answer × World A → Type 0 where
  created :
      {p : ℕ} {w' : World A}
      → w.mem.cell p ≡ none
      → checkcookie metatable (length w.handles) w' ≡ cookie p
      → w'.objects p ≡ some (record { value = v; refs = 1 })
      → IsCounted w'
      → Created metatable v w (userdata (length w.handles), w')
  not_created :
      {w' : World A}
      → w.mem.grants w.mem.tick ≡ false
      → w'.mem.cell ≡ w.mem.cell
      → w'.objects ≡ w.objects
      → w'.handles ≡ w.handles
      → Created metatable v w (raises (fatal_error from_malloc enomem), w')

module _ {A : Type 0} where
  -- A new function makes a struct in a new block, with the count 1 and a userdata whose cookie is its
  -- address, and every count is right; or it raises ENOMEM, because the allocator refused the request
  -- of the struct's size, and leaves the blocks, the structs and the userdata as they were. No struct
  -- stands at an address that was not given out yet.
  new_struct-Created :
      (metatable : String) (size : ℕ) (v : A) (w : World A)
      → size ≤ size_limit
      → str_eq metatable metatable ≡ true
      → IsFresh w.mem
      → w.objects w.mem.tick ≡ none
      → IsCounted w
      → Created metatable v w (new_struct metatable size v w)
  unfolding new_struct made_struct create new checkcookie checkcookie_of check_cookie
  new_struct-Created metatable size v w small same fresh unused counted =
      elim (Bool-cases (granted size w.mem)) [
        | inl q ↦ rw (malloc-granted size w.mem q) (
            created (fresh w.mem.tick (omega arith)) (rw (get_elem?-snoc w.handles _, same) refl)
              (put_self w.objects w.mem.tick _)
              (create-IsCounted w.mem.tick v metatable w unused counted))
        | inr q ↦ rw (malloc-refused size w.mem q) (not_created (ground (arith, q)) refl refl refl)
      ]
