-- ===== src/Handle.antt =====
-- common.h and refcount.h: reference-counted objects on the C heap, and the userdata through which
-- Lua states hold them. A userdata is its index in `handles`; its cookie is the object's address, or
-- none for NULL. Each container puts its own struct in place of `A`.
pub mod Counted
pub mod Twice
pub mod Methods
pub mod Other
pub mod Makes
use Prim.Native.String.{String}
use text.Mathlib.Text.{◌==◌ as str_eq}
use flua_ck.Base.{
  ℕ, zero, suc, ◌+◌, ◌-◌, ◌%◌, ◌^◌, Bool, true, false, Option, none, some, List, [], ◌∷◌, ◌++◌,
  ◌==◌, if◌then◌else◌, length, get_elem?, set,
}
use flua_ck.Load.{Message}
use flua_ck.Marshal.{Source}
use flua_ck.Memory.{Mem, malloc, free}
use flua_ck.Serdebuf.{Errno}
use flua_ck.Value.{Value}

-- a struct with its `refs`
pub record Object (A : Type 0) : Type 0 where
  pub value : A
  pub refs : ℕ

-- the userdata of `new`
pub record Handle : Type 0 where
  pub metatable : String
  pub cookie : Option ℕ

pub record World (A : Type 0) : Type 0 where
  pub mem : Mem
  pub objects : ℕ → Option (Object A)
  pub handles : List Handle

pub data LuaError : Type 0 where
  type_error expired serializer_error internal_error : LuaError
  fatal_error : Source → Errno → LuaError
  load_error : Message → LuaError

-- What a function gives back to Lua. `fault` is an access to a struct that is not there.
pub data Answer : Type 0 where
  values : List Value → Answer
  userdata : ℕ → Answer
  cookie_value : Option ℕ → Answer
  raises : LuaError → Answer
  fault : Answer

-- `refcount_init`, `refcount_retain` and `refcount_release`; the last also says whether the count
-- was 1 before.
abbrev pub refcount_init : ℕ
refcount_init = 1

unfoldable pub refcount_retain : ℕ → ℕ
refcount_retain n = (n + 1) % 2 ^ 64

unfoldable pub refcount_release : ℕ → Bool × ℕ
refcount_release n = (n == 1, (n + (2 ^ 64 - 1)) % 2 ^ 64)

pub data Checked : Type 0 where
  cookie : ℕ → Checked
  refused : LuaError → Checked

unfoldable pub check_cookie : Option ℕ → Checked
check_cookie none = refused expired
check_cookie (some p) = cookie p

-- `checkcookie`, for the userdata with the given index
unfoldable pub checkcookie_of : String → Option Handle → Checked
unfolding check_cookie
checkcookie_of metatable none = refused type_error
checkcookie_of metatable (some h) =
    if str_eq h.metatable metatable then check_cookie h.cookie else refused type_error

-- `checkcookieuv`: the cookie, NULL or not
unfoldable pub checkcookieuv_of : String → Option Handle → Answer
checkcookieuv_of metatable none = raises type_error
checkcookieuv_of metatable (some h) =
    if str_eq h.metatable metatable then cookie_value h.cookie else raises type_error

abbrev pub put {ℓ} : {A : Type ℓ} → (ℕ → Option A) → ℕ → Option A → ℕ → Option A
put f p v q = if p == q then v else f q

expire : List Handle → ℕ → List Handle
expire [] i = []
expire (h ∷ hs) zero = record h { cookie = none } ∷ hs
expire (h ∷ hs) (suc i) = h ∷ expire hs i

module _ {A : Type 0} where
  unfoldable pub checkcookie : String → ℕ → World A → Checked
  unfolding checkcookie_of
  checkcookie metatable i w = checkcookie_of metatable (get_elem? w.handles i)

  unfoldable pub checkcookieuv : String → ℕ → World A → Answer
  unfolding checkcookieuv_of
  checkcookieuv metatable i w = checkcookieuv_of metatable (get_elem? w.handles i)

  -- `new`
  unfoldable pub new : Option ℕ → String → World A → Answer × World A
  new p metatable w = (
    userdata (length w.handles),
    record w { handles = w.handles ++ (record { metatable = metatable; cookie = p } ∷ []) },
  )

  -- `invalidate`
  unfoldable pub invalidate : ℕ → World A → World A
  unfolding expire
  invalidate i w = record w { handles = expire w.handles i }

  -- The end of every `new` function: the count of the struct at `p` is set to 1, and a userdata made.
  unfoldable pub create : ℕ → A → String → World A → Answer × World A
  create p v metatable w =
      new (some p) metatable
        (record w { objects = put w.objects p (some (record { value = v; refs = refcount_init })) })

  -- `retain`: a lightuserdata is an address; the count is taken before the userdata is made.
  retain_object : ℕ → String → World A → Option (Object A) → Answer × World A
  retain_object p metatable w none = (fault, w)
  retain_object p metatable w (some o) =
      new (some p) metatable
        (record w { objects = put w.objects p (some (record o { refs = refcount_retain o.refs })) })

  unfoldable pub retain : String → ℕ → World A → Answer × World A
  unfolding retain_object
  retain metatable p w = retain_object p metatable w (w.objects p)

  module _ (cleanup : ℕ → A → Mem → Mem) where
    -- `refcount_release` on the struct at `p`, and `cleanup` with the struct's block freed if that was
    -- the last reference.
    drop_object : ℕ → World A → Object A → World A
    drop_object p w o =
        let (last, refs) = refcount_release o.refs in
        if last
        then record w {
          mem = free (some p) (cleanup p o.value w.mem);
          objects = put w.objects p none;
        }
        else record w { objects = put w.objects p (some (record o { refs = refs })) }

    release_object : Bool → ℕ → ℕ → World A → Option (Object A) → Answer × World A
    unfolding drop_object
    release_object invalidates i p w none = (fault, w)
    release_object invalidates i p w (some o) =
        (values [], if invalidates then invalidate i (drop_object p w o) else drop_object p w o)

    release_checked : Bool → ℕ → World A → Checked → Answer × World A
    unfolding release_object
    release_checked invalidates i w (refused e) = (raises e, w)
    release_checked invalidates i w (cookie p) = release_object invalidates i p w (w.objects p)

    -- the `__gc` method: `checkcookie`, the release, and in some containers `invalidate`
    unfoldable pub release : Bool → String → ℕ → World A → Answer × World A
    unfolding release_checked
    release invalidates metatable i w = release_checked invalidates i w (checkcookie metatable i w)

  -- A method on the struct of a checked userdata: what comes after `p = checkcookie(L, 1, metatable)`.
  on_object : ℕ → World A → Option (Object A) → (ℕ → Object A → Answer × World A) → Answer × World A
  on_object p w none method = (fault, w)
  on_object p w (some o) method = method p o

  on_checked : World A → Checked → (ℕ → Object A → Answer × World A) → Answer × World A
  unfolding on_object
  on_checked w (refused e) method = (raises e, w)
  on_checked w (cookie p) method = on_object p w (w.objects p) method

  unfoldable pub with_object :
      String → ℕ → World A → (ℕ → Object A → Answer × World A) → Answer × World A
  unfolding on_checked
  with_object metatable i w method = on_checked w (checkcookie metatable i w) method
