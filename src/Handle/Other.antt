-- ===== src/Handle/Other.antt =====
-- common.h: a userdata of another metatable, which `checkcookie` refuses.
use Prim.Native.String.{String}
use text.Mathlib.Text.{◌==◌ as str_eq}
use flua_ck.Base.{ℕ, ◌≡◌, refl, Bool, false, Option, none, some, get_elem?}
use flua_ck.Handle.{
  World, Answer, raises, type_error, Handle, Object, refused, checkcookie_of, checkcookieuv_of,
  checkcookie, checkcookieuv, with_object, on_checked, release, release_checked,
}
use flua_ck.Memory.{Mem}

unfoldable pub is_a : String → Option Handle → Bool
is_a metatable none = false
is_a metatable (some h) = str_eq h.metatable metatable

module _ {A : Type 0} where
  checkcookie_other :
      (metatable : String) (i : ℕ) (w : World A)
      → is_a metatable (get_elem? w.handles i) ≡ false
      → checkcookie metatable i w ≡ refused type_error
  unfolding checkcookie checkcookie_of is_a
  checkcookie_other metatable i w other = of_handle (get_elem? w.handles i) other
    where
      of_handle :
          (h : Option Handle)
          → is_a metatable h ≡ false
          → checkcookie_of metatable h ≡ refused type_error
      of_handle none e = refl
      of_handle (some h) e = rw e refl

  pub with_object_other :
      (metatable : String) (i : ℕ) (w : World A) (method : ℕ → Object A → Answer × World A)
      → is_a metatable (get_elem? w.handles i) ≡ false
      → with_object metatable i w method ≡ (raises type_error, w)
  unfolding with_object on_checked
  with_object_other metatable i w method other = rw (checkcookie_other metatable i w other) refl

  pub release_other :
      (cleanup : ℕ → A → Mem → Mem) (invalidates : Bool) (metatable : String) (i : ℕ) (w : World A)
      → is_a metatable (get_elem? w.handles i) ≡ false
      → release cleanup invalidates metatable i w ≡ (raises type_error, w)
  unfolding release release_checked
  release_other cleanup invalidates metatable i w other =
      rw (checkcookie_other metatable i w other) refl

  pub checkcookieuv_other :
      (metatable : String) (i : ℕ) (w : World A)
      → is_a metatable (get_elem? w.handles i) ≡ false
      → checkcookieuv metatable i w ≡ raises type_error
  unfolding checkcookieuv checkcookieuv_of is_a
  checkcookieuv_other metatable i w other = of_handle (get_elem? w.handles i) other
    where
      of_handle :
          (h : Option Handle)
          → is_a metatable h ≡ false
          → checkcookieuv_of metatable h ≡ raises type_error
      of_handle none e = refl
      of_handle (some h) e = rw e refl
