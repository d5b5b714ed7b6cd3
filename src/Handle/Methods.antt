-- ===== src/Handle/Methods.antt =====
-- common.h: the methods of a userdata whose struct is there.
use Prim.Native.String.{String}
use text.Mathlib.Text.{◌==◌ as str_eq}
use flua_ck.Base.{
  refl, List, [], ◌∷◌, ◌++◌, length, get_elem?, ℕ, ◌≡◌, true, Option, none, some, ==_self,
}
use flua_ck.Handle.{
  Object, World, Answer, LuaError, raises, fault, create, new, checkcookie_of, check_cookie,
  Checked, refused, checkcookie, cookie, put, on_object, on_checked, with_object,
}

pub put_self {ℓ} : {A : Type ℓ} (f : ℕ → Option A) (p : ℕ) (v : Option A) → put f p v p ≡ v
put_self f p v = rw (==_self p)

module _ {A : Type 0} where
  pub with_object-open :
      (metatable : String) (i p : ℕ) (w : World A) (o : Object A)
      (method : ℕ → Object A → Answer × World A)
      → checkcookie metatable i w ≡ cookie p
      → w.objects p ≡ some o
      → with_object metatable i w method ≡ method p o
  unfolding with_object on_checked on_object
  with_object-open metatable i p w o method c h = rw (c, h)

  -- Two methods that agree on every struct agree on every userdata, each seen through its view.
  pub with_object_pointwise :
      {B : Type 0} (view view' : Answer × World A → B) (metatable : String) (i : ℕ) (w : World A)
      (f g : ℕ → Object A → Answer × World A)
      → ((e : LuaError) → view (raises e, w) ≡ view' (raises e, w))
      → view (fault, w) ≡ view' (fault, w)
      → ((p : ℕ) (o : Object A) → view (f p o) ≡ view' (g p o))
      → view (with_object metatable i w f) ≡ view' (with_object metatable i w g)
  unfolding with_object on_checked on_object
  with_object_pointwise view view' metatable i w f g error missing h =
      by_cookie (checkcookie metatable i w)
    where
      by_object :
          (p : ℕ) (x : Option (Object A)) → view (on_object p w x f) ≡ view' (on_object p w x g)
      by_object p none = missing
      by_object p (some o) = h p o

      by_cookie : (k : Checked) → view (on_checked w k f) ≡ view' (on_checked w k g)
      by_cookie (refused e) = error e
      by_cookie (cookie p) = by_object p (w.objects p)

pub get_elem?-snoc :
    {A : Type 0} (xs : List A) (a : A) → get_elem? (xs ++ (a ∷ [])) (length xs) ≡ some a
get_elem?-snoc [] a = refl
get_elem?-snoc (x ∷ xs) a = get_elem?-snoc xs a

-- The userdata of a `new` function holds the new struct.
pub create-checkcookie :
    {A : Type 0} (p : ℕ) (v : A) (metatable : String) (w : World A)
    → str_eq metatable metatable ≡ true
    → (checkcookie metatable (length w.handles) (create p v metatable w).1 ≡ cookie p)
      × ((create p v metatable w).1.objects p ≡ some (record { value = v; refs = 1 }))
unfolding create new checkcookie checkcookie_of check_cookie
create-checkcookie p v metatable w same =
    (rw (get_elem?-snoc w.handles _, same) refl, put_self w.objects p _)
