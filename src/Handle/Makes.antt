-- ===== src/Handle/Makes.antt =====
-- common.h: the metatable of the userdata that `new` and `retain` functions give to Lua.
use Prim.Native.String.{String}
use flua_ck.Base.{ℕ, ◌≡◌, refl, Option, none, some, get_elem?, length}
use flua_ck.Handle.{Object, Handle, World, Answer, userdata, create, new, retain, retain_object}
use flua_ck.Handle.Methods.{get_elem?-snoc}

module _ {A : Type 0} where
  -- If the answer is a userdata, its metatable is this one.
  abbrev pub Makes : String → Answer × World A → Type 0
  Makes metatable x =
      (u : ℕ)
      → x.0 ≡ userdata u
      → (h : Handle) × (get_elem? x.1.handles u ≡ some h) × (h.metatable ≡ metatable)

  new-Makes :
      (p : Option ℕ) (metatable : String) (w : World A) → Makes metatable (new p metatable w)
  unfolding new
  new-Makes p metatable w u e =
      let same = index_injective e in rw (← same) (_, get_elem?-snoc w.handles _, refl)
    where
      index_injective : userdata (length w.handles) ≡ userdata u → length w.handles ≡ u
      index_injective e = cc

  pub create-Makes :
      (p : ℕ) (v : A) (metatable : String) (w : World A) → Makes metatable (create p v metatable w)
  unfolding create
  create-Makes p v metatable w = new-Makes (some p) metatable _

  pub retain-Makes :
      (metatable : String) (p : ℕ) (w : World A) → Makes metatable (retain metatable p w)
  unfolding retain
  retain-Makes metatable p w = by_object (w.objects p)
    where
      by_object : (o : Option (Object A)) → Makes metatable (retain_object p metatable w o)
      by_object none u e = cc
      by_object (some o) u e = new-Makes (some p) metatable _ u e
