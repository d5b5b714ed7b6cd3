-- ===== src/Methods/Guarded.antt =====
-- Tables of methods that all refuse the userdata of other metatables.
use Prim.Native.String.{String}
use mathlib.Core.Option.{some-injective}
use mathlib.Core.Path.{subst}
use text.Mathlib.Text.{◌==◌ as str_eq}
use text.Mathlib.TextEquality.{eq_iff}
use flua_ck.Base.{
  ℕ, ◌≡◌, sym, Bool, true, false, Bool-cases, Option-cases, inl, inr, none, some, List, [], ◌∷◌,
  if◌then◌else◌, get_elem?,
}
use flua_ck.Handle.{World, raises, type_error, Handle}
use flua_ck.Handle.Other.{is_a}
use flua_ck.Methods.Fields.{AllFields, AllFields-append, find_field-AllFields}
use flua_ck.Methods.{
  Method, Metatable, find_field, newmetatable, index_metatable, find_metatable, method_in,
  method_of, lua_method,
}

module _ {A : Type 0} where
  -- The method refuses every userdata of another metatable, and does nothing.
  abbrev pub GuardedBy : String → Method A → Type 0
  GuardedBy metatable m =
      (i : ℕ) (rest : m.Rest) (w : World A)
      → is_a metatable (get_elem? w.handles i) ≡ false
      → m.run i rest w ≡ (raises type_error, w)

  abbrev pub AllGuarded : String → List (String × Method A) → Type 1
  AllGuarded metatable fs = AllFields (GuardedBy metatable) fs

  unfoldable pub IsGuarded : List (Metatable A) → Type 1
  IsGuarded [] = Unit {1}
  IsGuarded (t ∷ ts) = AllGuarded t.name t.fields × IsGuarded ts

  pub newmetatable-IsGuarded :
      (name : String) (fs : List (String × Method A)) (ts : List (Metatable A))
      → AllGuarded name fs
      → IsGuarded ts
      → IsGuarded (newmetatable name fs ts)
  unfolding newmetatable IsGuarded
  newmetatable-IsGuarded name fs [] g gs = (g, tt)
  newmetatable-IsGuarded name fs (t ∷ ts) g gs = elim (Bool-cases (str_eq t.name name)) [
    | inl same ↦ rw same (
      AllFields-append (GuardedBy t.name) t.fields fs gs.0
          (subst (λ n. AllGuarded n fs) (sym ((eq_iff t.name name).0 same)) g),
      gs.1,
    )
    | inr other ↦ rw other (gs.0, newmetatable-IsGuarded name fs ts g gs.1)
  ]

  find_metatable-IsGuarded :
      (metatable : String) (ts : List (Metatable A)) {t : Metatable A}
      → IsGuarded ts
      → find_metatable metatable ts ≡ some t
      → (t.name ≡ metatable) × AllGuarded t.name t.fields
  unfolding find_metatable IsGuarded
  find_metatable-IsGuarded metatable [] g h = cc
  find_metatable-IsGuarded metatable (s ∷ ts) {t} g h =
      elim (Bool-cases (str_eq s.name metatable)) [
        | inl same ↦
            let at = some-injective s t (rw same at h) in
            (
              subst (λ u. u.name ≡ metatable) at ((eq_iff s.name metatable).0 same),
              subst (λ u. AllGuarded u.name u.fields) at g.0,
            )
        | inr other ↦ find_metatable-IsGuarded metatable ts g.1 (rw other at h)
      ]

  -- A method that `lua_method` finds for a userdata is guarded by its metatable.
  pub lua_method-GuardedBy :
      (ts : List (Metatable A)) (name : String) (i : ℕ) (w : World A) (h : Handle) {m : Method A}
      → IsGuarded ts
      → get_elem? w.handles i ≡ some h
      → lua_method ts name i w ≡ some m
      → GuardedBy h.metatable m
  unfolding lua_method method_of method_in index_metatable
  lua_method-GuardedBy ts name i w h {m} g here found =
      elim (Option-cases (find_metatable h.metatable ts)) [
        | inr (t, e) ↦
            of_metatable t (find_metatable-IsGuarded h.metatable ts g e)
              (rw e at (rw here at found))
        | inl e ↦ nothing (rw e at (rw here at found))
      ]
    where
      indexed :
          (fs : List (String × Method A)) (b : Bool)
          → (if b then find_field name fs else none) ≡ some m
          → find_field name fs ≡ some m
      indexed fs true e = e
      indexed fs false e = cc

      of_metatable :
          (t : Metatable A)
          → (t.name ≡ h.metatable) × AllGuarded t.name t.fields
          → (if t.indexes_itself then find_field name t.fields else none) ≡ some m
          → GuardedBy h.metatable m
      of_metatable t k f =
          subst (λ n. GuardedBy n m) k.0
            (find_field-AllFields (GuardedBy t.name) name t.fields k.1
              (indexed t.fields t.indexes_itself f))

      nothing : none ≡ some m → GuardedBy h.metatable m
      nothing e = cc

pub nil-IsGuarded : (A : Type 0) → IsGuarded {A = A} []
unfolding IsGuarded
nil-IsGuarded A = tt
