-- ===== src/Methods/Fields.antt =====
-- Tables of registered functions: a property of every field, and of the field that is found.
use Prim.Native.String.{String}
use mathlib.Core.Option.{some-injective}
use mathlib.Core.Path.{subst}
use text.Mathlib.Text.{◌==◌ as str_eq}
use flua_ck.Base.{
  ◌≡◌, ◌∙◌, Bool, true, false, Option-cases, inl, inr, none, some, List, [], ◌∷◌, ◌++◌,
  if◌then◌else◌,
}
use flua_ck.Methods.{or_earlier, find_field}

module _ {ℓ ℓ'} {F : Type ℓ} where
  infixr 20 ◌&◌
  pub data AllFields (P : F → Type ℓ') : List (String × F) → Type (ℓ ⊔ ℓ') where
    none_left : AllFields P []
    ◌&◌ :
        {n : String} {f : F} {fs : List (String × F)}
        → P f
        → AllFields P fs
        → AllFields P ((n, f) ∷ fs)

  pub AllFields-append :
      (P : F → Type ℓ') (fs gs : List (String × F))
      → AllFields P fs
      → AllFields P gs
      → AllFields P (fs ++ gs)
  AllFields-append P [] gs a b = b
  AllFields-append P ((n, f) ∷ fs) gs (p & ps) b = p & AllFields-append P fs gs ps b

  pub find_field-AllFields :
      (P : F → Type ℓ') (name : String) (fs : List (String × F)) {m : F}
      → AllFields P fs
      → find_field name fs ≡ some m
      → P m
  unfolding find_field or_earlier
  find_field-AllFields P name [] a h = cc
  find_field-AllFields P name ((n, f) ∷ fs) {m} (p & ps) h =
      elim (Option-cases (find_field name fs)) [
        | inr (x, e) ↦ find_field-AllFields P name fs ps (e ∙ (rw e at h))
        | inl e ↦ by_name (str_eq n name) (rw e at h)
      ]
    where
      by_name : (b : Bool) → (if b then some f else none) ≡ some m → P m
      by_name true e = subst P (some-injective f m e) p
      by_name false e = cc
