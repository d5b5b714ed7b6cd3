-- ===== src/Handle/Twice.antt =====
-- common.h: `__gc` is an ordinary method, which Lua code may call on a userdata before the collector
-- does. Two calls, with and without `invalidate`.
use Prim.Native.String.{String}
use text.Mathlib.Text.{◌==◌ as str_eq}
use flua_ck.Base.{
  ℕ, zero, suc, ◌≡◌, refl, ap, ◌∙◌, Bool, true, false, none, some, List, [], ◌∷◌, arith, ==_self,
  inl, inr, Bool-cases, if◌then◌else◌, get_elem?,
}
use flua_ck.Handle.{
  Object, Handle, World, values, fault, raises, expired, cookie, refused, refcount_release,
  check_cookie, checkcookie_of, checkcookie, expire, invalidate, drop_object, release_object,
  release_checked, release,
}
use flua_ck.Handle.Counted.{held_of_checkcookie, checkcookie-handles}
use flua_ck.Memory.{Mem, free}

module _ {A : Type 0} (cleanup : ℕ → A → Mem → Mem) where
  -- a release of an object that is there, by what it does to the object
  release-cookie :
      (invalidates : Bool) (metatable : String) (i p : ℕ) (w : World A) (o : Object A)
      → checkcookie metatable i w ≡ cookie p
      → w.objects p ≡ some o
      → release cleanup invalidates metatable i w ≡ (
        values [],
        if invalidates then invalidate i (drop_object cleanup p w o) else drop_object cleanup p w o,
      )
  unfolding release
  release-cookie invalidates metatable i p w o e here =
      ap (release_checked cleanup invalidates i w) e
      ∙ ap (release_object cleanup invalidates i p w) here

  -- The last release frees the struct, and runs the container's own cleanup first.
  pub release_last :
      (invalidates : Bool) (metatable : String) (i p : ℕ) (w : World A) (o : Object A)
      → checkcookie metatable i w ≡ cookie p
      → w.objects p ≡ some o
      → o.refs ≡ 1
      → ((release cleanup invalidates metatable i w).0 ≡ values [])
        × ((release cleanup invalidates metatable i w).1.mem
            ≡ free (some p) (cleanup p o.value w.mem))
  unfolding drop_object refcount_release invalidate
  release_last true metatable i p w o e here one =
      rw (release-cookie true metatable i p w o e here, one) (refl, refl)
  release_last false metatable i p w o e here one =
      rw (release-cookie false metatable i p w o e here, one) (refl, refl)

  release-gone :
      (metatable : String) (i p : ℕ) (w : World A)
      → checkcookie metatable i w ≡ cookie p
      → w.objects p ≡ none
      → (release cleanup false metatable i w).0 ≡ fault
  unfolding release release_checked release_object
  release-gone metatable i p w e here = rw (e, here)

  dropped_handles :
      (p : ℕ) (w : World A) (o : Object A) → (drop_object cleanup p w o).handles ≡ w.handles
  unfolding drop_object refcount_release
  dropped_handles p w o = ground arith

  drop_two :
      (p : ℕ) (w : World A) (o : Object A)
      → o.refs ≡ 2
      → (drop_object cleanup p w o).objects p ≡ some (record o { refs = 1 })
  unfolding drop_object refcount_release
  drop_two p w o two = rw (two, ==_self p)

  drop_one :
      (p : ℕ) (w : World A) (o : Object A)
      → o.refs ≡ 1
      → (drop_object cleanup p w o).objects p ≡ none
  unfolding drop_object refcount_release
  drop_one p w o one = rw (one, ==_self p)

  -- Without `invalidate`, calling `__gc` twice on one userdata takes away two references. An object
  -- with two userdata is then freed while the other one still holds its address, and the next
  -- release through either is an access to a freed struct.
  pub release_twice :
      (metatable : String) (i p : ℕ) (w : World A) (o : Object A)
      → checkcookie metatable i w ≡ cookie p
      → w.objects p ≡ some o
      → o.refs ≡ 2
      → let w' = (release cleanup false metatable i (release cleanup false metatable i w).1).1 in
        (w'.objects p ≡ none)
        × (w'.handles ≡ w.handles)
        × ((release cleanup false metatable i w').0 ≡ fault)
  release_twice metatable i p w o e here two =
      rw (first, second)
        (drop_one p once left refl, dropped_handles p once left ∙ dropped_handles p w o, gone)
    where
      once : World A
      once = drop_object cleanup p w o

      left : Object A
      left = record o { refs = 1 }

      both : World A
      both = drop_object cleanup p once left

      check_once : checkcookie metatable i once ≡ cookie p
      check_once = checkcookie-handles metatable i w once (dropped_handles p w o) ∙ e

      check_twice : checkcookie metatable i both ≡ cookie p
      check_twice =
          checkcookie-handles metatable i once both (dropped_handles p once left) ∙ check_once

      first : release cleanup false metatable i w ≡ (values [], once)
      first = release-cookie false metatable i p w o e here

      second : release cleanup false metatable i once ≡ (values [], both)
      second = release-cookie false metatable i p once left check_once (drop_two p w o two)

      gone : (release cleanup false metatable i both).0 ≡ fault
      gone = release-gone metatable i p both check_twice (drop_one p once left refl)

expired_at :
    (metatable : String) (hs : List Handle) (i : ℕ) {h : Handle} {p : ℕ}
    → get_elem? hs i ≡ some h
    → checkcookie_of metatable (get_elem? hs i) ≡ cookie p
    → checkcookie_of metatable (get_elem? (expire hs i) i) ≡ refused expired
unfolding expire checkcookie_of check_cookie
expired_at metatable [] i e c = cc
expired_at metatable (g ∷ hs) zero e c = elim (Bool-cases (str_eq g.metatable metatable)) [
  | inl q ↦ rw q
  | inr q ↦ cc (rw q at c)
]
expired_at metatable (g ∷ hs) (suc i) e c = expired_at metatable hs i e c

module _ {A : Type 0} (cleanup : ℕ → A → Mem → Mem) where
  release-refused :
      (metatable : String) (i : ℕ) (v : World A)
      → checkcookie metatable i v ≡ refused expired
      → release cleanup true metatable i v ≡ (raises expired, v)
  unfolding release
  release-refused metatable i v h = ap (release_checked cleanup true i v) h

  check-invalidate :
      (metatable : String) (i p : ℕ) (w v : World A)
      → checkcookie metatable i w ≡ cookie p
      → v.handles ≡ w.handles
      → checkcookie metatable i (invalidate i v) ≡ refused expired
  unfolding checkcookie invalidate
  check-invalidate metatable i p w v e same =
      let (h, at_i, cookie_p) = held_of_checkcookie metatable i p w e in
      ap (λ hs. checkcookie_of metatable (get_elem? (expire hs i) i)) same
      ∙ expired_at metatable w.handles i at_i e

  -- With `invalidate`, a second `__gc` on the userdata is refused, "cookie expired", and changes nothing.
  release_again :
      (metatable : String) (i p : ℕ) (w : World A) (o : Object A)
      → checkcookie metatable i w ≡ cookie p
      → w.objects p ≡ some o
      → let w' = (release cleanup true metatable i w).1 in
        release cleanup true metatable i w' ≡ (raises expired, w')
  release_again metatable i p w o e here =
      rw (release-cookie cleanup true metatable i p w o e here) (
        release-refused metatable i _ (
          check-invalidate metatable i p w (drop_object cleanup p w o) e
            (dropped_handles cleanup p w o)))
