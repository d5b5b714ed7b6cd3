-- ===== src/Examples/Handles.antt =====
-- Userdata and counts of common.h and refcount.h.
use flua_ck.Base.{
  ℕ, ◌≡◌, refl, ◌≢◌, inl, inr, true, false, none, some, [], ◌∷◌, arith, ◌==◌, Bool-cases,
}
use flua_ck.Examples.{empty_memory}
use flua_ck.Handle.{
  Object, Handle, World, fault, check_cookie, checkcookie_of, checkcookie, cookie, put, retain,
  release,
}
use flua_ck.Handle.Counted.{IsCounted, retain-IsCounted, release-IsCounted}
use flua_ck.Handle.Twice.{release_twice}
use flua_ck.Memory.{Mem}

-- an object at address 3, and two userdata that hold it
abbrev shared_object : Object ℕ
shared_object = record { value = 10; refs = 2 }

abbrev holder : Handle
holder = record { metatable = "ring.spsc"; cookie = some 3 }

abbrev shared_world : World ℕ
shared_world = record {
  mem = empty_memory;
  objects = put (λ p. none) 3 (some shared_object);
  handles = holder ∷ holder ∷ [];
}

shared_world-IsCounted : IsCounted shared_world
shared_world-IsCounted p = elim (Bool-cases (3 == p)) [
  | inl e ↦ rw e (refl, omega arith)
  | inr e ↦ rw e refl
]

shared_cookie : checkcookie "ring.spsc" 0 shared_world ≡ cookie 3
unfolding checkcookie checkcookie_of check_cookie
shared_cookie = refl

abbrev no_cleanup : ℕ → ℕ → Mem → Mem
no_cleanup p v m = m

retain-IsCounted_example : IsCounted (retain "ring.spsc" 3 shared_world).1
retain-IsCounted_example =
    retain-IsCounted 3 "ring.spsc" shared_world shared_object refl (omega arith)
      shared_world-IsCounted

release-IsCounted_example :
    IsCounted (release no_cleanup true "ring.spsc" 0 shared_world).1
    × ((release no_cleanup true "ring.spsc" 0 shared_world).0 ≢ fault)
release-IsCounted_example =
    release-IsCounted no_cleanup "ring.spsc" 0 shared_world (omega arith) shared_world-IsCounted

abbrev twice_released : World ℕ
twice_released =
    (release no_cleanup false "ring.spsc" 0
      (release no_cleanup false "ring.spsc" 0 shared_world).1).1

release_twice_example :
    (twice_released.objects 3 ≡ none)
    × (twice_released.handles ≡ holder ∷ holder ∷ [])
    × ((release no_cleanup false "ring.spsc" 0 twice_released).0 ≡ fault)
release_twice_example =
    release_twice no_cleanup "ring.spsc" 0 3 shared_world shared_object shared_cookie refl refl
