-- ===== src/Examples/Hazards.antt =====
-- Threads that share a "shared.mut" cell.
use flua_ck.Base.{◌≤◌, ◌≡◌, refl, true, false, none, some, [], ◌∷◌}
use flua_ck.Hazard.{
  freed, idle, looping, reading, dropping, System, Reach, here, next, goto, first, start_load,
  load_pointer, set_hazard, recheck_same, flush, fetched, guarded, ck_hp_set, set_at, Step,
}
use flua_ck.Hazard.Invariant.{is_full}
use flua_ck.Hazard.Nested.{nested_unsafe}
use flua_ck.Hazard.Progress.{Lone, rest, step, in_loop, is_own, solo_loop}
use flua_ck.Hazard.Safety.{uses_shared, ordered_safe}
use flua_ck.Hazard.Unordered.{unordered_unsafe}

abbrev one_thread : System
one_thread = first 7 (1 ∷ [])

abbrev at_loop : System
at_loop = goto one_thread 0 (looping false)

abbrev with_hazard : System
with_hazard = ck_hp_set (goto (goto at_loop 0 (fetched false 7)) 0 (guarded false 7)) 0 (some 7)

abbrev at_loadshared : System
at_loadshared =
    goto
      (record with_hazard {
        hazard = set_at with_hazard.hazard 0 (some 7);
        buffer = set_at with_hazard.buffer 0 none;
      })
      0 (reading 7)

reaches : Reach true false one_thread at_loadshared
reaches =
    next 0
      (next 0
        (next 0 (next 0 (next 0 here (start_load refl)) (load_pointer {gc = false} refl))
          (set_hazard {gc = false} {q = 7} refl refl))
        (flush {h = some 7} refl))
      (recheck_same {gc = false} {q = 7} refl (λ o. refl) refl)

ordered_safe_example :
    (at_loadshared.pc 0 ≡ reading 7 → is_full (at_loadshared.block 7) ≡ true)
    × (at_loadshared.pc 0 ≡ dropping 7 → is_full (at_loadshared.block 7) ≡ true)
    × (uses_shared (at_loadshared.pc 0) ≡ true → at_loadshared.alive ≡ true)
ordered_safe_example = ordered_safe 7 (1 ∷ []) reaches 0 7

-- the four steps of a round
alone_to_loadshared : Lone true false 0 at_loop 4 at_loadshared
alone_to_loadshared =
    step
      (step
        (step (step rest refl (load_pointer {gc = false} refl) refl) refl
          (set_hazard {gc = false} {q = 7} refl refl) refl)
        refl (flush {h = some 7} refl) refl)
      refl (recheck_same {gc = false} {q = 7} refl (λ o. refl) refl) refl

solo_loop_example :
    (4 ≤ 5)
    × (in_loop (at_loadshared.pc 0) ≡ true
        → (u : System) × (st : Step true false 0 at_loadshared u) × (is_own st ≡ true))
    × (in_loop (at_loadshared.pc 0) ≡ false → at_loadshared.pc 0 ≡ reading 7)
solo_loop_example = solo_loop 0 false at_loop refl alone_to_loadshared

abbrev two_threads : System
two_threads = goto one_thread 1 idle

unordered_unsafe_example :
    (t : System) × Reach false false two_threads t × (t.pc 1 ≡ reading 7) × (t.block 7 ≡ freed)
unordered_unsafe_example =
    unordered_unsafe 1 0 8 (2 ∷ []) two_threads refl refl refl (λ k. refl) (λ k. refl) refl

nested_unsafe_example :
    (t : System) × Reach true true two_threads t × (t.pc 1 ≡ reading 7) × (t.block 7 ≡ freed)
nested_unsafe_example =
    nested_unsafe 1 0 8 (2 ∷ []) two_threads refl refl refl (λ k. refl) (λ k. refl) refl
