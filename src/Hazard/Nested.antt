-- ===== src/Hazard/Nested.antt =====
-- shared.c: one hazard pointer for all the "shared.mut" values that a thread uses at once.
use flua_ck.Base.{ℕ, ◌≡◌, refl, true, false, none, some, List, arith, ◌==◌}
use flua_ck.Hazard.{
  freed, unused, idle, reading, System, Reach, here, next, goto, set_at, ck_hp_set, looping,
  fetched, guarded, start_load, load_pointer, set_hazard, recheck_same, overwrite_hazard, flush,
  serialize_new, swap_pointer, retire_old, reclaim,
}

-- Where `loadshared` may run code of its thread that uses another "shared.mut" value, the protocol
-- fails, even if every store is visible at once to the other threads: whenever two threads are between
-- methods, with no hazard pointer set and no store buffered, some order of their steps leaves one of
-- them at `loadshared` with a block that the other has freed.
pub nested_unsafe :
    (i j p : ℕ) (bytes : List ℕ) (s : System)
    → (i == j) ≡ false
    → s.pc i ≡ idle
    → s.pc j ≡ idle
    → ((k : ℕ) → s.hazard k ≡ none)
    → ((k : ℕ) → s.buffer k ≡ none)
    → s.block p ≡ unused
    → (t : System) × Reach true true s t × (t.pc i ≡ reading s.cell) × (t.block s.cell ≡ freed)
nested_unsafe i j p bytes s apart pi pj hazard buffer fresh = (
  _,
  next j
      (next j
        (next j (next j cleared (serialize_new p bytes (ground arith) fresh))
          (swap_pointer {q = p} (ground arith)))
        (retire_old {q = s.cell} (ground arith)))
      (reclaim s.cell (ground arith) (λ k e. ground (arith, hazard k, e))),
  ground arith,
  ground arith,
)
  where
    visible : System → System
    visible u = record u {
      hazard = set_at u.hazard i (some s.cell);
      buffer = set_at u.buffer i none;
    }

    guarded_state : System
    guarded_state =
        ck_hp_set
          (goto (goto (goto s i (looping false)) i (fetched false s.cell)) i (guarded false s.cell))
          i (some s.cell)

    at_loadshared : System
    at_loadshared = goto (visible guarded_state) i (reading s.cell)

    unguarded : System
    unguarded =
        let u = ck_hp_set at_loadshared i none in
        record u { hazard = set_at u.hazard i none; buffer = set_at u.buffer i none }

    loading : Reach true true s at_loadshared
    loading =
        next i
          (next i
            (next i
              (next i (next i here (start_load pi)) (load_pointer {gc = false} (ground arith)))
              (set_hazard {gc = false} {q = s.cell} (ground arith) (buffer i)))
            (flush {h = some s.cell} (ground arith)))
          (recheck_same {gc = false} {q = s.cell} (ground arith) (λ o. ground arith) refl)

    cleared : Reach true true s unguarded
    cleared =
        next i
          (next i loading (overwrite_hazard {q = s.cell} refl (ground arith) (ground arith) none))
          (flush {h = none} (ground arith))
