-- ===== src/Hazard/Unordered.antt =====
-- shared.c: `ck_hp_set` and the load after it, which no fence orders.
use flua_ck.Base.{ℕ, ◌≡◌, refl, false, none, some, List, arith, ◌==◌}
use flua_ck.Hazard.{
  freed, unused, idle, reading, System, Reach, here, next, goto, ck_hp_set, looping, fetched,
  guarded, start_load, load_pointer, set_hazard, recheck_same, serialize_new, swap_pointer,
  retire_old, reclaim,
}

-- Where the next load may overtake the store to the hazard pointer, the protocol fails: whenever two
-- threads are between methods, with no hazard pointer set and no store buffered, some order of
-- their steps leaves one of them at `loadshared` with a block that the other has freed.
pub unordered_unsafe :
    (i j p : ℕ) (bytes : List ℕ) (s : System)
    → (i == j) ≡ false
    → s.pc i ≡ idle
    → s.pc j ≡ idle
    → ((k : ℕ) → s.hazard k ≡ none)
    → ((k : ℕ) → s.buffer k ≡ none)
    → s.block p ≡ unused
    → (t : System) × Reach false false s t × (t.pc i ≡ reading s.cell) × (t.block s.cell ≡ freed)
unordered_unsafe i j p bytes s apart pi pj hazard buffer fresh = (
  _,
  next j
      (next j
        (next j (next j at_loadshared (serialize_new p bytes (ground arith) fresh))
          (swap_pointer {q = p} (ground arith)))
        (retire_old {q = s.cell} (ground arith)))
      (reclaim s.cell (ground arith) (λ k e. cc (hazard k, e))),
  ground arith,
  ground arith,
)
  where
    unguarded : System
    unguarded =
        goto
          (ck_hp_set
            (goto (goto (goto s i (looping false)) i (fetched false s.cell)) i
              (guarded false s.cell))
            i (some s.cell))
          i (reading s.cell)

    at_loadshared : Reach false false s unguarded
    at_loadshared =
        next i
          (next i (next i (next i here (start_load pi)) (load_pointer {gc = false} (ground arith)))
            (set_hazard {gc = false} {q = s.cell} (ground arith) (buffer i)))
          (recheck_same {gc = false} {q = s.cell} (ground arith) (λ o. cc) refl)
