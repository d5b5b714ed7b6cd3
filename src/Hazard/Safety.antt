-- ===== src/Hazard/Safety.antt =====
-- shared.c: what the hazard pointers of "shared.mut" protect where each is visible before its thread's
-- next load.
use flua_ck.Base.{ℕ, ◌≡◌, Bool, true, false, List, arith}
use flua_ck.Hazard.{
  Pc, looping, guarded, reading, swapping, dropping, System, Reach, here, next, first,
}
use flua_ck.Hazard.Invariant.{is_full, is_over, Inv, Inv-first}
use flua_ck.Hazard.Kept.{Step-Inv}

Reach-Inv : {s t : System} → Inv s → Reach true false s t → Inv t
Reach-Inv inv here = inv
Reach-Inv inv (next i r st) = Step-Inv i (Reach-Inv inv r) st

-- A thread at this place reads or writes through the pointer `sharedp`, which the last `__gc` frees.
abbrev pub uses_shared : Pc → Bool
uses_shared (looping gc) = true
uses_shared (guarded gc q) = true
uses_shared (swapping q) = true
uses_shared _ = false

still_alive : {a : Bool} (p : Pc) → (a ≡ false → is_over p ≡ true) → uses_shared p ≡ true → a ≡ true
still_alive {a} p h u = ground arith

-- If every hazard pointer is visible before its thread's next load, and no `loadshared` runs code of
-- its thread that uses another "shared.mut" value, then in every order of the steps of any number of
-- threads that share a new cell: a thread at `loadshared` in `load` has a block that
-- was not freed, and so has a thread that frees the last one in `__gc`; and a thread that is about to access
-- `sharedp->serialized` does so before the last `__gc` has given the value away.
pub ordered_safe :
    {s : System} (q : ℕ) (bytes : List ℕ)
    → Reach true false (first q bytes) s
    → (i p : ℕ)
    → ((s.pc i ≡ reading p → is_full (s.block p) ≡ true)
        × (s.pc i ≡ dropping p → is_full (s.block p) ≡ true)
        × (uses_shared (s.pc i) ≡ true → s.alive ≡ true))
ordered_safe {s} q bytes r i p = (
  λ e. ground (arith, rw e at (knows i)),
  λ e. ground (arith, rw e at (knows i)),
  λ u. still_alive (s.pc i) (λ a. over a i) u,
)
  where
    open (Reach-Inv (Inv-first q bytes) r) use {knows, over}
