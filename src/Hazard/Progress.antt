-- ===== src/Hazard/Progress.antt =====
-- shared.c: the loop of l_ck_shared_mut_load and l_ck_shared_mut_gc, by a thread that runs alone.
use flua_ck.Base.{
  ℕ, suc, ◌+◌, ◌≤◌, ◌≡◌, ◌≢◌, refl, inl, inr, Bool, true, false, Option, none, some, arith,
  Bool-cases, Option-cases, ap, sym, ◌∙◌, ◌==◌,
}
use flua_ck.Hazard.{
  Pc, looping, fetched, guarded, after_loop, System, Step, retain_cell, release_cell, start_load,
  start_gc, load_pointer, set_hazard, recheck_same, recheck_other, overwrite_hazard, read_block,
  clear_hazard, serialize_new, swap_pointer, retire_old, retire_last, clear_last, flush, reclaim,
}

abbrev pub in_loop : Pc → Bool
in_loop (looping gc) = true
in_loop (fetched gc q) = true
in_loop (guarded gc q) = true
in_loop _ = false

module _ {ordered nested : Bool} {i : ℕ} {s : System} where
  -- a step of the thread or of its store buffer, and not of Concurrency Kit, which may free blocks in
  -- between
  abbrev pub is_own : {t : System} → Step ordered nested i s t → Bool
  is_own (reclaim q r h) = false
  is_own _ = true

-- Thread `i` takes `n` steps of its own in the loop, in any order that its steps may have, while the other
-- threads stand still.
pub data Lone (ordered nested : Bool) (i : ℕ) (s : System) : ℕ → System → Type 0 where
  rest : Lone ordered nested i s 0 s
  step :
      {n : ℕ} {t u : System}
      → Lone ordered nested i s n t
      → in_loop (t.pc i) ≡ true
      → (st : Step ordered nested i t u) → is_own st ≡ true
      → Lone ordered nested i s (suc n) u
  aside :
      {n : ℕ} {t u : System}
      → Lone ordered nested i s n t
      → (st : Step ordered nested i t u) → is_own st ≡ false
      → Lone ordered nested i s n u

-- the steps that are left, by whether a store is buffered
abbrev steps_left : Pc → Option (Option ℕ) → ℕ
steps_left (looping gc) none = 4
steps_left (looping gc) (some h) = 5
steps_left (fetched gc q) none = 3
steps_left (fetched gc q) (some h) = 4
steps_left (guarded gc q) none = 1
steps_left (guarded gc q) (some h) = 2
steps_left _ b = 0

-- where a thread that runs alone may be: in the loop with the current pointer, or at its end
abbrev OnWay : Bool → ℕ → Pc → Type 0
OnWay gc c (looping g) = g ≡ gc
OnWay gc c (fetched g q) = (g ≡ gc) × (q ≡ c)
OnWay gc c (guarded g q) = (g ≡ gc) × (q ≡ c)
OnWay gc c p = p ≡ after_loop gc c

module _ {ordered nested : Bool} {i : ℕ} {s : System} where
  -- what a step of the loop needs; any other step is outside the loop
  abbrev Guard : {t : System} → Step ordered nested i s t → Type 0
  Guard (load_pointer {gc} a) = s.pc i ≡ looping gc
  Guard (set_hazard {gc} {q} a b) = (s.pc i ≡ fetched gc q) × (s.buffer i ≡ none)
  Guard (recheck_same {gc} {q} a b e) = (s.pc i ≡ guarded gc q) × (s.cell ≡ q)
  Guard (recheck_other {gc} {q} a b e) = (s.pc i ≡ guarded gc q) × (s.cell ≢ q)
  Guard (flush {h} a) = s.buffer i ≡ some h
  Guard (reclaim q r h) = Unit
  Guard _ = in_loop (s.pc i) ≡ false

  guard : {t : System} (st : Step ordered nested i s t) → Guard st
  guard (load_pointer a) = a
  guard (set_hazard a b) = (a, b)
  guard (recheck_same a b e) = (a, e)
  guard (recheck_other a b e) = (a, e)
  guard (flush a) = a
  guard (reclaim q r h) = tt
  guard (retain_cell j a b) = ground arith
  guard (release_cell j a n b) = ground arith
  guard (start_load a) = ground arith
  guard (start_gc alone a) = ground arith
  guard (overwrite_hazard n a b h) = ground arith
  guard (read_block a) = ground arith
  guard (clear_hazard a b) = ground arith
  guard (serialize_new q bytes a b) = ground arith
  guard (swap_pointer a) = ground arith
  guard (retire_old a) = ground arith
  guard (retire_last a) = ground arith
  guard (clear_last a b) = ground arith

  module _ (gc : Bool) (c : ℕ) where
    step-cell :
        {t : System} (st : Step ordered nested i s t)
        → in_loop (s.pc i) ≡ true
        → s.cell ≡ c
        → t.cell ≡ c
    step-cell (swap_pointer a) l e = ground arith
    step-cell st l e = e

    step-OnWay :
        {t : System} (st : Step ordered nested i s t)
        → in_loop (s.pc i) ≡ true
        → s.cell ≡ c
        → OnWay gc c (s.pc i)
        → OnWay gc c (t.pc i)
    step-OnWay (flush a) l e w = w
    step-OnWay (reclaim q r h) l e w = w
    step-OnWay st l e w = ground (arith, guard st)

    step-steps_left :
        {t : System} (st : Step ordered nested i s t)
        → is_own st ≡ true
        → in_loop (s.pc i) ≡ true
        → s.cell ≡ c
        → OnWay gc c (s.pc i)
        → suc (steps_left (t.pc i) (t.buffer i)) ≤ steps_left (s.pc i) (s.buffer i)
    step-steps_left (flush a) own l e w = ground arith
    step-steps_left (reclaim q r h) own l e w = cc
    step-steps_left st own l e w = ground (arith, guard st)

    -- Concurrency Kit's steps leave the thread and the pointer as they are.
    aside-same :
        {t : System} (st : Step ordered nested i s t)
        → is_own st ≡ false
        → (t.pc ≡ s.pc) × (t.cell ≡ s.cell) × (t.buffer ≡ s.buffer)
    aside-same (reclaim q r h) own = (refl, refl, refl)
    aside-same st own = cc

-- what holds of a thread that has taken `n` steps alone
record Progress (i : ℕ) (gc : Bool) (c : ℕ) (n : ℕ) (t : System) : Type 0 where
  cell : in_loop (t.pc i) ≡ true → t.cell ≡ c
  way : OnWay gc c (t.pc i)
  bound : n + steps_left (t.pc i) (t.buffer i) ≤ 5

Lone-Progress :
    {ordered nested : Bool} (i : ℕ) (gc : Bool) (s : System) {n : ℕ} {t : System}
    → s.pc i ≡ looping gc
    → Lone ordered nested i s n t
    → Progress i gc s.cell n t
Lone-Progress i gc s h rest = record {
  cell = λ l. refl;
  way = ground (arith, h);
  bound = ground (arith, h);
}
Lone-Progress i gc s h (step run l st own) =
    let p = Lone-Progress i gc s h run in
    record {
      cell = λ k. step-cell gc s.cell st l (p.cell l);
      way = step-OnWay gc s.cell st l (p.cell l) p.way;
      bound = omega (arith, p.bound, step-steps_left gc s.cell st own l (p.cell l) p.way);
    }
Lone-Progress i gc s h (aside run st own) =
    let p = Lone-Progress i gc s h run in
    let (pc, cell, buffer) = aside-same gc s.cell st own in
    record {
      cell = λ k. cell ∙ p.cell (ap (λ f. in_loop (f i)) (sym pc) ∙ k);
      way = rw pc p.way;
      bound = rw (pc, buffer) p.bound;
    }

-- A thread in the loop can always take a step.
can_step :
    (ordered nested : Bool) (i : ℕ) (t : System) (p : Pc)
    → t.pc i ≡ p
    → in_loop p ≡ true
    → (u : System) × (st : Step ordered nested i t u) × (is_own st ≡ true)
can_step ordered nested i t p at l = elim (Option-cases (t.buffer i)) [
  | inl empty ↦ unbuffered p at l empty
  | inr (h, b) ↦ (_, flush b, refl)
]
  where
    unbuffered :
        (p : Pc)
        → t.pc i ≡ p
        → in_loop p ≡ true
        → t.buffer i ≡ none
        → (u : System) × (st : Step ordered nested i t u) × (is_own st ≡ true)
    unbuffered (looping gc) at l empty = (_, load_pointer at, refl)
    unbuffered (fetched gc q) at l empty = (_, set_hazard at empty, refl)
    unbuffered (guarded gc q) at l empty = elim (Bool-cases (t.cell == q)) [
      | inl e ↦ (_, recheck_same at (λ o. empty) (ground (arith, e)), refl)
      | inr n ↦ (_, recheck_other at (λ o. empty) (λ e. ground (arith, n, e)), refl)
    ]
    unbuffered p at l empty = cc

-- The loop of `load` and of `__gc` ends as soon as no other thread interferes. From the start of any
-- round, whatever order a thread that runs alone takes its steps in: it takes at most five of its own,
-- a store to the hazard pointer that was still buffered included; while it is in the loop it can
-- take another one; and when it is not, it stands behind the loop with the current pointer.
-- Concurrency Kit may free blocks in between.
pub solo_loop :
    {ordered nested : Bool} (i : ℕ) (gc : Bool) (s : System) {n : ℕ} {t : System}
    → s.pc i ≡ looping gc
    → Lone ordered nested i s n t
    → (n ≤ 5)
      × (in_loop (t.pc i) ≡ true
          → (u : System) × (st : Step ordered nested i t u) × (is_own st ≡ true))
      × (in_loop (t.pc i) ≡ false → t.pc i ≡ after_loop gc s.cell)
solo_loop {ordered} {nested} i gc s {n} {t} h run =
    let p = Lone-Progress i gc s h run in
    (
      omega (arith, p.bound),
      λ l. can_step ordered nested i t (t.pc i) refl l,
      λ l. outside (t.pc i) l p.way,
    )
  where
    outside : (p : Pc) → in_loop p ≡ false → OnWay gc s.cell p → p ≡ after_loop gc s.cell
    outside p l w = ground (arith, w)
