-- ===== src/Hazard/Kept.antt =====
-- shared.c: a step of any thread keeps what holds of a "shared.mut" cell.
use flua_ck.Base.{ℕ, ◌≡◌, refl, ◌≢◌, inl, inr, true, false, none, some, arith, ◌==◌, Bool-cases}
use flua_ck.Hazard.{
  System, Pc, away, idle, looping, fetched, guarded, reading, clearing, swapping, retiring,
  dropping, dropped, unused, freed, set_at, Step, retain_cell, release_cell, start_load, start_gc,
  load_pointer, set_hazard, recheck_same, recheck_other, overwrite_hazard, read_block, clear_hazard,
  serialize_new, swap_pointer, retire_old, retire_last, clear_last, flush, reclaim,
}
use flua_ck.Hazard.Invariant.{is_full, is_unused, owned, is_over, Knows, ends, Inv}

same : (i j : ℕ) → (i == j) ≡ true → i ≡ j
same i j e = ground arith

module _ {s : System} (i : ℕ) (inv : Inv s) where
  open inv use {current, knows, unique, ending, over, untouched}

  -- where the thread stands before its step
  abbrev Guard : {t : System} → Step true false i s t → Type 0
  Guard (retain_cell j a b) = s.pc i ≡ away
  Guard (release_cell j a n b) = s.pc i ≡ idle
  Guard (start_load a) = s.pc i ≡ idle
  Guard (start_gc alone a) = s.pc i ≡ idle
  Guard (load_pointer {gc} a) = s.pc i ≡ looping gc
  Guard (set_hazard {gc} {q} a b) = (s.pc i ≡ fetched gc q) × (s.buffer i ≡ none)
  Guard (recheck_same {gc} {q} a b c) = (s.pc i ≡ guarded gc q) × (s.buffer i ≡ none) × (s.cell ≡ q)
  Guard (recheck_other {gc} {q} a b c) = (s.pc i ≡ guarded gc q) × (s.buffer i ≡ none)
  Guard (overwrite_hazard n a b h) = false ≡ true
  Guard (read_block {q} a) = s.pc i ≡ reading q
  Guard (clear_hazard a b) = (s.pc i ≡ clearing) × (s.buffer i ≡ none)
  Guard (serialize_new q bytes a b) = (s.pc i ≡ idle) × (s.block q ≡ unused)
  Guard (swap_pointer {q} a) = s.pc i ≡ swapping q
  Guard (retire_old {q} a) = s.pc i ≡ retiring q
  Guard (retire_last {q} a) = s.pc i ≡ dropping q
  Guard (clear_last a b) = (s.pc i ≡ dropped) × (s.buffer i ≡ none)
  Guard (flush {h} a) = s.buffer i ≡ some h
  Guard (reclaim q a b) = s.retired q ≡ true

  guard : {t : System} (st : Step true false i s t) → Guard st
  guard (retain_cell j a b) = b
  guard (release_cell j a n b) = b
  guard (start_load a) = a
  guard (start_gc alone a) = a
  guard (load_pointer a) = a
  guard (set_hazard a b) = (a, b)
  guard (recheck_same a b c) = (a, b refl, c)
  guard (recheck_other a b c) = (a, b refl)
  guard (overwrite_hazard n a b h) = n
  guard (read_block a) = a
  guard (clear_hazard a b) = (a, b)
  guard (serialize_new q bytes a b) = (a, b)
  guard (swap_pointer a) = a
  guard (retire_old a) = a
  guard (retire_last a) = a
  guard (clear_last a b) = (a, b)
  guard (flush a) = a
  guard (reclaim q a b) = a

  Step-untouched :
      {t : System}
      → Step true false i s t
      → (q : ℕ) → is_unused (t.block q) ≡ true
      → t.retired q ≡ false
  Step-untouched (retain_cell j a b) q u = untouched q u
  Step-untouched (retire_old {q = p} e) q u = ground (arith, untouched q, knows i)
  Step-untouched (retire_last {q = p} e) q u = ground (arith, untouched q, knows i)
  Step-untouched st q u = ground (arith, untouched q)

  Step-current :
      {t : System}
      → Step true false i s t
      → t.alive ≡ true
      → (is_full (t.block t.cell) ≡ true) × (t.retired t.cell ≡ false)
  Step-current (swap_pointer {q = p} e) a = ground (arith, current a, knows i)
  Step-current (retire_old {q = p} e) a = ground (arith, current a, knows i)
  Step-current (serialize_new p bytes e u) a = ground (arith, current a)
  Step-current (reclaim p r h) a = ground (arith, current a)
  Step-current (retire_last {q = p} e) a = cc
  Step-current st a = ground (arith, guard st, current a)

  Step-over :
      {t : System} → Step true false i s t → t.alive ≡ false → (j : ℕ) → is_over (t.pc j) ≡ true
  Step-over (retire_last {q = p} e) a j = ground (arith, ending i j)
  Step-over (retain_cell k b c) a j = ground (arith, over a j, over a k)
  Step-over (release_cell k b n c) a j = ground (arith, over a j, over a k)
  Step-over st a j = ground (arith, guard st, over a j, over a i)

  Step-unique :
      {t : System}
      → Step true false i s t
      → (j k q : ℕ) → owned (t.pc j) ≡ some q
      → owned (t.pc k) ≡ some q
      → j ≡ k
  Step-unique (swap_pointer {q = p} e) j k q a b =
      ground (arith, unique j k q, knows j, knows k, knows i)
  Step-unique (serialize_new p bytes e u) j k q a b = ground (arith, unique j k q, knows j, knows k)
  Step-unique st j k q a b = ground (arith, guard st, unique j k q)

  Step-ending :
      {t : System}
      → Step true false i s t
      → (j k : ℕ) → ends (t.pc j) ≡ true
      → (j == k) ≡ false
      → t.pc k ≡ away
  Step-ending (retain_cell l b c) j k e n = ground (arith, ending j k, ending j l)
  Step-ending (start_gc alone b) j k e n = ground (arith, ending j k, alone k)
  Step-ending st j k e n = ground (arith, guard st, ending j k, ending j i)

  reclaimed :
      (q : ℕ)
      → s.retired q ≡ true
      → ((j : ℕ) → s.hazard j ≢ some q)
      → (j : ℕ) (p : Pc) → s.pc j ≡ p
      → Knows s j p
      → Knows (record s { block = set_at s.block q freed }) j p
  reclaimed q r h j p e k = ground (arith, h j, current)

  -- another thread still knows what it knew
  others :
      {t : System} (st : Step true false i s t) (j : ℕ)
      → (i == j) ≡ false
      → (p : Pc) → s.pc j ≡ p
      → Knows s j p
      → Knows t j p
  others (reclaim q r h) j n p e k = reclaimed q r h j p e k
  others (retire_old {q} a) j n p e k = ground (arith, unique i j q, knows i)
  others (retire_last a) j n p e k = ground (arith, ending i j)
  others (swap_pointer {q} a) j n p e k = ground (arith, unique i j q, knows i, ending j i)
  others (serialize_new q bytes a b) j n p e k = ground (arith)
  others st j n p e k = ground (arith)

  -- A step leaves the other threads where they are.
  elsewhere : {t : System} → Step true false i s t → (j : ℕ) → (i == j) ≡ false → t.pc j ≡ s.pc j
  elsewhere (flush a) j n = refl
  elsewhere st j n = ground arith

  over_here : s.alive ≡ false → is_over (s.pc i) ≡ true
  over_here a = over a i

  mine : {t : System} (st : Step true false i s t) → Knows t i (t.pc i)
  mine (swap_pointer {q} a) = ground (arith, knows i, current, over_here)
  mine (serialize_new q bytes a b) = ground (arith, untouched q, current, over_here)
  mine (reclaim q r h) = reclaimed q r h i (s.pc i) refl (knows i)
  mine (set_hazard a b) = ground (arith, knows i)
  mine (recheck_same {gc} a b c) = ground (arith, b refl, knows i, current, over_here)
  mine st = ground (arith, guard st, knows i, current)

  Step-Knows : {t : System} → Step true false i s t → (j : ℕ) → Knows t j (t.pc j)
  Step-Knows {t} st j = elim (Bool-cases (i == j)) [
    | inl e ↦ rw (← same i j e) (mine st)
    | inr n ↦ rw (elsewhere st j n) (others st j n (s.pc j) refl (knows j))
  ]

  pub Step-Inv : {t : System} → Step true false i s t → Inv t
  Step-Inv st = record {
    current = Step-current st;
    knows = Step-Knows st;
    unique = Step-unique st;
    ending = Step-ending st;
    over = Step-over st;
    untouched = Step-untouched st;
  }
