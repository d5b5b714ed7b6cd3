-- ===== src/Hazard/Invariant.antt =====
-- shared.c: what holds of a "shared.mut" cell between any two steps of its threads.
use flua_ck.Base.{ℕ, ◌≡◌, refl, ◌⊎◌, Bool, true, false, Option, none, some, List, arith, ◌==◌}
use flua_ck.Hazard.{
  Block, unused, freed, full, Pc, away, looping, fetched, guarded, reading, swapping, retiring,
  dropping, dropped, System, first,
}

abbrev pub is_full : Block → Bool
is_full unused = false
is_full freed = false
is_full (full bytes) = true

abbrev pub is_unused : Block → Bool
is_unused unused = true
is_unused _ = false

-- the block that only this thread may retire or make visible
abbrev pub owned : Pc → Option ℕ
owned (swapping q) = some q
owned (retiring q) = some q
owned _ = none

-- Nothing but the end of the last `__gc` is left to do.
abbrev pub is_over : Pc → Bool
is_over away = true
is_over dropped = true
is_over _ = false

abbrev Visible : System → ℕ → ℕ → Type 0
Visible s i q = (s.hazard i ≡ some q) × (s.buffer i ≡ none)

-- What a thread knows of shared memory at its place in the program.
abbrev pub Knows : System → ℕ → Pc → Type 0
Knows s i (guarded gc q) = (s.buffer i ≡ some (some q)) ⊎ Visible s i q
Knows s i (reading q) = Visible s i q × (is_full (s.block q) ≡ true)
Knows s i (dropping q) = Visible s i q × (is_full (s.block q) ≡ true) × (s.cell ≡ q)
Knows s i (swapping q) =
    (is_full (s.block q) ≡ true) × (s.retired q ≡ false) × ((s.cell == q) ≡ false)
Knows s i (retiring q) =
    (is_full (s.block q) ≡ true) × (s.retired q ≡ false) × ((s.cell == q) ≡ false)
Knows s i _ = Unit

-- a thread that ends the cell is alone
abbrev pub ends : Pc → Bool
ends (looping true) = true
ends (fetched true q) = true
ends (guarded true q) = true
ends (dropping q) = true
ends _ = false

pub record Inv (s : System) : Type 0 where
  pub current : s.alive ≡ true → (is_full (s.block s.cell) ≡ true) × (s.retired s.cell ≡ false)
  pub knows : (i : ℕ) → Knows s i (s.pc i)
  pub unique : (i j q : ℕ) → owned (s.pc i) ≡ some q → owned (s.pc j) ≡ some q → i ≡ j
  pub ending : (i j : ℕ) → ends (s.pc i) ≡ true → (i == j) ≡ false → s.pc j ≡ away
  pub over : s.alive ≡ false → (i : ℕ) → is_over (s.pc i) ≡ true
  pub untouched : (q : ℕ) → is_unused (s.block q) ≡ true → s.retired q ≡ false

pub Inv-first : (q : ℕ) (bytes : List ℕ) → Inv (first q bytes)
Inv-first q bytes = record {
  current = λ h. ground arith;
  knows = λ i. ground arith;
  unique = λ i j q a b. ground arith;
  ending = λ i j e n. ground arith;
  over = λ h i. ground arith;
  untouched = λ q h. refl;
}
