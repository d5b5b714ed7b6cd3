-- ===== src/Hazard.antt =====
-- shared.c: one "shared.mut" cell that several threads use at once, through
-- l_ck_shared_mut_load, l_ck_shared_mut_store and l_ck_shared_mut_gc, in any order of their steps.
-- A step is one access to shared memory. The hazard pointer that `ck_hp_set` stores stands in
-- `buffer` until it is visible to the others. `ordered` says whether it is visible before the thread's
-- next load, as on a machine without store buffers or after a fence. `nested` says whether `loadshared` may
-- run code of the same thread that uses another "shared.mut" value: the `__gc` of one that Lua's collector
-- finalizes, or a `deserialize` method. The thread has one hazard pointer for all of them.
pub mod Invariant
pub mod Kept
pub mod Safety
pub mod Progress
pub mod Unordered
pub mod Nested
use flua_ck.Base.{ℕ, ◌≡◌, ◌≢◌, Bool, true, false, Option, none, some, List, ◌==◌, if◌then◌else◌}

-- a `struct serialized` with the bytes that its `pointer` leads to
pub data Block : Type 0 where
  unused freed : Block
  full : List ℕ → Block

-- Where a thread is. The Boolean of the loop's states is true in l_ck_shared_mut_gc.
pub data Pc : Type 0 where
  -- no userdata of the cell; between two methods
  away idle : Pc
  -- `do`; after ck_pr_load_ptr; after ck_hp_set
  looping : Bool → Pc
  fetched guarded : Bool → ℕ → Pc
  -- after the loop: `loadshared`; then `ck_hp_set(record, 0, NULL)`
  reading : ℕ → Pc
  clearing : Pc
  -- after `serialize`; after ck_pr_fas_ptr, with the old pointer
  swapping retiring : ℕ → Pc
  -- after the loop: `ck_hp_free`; then `ck_hp_set(record, 0, NULL)`
  dropping : ℕ → Pc
  dropped : Pc

pub record System : Type 0 where
  -- `sharedp->serialized`
  pub cell : ℕ
  -- whether `ck_hp_free` by the last `__gc` is still to come
  pub alive : Bool
  pub block : ℕ → Block
  -- what `ck_hp_free` was called on
  pub retired : ℕ → Bool
  -- each thread's hazard pointer, as the others see it, and the store to it that they do not see yet
  pub hazard : ℕ → Option ℕ
  pub buffer : ℕ → Option (Option ℕ)
  pub pc : ℕ → Pc

abbrev pub set_at {ℓ} : {A : Type ℓ} → (ℕ → A) → ℕ → A → ℕ → A
set_at f i v j = if i == j then v else f j

abbrev pub goto : System → ℕ → Pc → System
goto s i p = record s { pc = set_at s.pc i p }

-- `ck_hp_set(record, 0, h)` by thread `i`
abbrev pub ck_hp_set : System → ℕ → Option ℕ → System
ck_hp_set s i h = record s { buffer = set_at s.buffer i (some h) }

-- `ck_hp_free` of `q`
abbrev pub ck_hp_free : System → ℕ → System
ck_hp_free s q = record s { retired = set_at s.retired q true }

-- Where the loop of `load`, or of `gc`, leads to.
abbrev pub after_loop : Bool → ℕ → Pc
after_loop false q = reading q
after_loop true q = dropping q

-- The thread has a userdata that is counted: it has one, and is not in its last `__gc`.
abbrev pub holds : Pc → Bool
holds away = false
holds (looping true) = false
holds (fetched true q) = false
holds (guarded true q) = false
holds (dropping q) = false
holds dropped = false
holds _ = true

-- A step of thread `i`.
pub data Step (ordered nested : Bool) (i : ℕ) (s : System) : System → Type 0 where
  -- l_ck_shared_mut_retain, on the cookie of a userdata that another thread has
  retain_cell :
      (j : ℕ) → holds (s.pc j) ≡ true → s.pc i ≡ away → Step ordered nested i s (goto s i idle)
  -- l_ck_shared_mut_gc where the count stays above 0
  release_cell :
      (j : ℕ)
      → holds (s.pc j) ≡ true
      → (i == j) ≡ false
      → s.pc i ≡ idle
      → Step ordered nested i s (goto s i away)
  start_load : s.pc i ≡ idle → Step ordered nested i s (goto s i (looping false))
  -- l_ck_shared_mut_gc where the count was 1: no other thread has a userdata
  start_gc :
      ((j : ℕ) → (i == j) ≡ false → s.pc j ≡ away)
      → s.pc i ≡ idle
      → Step ordered nested i s (goto s i (looping true))
  load_pointer :
      {gc : Bool} → s.pc i ≡ looping gc → Step ordered nested i s (goto s i (fetched gc s.cell))
  set_hazard :
      {gc : Bool} {q : ℕ}
      → s.pc i ≡ fetched gc q
      → s.buffer i ≡ none
      → Step ordered nested i s (ck_hp_set (goto s i (guarded gc q)) i (some q))
  -- the loop's condition
  recheck_same :
      {gc : Bool} {q : ℕ}
      → s.pc i ≡ guarded gc q
      → (ordered ≡ true → s.buffer i ≡ none)
      → s.cell ≡ q
      → Step ordered nested i s (goto s i (after_loop gc q))
  recheck_other :
      {gc : Bool} {q : ℕ}
      → s.pc i ≡ guarded gc q
      → (ordered ≡ true → s.buffer i ≡ none)
      → s.cell ≢ q
      → Step ordered nested i s (goto s i (looping gc))
  -- `loadshared(L, serialized->pointer)`
  -- while it runs, `ck_hp_set` on behalf of another value, with its pointer or with NULL
  overwrite_hazard :
      {q : ℕ}
      → nested ≡ true
      → s.pc i ≡ reading q
      → s.buffer i ≡ none
      → (h : Option ℕ) → Step ordered nested i s (ck_hp_set s i h)
  read_block : {q : ℕ} → s.pc i ≡ reading q → Step ordered nested i s (goto s i clearing)
  clear_hazard :
      s.pc i ≡ clearing
      → s.buffer i ≡ none
      → Step ordered nested i s (ck_hp_set (goto s i idle) i none)
  -- `serialize(L, 2, &newp)` in a block that was not given out before
  serialize_new :
      (q : ℕ) (bytes : List ℕ)
      → s.pc i ≡ idle
      → s.block q ≡ unused
      → Step ordered nested i s
          (record (goto s i (swapping q)) { block = set_at s.block q (full bytes) })
  swap_pointer :
      {q : ℕ}
      → s.pc i ≡ swapping q
      → Step ordered nested i s (record (goto s i (retiring s.cell)) { cell = q })
  retire_old :
      {q : ℕ} → s.pc i ≡ retiring q → Step ordered nested i s (ck_hp_free (goto s i idle) q)
  retire_last :
      {q : ℕ}
      → s.pc i ≡ dropping q
      → Step ordered nested i s (record (ck_hp_free (goto s i dropped) q) { alive = false })
  clear_last :
      s.pc i ≡ dropped
      → s.buffer i ≡ none
      → Step ordered nested i s (ck_hp_set (goto s i away) i none)
  -- the machine: a buffered store becomes visible
  flush :
      {h : Option ℕ}
      → s.buffer i ≡ some h
      → Step ordered nested i s
          (record s { hazard = set_at s.hazard i h; buffer = set_at s.buffer i none })
  -- Concurrency Kit, in any call: `freeserialized` on a block that was passed to `ck_hp_free` and is
  -- in no thread's visible hazard pointer
  reclaim :
      (q : ℕ)
      → s.retired q ≡ true
      → ((j : ℕ) → s.hazard j ≢ some q)
      → Step ordered nested i s (record s { block = set_at s.block q freed })

-- The cell just made, with the userdata of thread 0.
abbrev first_pc : ℕ → Pc
first_pc i = if i == 0 then idle else away

abbrev pub first : ℕ → List ℕ → System
first q bytes = record {
  cell = q;
  alive = true;
  block = set_at (λ p. unused) q (full bytes);
  retired = λ p. false;
  hazard = λ i. none;
  buffer = λ i. none;
  pc = first_pc;
}

pub data Reach (ordered nested : Bool) (s : System) : System → Type 0 where
  here : Reach ordered nested s s
  next :
      {t u : System} (i : ℕ)
      → Reach ordered nested s t
      → Step ordered nested i t u
      → Reach ordered nested s u
