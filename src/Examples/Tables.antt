-- ===== src/Examples/Tables.antt =====
-- The hash table of the cache with its memory, when the module is unloaded.
use flua_ck.Base.{ℕ, ◌-◌, ◌^◌, ◌≡◌, ◌||◌, none, List, [], ◌∷◌, if◌then◌else◌}
use flua_ck.Cache.{Cache}
use flua_ck.Cache.Lifetime.{CkEpoch, CkHtMemory, fini_serde_cache, contains, fini_serde_cache-cell}
use flua_ck.Examples.{empty_memory}
use flua_ck.Examples.Caches.{Table}

-- a table with one block
abbrev table_memory : CkHtMemory Table
table_memory = record { destroy = λ h. 0 ∷ [] }

-- the entries that wait, of all records
abbrev waiting : CkEpoch (List ℕ)
waiting = record { call = λ r entry e. entry ∷ e; reclaim = λ r e. (e, []); unregister = λ r e. e }

abbrev first_cache : Cache Table
first_cache = record { blocks = 1 ∷ 2 ∷ []; types = λ k. none; mem = empty_memory; registry = [] }

fini_serde_cache-cell_example :
    ((fini_serde_cache waiting 9 table_memory first_cache (5 ∷ [])).0 ≡ 2 ^ 32 - 1)
    × ((fini_serde_cache waiting 9 table_memory first_cache (5 ∷ [])).1.mem.cell 2 ≡ (
        if contains (1 ∷ 2 ∷ []) 2 || contains (5 ∷ []) 2 || contains (0 ∷ []) 2
        then none
        else empty_memory.cell 2))
fini_serde_cache-cell_example = fini_serde_cache-cell waiting 9 table_memory first_cache (5 ∷ []) 2
