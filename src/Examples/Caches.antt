-- ===== src/Examples/Caches.antt =====
-- The serde cache of serde.c.
use flua_ck.Base.{
  ℕ, ◌≤◌, ◌<◌, ◌≡◌, refl, ap, ◌∙◌, ◌⊎◌, inl, inr, Bool, true, false, ◌&&◌, Option, none, some, List,
  [], ◌∷◌, ◌++◌, arith, ◌==◌, ==_self, Bool-cases, if◌then◌else◌,
}
use flua_ck.Base.Words.{le}
use mathlib.Core.Option.{some-injective}
use flua_ck.Cache.{CkHt, Cache, cache_serde, cache_type}
use flua_ck.Cache.Custom.{custom, find_type, load_custom_value}
use flua_ck.Cache.Custom.Reload.{reloaded_methods, kept_methods, load_custom_value-find_type}
use flua_ck.Cache.Entries.{CkHtLaws, IsCache}
use flua_ck.Cache.Insert.{Others, Done}
use flua_ck.Cache.Types.{cache_serde-Done, cache_type-load_type}
use flua_ck.Examples.{
  machine-IsMd, liblua, runtime, no_load_custom, empty_memory, empty_memory-IsFresh,
}
use flua_ck.Examples.Serdes.{
  greeter, greeter_bytes, encode-greeter, greeter-IsSmall, greeter-IsLoadable,
}
use flua_ck.Load.{failed, invalid_type, load_type}
use flua_ck.Value.{Value, nil}

unfoldable pub same : List ℕ → List ℕ → Bool
same [] [] = true
same [] (b ∷ bs) = false
same (a ∷ rest) [] = false
same (a ∷ rest) (b ∷ bs) = (a == b) && same rest bs

pub same_self : (k : List ℕ) → same k k ≡ true
unfolding same
same_self [] = refl
same_self (a ∷ k) = rw (==_self a, same_self k) refl

pub eq_of_test : (a b : ℕ) → (a == b) ≡ true → b ≡ a
eq_of_test a b h = ground arith

both : (a b : Bool) → (a && b) ≡ true → (a ≡ true) × (b ≡ true)
both a b h = ground arith

pub same_eq : (k k' : List ℕ) → same k k' ≡ true → k' ≡ k
unfolding same
same_eq [] [] h = refl
same_eq [] (b ∷ bs) h = cc
same_eq (a ∷ k) [] h = cc
same_eq (a ∷ k) (b ∷ k') h =
    let (p, q) = both _ _ h in
    ap (λ x. x ∷ k') (eq_of_test a b p) ∙ ap (λ x. a ∷ x) (same_eq k k' q)

-- a hash table as the function from keys to values
abbrev pub Table : Type 0
Table = List ℕ → Option ℕ

put_in : Table → List ℕ → ℕ → Option ℕ → Bool × Table
put_in h k i none = (true, λ k'. if same k k' then some i else h k')
put_in h k i (some j) = (false, h)

unfoldable pub function_table : CkHt Table
unfolding put_in
function_table = record { get = λ h k. h k; put = λ h k i. put_in h k i (h k) }

module _ (h : Table) (k : List ℕ) (i : ℕ) where
  put_in_same : (o : Option ℕ) → (put_in h k i o).0 ≡ true → (put_in h k i o).1 k ≡ some i
  unfolding put_in
  put_in_same none e = rw (same_self k) refl
  put_in_same (some j) e = cc

  put_in_kept :
      (o : Option ℕ)
      → h k ≡ o
      → (k' : List ℕ) (j : ℕ) → h k' ≡ some j
      → (put_in h k i o).1 k' ≡ some j
  unfolding put_in
  put_in_kept none e k' j g = elim (Bool-cases (same k k')) [
    | inl q ↦ absurd (let p = ap h (same_eq k k' q) in cc)
    | inr q ↦ rw q g
  ]
  put_in_kept (some x) e k' j g = g

  put_in_new :
      (o : Option ℕ) (k' : List ℕ) (j : ℕ)
      → (put_in h k i o).1 k' ≡ some j
      → (h k' ≡ some j) ⊎ (((put_in h k i o).0 ≡ true) × (k' ≡ k) × (j ≡ i))
  unfolding put_in
  put_in_new none k' j g = elim (Bool-cases (same k k')) [
    | inl q ↦ inr (refl, same_eq k k' q, some-injective j i (back (rw q at g)))
    | inr q ↦ inl (rw q at g)
  ]
    where
      back : {a b : ℕ} → some a ≡ some b → some b ≡ some a
      back e = cc
  put_in_new (some x) k' j g = inl g

pub table_laws : CkHtLaws function_table
unfolding function_table
table_laws = record {
  put_same = λ h k i e. put_in_same h k i (h k) e;
  put_kept = λ h k i k' j g. put_in_kept h k i (h k) refl k' j g;
  put_new = λ h k i k' j g. put_in_new h k i (h k) k' j g;
}

abbrev empty_cache : Cache Table
empty_cache = record { blocks = []; types = λ k. none; mem = empty_memory; registry = [] }

empty_cache-IsCache : IsCache function_table liblua empty_cache
unfolding function_table
empty_cache-IsCache = record {
  indexed = λ k i h. cc;
  known = tt;
  given = λ i b h. cc;
  fresh = empty_memory-IsFresh;
}

-- no other thread
abbrev pub alone : Cache Table → Cache Table
alone st = st

pub alone-Others : (b : ℕ) → Others table_laws liblua b alone
alone-Others b = record {
  keeps = λ st c. c;
  grown = λ st k i h. h;
  mine = λ st. refl;
  apart = λ st p. p;
  later = λ st. omega arith;
}

abbrev never : Value → Value → Bool
never a b = false

cache_serde_example :
    Done table_laws liblua empty_cache greeter greeter
      (cache_serde function_table never runtime alone greeter greeter empty_cache)
cache_serde_example =
    cache_serde-Done table_laws runtime machine-IsMd never (λ a b h. cc) alone greeter greeter
      greeter_bytes greeter_bytes empty_cache (alone-Others _) tt tt greeter-IsSmall greeter-IsSmall
      encode-greeter encode-greeter empty_cache-IsCache

cache_type_example :
    (120 < 119 → (cache_type 120 ≡ 129) × (cache_type 120 < 128))
    × (119 ≤ 120
        → 120 < 247
        → (bs : List ℕ) (env : Bool) (stack : List Value)
        → load_type liblua nil no_load_custom (no_load_custom 0) (cache_type 120) bs env stack
          ≡ failed invalid_type env)
    × (247 ≤ 120 → cache_type 120 < 9)
cache_type_example =
    cache_type-load_type liblua nil no_load_custom (no_load_custom 0) 120 (omega arith)

-- a thread that has met no type yet, and an array with the methods of one
abbrev one_type : Cache Table
one_type = record {
  blocks = 4 ∷ [];
  types = λ k. none;
  mem = record empty_memory {
    cell = λ p. if p == 4 then some (greeter_bytes ++ greeter_bytes) else none;
  };
  registry = [];
}

abbrev to_nil : Value → List ℕ → Option Value
to_nil de bytes = some nil

load_custom_value_example :
    (load_custom_value runtime to_nil (λ n. true) 9 (le 8 2 ++ (1 ∷ 2 ∷ 3 ∷ [])) one_type ≡ (
      custom (1 ∷ 2 ∷ 3 ∷ []) nil (reloaded_methods runtime 9 greeter greeter),
      kept_methods runtime 9 greeter greeter one_type,
    ))
    × (load_custom_value runtime to_nil
          (λ n. true)
          9
          (le 8 2 ++ (1 ∷ 2 ∷ 3 ∷ []))
          (kept_methods runtime 9 greeter greeter one_type)
        ≡ (
          custom (1 ∷ 2 ∷ 3 ∷ []) nil (reloaded_methods runtime 9 greeter greeter),
          kept_methods runtime 9 greeter greeter one_type,
        ))
unfolding find_type
load_custom_value_example =
    load_custom_value-find_type runtime to_nil (λ n. true) 9 4 (1 ∷ 2 ∷ []) (3 ∷ []) greeter_bytes
      greeter_bytes greeter greeter nil one_type (omega arith) refl refl refl refl encode-greeter
      encode-greeter greeter-IsLoadable greeter-IsLoadable refl refl
