-- ===== src/Examples/Cells.antt =====
-- Cells of shared.c, and the tables of pr.h.
use flua_ck.Base.{
  ℕ, ◌%◌, ◌^◌, arith, List, ◌≡◌, refl, true, false, none, some, [], ◌∷◌, ◌==◌, if◌then◌else◌,
}
use mathlib.Core.Option.{some-injective}
use flua_ck.Atomic.{
  ft_8, pr_add, pr_btc, pr_cas, ft_64, pr_faa, pr_fas, pr_load, pr_ops_list, pr_store, width,
}
use flua_ck.Atomic.Macros.{Features, ifdef, undefined, pr_op}
use flua_ck.Atomic.Tables.{contains, pr_op-contains}
use flua_ck.Cell.{
  CkPr, LuaTo, RcSharedPr, shared_pr_op, shared_pr_new, shared_pr_metatable, f_types,
}
use flua_ck.Cell.Laws.{CkPrLaws, LuaToLaws, word_unary, word_binary}
use flua_ck.Cell.New.{NewCell, shared_pr_new-NewCell}
use flua_ck.Cell.Effect.{LuaToBounds}
use flua_ck.Cell.Outcome.{PrOutcome, IsCell, shared_pr_op-PrOutcome}
use flua_ck.Cell.Pairs.{fetch-load}
use flua_ck.Cell.RoundTrip.{IsOpen}
use flua_ck.Examples.{empty_memory, empty_memory-IsFresh}
use flua_ck.Handle.{Object, World, check_cookie, checkcookie_of, checkcookie, put}
use flua_ck.Handle.Counted.{IsCounted}
use flua_ck.Value.{Value, string, lightuserdata, integer, number, SerdeType, serde_integer}

-- words that wrap around
abbrev pub words : CkPr
words = record {
  load = λ ft x. x;
  store = λ ft v. v;
  unary = λ op ft x. word_unary op (width ft) x;
  unary_zero = λ op ft x. (word_unary op (width ft) x == 0, word_unary op (width ft) x);
  binary = λ op ft x d. word_binary op (width ft) x d;
  faa = λ ft x d. (x, word_binary pr_add (width ft) x d);
  fas = λ ft x v. (x, v);
  cas = λ ft x old v. (x == old, if x == old then v else x);
  cas_value = λ ft x old v. (x == old, x, if x == old then v else x);
  bit = λ op ft x b. (false, x);
}

pub words_laws : CkPrLaws words
words_laws = record {
  load_law = λ ft x. refl;
  store_law = λ ft v. refl;
  unary_law = λ op ft x word small. refl;
  unary_zero_law = λ op ft x word small. refl;
  binary_law = λ op ft x d word small fits. refl;
  faa_law = λ ft x d. refl;
  fas_law = λ ft x v. refl;
  cas_law = λ ft x old v. refl;
  cas_value_law = λ ft x old v. refl;
}

abbrev pattern : Value → ℕ
pattern (lightuserdata p) = p
pattern (integer n) = n
pattern (number n) = n
pattern _ = 0

abbrev bytes_of : Value → List ℕ
bytes_of (string s) = s
bytes_of _ = []

abbrev pub conversions : LuaTo
conversions = record {
  lua_touserdata = pattern;
  lua_tointeger = pattern;
  lua_tonumber = pattern;
  lua_checkinteger = λ v. some (pattern v);
  lua_tolstring = bytes_of;
}

conversions_laws : LuaToLaws conversions
conversions_laws = record {
  touserdata_law = λ p. refl;
  tointeger_law = λ n. refl;
  tonumber_law = λ n. refl;
}

-- an x86-64 build, where Concurrency Kit has no `double` but for its patterns
abbrev features : Features
features op ft = true

pr_op_example : pr_op features pr_btc ft_8 ≡ (
    if contains (pr_ops_list ft_8) pr_btc then ifdef (features pr_btc ft_8) pr_btc else undefined)
pr_op_example = pr_op-contains features pr_btc ft_8

-- a cell at address 5 that userdata 0 holds
abbrev cell_world : ℕ → SerdeType → World RcSharedPr
cell_world bits type = record {
  mem = empty_memory;
  objects =
      put (λ p. none) 5 (some (record { value = record { bits = bits; type = type }; refs = 1 }));
  handles = record { metatable = shared_pr_metatable; cookie = some 5 } ∷ [];
}

abbrev cell_object : ℕ → SerdeType → Object RcSharedPr
cell_object bits type = record { value = record { bits = bits; type = type }; refs = 1 }

cell-IsOpen :
    (bits : ℕ) (type : SerdeType) → IsOpen 0 5 (cell_world bits type) (cell_object bits type)
unfolding checkcookie checkcookie_of check_cookie
cell-IsOpen bits type = record { checked = refl; there = refl }

-- conversions to 64 bits
abbrev conversions64 : LuaTo
conversions64 = record {
  lua_touserdata = λ v. pattern v % 2 ^ 64;
  lua_tointeger = λ v. pattern v % 2 ^ 64;
  lua_tonumber = λ v. pattern v % 2 ^ 64;
  lua_checkinteger = λ v. some (pattern v % 2 ^ 64);
  lua_tolstring = bytes_of;
}

conversions64-LuaToBounds : LuaToBounds conversions64
conversions64-LuaToBounds = record {
  touserdata_small = λ v. omega arith;
  tointeger_small = λ v. omega arith;
  tonumber_small = λ v. omega arith;
  same_integer = λ v {n} e. some-injective (pattern v % 2 ^ 64) n e;
}

twelve-IsCell : IsCell (cell_object 12 serde_integer).value
unfolding f_types width
twelve-IsCell ft h = rw (← some-injective ft_64 ft h) (omega arith)

shared_pr_op_example :
    PrOutcome words conversions64 pr_cas
      (integer 12 ∷ integer 5 ∷ [])
      (cell_world 12 serde_integer)
      5
      (cell_object 12 serde_integer)
      (shared_pr_op words conversions64 pr_cas 0
        (integer 12 ∷ integer 5 ∷ [])
        (cell_world 12 serde_integer))
unfolding cell-IsOpen
shared_pr_op_example =
    shared_pr_op-PrOutcome words_laws conversions64-LuaToBounds pr_cas 0
      (integer 12 ∷ integer 5 ∷ []) (cell_world 12 serde_integer) 5 (cell_object 12 serde_integer)
      (cell-IsOpen 12 serde_integer).checked refl twelve-IsCell

fetch-load_example :
    ((shared_pr_op words conversions pr_faa 0 (integer 3 ∷ []) (cell_world 12 serde_integer)).0
      ≡ (shared_pr_op words conversions pr_load 0 [] (cell_world 12 serde_integer)).0)
    × ((shared_pr_op words conversions pr_faa 0 (integer 3 ∷ []) (cell_world 12 serde_integer)).1
        ≡ (shared_pr_op words conversions pr_add 0
            (integer 3 ∷ [])
            (cell_world 12 serde_integer)).1)
    × ((shared_pr_op words conversions pr_fas 0 (integer 3 ∷ []) (cell_world 12 serde_integer)).0
        ≡ (shared_pr_op words conversions pr_load 0 [] (cell_world 12 serde_integer)).0)
    × ((shared_pr_op words conversions pr_fas 0 (integer 3 ∷ []) (cell_world 12 serde_integer)).1
        ≡ (shared_pr_op words conversions pr_store 0
            (integer 3 ∷ [])
            (cell_world 12 serde_integer)).1)
fetch-load_example =
    fetch-load words_laws conversions 0 (cell_world 12 serde_integer) (integer 3) []

abbrev empty_world : World RcSharedPr
empty_world = record { mem = empty_memory; objects = λ p. none; handles = [] }

empty_world-IsCounted : IsCounted empty_world
empty_world-IsCounted p = refl

shared_pr_new_example :
    NewCell words conversions
      (number 4)
      empty_world
      (shared_pr_new conversions (number 4 ∷ []) empty_world)
shared_pr_new_example =
    shared_pr_new-NewCell words_laws conversions_laws (number 4) [] empty_world empty_memory-IsFresh
      refl empty_world-IsCounted
