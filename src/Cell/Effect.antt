-- ===== src/Cell/Effect.antt =====
-- shared.c: what each method of "shared.pr" is to do, said operation by operation, from ck_pr(3) and the
-- lists of pr.h, and not from the classes that the code's macros sort the operations into.
use flua_ck.Base.{
  ℕ, ◌≡◌, ◌<◌, ◌^◌, Bool, true, false, Option, none, some, List, [], ◌∷◌, arith, ◌==◌,
  if◌then◌else◌, length, leb,
}
use flua_ck.Atomic.{
  PrOp, pr_add, pr_and, pr_btc, pr_btr, pr_bts, pr_cas, pr_cas_value, pr_dec, pr_dec_z, pr_faa,
  pr_fas, pr_inc, pr_inc_z, pr_load, pr_neg, pr_neg_z, pr_not, pr_or, pr_store, pr_sub, pr_xor,
  op_class, FeatureType, width, pr_ops_list, pr_ops_group1, pr_ops_group2, pr_ops_group3,
}
use flua_ck.Atomic.Tables.{contains}
use flua_ck.Cell.{
  CkPr, LuaTo, f_types, f_bitwise_types, f_bitrmw_types, class_types, class_checks, lua_to,
  lua_push, arg,
}
use flua_ck.Cell.Laws.{word_unary, word_binary, is_word}
use flua_ck.Value.{Value, boolean, SerdeType}

-- A method takes no argument, one, two, or the number of a bit.
pub data Takes : Type 0 where
  takes : ℕ → Takes
  takes_bit : Takes

abbrev pub arguments : PrOp → Takes
arguments pr_store = takes 1
arguments pr_add = takes 1
arguments pr_sub = takes 1
arguments pr_and = takes 1
arguments pr_or = takes 1
arguments pr_xor = takes 1
arguments pr_faa = takes 1
arguments pr_fas = takes 1
arguments pr_cas = takes 2
arguments pr_cas_value = takes 2
arguments pr_btc = takes_bit
arguments pr_btr = takes_bit
arguments pr_bts = takes_bit
arguments _ = takes 0

abbrev pub is_some : Option ℕ → Bool
is_some none = false
is_some (some n) = true

abbrev pub given : LuaTo → Takes → List Value → Bool
given to (takes n) args = leb n (length args)
given to takes_bit args = is_some (to.lua_checkinteger (arg 0 args))

-- the feature type of a cell, if pr.h lists the operation for it
abbrev pub available : Option FeatureType → PrOp → Option FeatureType
available none op = none
available (some ft) op = if contains (pr_ops_list ft) op then some ft else none

-- What is documented of the conversions: their results are 64-bit patterns, and luaL_checkinteger and
-- lua_tointeger agree.
pub record LuaToBounds (to : LuaTo) : Type 0 where
  pub touserdata_small : (v : Value) → to.lua_touserdata v < 2 ^ 64
  pub tointeger_small : (v : Value) → to.lua_tointeger v < 2 ^ 64
  pub tonumber_small : (v : Value) → to.lua_tonumber v < 2 ^ 64
  pub same_integer : (v : Value) {n : ℕ} → to.lua_checkinteger v ≡ some n → to.lua_tointeger v ≡ n

abbrev pub bit_number : Option ℕ → ℕ
bit_number none = 0
bit_number (some n) = n

module _ (pr : CkPr) (to : LuaTo) (t : SerdeType) (ft : FeatureType) where
  -- Words wrap around; what ck_pr makes of a `double` is its own.
  abbrev pub unary_word : PrOp → ℕ → ℕ
  unary_word op x = if is_word ft then word_unary op (width ft) x else pr.unary op ft x

  abbrev pub binary_word : PrOp → ℕ → Value → ℕ
  binary_word op x v =
      if is_word ft
      then word_binary op (width ft) x (lua_to to t v)
      else pr.binary op ft x (lua_to to t v)

  abbrev bit_effect : Bool × ℕ → List Value × ℕ
  bit_effect (old, y) = (boolean old ∷ [], y)

  -- The values that a method answers, and the new word. The bit operations are ck_pr's own, on the
  -- bit whose number is the argument. Where an argument is missing, no method gets here.
  abbrev pub effect : PrOp → List Value → ℕ → List Value × ℕ
  effect pr_load args x = (lua_push t x ∷ [], x)
  effect pr_store (v ∷ vs) x = ([], lua_to to t v)
  effect pr_inc args x = ([], unary_word pr_inc x)
  effect pr_dec args x = ([], unary_word pr_dec x)
  effect pr_neg args x = ([], unary_word pr_neg x)
  effect pr_not args x = ([], unary_word pr_not x)
  effect pr_inc_z args x = (boolean (unary_word pr_inc x == 0) ∷ [], unary_word pr_inc x)
  effect pr_dec_z args x = (boolean (unary_word pr_dec x == 0) ∷ [], unary_word pr_dec x)
  effect pr_neg_z args x = (boolean (unary_word pr_neg x == 0) ∷ [], unary_word pr_neg x)
  effect pr_add (v ∷ vs) x = ([], binary_word pr_add x v)
  effect pr_sub (v ∷ vs) x = ([], binary_word pr_sub x v)
  effect pr_and (v ∷ vs) x = ([], binary_word pr_and x v)
  effect pr_or (v ∷ vs) x = ([], binary_word pr_or x v)
  effect pr_xor (v ∷ vs) x = ([], binary_word pr_xor x v)
  effect pr_faa (v ∷ vs) x = (lua_push t x ∷ [], binary_word pr_add x v)
  effect pr_fas (v ∷ vs) x = (lua_push t x ∷ [], lua_to to t v)
  effect pr_cas (old ∷ new ∷ vs) x =
      (boolean (x == lua_to to t old) ∷ [], if x == lua_to to t old then lua_to to t new else x)
  effect pr_cas_value (old ∷ new ∷ vs) x = (
    boolean (x == lua_to to t old) ∷ lua_push t x ∷ [],
    if x == lua_to to t old then lua_to to t new else x,
  )
  effect pr_btc args x =
      bit_effect (pr.bit pr_btc ft x (bit_number (to.lua_checkinteger (arg 0 args))))
  effect pr_btr args x =
      bit_effect (pr.bit pr_btr ft x (bit_number (to.lua_checkinteger (arg 0 args))))
  effect pr_bts args x =
      bit_effect (pr.bit pr_bts ft x (bit_number (to.lua_checkinteger (arg 0 args))))
  effect op args x = ([], x)

-- The classes of the macros list what pr.h lists.
pub class_types-available :
    (op : PrOp) (t : SerdeType) → class_types (op_class op) t ≡ available (f_types t) op
unfolding op_class class_types f_types f_bitwise_types f_bitrmw_types pr_ops_list pr_ops_group1
    pr_ops_group2 pr_ops_group3
class_types-available op t = ground arith

-- Their checks ask for the arguments that the operation takes.
pub class_checks-given :
    (to : LuaTo) (op : PrOp) (args : List Value)
    → class_checks to (op_class op) args ≡ given to (arguments op) args
unfolding op_class class_checks
class_checks-given to op args = ground arith
