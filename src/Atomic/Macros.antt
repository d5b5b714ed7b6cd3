-- ===== src/Atomic/Macros.antt =====
-- pr.h: the macros PR_OP_<OP>_<FT>, one table for each operation. `features` says which of the
-- CK_F_PR_* macros are defined; a macro that pr.h gives no definition to is `undefined`, and its
-- use does not compile.
use flua_ck.Base.{Bool, true, false}
use flua_ck.Atomic.{
  PrOp, FeatureType, ft_8, ft_char, ft_double, ft_short, pr_add, pr_and, pr_btc, pr_btr, pr_bts,
  pr_cas, pr_cas_value, pr_dec, pr_dec_z, pr_faa, pr_fas, pr_inc, pr_inc_z, pr_load, pr_neg,
  pr_neg_z, pr_not, pr_or, pr_store, pr_sub, pr_xor,
}

abbrev pub Features : Type 0
Features = PrOp → FeatureType → Bool

-- What a macro expands to: the row of an operation, or PR_OP_UNIMPLEMENTED, which expands to nothing.
pub data Macro : Type 0 where
  implemented : PrOp → Macro
  unimplemented : Macro
  undefined : Macro

-- `#ifdef CK_F_PR_... #define ... #else #define ... #endif`
unfoldable pub ifdef : Bool → PrOp → Macro
ifdef true op = implemented op
ifdef false op = unimplemented

unfoldable pub pr_op_add : Features → FeatureType → Macro
pr_op_add features ft = ifdef (features pr_add ft) pr_add

unfoldable pub pr_op_and : Features → FeatureType → Macro
pr_op_and features ft_double = undefined
pr_op_and features ft = ifdef (features pr_and ft) pr_and

unfoldable pub pr_op_btc : Features → FeatureType → Macro
pr_op_btc features ft_8 = undefined
pr_op_btc features ft_char = undefined
pr_op_btc features ft_double = undefined
pr_op_btc features ft_short = undefined
pr_op_btc features ft = ifdef (features pr_btc ft) pr_btc

unfoldable pub pr_op_btr : Features → FeatureType → Macro
pr_op_btr features ft_8 = undefined
pr_op_btr features ft_char = undefined
pr_op_btr features ft_double = undefined
pr_op_btr features ft_short = undefined
pr_op_btr features ft = ifdef (features pr_btr ft) pr_btr

unfoldable pub pr_op_bts : Features → FeatureType → Macro
pr_op_bts features ft_8 = undefined
pr_op_bts features ft_char = undefined
pr_op_bts features ft_double = undefined
pr_op_bts features ft_short = undefined
pr_op_bts features ft = ifdef (features pr_bts ft) pr_bts

unfoldable pub pr_op_cas : Features → FeatureType → Macro
pr_op_cas features ft = ifdef (features pr_cas ft) pr_cas

unfoldable pub pr_op_cas_value : Features → FeatureType → Macro
pr_op_cas_value features ft = ifdef (features pr_cas_value ft) pr_cas_value

unfoldable pub pr_op_dec : Features → FeatureType → Macro
pr_op_dec features ft = ifdef (features pr_dec ft) pr_dec

unfoldable pub pr_op_dec_z : Features → FeatureType → Macro
pr_op_dec_z features ft_double = undefined
pr_op_dec_z features ft = ifdef (features pr_dec_z ft) pr_dec_z

unfoldable pub pr_op_faa : Features → FeatureType → Macro
pr_op_faa features ft = ifdef (features pr_faa ft) pr_faa

unfoldable pub pr_op_fas : Features → FeatureType → Macro
pr_op_fas features ft = ifdef (features pr_fas ft) pr_fas

unfoldable pub pr_op_inc : Features → FeatureType → Macro
pr_op_inc features ft = ifdef (features pr_inc ft) pr_inc

unfoldable pub pr_op_inc_z : Features → FeatureType → Macro
pr_op_inc_z features ft_double = undefined
pr_op_inc_z features ft = ifdef (features pr_inc_z ft) pr_inc_z

unfoldable pub pr_op_load : Features → FeatureType → Macro
pr_op_load features ft = ifdef (features pr_load ft) pr_load

unfoldable pub pr_op_neg : Features → FeatureType → Macro
pr_op_neg features ft = ifdef (features pr_neg ft) pr_neg

unfoldable pub pr_op_neg_z : Features → FeatureType → Macro
pr_op_neg_z features ft_double = undefined
pr_op_neg_z features ft = ifdef (features pr_neg_z ft) pr_neg_z

unfoldable pub pr_op_not : Features → FeatureType → Macro
pr_op_not features ft_double = undefined
pr_op_not features ft = ifdef (features pr_not ft) pr_not

unfoldable pub pr_op_or : Features → FeatureType → Macro
pr_op_or features ft_double = undefined
pr_op_or features ft = ifdef (features pr_or ft) pr_or

unfoldable pub pr_op_store : Features → FeatureType → Macro
pr_op_store features ft = ifdef (features pr_store ft) pr_store

unfoldable pub pr_op_sub : Features → FeatureType → Macro
pr_op_sub features ft = ifdef (features pr_sub ft) pr_sub

unfoldable pub pr_op_xor : Features → FeatureType → Macro
pr_op_xor features ft_double = undefined
pr_op_xor features ft = ifdef (features pr_xor ft) pr_xor

unfoldable pub pr_op : Features → PrOp → FeatureType → Macro
pr_op features pr_add = pr_op_add features
pr_op features pr_and = pr_op_and features
pr_op features pr_btc = pr_op_btc features
pr_op features pr_btr = pr_op_btr features
pr_op features pr_bts = pr_op_bts features
pr_op features pr_cas = pr_op_cas features
pr_op features pr_cas_value = pr_op_cas_value features
pr_op features pr_dec = pr_op_dec features
pr_op features pr_dec_z = pr_op_dec_z features
pr_op features pr_faa = pr_op_faa features
pr_op features pr_fas = pr_op_fas features
pr_op features pr_inc = pr_op_inc features
pr_op features pr_inc_z = pr_op_inc_z features
pr_op features pr_load = pr_op_load features
pr_op features pr_neg = pr_op_neg features
pr_op features pr_neg_z = pr_op_neg_z features
pr_op features pr_not = pr_op_not features
pr_op features pr_or = pr_op_or features
pr_op features pr_store = pr_op_store features
pr_op features pr_sub = pr_op_sub features
pr_op features pr_xor = pr_op_xor features
