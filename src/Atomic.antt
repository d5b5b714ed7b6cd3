-- ===== src/Atomic.antt =====
-- pr.h: the tables of Concurrency Kit's atomic operations, their classes and the C types they exist
-- for, and the macros PR_OP_<OP>_<FT> that ask whether this build's Concurrency Kit has one.
pub mod Macros
pub mod Pr128
pub mod Tables
use flua_ck.Base.{ℕ, Bool, true, false, List, [], ◌∷◌}

-- the operations with their variants, in the order of pr.h
pub data PrOp : Type 0 where
  pr_add pr_and pr_btc pr_btr pr_bts pr_cas pr_cas_value pr_dec pr_dec_z pr_faa pr_fas : PrOp
  pr_inc pr_inc_z pr_load pr_neg pr_neg_z pr_not pr_or pr_store pr_sub pr_xor : PrOp

pub data OpClass : Type 0 where
  unary_load unary_store unary_arithmetic unary_arithmetic_z unary_bitwise : OpClass
  binary_arithmetic binary_bitwise binary_faa binary_fas : OpClass
  ternary_cas ternary_cas_value bit_rmw : OpClass

unfoldable pub op_class : PrOp → OpClass
op_class pr_add = binary_arithmetic
op_class pr_and = binary_bitwise
op_class pr_btc = bit_rmw
op_class pr_btr = bit_rmw
op_class pr_bts = bit_rmw
op_class pr_cas = ternary_cas
op_class pr_cas_value = ternary_cas_value
op_class pr_dec = unary_arithmetic
op_class pr_dec_z = unary_arithmetic_z
op_class pr_faa = binary_faa
op_class pr_fas = binary_fas
op_class pr_inc = unary_arithmetic
op_class pr_inc_z = unary_arithmetic_z
op_class pr_load = unary_load
op_class pr_neg = unary_arithmetic
op_class pr_neg_z = unary_arithmetic_z
op_class pr_not = unary_bitwise
op_class pr_or = binary_bitwise
op_class pr_store = unary_store
op_class pr_sub = binary_arithmetic
op_class pr_xor = binary_bitwise

-- FT, the feature types
pub data FeatureType : Type 0 where
  ft_8 ft_16 ft_32 ft_64 ft_char ft_double ft_int ft_ptr ft_short ft_uint : FeatureType

-- the bits of the C type CT, and of the delta type DT, which has the same size
unfoldable pub width : FeatureType → ℕ
width ft_8 = 8
width ft_16 = 16
width ft_32 = 32
width ft_64 = 64
width ft_char = 8
width ft_double = 64
width ft_int = 32
width ft_ptr = 64
width ft_short = 16
width ft_uint = 32

unfoldable pub pr_ops_group1 : List PrOp
pr_ops_group1 =
    pr_add ∷ pr_cas ∷ pr_cas_value ∷ pr_dec ∷ pr_faa ∷ pr_fas ∷ pr_inc ∷ pr_load ∷ pr_neg ∷ pr_store
    ∷ pr_sub ∷ []

unfoldable pub pr_ops_group2 : List PrOp
pr_ops_group2 =
    pr_add ∷ pr_and ∷ pr_cas ∷ pr_cas_value ∷ pr_dec ∷ pr_dec_z ∷ pr_faa ∷ pr_fas ∷ pr_inc
    ∷ pr_inc_z ∷ pr_load ∷ pr_neg ∷ pr_neg_z ∷ pr_not ∷ pr_or ∷ pr_store ∷ pr_sub ∷ pr_xor ∷ []

unfoldable pub pr_ops_group3 : List PrOp
pr_ops_group3 =
    pr_add ∷ pr_and ∷ pr_btc ∷ pr_btr ∷ pr_bts ∷ pr_cas ∷ pr_cas_value ∷ pr_dec ∷ pr_dec_z ∷ pr_faa
    ∷ pr_fas ∷ pr_inc ∷ pr_inc_z ∷ pr_load ∷ pr_neg ∷ pr_neg_z ∷ pr_not ∷ pr_or ∷ pr_store ∷ pr_sub
    ∷ pr_xor ∷ []

-- PR_<FT>_OPS_LIST
unfoldable pub pr_ops_list : FeatureType → List PrOp
pr_ops_list ft_8 = pr_ops_group2
pr_ops_list ft_16 = pr_ops_group3
pr_ops_list ft_32 = pr_ops_group3
pr_ops_list ft_64 = pr_ops_group3
pr_ops_list ft_char = pr_ops_group2
pr_ops_list ft_double = pr_ops_group1
pr_ops_list ft_int = pr_ops_group3
pr_ops_list ft_ptr = pr_ops_group3
pr_ops_list ft_short = pr_ops_group2
pr_ops_list ft_uint = pr_ops_group3
