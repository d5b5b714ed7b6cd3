-- ===== src/Atomic/Pr128.antt =====
-- pr.h: the 128-bit operations. As in Macros, `features` says which of the CK_F_PR_* macros are
-- defined, here with a number of elements.
pub mod Tables
use flua_ck.Base.{ℕ, Bool, true, false, Option, none, some, List, [], ◌∷◌}
use flua_ck.Atomic.{
  FeatureType, ft_8, ft_16, ft_32, ft_64, ft_char, ft_double, ft_int, ft_ptr, ft_short, ft_uint,
}

-- the rows PR128_OP_CAS_N, PR128_OP_CAS_VALUE_N and PR128_OP_LOAD_N
pub data Pr128Op : Type 0 where
  pr128_cas pr128_cas_value pr128_load : Pr128Op

-- N
pub data Elements : Type 0 where
  n_2 n_4 n_8 n_16 : Elements

unfoldable pub count : Elements → ℕ
count n_2 = 2
count n_4 = 4
count n_8 = 8
count n_16 = 16

abbrev pub Features128 : Type 0
Features128 = Pr128Op → FeatureType → Elements → Bool

-- What PR128_OP_<OP>_<N>_<FT> expands to.
pub data Macro128 : Type 0 where
  row : Pr128Op → Elements → Macro128
  unimplemented : Macro128
  undefined : Macro128

unfoldable pub ifdef128 : Bool → Pr128Op → Elements → Macro128
ifdef128 true op n = row op n
ifdef128 false op n = unimplemented

unfoldable pub pr128_op_cas : Features128 → Elements → FeatureType → Macro128
pr128_op_cas f n_16 ft_8 = ifdef128 (f pr128_cas ft_8 n_16) pr128_cas n_16
pr128_op_cas f n_8 ft_16 = ifdef128 (f pr128_cas ft_16 n_8) pr128_cas n_8
pr128_op_cas f n_4 ft_32 = ifdef128 (f pr128_cas ft_32 n_4) pr128_cas n_4
pr128_op_cas f n_2 ft_64 = ifdef128 (f pr128_cas ft_64 n_2) pr128_cas n_2
pr128_op_cas f n_16 ft_char = ifdef128 (f pr128_cas ft_char n_16) pr128_cas n_16
pr128_op_cas f n_2 ft_double = ifdef128 (f pr128_cas ft_double n_2) pr128_cas n_2
pr128_op_cas f n_4 ft_int = ifdef128 (f pr128_cas ft_int n_4) pr128_cas n_4
pr128_op_cas f n_2 ft_ptr = ifdef128 (f pr128_cas ft_ptr n_2) pr128_cas n_2
pr128_op_cas f n_4 ft_uint = ifdef128 (f pr128_cas ft_uint n_4) pr128_cas n_4
pr128_op_cas f n ft = undefined

unfoldable pub pr128_op_cas_value : Features128 → Elements → FeatureType → Macro128
pr128_op_cas_value f n_16 ft_8 = ifdef128 (f pr128_cas_value ft_8 n_16) pr128_cas_value n_16
pr128_op_cas_value f n_8 ft_16 = ifdef128 (f pr128_cas_value ft_16 n_8) pr128_cas_value n_8
pr128_op_cas_value f n_4 ft_32 = ifdef128 (f pr128_cas_value ft_32 n_4) pr128_cas_value n_4
pr128_op_cas_value f n_2 ft_64 = ifdef128 (f pr128_cas_value ft_64 n_2) pr128_cas_value n_2
pr128_op_cas_value f n_16 ft_char = ifdef128 (f pr128_cas_value ft_char n_16) pr128_cas_value n_16
pr128_op_cas_value f n_2 ft_double = ifdef128 (f pr128_cas_value ft_double n_2) pr128_cas_value n_2
pr128_op_cas_value f n_4 ft_int = ifdef128 (f pr128_cas_value ft_int n_4) pr128_cas_value n_4
pr128_op_cas_value f n_2 ft_ptr = ifdef128 (f pr128_cas_value ft_ptr n_2) pr128_cas_value n_2
pr128_op_cas_value f n_4 ft_uint = ifdef128 (f pr128_cas_value ft_uint n_4) pr128_cas_value n_4
pr128_op_cas_value f n ft = undefined

unfoldable pub pr128_op_load : Features128 → Elements → FeatureType → Macro128
pr128_op_load f n_16 ft_8 = ifdef128 (f pr128_load ft_8 n_16) pr128_load n_16
pr128_op_load f n_8 ft_16 = ifdef128 (f pr128_load ft_16 n_8) pr128_load n_8
pr128_op_load f n_4 ft_32 = ifdef128 (f pr128_load ft_32 n_4) pr128_load n_4
pr128_op_load f n_2 ft_64 = ifdef128 (f pr128_load ft_64 n_2) pr128_load n_2
pr128_op_load f n_16 ft_char = ifdef128 (f pr128_load ft_char n_16) pr128_load n_16
pr128_op_load f n_4 ft_int = ifdef128 (f pr128_load ft_int n_4) pr128_load n_4
pr128_op_load f n_2 ft_ptr = ifdef128 (f pr128_load ft_ptr n_2) pr128_load n_2
pr128_op_load f n_4 ft_uint = ifdef128 (f pr128_load ft_uint n_4) pr128_load n_4
pr128_op_load f n ft = undefined

-- the macro that SERDE_PR128_VIEW_OP pastes together
unfoldable pub pr128_op : Features128 → Pr128Op → Elements → FeatureType → Macro128
pr128_op f pr128_cas n ft = pr128_op_cas f n ft
pr128_op f pr128_cas_value n ft = pr128_op_cas_value f n ft
pr128_op f pr128_load n ft = pr128_op_load f n ft

-- PR128_OPS_GROUP1 to PR128_OPS_GROUP4 differ in N only.
unfoldable pub pr128_ops_group : Elements → List (Pr128Op × Elements)
pr128_ops_group n = (pr128_cas, n) ∷ (pr128_cas_value, n) ∷ (pr128_load, n) ∷ []

unfoldable pub pr128_ops_group5 : List (Pr128Op × Elements)
pr128_ops_group5 = (pr128_cas, n_2) ∷ []

-- PR128_<FT>_OPS_LIST; there is none for SHORT.
unfoldable pub pr128_ops_list : FeatureType → List (Pr128Op × Elements)
pr128_ops_list ft_8 = pr128_ops_group n_16
pr128_ops_list ft_16 = pr128_ops_group n_8
pr128_ops_list ft_32 = pr128_ops_group n_4
pr128_ops_list ft_64 = pr128_ops_group n_2
pr128_ops_list ft_char = pr128_ops_group n_16
pr128_ops_list ft_double = pr128_ops_group5
pr128_ops_list ft_int = pr128_ops_group n_4
pr128_ops_list ft_ptr = pr128_ops_group n_2
pr128_ops_list ft_short = []
pr128_ops_list ft_uint = pr128_ops_group n_4

-- PR128_F_TYPES_LIST
unfoldable pub pr128_elements : FeatureType → Option Elements
pr128_elements ft_8 = some n_16
pr128_elements ft_16 = some n_8
pr128_elements ft_32 = some n_4
pr128_elements ft_64 = some n_2
pr128_elements ft_char = some n_16
pr128_elements ft_double = some n_2
pr128_elements ft_int = some n_4
pr128_elements ft_ptr = some n_2
pr128_elements ft_short = none
pr128_elements ft_uint = some n_4
