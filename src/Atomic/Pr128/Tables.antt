-- ===== src/Atomic/Pr128/Tables.antt =====
-- pr.h: the lists of 128-bit operations against their macros and the sizes of the types.
use flua_ck.Base.{
  ℕ, ◌≡◌, Bool, true, false, ◌||◌, ◌&&◌, Option, none, some, List, [], ◌∷◌, ◌==◌, arith,
  if◌then◌else◌,
}
use flua_ck.Atomic.{FeatureType, ft_double}
use flua_ck.Atomic.Pr128.{
  Pr128Op, Elements, Features128, undefined, count, ifdef128, pr128_op, pr128_op_cas,
  pr128_op_cas_value, pr128_op_load, pr128_ops_group, pr128_ops_group5, pr128_ops_list,
  pr128_elements, pr128_cas, pr128_cas_value, pr128_load, n_2,
}

abbrev pub op_number : Pr128Op → ℕ
op_number pr128_cas = 0
op_number pr128_cas_value = 1
op_number pr128_load = 2

abbrev pub is_same : Pr128Op × Elements → Pr128Op × Elements → Bool
is_same (op, n) (op', n') = (op_number op == op_number op') && (count n == count n')

abbrev pub contains : List (Pr128Op × Elements) → Pr128Op × Elements → Bool
contains [] o = false
contains (x ∷ xs) o = is_same x o || contains xs o

-- the one macro that no list names
abbrev pub is_cas_value_2_double : Pr128Op → Elements → FeatureType → Bool
is_cas_value_2_double pr128_cas_value n_2 ft_double = true
is_cas_value_2_double op n ft = false

abbrev pub is_elements : Option Elements → Elements → Bool
is_elements none n = false
is_elements (some n) n' = count n == count n'

-- all operations, but cas alone for DOUBLE
abbrev pub has_op : FeatureType → Pr128Op → Bool
has_op ft_double pr128_cas = true
has_op ft_double op = false
has_op ft op = true

-- The list of a type names the operations on as many elements as the type has in
-- PR128_F_TYPES_LIST, all of them or, for DOUBLE, only cas. The macros of the operations in a list
-- exist, and CAS_VALUE_2_DOUBLE, which no list names, does; no other exists. A macro that exists
-- expands to the row of its own operation and number of elements, or to nothing.
pub pr128_op-contains :
    (features : Features128) (op : Pr128Op) (n : Elements) (ft : FeatureType)
    → (contains (pr128_ops_list ft) (op, n) ≡ (is_elements (pr128_elements ft) n && has_op ft op))
      × (pr128_op features op n ft ≡ (
          if contains (pr128_ops_list ft) (op, n) || is_cas_value_2_double op n ft
          then ifdef128 (features op ft n) op n
          else undefined))
unfolding pr128_op pr128_op_cas pr128_op_cas_value pr128_op_load pr128_ops_group pr128_ops_group5
    pr128_ops_list pr128_elements count
pr128_op-contains features op n ft = ground arith
