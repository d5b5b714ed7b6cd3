-- ===== src/Atomic/Tables.antt =====
-- pr.h: the lists of operations against the macros that they expand.
use flua_ck.Base.{ℕ, ◌≡◌, Bool, false, ◌||◌, List, [], ◌∷◌, ◌==◌, arith, if◌then◌else◌}
use flua_ck.Atomic.{
  PrOp, FeatureType, pr_ops_list, pr_ops_group1, pr_ops_group2, pr_ops_group3, pr_add, pr_and,
  pr_btc, pr_btr, pr_bts, pr_cas, pr_cas_value, pr_dec, pr_dec_z, pr_faa, pr_fas, pr_inc, pr_inc_z,
  pr_load, pr_neg, pr_neg_z, pr_not, pr_or, pr_store, pr_sub, pr_xor,
}
use flua_ck.Atomic.Macros.{
  Features, undefined, ifdef, pr_op, pr_op_add, pr_op_and, pr_op_btc, pr_op_btr, pr_op_bts,
  pr_op_cas, pr_op_cas_value, pr_op_dec, pr_op_dec_z, pr_op_faa, pr_op_fas, pr_op_inc, pr_op_inc_z,
  pr_op_load, pr_op_neg, pr_op_neg_z, pr_op_not, pr_op_or, pr_op_store, pr_op_sub, pr_op_xor,
}

abbrev pub number_of : PrOp → ℕ
number_of pr_add = 0
number_of pr_and = 1
number_of pr_btc = 2
number_of pr_btr = 3
number_of pr_bts = 4
number_of pr_cas = 5
number_of pr_cas_value = 6
number_of pr_dec = 7
number_of pr_dec_z = 8
number_of pr_faa = 9
number_of pr_fas = 10
number_of pr_inc = 11
number_of pr_inc_z = 12
number_of pr_load = 13
number_of pr_neg = 14
number_of pr_neg_z = 15
number_of pr_not = 16
number_of pr_or = 17
number_of pr_store = 18
number_of pr_sub = 19
number_of pr_xor = 20

abbrev pub contains : List PrOp → PrOp → Bool
contains [] op = false
contains (o ∷ os) op = (number_of o == number_of op) || contains os op

-- For every feature type, the macros of the operations in its list are the ones that pr.h defines:
-- such a macro expands to the row of its own operation if Concurrency Kit has the operation and to
-- nothing otherwise; no macro of an operation outside the list exists.
pub pr_op-contains :
    (features : Features) (op : PrOp) (ft : FeatureType)
    → pr_op features op ft
      ≡ (if contains (pr_ops_list ft) op then ifdef (features op ft) op else undefined)
unfolding pr_op pr_ops_list pr_ops_group1 pr_ops_group2 pr_ops_group3 pr_op_add pr_op_and pr_op_btc
    pr_op_btr pr_op_bts pr_op_cas pr_op_cas_value pr_op_dec pr_op_dec_z pr_op_faa pr_op_fas
    pr_op_inc pr_op_inc_z pr_op_load pr_op_neg pr_op_neg_z pr_op_not pr_op_or pr_op_store pr_op_sub
    pr_op_xor
pr_op-contains features op ft = ground arith
