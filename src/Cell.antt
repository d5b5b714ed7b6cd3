-- ===== src/Cell.antt =====
-- shared.c: "shared.pr" cells, a word of shared memory with Concurrency Kit's atomic operations on it.
pub mod Laws
pub mod Effect
pub mod Outcome
pub mod Performs
pub mod Pairs
pub mod RoundTrip
pub mod New
pub mod Makes
use Prim.Native.String.{String}
use flua_ck.Base.{
  ℕ, zero, suc, Bool, true, false, not, Option, none, some, List, [], ◌∷◌, ◌==◌, if◌then◌else◌,
}
use flua_ck.Atomic.{
  PrOp, OpClass, op_class, FeatureType, ft_8, ft_64, ft_double, ft_ptr, unary_load, unary_store,
  unary_arithmetic, unary_arithmetic_z, unary_bitwise, binary_arithmetic, binary_bitwise,
  binary_faa, binary_fas, ternary_cas, ternary_cas_value, bit_rmw,
}
use flua_ck.Handle.{
  Object, World, Answer, values, raises, type_error, internal_error, fatal_error, put, create,
  retain, release, with_object, checkcookieuv,
}
use flua_ck.Marshal.{from_malloc}
use flua_ck.Memory.{Mem, malloc, free}
use flua_ck.Serdebuf.{enomem}
use flua_ck.Serialize.{bool_byte}
use flua_ck.Value.{
  Value, nil, boolean, lightuserdata, integer, number, SerdeType, serde_boolean,
  serde_lightuserdata, serde_integer, serde_number, serde_type,
}

-- The conversions of liblua, to 64-bit patterns, or to bytes, which are none where lua_tolstring
-- answers NULL. `lua_checkinteger` is luaL_checkinteger, and answers none where it raises.
pub record LuaTo : Type 0 where
  pub lua_touserdata : Value → ℕ
  pub lua_tointeger : Value → ℕ
  pub lua_tonumber : Value → ℕ
  pub lua_checkinteger : Value → Option ℕ
  pub lua_tolstring : Value → List ℕ

-- The functions ck_pr_<OP>_<CKT>, by the class of the operation, on the word that `p` points to. The
-- new word comes last in each result, after what the function returns.
pub record CkPr : Type 0 where
  pub load : FeatureType → ℕ → ℕ
  pub store : FeatureType → ℕ → ℕ
  pub unary : PrOp → FeatureType → ℕ → ℕ
  pub unary_zero : PrOp → FeatureType → ℕ → Bool × ℕ
  pub binary : PrOp → FeatureType → ℕ → ℕ → ℕ
  pub faa : FeatureType → ℕ → ℕ → ℕ × ℕ
  pub fas : FeatureType → ℕ → ℕ → ℕ × ℕ
  pub cas : FeatureType → ℕ → ℕ → ℕ → Bool × ℕ
  pub cas_value : FeatureType → ℕ → ℕ → ℕ → Bool × ℕ × ℕ
  pub bit : PrOp → FeatureType → ℕ → ℕ → Bool × ℕ

-- `bits` is the pattern in the member of the union that belongs to `type`.
pub record RcSharedPr : Type 0 where
  pub bits : ℕ
  pub type : SerdeType

abbrev pub shared_pr_metatable : String
shared_pr_metatable = "shared.pr"

abbrev pub sizeof_rcsharedpr : ℕ
sizeof_rcsharedpr = 24

-- SERDE_F_TYPES_LIST, with the feature type that SERDE_<ST>_T gives each type
unfoldable pub f_types : SerdeType → Option FeatureType
f_types serde_boolean = some ft_8
f_types serde_lightuserdata = some ft_ptr
f_types serde_integer = some ft_64
f_types serde_number = some ft_double
f_types _ = none

-- SERDE_F_BITWISE_TYPES_LIST
unfoldable pub f_bitwise_types : SerdeType → Option FeatureType
f_bitwise_types serde_boolean = some ft_8
f_bitwise_types serde_lightuserdata = some ft_ptr
f_bitwise_types serde_integer = some ft_64
f_bitwise_types _ = none

-- SERDE_F_BITRMW_TYPES_LIST
unfoldable pub f_bitrmw_types : SerdeType → Option FeatureType
f_bitrmw_types serde_lightuserdata = some ft_ptr
f_bitrmw_types serde_integer = some ft_64
f_bitrmw_types _ = none

-- SERDE_PR_<CLASS>_LIST: the cases of the switch on the cell's type
unfoldable pub class_types : OpClass → SerdeType → Option FeatureType
class_types unary_arithmetic_z = f_bitwise_types
class_types unary_bitwise = f_bitwise_types
class_types binary_bitwise = f_bitwise_types
class_types bit_rmw = f_bitrmw_types
class_types _ = f_types

-- lua_toboolean(3)
unfoldable pub lua_toboolean : Value → Bool
lua_toboolean nil = false
lua_toboolean (boolean b) = b
lua_toboolean _ = true

-- lua_to<TO>; a missing argument converts as nil does.
unfoldable pub lua_to : LuaTo → SerdeType → Value → ℕ
lua_to to serde_boolean v = bool_byte (lua_toboolean v)
lua_to to serde_lightuserdata v = to.lua_touserdata v
lua_to to serde_integer v = to.lua_tointeger v
lua_to to serde_number v = to.lua_tonumber v
lua_to to _ v = 0

-- lua_push<PUSH>
unfoldable pub lua_push : SerdeType → ℕ → Value
lua_push serde_boolean x = boolean (not (x == 0))
lua_push serde_lightuserdata x = lightuserdata x
lua_push serde_integer x = integer x
lua_push serde_number x = number x
lua_push _ x = nil

-- `args` are the arguments from index 2 on.
abbrev pub arg : ℕ → List Value → Value
arg n [] = nil
arg zero (v ∷ vs) = v
arg (suc n) (v ∷ vs) = arg n vs

abbrev at_least_one : List Value → Bool
at_least_one [] = false
at_least_one (v ∷ vs) = true

abbrev at_least_two : List Value → Bool
at_least_two [] = false
at_least_two (v ∷ vs) = at_least_one vs

abbrev is_some : Option ℕ → Bool
is_some none = false
is_some (some x) = true

-- SERDE_PR_<CLASS>_CHECKS(2): false where it raises
unfoldable pub class_checks : LuaTo → OpClass → List Value → Bool
class_checks to unary_store args = at_least_one args
class_checks to binary_arithmetic args = at_least_one args
class_checks to binary_bitwise args = at_least_one args
class_checks to binary_faa args = at_least_one args
class_checks to binary_fas args = at_least_one args
class_checks to ternary_cas args = at_least_two args
class_checks to ternary_cas_value args = at_least_two args
class_checks to bit_rmw args = is_some (to.lua_checkinteger (arg 0 args))
class_checks to _ args = true

set_bits : World RcSharedPr → ℕ → Object RcSharedPr → List Value × ℕ → Answer × World RcSharedPr
set_bits w p o (vs, x) = (
  values vs,
  record w {
    objects = put w.objects p (some (record o { value = record (o.value) { bits = x } }));
  },
)

module _ (pr : CkPr) (to : LuaTo) where
  -- SERDE_PR_<CLASS>_IMPL(2, ...), with PUSH and TO: the values that are returned, and the new word
  unfoldable pub class_impl :
      OpClass → PrOp → FeatureType → (ℕ → Value) → (Value → ℕ) → List Value → ℕ → List Value × ℕ
  class_impl unary_load op ft push conv args x = (push (pr.load ft x) ∷ [], x)
  class_impl unary_store op ft push conv args x = ([], pr.store ft (conv (arg 0 args)))
  class_impl unary_arithmetic op ft push conv args x = ([], pr.unary op ft x)
  class_impl unary_bitwise op ft push conv args x = ([], pr.unary op ft x)
  class_impl unary_arithmetic_z op ft push conv args x =
      let (z, y) = pr.unary_zero op ft x in (boolean z ∷ [], y)
  class_impl binary_arithmetic op ft push conv args x = ([], pr.binary op ft x (conv (arg 0 args)))
  class_impl binary_bitwise op ft push conv args x = ([], pr.binary op ft x (conv (arg 0 args)))
  class_impl binary_faa op ft push conv args x =
      let (old, y) = pr.faa ft x (conv (arg 0 args)) in (push old ∷ [], y)
  class_impl binary_fas op ft push conv args x =
      let (old, y) = pr.fas ft x (conv (arg 0 args)) in (push old ∷ [], y)
  class_impl ternary_cas op ft push conv args x =
      let (ok, y) = pr.cas ft x (conv (arg 0 args)) (conv (arg 1 args)) in (boolean ok ∷ [], y)
  class_impl ternary_cas_value op ft push conv args x =
      let (ok, original, y) = pr.cas_value ft x (conv (arg 0 args)) (conv (arg 1 args)) in
      (boolean ok ∷ push original ∷ [], y)
  class_impl bit_rmw op ft push conv args x =
      let (old, y) = pr.bit op ft x (to.lua_tointeger (arg 0 args)) in (boolean old ∷ [], y)

  -- the switch on the cell's type
  pr_switch :
      PrOp
      → List Value
      → World RcSharedPr
      → ℕ
      → Object RcSharedPr
      → Option FeatureType
      → Answer × World RcSharedPr
  unfolding set_bits
  pr_switch op args w p o none = (raises internal_error, w)
  pr_switch op args w p o (some ft) = set_bits w p o (
      class_impl (op_class op) op ft (lua_push o.value.type) (lua_to to o.value.type) args
        o.value.bits)

  pr_checked :
      PrOp
      → List Value
      → World RcSharedPr
      → ℕ
      → Object RcSharedPr
      → Bool
      → Answer × World RcSharedPr
  unfolding pr_switch
  pr_checked op args w p o false = (raises type_error, w)
  pr_checked op args w p o true = pr_switch op args w p o (class_types (op_class op) o.value.type)

  -- SERDE_PR_OP: l_ck_shared_pr_<OP><VARIANT>
  unfoldable pub shared_pr_op : PrOp → ℕ → List Value → World RcSharedPr → Answer × World RcSharedPr
  unfolding pr_checked
  shared_pr_op op i args w =
      with_object shared_pr_metatable i w
        (λ p o. pr_checked op args w p o (class_checks to (op_class op) args))

module _ (to : LuaTo) where
  -- the switch on the type of the argument
  typed_cell : Value → ℕ → World RcSharedPr → Option FeatureType → Answer × World RcSharedPr
  typed_cell v p w none = (raises type_error, record w { mem = free (some p) w.mem })
  typed_cell v p w (some ft) =
      create p (record { bits = lua_to to (serde_type v) v; type = serde_type v })
        shared_pr_metatable w

  made_cell : Value → World RcSharedPr → Option ℕ × Mem → Answer × World RcSharedPr
  unfolding typed_cell
  made_cell v w (none, m) = (raises (fatal_error from_malloc enomem), record w { mem = m })
  made_cell v w (some p, m) = typed_cell v p (record w { mem = m }) (f_types (serde_type v))

  unfoldable pub shared_pr_new : List Value → World RcSharedPr → Answer × World RcSharedPr
  unfolding made_cell
  shared_pr_new [] w = (raises type_error, w)
  shared_pr_new (v ∷ vs) w = made_cell v w (malloc sizeof_rcsharedpr w.mem)

unfoldable pub shared_pr_retain : ℕ → World RcSharedPr → Answer × World RcSharedPr
shared_pr_retain p w = retain shared_pr_metatable p w

unfoldable pub shared_pr_gc : ℕ → World RcSharedPr → Answer × World RcSharedPr
shared_pr_gc i w = release (λ p v m. m) true shared_pr_metatable i w

unfoldable pub shared_pr_cookie : ℕ → World RcSharedPr → Answer
shared_pr_cookie i w = checkcookieuv shared_pr_metatable i w

-- `ck_pr_rfo` prefetches the cell's cache line, and changes nothing.
unfoldable pub shared_pr_rfo : ℕ → World RcSharedPr → Answer × World RcSharedPr
shared_pr_rfo i w = with_object shared_pr_metatable i w (λ p o. (values [], w))
