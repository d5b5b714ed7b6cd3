-- ===== src/Value.antt =====
-- The Lua values that serde.h tells apart, and `serde_type` of serde.h.
use Prim.Native.String.{String}
use flua_ck.Base.{ℕ, Bool, true, false, ◌&&◌, List, not}

mutual
  -- A value as the code finds it on the Lua stack. A pointer, an integer and a number are their
  -- 64-bit patterns. A function has its prototype or C address and its upvalues. `table` is a
  -- table or a full userdata: the metafields `serialize` and `deserialize` (`nil` where they are
  -- missing) and the object's identity.
  pub data Value : Type 0 where
    nil : Value
    boolean : Bool → Value
    lightuserdata : ℕ → Value
    integer : ℕ → Value
    number : ℕ → Value
    string : List ℕ → Value
    lclosure : ℕ → Upvalues → Value
    cclosure : ℕ → Upvalues → Value
    table : Value → Value → ℕ → Value
    thread : ℕ → Value

  -- The upvalues in order, each with the name that lua_getupvalue(3) gives.
  pub data Upvalues : Type 0 where
    end : Upvalues
    upvalue : String → Value → Upvalues → Upvalues

-- `enum serde_type`
pub data SerdeType : Type 0 where
  serde_env serde_nil serde_boolean serde_lightuserdata serde_integer serde_number serde_string :
      SerdeType
  serde_cclosure serde_lclosure serde_custom serde_invalid serde_any : SerdeType

-- The `serde_type_code` of a type, an int8_t, as the byte that holds it.
unfoldable pub type_code : SerdeType → ℕ
type_code serde_env = 0
type_code serde_nil = 1
type_code serde_boolean = 2
type_code serde_lightuserdata = 3
type_code serde_integer = 4
type_code serde_number = 5
type_code serde_string = 6
type_code serde_cclosure = 7
type_code serde_lclosure = 8
type_code serde_custom = 9
type_code serde_invalid = 255
type_code serde_any = 254

abbrev pub is_nil : Value → Bool
is_nil nil = true
is_nil (boolean b) = false
is_nil (lightuserdata p) = false
is_nil (integer n) = false
is_nil (number n) = false
is_nil (string s) = false
is_nil (lclosure p us) = false
is_nil (cclosure f us) = false
is_nil (table ser de id) = false
is_nil (thread id) = false

unfoldable pub lua_isfunction : Value → Bool
lua_isfunction (lclosure p us) = true
lua_isfunction (cclosure f us) = true
lua_isfunction _ = false

-- `getserdemethods` answers 0 when both metafields are there.
unfoldable pub getserdemethods : Value → Value → Bool
getserdemethods ser de = not (is_nil ser) && not (is_nil de)

unfoldable pub custom_type : Bool → SerdeType
custom_type true = serde_custom
custom_type false = serde_invalid

unfoldable pub serde_type : Value → SerdeType
unfolding custom_type
serde_type nil = serde_nil
serde_type (boolean b) = serde_boolean
serde_type (lightuserdata p) = serde_lightuserdata
serde_type (integer n) = serde_integer
serde_type (number n) = serde_number
serde_type (string s) = serde_string
serde_type (lclosure p us) = serde_lclosure
serde_type (cclosure f us) = serde_cclosure
serde_type (table ser de id) = custom_type (getserdemethods ser de)
serde_type (thread id) = serde_invalid
