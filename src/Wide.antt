-- ===== src/Wide.antt =====
-- shared.c: "shared.pr128", cells of 128 bits, and the views through which Lua code uses their elements.
pub mod Bounds
pub mod New
pub mod Whole
use Prim.Native.String.{String}
use flua_ck.Base.{
  ℕ, zero, suc, ◌+◌, ◌-◌, ◌*◌, ◌/◌, ◌%◌, ◌^◌, Bool, true, false, ◌&&◌, ◌||◌, not, Option, none,
  some, List, [], ◌∷◌, ◌++◌, ◌==◌, leb, ltb, if◌then◌else◌, length, take, drop, replicate,
  get_elem?,
}
use flua_ck.Base.Words.{le, un_le}
use flua_ck.Atomic.{
  PrOp, op_class, FeatureType, width, ft_8, ft_16, ft_32, ft_64, ft_char, ft_double, ft_int, ft_ptr,
  ft_uint,
}
use flua_ck.Cell.{CkPr, LuaTo, class_checks, class_impl}
use flua_ck.Handle.{
  Object, World, Answer, values, raises, type_error, fatal_error, put, create, retain, release,
  with_object, checkcookieuv,
}
use flua_ck.Marshal.{from_malloc}
use flua_ck.Memory.{Mem, malloc, free}
use flua_ck.Serdebuf.{enomem}
use flua_ck.Value.{Value, nil, integer, number, string, lightuserdata}

-- the members of the union
pub data View : Type 0 where
  view_u8 view_u16 view_u32 view_u64 view_c view_d view_i view_p view_u : View

-- SERDE_PR128_<FT> and PR128_F_TYPES_LIST: the feature type of a view and its number of elements
unfoldable pub view_type : View → FeatureType
view_type view_u8 = ft_8
view_type view_u16 = ft_16
view_type view_u32 = ft_32
view_type view_u64 = ft_64
view_type view_c = ft_char
view_type view_d = ft_double
view_type view_i = ft_int
view_type view_p = ft_ptr
view_type view_u = ft_uint

unfoldable pub view_n : View → ℕ
view_n view_u8 = 16
view_n view_u16 = 8
view_n view_u32 = 4
view_n view_u64 = 2
view_n view_c = 16
view_n view_d = 2
view_n view_i = 4
view_n view_p = 2
view_n view_u = 4

-- sizeof(CT)
unfoldable pub view_size : View → ℕ
view_size v = width (view_type v) / 8

-- lua_push<PUSH>, of an element; an `int` is extended by its sign.
unfoldable pub view_push : View → ℕ → Value
view_push view_c x = string (x ∷ [])
view_push view_d x = number x
view_push view_i x = integer (if ltb x (2 ^ 31) then x else x + (2 ^ 64 - 2 ^ 32))
view_push view_p x = lightuserdata x
view_push _ x = integer x

first_char : List ℕ → ℕ
first_char [] = 0
first_char (b ∷ bs) = b

unfoldable pub lua_tochar : LuaTo → Value → ℕ
unfolding first_char
lua_tochar to v = first_char (to.lua_tolstring v)

-- lua_to<TO>, converted to CT
unfoldable pub view_to : LuaTo → View → Value → ℕ
view_to to view_c v = lua_tochar to v
view_to to view_d v = to.lua_tonumber v
view_to to view_p v = to.lua_touserdata v
view_to to view v = to.lua_tointeger v % 2 ^ width (view_type view)

-- the 16 bytes of the union
pub record RcSharedPr128 : Type 0 where
  pub bytes : List ℕ

abbrev pub shared_pr128_metatable : String
shared_pr128_metatable = "shared.pr128"

abbrev pub sizeof_rcsharedpr128 : ℕ
sizeof_rcsharedpr128 = 24

-- The struct in memory: `refs` follows the union.
unfoldable pub struct_bytes : Object RcSharedPr128 → List ℕ
struct_bytes o = o.value.bytes ++ le 8 o.refs

unfoldable pub of_struct_bytes : List ℕ → Object RcSharedPr128
of_struct_bytes bs = record { value = record { bytes = take 16 bs }; refs = un_le (drop 16 bs) }

-- the element `NAME[i]` of C, at its offset from the start of the struct
unfoldable pub read_element : View → ℕ → List ℕ → ℕ
read_element v i bs = un_le (take (view_size v) (drop (i * view_size v) bs))

unfoldable pub write_element : View → ℕ → ℕ → List ℕ → List ℕ
write_element v i x bs =
    take (i * view_size v) bs ++ (le (view_size v) x ++ drop (i * view_size v + view_size v) bs)

module _ (pr : CkPr) (to : LuaTo) where
  -- SERDE_PR_<CLASS>_IMPL on `p = &sharedp->NAME[i]`
  element_done :
      View
      → ℕ
      → World RcSharedPr128
      → ℕ
      → Object RcSharedPr128
      → List Value × ℕ
      → Answer × World RcSharedPr128
  element_done v i w p o (vs, x) = (
    values vs,
    record w {
      objects = put w.objects p (some (of_struct_bytes (write_element v i x (struct_bytes o))));
    },
  )

  element_op :
      View
      → PrOp
      → ℕ
      → List Value
      → World RcSharedPr128
      → ℕ
      → Object RcSharedPr128
      → Answer × World RcSharedPr128
  unfolding element_done
  element_op v op i args w p o =
      if class_checks to (op_class op) args
      then element_done v i w p o (
          class_impl pr to (op_class op) op (view_type v) (view_push v) (view_to to v) args
            (read_element v i (struct_bytes o)))
      else (raises type_error, w)

  -- luaL_checkinteger and luaL_argcheck of the index, a size_t
  indexed_op :
      View
      → PrOp
      → Option ℕ
      → List Value
      → World RcSharedPr128
      → ℕ
      → Object RcSharedPr128
      → Answer × World RcSharedPr128
  unfolding element_op
  indexed_op v op none args w p o = (raises type_error, w)
  indexed_op v op (some i) args w p o =
      if ltb 0 i && leb i (view_n v) then element_op v op i args w p o else (raises type_error, w)

  -- l_ck_shared_pr_md128_<NAME>_i_<OP><VARIANT>, on a table with the userdata `h` and an index. The
  -- function pushes the two, `self` and `index`, so that they stand behind the arguments on the stack,
  -- where they are found in place of arguments that are missing.
  unfoldable pub md128_view_i_op :
      View
      → PrOp
      → ℕ
      → Value
      → Value
      → List Value
      → World RcSharedPr128
      → Answer × World RcSharedPr128
  unfolding indexed_op
  md128_view_i_op v op h self index args w =
      with_object shared_pr128_metatable h w
        (λ p o. indexed_op v op (to.lua_checkinteger index) (args ++ (self ∷ index ∷ [])) w p o)

unfoldable pub md128_retain : ℕ → World RcSharedPr128 → Answer × World RcSharedPr128
md128_retain p w = retain shared_pr128_metatable p w

unfoldable pub md128_gc : ℕ → World RcSharedPr128 → Answer × World RcSharedPr128
md128_gc i w = release (λ p v m. m) true shared_pr128_metatable i w

unfoldable pub md128_cookie : ℕ → World RcSharedPr128 → Answer
md128_cookie i w = checkcookieuv shared_pr128_metatable i w

-- `ck_pr_rfo` prefetches the cell's cache line, and changes nothing.
unfoldable pub md128_rfo : ℕ → World RcSharedPr128 → Answer × World RcSharedPr128
md128_rfo i w = with_object shared_pr128_metatable i w (λ p o. (values [], w))
