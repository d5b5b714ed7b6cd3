-- ===== src/Methods.antt =====
-- The tables of methods that the modules register (luaL_Reg), and how Lua finds a method of a userdata
-- in them.
pub mod Open
pub mod Fields
pub mod Guarded
pub mod Refuse
pub mod Functions
pub mod Kinds
pub mod Views
use Prim.Native.String.{String}
use text.Mathlib.Text.{◌==◌ as str_eq}
use flua_ck.Base.{
  ℕ, Bool, true, false, Option, none, some, List, [], ◌∷◌, ◌++◌, if◌then◌else◌, get_elem?,
}
use flua_ck.Handle.{World, Answer, Handle}

-- The field of a table, where a later luaL_Reg of the same name replaces an earlier one.
unfoldable pub or_earlier {ℓ} : {F : Type ℓ} → Option F → Option F → Option F
or_earlier (some f) earlier = some f
or_earlier none earlier = earlier

unfoldable pub find_field {ℓ} : {F : Type ℓ} → String → List (String × F) → Option F
unfolding or_earlier
find_field name [] = none
find_field name ((n, f) ∷ fs) =
    or_earlier (find_field name fs) (if str_eq n name then some f else none)

-- A C function that is registered as a method: it gets a userdata as its argument 1, and `Rest` is what
-- the checks of its other arguments give.
pub record Method (A : Type 0) : Type 1 where
  pub Rest : Type 0
  pub run : ℕ → Rest → World A → Answer × World A

-- What luaL_newmetatable and luaL_setfuncs leave in the registry. `indexes_itself` says that __index
-- is the metatable.
pub record Metatable (A : Type 0) : Type 1 where
  pub name : String
  pub indexes_itself : Bool
  pub fields : List (String × Method A)

-- A C function that is registered in the table of a module; `Args` is what the checks of its arguments
-- give.
pub record Constructor (A : Type 0) : Type 1 where
  pub Args : Type 0
  pub run : Args → World A → Answer × World A

module _ {A : Type 0} where
  -- a method without other arguments
  abbrev pub alone : (ℕ → World A → Answer × World A) → Method A
  alone f = record { Rest = Unit {0}; run = λ i rest w. f i w }

  -- `luaL_newmetatable(L, name)`, which gives the table that is there if there is one; then
  -- `lua_pushvalue(L, -1); lua_setfield(L, -2, "__index");` and `luaL_setfuncs`
  unfoldable pub newmetatable :
      String → List (String × Method A) → List (Metatable A) → List (Metatable A)
  newmetatable name fs [] = record { name = name; indexes_itself = true; fields = fs } ∷ []
  newmetatable name fs (t ∷ ts) =
      if str_eq t.name name
      then record { name = t.name; indexes_itself = true; fields = t.fields ++ fs } ∷ ts
      else t ∷ newmetatable name fs ts

  unfoldable pub index_metatable : String → Metatable A → Option (Method A)
  unfolding find_field
  index_metatable name t = if t.indexes_itself then find_field name t.fields else none

  -- the metatable of a userdata
  unfoldable pub find_metatable : String → List (Metatable A) → Option (Metatable A)
  find_metatable metatable [] = none
  find_metatable metatable (t ∷ ts) =
      if str_eq t.name metatable then some t else find_metatable metatable ts

  method_in : String → Option (Metatable A) → Option (Method A)
  unfolding index_metatable
  method_in name none = none
  method_in name (some t) = index_metatable name t

  method_of : List (Metatable A) → String → Option Handle → Option (Method A)
  unfolding find_metatable method_in
  method_of ts name none = none
  method_of ts name (some h) = method_in name (find_metatable h.metatable ts)

  -- `userdata:name`, for the userdata with the given index
  unfoldable pub lua_method : List (Metatable A) → String → ℕ → World A → Option (Method A)
  unfolding method_of
  lua_method ts name i w = method_of ts name (get_elem? w.handles i)
