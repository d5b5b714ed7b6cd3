-- ===== src/Examples/Modules.antt =====
-- Opened modules, with a ring and a 128-bit cell.
use Prim.Native.String.{String}
use flua_ck.Base.{ℕ, ◌≡◌, refl, true, none, some, [], ◌∷◌}
use flua_ck.Examples.{list_ring, ListRing, runtime, empty_memory}
use flua_ck.Examples.Cells.{conversions}
use flua_ck.Handle.{
  create, new, World, raises, type_error, checkcookie, checkcookie_of, check_cookie, cookie,
}
use flua_ck.Handle.Other.{is_a}
use flua_ck.Memory.{malloc}
use flua_ck.Methods.{alone, find_field, or_earlier, newmetatable, lua_method}
use flua_ck.Methods.Functions.{l_ck_ring_funcs}
use flua_ck.Methods.Kinds.{kind_ring, lua_method-find_field}
use flua_ck.Methods.Open.{l_ck_ring_meta, luaopen_ck_ring}
use flua_ck.Methods.Refuse.{opened_ring, lua_method-refuses}
use flua_ck.Methods.Views.{
  whole, view_table, element_table, field, at, reference, nothing, view_name, lua_index,
}
use flua_ck.Methods.Views.Reached.{lua_index-element}
use flua_ck.Ring.{RcRing, spsc, metatable, newring}
use flua_ck.Ring.Kinds.{l_ck_ring_spsc_dequeue, l_ck_ring_spsc_new}
use flua_ck.Value.{integer}
use flua_ck.Wide.{view_u16, RcSharedPr128, shared_pr128_metatable}

-- a ring of one kind at 0 and one of another kind at 1
abbrev two_rings : World (RcRing ListRing)
two_rings = record {
  mem = empty_memory;
  objects = λ p. none;
  handles =
      record { metatable = "ring.spsc"; cookie = some 0 }
      ∷ record { metatable = "ring.mpmc"; cookie = some 1 }
      ∷ [];
}

lua_method-refuses_example :
    l_ck_ring_spsc_dequeue list_ring runtime 1 two_rings ≡ (raises type_error, two_rings)
unfolding luaopen_ck_ring newmetatable metatable l_ck_ring_meta lua_method is_a
lua_method-refuses_example =
    lua_method-refuses (RcRing ListRing) (luaopen_ck_ring list_ring runtime []) "dequeue" 0 1
      two_rings two_rings (record { metatable = "ring.spsc"; cookie = some 0 })
      (alone (l_ck_ring_spsc_dequeue list_ring runtime)) tt (opened_ring list_ring runtime) refl
      refl refl

abbrev no_ring : World (RcRing ListRing)
no_ring = record { mem = empty_memory; objects = λ p. none; handles = [] }

lua_method-find_field_example :
    lua_method
      (luaopen_ck_ring list_ring runtime [])
      "trydequeue"
      0
      (l_ck_ring_spsc_new list_ring runtime 8 no_ring).1
    ≡ find_field "trydequeue" (l_ck_ring_meta list_ring runtime spsc)
unfolding l_ck_ring_funcs find_field or_earlier l_ck_ring_spsc_new newring malloc create new
lua_method-find_field_example =
    lua_method-find_field (RcRing ListRing) (luaopen_ck_ring list_ring runtime [])
      (l_ck_ring_funcs list_ring runtime spsc) (l_ck_ring_meta list_ring runtime spsc) "new"
      "trydequeue" (record { Args = ℕ; run = l_ck_ring_spsc_new list_ring runtime }) 8 no_ring 0
      (kind_ring list_ring runtime spsc) refl refl

abbrev one_cell : World RcSharedPr128
one_cell = record {
  mem = empty_memory;
  objects = λ p. none;
  handles = record { metatable = shared_pr128_metatable; cookie = some 5 } ∷ [];
}

one_cell-checkcookie : checkcookie shared_pr128_metatable 0 one_cell ≡ cookie 5
unfolding checkcookie checkcookie_of check_cookie
one_cell-checkcookie = refl

lua_index-element_example :
    (lua_index
        (λ op ft. true)
        (λ op ft n. true)
        conversions
        (whole 0)
        (field (view_name view_u16))
        one_cell
      ≡ reference (view_table view_u16 0))
    × (lua_index
          (λ op ft. true)
          (λ op ft n. true)
          conversions
          (view_table view_u16 0)
          (at (integer 3))
          one_cell
        ≡ reference (element_table view_u16 0 (integer 3)))
    × ((name : String)
        → lua_index
            (λ op ft. true)
            (λ op ft n. true)
            conversions
            (element_table view_u16 0 (integer 3))
            (field name)
            one_cell
          ≡ nothing)
lua_index-element_example =
    lua_index-element (λ op ft. true) (λ op ft n. true) conversions view_u16 0 5 2 (integer 3)
      one_cell one_cell-checkcookie refl
