-- ===== src/Examples/Wides.antt =====
-- The 128-bit cells of shared.c.
use flua_ck.Base.{
  Bool, true, false, ◌&&◌, ◌||◌, ◌==◌, ==_self, Bool-cases, inl, inr, if◌then◌else◌, ℕ, List, ◌≡◌,
  refl, none, some, [], ◌∷◌, ◌++◌, arith, drop,
}
use flua_ck.Base.Words.{le, un_le}
use flua_ck.Atomic.{ft_double, pr_store, width}
use flua_ck.Examples.{empty_memory}
use flua_ck.Examples.Cells.{words, words_laws, conversions}
use flua_ck.Handle.{
  Object, World, values, raises, type_error, check_cookie, checkcookie_of, checkcookie, cookie, put,
}
use flua_ck.Value.{Value, nil, boolean, integer}
use flua_ck.Wide.{
  RcSharedPr128, shared_pr128_metatable, view_u64, view_n, view_size, view_type, view_push, view_to,
  md128_view_i_op,
}
use flua_ck.Atomic.Pr128.{
  Features128, pr128_cas, pr128_load, pr128_cas_value, n_2, pr128_ops_list, pr128_elements,
  pr128_op, ifdef128, undefined,
}
use flua_ck.Atomic.Pr128.Tables.{
  contains, is_elements, has_op, is_cas_value_2_double, pr128_op-contains,
}
use flua_ck.Wide.Whole.{CkPr128, filled_array, md128_view_op}
use flua_ck.Wide.Whole.Swap.{CkPr128Laws, Fits, fits_nil, fits_cons, tables, md128_view_op-cas}
use flua_ck.Wide.Bounds.{md128_view_i_store}
use flua_ck.Wide.New.{Garbage}

-- a cell of 16 zero bytes at address 5 that userdata 0 holds
abbrev zero_object : Object RcSharedPr128
zero_object = record {
  value = record { bytes = 0 ∷ 0 ∷ 0 ∷ 0 ∷ 0 ∷ 0 ∷ 0 ∷ 0 ∷ 0 ∷ 0 ∷ 0 ∷ 0 ∷ 0 ∷ 0 ∷ 0 ∷ 0 ∷ [] };
  refs = 1;
}

abbrev zero_world : World RcSharedPr128
zero_world = record {
  mem = empty_memory;
  objects = put (λ p. none) 5 (some zero_object);
  handles = record { metatable = shared_pr128_metatable; cookie = some 5 } ∷ [];
}

abbrev garbage : Garbage
garbage = record { block = 7 ∷ []; checklstring = λ s. none }

zero_world-checkcookie : checkcookie shared_pr128_metatable 0 zero_world ≡ cookie 5
unfolding checkcookie checkcookie_of check_cookie
zero_world-checkcookie = refl

md128_view_i_store_example :
    (md128_view_i_op words conversions view_u64 pr_store 0 nil
        (integer 0)
        (integer 9 ∷ [])
        zero_world
      ≡ (raises type_error, zero_world))
    × (md128_view_i_op words conversions view_u64 pr_store 0 nil
          (integer 2)
          (integer 9 ∷ [])
          zero_world
        ≡ (
          values [],
          record zero_world {
            objects = put zero_world.objects 5 (
                some (record zero_object {
                  refs = un_le (
                      le (view_size view_u64) (view_to conversions view_u64 (integer 9))
                      ++ drop (view_size view_u64) (le 8 1));
                }));
          },
        ))
unfolding view_n
md128_view_i_store_example =
    md128_view_i_store words_laws conversions view_u64 0 5 nil (integer 0) (integer 2) (integer 9)
      [] zero_world zero_object zero_world-checkcookie refl refl refl refl

abbrev features128 : Features128
features128 op ft n = true

abbrev same_bytes : List ℕ → List ℕ → Bool
same_bytes [] [] = true
same_bytes [] (y ∷ ys) = false
same_bytes (x ∷ xs) [] = false
same_bytes (x ∷ xs) (y ∷ ys) = (x == y) && same_bytes xs ys

same_bytes_self : (xs : List ℕ) → same_bytes xs xs ≡ true
same_bytes_self [] = refl
same_bytes_self (x ∷ xs) = rw (==_self x) (same_bytes_self xs)

same_bytes_eq : (xs ys : List ℕ) → same_bytes xs ys ≡ true → xs ≡ ys
same_bytes_eq [] [] h = refl
same_bytes_eq [] (y ∷ ys) h = cc
same_bytes_eq (x ∷ xs) [] h = cc
same_bytes_eq (x ∷ xs) (y ∷ ys) h = grind (arith, same_bytes_eq xs ys)

abbrev words128 : CkPr128
words128 = record {
  load = λ v bytes. bytes;
  cas = λ v bytes old new. (same_bytes old bytes, if same_bytes old bytes then new else bytes);
  cas_value =
      λ v bytes old new. (same_bytes old bytes, bytes, if same_bytes old bytes then new else bytes);
}

words128_laws : CkPr128Laws words128
words128_laws = record {
  load_law = λ v bytes. refl;
  cas_same = λ v bytes new. rw (same_bytes_self bytes) refl;
  cas_other = λ v bytes old new differs. elim (Bool-cases (same_bytes old bytes)) [
    | inl h ↦ absurd (differs (same_bytes_eq old bytes h))
    | inr h ↦ rw h refl
  ];
  cas_value_law = λ v bytes old new. refl;
}

abbrev zeros : List Value
zeros = integer 0 ∷ integer 0 ∷ []

abbrev ones : List Value
ones = integer 1 ∷ integer 1 ∷ []

abbrev fives : List Value
fives = integer 5 ∷ integer 0 ∷ []

ones-Fits : Fits conversions view_u64 ones
unfolding view_size view_type width view_to view_push
ones-Fits = fits_cons (omega arith) refl (fits_cons (omega arith) refl fits_nil)

five_differs : ¬ (filled_array conversions view_u64 fives ≡ zero_object.value.bytes)
unfolding filled_array view_size view_type width view_to le
five_differs h = cc

md128_view_op-cas_example :
    ((md128_view_op words128 conversions view_u64 pr128_cas refl 0 (tables zeros ones) zero_world).0
      ≡ values (boolean true ∷ []))
    × ((md128_view_op words128 conversions view_u64 pr128_load refl 0
          (tables zeros ones)
          (md128_view_op words128 conversions view_u64 pr128_cas refl 0
            (tables zeros ones)
            zero_world).1).0
        ≡ values ones)
    × (md128_view_op words128 conversions view_u64 pr128_cas refl 0 (tables fives ones) zero_world
        ≡ (
          values (boolean false ∷ []),
          record zero_world { objects = put zero_world.objects 5 (some zero_object) },
        ))
unfolding filled_array view_size view_type width view_to view_n le
md128_view_op-cas_example =
    md128_view_op-cas words128_laws conversions view_u64 0 5 zeros fives ones (tables zeros ones)
      zero_world zero_object refl refl (omega arith) zero_world-checkcookie refl refl refl refl refl
      five_differs ones-Fits

pr128_op_example :
    (contains (pr128_ops_list ft_double) (pr128_cas_value, n_2)
      ≡ (is_elements (pr128_elements ft_double) n_2 && has_op ft_double pr128_cas_value))
    × (pr128_op (λ op ft n. true) pr128_cas_value n_2 ft_double ≡ (
        if contains (pr128_ops_list ft_double) (pr128_cas_value, n_2)
          || is_cas_value_2_double pr128_cas_value n_2 ft_double
        then ifdef128 true pr128_cas_value n_2
        else undefined))
pr128_op_example = pr128_op-contains (λ op ft n. true) pr128_cas_value n_2 ft_double
