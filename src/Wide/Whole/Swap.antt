-- ===== src/Wide/Whole/Swap.antt =====
-- shared.c: cas, cas_value and load of a whole view.
use flua_ck.Base.{
  ℕ, suc, ◌*◌, ◌^◌, ◌<◌, ◌≤◌, leb, ◌≡◌, refl, ap, sym, ◌∙◌, true, false, some, List, [], ◌∷◌, ◌++◌,
  append_assoc, ==_self, arith, length, take, take-append, drop-append, length-append,
}
use flua_ck.Base.Words.{le, un_le, un_le-le, length-le}
use flua_ck.Atomic.Pr128.{pr128_cas, pr128_load}
use flua_ck.Cell.{LuaTo}
use flua_ck.Handle.{Object, World, values, checkcookie, cookie, put}
use flua_ck.Handle.Methods.{put_self, with_object-open}
use flua_ck.Handle.Counted.{checkcookie-handles}
use flua_ck.Value.{Value, boolean}
use flua_ck.Wide.{
  View, view_n, view_size, view_push, view_to, RcSharedPr128, shared_pr128_metatable, read_element,
}
use flua_ck.Wide.Whole.{
  CkPr128, CasTables, view_has, lua_minstack, slots, table_check, view_checks, pushed, filled_array,
  filled_table, set_bytes, view_impl, view_checked, md128_view_op,
}

-- What Concurrency Kit promises: a load gives the bytes that are there, cas sets them if they are the
-- ones to compare and else leaves them, and cas_value is cas that also gives the bytes it found.
pub record CkPr128Laws (pr : CkPr128) : Type 0 where
  pub load_law : (v : View) (bytes : List ℕ) → pr.load v bytes ≡ bytes
  pub cas_same : (v : View) (bytes new : List ℕ) → pr.cas v bytes bytes new ≡ (true, new)
  pub cas_other :
      (v : View) (bytes old new : List ℕ)
      → ¬ (old ≡ bytes)
      → pr.cas v bytes old new ≡ (false, bytes)
  pub cas_value_law :
      (v : View) (bytes old new : List ℕ)
      → pr.cas_value v bytes old new
        ≡ (let (ok, left) = pr.cas v bytes old new in (ok, bytes, left))

-- Every value of the list comes back from an element of the view.
pub data Fits (to : LuaTo) (v : View) : List Value → Type 0 where
  fits_nil : Fits to v []
  fits_cons :
      {x : Value} {xs : List Value}
      → view_to to v x < 256 ^ view_size v
      → view_push v (view_to to v x) ≡ x
      → Fits to v xs
      → Fits to v (x ∷ xs)

read_element-append :
    (v : View) (i n : ℕ) (front back : List ℕ)
    → length front ≡ i * view_size v
    → n < 256 ^ view_size v
    → read_element v i (front ++ (le (view_size v) n ++ back)) ≡ n
unfolding read_element
read_element-append v i n front back at small =
    rw (← at, drop-append front _)
      (ap (λ k. un_le (take k (le (view_size v) n ++ back))) (sym (length-le (view_size v) n))
        ∙ ap un_le (take-append (le (view_size v) n) back)
        ∙ un_le-le (view_size v) n small)

module _ (to : LuaTo) (v : View) where
  longer :
      (i : ℕ) (front : List ℕ) (n : ℕ)
      → length front ≡ i * view_size v
      → length (front ++ le (view_size v) n) ≡ suc i * view_size v
  longer i front n at =
      rw (length-append front (le (view_size v) n), at, length-le (view_size v) n) (ground arith)

  -- The two loops are inverse to each other.
  pushed-filled_array :
      (i : ℕ) (front : List ℕ) (xs : List Value)
      → length front ≡ i * view_size v
      → Fits to v xs
      → pushed v (length xs) i (front ++ filled_array to v xs) ≡ xs
  unfolding pushed filled_array
  pushed-filled_array i front [] at fits_nil = refl
  pushed-filled_array i front (x ∷ xs) at (fits_cons small same fits) =
      let first = read_element-append v i (view_to to v x) front (filled_array to v xs) at small in
      let rest =
        pushed-filled_array (suc i) (front ++ le (view_size v) (view_to to v x)) xs
          (longer i front (view_to to v x) at) fits in
      rw
        (
          first,
          same,
          ← append_assoc front (le (view_size v) (view_to to v x)) (filled_array to v xs),
          rest,
        )
        refl

-- Two tables of at most 8 elements fit on the stack.
slots_of : (v : View) → view_n v ≤ 8 → leb (slots v pr128_cas) lua_minstack ≡ true
unfolding slots
slots_of v few = ground (arith, few)

abbrev pub tables : List Value → List Value → CasTables
tables old new = record { old = some old; new = some new }

module _ {pr : CkPr128} (laws : CkPr128Laws pr) (to : LuaTo) where
  cas_open :
      (v : View) (h p : ℕ) (old new : List Value) (w : World RcSharedPr128)
      (o : Object RcSharedPr128) (cas : view_has v pr128_cas ≡ true)
      → checkcookie shared_pr128_metatable h w ≡ cookie p
      → w.objects p ≡ some o
      → leb (slots v pr128_cas) lua_minstack ≡ true
      → length old ≡ view_n v
      → length new ≡ view_n v
      → md128_view_op pr to v pr128_cas cas h (tables old new) w ≡ (
          let (ok, bytes) =
            pr.cas v o.value.bytes (filled_array to v old) (filled_array to v new) in
          set_bytes w p o (boolean ok ∷ []) bytes)
  unfolding md128_view_op view_checked view_checks view_impl filled_table table_check
  cas_open v h p old new w o cas c here room lo ln =
      rw
        (with_object-open shared_pr128_metatable h p w o _ c here, lo, ln, ==_self (view_n v), room)
        refl

  load_open :
      (v : View) (h p : ℕ) (args : CasTables) (w : World RcSharedPr128) (o : Object RcSharedPr128)
      (xs : List Value) (load : view_has v pr128_load ≡ true)
      → checkcookie shared_pr128_metatable h w ≡ cookie p
      → w.objects p ≡ some o
      → o.value.bytes ≡ filled_array to v xs
      → length xs ≡ view_n v
      → Fits to v xs
      → (md128_view_op pr to v pr128_load load h args w).0 ≡ values xs
  unfolding md128_view_op view_checked view_checks view_impl slots
  load_open v h p args w o xs load c here bytes long fits =
      rw
        (
          with_object-open shared_pr128_metatable h p w o _ c here,
          laws.load_law v,
          bytes,
          ← long,
          pushed-filled_array to v 0 [] xs (ground arith) fits,
        )
        refl

  -- On an open cell, for a view with a load function and at most 8 elements, with tables as long as
  -- the view. If the first table is what the cell holds, cas
  -- answers true, and load answers the new values from then on, if they fit the view. If it is not,
  -- cas answers false and leaves the cell as it is.
  pub md128_view_op-cas :
      (v : View) (h p : ℕ) (old other new : List Value) (args : CasTables) (w : World RcSharedPr128)
      (o : Object RcSharedPr128) (cas : view_has v pr128_cas ≡ true)
      (load : view_has v pr128_load ≡ true)
      → view_n v ≤ 8
      → checkcookie shared_pr128_metatable h w ≡ cookie p
      → w.objects p ≡ some o
      → length old ≡ view_n v
      → length other ≡ view_n v
      → length new ≡ view_n v
      → filled_array to v old ≡ o.value.bytes
      → ¬ (filled_array to v other ≡ o.value.bytes)
      → Fits to v new
      → ((md128_view_op pr to v pr128_cas cas h (tables old new) w).0 ≡ values (boolean true ∷ []))
        × ((md128_view_op pr to v pr128_load load h args
              (md128_view_op pr to v pr128_cas cas h (tables old new) w).1).0
            ≡ values new)
        × (md128_view_op pr to v pr128_cas cas h (tables other new) w
            ≡ (values (boolean false ∷ []), record w { objects = put w.objects p (some o) }))
  unfolding set_bytes
  md128_view_op-cas v h p old other new args w o cas load few c here lo lt ln same differs fits = (
    rw
        (
          cas_open v h p old new w o cas c here (slots_of v few) lo ln,
          same,
          laws.cas_same v o.value.bytes (filled_array to v new),
        )
        refl,
    rw
        (
          cas_open v h p old new w o cas c here (slots_of v few) lo ln,
          same,
          laws.cas_same v o.value.bytes (filled_array to v new),
        )
        (load_open v h p args _ (record o { value = record { bytes = filled_array to v new } }) new
          load (checkcookie-handles shared_pr128_metatable h w _ refl ∙ c) (put_self w.objects p _)
          refl ln fits),
    rw
        (
          cas_open v h p other new w o cas c here (slots_of v few) lt ln,
          laws.cas_other v o.value.bytes (filled_array to v other) (filled_array to v new) differs,
        )
        refl,
  )
