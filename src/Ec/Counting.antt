-- ===== src/Ec/Counting.antt =====
-- ec.c: what a Lua state reads from a counter after it was made and added to.
use flua_ck.Base.{ℕ, ◌+◌, ◌%◌, ◌^◌, ◌<◌, ◌≡◌, refl, ap, ◌∙◌, some, [], ◌∷◌, arith}
use flua_ck.Ec.{CkEc, l_ck_ec32_value, l_ck_ec32_add}
use flua_ck.Handle.{Object, World, values, checkcookie, cookie}
use flua_ck.Handle.Counted.{checkcookie-handles}
use flua_ck.Handle.Methods.{put_self, with_object-open}
use flua_ck.Value.{integer}

-- ck_ec(3): a 32-bit counter has 31 bits of value, and `add` returns the value before it.
pub record CkEc32Laws {E : Type 0} (ck : CkEc E) : Type 0 where
  pub init_law : (v : ℕ) → ck.value (ck.init v) ≡ v % 2 ^ 31
  pub add_law : (mode d : ℕ) (e : E) → d < 2 ^ 31 → (ck.add mode d e).0 ≡ ck.value e
  pub value_law :
      (mode d : ℕ) (e : E) → d < 2 ^ 31 → ck.value (ck.add mode d e).1 ≡ (ck.value e + d) % 2 ^ 31

module _ {E : Type 0} {ck : CkEc E} (laws : CkEc32Laws ck) where
  value-open :
      (i p : ℕ) (w : World E) (o : Object E)
      → checkcookie "ck_ec32_t" i w ≡ cookie p
      → w.objects p ≡ some o
      → (l_ck_ec32_value ck i w).0 ≡ values (integer (ck.value o.value) ∷ [])
  unfolding l_ck_ec32_value
  value-open i p w o c here = rw (with_object-open "ck_ec32_t" i p w o _ c here)

  -- `add` of a delta of 31 bits answers the counter's value, and `value` after it answers the sum of the two,
  -- to 31 bits.
  l_ck_ec32_value-add :
      (i p mode delta : ℕ) (w : World E) (o : Object E)
      → checkcookie "ck_ec32_t" i w ≡ cookie p
      → w.objects p ≡ some o
      → delta < 2 ^ 31
      → ((l_ck_ec32_add ck i mode delta w).0 ≡ values (integer (ck.value o.value) ∷ []))
        × ((l_ck_ec32_value ck i (l_ck_ec32_add ck i mode delta w).1).0
            ≡ values (integer ((ck.value o.value + delta) % 2 ^ 31) ∷ []))
  unfolding l_ck_ec32_add
  l_ck_ec32_value-add i p mode delta w o c here small =
      rw (with_object-open "ck_ec32_t" i p w o _ c here, word)
        (
          ap (λ v. values (integer v ∷ [])) (laws.add_law mode delta o.value small),
          value-open i p _ _ (checkcookie-handles "ck_ec32_t" i w _ refl ∙ c)
                (put_self w.objects p _)
              ∙ ap (λ v. values (integer v ∷ [])) (laws.value_law mode delta o.value small),
        )
    where
      word : delta % 2 ^ 32 ≡ delta
      word = omega (arith, small)
