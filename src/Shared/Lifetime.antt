-- ===== src/Shared/Lifetime.antt =====
-- shared.c: the blocks of a "shared.const" cell from `new` to the last `__gc`.
use flua_ck.Base.{
  ℕ, ◌+◌, ◌^◌, ◌<◌, ◌≡◌, refl, ap, ◌∙◌, fun_ext, true, Option, none, some, List, [], ◌∷◌, arith,
  length,
}
use flua_ck.Base.Words.{le}
use flua_ck.Handle.{World, Answer, values, create, new}
use flua_ck.Handle.Methods.{create-checkcookie}
use flua_ck.Handle.Twice.{release_last}
use flua_ck.Marshal.Total.{IsRoomy}
use flua_ck.Memory.{free, update, IsFresh}
use flua_ck.Serdebuf.Bounds.{IsMd}
use flua_ck.Serialize.Format.{encode, IsPlain, IsSmall}
use flua_ck.Shared.{
  RcShared, shared_const_metatable, freeserialized, shared_const_new, shared_const_gc,
}
use flua_ck.Shared.Loads.{NewShared, shared, pointer_of-le, newshared-NewShared}
use flua_ck.Transport.{Runtime}
use flua_ck.Value.{Value}

-- Three blocks that were empty before are emptied.
all_back :
    (f g : ℕ → Option (List ℕ)) (p q : ℕ) (a b c : Option (List ℕ))
    → f p ≡ none
    → f (p + 1) ≡ none
    → f q ≡ none
    → g ≡ update (update (update f p a) (p + 1) b) q c
    → update (update (update g (p + 1) none) q none) p none ≡ f
all_back f g p q a b c fp fb fq e =
    ap (λ h. update (update (update h (p + 1) none) q none) p none) e
    ∙ fun_ext (λ k. ground (arith, fp, fb, fq))

module _ (rt : Runtime) (good : IsMd rt.md) where
  -- The `__gc` of a new cell answers nothing and frees every block that `new` has asked for: the struct,
  -- the pointer's struct and the value's bytes. The memory holds what it held before, where the
  -- allocator gives what it is asked for.
  pub shared_const_new-gc :
      (v : Value) (vs : List Value) (e : List ℕ) (w : World RcShared)
      → IsRoomy rt.md w.mem v e
      → IsFresh w.mem
      → w.mem.tick + 1 < 2 ^ 64
      → IsPlain v
      → IsSmall rt.lua v
      → encode rt.lua v ≡ some e
      → let after = shared_const_gc (length w.handles) (shared_const_new rt (v ∷ vs) w).1 in
        (after.0 ≡ values []) × (after.1.mem.cell ≡ w.mem.cell)
  unfolding shared_const_new shared_const_gc freeserialized free create new
  shared_const_new-gc v vs e w room fresh few p small h =
      frees (newshared-NewShared rt good shared_const_metatable v vs e w room p small h)
    where
      frees :
          {r : Answer × World RcShared}
          → NewShared shared_const_metatable w e r
          → let after = shared_const_gc (length w.handles) r.1 in
            (after.0 ≡ values []) × (after.1.mem.cell ≡ w.mem.cell)
      frees (shared q m' l c) =
          let (checked, there) =
            create-checkcookie w.mem.tick (record { serialized = q }) shared_const_metatable
              (record w { mem = m' }) refl in
          let (answer, mem) =
            release_last (λ p v m. freeserialized v.serialized m) true shared_const_metatable
              (length w.handles) w.mem.tick _ _ checked there refl in
          (
            answer,
            ap (λ m. m.cell) mem
                ∙ ap (λ x. update (update (free x m').cell q none) w.mem.tick none)
                    (pointer_of-le m'.cell _ q (w.mem.tick + 1) few c)
                ∙ all_back w.mem.cell m'.cell w.mem.tick q (some []) (some e)
                    (some (le 8 (w.mem.tick + 1))) (fresh w.mem.tick (omega arith))
                    (fresh (w.mem.tick + 1) (omega arith)) (fresh q (omega (arith, l))) c,
          )
