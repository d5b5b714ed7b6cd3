-- ===== src/Cell/Performs.antt =====
-- shared.c: the bodies of the methods of "shared.pr" do what Cell.Effect says.
use flua_ck.Base.{
  ℕ, ◌≡◌, ◌<◌, ◌^◌, refl, ap, ◌∙◌, true, some, List, [], ◌∷◌, inl, inr, arith, Bool-cases,
  Option-cases, ◌==◌,
}
use flua_ck.Atomic.{
  PrOp, pr_add, pr_and, pr_btc, pr_btr, pr_bts, pr_cas, pr_cas_value, pr_dec, pr_dec_z, pr_faa,
  pr_fas, pr_inc, pr_inc_z, pr_load, pr_neg, pr_neg_z, pr_not, pr_or, pr_store, pr_sub, pr_xor,
  op_class, FeatureType, width, pr_ops_list, pr_ops_group1, pr_ops_group2, pr_ops_group3,
}
use flua_ck.Cell.{CkPr, LuaTo, f_types, class_impl, lua_to, lua_push, arg}
use flua_ck.Cell.Effect.{
  arguments, given, available, LuaToBounds, unary_word, binary_word, is_some, bit_number, effect,
}
use flua_ck.Cell.Laws.{CkPrLaws, word_unary, is_word}
use flua_ck.Value.{
  Value, boolean, SerdeType, serde_boolean, serde_lightuserdata, serde_integer, serde_number,
}

module _ {pr : CkPr} (laws : CkPrLaws pr) {to : LuaTo} (bounds : LuaToBounds to) where
  lua_to-lt :
      (t : SerdeType) {ft : FeatureType} (v : Value)
      → f_types t ≡ some ft
      → lua_to to t v < 2 ^ width ft
  unfolding f_types lua_to width
  lua_to-lt serde_boolean v h = ground arith
  lua_to-lt serde_lightuserdata v h = ground (arith, bounds.touserdata_small v)
  lua_to-lt serde_integer v h = ground (arith, bounds.tointeger_small v)
  lua_to-lt serde_number v h = ground (arith, bounds.tonumber_small v)
  lua_to-lt t v h = cc

  module _ (t : SerdeType) (ft : FeatureType) (h : f_types t ≡ some ft) (x : ℕ)
      (small : x < 2 ^ width ft) where
    unary-word : (op : PrOp) → pr.unary op ft x ≡ unary_word pr to t ft op x
    unary-word op = elim (Bool-cases (is_word ft)) [
      | inl w ↦ rw w (laws.unary_law op ft x w small)
      | inr d ↦ rw d refl
    ]

    binary-word :
        (op : PrOp) (v : Value) → pr.binary op ft x (lua_to to t v) ≡ binary_word pr to t ft op x v
    binary-word op v = elim (Bool-cases (is_word ft)) [
      | inl w ↦ rw w (laws.binary_law op ft x (lua_to to t v) w small (lua_to-lt t v h))
      | inr d ↦ rw d refl
    ]

    -- There are no operations with a test for zero on a `double`.
    word-available :
        (op : PrOp)
        → op_class op ≡ op_class pr_inc_z
        → available (f_types t) op ≡ some ft
        → is_word ft ≡ true
    unfolding op_class f_types pr_ops_list pr_ops_group1 pr_ops_group2 pr_ops_group3
    word-available op c a = ground arith

    -- They leave the word that the operation without the test leaves.
    zero-word :
        (op plain : PrOp)
        → op_class op ≡ op_class pr_inc_z
        → word_unary op (width ft) x ≡ word_unary plain (width ft) x
        → available (f_types t) op ≡ some ft
        → pr.unary_zero op ft x
          ≡ (unary_word pr to t ft plain x == 0, unary_word pr to t ft plain x)
    zero-word op plain c e a =
        let w = word-available op c a in
        rw w (laws.unary_zero_law op ft x w small ∙ ap (λ y. (y == 0, y)) e)

    bit-number :
        (v : Value)
        → is_some (to.lua_checkinteger v) ≡ true
        → to.lua_tointeger v ≡ bit_number (to.lua_checkinteger v)
    bit-number v s = elim (Option-cases (to.lua_checkinteger v)) [
      | inl n ↦ absurd (cc (n, s))
      | inr (n, e) ↦ rw e (bounds.same_integer v e)
    ]

    pub class_impl-effect :
        (op : PrOp) (args : List Value)
        → available (f_types t) op ≡ some ft
        → given to (arguments op) args ≡ true
        → class_impl pr to (op_class op) op ft (lua_push t) (lua_to to t) args x
          ≡ effect pr to t ft op args x
    unfolding class_impl op_class
    class_impl-effect pr_load args a g = rw (laws.load_law ft x) refl
    class_impl-effect pr_store (v ∷ vs) a g = rw (laws.store_law ft (lua_to to t v)) refl
    class_impl-effect pr_inc args a g = ap (λ y. ([], y)) (unary-word pr_inc)
    class_impl-effect pr_dec args a g = ap (λ y. ([], y)) (unary-word pr_dec)
    class_impl-effect pr_neg args a g = ap (λ y. ([], y)) (unary-word pr_neg)
    class_impl-effect pr_not args a g = ap (λ y. ([], y)) (unary-word pr_not)
    class_impl-effect pr_inc_z args a g =
        ap (λ (z, y). (boolean z ∷ [], y)) (zero-word pr_inc_z pr_inc refl refl a)
    class_impl-effect pr_dec_z args a g =
        ap (λ (z, y). (boolean z ∷ [], y)) (zero-word pr_dec_z pr_dec refl refl a)
    class_impl-effect pr_neg_z args a g =
        ap (λ (z, y). (boolean z ∷ [], y)) (zero-word pr_neg_z pr_neg refl refl a)
    class_impl-effect pr_add (v ∷ vs) a g = ap (λ y. ([], y)) (binary-word pr_add v)
    class_impl-effect pr_sub (v ∷ vs) a g = ap (λ y. ([], y)) (binary-word pr_sub v)
    class_impl-effect pr_and (v ∷ vs) a g = ap (λ y. ([], y)) (binary-word pr_and v)
    class_impl-effect pr_or (v ∷ vs) a g = ap (λ y. ([], y)) (binary-word pr_or v)
    class_impl-effect pr_xor (v ∷ vs) a g = ap (λ y. ([], y)) (binary-word pr_xor v)
    class_impl-effect pr_faa (v ∷ vs) a g =
        rw (laws.faa_law ft x (lua_to to t v))
          (ap (λ y. (lua_push t x ∷ [], y)) (binary-word pr_add v))
    class_impl-effect pr_fas (v ∷ vs) a g = rw (laws.fas_law ft x (lua_to to t v)) refl
    class_impl-effect pr_cas (old ∷ new ∷ vs) a g =
        rw (laws.cas_law ft x (lua_to to t old) (lua_to to t new)) refl
    class_impl-effect pr_cas_value (old ∷ new ∷ vs) a g =
        rw (laws.cas_value_law ft x (lua_to to t old) (lua_to to t new)) refl
    class_impl-effect pr_btc args a g = rw (bit-number (arg 0 args) g) refl
    class_impl-effect pr_btr args a g = rw (bit-number (arg 0 args) g) refl
    class_impl-effect pr_bts args a g = rw (bit-number (arg 0 args) g) refl
    class_impl-effect op args a g = cc
