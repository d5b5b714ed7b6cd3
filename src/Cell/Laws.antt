-- ===== src/Cell/Laws.antt =====
-- ck_pr(3) and lua(3): what shared.c relies on of the atomic operations and of the conversions.
use Prim.Native.Nat.{bit_and, bit_or, bit_xor}
use flua_ck.Base.{ℕ, ◌+◌, ◌-◌, ◌%◌, ◌^◌, ◌≡◌, ◌<◌, Bool, true, false, ◌==◌, if◌then◌else◌}
use flua_ck.Atomic.{
  PrOp, FeatureType, ft_double, width, pr_add, pr_and, pr_dec, pr_dec_z, pr_inc, pr_inc_z, pr_neg,
  pr_neg_z, pr_not, pr_or, pr_sub, pr_xor,
}
use flua_ck.Cell.{CkPr, LuaTo}
use flua_ck.Value.{lightuserdata, integer, number}

-- Arithmetic on a word of `w` bits.
abbrev pub word_unary : PrOp → ℕ → ℕ → ℕ
word_unary pr_inc w x = (x + 1) % 2 ^ w
word_unary pr_inc_z w x = (x + 1) % 2 ^ w
word_unary pr_dec w x = (x + (2 ^ w - 1)) % 2 ^ w
word_unary pr_dec_z w x = (x + (2 ^ w - 1)) % 2 ^ w
word_unary pr_neg w x = (2 ^ w - x) % 2 ^ w
word_unary pr_neg_z w x = (2 ^ w - x) % 2 ^ w
word_unary pr_not w x = 2 ^ w - 1 - x
word_unary _ w x = x

abbrev pub word_binary : PrOp → ℕ → ℕ → ℕ → ℕ
word_binary pr_add w x d = (x + d) % 2 ^ w
word_binary pr_sub w x d = (x + (2 ^ w - d)) % 2 ^ w
word_binary pr_and w x d = bit_and x d
word_binary pr_or w x d = bit_or x d
word_binary pr_xor w x d = bit_xor x d
word_binary _ w x d = x

abbrev pub is_word : FeatureType → Bool
is_word ft_double = false
is_word _ = true

-- A word is below 2 ^ w, and so is an operand. What ck_pr adds to a `double` is left open; the
-- other functions treat it as a pattern.
pub record CkPrLaws (pr : CkPr) : Type 0 where
  pub load_law : (ft : FeatureType) (x : ℕ) → pr.load ft x ≡ x
  pub store_law : (ft : FeatureType) (v : ℕ) → pr.store ft v ≡ v
  pub unary_law :
      (op : PrOp) (ft : FeatureType) (x : ℕ)
      → is_word ft ≡ true
      → x < 2 ^ width ft
      → pr.unary op ft x ≡ word_unary op (width ft) x
  pub unary_zero_law :
      (op : PrOp) (ft : FeatureType) (x : ℕ)
      → is_word ft ≡ true
      → x < 2 ^ width ft
      → pr.unary_zero op ft x ≡ (word_unary op (width ft) x == 0, word_unary op (width ft) x)
  pub binary_law :
      (op : PrOp) (ft : FeatureType) (x d : ℕ)
      → is_word ft ≡ true
      → x < 2 ^ width ft
      → d < 2 ^ width ft
      → pr.binary op ft x d ≡ word_binary op (width ft) x d
  pub faa_law : (ft : FeatureType) (x d : ℕ) → pr.faa ft x d ≡ (x, pr.binary pr_add ft x d)
  pub fas_law : (ft : FeatureType) (x v : ℕ) → pr.fas ft x v ≡ (x, v)
  pub cas_law :
      (ft : FeatureType) (x old v : ℕ) → pr.cas ft x old v ≡ (x == old, if x == old then v else x)
  pub cas_value_law :
      (ft : FeatureType) (x old v : ℕ)
      → pr.cas_value ft x old v ≡ (x == old, x, if x == old then v else x)

pub record LuaToLaws (to : LuaTo) : Type 0 where
  pub touserdata_law : (p : ℕ) → to.lua_touserdata (lightuserdata p) ≡ p
  pub tointeger_law : (n : ℕ) → to.lua_tointeger (integer n) ≡ n
  pub tonumber_law : (n : ℕ) → to.lua_tonumber (number n) ≡ n
