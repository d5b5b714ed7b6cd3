-- ===== src/Ec.antt =====
-- ec.c: event counters of 32 and of 64 bits. The counters are Concurrency Kit's, and parameters; a
-- function that waits stands for what it does until it returns.
pub mod Counting
use flua_ck.Base.{
  ℕ, ◌+◌, ◌-◌, ◌%◌, ◌^◌, leb, if◌then◌else◌, Bool, Option, none, some, List, [], ◌∷◌, ◌==◌,
}
use flua_ck.Handle.{World, Object, Answer, values, checkcookieuv, retain, with_object, put}
use flua_ck.Struct.{new_struct, release_struct}
use flua_ck.Value.{Value, boolean, integer}

-- `struct timespec`: tv_sec and tv_nsec
abbrev pub Timespec : Type 0
Timespec = ℕ × ℕ

-- What a predicate of `ck_ec32_wait_pred` is: the deadline and the time, to an `int` and the deadline
-- that it leaves.
abbrev pub Pred : Type 0
Pred = Timespec → Timespec → ℕ × Timespec

-- `ck_ec32_t` or `ck_ec64_t` and its functions. A mode is its address. An `int` is its 32-bit pattern.
pub record CkEc (E : Type 0) : Type 0 where
  pub init : ℕ → E
  pub value : E → ℕ
  pub has_waiters : E → Bool
  pub inc : ℕ → E → E
  pub add : ℕ → ℕ → E → ℕ × E
  pub wait : ℕ → ℕ → Option Timespec → E → ℕ × E
  pub wait_pred : ℕ → ℕ → Pred → Option Timespec → E → ℕ × E
  pub sizeof_rcec : ℕ

-- The optional arguments of a deadline: `lua_isinteger` for the seconds, and 0 for nanoseconds that
-- are not given.
unfoldable pub optional : ℕ → Option ℕ → ℕ
optional d none = d
optional d (some n) = n

unfoldable pub deadline_of : Option ℕ → Option ℕ → Option Timespec
deadline_of none nsec = none
deadline_of (some sec) nsec = some (sec, optional 0 nsec)

abbrev pub minus_one : ℕ
minus_one = 2 ^ 32 - 1

-- an `int` as a lua_Integer
unfoldable pub sign_extend : ℕ → ℕ
sign_extend n = if leb (2 ^ 31) n then n + (2 ^ 64 - 2 ^ 32) else n

-- `ec_pred`, on the results of the Lua predicate, or none if it raised an error
unfoldable pub ec_pred : Option (List ℕ) → Timespec → ℕ × Timespec
ec_pred none deadline = (minus_one, deadline)
ec_pred (some (result ∷ [])) deadline = (result % 2 ^ 32, deadline)
ec_pred (some (result ∷ sec ∷ [])) (_, nsec) = (result % 2 ^ 32, (sec, nsec))
ec_pred (some (result ∷ sec ∷ nsec ∷ [])) deadline = (result % 2 ^ 32, (sec, nsec))
ec_pred (some _) deadline = (minus_one, deadline)

-- the counter of the object at `p` replaced
abbrev pub set_ec : {E : Type 0} → ℕ → Object E → E → World E → World E
set_ec p o e w = record w { objects = put w.objects p (some (record o { value = e })) }

module _ {E : Type 0} (ck : CkEc E) where
  unfoldable pub l_ck_ec32_new : ℕ → World E → Answer × World E
  l_ck_ec32_new value w = new_struct "ck_ec32_t" ck.sizeof_rcec (ck.init (value % 2 ^ 32)) w

  unfoldable pub l_ck_ec32_retain : ℕ → World E → Answer × World E
  l_ck_ec32_retain p w = retain "ck_ec32_t" p w

  unfoldable pub l_ck_ec32_gc : ℕ → World E → Answer × World E
  l_ck_ec32_gc i w = release_struct "ck_ec32_t" i w

  unfoldable pub l_ck_ec32_cookie : ℕ → World E → Answer × World E
  l_ck_ec32_cookie i w = (checkcookieuv "ck_ec32_t" i w, w)

  unfoldable pub l_ck_ec32_value : ℕ → World E → Answer × World E
  l_ck_ec32_value i w =
      with_object "ck_ec32_t" i w (λ p o. (values (integer (ck.value o.value) ∷ []), w))

  unfoldable pub l_ck_ec32_has_waiters : ℕ → World E → Answer × World E
  l_ck_ec32_has_waiters i w =
      with_object "ck_ec32_t" i w (λ p o. (values (boolean (ck.has_waiters o.value) ∷ []), w))

  unfoldable pub l_ck_ec32_inc : ℕ → ℕ → World E → Answer × World E
  l_ck_ec32_inc i mode w =
      with_object "ck_ec32_t" i w (λ p o. (values [], set_ec p o (ck.inc mode o.value) w))

  unfoldable pub l_ck_ec32_add : ℕ → ℕ → ℕ → World E → Answer × World E
  l_ck_ec32_add i mode delta w = with_object "ck_ec32_t" i w (λ p o.
      let (value, e) = ck.add mode (delta % 2 ^ 32) o.value in
      (values (integer value ∷ []), set_ec p o e w))

  unfoldable pub l_ck_ec32_wait : ℕ → ℕ → ℕ → Option ℕ → Option ℕ → World E → Answer × World E
  l_ck_ec32_wait i mode value sec nsec w = with_object "ck_ec32_t" i w (λ p o.
      let (error, e) = ck.wait mode (value % 2 ^ 32) (deadline_of sec nsec) o.value in
      (values (boolean (error == 0) ∷ []), set_ec p o e w))

  -- `pred` is the Lua predicate with its data: the deadline and the time, to its results.
  unfoldable pub l_ck_ec32_wait_pred :
      ℕ
      → ℕ
      → ℕ
      → (Timespec → Timespec → Option (List ℕ))
      → Option ℕ
      → Option ℕ
      → World E
      → Answer × World E
  l_ck_ec32_wait_pred i mode value pred sec nsec w = with_object "ck_ec32_t" i w (λ p o.
      let (error, e) =
        ck.wait_pred mode (value % 2 ^ 32) (λ deadline now. ec_pred (pred deadline now) deadline)
          (deadline_of sec nsec) o.value in
      (values (integer (sign_extend error) ∷ []), set_ec p o e w))

  unfoldable pub l_ck_ec64_new : ℕ → World E → Answer × World E
  l_ck_ec64_new value w = new_struct "ck_ec64_t" ck.sizeof_rcec (ck.init (value % 2 ^ 64)) w

  unfoldable pub l_ck_ec64_retain : ℕ → World E → Answer × World E
  l_ck_ec64_retain p w = retain "ck_ec64_t" p w

  unfoldable pub l_ck_ec64_gc : ℕ → World E → Answer × World E
  l_ck_ec64_gc i w = release_struct "ck_ec64_t" i w

  unfoldable pub l_ck_ec64_cookie : ℕ → World E → Answer × World E
  l_ck_ec64_cookie i w = (checkcookieuv "ck_ec64_t" i w, w)

  unfoldable pub l_ck_ec64_value : ℕ → World E → Answer × World E
  l_ck_ec64_value i w =
      with_object "ck_ec64_t" i w (λ p o. (values (integer (ck.value o.value) ∷ []), w))

  unfoldable pub l_ck_ec64_has_waiters : ℕ → World E → Answer × World E
  l_ck_ec64_has_waiters i w =
      with_object "ck_ec64_t" i w (λ p o. (values (boolean (ck.has_waiters o.value) ∷ []), w))

  unfoldable pub l_ck_ec64_inc : ℕ → ℕ → World E → Answer × World E
  l_ck_ec64_inc i mode w =
      with_object "ck_ec64_t" i w (λ p o. (values [], set_ec p o (ck.inc mode o.value) w))

  unfoldable pub l_ck_ec64_add : ℕ → ℕ → ℕ → World E → Answer × World E
  l_ck_ec64_add i mode delta w = with_object "ck_ec64_t" i w (λ p o.
      let (value, e) = ck.add mode (delta % 2 ^ 64) o.value in
      (values (integer value ∷ []), set_ec p o e w))

  unfoldable pub l_ck_ec64_wait : ℕ → ℕ → ℕ → Option ℕ → Option ℕ → World E → Answer × World E
  l_ck_ec64_wait i mode value sec nsec w = with_object "ck_ec64_t" i w (λ p o.
      let (error, e) = ck.wait mode (value % 2 ^ 64) (deadline_of sec nsec) o.value in
      (values (boolean (error == 0) ∷ []), set_ec p o e w))

  -- `pred` is the Lua predicate with its data: the deadline and the time, to its results.
  unfoldable pub l_ck_ec64_wait_pred :
      ℕ
      → ℕ
      → ℕ
      → (Timespec → Timespec → Option (List ℕ))
      → Option ℕ
      → Option ℕ
      → World E
      → Answer × World E
  l_ck_ec64_wait_pred i mode value pred sec nsec w = with_object "ck_ec64_t" i w (λ p o.
      let (error, e) =
        ck.wait_pred mode (value % 2 ^ 64) (λ deadline now. ec_pred (pred deadline now) deadline)
          (deadline_of sec nsec) o.value in
      (values (integer (sign_extend error) ∷ []), set_ec p o e w))
