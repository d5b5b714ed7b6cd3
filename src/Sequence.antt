-- ===== src/Sequence.antt =====
-- sequence.c: sequence locks. The lock is Concurrency Kit's, and a parameter.
pub mod Versions
use flua_ck.Base.{ℕ, ◌%◌, ◌^◌, Bool, some, List, [], ◌∷◌}
use flua_ck.Handle.{World, Object, Answer, values, checkcookieuv, retain, with_object, put}
use flua_ck.Struct.{new_struct, release_struct}
use flua_ck.Value.{Value, boolean, integer}

-- `ck_sequence_t` and its functions. `read_begin` is the version when the call returns.
pub record CkSequence (S : Type 0) : Type 0 where
  pub init : S
  pub read_begin : S → ℕ
  pub read_retry : S → ℕ → Bool
  pub write_begin : S → S
  pub write_end : S → S
  pub sizeof_rcsequence : ℕ

-- the lock of the object at `p` replaced
abbrev pub set_seqlock : {S : Type 0} → ℕ → Object S → S → World S → World S
set_seqlock p o s w = record w { objects = put w.objects p (some (record o { value = s })) }

module _ {S : Type 0} (ck : CkSequence S) where
  unfoldable pub l_ck_sequence_new : World S → Answer × World S
  l_ck_sequence_new w = new_struct "sequence" ck.sizeof_rcsequence ck.init w

  unfoldable pub l_ck_sequence_retain : ℕ → World S → Answer × World S
  l_ck_sequence_retain p w = retain "sequence" p w

  unfoldable pub l_ck_sequence_gc : ℕ → World S → Answer × World S
  l_ck_sequence_gc i w = release_struct "sequence" i w

  unfoldable pub l_ck_sequence_cookie : ℕ → World S → Answer × World S
  l_ck_sequence_cookie i w = (checkcookieuv "sequence" i w, w)

  unfoldable pub l_ck_sequence_read_begin : ℕ → World S → Answer × World S
  l_ck_sequence_read_begin i w =
      with_object "sequence" i w (λ p o. (values (integer (ck.read_begin o.value) ∷ []), w))

  -- `version` is the lua_Integer given, kept as an `unsigned int`.
  unfoldable pub l_ck_sequence_read_retry : ℕ → ℕ → World S → Answer × World S
  l_ck_sequence_read_retry i version w =
      with_object "sequence" i w
        (λ p o. (values (boolean (ck.read_retry o.value (version % 2 ^ 32)) ∷ []), w))

  unfoldable pub l_ck_sequence_write_begin : ℕ → World S → Answer × World S
  l_ck_sequence_write_begin i w =
      with_object "sequence" i w (λ p o. (values [], set_seqlock p o (ck.write_begin o.value) w))

  unfoldable pub l_ck_sequence_write_end : ℕ → World S → Answer × World S
  l_ck_sequence_write_end i w =
      with_object "sequence" i w (λ p o. (values [], set_seqlock p o (ck.write_end o.value) w))
