-- ===== src/Serialize/Refine.antt =====
-- serdebuf.c: `serdebuf_serialize` and the functions that it calls against the format of `Format`.
use Prim.Native.String.{String}
use flua_ck.Base.{
  ℕ, ◌≤◌, ◌≡◌, refl, sym, ◌∙◌, ap, inl, inr, Bool, true, false, Option, none, some, List, [], ◌∷◌,
  ◌++◌, arith, Bool-cases, if◌then◌else◌, length, length-append, append-nil,
}
use mathlib.Core.Path.{ap₂}
use mathlib.Core.Option.{some-injective}
use flua_ck.Base.Words.{le, length-le}
use flua_ck.Memory.{size_limit}
use flua_ck.Serdebuf.{Md, einval, State, Step, ◌>>◌, fail, serdebuf_size, serdebuf_append, patch}
use flua_ck.Serdebuf.Bounds.{IsMd}
use flua_ck.Serdebuf.Append.{
  IsOpen, Kept-IsOpen, Kept-refl, Outcome, wrote, refused, serdebuf_append-Outcome,
}
use flua_ck.Serdebuf.Compose.{prefixed, and_then-Outcome, fill-Outcome, refused-Outcome}
use flua_ck.Serialize.{
  Lua, done, bool_byte, is_env, is_compound, count, serde_type_encode, switch_type, serdebuf_writer,
  put_size, serdebuf_dump, with_count, serialize_as, serialize_upvalue, serdebuf_serialize,
  serialize_each,
}
use flua_ck.Serialize.Format.{
  seq, joined, sized, encode_scalar, encode_upvalues, encode_counted, encode, IsPlain, AllSmall,
  IsSmallScalar, AllSmallUpvalues, IsSmall,
}
use flua_ck.Value.{
  Value, nil, boolean, lightuserdata, integer, number, string, lclosure, cclosure, table, thread,
  Upvalues, end, upvalue, SerdeType, serde_env, serde_any, type_code, serde_type,
}

-- A step that, wherever it is run, has the outcome `spec`.
abbrev pub Writes : Md → Option (List ℕ) → Step → Type 0
Writes md spec step = (s : State) → IsOpen s → Outcome md s spec (step s)

abbrev is_function : Value → Bool
is_function (lclosure n us) = true
is_function (cclosure f us) = true
is_function _ = false

not-function : (v : Value) → is_compound v ≡ false → is_function v ≡ false
not-function (lclosure n us) h = cc
not-function (cclosure f us) h = cc
not-function (table ser de id) h = refl
not-function _ h = refl

compound-none : (v : Value) → is_compound v ≡ true → encode_scalar v ≡ none
unfolding encode_scalar
compound-none nil h = cc
compound-none (boolean b) h = cc
compound-none (lightuserdata n) h = cc
compound-none (integer n) h = cc
compound-none (number n) h = cc
compound-none (string bs) h = cc
compound-none _ h = refl

IsPlain-of_scalar : (v : Value) → is_compound v ≡ false → IsPlain v
IsPlain-of_scalar (table ser de id) h = cc
IsPlain-of_scalar _ h = tt

module _ {md : Md} where
  done-Writes : Writes md (some []) done
  done-Writes s o = wrote (Kept-refl o.valid) (rw append-nil)

  fail-Writes : Writes md none (fail einval)
  fail-Writes s o = refused (Kept-refl o.valid)

  pub seq-Writes :
      (x y : Option (List ℕ)) (first next : Step)
      → Writes md x first
      → Writes md y next
      → Writes md (seq x y) (first >> next)
  seq-Writes none y first next f g s o = refused-Outcome next (f s o)
  seq-Writes (some x) y first next f g s o =
      and_then-Outcome x y next (f s o) (λ t k e. g t (Kept-IsOpen o k))

pub put_size-patch :
    (chunk : List ℕ) (t u : State) (before : List ℕ)
    → t.sb.bytes ≡ before ++ le 8 0
    → u.sb.bytes ≡ before ++ (le 8 0 ++ chunk)
    → put_size (serdebuf_size t) u ≡ patch (length before) (le 8 (length chunk)) u
unfolding put_size
put_size-patch chunk t u before q r =
    ap₂ (λ (a b : ℕ). patch a (le 8 b) u)
      (omega (arith, ap length q, length-append before (le 8 0), length-le 8 0))
      (omega (
        arith,
        ap length q,
        ap length r,
        length-append before (le 8 0),
        length-append before (le 8 0 ++ chunk),
        length-append (le 8 0) chunk,
      ))

put_size-chunk :
    (chunk out : List ℕ)
    → some chunk ≡ some out
    → (t u : State) (before : List ℕ) → t.sb.bytes ≡ before ++ le 8 0
    → u.sb.bytes ≡ before ++ (le 8 0 ++ out)
    → put_size (serdebuf_size t) u ≡ patch (length before) (le 8 (length chunk)) u
put_size-chunk chunk out p t u before q r =
    put_size-patch out t u before q r
    ∙ ap (λ c. patch (length before) (le 8 (length c)) u) (sym (some-injective chunk out p))

module _ {md : Md} (good : IsMd md) where
  pub append-Writes :
      (p : List ℕ) → length p ≤ size_limit → Writes md (some p) (serdebuf_append md p)
  append-Writes p h s o = serdebuf_append-Outcome good p s o h

  append_byte-Writes : (b : ℕ) → Writes md (some (b ∷ [])) (serdebuf_append md (b ∷ []))
  append_byte-Writes b = append-Writes (b ∷ []) (omega arith)

  append_word-Writes : (x : ℕ) → Writes md (some (le 8 x)) (serdebuf_append md (le 8 x))
  append_word-Writes x = append-Writes (le 8 x) (rw length-le (omega arith))

  serdebuf_writer-Writes :
      (pieces : List (List ℕ))
      → AllSmall pieces
      → Writes md (some (joined pieces)) (serdebuf_writer md pieces)
  unfolding serdebuf_writer
  serdebuf_writer-Writes [] h = done-Writes
  serdebuf_writer-Writes (p ∷ ps) h =
      seq-Writes (some p) (some (joined ps)) _ _ (append-Writes p h.0)
        (serdebuf_writer-Writes ps h.1)

  serdebuf_dump-Writes :
      (pieces : List (List ℕ))
      → AllSmall pieces
      → Writes md (some (sized (joined pieces))) (serdebuf_dump md pieces)
  unfolding serdebuf_dump
  serdebuf_dump-Writes pieces h s o =
      fill-Outcome (le 8 0) (le 8 (length (joined pieces))) (some (joined pieces))
        (serdebuf_writer md pieces) (λ t. put_size (serdebuf_size t)) (append_word-Writes 0 s o)
        (length-le 8 _ ∙ sym (length-le 8 _))
        (λ t k. serdebuf_writer-Writes pieces h t (Kept-IsOpen o k))
        (λ t u out p q r. put_size-chunk (joined pieces) out p t u s.sb.bytes q r)

  -- The loop's bytes stand behind the count, though it is written last.
  with_count-Writes :
      (each : Step) (n : ℕ) (spec : Option (List ℕ))
      → Writes md spec each
      → Writes md (prefixed (le 4 n) spec) (with_count md each n)
  unfolding with_count
  with_count-Writes each n spec h s o =
      fill-Outcome (le 4 0) (le 4 n) spec each (λ t. patch (serdebuf_size s) (le 4 n))
        (append-Writes (le 4 0) (rw length-le (omega arith)) s o)
        (length-le 4 _ ∙ sym (length-le 4 _)) (λ t k. h t (Kept-IsOpen o k)) (λ t u out p q r. refl)

  serialize_as-Writes :
      (v : Value) (t : SerdeType) (step : ℕ → Step) (spec : Option (List ℕ))
      → ((o : ℕ) → Writes md spec (switch_type (serde_type_encode v t) (step o)))
      → Writes md
          (prefixed (type_code (serde_type_encode v t) ∷ []) spec)
          (serialize_as md v t step)
  unfolding serialize_as
  serialize_as-Writes v t step spec h s o =
      seq-Writes (some _) spec _ _ (append_byte-Writes _) (h (serdebuf_size s)) s o

  -- A value that is no function: the type code and the value's own bytes.
  scalar-Writes :
      (lua : Lua) (custom : ℕ → Value → Step) (v : Value)
      → IsPlain v
      → IsSmallScalar v
      → is_function v ≡ false
      → Writes md (encode_scalar v) (serdebuf_serialize md lua custom v serde_any)
  unfolding serdebuf_serialize serde_type_encode switch_type encode_scalar type_code serde_type
  scalar-Writes lua custom nil p h c =
      serialize_as-Writes nil serde_any _ (some []) (λ o. done-Writes)
  scalar-Writes lua custom (boolean b) p h c =
      serialize_as-Writes (boolean b) serde_any _ (some (bool_byte b ∷ []))
        (λ o. append_byte-Writes _)
  scalar-Writes lua custom (lightuserdata n) p h c =
      serialize_as-Writes (lightuserdata n) serde_any _ (some (le 8 n)) (λ o. append_word-Writes n)
  scalar-Writes lua custom (integer n) p h c =
      serialize_as-Writes (integer n) serde_any _ (some (le 8 n)) (λ o. append_word-Writes n)
  scalar-Writes lua custom (number n) p h c =
      serialize_as-Writes (number n) serde_any _ (some (le 8 n)) (λ o. append_word-Writes n)
  scalar-Writes lua custom (string bs) p h c =
      serialize_as-Writes (string bs) serde_any _ (some (sized bs)) (λ o.
        seq-Writes (some (le 8 (length bs))) (some bs) _ _ (append_word-Writes _)
          (append-Writes bs h))
  scalar-Writes lua custom (lclosure n us) p h c = cc
  scalar-Writes lua custom (cclosure n us) p h c = cc
  scalar-Writes lua custom (table ser de id) p h c =
      serialize_as-Writes (table ser de id) serde_any _ none (λ o. rw p fail-Writes)
  scalar-Writes lua custom (thread id) p h c =
      serialize_as-Writes (thread id) serde_any _ none (λ o. fail-Writes)

  marked-Writes :
      (v : Value) (step : ℕ → Step) → Writes md (some (0 ∷ [])) (serialize_as md v serde_env step)
  unfolding serde_type_encode switch_type type_code
  marked-Writes v step = serialize_as-Writes v serde_env step (some []) (λ o. done-Writes)

  env-Writes :
      (lua : Lua) (custom : ℕ → Value → Step) (v : Value)
      → Writes md (some (0 ∷ [])) (serdebuf_serialize md lua custom v serde_env)
  unfolding serdebuf_serialize
  env-Writes lua custom nil = marked-Writes nil _
  env-Writes lua custom v = marked-Writes v _

  upvalue-Writes :
      (lua : Lua) (custom : ℕ → Value → Step) (name : String) (v : Value)
      → IsSmallScalar v
      → Writes md
          (if is_env name then some (0 ∷ []) else encode_scalar v)
          (serialize_upvalue md name v (serdebuf_serialize md lua custom v))
  unfolding serialize_upvalue
  upvalue-Writes lua custom name v h = elim (Bool-cases (is_env name)) [
    | inl e ↦ rw e (env-Writes lua custom v)
    | inr e ↦ rw e (elim (Bool-cases (is_compound v)) [
      | inl c ↦ rw (c, compound-none v c) fail-Writes
      | inr c ↦ rw c (scalar-Writes lua custom v (IsPlain-of_scalar v c) h (not-function v c))
    ])
  ]

  serialize_each-Writes :
      (lua : Lua) (custom : ℕ → Value → Step) (us : Upvalues)
      → AllSmallUpvalues us
      → Writes md (encode_upvalues us) (serialize_each md lua custom us)
  unfolding serdebuf_serialize encode_upvalues
  serialize_each-Writes lua custom end h = done-Writes
  serialize_each-Writes lua custom (upvalue name v rest) h =
      seq-Writes (if is_env name then some (0 ∷ []) else encode_scalar v) (encode_upvalues rest) _ _
        (upvalue-Writes lua custom name v h.0) (serialize_each-Writes lua custom rest h.1)

  -- On any valid buffer, `serdebuf_serialize` appends exactly the bytes of the format for a value
  -- that has a format, and answers EINVAL for one that has none; the only other answer is ENOMEM,
  -- given when the allocator denied a request. The buffer stays valid, and blocks neither come nor go.
  pub serdebuf_serialize-encode :
      (lua : Lua) (custom : ℕ → Value → Step) (v : Value) (s : State)
      → IsPlain v
      → IsSmall lua v
      → IsOpen s
      → Outcome md s (encode lua v) (serdebuf_serialize md lua custom v serde_any s)
  unfolding serdebuf_serialize encode serde_type_encode switch_type type_code serde_type
  serdebuf_serialize-encode lua custom (lclosure n us) s p h o =
      serialize_as-Writes (lclosure n us) serde_any _
        (seq (encode_counted us) (some (sized (joined (lua.dump n)))))
        (λ k.
          seq-Writes (encode_counted us) _ _ _
            (with_count-Writes _ (count us) (encode_upvalues us)
              (serialize_each-Writes lua custom us h.0))
            (serdebuf_dump-Writes (lua.dump n) h.1))
        s o
  serdebuf_serialize-encode lua custom (cclosure f us) s p h o =
      serialize_as-Writes (cclosure f us) serde_any _ (seq (encode_counted us) (some (le 8 f)))
        (λ k.
          seq-Writes (encode_counted us) _ _ _
            (with_count-Writes _ (count us) (encode_upvalues us)
              (serialize_each-Writes lua custom us h))
            (append_word-Writes f))
        s o
  serdebuf_serialize-encode lua custom v s p h o = scalar-Writes lua custom v p h refl s o
