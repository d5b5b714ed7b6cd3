-- ===== src/Serialize/Format.antt =====
-- The format that serdebuf.c writes, said without a buffer: the bytes of a value, or `none` where
-- the value cannot be serialized. It covers every value but a table or userdata that brings its
-- own `serialize` and `deserialize`.
use flua_ck.Base.{
  ℕ, ◌≤◌, ◌≡◌, false, Option, none, some, List, [], ◌∷◌, ◌++◌, if◌then◌else◌, length,
}
use flua_ck.Base.Words.{le}
use flua_ck.Memory.{size_limit}
use flua_ck.Serdebuf.Compose.{prefixed}
use flua_ck.Serialize.{Lua, bool_byte, is_env, count}
use flua_ck.Value.{
  Value, nil, boolean, lightuserdata, integer, number, string, lclosure, cclosure, table, thread,
  Upvalues, end, upvalue, getserdemethods,
}

-- one after the other, if both can be written
abbrev pub seq : Option (List ℕ) → Option (List ℕ) → Option (List ℕ)
seq none y = none
seq (some x) y = prefixed x y

abbrev pub joined : List (List ℕ) → List ℕ
joined [] = []
joined (p ∷ ps) = p ++ joined ps

-- a blob behind its length
abbrev pub sized : List ℕ → List ℕ
sized bs = le 8 (length bs) ++ bs

unfoldable pub encode_scalar : Value → Option (List ℕ)
encode_scalar nil = some (1 ∷ [])
encode_scalar (boolean b) = some (2 ∷ bool_byte b ∷ [])
encode_scalar (lightuserdata p) = some (3 ∷ le 8 p)
encode_scalar (integer n) = some (4 ∷ le 8 n)
encode_scalar (number n) = some (5 ∷ le 8 n)
encode_scalar (string bs) = some (6 ∷ sized bs)
encode_scalar _ = none

-- `_ENV` is only marked; any other upvalue is a value that is no function, table, userdata or thread.
unfoldable pub encode_upvalues : Upvalues → Option (List ℕ)
encode_upvalues end = some []
encode_upvalues (upvalue name v rest) =
    seq (if is_env name then some (0 ∷ []) else encode_scalar v) (encode_upvalues rest)

abbrev pub encode_counted : Upvalues → Option (List ℕ)
encode_counted us = prefixed (le 4 (count us)) (encode_upvalues us)

unfoldable pub encode : Lua → Value → Option (List ℕ)
encode lua (lclosure p us) =
    prefixed (8 ∷ []) (seq (encode_counted us) (some (sized (joined (lua.dump p)))))
encode lua (cclosure f us) = prefixed (7 ∷ []) (seq (encode_counted us) (some (le 8 f)))
encode lua v = encode_scalar v

-- The value is not one with a custom serde.
abbrev pub IsPlain : Value → Type 0
IsPlain (table ser de id) = getserdemethods ser de ≡ false
IsPlain nil = Unit {0}
IsPlain (boolean b) = Unit {0}
IsPlain (lightuserdata p) = Unit {0}
IsPlain (integer n) = Unit {0}
IsPlain (number n) = Unit {0}
IsPlain (string bs) = Unit {0}
IsPlain (lclosure p us) = Unit {0}
IsPlain (cclosure f us) = Unit {0}
IsPlain (thread id) = Unit {0}

abbrev pub AllSmall : List (List ℕ) → Type 0
AllSmall [] = Unit {0}
AllSmall (p ∷ ps) = (length p ≤ size_limit) × AllSmall ps

-- No text is larger than memory.
abbrev pub IsSmallScalar : Value → Type 0
IsSmallScalar (string bs) = length bs ≤ size_limit
IsSmallScalar nil = Unit {0}
IsSmallScalar (boolean b) = Unit {0}
IsSmallScalar (lightuserdata p) = Unit {0}
IsSmallScalar (integer n) = Unit {0}
IsSmallScalar (number n) = Unit {0}
IsSmallScalar (lclosure p us) = Unit {0}
IsSmallScalar (cclosure f us) = Unit {0}
IsSmallScalar (table ser de id) = Unit {0}
IsSmallScalar (thread id) = Unit {0}

abbrev pub AllSmallUpvalues : Upvalues → Type 0
AllSmallUpvalues end = Unit {0}
AllSmallUpvalues (upvalue name v rest) = IsSmallScalar v × AllSmallUpvalues rest

-- No text and no piece of a binary chunk is larger than memory.
abbrev pub IsSmall : Lua → Value → Type 0
IsSmall lua (lclosure p us) = AllSmallUpvalues us × AllSmall (lua.dump p)
IsSmall lua (cclosure f us) = AllSmallUpvalues us
IsSmall lua (string bs) = length bs ≤ size_limit
IsSmall lua nil = Unit {0}
IsSmall lua (boolean b) = Unit {0}
IsSmall lua (lightuserdata p) = Unit {0}
IsSmall lua (integer n) = Unit {0}
IsSmall lua (number n) = Unit {0}
IsSmall lua (table ser de id) = Unit {0}
IsSmall lua (thread id) = Unit {0}
