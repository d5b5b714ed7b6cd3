-- ===== src/Serdebuf.antt =====
-- serdebuf.c and serdebuf.h: a byte buffer that grows as it is written. One function of C is one
-- function here; a step takes the state, which is the `struct serdebuf` and the allocator, and
-- returns the C function's `int` with the state that it leaves.
pub mod Bounds
pub mod Append
pub mod Compose
use flua_ck.Base.{
  ℕ, ◌+◌, ◌-◌, ◌*◌, ◌/◌, ◌%◌, ◌^◌, Bool, true, false, Option, none, some, List, [], ◌++◌, ltb, leb,
  if◌then◌else◌, length, take, drop,
}
use flua_ck.Memory.{Mem, malloc, rallocx, free, write}

-- The `errno` values that the code returns.
pub data Errno : Type 0 where
  einval enomem eoverflow : Errno

-- An `int` result: 0, a positive errno, or negative with a Lua error on the stack.
pub data Status : Type 0 where
  ok : Status
  error : Errno → Status
  raised : Status

-- CK_MD_CACHELINE and CK_MD_PAGESIZE of the Concurrency Kit build.
pub record Md : Type 0 where
  pub cacheline : ℕ
  pub pagesize : ℕ

-- `struct serdebuf`. `bytes` is what stands between `buf` and `cur`; `buf` is none for NULL.
pub record Serdebuf : Type 0 where
  pub buf : Option ℕ
  pub bytes : List ℕ
  pub cap : ℕ

pub record State : Type 0 where
  pub sb : Serdebuf
  pub mem : Mem

abbrev pub Step : Type 0
Step = State → Status × State

-- `if ((error = first) != 0) return (error); next`
abbrev pub and_then : Status × State → Step → Status × State
and_then (ok, s) next = next s
and_then (error e, s) next = (error e, s)
and_then (raised, s) next = (raised, s)

infixr 5 ◌>>◌
abbrev pub ◌>>◌ : Step → Step → Step
◌>>◌ first next s = and_then (first s) next

abbrev pub fail : Errno → Step
fail e s = (error e, s)

-- what `memset(sb, 0, sizeof(*sb))` leaves
abbrev pub cleared : Serdebuf
cleared = record { buf = none; bytes = []; cap = 0 }

-- `size_t` addition
abbrev pub add_size : ℕ → ℕ → ℕ
add_size a b = (a + b) % 2 ^ 64

abbrev pub serdebuf_size : State → ℕ
serdebuf_size s = length s.sb.bytes

-- roundup2(x, y) of <sys/param.h>, for a power of two `y`
unfoldable pub roundup2 : ℕ → ℕ → ℕ
roundup2 x y = add_size x (y - 1) / y * y

unfoldable pub serdebuf_roundup : Md → ℕ → ℕ
serdebuf_roundup md size =
    if leb md.pagesize size then roundup2 size md.pagesize else roundup2 size md.cacheline

-- the capacity that `serdebuf_append` asks for
unfoldable pub new_size : ℕ → ℕ → ℕ
new_size cap needed =
    let doubled = cap * 2 % 2 ^ 64 in if ltb doubled needed then needed else doubled

-- `sb->cur = mempcpy(sb->cur, p, len)`
abbrev pub copy_bytes : List ℕ → Step
copy_bytes p s = (ok, record s { sb = record (s.sb) { bytes = s.sb.bytes ++ p } })

module _ (md : Md) where
  grown : ℕ → Option ℕ × Mem → Step
  grown size (none, m) s = (error enomem, record s { mem = m })
  grown size (some p, m) s =
      (ok, record { sb = record { buf = some p; bytes = s.sb.bytes; cap = size }; mem = m })

  -- rallocx(3) wants a block, so NULL is a fault that no caller makes; it is answered by ENOMEM.
  serdebuf_realloc : Option ℕ → ℕ → Step
  unfolding grown
  serdebuf_realloc none size s = (error enomem, s)
  serdebuf_realloc (some p) size s = grown size (rallocx p size s.mem) s

  unfoldable pub serdebuf_resize : ℕ → Step
  unfolding serdebuf_realloc
  serdebuf_resize minimum s =
      let size = serdebuf_roundup md minimum in serdebuf_realloc s.sb.buf size s

  unfoldable pub serdebuf_append : List ℕ → Step
  serdebuf_append p s =
      let needed = add_size (serdebuf_size s) (length p) in
      if ltb s.sb.cap needed
      then (serdebuf_resize (new_size s.sb.cap needed) >> copy_bytes p) s
      else copy_bytes p s

-- A store through a pointer into the buffer: `p` overwrites the bytes from `offset` on.
abbrev pub patch : ℕ → List ℕ → Step
patch offset p s = (
  ok,
  record s {
    sb = record (s.sb) { bytes = take offset bytes ++ (p ++ drop (offset + length p) bytes) };
  },
)
  where
    open s.sb use {bytes}

-- `rallocx` to the bytes written; a refusal has already forgotten the buffer's address.
finalized : List ℕ → Option ℕ × Mem → Option ℕ × State
finalized bytes (none, m) = (none, record { sb = cleared; mem = m })
finalized bytes (some p, m) = (some p, record { sb = cleared; mem = write p bytes m })

shrink : Serdebuf → Option ℕ → Mem → Option ℕ × Mem
shrink sb none m = (none, m)
shrink sb (some p) m = rallocx p (length sb.bytes) m

unfoldable pub serdebuf_finalize : State → Option ℕ × State
unfolding finalized shrink
serdebuf_finalize s = finalized s.sb.bytes (shrink s.sb s.sb.buf s.mem)

unfoldable pub serdebuf_destroy : State → State
serdebuf_destroy s = record { sb = cleared; mem = free s.sb.buf s.mem }
