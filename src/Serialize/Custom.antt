-- ===== src/Serialize/Custom.antt =====
-- serdebuf.c: `serdebuf_serialize_custom` and `serdebuf_writefn`, which let the `serialize` method of
-- an object write to the buffer through a stream.
use flua_ck.Base.{
  ℕ, ◌+◌, ◌*◌, ◌<◌, ◌⊎◌, inl, inr, length-append, ◌≤◌, ◌≡◌, refl, sym, ap, ◌∙◌, Bool, true, false,
  Option, none, some, List, [], ◌++◌, append-nil, append_assoc, arith, length,
}
use flua_ck.Base.Words.{le, length-le}
use flua_ck.Memory.{size_limit}
use flua_ck.Serdebuf.{
  Md, Errno, Status, ok, error, raised, State, Step, ◌>>◌, and_then, serdebuf_size, serdebuf_append,
}
use flua_ck.Serdebuf.Append.{
  IsOpen, Denied, Kept, Kept-IsOpen, Kept-trans, Kept-refl, Outcome, wrote, no_memory,
  serdebuf_append-Outcome, serdebuf_append_failed,
}
use flua_ck.Serdebuf.Bounds.{IsMd}
use flua_ck.Serdebuf.Compose.{bytes-patch, Kept-patch}
use flua_ck.Serialize.{put_size}
use flua_ck.Serialize.Refine.{put_size-patch}

-- What a Lua method does with the stream: it returns, raises an error, or writes bytes and goes on,
-- knowing whether the write succeeded. The stream is unbuffered.
pub data Script : Type 0 where
  finish : Script
  throw : Script
  put : List ℕ → (Bool → Script) → Script

module _ (md : Md) where
  -- `serdebuf_writefn`, and what the method sees of its result
  unfoldable pub serdebuf_writefn : Status × State → Bool × State
  serdebuf_writefn (ok, s) = (true, s)
  serdebuf_writefn (error e, s) = (false, s)
  serdebuf_writefn (raised, s) = (false, s)

  -- `lua_pcall` on the method
  unfoldable pub run_script : Script → Step
  run_script finish s = (ok, s)
  run_script throw s = (raised, s)
  run_script (put p next) s =
      let (written, s') = serdebuf_writefn (serdebuf_append md p s) in run_script (next written) s'

  -- fwopen(3) may fail, with the given errno.
  unfoldable pub opened_stream : Option Errno → Script → Step
  opened_stream none script s = run_script script s
  opened_stream (some e) script s = (error e, s)

  unfoldable pub serdebuf_serialize_custom : Option Errno → Script → Step
  serdebuf_serialize_custom fwopen script =
      serdebuf_append md (le 8 0)
      >> (λ s. (opened_stream fwopen script >> put_size (serdebuf_size s)) s)

-- No single write is larger than memory.
abbrev pub IsSmallScript : Script → Type 0
IsSmallScript finish = Unit {0}
IsSmallScript throw = Unit {0}
IsSmallScript (put p next) = (length p ≤ size_limit) × ((b : Bool) → IsSmallScript (next b))

-- Why a write may be refused that would make the buffer `total` bytes long: the allocator refuses a
-- request, or they are too many for it.
abbrev pub CannotGrow : Md → (ℕ → Bool) → ℕ → Type 0
CannotGrow md grants total = ((n : ℕ) × (grants n ≡ false)) ⊎ (size_limit < 2 * total + md.pagesize)

-- What a method has written in all when it returns, with a buffer of `size` bytes before it: the bytes of
-- the writes that succeeded, in their order. A write that was refused, for want of memory, adds nothing,
-- and the method knows.
pub data Writes (md : Md) (grants : ℕ → Bool) : ℕ → Script → List ℕ → Type 0 where
  finishes : {size : ℕ} → Writes md grants size finish []
  writes :
      {size : ℕ} {p : List ℕ} {next : Bool → Script} {out : List ℕ}
      → Writes md grants (size + length p) (next true) out
      → Writes md grants size (put p next) (p ++ out)
  is_refused :
      {size : ℕ} {p : List ℕ} {next : Bool → Script} {out : List ℕ}
      → CannotGrow md grants (size + length p)
      → Writes md grants size (next false) out
      → Writes md grants size (put p next) out

pub Writes-same :
    {md : Md} {grants grants' : ℕ → Bool} {size size' : ℕ} {script : Script} {out : List ℕ}
    → grants ≡ grants'
    → size ≡ size'
    → Writes md grants size script out
    → Writes md grants' size' script out
Writes-same p q w = rw (← p, ← q) w

-- What a script leaves: what it wrote behind the old bytes if it returned.
data Ran (md : Md) (script : Script) (s : State) : Status × State → Type 0 where
  returned :
      (out : List ℕ) {s' : State}
      → Writes md s.mem.grants (length s.sb.bytes) script out
      → Kept s s'
      → s'.sb.bytes ≡ s.sb.bytes ++ out
      → Ran md script s (ok, s')
  stopped : {e : Errno} {s' : State} → Kept s s' → Ran md script s (error e, s')
  threw : {s' : State} → Kept s s' → Ran md script s (raised, s')

module _ {md : Md} (p : List ℕ) (next : Bool → Script) {s t : State} where
  Ran-writes :
      {r : Status × State}
      → Kept s t
      → t.sb.bytes ≡ s.sb.bytes ++ p
      → Ran md (next true) t r
      → Ran md (put p next) s r
  Ran-writes k e (returned more w l f) =
      returned (p ++ more) (writes (rw (k.grants, e, length-append s.sb.bytes p) at w))
        (Kept-trans k l) (f ∙ ap (λ b. b ++ more) e ∙ append_assoc s.sb.bytes p more)
  Ran-writes k e (stopped l) = stopped (Kept-trans k l)
  Ran-writes k e (threw l) = threw (Kept-trans k l)

  Ran-is_refused :
      {r : Status × State}
      → CannotGrow md s.mem.grants (length s.sb.bytes + length p)
      → Kept s t
      → t.sb.bytes ≡ s.sb.bytes
      → Ran md (next false) t r
      → Ran md (put p next) s r
  Ran-is_refused why k e (returned more w l f) =
      returned more (is_refused why (rw (k.grants, e) at w)) (Kept-trans k l)
        (f ∙ ap (λ b. b ++ more) e)
  Ran-is_refused why k e (stopped l) = stopped (Kept-trans k l)
  Ran-is_refused why k e (threw l) = threw (Kept-trans k l)

module _ {md : Md} (good : IsMd md) where
  run_script-Ran :
      (script : Script) (s : State)
      → IsSmallScript script
      → IsOpen s
      → Ran md script s (run_script md script s)
  unfolding run_script serdebuf_writefn
  run_script-Ran finish s h o =
      returned [] finishes (Kept-refl o.valid) (sym (append-nil s.sb.bytes))
  run_script-Ran throw s h o = threw (Kept-refl o.valid)
  run_script-Ran (put p next) s h o =
      go (λ b t. run_script-Ran (next b) t (h.1 b)) (serdebuf_append md p s) refl
        (serdebuf_append-Outcome good p s o h.0)
    where
      denied :
          Denied md s (length s.sb.bytes + length p)
          → CannotGrow md s.mem.grants (length s.sb.bytes + length p)
      denied (inl (n, l, d)) = inl (n, d)
      denied (inr l) = inr l

      go :
          (ih : (b : Bool) (t : State) → IsOpen t → Ran md (next b) t (run_script md (next b) t))
          (r : Status × State)
          → serdebuf_append md p s ≡ r
          → Outcome md s (some p) r
          → Ran md
              (put p next)
              s
              (run_script md (next (serdebuf_writefn md r).0) (serdebuf_writefn md r).1)
      go ih _ q (wrote {s' = t} k e) = Ran-writes p next k e (ih true t (Kept-IsOpen o k))
      go ih _ q (no_memory {s' = t} k b) =
          Ran-is_refused p next (denied b) k (serdebuf_append_failed md p s o q)
            (ih false t (Kept-IsOpen o k))

-- What the method wrote behind its length, if it returned and every other step went well.
pub data Framed (md : Md) (script : Script) (s : State) : Status × State → Type 0 where
  framed :
      (out : List ℕ) {s' : State}
      → Writes md s.mem.grants (length s.sb.bytes + 8) script out
      → Kept s s'
      → s'.sb.bytes ≡ s.sb.bytes ++ (le 8 (length out) ++ out)
      → Framed md script s (ok, s')
  failed : {e : Errno} {s' : State} → Kept s s' → Framed md script s (error e, s')
  method_failed : {s' : State} → Kept s s' → Framed md script s (raised, s')

module _ {md : Md} (good : IsMd md) where
  opened_stream-Ran :
      (fwopen : Option Errno) (script : Script) (s : State)
      → IsSmallScript script
      → IsOpen s
      → Ran md script s (opened_stream md fwopen script s)
  unfolding opened_stream
  opened_stream-Ran none script s h o = run_script-Ran good script s h o
  opened_stream-Ran (some e) script s h o = stopped (Kept-refl o.valid)

  -- the size goes in front of what the method wrote
  Framed-Ran :
      (script : Script) (s t : State) (r : Status × State)
      → Kept s t
      → t.sb.bytes ≡ s.sb.bytes ++ le 8 0
      → Ran md script t r
      → Framed md script s (and_then r (put_size (serdebuf_size t)))
  Framed-Ran script s t _ k e (returned out {s' = u} w l f) =
      rw (put_size-patch out t u s.sb.bytes e behind) (
        framed out (rw (k.grants, e, length-append s.sb.bytes (le 8 0), length-le 8 0) at w)
          (Kept-patch u s.sb.bytes (le 8 0) (le 8 (length out)) out behind same (Kept-trans k l))
          (bytes-patch u s.sb.bytes (le 8 0) (le 8 (length out)) out behind same))
    where
      behind : u.sb.bytes ≡ s.sb.bytes ++ (le 8 0 ++ out)
      behind = f ∙ ap (λ b. b ++ out) e ∙ append_assoc s.sb.bytes (le 8 0) out

      same : length (le 8 (length out)) ≡ length (le 8 0)
      same = length-le 8 (length out) ∙ sym (length-le 8 0)
  Framed-Ran script s t _ k e (stopped l) = failed (Kept-trans k l)
  Framed-Ran script s t _ k e (threw l) = method_failed (Kept-trans k l)

  -- Whatever a `serialize` method does with its stream, `serdebuf_serialize_custom` keeps the buffer in
  -- its bounds and in its block, and no other block comes or goes. If it answers 0, what it added to
  -- the buffer is what the method wrote with its length in front. No single write is larger than memory.
  pub serdebuf_serialize_custom-Framed :
      (fwopen : Option Errno) (script : Script) (s : State)
      → IsSmallScript script
      → IsOpen s
      → Framed md script s (serdebuf_serialize_custom md fwopen script s)
  unfolding serdebuf_serialize_custom
  serdebuf_serialize_custom-Framed fwopen script s h o =
      split (serdebuf_append md (le 8 0) s)
        (serdebuf_append-Outcome good (le 8 0) s o (rw length-le (omega arith)))
    where
      split :
          (r : Status × State)
          → Outcome md s (some (le 8 0)) r
          → Framed md script s
              (and_then r (λ t. (opened_stream md fwopen script >> put_size (serdebuf_size t)) t))
      split _ (wrote {s' = t} k e) =
          Framed-Ran script s t _ k e (opened_stream-Ran fwopen script t h (Kept-IsOpen o k))
      split _ (no_memory k b) = failed k
