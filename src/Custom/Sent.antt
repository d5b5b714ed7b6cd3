-- ===== src/Custom/Sent.antt =====
-- serdebuf.c: serdebuf_serialize of an object with methods, on all outcomes.
use flua_ck.Base.{
  ℕ, ◌+◌, length-append, sym, ◌≤◌, ◌≡◌, refl, ap, ◌∙◌, ◌&&◌, inl, inr, Bool, true, false,
  Bool-cases, Option, some, List, [], ◌∷◌, ◌++◌, append_assoc, arith, length,
}
use flua_ck.Base.Words.{le}
use flua_ck.Cache.{CkHt, Cache, Cached, serde_cache_capacity}
use flua_ck.Cache.Entries.{CkHtLaws, HasType, IsCache, Grown, IsCache-mem}
use flua_ck.Cache.Insert.{Others, Done, answered, no_type, full, asserted}
use flua_ck.Cache.Types.{next-Private, cache_serde-Done}
use flua_ck.Custom.{
  Session, Served, served, overran, aborts, state_of, session_of, returned, call_serialize,
  with_type, after_code, serialize_object,
}
use flua_ck.Serdebuf.{Md, Errno, Status, ok, error, raised, State, Serdebuf, patch, serdebuf_append}
use flua_ck.Serdebuf.Append.{
  IsOpen, Kept, Kept-refl, Kept-IsOpen, Outcome, wrote, no_memory, serdebuf_append-Outcome,
}
use flua_ck.Serdebuf.Bounds.{IsMd, IsValid}
use flua_ck.Serdebuf.Compose.{bytes-patch, Kept-patch}
use flua_ck.Serialize.Custom.{
  Script, IsSmallScript, Writes, Writes-same, Framed, framed, method_failed,
  serdebuf_serialize_custom-Framed,
}
use flua_ck.Serialize.Custom.{failed as write_failed}
use flua_ck.Serialize.{Lua}
use flua_ck.Serialize.Format.{encode, IsPlain, IsSmall}
use flua_ck.Transport.{Runtime}
use flua_ck.Value.{Value, type_code, lua_isfunction}

-- the bytes of an object of type `t`, whose `serialize` method has written `out`
abbrev pub frame : ℕ → List ℕ → List ℕ
frame t out = t ∷ (le 8 (length out) ++ out)

module _ {H : Type 0} (ht : CkHt H) (lua : Lua) where
  -- What holds of the cache whatever the answer is, and that the buffer stays in its block.
  pub record Sound (a b : Session H) : Type 0 where
    pub cache : IsCache ht lua b.cache
    pub grown : Grown ht lua a.cache b.cache
    pub buf : b.sb.buf ≡ a.sb.buf
    pub valid : IsValid (state_of b)

  -- What serdebuf_serialize may do with an object that has these methods.
  pub data Sent (md : Md) (script : Script) (a : Session H) (ser de : Value)
      : Served H → Type 0 where
    sent :
        (t : ℕ) (out : List ℕ) {b : Session H}
        → Writes md b.cache.mem.grants (length a.sb.bytes + 9) script out
        → Sound a b
        → HasType ht lua b.cache ser de t
        → b.sb.bytes ≡ a.sb.bytes ++ frame t out
        → Sent md script a ser de (served ok b)
    unsent : {e : Errno} {b : Session H} → Sound a b → Sent md script a ser de (served (error e) b)
    method_raised : {b : Session H} → Sound a b → Sent md script a ser de (served raised b)
    array_full :
        {b : Session H}
        → Sound a b
        → serde_cache_capacity ≤ length b.cache.blocks
        → Sent md script a ser de (overran b)
    assertion_fails :
        {b : Session H}
        → (lua_isfunction ser && lua_isfunction de) ≡ false
        → Sent md script a ser de (aborts b)

module _ {H : Type 0} {ht : CkHt H} (laws : CkHtLaws ht) (rt : Runtime) (good : IsMd rt.md) where
  -- the cache after a step on the buffer
  IsCache-Kept :
      (c : Cache H) {s s' : State}
      → s.mem ≡ c.mem
      → Kept s s'
      → IsCache ht rt.lua c
      → IsCache ht rt.lua (record c { mem = s'.mem })
  IsCache-Kept c {s} {s'} e k h =
      IsCache-mem ht rt.lua c.mem.tick c s'.mem h (next-Private laws rt.lua c h)
        (λ p n. ap (λ f. f p) same) later
        (λ q l. ap (λ f. f q) same ∙ h.fresh q (omega (arith, later, l)))
    where
      same : s'.mem.cell ≡ c.mem.cell
      same = k.cell ∙ ap (λ m. m.cell) e

      later : c.mem.tick ≤ s'.mem.tick
      later = omega (arith, k.later, ap (λ m. m.tick) e)

  -- The cache and the buffer's block stay in order through a step.
  Sound-Kept :
      (a : Session H) (c : Cache H) {s s' : State}
      → s.mem ≡ c.mem
      → s.sb.buf ≡ a.sb.buf
      → Kept s s'
      → IsCache ht rt.lua c
      → Grown ht rt.lua a.cache c
      → Sound ht rt.lua a (session_of c s')
  Sound-Kept a c e buf k h g = record {
    cache = IsCache-Kept c e k h;
    grown = g;
    buf = k.buf ∙ buf;
    valid = k.valid;
  }

  Sound-still :
      (a : Session H) (c : Cache H) (sb : Serdebuf) {m : _}
      → IsCache ht rt.lua c
      → Grown ht rt.lua a.cache c
      → sb.buf ≡ a.sb.buf
      → IsValid (record { sb = sb; mem = m })
      → Sound ht rt.lua a (record { sb = sb; cache = c })
  Sound-still a c sb h g buf v = record {
    cache = h;
    grown = g;
    buf = buf;
    valid = record { within = v.within; small = v.small };
  }

  module _ (fwopen : Option Errno) (script : Script) (small : IsSmallScript script) (a : Session H)
      (ser de : Value) where
    method-Sent :
        (c : Cache H) (t : ℕ) (s : State) (r : Status × State)
        → IsCache ht rt.lua c
        → Grown ht rt.lua a.cache c
        → HasType ht rt.lua c ser de t
        → s.mem ≡ c.mem
        → s.sb.buf ≡ a.sb.buf
        → s.sb.bytes ≡ a.sb.bytes ++ (t ∷ [])
        → Framed rt.md script s r
        → Sent ht rt.lua rt.md script a ser de (returned c r)
    unfolding returned
    method-Sent c t s _ h g ty e buf b (framed out w k f) =
        sent t out (Writes-same (sym k.grants) size w) (Sound-Kept a c e buf k h g) ty (
          f
          ∙ ap (λ x. x ++ (le 8 (length out) ++ out)) b
          ∙ append_assoc a.sb.bytes (t ∷ []) (le 8 (length out) ++ out))
      where
        size : length s.sb.bytes + 8 ≡ length a.sb.bytes + 9
        size = omega (arith, ap length b, length-append a.sb.bytes (t ∷ []))
    method-Sent c t s _ h g ty e buf b (write_failed k) = unsent (Sound-Kept a c e buf k h g)
    method-Sent c t s _ h g ty e buf b (method_failed k) =
        method_raised (Sound-Kept a c e buf k h g)

    with_type-Sent :
        (u : State) (first : Cache H) (r : Cached × Cache H)
        → IsOpen (state_of a)
        → Kept (state_of a) u
        → u.sb.bytes ≡ a.sb.bytes ++ (9 ∷ [])
        → Grown ht rt.lua a.cache first
        → Done laws rt.lua first ser de r
        → Sent ht rt.lua rt.md script a ser de
            (with_type rt fwopen script ser (length a.sb.bytes) u.sb r)
    unfolding with_type call_serialize
    with_type-Sent u first _ o k b g (answered {t = t} {st' = c} h g' ty) =
        elim (Bool-cases (lua_isfunction ser)) [
          | inl fs ↦ rw fs (
              method-Sent c t (patch (length a.sb.bytes) (t ∷ []) before).1 _ h
                (λ key i at. g' key i (g key i at)) ty refl k.buf
                (bytes-patch before a.sb.bytes (9 ∷ []) (t ∷ []) [] b refl)
                (serdebuf_serialize_custom-Framed good fwopen script _ small (
                  Kept-IsOpen opened (
                    Kept-patch before a.sb.bytes (9 ∷ []) (t ∷ []) [] b refl
                      (Kept-refl opened.valid)))))
          | inr ns ↦ rw ns (assertion_fails (rw ns refl))
        ]
      where
        before : State
        before = record { sb = u.sb; mem = c.mem }

        opened : IsOpen before
        opened = record {
          valid = record { within = k.valid.within; small = k.valid.small };
          block = o.block;
          held = k.buf ∙ o.held;
        }
    with_type-Sent u first _ o k b g (no_type {st' = c} h g') =
        unsent (Sound-still a c u.sb h (λ key i at. g' key i (g key i at)) k.buf k.valid)
    with_type-Sent u first _ o k b g (full {st' = c} h g' l) =
        array_full (Sound-still a c u.sb h (λ key i at. g' key i (g key i at)) k.buf k.valid) l
    with_type-Sent u first _ o k b g (asserted fails) = assertion_fails fails

module _ {H : Type 0} {ht : CkHt H} (laws : CkHtLaws ht) (rt : Runtime) (good : IsMd rt.md)
    (rawequal : Value → Value → Bool) (raw : (a b : Value) → rawequal a b ≡ true → a ≡ b) where
  -- Whatever the allocator refuses, the method does and other threads do in between:
  -- serdebuf_serialize of an object keeps the buffer valid and in its block, keeps the cache in
  -- order and takes no index away. If it answers 0, it has appended the type that belongs to the
  -- bytes of the two methods, the number of bytes that the method wrote, and these bytes: those
  -- of its writes that succeeded, in their order, where a write fails only for want of memory.
  -- Else it answers an error, or the method raised one, or the array of 256 entries is full and
  -- it would write behind its end, or a method is not a function and an assertion fails.
  pub serialize_object-Sent :
      (fwopen : Option Errno) (script : Script) (others : Cache H → Cache H) (ser de : Value)
      (first second : List ℕ) (a : Session H)
      → ((b : ℕ) → Others laws rt.lua b others)
      → IsSmallScript script
      → IsPlain ser
      → IsPlain de
      → IsSmall rt.lua ser
      → IsSmall rt.lua de
      → encode rt.lua ser ≡ some first
      → encode rt.lua de ≡ some second
      → IsOpen (state_of a)
      → IsCache ht rt.lua a.cache
      → Sent ht rt.lua rt.md script a ser de
          (serialize_object rt fwopen script ht rawequal others ser de a)
  unfolding serialize_object type_code after_code returned
  serialize_object-Sent fwopen script others ser de first second a env small ps pd ss sd hs hd o h =
      split (serdebuf_append rt.md (9 ∷ []) (state_of a))
        (serdebuf_append-Outcome good (9 ∷ []) (state_of a) o (omega arith))
    where
      split :
          (r : Status × State)
          → Outcome rt.md (state_of a) (some (9 ∷ [])) r
          → Sent ht rt.lua rt.md script a ser de
              (after_code rt fwopen script ht rawequal others ser de (length a.sb.bytes) a.cache r)
      split _ (no_memory k b) =
          unsent (Sound-Kept laws rt good a a.cache refl refl k h (λ key i at. at))
      split _ (wrote {s' = u} k e) =
          with_type-Sent laws rt good fwopen script small a ser de u _ _ o k e (λ key i at. at)
            (cache_serde-Done laws rt good rawequal raw others ser de first second
              (record (a.cache) { mem = u.mem }) (env _) ps pd ss sd hs hd
              (IsCache-Kept laws rt good a.cache refl k h))
