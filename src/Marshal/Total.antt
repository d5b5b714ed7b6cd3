-- ===== src/Marshal/Total.antt =====
-- Serialization where the allocator gives what it is asked for.
use flua_ck.Base.{leb, ℕ, ◌+◌, ◌*◌, ◌≤◌, ◌<◌, ◌≡◌, inl, inr, true, some, List, arith, length}
use flua_ck.Memory.{granted, Mem, size_limit, update, IsFresh}
use flua_ck.Serdebuf.{Md, State, Status}
use flua_ck.Serdebuf.Bounds.{IsMd}
use flua_ck.Serialize.{Lua, init_size}
use flua_ck.Serialize.Format.{encode, IsPlain, IsSmall}
use flua_ck.Value.{Value}
use flua_ck.Marshal.{Marshalled, block, marshal}
use flua_ck.Marshal.Cases.{Advanced, Refused, Cases, stored, denied, leaked, marshal-Cases}

-- Every request from now on is granted, and the value is not too large for an allocation.
pub record IsRoomy (md : Md) (m : Mem) (v : Value) (e : List ℕ) : Type 0 where
  pub granting : (n : ℕ) → m.tick ≤ n → m.grants n ≡ true
  pub bytes : 2 * length e + md.pagesize ≤ size_limit
  pub guess : init_size md v ≤ size_limit

pub not-Refused :
    {md : Md} {m : Mem} {v : Value} {e : List ℕ} → IsRoomy md m v e → Refused md m v (some e) → ⊥
not-Refused r (inl (n, l, h)) = cc (r.granting n l)
not-Refused r (inr (inl h)) = absurd (omega (arith, r.bytes))
not-Refused r (inr (inr h)) = absurd (omega (arith, r.guess))

pub data Stored (m : Mem) (e : List ℕ) : Marshalled × Mem → Type 0 where
  kept :
      {m' : Mem}
      → Advanced m m'
      → m.tick < m'.tick
      → m'.cell ≡ update m.cell m.tick (some e)
      → Stored m e (block m.tick, m')

Stored-of_Cases :
    {md : Md} {v : Value} {m : Mem} {e : List ℕ} {r : Marshalled × Mem}
    → IsRoomy md m v e
    → Cases md v m (some e) r
    → Stored m e r
Stored-of_Cases room (stored a l h) = kept a l h
Stored-of_Cases room (denied q w a h) = absurd (not-Refused room w)
Stored-of_Cases room (leaked w a l h) = absurd (not-Refused room (inl w))

module _ {md : Md} (good : IsMd md) (lua : Lua) (custom : ℕ → Value → State → Status × State) where
  -- If the allocator grants every request, and the value is not too large, the value's bytes end up
  -- in one new block, and nothing else changes.
  pub marshal_total :
      (v : Value) (e : List ℕ) (m : Mem)
      → IsPlain v
      → IsSmall lua v
      → IsFresh m
      → encode lua v ≡ some e
      → IsRoomy md m v e
      → Stored m e (marshal md lua custom v m)
  marshal_total v e m p small fresh h room =
      Stored-of_Cases room (rw h at (marshal-Cases good lua custom v m p small fresh))

le→leb : (a b : ℕ) → a ≤ b → leb a b ≡ true
le→leb a b h = ground arith

-- The requests that come after are granted too.
pub granted-Advanced :
    (size : ℕ) (m m' : Mem)
    → Advanced m m'
    → ((n : ℕ) → m.tick ≤ n → m.grants n ≡ true)
    → size ≤ size_limit
    → granted size m' ≡ true
granted-Advanced size m m' a grants small =
    rw (a.grants, grants m'.tick a.later) (le→leb size size_limit small)
