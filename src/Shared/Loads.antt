-- ===== src/Shared/Loads.antt =====
-- shared.c: a new "shared.const" cell and what it loads.
use Prim.Native.String.{String}
use flua_ck.Base.{
  ℕ, ◌+◌, ◌^◌, ◌<◌, ◌≡◌, refl, ap, ◌∙◌, Bool, true, false, Option, some, List, [], ◌∷◌, arith,
  ==_self, if◌then◌else◌, length,
}
use flua_ck.Base.Words.{le, un_le-le}
use flua_ck.Handle.{World, Answer, values, raises, load_error, create, new}
use flua_ck.Handle.Methods.{create-checkcookie, with_object-open}
use flua_ck.Load.{Loaded, invalid_env}
use flua_ck.Load.RoundTrip.{reloaded, IsLoadable, loadshared-encode}
use flua_ck.Marshal.Total.{IsRoomy, granted-Advanced}
use flua_ck.Memory.{Mem, granted, update, malloc-granted}
use flua_ck.Serdebuf.Bounds.{IsMd}
use flua_ck.Serialize.Format.{encode, IsPlain, IsSmall}
use flua_ck.Shared.{
  RcShared, Serialized, sizeof_rcshared, shared_const_metatable, pointer_of, filled, made_shared,
  newshared, shared_const_new, answer_shared, load_bytes, load_pointee, shared_const_load,
}
use flua_ck.Shared.Made.{Into, into, serialize-Into}
use flua_ck.Transport.{Runtime}
use flua_ck.Value.{Value}

-- what `load` answers for the bytes of a value
abbrev pub shared_value : Runtime → Value → Answer
shared_value rt v =
    if rt.garbage
    then raises (load_error invalid_env)
    else values (reloaded rt.lua rt.globals v ∷ [])

pub load_bytes-encode :
    (rt : Runtime) (v : Value) (e : List ℕ)
    → encode rt.lua v ≡ some e
    → IsLoadable rt.lua v
    → load_bytes rt (some e) ≡ shared_value rt v
unfolding load_bytes answer_shared
load_bytes-encode rt v e h l =
    ap (answer_shared rt) (loadshared-encode rt.lua rt.globals rt.load_custom v e rt.garbage h l)
    ∙ split rt.garbage
  where
    split :
        (b : Bool)
        → answer_shared rt (
            if b
            then Loaded.failed invalid_env true
            else Loaded.loaded [] false (reloaded rt.lua rt.globals v ∷ []))
          ≡ (if b
              then raises (load_error invalid_env)
              else values (reloaded rt.lua rt.globals v ∷ []))
    split true = refl
    split false = refl

-- The world `w` with a new cell: blocks for the struct, for the bytes and for the pointer to them.
pub data NewShared (metatable : String) (w : World RcShared) (e : List ℕ)
    : Answer × World RcShared → Type 0 where
  shared :
      (q : ℕ) (m' : Mem)
      → w.mem.tick + 1 < q
      → m'.cell
        ≡ update
            (update (update w.mem.cell w.mem.tick (some [])) (w.mem.tick + 1) (some e))
            q
            (some (le 8 (w.mem.tick + 1)))
      → NewShared metatable w e
          (create w.mem.tick (record { serialized = q }) metatable (record w { mem = m' }))

-- the pointer that was written last
pub pointer_of-le :
    (f g : ℕ → Option (List ℕ)) (q b : ℕ)
    → b < 2 ^ 64
    → f ≡ update g q (some (le 8 b))
    → pointer_of (f q) ≡ some b
unfolding pointer_of
pointer_of-le f g q b small c =
    ap (λ h. pointer_of (h q)) c ∙ rw (==_self q) (ap some (un_le-le 8 b small))

module _ (rt : Runtime) (good : IsMd rt.md) where
  pub newshared-NewShared :
      (metatable : String) (v : Value) (vs : List Value) (e : List ℕ) (w : World RcShared)
      → IsRoomy rt.md w.mem v e
      → IsPlain v
      → IsSmall rt.lua v
      → encode rt.lua v ≡ some e
      → NewShared metatable w e (newshared rt metatable (v ∷ vs) w)
  unfolding newshared made_shared filled
  newshared-NewShared metatable v vs e w room p small h =
      rw (malloc-granted sizeof_rcshared w.mem first) (
        from_Into (
          serialize-Into rt good v e next
            (record {
              granting = λ n l. room.granting n (omega (arith, l));
              bytes = room.bytes;
              guess = room.guess;
            })
            p small h))
    where
      first : granted sizeof_rcshared w.mem ≡ true
      first =
          granted-Advanced sizeof_rcshared w.mem w.mem
            (record { grants = refl; later = omega arith }) room.granting (omega arith)

      next : Mem
      next = record (w.mem) { cell = update w.mem.cell w.mem.tick (some []); tick = w.mem.tick + 1 }

      from_Into :
          {r : Serialized × Mem}
          → Into next e r
          → NewShared metatable w e (filled rt metatable w.mem.tick (record w { mem = next }) r)
      from_Into (into {q} {m'} a l g c) = shared q m' l c

  -- A new cell: `load` answers the value, with `_ENV` of the loading state in the place of the
  -- closure's own, where the allocator gives what it is asked for.
  pub shared_const_new-load :
      (v : Value) (vs : List Value) (e : List ℕ) (w : World RcShared)
      → IsRoomy rt.md w.mem v e
      → w.mem.tick + 1 < 2 ^ 64
      → IsPlain v
      → IsSmall rt.lua v
      → IsLoadable rt.lua v
      → encode rt.lua v ≡ some e
      → (shared_const_load rt (length w.handles) (shared_const_new rt (v ∷ vs) w).1).0
        ≡ shared_value rt v
  unfolding shared_const_new shared_const_load create new pointer_of load_pointee
  shared_const_new-load v vs e w room few p small loadable h =
      loads (newshared-NewShared shared_const_metatable v vs e w room p small h)
    where
      through :
          (q : ℕ) (m' : Mem)
          → w.mem.tick + 1 < q
          → m'.cell
            ≡ update
                (update (update w.mem.cell w.mem.tick (some [])) (w.mem.tick + 1) (some e))
                q
                (some (le 8 (w.mem.tick + 1)))
          → load_pointee rt m' (pointer_of (m'.cell q)) ≡ shared_value rt v
      through q m' l c =
          ap (load_pointee rt m') (pointer_of-le m'.cell _ q (w.mem.tick + 1) few c)
          ∙ ap (load_bytes rt) at_bytes
          ∙ load_bytes-encode rt v e h loadable
        where
          at_bytes : m'.cell (w.mem.tick + 1) ≡ some e
          at_bytes = ap (λ f. f (w.mem.tick + 1)) c ∙ ground (arith, l)

      loads :
          {r : Answer × World RcShared}
          → NewShared shared_const_metatable w e r
          → (shared_const_load rt (length w.handles) r.1).0 ≡ shared_value rt v
      loads (shared q m' l c) =
          let (checked, there) =
            create-checkcookie w.mem.tick (record { serialized = q }) shared_const_metatable
              (record w { mem = m' }) refl in
          ap (λ r. r.0)
            (with_object-open shared_const_metatable (length w.handles) w.mem.tick _ _ _ checked
              there)
          ∙ through q m' l c
