-- ===== src/Methods/Kinds.antt =====
-- The functions that make a userdata against the methods that Lua finds for it.
use Prim.Native.String.{String}
use flua_ck.Base.{ℕ, ◌%◌, ◌^◌, ◌≡◌, refl, true, Option, none, some, List, [], get_elem?}
use flua_ck.Cell.{CkPr, LuaTo, RcSharedPr, shared_pr_metatable, shared_pr_retain}
use flua_ck.Cell.Makes.{shared_pr_new-Makes}
use flua_ck.Ec.{CkEc, l_ck_ec32_new, l_ck_ec32_retain, l_ck_ec64_new, l_ck_ec64_retain}
use flua_ck.Fifo.Makes.{new_fifo-Makes}
use flua_ck.Fifo.Mpmc.{CkFifoMpmc, l_ck_fifo_mpmc_new, l_ck_fifo_mpmc_retain}
use flua_ck.Fifo.Spsc.{CkFifoSpsc, l_ck_fifo_spsc_new, l_ck_fifo_spsc_retain}
use flua_ck.Handle.{World, Handle, userdata}
use flua_ck.Handle.Makes.{Makes, retain-Makes}
use flua_ck.Methods.{
  Method, Metatable, Constructor, find_field, newmetatable, find_metatable, method_in,
  index_metatable, method_of, lua_method,
}
use flua_ck.Methods.Fields.{AllFields, ◌&◌, none_left, find_field-AllFields}
use flua_ck.Methods.Functions.{
  l_ck_ring_funcs, l_ck_fifo_spsc_funcs, l_ck_fifo_mpmc_funcs, l_ck_sequence_funcs, l_ck_ec32_funcs,
  l_ck_ec64_funcs, l_ck_shared_const_funcs, l_ck_shared_pr_funcs,
}
use flua_ck.Methods.Open.{
  l_ck_ring_meta, luaopen_ck_ring, l_ck_fifo_spsc_meta, l_ck_fifo_mpmc_meta, luaopen_ck_fifo,
  l_ck_sequence_meta, luaopen_ck_sequence, l_ck_ec32_meta, l_ck_ec64_meta, luaopen_ck_ec,
  l_ck_shared_const_meta, open_shared_const, l_ck_shared_pr_meta, open_shared_pr,
}
use flua_ck.Ring.{Kind, spsc, mpmc, spmc, mpsc, metatable, CkRing, RcRing, retainring}
use flua_ck.Ring.Makes.{newring-Makes}
use flua_ck.Ring.Kinds.{
  l_ck_ring_spsc_new, l_ck_ring_spsc_retain, l_ck_ring_mpmc_new, l_ck_ring_mpmc_retain,
  l_ck_ring_spmc_new, l_ck_ring_spmc_retain, l_ck_ring_mpsc_new, l_ck_ring_mpsc_retain,
}
use flua_ck.Sequence.{CkSequence, l_ck_sequence_new, l_ck_sequence_retain}
use flua_ck.Shared.{
  RcShared, shared_const_metatable, shared_const_new, shared_const_retain, retainshared,
}
use flua_ck.Shared.Makes.{newshared-Makes}
use flua_ck.Struct.Makes.{new_struct-Makes}
use flua_ck.Transport.{Runtime}

-- The metatables `ts` of an opened module, the functions `fs` of one of its tables, and the methods
-- `ms` of the metatable that belongs to the table.
pub data IsKind
    : (A : Type 0)
      → List (Metatable A)
      → List (String × Constructor A)
      → List (String × Method A)
      → Type 1 where
  kind_ring :
      {R : Type 0} (ck : CkRing R) (rt : Runtime) (kind : Kind)
      → IsKind
          (RcRing R)
          (luaopen_ck_ring ck rt [])
          (l_ck_ring_funcs ck rt kind)
          (l_ck_ring_meta ck rt kind)
  kind_fifo_spsc :
      {F : Type 0} (rt : Runtime) (ck_spsc : CkFifoSpsc F) (ck_mpmc : CkFifoMpmc F)
      → IsKind F
          (luaopen_ck_fifo rt ck_spsc ck_mpmc [])
          (l_ck_fifo_spsc_funcs ck_spsc)
          (l_ck_fifo_spsc_meta rt ck_spsc)
  kind_fifo_mpmc :
      {F : Type 0} (rt : Runtime) (ck_spsc : CkFifoSpsc F) (ck_mpmc : CkFifoMpmc F)
      → IsKind F
          (luaopen_ck_fifo rt ck_spsc ck_mpmc [])
          (l_ck_fifo_mpmc_funcs ck_mpmc)
          (l_ck_fifo_mpmc_meta rt ck_mpmc)
  kind_sequence :
      {S : Type 0} (ck : CkSequence S)
      → IsKind S (luaopen_ck_sequence ck []) (l_ck_sequence_funcs ck) (l_ck_sequence_meta ck)
  kind_ec32 :
      {E : Type 0} (ec32 : CkEc E) (ec64 : Option (CkEc E))
      → IsKind E (luaopen_ck_ec ec32 ec64 []) (l_ck_ec32_funcs ec32) (l_ck_ec32_meta ec32)
  kind_ec64 :
      {E : Type 0} (ec32 ec64 : CkEc E)
      → IsKind E (luaopen_ck_ec ec32 (some ec64) []) (l_ck_ec64_funcs ec64) (l_ck_ec64_meta ec64)
  kind_const :
      (rt : Runtime)
      → IsKind RcShared
          (open_shared_const rt [])
          (l_ck_shared_const_funcs rt)
          (l_ck_shared_const_meta rt)
  kind_pr :
      (pr : CkPr) (to : LuaTo)
      → IsKind RcSharedPr
          (open_shared_pr pr to [])
          (l_ck_shared_pr_funcs to)
          (l_ck_shared_pr_meta pr to)

module _ {A : Type 0} where
  abbrev MakesOnly : String → Constructor A → Type 0
  MakesOnly metatable f = (args : f.Args) (w : World A) → Makes metatable (f.run args w)

  -- the metatable `name` has these methods
  abbrev Holds : List (Metatable A) → List (String × Method A) → String → Type 1
  Holds ts ms name =
      find_metatable name ts ≡ some (record { name = name; indexes_itself = true; fields = ms })

  pub record Kept (ts : List (Metatable A)) (fs : List (String × Constructor A))
      (ms : List (String × Method A)) : Type 1 where
    pub name : String
    pub makes : AllFields (MakesOnly name) fs
    pub holds : Holds ts ms name

  found_method :
      (ts : List (Metatable A)) (ms : List (String × Method A)) (metatable name : String) (u : ℕ)
      (w : World A) (h : Handle)
      → Holds ts ms metatable
      → get_elem? w.handles u ≡ some h
      → h.metatable ≡ metatable
      → lua_method ts name u w ≡ find_field name ms
  unfolding lua_method method_of method_in index_metatable
  found_method ts ms metatable name u w h holds here same = rw (here, same, holds) refl

module _ {R : Type 0} (ck : CkRing R) (rt : Runtime) where
  ring-Kept :
      (kind : Kind)
      → Kept (luaopen_ck_ring ck rt []) (l_ck_ring_funcs ck rt kind) (l_ck_ring_meta ck rt kind)
  unfolding luaopen_ck_ring newmetatable find_metatable metatable l_ck_ring_funcs retainring
      l_ck_ring_spsc_new l_ck_ring_spsc_retain l_ck_ring_mpmc_new l_ck_ring_mpmc_retain
      l_ck_ring_spmc_new l_ck_ring_spmc_retain l_ck_ring_mpsc_new l_ck_ring_mpsc_retain
  ring-Kept spsc = record {
    name = metatable spsc;
    makes =
        (λ size w. newring-Makes ck spsc size w)
        & (λ p w. retain-Makes (metatable spsc) p w)
        & none_left;
    holds = refl;
  }
  ring-Kept mpmc = record {
    name = metatable mpmc;
    makes =
        (λ size w. newring-Makes ck mpmc size w)
        & (λ p w. retain-Makes (metatable mpmc) p w)
        & none_left;
    holds = refl;
  }
  ring-Kept spmc = record {
    name = metatable spmc;
    makes =
        (λ size w. newring-Makes ck spmc size w)
        & (λ p w. retain-Makes (metatable spmc) p w)
        & none_left;
    holds = refl;
  }
  ring-Kept mpsc = record {
    name = metatable mpsc;
    makes =
        (λ size w. newring-Makes ck mpsc size w)
        & (λ p w. retain-Makes (metatable mpsc) p w)
        & none_left;
    holds = refl;
  }

module _ {F : Type 0} (rt : Runtime) (ck_spsc : CkFifoSpsc F) (ck_mpmc : CkFifoMpmc F) where
  fifo_spsc-Kept :
      Kept
        (luaopen_ck_fifo rt ck_spsc ck_mpmc [])
        (l_ck_fifo_spsc_funcs ck_spsc)
        (l_ck_fifo_spsc_meta rt ck_spsc)
  unfolding luaopen_ck_fifo newmetatable find_metatable l_ck_fifo_spsc_funcs l_ck_fifo_spsc_new
      l_ck_fifo_spsc_retain
  fifo_spsc-Kept = record {
    name = "fifo.spsc";
    makes =
        (λ u w. new_fifo-Makes ck_spsc.init "fifo.spsc" ck_spsc.sizeof_fifo ck_spsc.sizeof_entry w)
        & (λ p w. retain-Makes "fifo.spsc" p w)
        & none_left;
    holds = refl;
  }

  fifo_mpmc-Kept :
      Kept
        (luaopen_ck_fifo rt ck_spsc ck_mpmc [])
        (l_ck_fifo_mpmc_funcs ck_mpmc)
        (l_ck_fifo_mpmc_meta rt ck_mpmc)
  unfolding luaopen_ck_fifo newmetatable find_metatable l_ck_fifo_mpmc_funcs l_ck_fifo_mpmc_new
      l_ck_fifo_mpmc_retain
  fifo_mpmc-Kept = record {
    name = "fifo.mpmc";
    makes =
        (λ u w. new_fifo-Makes ck_mpmc.init "fifo.mpmc" ck_mpmc.sizeof_fifo ck_mpmc.sizeof_entry w)
        & (λ p w. retain-Makes "fifo.mpmc" p w)
        & none_left;
    holds = refl;
  }

sequence-Kept :
    {S : Type 0} (ck : CkSequence S)
    → Kept (luaopen_ck_sequence ck []) (l_ck_sequence_funcs ck) (l_ck_sequence_meta ck)
unfolding luaopen_ck_sequence newmetatable find_metatable l_ck_sequence_funcs l_ck_sequence_new
    l_ck_sequence_retain
sequence-Kept ck = record {
  name = "sequence";
  makes =
      (λ u w. new_struct-Makes "sequence" ck.sizeof_rcsequence ck.init w)
      & (λ p w. retain-Makes "sequence" p w)
      & none_left;
  holds = refl;
}

module _ {E : Type 0} where
  ec32-Kept :
      (ec32 : CkEc E) (ec64 : Option (CkEc E))
      → Kept (luaopen_ck_ec ec32 ec64 []) (l_ck_ec32_funcs ec32) (l_ck_ec32_meta ec32)
  unfolding luaopen_ck_ec newmetatable find_metatable l_ck_ec32_funcs l_ck_ec32_new l_ck_ec32_retain
  ec32-Kept ec32 ec64 = record {
    name = "ck_ec32_t";
    makes =
        (λ n w. new_struct-Makes "ck_ec32_t" ec32.sizeof_rcec (ec32.init (n % 2 ^ 32)) w)
        & (λ p w. retain-Makes "ck_ec32_t" p w)
        & none_left;
    holds = by_width ec64;
  }
    where
      by_width :
          (e : Option (CkEc E)) → Holds (luaopen_ck_ec ec32 e []) (l_ck_ec32_meta ec32) "ck_ec32_t"
      by_width none = refl
      by_width (some e) = refl

  ec64-Kept :
      (ec32 ec64 : CkEc E)
      → Kept (luaopen_ck_ec ec32 (some ec64) []) (l_ck_ec64_funcs ec64) (l_ck_ec64_meta ec64)
  unfolding luaopen_ck_ec newmetatable find_metatable l_ck_ec64_funcs l_ck_ec64_new l_ck_ec64_retain
  ec64-Kept ec32 ec64 = record {
    name = "ck_ec64_t";
    makes =
        (λ n w. new_struct-Makes "ck_ec64_t" ec64.sizeof_rcec (ec64.init (n % 2 ^ 64)) w)
        & (λ p w. retain-Makes "ck_ec64_t" p w)
        & none_left;
    holds = refl;
  }

const-Kept :
    (rt : Runtime)
    → Kept (open_shared_const rt []) (l_ck_shared_const_funcs rt) (l_ck_shared_const_meta rt)
unfolding open_shared_const newmetatable find_metatable l_ck_shared_const_funcs shared_const_new
    shared_const_retain retainshared
const-Kept rt = record {
  name = shared_const_metatable;
  makes =
      (λ args w. newshared-Makes rt shared_const_metatable args w)
      & (λ p w. retain-Makes shared_const_metatable p w)
      & none_left;
  holds = refl;
}

pr-Kept :
    (pr : CkPr) (to : LuaTo)
    → Kept (open_shared_pr pr to []) (l_ck_shared_pr_funcs to) (l_ck_shared_pr_meta pr to)
unfolding open_shared_pr newmetatable find_metatable l_ck_shared_pr_funcs shared_pr_retain
pr-Kept pr to = record {
  name = shared_pr_metatable;
  makes =
      (λ args w. shared_pr_new-Makes to args w)
      & (λ p w. retain-Makes shared_pr_metatable p w)
      & none_left;
  holds = refl;
}

IsKind-Kept :
    (A : Type 0) (ts : List (Metatable A)) (fs : List (String × Constructor A))
    (ms : List (String × Method A))
    → IsKind A ts fs ms
    → Kept ts fs ms
IsKind-Kept A ts fs ms (kind_ring ck rt kind) = ring-Kept ck rt kind
IsKind-Kept A ts fs ms (kind_fifo_spsc rt ck_spsc ck_mpmc) = fifo_spsc-Kept rt ck_spsc ck_mpmc
IsKind-Kept A ts fs ms (kind_fifo_mpmc rt ck_spsc ck_mpmc) = fifo_mpmc-Kept rt ck_spsc ck_mpmc
IsKind-Kept A ts fs ms (kind_sequence ck) = sequence-Kept ck
IsKind-Kept A ts fs ms (kind_ec32 ec32 ec64) = ec32-Kept ec32 ec64
IsKind-Kept A ts fs ms (kind_ec64 ec32 ec64) = ec64-Kept ec32 ec64
IsKind-Kept A ts fs ms (kind_const rt) = const-Kept rt
IsKind-Kept A ts fs ms (kind_pr pr to) = pr-Kept pr to

-- A userdata that a function of one of the tables (`new`, `retain`) gives to Lua has the methods of the
-- metatable that belongs to this table, and no others.
pub lua_method-find_field :
    (A : Type 0) (ts : List (Metatable A)) (fs : List (String × Constructor A))
    (ms : List (String × Method A)) (function name : String) (f : Constructor A) (args : f.Args)
    (w : World A) (u : ℕ)
    → IsKind A ts fs ms
    → find_field function fs ≡ some f
    → (f.run args w).0 ≡ userdata u
    → lua_method ts name u (f.run args w).1 ≡ find_field name ms
lua_method-find_field A ts fs ms function name f args w u kind found made =
    let kept = IsKind-Kept A ts fs ms kind in
    let (h, here, same) =
      find_field-AllFields (MakesOnly kept.name) function fs kept.makes found args w u made in
    found_method ts ms kept.name name u (f.run args w).1 h kept.holds here same
