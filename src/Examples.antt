-- ===== src/Examples.antt =====
-- Concrete machines, rings, values and memories on which the theorems are applied.
mod Serdes
mod Handles
mod Rings
mod Queues
mod Structs
mod Cells
mod Constants
mod Hazards
mod Caches
mod Wides
mod Objects
mod States
mod Modules
mod Tables
use Prim.Native.String.{String}
use flua_ck.Base.{
  ℕ, ◌+◌, ◌^◌, ◌≤◌, ◌<◌, ◌≡◌, refl, ap, sym, ◌∙◌, inl, inr, Bool, true, false, Option, none, some,
  List, [], ◌∷◌, ◌++◌, arith, ◌==◌, Bool-cases, if◌then◌else◌, length,
}
use mathlib.Core.Option.{some-injective}
use flua_ck.Load.{Loader, failed, invalid_type}
use flua_ck.Memory.{Mem, IsFresh}
use flua_ck.Ring.{Kind, CkRing}
use flua_ck.Ring.Contents.{CkRingLaws}
use flua_ck.Serdebuf.{Md, State, Status, einval, fail}
use flua_ck.Serdebuf.Bounds.{IsMd}
use flua_ck.Serialize.{Lua}
use flua_ck.Transport.{Runtime}
use flua_ck.Value.{Value, nil, integer, string, lclosure, end, upvalue}

-- x86-64
abbrev pub machine : Md
machine = record { cacheline = 64; pagesize = 4096 }

pub machine-IsMd : IsMd machine
machine-IsMd = record { line = omega arith; page = omega arith; small = omega arith }

abbrev first_byte : List ℕ → Option ℕ
first_byte [] = none
first_byte (p ∷ ps) = some p

-- A liblua whose chunks are one byte, and whose functions have two upvalues.
abbrev pub liblua : Lua
liblua = record { dump = λ p. (p ∷ []) ∷ []; undump = first_byte; nupvalues = λ p. 2 }

abbrev pub no_custom : ℕ → Value → State → Status × State
no_custom n v s = fail einval s

abbrev pub no_load_custom : ℕ → Loader
no_load_custom n bytes env stack = failed invalid_type env

abbrev pub runtime : Runtime
runtime = record {
  md = machine;
  lua = liblua;
  custom = no_custom;
  load_custom = no_load_custom;
  globals = integer 99;
  garbage = false;
}

-- no block yet, and every request granted
abbrev pub empty_memory : Mem
empty_memory = record { cell = λ p. none; tick = 0; grants = λ n. true }

pub empty_memory-IsFresh : IsFresh empty_memory
empty_memory-IsFresh q l = refl

-- A ring as a list of addresses, oldest first.
pub record ListRing : Type 0 where
  pub items : List ℕ
  pub bound : ℕ

abbrev put_last : ListRing → ℕ → Bool → Bool × ℕ × ListRing
put_last r b true = (false, length r.items, r)
put_last r b false = (true, length r.items, record r { items = r.items ++ (b ∷ []) })

abbrev take_first : List ℕ → ListRing → Option ℕ × ListRing
take_first [] r = (none, r)
take_first (b ∷ bs) r = (some b, record r { items = bs })

abbrev pub list_ring : CkRing ListRing
list_ring = record {
  init = λ n. record { items = []; bound = n };
  enqueue = λ kind r b. put_last r b (length r.items + 1 == r.bound);
  dequeue = λ kind r. take_first r.items r;
  trydequeue = λ kind r. take_first r.items r;
  size = λ r. length r.items;
  capacity = λ r. r.bound;
  sizeof_rcring = 256;
}

take_first-some :
    (bs : List ℕ) (r : ListRing) {b : ℕ} {r' : ListRing}
    → take_first bs r ≡ (some b, r')
    → bs ≡ b ∷ r'.items
take_first-some [] r h = cc
take_first-some (c ∷ bs) r {b} {r'} h =
    let block = some-injective c b (ap (λ d. d.0) h) in let rest = ap (λ d. d.1.items) h in cc

take_first-none :
    (bs : List ℕ) (r : ListRing) {r' : ListRing}
    → r.items ≡ bs
    → take_first bs r ≡ (none, r')
    → (bs ≡ []) × (r'.items ≡ bs)
take_first-none [] r q h = (refl, ap (λ d. d.1.items) (sym h) ∙ q)
take_first-none (c ∷ bs) r q h = cc

put_last-contents :
    (r : ListRing) (b : ℕ) (full : Bool)
    → (put_last r b full).2.items ≡ (if (put_last r b full).0 then r.items ++ (b ∷ []) else r.items)
put_last-contents r b true = refl
put_last-contents r b false = refl

put_last-full :
    (r : ListRing) (b : ℕ) (full : Bool)
    → (length r.items + 1 == r.bound) ≡ full
    → (put_last r b full).0 ≡ false
    → length r.items + 1 ≡ r.bound
put_last-full r b true q h = ground arith
put_last-full r b false q h = cc

pub list_ring_laws : CkRingLaws list_ring
list_ring_laws = record {
  contents = λ r. r.items;
  init_law = λ k. refl;
  enqueue_law = λ kind r b. put_last-contents r b (length r.items + 1 == r.bound);
  enqueue_full = λ kind r b h. put_last-full r b (length r.items + 1 == r.bound) refl h;
  dequeue_law = λ kind r h. take_first-some r.items r h;
  dequeue_none = λ kind r h. let (q, q') = take_first-none r.items r refl h in (q, q' ∙ q);
  trydequeue_law = λ kind r h. take_first-some r.items r h;
  trydequeue_none = λ kind r h. (take_first-none r.items r refl h).1;
}
