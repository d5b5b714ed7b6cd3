-- ===== src/Examples/States.antt =====
-- Lua states that open and close, with the records of Concurrency Kit.
use flua_ck.Base.{
  ℕ, ◌+◌, ◌≡◌, ◌≢◌, refl, ap, Bool, true, false, ◌&&◌, not, Option, none, some, [], arith, ◌==◌,
  if◌then◌else◌,
}
use flua_ck.Examples.{empty_memory}
use mathlib.Core.Option.{some-injective}
use flua_ck.Memory.{malloc}
use flua_ck.Handle.{cookie, new}
use flua_ck.Records.{
  CkDomain, CkDomainLaws, System, Sizes, register_hp_record, gethprecord, register_epoch_record,
  l_ck_epoch_record_gc,
}
use flua_ck.Records.Apart.{Reach, here, next, open_state, gethprecord-apart}
use flua_ck.Records.Twice.{
  register_epoch_record-register_hp_record, l_ck_epoch_record_gc-thread_record,
}

-- A domain that recycles the record that was unregistered last.
record Domain : Type 0 where
  pub count : ℕ → ℕ
  pub busy : ℕ → Bool
  pub last : ℕ

abbrev mark : (ℕ → Bool) → ℕ → Bool → ℕ → Bool
mark f r b q = if r == q then b else f q

is_free : Domain → Bool
is_free d = not (d.busy d.last) && not (d.count d.last == 0)

recycle_last : Domain → Bool → Option ℕ × Domain
recycle_last d true = (some d.last, record d { busy = mark d.busy d.last true })
recycle_last d false = (none, d)

abbrev last_first : CkDomain Domain
unfolding recycle_last
last_first = record {
  recycle = λ d. recycle_last d (is_free d);
  register = λ d r. record d {
    count = λ q. if r == q then d.count q + 1 else d.count q;
    busy = mark d.busy r true;
  };
  purge = λ d r. d;
  unregister = λ d r. record d { busy = mark d.busy r false; last = r };
}

free_parts : (b z : Bool) → (not b && not z) ≡ true → (b ≡ false) × (z ≡ false)
free_parts b z h = ground (arith, h)

recycle_last-some :
    (d : Domain) (b : Bool) {r : ℕ} {d' : Domain}
    → is_free d ≡ b
    → recycle_last d b ≡ (some r, d')
    → (d.count r ≢ 0)
      × (d.busy r ≡ false)
      × ((q : ℕ) → d'.count q ≡ d.count q)
      × ((q : ℕ) → d'.busy q ≡ (if r == q then true else d.busy q))
unfolding recycle_last is_free
recycle_last-some d true {r} {d'} f h =
    let same = some-injective d.last r (ap (λ x. x.0) h) in
    let left = ap (λ x. x.1) h in
    let (free, z) = free_parts (d.busy d.last) (d.count d.last == 0) f in
    rw (← same, ← left) (λ e. zero_test (d.count d.last) z e, free, λ q. refl, λ q. refl)
  where
    zero_test : (n : ℕ) → (n == 0) ≡ false → n ≡ 0 → ⊥
    zero_test n z e = ground (arith, z, e)
recycle_last-some d false f h = cc

recycle_last-none : (d : Domain) (b : Bool) {d' : Domain} → recycle_last d b ≡ (none, d') → d' ≡ d
unfolding recycle_last
recycle_last-none d true h = cc
recycle_last-none d false h = cc

last_first_laws : CkDomainLaws last_first
unfolding recycle_last last_first
last_first_laws = record {
  entries = λ d. d.count;
  used = λ d. d.busy;
  recycle_some = λ d h. recycle_last-some d (is_free d) refl h;
  recycle_none = λ d h.
      let same = recycle_last-none d (is_free d) h in
      (λ q. ap (λ x. x.count q) same, λ q. ap (λ x. x.busy q) same);
  register_entries = λ d r q. refl;
  register_used = λ d r q. refl;
  purge_entries = λ d r q. refl;
  purge_used = λ d r q. refl;
  unregister_entries = λ d r q. refl;
  unregister_used = λ d r q. refl;
}

abbrev no_state : System Domain
no_state = record {
  domain = record { count = λ r. 0; busy = λ r. false; last = 0 };
  world = record { mem = empty_memory; objects = λ p. none; handles = [] };
  registry = λ l. none;
  thread_record = λ t. none;
}

abbrev sizes : Sizes
sizes = record { hp_record = 64; epoch_record = 128 }

abbrev one_state : System Domain
one_state = (register_hp_record last_first sizes 0 no_state).1

abbrev two_states : System Domain
two_states = (register_hp_record last_first sizes 1 one_state).1

two_states-Reach : Reach last_first sizes no_state two_states
unfolding register_hp_record recycle_last is_free malloc
two_states-Reach = next (next here (open_state 0 refl)) (open_state 1 refl)

gethprecord_example :
    (r : ℕ) × (r' : ℕ) × (gethprecord 0 two_states ≡ cookie r)
    × (gethprecord 1 two_states ≡ cookie r')
    × ¬ (r ≡ r')
    × ((last_first_laws.used two_states.domain r ≡ true)
        × (last_first_laws.entries two_states.domain r ≡ 1))
    × ((last_first_laws.used two_states.domain r' ≡ true)
        × (last_first_laws.entries two_states.domain r' ≡ 1))
unfolding register_hp_record recycle_last is_free malloc last_first last_first_laws new
gethprecord_example =
    gethprecord-apart last_first_laws sizes no_state two_states 0 1 0 1
      (record { no_entries = λ r. refl; no_states = λ l. refl }) two_states-Reach refl refl
      (λ e. cc)

-- a domain with a record that is free
abbrev freed_record : System Domain
freed_record = record no_state {
  domain = record { count = λ r. if r == 7 then 1 else 0; busy = λ r. false; last = 7 };
}

register_epoch_record_example :
    (last_first_laws.entries (register_hp_record last_first sizes 2 freed_record).1.domain 7
      ≡ last_first_laws.entries freed_record.domain 7)
    × (last_first_laws.entries (register_epoch_record last_first sizes 0 2 freed_record).1.domain 7
        ≡ last_first_laws.entries freed_record.domain 7 + 1)
unfolding recycle_last is_free
register_epoch_record_example =
    register_epoch_record-register_hp_record last_first_laws sizes 0 2 7 freed_record refl

l_ck_epoch_record_gc_example :
    (r : ℕ) × ((l_ck_epoch_record_gc last_first 0
          (register_epoch_record last_first sizes 0 2 no_state).1).1.thread_record
        0
      ≡ some r)
    × (last_first_laws.used
          (l_ck_epoch_record_gc last_first 0
            (register_epoch_record last_first sizes 0 2 no_state).1).1.domain
          r
        ≡ false)
unfolding register_epoch_record recycle_last is_free malloc
l_ck_epoch_record_gc_example =
    l_ck_epoch_record_gc-thread_record last_first_laws sizes 0 2 0 no_state refl refl
