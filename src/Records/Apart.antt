-- ===== src/Records/Apart.antt =====
-- shared.c: the records of hazard pointers, as Lua states open and close.
use Prim.Native.String.{String}
use flua_ck.Base.{
  ℕ, zero, suc, ◌⊎◌, ◌++◌, ◌+◌, ◌≤◌, ◌<◌, ◌≡◌, ◌≢◌, refl, ap, sym, ◌∙◌, inl, inr, Bool, true, false,
  Option, none, some, List, [], ◌∷◌, arith, ◌==◌, ==_self, Bool-cases, if◌then◌else◌, length,
  get_elem?,
}
use mathlib.Core.Option.{some-injective}
use flua_ck.Handle.{
  World, Handle, Checked, cookie, refused, checkcookie, checkcookie_of, check_cookie, new, put,
}
use flua_ck.Handle.Methods.{get_elem?-snoc}
use flua_ck.Memory.{Mem, update, granted, malloc-granted, malloc-refused}
use flua_ck.Records.{
  CkDomain, CkDomainLaws, System, Sizes, ck_hp_record_metatable, with_record, no_record,
  hp_allocated, hp_recycled, register_hp_record, record_checked, record_gc, l_ck_hp_record_gc,
  record_of, gethprecord,
}

module _ {D : Type 0} where
  -- A Lua state is gone after its registry's userdata.
  abbrev pub without_state : ℕ → System D → System D
  without_state l s = record s { registry = put s.registry l none }

  -- A Lua state opens the module, or closes.
  pub data Step (ck : CkDomain D) (sizes : Sizes) (s : System D) : System D → Type 0 where
    open_state : (l : ℕ) → s.registry l ≡ none → Step ck sizes s (register_hp_record ck sizes l s).1
    close_state :
        (l i : ℕ)
        → s.registry l ≡ some i
        → Step ck sizes s (without_state l (l_ck_hp_record_gc ck i s).1)

  pub data Reach (ck : CkDomain D) (sizes : Sizes) (s : System D) : System D → Type 0 where
    here : Reach ck sizes s s
    next : {t u : System D} → Reach ck sizes s t → Step ck sizes t u → Reach ck sizes s u

-- A userdata stays what it is when another is made.
get_elem?-new :
    {A : Type 0} (xs : List A) (a : A) (i : ℕ) {x : A}
    → get_elem? xs i ≡ some x
    → get_elem? (xs ++ (a ∷ [])) i ≡ some x
get_elem?-new [] a i h = cc
get_elem?-new (x ∷ xs) a zero h = h
get_elem?-new (x ∷ xs) a (suc i) h = get_elem?-new xs a i h

checkcookie-new :
    {A : Type 0} (metatable : String) (i r p : ℕ) (w : World A)
    → checkcookie metatable i w ≡ cookie r
    → checkcookie metatable i (new (some p) metatable w).1 ≡ cookie r
unfolding checkcookie new checkcookie_of
checkcookie-new metatable i r p w h = by_handle (get_elem? w.handles i) refl h
  where
    by_handle :
        (x : Option Handle)
        → get_elem? w.handles i ≡ x
        → checkcookie_of metatable x ≡ cookie r
        → checkcookie_of metatable
            (get_elem? (w.handles ++ (record { metatable = metatable; cookie = some p } ∷ [])) i)
          ≡ cookie r
    by_handle none q e = cc
    by_handle (some x) q e = rw (get_elem?-new w.handles _ i q) e

address : ℕ → Checked → ℕ
address r (cookie p) = p
address r (refused e) = r

clash : {a b : Bool} → a ≡ b → a ≡ true → b ≡ false → ⊥
clash e t f = cc

one_left : (n m : ℕ) → m ≡ n → n ≢ 0 → n ≤ 1 → m ≡ 1
one_left n m e z l = omega (arith, z)

set_true : (b x : Bool) → x ≡ true → (if b then true else x) ≡ true
set_true b x h = ground (arith, h)

module _ {D : Type 0} {ck : CkDomain D} (laws : CkDomainLaws ck) where
  abbrev hp_cookie : System D → ℕ → Checked
  hp_cookie s i = checkcookie ck_hp_record_metatable i s.world

  -- Every open state has a record that is in use and stands on the list once, and no two have the same.
  pub record Inv (s : System D) : Type 0 where
    pub given : (r : ℕ) → laws.entries s.domain r ≢ 0 → r < s.world.mem.tick
    pub once : (r : ℕ) → laws.entries s.domain r ≤ 1
    pub owned :
        (l i : ℕ)
        → s.registry l ≡ some i
        → (r : ℕ) × (hp_cookie s i ≡ cookie r)
          × (laws.used s.domain r ≡ true)
          × (laws.entries s.domain r ≡ 1)
    pub apart :
        (l l' i i' r : ℕ)
        → s.registry l ≡ some i
        → s.registry l' ≡ some i'
        → hp_cookie s i ≡ cookie r
        → hp_cookie s i' ≡ cookie r
        → l ≡ l'

  -- The record `r` is given to a new state.
  record Added (s : System D) (r : ℕ) (d : D) (m : Mem) : Type 0 where
    unowned : (l i : ℕ) → s.registry l ≡ some i → hp_cookie s i ≢ cookie r
    few : (q : ℕ) → laws.entries d q ≤ 1
    mine : laws.entries d r ≡ 1
    taken : laws.used d r ≡ true
    kept : (q : ℕ) → laws.entries s.domain q ≡ 1 → laws.entries d q ≡ 1
    in_use : (q : ℕ) → laws.used s.domain q ≡ true → laws.used d q ≡ true
    bounded : (q : ℕ) → laws.entries d q ≢ 0 → q < m.tick

  new_cookie :
      (s : System D) (r : ℕ) (d : D) (m : Mem) (l : ℕ)
      → hp_cookie
          (with_record ck_hp_record_metatable l r
            (record s { domain = d; world = record (s.world) { mem = m } })).1
          (length s.world.handles)
        ≡ cookie r
  unfolding with_record new checkcookie checkcookie_of check_cookie
  new_cookie s r d m l = rw (get_elem?-snoc s.world.handles _) refl

  module _ (s : System D) (inv : Inv s) (r : ℕ) (d : D) (m : Mem) (l : ℕ)
      (added : Added s r d m) where
    abbrev after : System D
    after =
        (with_record ck_hp_record_metatable l r
          (record s { domain = d; world = record (s.world) { mem = m } })).1

    registry_after :
        (l' i : ℕ)
        → after.registry l' ≡ some i
        → ((l ≡ l') × (i ≡ length s.world.handles)) ⊎ (s.registry l' ≡ some i)
    unfolding with_record
    registry_after l' i h = elim (Bool-cases (l == l')) [
      | inl q ↦ inl (ground (arith, q), sym (some-injective (length s.world.handles) i (rw q at h)))
      | inr q ↦ inr (rw q at h)
    ]

    kept_cookie : (i q : ℕ) → hp_cookie s i ≡ cookie q → hp_cookie after i ≡ cookie q
    unfolding with_record checkcookie
    kept_cookie i q h =
        checkcookie-new ck_hp_record_metatable i q r (record (s.world) { mem = m }) h

    old_cookie :
        (l' i q : ℕ)
        → s.registry l' ≡ some i
        → hp_cookie after i ≡ cookie q
        → hp_cookie s i ≡ cookie q
    old_cookie l' i q h c =
        let (p, c', u, e) = inv.owned l' i h in let c'' = kept_cookie i p c' in cc

    apart_after :
        (l1 l2 i1 i2 q : ℕ)
        → after.registry l1 ≡ some i1
        → after.registry l2 ≡ some i2
        → hp_cookie after i1 ≡ cookie q
        → hp_cookie after i2 ≡ cookie q
        → l1 ≡ l2
    apart_after l1 l2 i1 i2 q h1 h2 c1 c2 = elim (registry_after l1 i1 h1) [
      | inl (e1, n1) ↦ elim (registry_after l2 i2 h2) [
        | inl (e2, n2) ↦ sym e1 ∙ e2
        | inr g2 ↦ absurd (clash l2 i2 i1 q g2 n1 c1 (old_cookie l2 i2 q g2 c2))
      ]
      | inr g1 ↦ elim (registry_after l2 i2 h2) [
        | inl (e2, n2) ↦ absurd (clash l1 i1 i2 q g1 n2 c2 (old_cookie l1 i1 q g1 c1))
        | inr g2 ↦
            inv.apart l1 l2 i1 i2 q g1 g2 (old_cookie l1 i1 q g1 c1) (old_cookie l2 i2 q g2 c2)
      ]
    ]
      where
        clash :
            (l' i n q : ℕ)
            → s.registry l' ≡ some i
            → n ≡ length s.world.handles
            → hp_cookie after n ≡ cookie q
            → hp_cookie s i ≡ cookie q
            → ⊥
        clash l' i n q g at c old =
            added.unowned l' i g
              (let mine = new_cookie s r d m l in let there = ap (hp_cookie after) at in cc)

    with_record-Inv : Inv after
    unfolding with_record new
    with_record-Inv = record {
      given = added.bounded;
      once = added.few;
      owned = λ l' i h. elim (registry_after l' i h) [
        | inl (e, n) ↦ (r, ap (hp_cookie after) n ∙ new_cookie s r d m l, added.taken, added.mine)
        | inr g ↦
            let (q, c, u, e) = inv.owned l' i g in
            (q, kept_cookie i q c, added.in_use q u, added.kept q e)
      ];
      apart = apart_after;
    }

  -- no record is given out: the list and the userdata stay as they are.
  still-Inv :
      (s : System D) (d : D) (m : Mem)
      → ((q : ℕ) → laws.entries d q ≡ laws.entries s.domain q)
      → ((q : ℕ) → laws.used d q ≡ laws.used s.domain q)
      → s.world.mem.tick ≤ m.tick
      → Inv s
      → Inv (record s { domain = d; world = record (s.world) { mem = m } })
  unfolding checkcookie
  still-Inv s d m e u later inv = record {
    given = λ r n. omega (arith, later, inv.given r (λ z. n (e r ∙ z)));
    once = λ r. omega (arith, e r, inv.once r);
    owned = λ l i h. let (r, c, used, one) = inv.owned l i h in (r, c, u r ∙ used, e r ∙ one);
    apart = inv.apart;
  }

  -- a block that was never given out is on no list
  malloc-Added :
      (s : System D)
      → Inv s
      → (d : D) → ((q : ℕ) → laws.entries d q ≡ laws.entries s.domain q)
      → ((q : ℕ) → laws.used d q ≡ laws.used s.domain q)
      → Added s s.world.mem.tick (ck.register d s.world.mem.tick) (record (s.world.mem) {
        cell = update s.world.mem.cell s.world.mem.tick (some []);
        tick = s.world.mem.tick + 1;
      })
  unfolding address
  malloc-Added s inv d e u = record {
    unowned = λ l i g c.
        let (p, c', used, one) = inv.owned l i g in
        let same : (p ≡ tick) = ap (address tick) (sym c' ∙ c) in
        omega (arith, same, inv.given p (λ z. omega (arith, z, one)));
    few = λ q. ground (arith, laws.register_entries d tick q, e q, inv.once q, none_yet);
    mine = ground (arith, laws.register_entries d tick tick, e tick, none_yet);
    taken = laws.register_used d tick tick ∙ rw (==_self tick) refl;
    kept = λ q one. ground (arith, laws.register_entries d tick q, e q, none_yet, one);
    in_use = λ q used. laws.register_used d tick q ∙ set_true (tick == q) _ (u q ∙ used);
    bounded = λ q z. elim (Bool-cases (tick == q)) [
      | inl b ↦ ground (arith, b)
      | inr b ↦
          omega (arith, inv.given q (λ y. z (laws.register_entries d tick q ∙ rw b (e q ∙ y))))
    ];
  }
    where
      tick : ℕ
      tick = s.world.mem.tick

      none_yet : laws.entries s.domain tick ≡ 0
      none_yet = grind (arith, inv.given tick)

  register_hp_record-Inv :
      (sizes : Sizes) (l : ℕ) (s : System D) → Inv s → Inv (register_hp_record ck sizes l s).1
  unfolding address register_hp_record hp_recycled hp_allocated no_record
  register_hp_record-Inv sizes l s inv = by_recycle (ck.recycle s.domain) refl
    where
      by_recycle : (x : Option ℕ × D) → ck.recycle s.domain ≡ x → Inv (hp_recycled ck sizes l s x).1
      by_recycle (some r, d) q =
          let (n, free, e, u) = laws.recycle_some s.domain q in
          with_record-Inv s inv r d s.world.mem l (record {
            unowned = λ l' i g c.
                let (p, c', used, one) = inv.owned l' i g in
                let same : (p ≡ r) = ap (address r) (sym c' ∙ c) in
                clash (ap (laws.used s.domain) same) used free;
            few = λ p. omega (arith, e p, inv.once p);
            mine = one_left _ _ (e r) n (inv.once r);
            taken = u r ∙ rw (==_self r) refl;
            kept = λ p one. e p ∙ one;
            in_use = λ p used. u p ∙ set_true (r == p) _ used;
            bounded = λ p z. inv.given p (λ y. z (e p ∙ y));
          })
      by_recycle (none, d) q =
          let (e, u) = laws.recycle_none s.domain q in
          elim (Bool-cases (granted sizes.hp_record s.world.mem)) [
            | inl g ↦ rw (malloc-granted sizes.hp_record s.world.mem g) (
                with_record-Inv s inv s.world.mem.tick (ck.register d s.world.mem.tick) _ l
                  (malloc-Added s inv d e u))
            | inr g ↦
                rw (malloc-refused sizes.hp_record s.world.mem g)
                  (still-Inv s d _ e u (omega arith) inv)
          ]

  l_ck_hp_record_gc-Inv :
      (l i : ℕ) (s : System D)
      → s.registry l ≡ some i
      → Inv s
      → Inv (without_state l (l_ck_hp_record_gc ck i s).1)
  unfolding l_ck_hp_record_gc record_gc record_checked
  l_ck_hp_record_gc-Inv l i s h inv =
      let (r, c, used, one) = inv.owned l i h in
      rw c (record {
        given = λ q z. inv.given q (λ y. z (same r q ∙ y));
        once = λ q. omega (arith, same r q, inv.once q);
        owned = λ l' i' g.
            let (gone, g') = registry_without l l' i' g in
            let (q, c', u, e) = inv.owned l' i' g' in
            (
              q,
              c',
              unused r q
                    (other r q (λ z. gone (inv.apart l l' i i' r h g' c (c' ∙ ap cookie (sym z)))))
                  ∙ u,
              same r q ∙ e,
            );
        apart = λ l1 l2 i1 i2 q g1 g2 c1 c2.
            let (n1, h1) = registry_without l l1 i1 g1 in
            let (n2, h2) = registry_without l l2 i2 g2 in inv.apart l1 l2 i1 i2 q h1 h2 c1 c2;
      })
    where
      same :
          (r q : ℕ)
          → laws.entries (ck.unregister (ck.purge s.domain r) r) q ≡ laws.entries s.domain q
      same r q = laws.unregister_entries _ r q ∙ laws.purge_entries s.domain r q

      unused :
          (r q : ℕ)
          → (r == q) ≡ false
          → laws.used (ck.unregister (ck.purge s.domain r) r) q ≡ laws.used s.domain q
      unused r q n = laws.unregister_used _ r q ∙ rw n (laws.purge_used s.domain r q)

      other : (r q : ℕ) → ¬ (r ≡ q) → (r == q) ≡ false
      other r q n = ground (arith, n)

      registry_without :
          (l l' i' : ℕ)
          → put s.registry l none l' ≡ some i'
          → ¬ (l ≡ l') × (s.registry l' ≡ some i')
      registry_without l l' i' g = elim (Bool-cases (l == l')) [
        | inl b ↦ absurd (none_some (rw b at g))
        | inr b ↦ (λ z. ground (arith, z, b), rw b at g)
      ]
        where
          none_some : none ≡ some i' → ⊥
          none_some e = cc

  pub Reach-Inv : (sizes : Sizes) (s : System D) {t : System D} → Inv s → Reach ck sizes s t → Inv t
  Reach-Inv sizes s inv here = inv
  Reach-Inv sizes s inv (next path (open_state l h)) =
      register_hp_record-Inv sizes l _ (Reach-Inv sizes s inv path)
  Reach-Inv sizes s inv (next path (close_state l i h)) =
      l_ck_hp_record_gc-Inv l i _ h (Reach-Inv sizes s inv path)

  -- Before any Lua state has opened the module.
  pub record Initial (s : System D) : Type 0 where
    pub no_entries : (r : ℕ) → laws.entries s.domain r ≡ 0
    pub no_states : (l : ℕ) → s.registry l ≡ none

  Initial-Inv : (s : System D) → Initial s → Inv s
  Initial-Inv s z = record {
    given = λ r n. absurd (n (z.no_entries r));
    once = λ r. omega (arith, z.no_entries r);
    owned = λ l i h. absurd (none_some (sym (z.no_states l) ∙ h));
    apart = λ l l' i i' r h h' c c'. absurd (none_some (sym (z.no_states l) ∙ h));
  }
    where
      none_some : {i : ℕ} → none ≡ some i → ⊥
      none_some e = cc

  -- However Lua states have opened the module and closed before: two open states find different
  -- hazard pointer records, and each record is in use and stands on the domain's list once.
  pub gethprecord-apart :
      (sizes : Sizes) (first s : System D) (l l' i i' : ℕ)
      → Initial first
      → Reach ck sizes first s
      → s.registry l ≡ some i
      → s.registry l' ≡ some i'
      → ¬ (l ≡ l')
      → (r : ℕ) × (r' : ℕ) × (gethprecord l s ≡ cookie r)
        × (gethprecord l' s ≡ cookie r')
        × ¬ (r ≡ r')
        × ((laws.used s.domain r ≡ true) × (laws.entries s.domain r ≡ 1))
        × ((laws.used s.domain r' ≡ true) × (laws.entries s.domain r' ≡ 1))
  unfolding gethprecord record_of
  gethprecord-apart sizes first s l l' i i' z path h h' n =
      let inv = Reach-Inv sizes first (Initial-Inv first z) path in
      let (r, c, u, e) = inv.owned l i h in
      let (r', c', u', e') = inv.owned l' i' h' in
      (
        r,
        r',
        rw h c,
        rw h' c',
        λ same. n (inv.apart l l' i i' r h h' c (c' ∙ ap cookie (sym same))),
        (u, e),
        (u', e'),
      )
