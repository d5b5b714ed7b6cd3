-- ===== src/Handle/Counted.antt =====
-- common.h and refcount.h: the count in an object against the number of userdata that hold it.
use Prim.Native.String.{String}
use text.Mathlib.Text.{◌==◌ as str_eq}
use flua_ck.Base.{
  ℕ, zero, suc, ◌+◌, ◌%◌, ◌^◌, ◌≤◌, ◌<◌, ◌≡◌, refl, ap, ◌∙◌, ◌≢◌, inl, inr, true, false, Option,
  none, some, List, [], ◌∷◌, ◌++◌, arith, ◌==◌, ==_self, Bool-cases, Option-cases, if◌then◌else◌,
  length, get_elem?,
}
use mathlib.Core.Option.{some-injective}
use flua_ck.Handle.{
  Object, Handle, World, fault, Checked, cookie, refused, refcount_retain, refcount_release,
  check_cookie, checkcookie_of, checkcookie, put, new, expire, invalidate, create, retain_object,
  retain, drop_object, release_object, release_checked, release,
}
use flua_ck.Memory.{Mem}

-- 1 if the cookie is `p`
abbrev pub held : Option ℕ → ℕ → ℕ
held none p = 0
held (some q) p = if q == p then 1 else 0

-- the number of userdata that hold the object at `p`
abbrev pub live : ℕ → List Handle → ℕ
live p [] = 0
live p (h ∷ hs) = held h.cookie p + live p hs

abbrev pub Counts : {A : Type 0} → Option (Object A) → ℕ → Type 0
Counts none n = n ≡ 0
Counts (some o) n = (o.refs ≡ n) × (0 < n)

-- Every object's count is the number of its userdata, and no userdata holds an address without one.
abbrev pub IsCounted : {A : Type 0} → World A → Type 0
IsCounted w = (p : ℕ) → Counts (w.objects p) (live p w.handles)

live-append :
    (p : ℕ) (hs : List Handle) (h : Handle) → live p (hs ++ (h ∷ [])) ≡ live p hs + held h.cookie p
live-append p [] h = omega arith
live-append p (g ∷ hs) h = omega (arith, live-append p hs h)

live-le-length : (p : ℕ) (hs : List Handle) → live p hs ≤ length hs
live-le-length p [] = omega arith
live-le-length p (h ∷ hs) = omega (arith, held-le h.cookie p, live-le-length p hs)
  where
    held-le : (c : Option ℕ) (p : ℕ) → held c p ≤ 1
    held-le none p = omega arith
    held-le (some q) p = ground arith

live-expire :
    (p : ℕ) (hs : List Handle) (i : ℕ) {h : Handle}
    → get_elem? hs i ≡ some h
    → live p (expire hs i) + held h.cookie p ≡ live p hs
unfolding expire
live-expire p [] i e = cc
live-expire p (g ∷ hs) zero {h} e = rw (some-injective g h e) (omega arith)
live-expire p (g ∷ hs) (suc i) e = omega (arith, live-expire p hs i e)

held_of_check_cookie : (c : Option ℕ) (p : ℕ) → check_cookie c ≡ cookie p → c ≡ some p
unfolding check_cookie
held_of_check_cookie none p e = cc
held_of_check_cookie (some q) p e = cc

held_of_checkcookie_of :
    (metatable : String) (o : Option Handle) {p : ℕ}
    → checkcookie_of metatable o ≡ cookie p
    → (h : Handle) × (o ≡ some h) × (h.cookie ≡ some p)
unfolding checkcookie_of
held_of_checkcookie_of metatable none e = cc
held_of_checkcookie_of metatable (some h) {p} e = elim (Bool-cases (str_eq h.metatable metatable)) [
  | inl q ↦ (h, refl, held_of_check_cookie h.cookie p (rw q at e))
  | inr q ↦ cc (rw q at e)
]

-- a checked cookie is that of a userdata
pub held_of_checkcookie :
    {A : Type 0} (metatable : String) (i p : ℕ) (w : World A)
    → checkcookie metatable i w ≡ cookie p
    → (h : Handle) × (get_elem? w.handles i ≡ some h) × (h.cookie ≡ some p)
unfolding checkcookie
held_of_checkcookie metatable i p w e = held_of_checkcookie_of metatable (get_elem? w.handles i) e

-- The check depends on the userdata only.
pub checkcookie-handles :
    {A : Type 0} (metatable : String) (i : ℕ) (w w' : World A)
    → w'.handles ≡ w.handles
    → checkcookie metatable i w' ≡ checkcookie metatable i w
unfolding checkcookie
checkcookie-handles metatable i w w' h = ap (λ hs. checkcookie_of metatable (get_elem? hs i)) h

Counts-eq :
    {A : Type 0} {o o' : Option (Object A)} {n n' : ℕ} → o ≡ o' → n ≡ n' → Counts o' n' → Counts o n
Counts-eq p q c = rw (p, q) c

held_self : (p q : ℕ) → (p == q) ≡ true → held (some p) q ≡ 1
held_self p q e = rw e

held-ne : (p q : ℕ) → (p == q) ≡ false → held (some p) q ≡ 0
held-ne p q e = rw e

eq_of_== : (p q : ℕ) → (p == q) ≡ true → q ≡ p
eq_of_== p q e = ground arith

module _ {A : Type 0} where
  put_self : (f : ℕ → Option A) (p : ℕ) (v : Option A) (q : ℕ) → (p == q) ≡ true → put f p v q ≡ v
  put_self f p v q e = rw e

  put-ne : (f : ℕ → Option A) (p : ℕ) (v : Option A) (q : ℕ) → (p == q) ≡ false → put f p v q ≡ f q
  put-ne f p v q e = rw e

module _ {A : Type 0} where
  -- The new object of a `new` function has the one userdata that is returned.
  pub create-IsCounted :
      (p : ℕ) (v : A) (metatable : String) (w : World A)
      → w.objects p ≡ none
      → IsCounted w
      → IsCounted (create p v metatable w).1
  unfolding create new
  create-IsCounted p v metatable w free c q = elim (Bool-cases (p == q)) [
    | inl e ↦
        Counts-eq (put_self w.objects p _ q e)
          (live-append q w.handles _
            ∙ ap (λ n. live q w.handles + n) (held_self p q e)
            ∙ omega (arith, none_live e))
          (refl, omega arith)
    | inr e ↦
        Counts-eq (put-ne w.objects p _ q e)
          (live-append q w.handles _ ∙ ap (λ n. live q w.handles + n) (held-ne p q e) ∙ omega arith)
          (c q)
  ]
    where
      none_live : (p == q) ≡ true → live q w.handles ≡ 0
      none_live e = rw (eq_of_== p q e) (rw free at (c p))

  retained :
      (p : ℕ) (metatable : String) (w : World A) (o : Object A)
      → w.objects p ≡ some o
      → length w.handles + 1 < 2 ^ 64
      → IsCounted w
      → IsCounted (retain_object p metatable w (some o)).1
  unfolding retain_object new refcount_retain
  retained p metatable w o here small c q = elim (Bool-cases (p == q)) [
    | inl e ↦
        Counts-eq (put_self w.objects p _ q e)
          (live-append q w.handles _ ∙ ap (λ n. live q w.handles + n) (held_self p q e)) (more e)
    | inr e ↦
        Counts-eq (put-ne w.objects p _ q e)
          (live-append q w.handles _ ∙ ap (λ n. live q w.handles + n) (held-ne p q e) ∙ omega arith)
          (c q)
  ]
    where
      counted : Counts (some o) (live p w.handles)
      counted = rw here at (c p)

      more :
          (p == q) ≡ true
          → ((o.refs + 1) % 2 ^ 64 ≡ live q w.handles + 1) × (0 < live q w.handles + 1)
      more e = rw (eq_of_== p q e) (omega (arith, counted, live-le-length p w.handles))

  -- `retain` of the cookie of an object that is there counts the new userdata.
  pub retain-IsCounted :
      (p : ℕ) (metatable : String) (w : World A) (o : Object A)
      → w.objects p ≡ some o
      → length w.handles + 1 < 2 ^ 64
      → IsCounted w
      → IsCounted (retain metatable p w).1
  unfolding retain
  retain-IsCounted p metatable w o here small c = rw here (retained p metatable w o here small c)

  module _ (cleanup : ℕ → A → Mem → Mem) where
    -- One userdata of the object at `p` is gone, and `v` stands for the object.
    expired-Counts :
        (i p : ℕ) (w : World A) (v : Option (Object A)) {h : Handle}
        → get_elem? w.handles i ≡ some h
        → h.cookie ≡ some p
        → IsCounted w
        → ((n : ℕ) → n + 1 ≡ live p w.handles → Counts v n)
        → (q : ℕ) → Counts (put w.objects p v q) (live q (expire w.handles i))
    expired-Counts i p w v {h} at_i cookie_p c next q = elim (Bool-cases (p == q)) [
      | inl e ↦
          Counts-eq (put_self w.objects p v q e)
            (ap (λ k. live k (expire w.handles i)) (eq_of_== p q e))
            (next (live p (expire w.handles i)) (omega (arith, fewer p, held_self p p (==_self p))))
      | inr e ↦ Counts-eq (put-ne w.objects p v q e) (omega (arith, fewer q, held-ne p q e)) (c q)
    ]
      where
        fewer : (k : ℕ) → live k (expire w.handles i) + held (some p) k ≡ live k w.handles
        fewer k = rw cookie_p at (live-expire k w.handles i at_i)

    dropped :
        (i p : ℕ) (w : World A) (o : Object A) {h : Handle}
        → get_elem? w.handles i ≡ some h
        → h.cookie ≡ some p
        → w.objects p ≡ some o
        → length w.handles < 2 ^ 64
        → IsCounted w
        → IsCounted (invalidate i (drop_object cleanup p w o))
    unfolding invalidate drop_object refcount_release
    dropped i p w o at_i cookie_p here small c = elim (Bool-cases (o.refs == 1)) [
      | inl last ↦
          rw last (expired-Counts i p w none at_i cookie_p c (λ n e. ground (arith, counted)))
      | inr more ↦ rw more (
          expired-Counts i p w _ at_i cookie_p c
            (λ n e. ground (arith, counted, live-le-length p w.handles)))
    ]
      where
        counted : Counts (some o) (live p w.handles)
        counted = rw here at (c p)

    -- an address in a userdata is that of an object
    there :
        (i p : ℕ) (w : World A) {h : Handle}
        → get_elem? w.handles i ≡ some h
        → h.cookie ≡ some p
        → IsCounted w
        → (o : Object A) × (w.objects p ≡ some o)
    there i p w {h} at_i cookie_p c = elim (Option-cases (w.objects p)) [
      | inl n ↦ absurd (
          omega (
            arith,
            rw n at (c p),
            rw cookie_p at (live-expire p w.handles i at_i),
            held_self p p (==_self p),
          ))
      | inr s ↦ s
    ]

    -- A release that invalidates its userdata finds its object, or is refused for its argument; it never
    -- touches a freed struct. Afterwards every count is right again, so an object is freed by the
    -- release of its last userdata and by no other.
    pub release-IsCounted :
        (metatable : String) (i : ℕ) (w : World A)
        → length w.handles < 2 ^ 64
        → IsCounted w
        → IsCounted (release cleanup true metatable i w).1
          × ((release cleanup true metatable i w).0 ≢ fault)
    unfolding release
    release-IsCounted metatable i w small c = go (checkcookie metatable i w) refl
      where
        go :
            (k : Checked)
            → checkcookie metatable i w ≡ k
            → IsCounted (release_checked cleanup true i w k).1
              × ((release_checked cleanup true i w k).0 ≢ fault)
        go (refused x) e = (c, λ f. cc)
        go (cookie p) e =
            let (h, at_i, cookie_p) = held_of_checkcookie metatable i p w e in
            let (o, here) = there i p w at_i cookie_p c in
            rw (here, release_object) (dropped i p w o at_i cookie_p here small c, λ f. cc)
