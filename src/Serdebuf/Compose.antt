-- ===== src/Serdebuf/Compose.antt =====
-- serdebuf.c: the contract of steps in sequence, `if ((error = first) != 0) return (error); next`,
-- and of a store that fills in a place left free before.
use flua_ck.Base.{
  ℕ, ◌+◌, ◌≤◌, ◌≡◌, refl, ap, ◌∙◌, inl, inr, Option, none, some, List, ◌++◌, append_assoc, arith,
  length, take, drop, length-append, take-append, drop-append,
}
use flua_ck.Serdebuf.{Md, Status, State, Step, and_then, patch}
use flua_ck.Serdebuf.Append.{Kept, Kept-trans, Denied, Blamed, Outcome, wrote, refused, no_memory}

-- what a step that wrote `out` and a step with the outcome that follows write together
abbrev pub prefixed : List ℕ → Option (List ℕ) → Option (List ℕ)
prefixed out none = none
prefixed out (some more) = some (out ++ more)

Denied-le : (md : Md) (s : State) {a b : ℕ} → a ≤ b → Denied md s a → Denied md s b
Denied-le md s h (inl d) = inl d
Denied-le md s h (inr d) = inr (omega arith)

Denied-earlier : (md : Md) {s t : State} (a : ℕ) → Kept s t → Denied md t a → Denied md s a
Denied-earlier md a k (inl (n, l, e)) = inl (n, omega (arith, k.later), rw k.grants at e)
Denied-earlier md a k (inr d) = inr d

module _ (md : Md) where
  Blamed-prefixed :
      (s : State) (out : List ℕ) (spec : Option (List ℕ))
      → Blamed md s (some out)
      → Blamed md s (prefixed out spec)
  Blamed-prefixed s out none b = tt
  Blamed-prefixed s out (some more) b = Denied-le md s (omega (arith, length-append out more)) b

  Blamed-later :
      {s t : State} (out : List ℕ) (spec : Option (List ℕ))
      → Kept s t
      → t.sb.bytes ≡ s.sb.bytes ++ out
      → Blamed md t spec
      → Blamed md s (prefixed out spec)
  Blamed-later out none k e b = tt
  Blamed-later {s} {t} out (some more) k e b = Denied-earlier md _ k (Denied-le md t total b)
    where
      total : length t.sb.bytes + length more ≤ length s.sb.bytes + length (out ++ more)
      total = omega (arith, ap length e, length-append s.sb.bytes out, length-append out more)

  lift :
      {s t : State} (out : List ℕ) {spec : Option (List ℕ)} {r : Status × State}
      → Kept s t
      → t.sb.bytes ≡ s.sb.bytes ++ out
      → Outcome md t spec r
      → Outcome md s (prefixed out spec) r
  lift {s} out k e (wrote {out = more} l f) =
      wrote (Kept-trans k l) (f ∙ ap (λ b. b ++ more) e ∙ append_assoc s.sb.bytes out more)
  lift out k e (refused l) = refused (Kept-trans k l)
  lift out k e (no_memory {spec = spec} l b) =
      no_memory (Kept-trans k l) (Blamed-later out spec k e b)

module _ {md : Md} where
  pub and_then-Outcome :
      {s : State} (out : List ℕ) {r : Status × State} (spec : Option (List ℕ)) (next : Step)
      → Outcome md s (some out) r
      → ((t : State) → Kept s t → t.sb.bytes ≡ s.sb.bytes ++ out → Outcome md t spec (next t))
      → Outcome md s (prefixed out spec) (and_then r next)
  and_then-Outcome out spec next (wrote k e) h = lift md out k e (h _ k e)
  and_then-Outcome {s} out spec next (no_memory k b) h =
      no_memory k (Blamed-prefixed md s out spec b)

-- A place of the right size is filled in where it stands.
patched :
    (a hole fill out : List ℕ)
    → length fill ≡ length hole
    → take (length a) (a ++ (hole ++ out))
        ++ (fill ++ drop (length a + length fill) (a ++ (hole ++ out)))
      ≡ a ++ (fill ++ out)
patched a hole fill out h =
    rw (h, ← length-append a hole, take-append, ← append_assoc a hole out, drop-append)

length-patched :
    (a hole fill out : List ℕ)
    → length fill ≡ length hole
    → length (a ++ (fill ++ out)) ≡ length (a ++ (hole ++ out))
length-patched a hole fill out h = omega (
  arith,
  length-append a (fill ++ out),
  length-append a (hole ++ out),
  length-append fill out,
  length-append hole out,
)

module _ (t : State) (a hole fill out : List ℕ) (e : t.sb.bytes ≡ a ++ (hole ++ out))
    (len : length fill ≡ length hole) where
  pub bytes-patch : (patch (length a) fill t).1.sb.bytes ≡ a ++ (fill ++ out)
  bytes-patch = rw (e, patched a hole fill out len)

  pub Kept-patch : {s : State} → Kept s t → Kept s (patch (length a) fill t).1
  Kept-patch k = record {
    valid =
        omega
          (arith, k.valid, ap length bytes-patch, length-patched a hole fill out len, ap length e);
    buf = k.buf;
    cell = k.cell;
    grants = k.grants;
    later = k.later;
  }

module _ {md : Md} where
  -- `next` fills in `fill` at the place that `hole` took up.
  patch-Outcome :
      {s : State} (hole fill : List ℕ) (spec : Option (List ℕ)) {r : Status × State} (next : Step)
      → Outcome md s (prefixed hole spec) r
      → length fill ≡ length hole
      → ((t : State) (out : List ℕ)
          → spec ≡ some out
          → t.sb.bytes ≡ s.sb.bytes ++ (hole ++ out)
          → next t ≡ patch (length s.sb.bytes) fill t)
      → Outcome md s (prefixed fill spec) (and_then r next)
  patch-Outcome {s} hole fill none next (refused k) len h = refused k
  patch-Outcome {s} hole fill none next (no_memory k b) len h = no_memory k tt
  patch-Outcome {s} hole fill (some out) next (wrote {s' = t} k e) len h = rw (h t out refl e) (
      wrote (Kept-patch t s.sb.bytes hole fill out e len k)
        (bytes-patch t s.sb.bytes hole fill out e len))
  patch-Outcome {s} hole fill (some out) next (no_memory k b) len h =
      no_memory k (Denied-le md s (omega (arith, length-append hole out, length-append fill out)) b)

  -- What a step that cannot end well is followed by makes no difference.
  pub refused-Outcome :
      {s : State} {r : Status × State} (next : Step)
      → Outcome md s none r
      → Outcome md s none (and_then r next)
  refused-Outcome next (refused k) = refused k
  refused-Outcome next (no_memory k b) = no_memory k tt

  -- `first` leaves a place `hole`, `each` writes behind it, and `next` fills it in. Where `next` does
  -- so may depend on the state after `first`.
  pub fill-Outcome :
      {s : State} (hole fill : List ℕ) (spec : Option (List ℕ)) {r : Status × State} (each : Step)
      (next : State → Step)
      → Outcome md s (some hole) r
      → length fill ≡ length hole
      → ((t : State) → Kept s t → Outcome md t spec (each t))
      → ((t u : State) (out : List ℕ)
          → spec ≡ some out
          → t.sb.bytes ≡ s.sb.bytes ++ hole
          → u.sb.bytes ≡ s.sb.bytes ++ (hole ++ out)
          → next t u ≡ patch (length s.sb.bytes) fill u)
      → Outcome md s (prefixed fill spec) (and_then r (λ t. and_then (each t) (next t)))
  fill-Outcome hole fill spec each next (wrote {s' = t} k e) len f g =
      patch-Outcome hole fill spec (next t) (lift md hole k e (f t k)) len
        (λ u out p q. g t u out p e q)
  fill-Outcome {s} hole fill spec each next (no_memory k b) len f g =
      no_memory k (Blamed-prefixed md s fill spec (Denied-le md s (omega (arith, len)) b))
