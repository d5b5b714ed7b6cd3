-- ===== src/Sequence/Versions.antt =====
-- sequence.c: the versions that readers take, and when they are told to retry.
use flua_ck.Base.{
  ℕ, zero, suc, ◌+◌, ◌*◌, ◌%◌, ◌^◌, ◌<◌, ◌≡◌, refl, ap, ◌∙◌, true, false, not, some, [], ◌∷◌, arith,
  ◌==◌,
}
use flua_ck.Handle.{Object, World, values, checkcookie, cookie}
use flua_ck.Handle.Counted.{checkcookie-handles}
use flua_ck.Handle.Methods.{put_self, with_object-open}
use flua_ck.Sequence.{
  CkSequence, l_ck_sequence_read_begin, l_ck_sequence_read_retry, l_ck_sequence_write_begin,
  l_ck_sequence_write_end,
}
use flua_ck.Value.{boolean, integer}

-- ck_sequence(3): the lock is a 32-bit number; each write_begin and each write_end adds 1; a version
-- is the number, even, that read_begin saw; and read_retry compares.
pub record CkSequenceLaws {S : Type 0} (ck : CkSequence S) : Type 0 where
  pub number : S → ℕ
  pub write_begin_law : (s : S) → number (ck.write_begin s) ≡ (number s + 1) % 2 ^ 32
  pub write_end_law : (s : S) → number (ck.write_end s) ≡ (number s + 1) % 2 ^ 32
  pub read_begin_law : (s : S) → number s % 2 ≡ 0 → ck.read_begin s ≡ number s
  pub read_retry_law : (s : S) (v : ℕ) → ck.read_retry s v ≡ not (number s == v)
  pub small : (s : S) → number s < 2 ^ 32

-- the state after `n` write sections through userdata `i`, each from its begin to its end
unfoldable pub write_sections : {S : Type 0} → CkSequence S → ℕ → ℕ → World S → World S
write_sections ck i zero w = w
write_sections ck i (suc n) w =
    (l_ck_sequence_write_end ck i (l_ck_sequence_write_begin ck i (write_sections ck i n w)).1).1

-- Userdata `i` holds the lock at `p`, whose number is `k`.
pub record Numbered {S : Type 0} {ck : CkSequence S} (laws : CkSequenceLaws ck) (i p k : ℕ)
    (w : World S) : Type 0 where
  pub object : Object S
  pub there : w.objects p ≡ some object
  pub number : laws.number object.value ≡ k
  pub checked : checkcookie "sequence" i w ≡ cookie p

module _ {S : Type 0} {ck : CkSequence S} (laws : CkSequenceLaws ck) (i p : ℕ) where
  begin-Numbered :
      (k : ℕ) (w : World S)
      → Numbered laws i p k w
      → Numbered laws i p ((k + 1) % 2 ^ 32) (l_ck_sequence_write_begin ck i w).1
  unfolding l_ck_sequence_write_begin
  begin-Numbered k w n =
      rw (with_object-open "sequence" i p w n.object _ n.checked n.there) (record {
        object = record (n.object) { value = ck.write_begin n.object.value };
        there = put_self w.objects p _;
        number = laws.write_begin_law n.object.value ∙ ap (λ x. (x + 1) % 2 ^ 32) n.number;
        checked = checkcookie-handles "sequence" i w _ refl ∙ n.checked;
      })

  end-Numbered :
      (k : ℕ) (w : World S)
      → Numbered laws i p k w
      → Numbered laws i p ((k + 1) % 2 ^ 32) (l_ck_sequence_write_end ck i w).1
  unfolding l_ck_sequence_write_end
  end-Numbered k w n = rw (with_object-open "sequence" i p w n.object _ n.checked n.there) (record {
    object = record (n.object) { value = ck.write_end n.object.value };
    there = put_self w.objects p _;
    number = laws.write_end_law n.object.value ∙ ap (λ x. (x + 1) % 2 ^ 32) n.number;
    checked = checkcookie-handles "sequence" i w _ refl ∙ n.checked;
  })

  sections-Numbered :
      (k n : ℕ) (w : World S)
      → k < 2 ^ 32
      → Numbered laws i p k w
      → Numbered laws i p ((k + 2 * n) % 2 ^ 32) (write_sections ck i n w)
  unfolding write_sections
  sections-Numbered k zero w small h = rw (same) h
    where
      same : (k + 2 * 0) % 2 ^ 32 ≡ k
      same = omega (arith, small)
  sections-Numbered k (suc n) w small h =
      rw next (end-Numbered _ _ (begin-Numbered _ _ (sections-Numbered k n w small h)))
    where
      next : (k + 2 * suc n) % 2 ^ 32 ≡ (((k + 2 * n) % 2 ^ 32 + 1) % 2 ^ 32 + 1) % 2 ^ 32
      next = omega arith

  begun :
      (k : ℕ) (w : World S)
      → k % 2 ≡ 0
      → Numbered laws i p k w
      → (l_ck_sequence_read_begin ck i w).0 ≡ values (integer k ∷ [])
  unfolding l_ck_sequence_read_begin
  begun k w even n = rw (with_object-open "sequence" i p w n.object _ n.checked n.there) (
      ap (λ v. values (integer v ∷ []))
        (laws.read_begin_law n.object.value (ap (λ x. x % 2) n.number ∙ even) ∙ n.number))

  retried :
      (k v : ℕ) (w : World S)
      → v < 2 ^ 32
      → Numbered laws i p k w
      → (l_ck_sequence_read_retry ck i v w).0 ≡ values (boolean (not (k == v)) ∷ [])
  unfolding l_ck_sequence_read_retry
  retried k v w small n =
      rw (with_object-open "sequence" i p w n.object _ n.checked n.there, word)
        (ap (λ b. values (boolean b ∷ []))
          (laws.read_retry_law n.object.value v ∙ ap (λ x. not (x == v)) n.number))
    where
      word : v % 2 ^ 32 ≡ v
      word = omega (arith, small)

  -- A reader gets the lock's number k as its version when no writer is in a section. After n write
  -- sections that are over, fewer than 2 ^ 31, it is told to retry just if n is not 0; and inside the
  -- section after them it is told to retry.
  pub read_retry-write_sections :
      (k n : ℕ) (w : World S)
      → k < 2 ^ 32
      → k % 2 ≡ 0
      → n < 2 ^ 31
      → Numbered laws i p k w
      → ((l_ck_sequence_read_begin ck i w).0 ≡ values (integer k ∷ []))
        × ((l_ck_sequence_read_retry ck i k (write_sections ck i n w)).0
            ≡ values (boolean (not (n == 0)) ∷ []))
        × ((l_ck_sequence_read_retry ck i k
              (l_ck_sequence_write_begin ck i (write_sections ck i n w)).1).0
            ≡ values (boolean true ∷ []))
  read_retry-write_sections k n w small even few h = (
    begun k w even h,
    retried _ k _ small (sections-Numbered k n w small h)
        ∙ ap (λ b. values (boolean (not b) ∷ [])) same,
    retried _ k _ small (begin-Numbered _ _ (sections-Numbered k n w small h))
        ∙ ap (λ b. values (boolean (not b) ∷ [])) odd,
  )
    where
      same : ((k + 2 * n) % 2 ^ 32 == k) ≡ (n == 0)
      same = ground (arith, small, few)

      odd : (((k + 2 * n) % 2 ^ 32 + 1) % 2 ^ 32 == k) ≡ false
      odd = ground (arith, small, even)
