-- ===== src/Examples/Structs.antt =====
-- Sequence locks of sequence.c and event counters of ec.c.
use flua_ck.Base.{ℕ, ◌+◌, ◌%◌, ◌^◌, ◌<◌, ◌≡◌, refl, true, not, none, some, [], ◌∷◌, arith, ◌==◌}
use flua_ck.Examples.{empty_memory}
use flua_ck.Handle.{Object, World, values, check_cookie, checkcookie_of, checkcookie, put}
use flua_ck.Sequence.{
  CkSequence, l_ck_sequence_read_begin, l_ck_sequence_read_retry, l_ck_sequence_write_begin,
}
use flua_ck.Sequence.Versions.{CkSequenceLaws, Numbered, write_sections, read_retry-write_sections}
use flua_ck.Value.{boolean, integer}

-- a lock that is its number, to 32 bits
pub record Word : Type 0 where
  pub word : ℕ
  pub small : word < 2 ^ 32

abbrev next_word : Word → Word
next_word s = record { word = (s.word + 1) % 2 ^ 32; small = omega arith }

abbrev word_sequence : CkSequence Word
word_sequence = record {
  init = record { word = 0; small = omega arith };
  read_begin = λ s. s.word;
  read_retry = λ s v. not (s.word == v);
  write_begin = next_word;
  write_end = next_word;
  sizeof_rcsequence = 16;
}

word_laws : CkSequenceLaws word_sequence
word_laws = record {
  number = λ s. s.word;
  write_begin_law = λ s. refl;
  write_end_law = λ s. refl;
  read_begin_law = λ s even. refl;
  read_retry_law = λ s v. refl;
  small = λ s. s.small;
}

abbrev lock_object : Object Word
lock_object = record { value = record { word = 6; small = omega arith }; refs = 1 }

abbrev lock_world : World Word
lock_world = record {
  mem = empty_memory;
  objects = put (λ p. none) 0 (some lock_object);
  handles = record { metatable = "sequence"; cookie = some 0 } ∷ [];
}

lock-Numbered : Numbered word_laws 0 0 6 lock_world
unfolding word_laws checkcookie checkcookie_of check_cookie
lock-Numbered = record { object = lock_object; there = refl; number = refl; checked = refl }

read_retry_example :
    ((l_ck_sequence_read_begin word_sequence 0 lock_world).0 ≡ values (integer 6 ∷ []))
    × ((l_ck_sequence_read_retry word_sequence 0 6 (write_sections word_sequence 0 2 lock_world)).0
        ≡ values (boolean true ∷ []))
    × ((l_ck_sequence_read_retry word_sequence 0 6
          (l_ck_sequence_write_begin word_sequence 0
            (write_sections word_sequence 0 2 lock_world)).1).0
        ≡ values (boolean true ∷ []))
read_retry_example =
    read_retry-write_sections word_laws 0 0 6 2 lock_world (omega arith) refl (omega arith)
      lock-Numbered
