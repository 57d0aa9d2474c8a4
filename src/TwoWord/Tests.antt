-- ===== src/TwoWord/Tests.antt =====
-- The theorems on concrete rings with two words.
use make_the_american_great.Prelude.{
  ◌+◌, ◌≡◌, refl, [], ◌∷◌, ◌++◌, take, drop, ◌==◌, if◌then◌else◌, arith,
}
use make_the_american_great.Run.{done}
use make_the_american_great.Connections.{map_key}
use make_the_american_great.TwoWord.Demo.{Segments, letters, test_connection}
use make_the_american_great.TwoWord.Prints.{prints}
use make_the_american_great.TwoWord.Early.{swapped, unwritten_read}
use make_the_american_great.Ring.{rb_read, rb_write}
use make_the_american_great.TwoWord.{Words, read, write, end_write, early_data_size}
use make_the_american_great.TwoWord.Same.{published, read_published, write_published, calls_agree}

abbrev wrapped : Words
wrapped = record { head = 20; tail = 3; content = λ i. i + 10 }

calls_agree_example :
    (read_published (read early_data_size 1 wrapped 2)
      ≡ rb_read early_data_size 1 (published wrapped) 2)
    × (write_published (write early_data_size 1 wrapped 2 (7 ∷ 8 ∷ []))
        ≡ rb_write early_data_size 1 (published wrapped) 2 (7 ∷ 8 ∷ []))
calls_agree_example = calls_agree early_data_size 1 wrapped 2 (7 ∷ 8 ∷ [])

abbrev blank : Words
blank = record { head = 22; tail = 22; content = λ i. 0 }

unwritten_read_example :
    (rb₁ : Words) × (rb₂ : Words) × (write early_data_size 1 blank 3 (7 ∷ 8 ∷ 9 ∷ [])
      ≡ end_write early_data_size (swapped early_data_size blank 3) 22 3 (7 ∷ 8 ∷ 9 ∷ []))
    × (read early_data_size 1 (swapped early_data_size blank 3) 3 ≡ done (3, 0 ∷ 0 ∷ 0 ∷ [], rb₁))
    × (end_write early_data_size rb₁ 22 3 (7 ∷ 8 ∷ 9 ∷ []) ≡ done (3, rb₂))
    × (rb₂.head ≡ rb₂.tail)
unwritten_read_example =
    unwritten_read early_data_size blank 3 (7 ∷ 8 ∷ 9 ∷ []) (omega arith) (omega arith) refl
      (omega arith) (omega arith) (omega arith)

-- The segment that the program reads is left over from another run, and the one that it writes
-- is not attached.
abbrev left_over : Segments
left_over = record {
  words = λ key. wrapped;
  attached = λ key. if key == map_key 80 5 then 0 else 1;
  made = 0;
}

prints_example :
    test_connection early_data_size 5 80 (49 ∷ 50 ∷ 51 ∷ 52 ∷ 53 ∷ 54 ∷ []) left_over
    ≡ done (
      12,
      (5, take 5 letters),
      5,
      (12, drop 5 letters ++ take 5 (49 ∷ 50 ∷ 51 ∷ 52 ∷ 53 ∷ 54 ∷ [])),
    )
prints_example =
    prints 5 80 (49 ∷ 50 ∷ 51 ∷ 52 ∷ 53 ∷ 54 ∷ []) left_over (omega arith) refl (omega arith)
