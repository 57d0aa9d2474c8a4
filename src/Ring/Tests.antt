-- ===== src/Ring/Tests.antt =====
-- The theorems on rings at concrete rings, and runs of rb_read and rb_write.
use make_the_american_great.Prelude.{
  take, ◌+◌, ◌-◌, ◌^◌, ◌≡◌, refl, List, [], ◌∷◌, arith, int_to_size,
}
use make_the_american_great.Run.{done, fault, spinning}
use make_the_american_great.Queue
use make_the_american_great.Queue.{Call, put, get}
use make_the_american_great.Ring.{
  Ring, shm_data_size, rb_read, rb_write, finish_read, fetch, copy_out, remain_length, clip,
  read_size,
}
use make_the_american_great.Ring.Inv.{contents, used}
use make_the_american_great.Ring.Stale.{new_ring, rb_write_from, two_writers_overrun}
use make_the_american_great.Ring.Repeat.{rb_read_late, two_readers_repeat}
use make_the_american_great.Ring.Read.{after_read}
use make_the_american_great.Ring.Refine.{run, run_refines}
use make_the_american_great.Ring.Limits.{rb_write-spinning, negative_length}

-- Eight bytes of data, of which those at 6, 7, 0 and 1 are held.
abbrev wrapped : Ring
wrapped = record { head = 6; tail = 2; old_tail = 2; content = λ i. i + 10 }

-- A write of one byte at index 2 has begun and has not been published.
abbrev under_way : Ring
under_way = record { head = 6; tail = 3; old_tail = 2; content = λ i. i + 10 }

abbrev empty : Ring
empty = record { head = 0; tail = 0; old_tail = 0; content = λ i. 0 }

contents-wrapped : contents 8 wrapped ≡ 16 ∷ 17 ∷ 10 ∷ 11 ∷ []
contents-wrapped = refl

read_wrapped : rb_read 8 1 wrapped 3 ≡ done (3, 16 ∷ 17 ∷ 10 ∷ [], record wrapped { head = 1 })
unfolding rb_read finish_read fetch copy_out remain_length clip read_size int_to_size
read_wrapped = refl

-- The segment of the release holds 2097140 bytes.
shm_data_size_value : shm_data_size ≡ 2097140
shm_data_size_value = refl

abbrev script : List Call
script = put (1 ∷ 2 ∷ []) ∷ get 5 ∷ put (3 ∷ 4 ∷ 5 ∷ []) ∷ get 2 ∷ []

run_refines_example :
    run shm_data_size empty script ≡ done (Queue.run (shm_data_size - 1) [] script)
run_refines_example =
    run_refines shm_data_size empty script (omega arith) (omega arith) (omega arith)

rb_write-spinning_example : rb_write 8 1000 under_way 2 (1 ∷ 2 ∷ []) ≡ spinning
rb_write-spinning_example =
    rb_write-spinning 8 1000 under_way 2 (1 ∷ 2 ∷ []) (omega arith) (omega arith) (omega arith)
      (omega arith) (omega arith) (omega arith) (omega arith)

negative_length_example :
    (rb_read shm_data_size 1 empty (2 ^ 31) ≡ fault)
    × (rb_write shm_data_size 1 empty (2 ^ 31) [] ≡ fault)
negative_length_example =
    negative_length shm_data_size 0 empty (2 ^ 31) [] (omega arith) (omega arith) (omega arith)
      (omega arith)

two_writers_overrun_example :
    (r₁ : Ring) × (r₂ : Ring) × (r₃ : Ring) × (r₄ : Ring) × (rb_write 4 1 empty 3 (1 ∷ 2 ∷ 3 ∷ [])
      ≡ done (3, r₁))
    × (rb_read 4 1 r₁ 3 ≡ done (3, take 3 (contents 4 r₁), r₂))
    × (rb_write 4 1 r₂ 2 (4 ∷ 5 ∷ []) ≡ done (2, r₃))
    × (rb_write_from 4 0 r₃ 0 2 (6 ∷ 7 ∷ []) ≡ done (2, r₄))
    × (used 4 r₃ ≡ 2)
    × (used 4 r₄ ≡ 0)
two_writers_overrun_example =
    two_writers_overrun 4 (λ i. 0) (1 ∷ 2 ∷ 3 ∷ []) (4 ∷ 5 ∷ []) (6 ∷ 7 ∷ []) (omega arith)
      (omega arith) refl refl refl

two_readers_repeat_example :
    (r₁ : Ring) × (r₂ : Ring) × (r₃ : Ring) × (r₄ : Ring) × (r₅ : Ring) × (rb_write 4 1
        (new_ring (λ i. 0))
        3
        (1 ∷ 2 ∷ 3 ∷ [])
      ≡ done (3, r₁))
    × (rb_read 4 1 r₁ 1 ≡ done (1, take 1 (contents 4 r₁), after_read 4 r₁ 1))
    × (rb_read 4 1 r₁ 3 ≡ done (3, take 3 (contents 4 r₁), r₂))
    × (rb_write 4 1 r₂ 2 (4 ∷ 5 ∷ []) ≡ done (2, r₃))
    × (rb_read 4 1 r₃ 1 ≡ done (1, take 1 (contents 4 r₃), r₄))
    × (used 4 r₄ ≡ 1)
    × (rb_read_late 4 0 r₄ r₁.head 1 (take 1 (contents 4 r₁))
        ≡ done (1, take 1 (contents 4 r₁), r₅))
    × (used 4 r₅ ≡ 0)
two_readers_repeat_example =
    two_readers_repeat 4 (λ i. 0) (1 ∷ 2 ∷ 3 ∷ []) (4 ∷ 5 ∷ []) (omega arith) (omega arith) refl
      refl
