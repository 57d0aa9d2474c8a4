-- ===== src/Circular/Tests.antt =====
-- The theorems on the byte-by-byte buffer at a concrete buffer, and a run of its loops.
use make_the_american_great.Prelude.{◌+◌, ◌≡◌, refl, [], ◌∷◌, arith, int_to_size}
use make_the_american_great.Run.{done}
use make_the_american_great.Circular.{Buffer, read, write, read_loop}
use make_the_american_great.Circular.Inv.{as_ring}
use make_the_american_great.Circular.RoundTrip.{read-write}
use make_the_american_great.Ring.Inv.{contents}

abbrev buffer : Buffer
buffer = record { begin_idx = 3; end_idx = 1; size = 4; bytes = λ i. i + 10 }

read_runs : read 5 buffer 9 ≡ done (2, 13 ∷ 10 ∷ [], record buffer { begin_idx = 1 })
unfolding read read_loop int_to_size
read_runs = refl

read-write_example :
    (c₁ : Buffer) × (c₂ : Buffer) × (write 5 buffer 2 (7 ∷ 8 ∷ []) ≡ done (1, c₁))
    × (read 5 c₁ 2 ≡ done (2, 13 ∷ 10 ∷ [], c₂))
    × (contents 4 (as_ring c₂) ≡ 7 ∷ [])
read-write_example =
    read-write 5 buffer 2 (7 ∷ 8 ∷ []) 2 (omega arith) (omega arith) (omega arith) (omega arith)
      (omega arith) (omega arith)
