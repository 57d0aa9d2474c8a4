-- ===== src/Spsc/Tests.antt =====
-- A run of a writer and a reader on a ring of eight bytes, and the theorems at its end.
use make_the_american_great.Prelude.{ℕ, ◌<◌, ◌≡◌, ◌≢◌, refl, List, [], ◌∷◌, ◌++◌, arith}
use make_the_american_great.Ring.{Ring, clip, write_size, read_size}
use make_the_american_great.Ring.Inv.{contents}
use make_the_american_great.Spsc.{
  WriterPc, ReaderPc, System, Write, Read, write, read, Reach, here, next, copy_index, has_room,
  take_tail, put, stored, publish, has_bytes, get,
}
use make_the_american_great.Spsc.Safety.{received-then-contents, no_data_race}
use make_the_american_great.Spsc.Progress.{
  write_steps, read_steps, WriterGoesOn, ReaderGoesOn, calls_end,
}

abbrev zeros : ℕ → ℕ
zeros i = 0

-- Seven and eight are written; then both processes are in the middle of their copies.
abbrev walk : (s : System) × Reach 8 zeros s
unfolding clip write_size read_size
walk =
    let s₁ =
      next here (write (Write.call {input = 7 ∷ 8 ∷ []} {len = 2} (omega arith) (omega arith))) in
    let s₂ = next (next s₁ (write Write.load_head)) (write Write.load_tail) in
    let s₃ = next (next s₂ (write (has_room (omega arith)))) (write (take_tail refl)) in
    let s₄ = next (next s₃ (write (put (omega arith)))) (write (put (omega arith))) in
    let s₅ = next (next s₄ (write stored)) (write (publish refl)) in
    let s₆ =
      next s₅ (write (Write.call {input = 5 ∷ 6 ∷ []} {len = 2} (omega arith) (omega arith))) in
    let s₇ = next (next s₆ (write Write.load_head)) (write Write.load_tail) in
    let s₈ = next (next s₇ (write (has_room (omega arith)))) (write (take_tail refl)) in
    let s₉ =
      next (next s₈ (write (put (omega arith)))) (read (Read.call {len = 2} (omega arith))) in
    let u = next (next s₉ (read Read.load_head)) (read Read.load_tail) in
    (_, next (next u (read (has_bytes (omega arith)))) (read (get (omega arith))))

received-then-contents_example : walk.0.sent ≡ walk.0.received ++ contents 8 walk.0.ring
received-then-contents_example = received-then-contents 8 zeros walk.0 (omega arith) walk.1

no_data_race_example :
    ((copy_index 8 2 2 1 < 8) × Unit {0})
    × ((copy_index 8 0 2 1 < 8) × Unit {0})
    × (((copy_index 8 2 2 1 ≢ copy_index 8 0 2 1) × Unit {0}) × Unit {0})
unfolding walk
no_data_race_example = no_data_race 8 zeros walk.0 (omega arith) walk.1

calls_end_example :
    (0 < write_steps walk.0.writer → WriterGoesOn 8 walk.0)
    × ((rb : Ring) (pc : WriterPc) (bytes : List ℕ)
        → Write 8 walk.0.ring walk.0.writer rb pc bytes
        → 0 < write_steps walk.0.writer
        → write_steps pc < write_steps walk.0.writer)
    × (0 < read_steps walk.0.reader → ReaderGoesOn 8 walk.0)
    × ((rb : Ring) (pc : ReaderPc) (bytes : List ℕ)
        → Read 8 walk.0.ring walk.0.reader rb pc bytes
        → 0 < read_steps walk.0.reader
        → read_steps pc < read_steps walk.0.reader)
calls_end_example = calls_end 8 zeros walk.0 (omega arith) walk.1
