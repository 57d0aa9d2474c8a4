-- ===== src/Spsc/Writers/Tests.antt =====
-- Two writers on a ring of eight bytes, of which the second copies first and has to wait.
use make_the_american_great.Prelude.{
  ℕ, ◌+◌, ◌^◌, ◌≤◌, ◌<◌, ◌≡◌, ◌≢◌, refl, [], ◌∷◌, ◌++◌, length, arith,
}
use make_the_american_great.Ring.{Ring, clip, write_size}
use make_the_american_great.Ring.Inv.{contents}
use make_the_american_great.Spsc.{
  Write, load_head, load_tail, has_room, take_tail, put, stored, wait, publish,
}
use make_the_american_great.Spsc.Writers.{Writers, turn, Reach, here, next}
use make_the_american_great.Spsc.Writers.Safety.{contents-then-sent}

-- Its four bytes are at the offsets 6, 7, 0 and 1.
abbrev four : Ring
four = record { head = 6; tail = 2; old_tail = 2; content = λ i. i + 10 }

two_int : 2 < 2 ^ 31
two_int = omega arith

one_byte : 1 ≤ length {A = ℕ} (9 ∷ [])
one_byte = omega arith

int : 1 < 2 ^ 31
int = omega arith

waits : ◌≢◌ {A = ℕ} 2 4
waits = omega arith

-- Writer 0 reserves two bytes and writer 1 one; writer 1 has stored its byte and waits.
abbrev half_way : (s : Writers) × Reach 8 four s
unfolding clip write_size
half_way =
    let s₁ = next here (turn 0 (Write.call {input = 5 ∷ 6 ∷ []} {len = 2} two_int (omega arith))) in
    let s₂ = next s₁ (turn 1 (Write.call {input = 9 ∷ []} {len = 1} int one_byte)) in
    let s₃ = next (next s₂ (turn 0 load_head)) (turn 0 load_tail) in
    let s₄ = next (next s₃ (turn 0 (has_room (omega arith)))) (turn 0 (take_tail refl)) in
    let s₅ = next (next s₄ (turn 1 load_head)) (turn 1 load_tail) in
    let s₆ = next (next s₅ (turn 1 (has_room (omega arith)))) (turn 1 (take_tail refl)) in
    let s₇ = next (next s₆ (turn 1 (put (omega arith)))) (turn 1 stored) in
    (_, next s₇ (turn 1 (wait waits)))

-- Writer 1 ends after writer 0.
abbrev walk : (s : Writers) × Reach 8 four s
unfolding clip write_size
walk =
    let s₈ = next half_way.1 (turn 0 (put (omega arith))) in
    let s₉ = next (next s₈ (turn 0 (put (omega arith)))) (turn 0 stored) in
    (_, next (next s₉ (turn 0 (publish refl))) (turn 1 (publish refl)))

contents-then-sent_example : contents 8 walk.0.ring ≡ contents 8 four ++ walk.0.sent
contents-then-sent_example = contents-then-sent 8 four walk.0 (omega arith) (omega arith) walk.1

sent_in_order : walk.0.sent ≡ 5 ∷ 6 ∷ 9 ∷ []
unfolding walk
sent_in_order = refl
