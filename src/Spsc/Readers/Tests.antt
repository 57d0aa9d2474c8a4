-- ===== src/Spsc/Readers/Tests.antt =====
-- Two readers of a ring of eight bytes that take the same head: one of them gets the bytes.
use make_the_american_great.Prelude.{ℕ, ◌+◌, ◌^◌, ◌<◌, ◌≡◌, ◌≢◌, refl, [], ◌∷◌, arith}
use make_the_american_great.Ring.{Ring, clip, read_size, remain_length}
use make_the_american_great.Spsc.{Read, load_head, load_tail, has_bytes, get, take_head, lose_head}
use make_the_american_great.Spsc.Readers.{Readers, turn, Reach, here, next}

-- Its four bytes are at the offsets 6, 7, 0 and 1.
abbrev four : Ring
four = record { head = 6; tail = 2; old_tail = 2; content = λ i. i + 10 }

int : 2 < 2 ^ 31
int = omega arith

moved : ◌≢◌ {A = ℕ} 0 6
moved = omega arith

-- Both copy two bytes; reader 0 takes them, and reader 1 begins again.
abbrev walk : (s : Readers) × Reach 8 four s
unfolding clip read_size remain_length
walk =
    let s₁ = next here (turn 0 (Read.call {len = 2} int)) in
    let s₂ = next s₁ (turn 1 (Read.call {len = 2} int)) in
    let s₃ = next (next s₂ (turn 0 load_head)) (turn 1 load_head) in
    let s₄ = next (next s₃ (turn 0 load_tail)) (turn 1 load_tail) in
    let s₅ = next (next s₄ (turn 0 (has_bytes (omega arith)))) (turn 1 (has_bytes (omega arith))) in
    let s₆ = next (next s₅ (turn 0 (get (omega arith)))) (turn 1 (get (omega arith))) in
    let s₇ = next (next s₆ (turn 0 (get (omega arith)))) (turn 1 (get (omega arith))) in
    let s₈ = next s₇ (turn 0 {bytes = 16 ∷ 17 ∷ []} (take_head {got = 16 ∷ 17 ∷ []} refl refl)) in
    (_, next s₈ (turn 1 {bytes = []} (lose_head {got = 16 ∷ 17 ∷ []} refl moved)))

returned : walk.0.received ≡ 16 ∷ 17 ∷ []
unfolding walk
returned = refl
