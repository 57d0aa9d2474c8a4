-- ===== src/Mpmc/Tests.antt =====
-- Two writers and two readers on a ring of eight bytes.
use make_the_american_great.Prelude.{ℕ, ◌^◌, ◌≤◌, ◌<◌, ◌≡◌, ◌≢◌, refl, [], ◌∷◌, ◌++◌, length, arith}
use make_the_american_great.Ring.{clip, read_size, write_size, remain_length}
use make_the_american_great.Ring.Inv.{contents}
use make_the_american_great.Spsc.{
  Write, Read, has_room, take_tail, put, stored, wait, publish, has_bytes, get, take_head,
  lose_head,
}
use make_the_american_great.Mpmc.{System, write, read, Reach, here, next}
use make_the_american_great.Spsc.Writers.Progress.{Advances}
use make_the_american_great.Mpmc.Progress.{some_writer_goes_on}
use make_the_american_great.Mpmc.Safety.{sent-received}

abbrev zeros : ℕ → ℕ
zeros i = 0

int : 1 < 2 ^ 31
int = omega arith

one_byte : 1 ≤ length {A = ℕ} (9 ∷ [])
one_byte = omega arith

room_for_one : ◌≢◌ {A = ℕ} 1 0
room_for_one = omega arith

none_yet : 0 < 8
none_yet = omega arith

one_more : 1 < 8
one_more = omega arith

two_more : 2 < 8
two_more = omega arith

no_more : 1 < 9
no_more = omega arith

none_of_one : 0 < 1
none_of_one = omega arith

waits : ◌≢◌ {A = ℕ} 0 1
waits = omega arith

moved : ◌≢◌ {A = ℕ} 1 0
moved = omega arith

abbrev Run : Type 0
Run = (s : System) × Reach 8 zeros s

-- Writer 0 reserves its byte.
abbrev first : Run
unfolding clip write_size
first =
    let s₁ = next here (write 0 tt (Write.call {input = 5 ∷ []} {len = 1} int one_byte)) in
    let s₂ = next s₁ (write 0 tt Write.load_head) in
    let s₃ = next s₂ (write 0 none_yet Write.load_tail) in
    let s₄ = next s₃ (write 0 tt (has_room room_for_one)) in
    (_, next s₄ (write 0 none_yet (take_tail refl)))

-- Writer 1 reserves its byte behind it.
abbrev second : Run
unfolding clip write_size first
second =
    let s₁ = next first.1 (write 1 tt (Write.call {input = 9 ∷ []} {len = 1} int one_byte)) in
    let s₂ = next s₁ (write 1 tt Write.load_head) in
    let s₃ = next s₂ (write 1 one_more Write.load_tail) in
    let s₄ = next s₃ (write 1 tt (has_room room_for_one)) in
    (_, next s₄ (write 1 no_more (take_tail refl)))

-- Writer 1 stores its byte first and waits; then both end.
abbrev third : Run
unfolding first second
third =
    let s₁ = next second.1 (write 1 tt (put none_of_one)) in
    let s₂ = next s₁ (write 1 tt stored) in
    let s₃ = next s₂ (write 1 tt (wait waits)) in
    let s₄ = next s₃ (write 0 tt (put none_of_one)) in (_, next s₄ (write 0 tt stored))

abbrev written : Run
unfolding first second third
written =
    let s₁ = next third.1 (write 0 tt (publish refl)) in (_, next s₁ (write 1 tt (publish refl)))

-- Both readers copy the first byte.
abbrev copied : Run
unfolding clip read_size remain_length first second third written
copied =
    let s₁ = next written.1 (read 0 tt (Read.call {len = 1} int)) in
    let s₂ = next s₁ (read 0 tt Read.load_head) in
    let s₃ = next s₂ (read 0 two_more Read.load_tail) in
    let s₄ = next s₃ (read 0 tt (has_bytes room_for_one)) in
    (_, next s₄ (read 0 (λ e. none_yet) (get none_of_one)))

abbrev copied_twice : Run
unfolding clip read_size remain_length first second third written copied
copied_twice =
    let s₁ = next copied.1 (read 1 tt (Read.call {len = 1} int)) in
    let s₂ = next s₁ (read 1 tt Read.load_head) in
    let s₃ = next s₂ (read 1 two_more Read.load_tail) in
    let s₄ = next s₃ (read 1 tt (has_bytes room_for_one)) in
    (_, next s₄ (read 1 (λ e. none_yet) (get none_of_one)))

-- Reader 0 takes it, and reader 1 begins again.
abbrev taken : Run
unfolding clip read_size remain_length first second third written copied copied_twice
taken =
    let s₁ =
      next copied_twice.1
        (read 0 {bytes = 5 ∷ []} (λ e. none_yet) (take_head {got = 5 ∷ []} refl refl)) in
    (_, next s₁ (read 1 {bytes = []} (λ e. one_more) (lose_head {got = 5 ∷ []} refl moved)))

sent-received_example : taken.0.sent ≡ taken.0.received ++ contents 8 taken.0.ring
sent-received_example = sent-received 8 zeros taken.0 (omega arith) taken.1

both : (taken.0.sent ≡ 5 ∷ 9 ∷ []) × (taken.0.received ≡ 5 ∷ [])
unfolding taken copied_twice copied written third second first
both = (refl, refl)

unpublished : ◌≢◌ {A = ℕ} 0 2
unpublished = omega arith

some_writer_goes_on_example : (i : ℕ) × Advances 8 third.0.ring (third.0.writer i).pc
unfolding first second third
some_writer_goes_on_example = some_writer_goes_on 8 zeros third.0 (omega arith) third.1 unpublished
