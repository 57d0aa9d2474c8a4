-- ===== src/Ring/Repeat.antt =====
-- rb_read of release/RingBuffer.cpp in a process that other calls overtake between its copy and its
-- compare-and-swap of the head.
use make_the_american_great.Prelude.{
  ℕ, suc, ◌+◌, ◌-◌, ◌%◌, ◌≤◌, ◌≡◌, ap, ◌∙◌, List, length, take, min, arith, ◌==◌, if◌then◌else◌,
  u32, Mem,
}
use make_the_american_great.Run.{Run, done}
use make_the_american_great.Ring.{Ring, rb_read, rb_write}
use make_the_american_great.Ring.Inv.{IsSize, IsValid, IsQuiet, used, contents}
use make_the_american_great.Ring.Read.{after_read, rb_read-done, next_index}
use make_the_american_great.Ring.Stale.{new_ring, fill_and_drain, two_more}

-- rb_read from its compare-and-swap on, when it has loaded the head as h and copied k bytes.
unfoldable pub rb_read_late : ℕ → ℕ → Ring → (h k : ℕ) → List ℕ → Run (ℕ × List ℕ × Ring)
rb_read_late n fuel rb h k output =
    let retry = rb_read n fuel rb k in
    if rb.head == h then done (k, output, record rb { head = u32 (h + k) % n }) else retry

late_at_head :
    (n fuel : ℕ) (rb : Ring) (output : List ℕ)
    → IsSize n
    → 3 ≤ n
    → rb.head ≡ 0
    → rb_read_late n fuel rb 0 1 output ≡ done (1, output, record rb { head = 1 })
unfolding rb_read_late
late_at_head n fuel rb output s three at =
    let to : u32 (0 + 1) % n ≡ 1 = next_index n 0 1 s (omega arith) (omega arith) ∙ ground arith in
    rw (at, to)

read_one :
    (n : ℕ) (rb : Ring) (u : ℕ)
    → IsSize n
    → IsValid n rb
    → used n rb ≡ suc u
    → rb_read n 1 rb 1 ≡ done (1, take 1 (contents n rb), after_read n rb 1)
read_one n rb u s v some_used =
    let one : min 1 (used n rb) ≡ 1 = omega arith in
    rb_read-done n 0 rb 1 s v (omega arith)
    ∙ ap (λ c. done (c, take c (contents n rb), after_read n rb c)) one

-- The ring whose last byte but one is read: the head is back at 0, and one byte is left.
back_at_start :
    (n : ℕ) (rb : Ring)
    → 3 ≤ n
    → IsQuiet n rb
    → rb.head ≡ n - 1
    → used n rb ≡ 2
    → ((after_read n rb 1).head ≡ 0)
      × (used n (after_read n rb 1) ≡ 1)
      × (used n (record (after_read n rb 1) { head = 1 }) ≡ 0)
back_at_start n rb three q at two =
    (ground arith, ground (arith, q.valid.old_tail_in), ground (arith, q.valid.old_tail_in))

-- On every ring of at least three bytes two readers can return the same bytes: n - 1 bytes are
-- written, and one reader copies the first of them; then another reads all of them, two more are
-- written, and it reads one of these. The first then goes on: its read succeeds and returns the byte
-- that the other has returned already, and the byte that is left in the ring is lost.
pub two_readers_repeat :
    (n : ℕ) (content : Mem) (xs ys : List ℕ)
    → IsSize n
    → 3 ≤ n
    → length xs ≡ n - 1
    → length ys ≡ 2
    → let empty = new_ring content in
      (r₁ : Ring) × (r₂ : Ring) × (r₃ : Ring) × (r₄ : Ring) × (r₅ : Ring) × (rb_write n 1 empty
          (length xs)
          xs
        ≡ done (length xs, r₁))
      × (rb_read n 1 r₁ 1 ≡ done (1, take 1 (contents n r₁), after_read n r₁ 1))
      × (rb_read n 1 r₁ (n - 1) ≡ done (n - 1, take (n - 1) (contents n r₁), r₂))
      × (rb_write n 1 r₂ (length ys) ys ≡ done (length ys, r₃))
      × (rb_read n 1 r₃ 1 ≡ done (1, take 1 (contents n r₃), r₄))
      × (used n r₄ ≡ 1)
      × (rb_read_late n 0 r₄ r₁.head 1 (take 1 (contents n r₁))
          ≡ done (1, take 1 (contents n r₁), r₅))
      × (used n r₅ ≡ 0)
two_readers_repeat n content xs ys s three lx ly =
    let d = fill_and_drain n content xs s three lx in
    let (b, two, head, tail) = two_more n d.rb' ys s three d.quiet d.head d.empty ly in
    let (at, one, none) = back_at_start n b.rb' three b.quiet head two in
    let out : List ℕ = take 1 (contents n d.full) in
    (
      d.full,
      d.rb',
      b.rb',
      after_read n b.rb' 1,
      record (after_read n b.rb' 1) { head = 1 },
      d.writes,
      read_one n d.full (n - 2) s d.full_quiet.valid (omega (arith, d.filled)),
      d.reads,
      b.returns,
      read_one n b.rb' 1 s b.quiet.valid two,
      one,
      ap (λ h. rb_read_late n 0 (after_read n b.rb' 1) h 1 out) d.full_head
          ∙ late_at_head n 0 (after_read n b.rb' 1) out s three at,
      none,
    )
