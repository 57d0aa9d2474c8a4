-- ===== src/Ring/Stale.antt =====
-- rb_write of release/RingBuffer.cpp in a process that another writer and a reader overtake between
-- its load of the head and its load of the tail.
use mathlib.Core.Path.{subst, ap₂}
use make_the_american_great.Prelude.{
  ℕ, suc, ◌+◌, ◌-◌, ◌≤◌, ◌≡◌, ◌≢◌, ap, ◌∙◌, sym, List, ◌++◌, length, take, min, arith, ◌==◌,
  if◌then◌else◌, ne→==-false, Mem, length-append, take-length,
}
use make_the_american_great.Run.{Run, done}
use make_the_american_great.Ring.{Ring, rb_read, rb_write, reserve, write_size, clip}
use make_the_american_great.Ring.Inv.{
  IsSize, IsValid, IsQuiet, used, contents, length-contents, wrap, write_size-eq, clip-eq-min,
}
use make_the_american_great.Ring.Read.{after_read, rb_read-done, after_read-IsValid}
use make_the_american_great.Ring.Write.{
  room, Wrote, rb_write-Wrote, reserve-done, finish_write-done,
}
use make_the_american_great.Ring.Copy.{store-Stored}

-- rb_write from its load of the tail on, when it has loaded the head as h before.
unfoldable pub rb_write_from : ℕ → ℕ → Ring → ℕ → ℕ → List ℕ → Run (ℕ × Ring)
rb_write_from n fuel rb h len input =
    let len' = clip (write_size n h rb.tail) len in
    let retry = rb_write n fuel rb len' input in
    if len' == 0 then done (0, rb) else reserve n (suc fuel) rb rb.tail len' input retry

-- The ring after a write that ends.
pub record Filled (n : ℕ) (rb : Ring) (input : List ℕ) (r : Run (ℕ × Ring)) : Type 0 where
  pub rb' : Ring
  pub returns : r ≡ done (length input, rb')
  pub quiet : IsQuiet n rb'
  pub head : rb'.head ≡ rb.head
  pub count : used n rb' ≡ used n rb + length input

pub rb_write-Filled :
    (n : ℕ) (rb : Ring) (input : List ℕ)
    → IsSize n
    → IsQuiet n rb
    → length input ≤ room n rb
    → Filled n rb input (rb_write n 1 rb (length input) input)
rb_write-Filled n rb input s q fits =
    let l : ℕ = length input in
    let all : min l (room n rb) ≡ l = omega arith in
    let out : Wrote n rb input l (rb_write n 1 rb l input) =
      subst (λ c. Wrote n rb input c (rb_write n 1 rb l input)) all
        (rb_write-Wrote n 0 rb l input s q (omega (arith, s.small)) (omega arith)) in
    record {
      rb' = out.rb';
      returns = out.returns;
      quiet = out.quiet;
      head = out.same_head;
      count =
          sym (length-contents n out.rb')
          ∙ ap length (out.appended ∙ ap (λ xs. contents n rb ++ xs) (take-length input))
          ∙ length-append (contents n rb) input
          ∙ ap (λ c. c + l) (length-contents n rb);
    }

rb_write_from-reserve :
    (n fuel : ℕ) (rb : Ring) (h k : ℕ) (input : List ℕ)
    → clip (write_size n h rb.tail) k ≡ k
    → k ≢ 0
    → rb_write_from n fuel rb h k input
      ≡ reserve n (suc fuel) rb rb.tail k input (rb_write n fuel rb k input)
unfolding rb_write_from
rb_write_from-reserve n fuel rb h k input asks some_bytes = rw (asks, ne→==-false k 0 some_bytes)

-- The write with the old head goes up to the head of the ring.
overrun :
    (n : ℕ) (rb : Ring) (input : List ℕ)
    → IsSize n
    → 3 ≤ n
    → IsQuiet n rb
    → rb.head ≡ n - 1
    → rb.tail ≡ 1
    → length input ≡ n - 2
    → (rb' : Ring) × (rb_write_from n 0 rb 0 (n - 2) input ≡ done (n - 2, rb')) × (used n rb' ≡ 0)
overrun n rb input s three q head tail long =
    let k : ℕ = n - 2 in
    let t : ℕ = wrap n (rb.tail + k) in
    let size : write_size n 0 rb.tail ≡ k =
      write_size-eq n 0 rb.tail s s.positive q.valid.tail_in ∙ ground (arith, tail) in
    let asks : clip (write_size n 0 rb.tail) k ≡ k =
      ap (λ z. clip z k) size
      ∙ clip-eq-min k k (omega (arith, s.small)) (omega (arith, s.small))
      ∙ omega arith in
    let (m, copied, stored) =
      store-Stored n rb.content rb.tail input k s q.valid.tail_in (omega arith)
        (omega (arith, long)) in
    let rb₁ : Ring = record rb { tail = t } in
    let rb' : Ring = record rb₁ { content = m; old_tail = t } in
    let end : t ≡ n - 1 = ground (arith, tail) in
    (
      rb',
      rb_write_from-reserve n 0 rb 0 k input asks (λ z. omega arith)
          ∙ reserve-done n 1 rb k input (rb_write n 0 rb k input) s q.valid.tail_in (omega arith)
          ∙ finish_write-done n 0 rb₁ rb.tail t k input m copied q.published,
      ground (arith, end, head),
    )

-- A ring as rb_init leaves a new segment.
abbrev pub new_ring : Mem → Ring
new_ring content = record { head = 0; tail = 0; old_tail = 0; content = content }

-- The ring after the first two calls: it is empty, and the head is at the last byte.
pub record Drained (n : ℕ) (content : Mem) (xs : List ℕ) : Type 0 where
  pub full : Ring
  pub rb' : Ring
  pub writes : rb_write n 1 (new_ring content) (length xs) xs ≡ done (length xs, full)
  pub reads : rb_read n 1 full (n - 1) ≡ done (n - 1, take (n - 1) (contents n full), rb')
  pub quiet : IsQuiet n rb'
  pub head : rb'.head ≡ n - 1
  pub empty : used n rb' ≡ 0
  pub full_quiet : IsQuiet n full
  pub full_head : full.head ≡ 0
  pub filled : used n full ≡ n - 1

drain :
    (n : ℕ) (full : Ring)
    → IsSize n
    → 3 ≤ n
    → IsQuiet n full
    → full.head ≡ 0
    → used n full ≡ n - 1
    → (rb_read n 1 full (n - 1)
        ≡ done (n - 1, take (n - 1) (contents n full), after_read n full (n - 1)))
      × IsQuiet n (after_read n full (n - 1))
      × ((after_read n full (n - 1)).head ≡ n - 1)
      × (used n (after_read n full (n - 1)) ≡ 0)
drain n full s three q head count =
    let all : min (n - 1) (used n full) ≡ n - 1 = omega arith in
    (
      rb_read-done n 0 full (n - 1) s q.valid (omega (arith, s.small))
          ∙ ap (λ c. done (c, take c (contents n full), after_read n full c)) all,
      record {
        valid = after_read-IsValid n full (n - 1) q.valid (omega arith);
        published = q.published;
      },
      ground arith,
      ground (arith, q.valid.old_tail_in),
    )

pub fill_and_drain :
    (n : ℕ) (content : Mem) (xs : List ℕ)
    → IsSize n
    → 3 ≤ n
    → length xs ≡ n - 1
    → Drained n content xs
fill_and_drain n content xs s three long =
    let none_used : used n (new_ring content) ≡ 0 = ground arith in
    let a : Filled n (new_ring content) xs (rb_write n 1 (new_ring content) (length xs) xs) =
      rb_write-Filled n (new_ring content) xs s (omega (arith, s.positive))
        (omega (arith, none_used)) in
    let out = drain n a.rb' s three a.quiet a.head (omega (arith, a.count, none_used)) in
    record {
      full = a.rb';
      rb' = after_read n a.rb' (n - 1);
      writes = a.returns;
      reads = out.0;
      quiet = out.1;
      head = out.2;
      empty = out.3;
      full_quiet = a.quiet;
      full_head = a.head;
      filled = omega (arith, a.count, none_used);
    }

-- Two more bytes go round the end of the data area.
pub two_more :
    (n : ℕ) (rb : Ring) (ys : List ℕ)
    → IsSize n
    → 3 ≤ n
    → IsQuiet n rb
    → rb.head ≡ n - 1
    → used n rb ≡ 0
    → length ys ≡ 2
    → (b : Filled n rb ys (rb_write n 1 rb (length ys) ys)) × (used n b.rb' ≡ 2)
      × (b.rb'.head ≡ n - 1)
      × (b.rb'.tail ≡ 1)
two_more n rb ys s three q head empty long =
    let b : Filled n rb ys (rb_write n 1 rb (length ys) ys) =
      rb_write-Filled n rb ys s q (omega arith) in
    let two : used n b.rb' ≡ 2 = b.count ∙ ap₂ ◌+◌ empty long in
    let at_head : b.rb'.head ≡ n - 1 = b.head ∙ head in
    (b, two, at_head, sym b.quiet.published ∙ behind n b.rb' three b.quiet.valid at_head two)
  where
    behind :
        (n : ℕ) (rb : Ring)
        → 3 ≤ n
        → IsValid n rb
        → rb.head ≡ n - 1
        → used n rb ≡ 2
        → rb.old_tail ≡ 1
    behind n rb three v head two = ground (arith, v.old_tail_in)

-- On every ring of at least three bytes bytes that are not read can be lost to two writers: the
-- first loads the head of the empty ring; then the second writes n - 1 bytes, the reader reads
-- them, and the second writes two more; then the first goes on, and its write of n - 2 bytes, for
-- which there is no room, succeeds and leaves a ring that looks empty, with the two bytes unread.
pub two_writers_overrun :
    (n : ℕ) (content : Mem) (xs ys zs : List ℕ)
    → IsSize n
    → 3 ≤ n
    → length xs ≡ n - 1
    → length ys ≡ 2
    → length zs ≡ n - 2
    → let empty = new_ring content in
      (r₁ : Ring) × (r₂ : Ring) × (r₃ : Ring) × (r₄ : Ring) × (rb_write n 1 empty (length xs) xs
        ≡ done (length xs, r₁))
      × (rb_read n 1 r₁ (n - 1) ≡ done (n - 1, take (n - 1) (contents n r₁), r₂))
      × (rb_write n 1 r₂ (length ys) ys ≡ done (length ys, r₃))
      × (rb_write_from n 0 r₃ empty.head (n - 2) zs ≡ done (n - 2, r₄))
      × (used n r₃ ≡ 2)
      × (used n r₄ ≡ 0)
two_writers_overrun n content xs ys zs s three lx ly lz =
    let d = fill_and_drain n content xs s three lx in
    let (b, two, head, tail) = two_more n d.rb' ys s three d.quiet d.head d.empty ly in
    let (r₄, returns, looks_empty) = overrun n b.rb' zs s three b.quiet head tail lz in
    (d.full, d.rb', b.rb', r₄, d.writes, d.reads, b.returns, returns, two, looks_empty)
