-- ===== src/TwoWord/Early.antt =====
-- A read between the compare-and-swap of the tail and the copies of a write: workspace/io.cpp.
use mathlib.Core.Path.{subst}
use make_the_american_great.Prelude.{
  ℕ, ◌+◌, ◌-◌, ◌%◌, ◌≤◌, ◌<◌, ◌≡◌, refl, ap, ◌∙◌, sym, List, length, take, min, arith, ne→==-false,
  ==_refl, u32, take-generate, Mem,
}
use make_the_american_great.Run.{Run, done, fault, spinning}
use make_the_american_great.Ring.{Ring, write_size, clip}
use make_the_american_great.Ring.Inv.{
  IsSize, IsValid, wrap, span, used, contents, window, write_size-eq, clip-eq-min,
}
use make_the_american_great.Ring.Read.{after_read, rb_read-done, next_index}
use make_the_american_great.Ring.Copy.{store-Stored}
use make_the_american_great.TwoWord.{Words, read, write, end_write}
use make_the_american_great.TwoWord.Same.{published, read_published, read-as_rb_read}

-- The ring once write has moved the tail past k bytes.
abbrev pub swapped : ℕ → Words → ℕ → Words
swapped n rb k = record rb { tail = u32 (rb.tail + k) % n }

abbrev pub read_to : Words → ℕ → Words
read_to rb h = record rb { head = h }

module _ (n : ℕ) (rb : Words) (k : ℕ) (size : IsSize n) (in_data : rb.head < n)
    (empty : rb.tail ≡ rb.head) (some_bytes : 0 < k) (fits : k < n) where
  to : u32 (rb.tail + k) % n ≡ wrap n (rb.head + k)
  to = next_index n rb.tail k size (omega (arith, empty)) fits ∙ ap (λ z. wrap n (z + k)) empty

  write_begins :
      (input : List ℕ) → write n 1 rb k input ≡ end_write n (swapped n rb k) rb.tail k input
  unfolding write
  write_begins input =
      let room : write_size n rb.head rb.tail ≡ n - 1 =
        write_size-eq n rb.head rb.tail size in_data (omega (arith, empty))
        ∙ ground (arith, empty) in
      let asks : clip (write_size n rb.head rb.tail) k ≡ k =
        ap (λ z. clip z k) room
        ∙ clip-eq-min (n - 1) k (omega (arith, size.small)) (omega (arith, size.small))
        ∙ omega arith in
      rw (asks, ne→==-false k 0 (λ z. omega arith), ==_refl rb.tail) refl

  -- The read finds k bytes in the ring, which are what was there before the write.
  early_read :
      read_published (read n 1 (swapped n rb k) k)
      ≡ done (k, window n rb.content rb.head k, after_read n (published (swapped n rb k)) k)
  early_read =
      let ring : Ring = published (swapped n rb k) in
      let inside : wrap n (rb.head + k) < n = ground arith in
      let valid : IsValid n ring = record {
        head_in = in_data;
        tail_in = subst (λ z. z < n) (sym to) inside;
        old_tail_in = subst (λ z. z < n) (sym to) inside;
      } in
      let count : used n ring ≡ k = ap (span n rb.head) to ∙ ground (arith, in_data) in
      let all : min k (used n ring) ≡ k = omega arith in
      read-as_rb_read n 1 (swapped n rb k) k
      ∙ rb_read-done n 0 ring k size valid (omega (arith, size.small))
      ∙ ap (λ c. done (c, take c (contents n ring), after_read n ring c)) all
      ∙ ap (λ xs. done (k, xs, after_read n ring k))
          (take-generate (λ i. rb.content (wrap n (rb.head + i))) k (used n ring) (omega arith))

  -- The copies then go behind the head.
  write_ends :
      (input : List ℕ) (rb₁ : Words)
      → k ≤ length input
      → (m : Mem) × (end_write n rb₁ rb.tail k input ≡ done (k, record rb₁ { content = m }))
  unfolding end_write
  write_ends input rb₁ long =
      let (m, copied, stored) =
        store-Stored n rb₁.content rb.tail input k size (omega (arith, empty)) fits long in
      (m, rw (end_write, copied) refl)

pub read_inverts :
    (r : Run (ℕ × List ℕ × Words)) (k : ℕ) (xs : List ℕ) (ring : Ring)
    → read_published r ≡ done (k, xs, ring)
    → (w : Words) × (r ≡ done (k, xs, w)) × (published w ≡ ring)
read_inverts (done r) k xs ring h = (r.2, cc, cc)
read_inverts fault k xs ring h = cc
read_inverts spinning k xs ring h = cc

-- On every empty ring a read that comes between the compare-and-swap of the tail and the copies of
-- a write of k bytes returns k bytes, which are what the data area held before; then the write ends
-- and returns k, and the ring is empty: the bytes of the write are never read.
pub unwritten_read :
    (n : ℕ) (rb : Words) (k : ℕ) (input : List ℕ)
    → IsSize n
    → rb.head < n
    → rb.tail ≡ rb.head
    → 0 < k
    → k < n
    → k ≤ length input
    → (rb₁ : Words) × (rb₂ : Words) × (write n 1 rb k input
        ≡ end_write n (swapped n rb k) rb.tail k input)
      × (read n 1 (swapped n rb k) k ≡ done (k, window n rb.content rb.head k, rb₁))
      × (end_write n rb₁ rb.tail k input ≡ done (k, rb₂))
      × (rb₂.head ≡ rb₂.tail)
unwritten_read n rb k input size in_data empty some_bytes fits long =
    let (rb₁, reads, same) =
      read_inverts (read n 1 (swapped n rb k) k) k (window n rb.content rb.head k)
        (after_read n (published (swapped n rb k)) k)
        (early_read n rb k size in_data empty some_bytes fits) in
    let (m, ends) = write_ends n rb k size in_data empty some_bytes fits input rb₁ long in
    (
      rb₁,
      record rb₁ { content = m },
      write_begins n rb k size in_data empty some_bytes fits input,
      reads,
      ends,
      ap (λ r. r.head) same
          ∙ sym (to n rb k size in_data empty some_bytes fits)
          ∙ sym (ap (λ r. r.tail) same),
    )
