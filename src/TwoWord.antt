-- ===== src/TwoWord.antt =====
-- The earlier ring of workspace/io.cpp, whose segment has two words, head and tail: read and write.
-- `n` is its SHM_DATA_SIZE.

pub mod Same
pub mod Early
pub mod Demo
pub mod Opened
pub mod Prints
mod Tests
use make_the_american_great.Prelude.{
  ℕ, zero, suc, ◌+◌, ◌%◌, ◌*◌, List, [], none, some, u32, sub64, ◌==◌, if◌then◌else◌, Mem,
}
use make_the_american_great.Run.{Run, done, fault, spinning}
use make_the_american_great.Ring.{read_size, write_size, clip, fetch, store}

pub record Words : Type 0 where
  pub head : ℕ
  pub tail : ℕ
  pub content : Mem

abbrev pub early_data_size : ℕ
early_data_size = sub64 32 (2 * 4)

-- The end of an attempt of read: the copy, then the compare-and-swap of the head.
unfoldable pub end_read : ℕ → Words → ℕ → ℕ → Run (ℕ × List ℕ × Words) → Run (ℕ × List ℕ × Words)
end_read n rb head len retry = elim (fetch n rb.content head len) [
  | none ↦ fault
  | some output ↦
      if rb.head == head
      then done (len, output, record rb { head = u32 (head + len) % n })
      else retry
]

-- RingBuffer::read with `fuel` attempts.
unfoldable pub read : ℕ → ℕ → Words → ℕ → Run (ℕ × List ℕ × Words)
read n zero rb len = spinning
read n (suc fuel) rb len =
    let retry = read n fuel rb (clip (read_size n rb.head rb.tail) len) in
    let len' = clip (read_size n rb.head rb.tail) len in
    if len' == 0 then done (0, [], rb) else end_read n rb rb.head len' retry

-- The copies of write, after the tail has been moved.
unfoldable pub end_write : ℕ → Words → ℕ → ℕ → List ℕ → Run (ℕ × Words)
end_write n rb tail len input = elim (store n rb.content tail input len) [
  | none ↦ fault
  | some content ↦ done (len, record rb { content = content })
]

-- RingBuffer::write with `fuel` attempts.
unfoldable pub write : ℕ → ℕ → Words → ℕ → List ℕ → Run (ℕ × Words)
write n zero rb len input = spinning
write n (suc fuel) rb len input =
    let retry = write n fuel rb (clip (write_size n rb.head rb.tail) len) input in
    let len' = clip (write_size n rb.head rb.tail) len in
    if len' == 0
    then done (0, rb)
    else if rb.tail == rb.tail
    then end_write n (record rb { tail = u32 (rb.tail + len') % n }) rb.tail len' input
    else retry
