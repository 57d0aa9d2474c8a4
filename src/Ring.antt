-- ===== src/Ring.antt =====
-- The shared ring buffer of release/RingBuffer.h and release/RingBuffer.cpp: rb_read and rb_write.
-- `n` is SHM_DATA_SIZE. An int and a uint32_t are their bit patterns.

pub mod Inv
pub mod Copy
pub mod Read
pub mod Write
pub mod Refine
pub mod Limits
pub mod Stale
pub mod Repeat
mod Tests
use make_the_american_great.Run.{Run, done, fault, spinning}
use make_the_american_great.Prelude.{
  ℕ, zero, suc, ◌+◌, ◌*◌, ◌%◌, ◌&&◌, Option, none, some, List, [], ◌++◌, u32, u64, sub32, sub64,
  lt_int, int_to_size, ltb, leb, ◌==◌, if◌then◌else◌, length, get_or, Mem, slice, blit,
}

-- The segment of a ring: three uint32_t words, then the data bytes.
pub record Ring : Type 0 where
  pub head : ℕ
  pub tail : ℕ
  pub old_tail : ℕ
  pub content : Mem

abbrev pub shm_size : ℕ
shm_size = 4096 * 512

abbrev pub metadata_size : ℕ
metadata_size = 3

-- sizeof(uint32_t) is 4.
abbrev pub shm_data_size : ℕ
shm_data_size = sub64 shm_size (metadata_size * 4)

-- memcpy of `count` bytes out of the data area, which has n bytes. A count is a size_t.
unfoldable pub copy_out : ℕ → Mem → ℕ → ℕ → Option (List ℕ)
copy_out n content off count = if leb (off + count) n then some (slice content off count) else none

-- memcpy of `count` bytes of `input`, from `from` on, into the data area.
unfoldable pub copy_in : ℕ → Mem → ℕ → List ℕ → ℕ → ℕ → Option Mem
copy_in n content off input from count =
    if leb (off + count) n && leb (from + count) (length input)
    then some (blit content off (slice (λ i. get_or input i 0) from count))
    else none

-- The `size` of rb_read, and that of rb_write, as ints.
unfoldable pub read_size : ℕ → ℕ → ℕ → ℕ
read_size n head tail = if leb head tail then sub32 tail head else u32 (sub64 (u64 (tail + n)) head)

unfoldable pub write_size : ℕ → ℕ → ℕ → ℕ
write_size n head tail =
    if ltb tail head then sub32 (sub32 head tail) 1 else u32 (sub64 (sub64 (u64 (head + n)) tail) 1)

-- if (size < len) len = size;
unfoldable pub clip : ℕ → ℕ → ℕ
clip size len = if lt_int size len then size else len

-- int remain_length = SHM_DATA_SIZE - from;
unfoldable pub remain_length : ℕ → ℕ → ℕ
remain_length n from = u32 (sub64 n from)

abbrev pub append_parts : Option (List ℕ) → Option (List ℕ) → Option (List ℕ)
append_parts none ys = none
append_parts (some xs) none = none
append_parts (some xs) (some ys) = some (xs ++ ys)

abbrev pub and_then : Option Mem → (Mem → Option Mem) → Option Mem
and_then none k = none
and_then (some m) k = k m

-- The one or two memcpy calls of rb_read.
unfoldable pub fetch : ℕ → Mem → ℕ → ℕ → Option (List ℕ)
fetch n content head len =
    if ltb (u32 (head + len)) n
    then copy_out n content head (int_to_size len)
    else append_parts (copy_out n content head (int_to_size (remain_length n head)))
        (copy_out n content 0 (int_to_size (sub32 len (remain_length n head))))

-- The one or two memcpy calls of rb_write.
unfoldable pub store : ℕ → Mem → ℕ → List ℕ → ℕ → Option Mem
store n content tail input len =
    if ltb (u32 (tail + len)) n
    then copy_in n content tail input 0 (int_to_size len)
    else and_then (copy_in n content tail input 0 (int_to_size (remain_length n tail))) (λ m.
      copy_in n m 0 input (remain_length n tail) (int_to_size (sub32 len (remain_length n tail))))

-- The end of an attempt of rb_read: the copy, then the compare-and-swap of the head, with what the
-- retry comes to.
unfoldable pub finish_read : ℕ → Ring → ℕ → ℕ → Run (ℕ × List ℕ × Ring) → Run (ℕ × List ℕ × Ring)
finish_read n rb head len retry = elim (fetch n rb.content head len) [
  | none ↦ fault
  | some output ↦
      if rb.head == head
      then done (len, output, record rb { head = u32 (head + len) % n })
      else retry
]

-- rb_read with `fuel` attempts. Nobody else touches the ring during the call.
unfoldable pub rb_read : ℕ → ℕ → Ring → ℕ → Run (ℕ × List ℕ × Ring)
rb_read n zero rb len = spinning
rb_read n (suc fuel) rb len =
    let retry = rb_read n fuel rb (clip (read_size n rb.head rb.old_tail) len) in
    let len' = clip (read_size n rb.head rb.old_tail) len in
    if len' == 0 then done (0, [], rb) else finish_read n rb rb.head len' retry

-- The last loop of rb_write: wait until old_tail is `tail`, and set it to `new_tail`.
unfoldable pub publish : ℕ → Ring → ℕ → ℕ → ℕ → Run (ℕ × Ring)
publish zero rb tail new_tail len = spinning
publish (suc fuel) rb tail new_tail len =
    let again = publish fuel rb tail new_tail len in
    if rb.old_tail == tail then done (len, record rb { old_tail = new_tail }) else again

-- What rb_write does once it has moved the tail.
unfoldable pub finish_write : ℕ → ℕ → Ring → ℕ → ℕ → ℕ → List ℕ → Run (ℕ × Ring)
finish_write n fuel rb tail new_tail len input = elim (store n rb.content tail input len) [
  | none ↦ fault
  | some content ↦ publish fuel (record rb { content = content }) tail new_tail len
]

-- The compare-and-swap of the tail, from the value `tail` that was loaded, and what follows it.
unfoldable pub reserve : ℕ → ℕ → Ring → ℕ → ℕ → List ℕ → Run (ℕ × Ring) → Run (ℕ × Ring)
reserve n fuel rb tail len input retry =
    let new_tail = u32 (tail + len) % n in
    if rb.tail == tail
    then finish_write n fuel (record rb { tail = new_tail }) tail new_tail len input
    else retry

-- rb_write with `fuel` attempts, and as many rounds of the last loop.
unfoldable pub rb_write : ℕ → ℕ → Ring → ℕ → List ℕ → Run (ℕ × Ring)
rb_write n zero rb len input = spinning
rb_write n (suc fuel) rb len input =
    let len' = clip (write_size n rb.head rb.tail) len in
    let retry = rb_write n fuel rb (clip (write_size n rb.head rb.tail) len) input in
    if len' == 0 then done (0, rb) else reserve n (suc fuel) rb rb.tail len' input retry
