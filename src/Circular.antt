-- ===== src/Circular.antt =====
-- workspace/ringbuffer.cpp: the first ring buffer of the repository, which copies byte by byte.
-- Lengths and indices are uint64_t; the int `len` is converted to uint64_t where it is compared.
pub mod Inv
pub mod Write
pub mod RoundTrip
mod Tests
use make_the_american_great.Prelude.{
  ℕ, zero, suc, ◌+◌, ◌%◌, List, [], ◌∷◌, length, get_or, ◌==◌, ltb, if◌then◌else◌, Mem, update, u64,
  u32, int_to_size,
}
use make_the_american_great.Run.{Run, done, fault, spinning, bind}

-- CircularBuffer_t.
pub record Buffer : Type 0 where
  pub begin_idx : ℕ
  pub end_idx : ℕ
  pub size : ℕ
  pub bytes : Mem

-- createCircularBuffer, when both calls of malloc succeed: `fresh` is the memory that they give.
unfoldable pub create : ℕ → Mem → Buffer
create size fresh = record { begin_idx = 0; end_idx = 0; size = size; bytes = fresh }

-- The index after `i`.
unfoldable pub step : ℕ → ℕ → ℕ
step size i = u64 (i + 1) % size

-- The loop of read, with `read_size` bytes read: where `begin` ends, and the bytes that it reads.
unfoldable pub read_loop :
    ℕ → (bytes : Mem) → (end_idx size len begin read_size : ℕ) → Run (ℕ × List ℕ)
unfolding step
read_loop zero bytes end_idx size len begin read_size = spinning
read_loop (suc fuel) bytes end_idx size len begin read_size =
    let rest = read_loop fuel bytes end_idx size len (step size begin) (u64 (read_size + 1)) in
    if begin == end_idx
    then done (begin, [])
    else if read_size == len
    then done (begin, [])
    else bind rest (λ r. done (r.0, bytes begin ∷ r.1))

-- read: the number of bytes, the bytes, and the buffer.
unfoldable pub read : ℕ → Buffer → ℕ → Run (ℕ × List ℕ × Buffer)
read fuel buffer len =
    bind
      (read_loop fuel buffer.bytes buffer.end_idx buffer.size (int_to_size len) buffer.begin_idx 0)
      (λ r. done (u32 (length r.1), r.1, record buffer { begin_idx = r.0 }))

-- The loop of write, with `written_size` bytes written: where `end` ends, the memory, and how many
-- bytes are written.
unfoldable pub write_loop :
    ℕ
    → (input : List ℕ) → (begin_idx size len : ℕ) → (bytes : Mem) → (end written_size : ℕ)
    → Run (ℕ × Mem × ℕ)
unfolding step
write_loop zero input begin_idx size len bytes end written_size = spinning
write_loop (suc fuel) input begin_idx size len bytes end written_size =
    let rest =
      write_loop fuel input begin_idx size len (update bytes end (get_or input written_size 0))
        (step size end) (u64 (written_size + 1)) in
    if step size end == begin_idx
    then done (end, bytes, written_size)
    else if written_size == len
    then done (end, bytes, written_size)
    else if ltb written_size (length input)
    then rest
    else fault

-- write: the number of bytes, and the buffer.
unfoldable pub write : ℕ → Buffer → ℕ → List ℕ → Run (ℕ × Buffer)
write fuel buffer len input =
    bind
      (write_loop fuel input buffer.begin_idx buffer.size (int_to_size len) buffer.bytes
        buffer.end_idx 0)
      (λ r. done (u32 r.2, record buffer { end_idx = r.0; bytes = r.1 }))
