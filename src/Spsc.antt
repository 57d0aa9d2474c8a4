-- ===== src/Spsc.antt =====
-- rb_write and rb_read of release/RingBuffer.cpp in several processes at once, one shared access at
-- a time. In System one process writes to the ring and one reads from it; Writers and Readers have
-- any number of one kind. `n` is SHM_DATA_SIZE.

pub mod Inv
pub mod Reserved
pub mod Writing
pub mod Reading
pub mod Safety
pub mod Progress
pub mod Readers
pub mod Writers
mod Tests
use make_the_american_great.Prelude.{
  ℕ, ◌+◌, ◌-◌, ◌%◌, ◌^◌, ◌<◌, ◌≤◌, ◌≡◌, ◌≢◌, List, [], ◌∷◌, ◌++◌, length, get_or, take, u32, update,
  ltb, if◌then◌else◌,
}
use make_the_american_great.Ring.{Ring, read_size, write_size, clip, remain_length}

-- The offset of byte i of k in the one or two memcpy calls that begin at `from`.
abbrev pub copy_index : ℕ → ℕ → ℕ → ℕ → ℕ
copy_index n from k i =
    if ltb (u32 (from + k)) n
    then from + i
    else if ltb i (remain_length n from)
    then from + i
    else i - remain_length n from

-- Where the writer stands in rb_write, with its locals: the input, len, head (h), tail (t), and the
-- number i of bytes that are copied.
pub data WriterPc : Type 0 where
  resting : WriterPc
  started : (input : List ℕ) (len : ℕ) → WriterPc
  saw_head : (input : List ℕ) (len h : ℕ) → WriterPc
  saw_tail : (input : List ℕ) (len h t : ℕ) → WriterPc
  swapping : (input : List ℕ) (t k : ℕ) → WriterPc
  storing : (input : List ℕ) (t k i : ℕ) → WriterPc
  waiting : (input : List ℕ) (t k : ℕ) → WriterPc

-- One step of the writer: the ring and its place before, those after, and the bytes that the step
-- makes readable.
pub data Write (n : ℕ) (rb : Ring) : WriterPc → Ring → WriterPc → List ℕ → Type 0 where
  call :
      {input : List ℕ} {len : ℕ}
      → len < 2 ^ 31
      → len ≤ length input
      → Write n rb resting rb (started input len) []
  load_head :
      {input : List ℕ} {len : ℕ} → Write n rb (started input len) rb (saw_head input len rb.head) []
  load_tail :
      {input : List ℕ} {len h : ℕ}
      → Write n rb (saw_head input len h) rb (saw_tail input len h rb.tail) []
  full :
      {input : List ℕ} {len h t : ℕ}
      → clip (write_size n h t) len ≡ 0
      → Write n rb (saw_tail input len h t) rb resting []
  has_room :
      {input : List ℕ} {len h t : ℕ}
      → clip (write_size n h t) len ≢ 0
      → Write n rb (saw_tail input len h t) rb (swapping input t (clip (write_size n h t) len)) []
  take_tail :
      {input : List ℕ} {t k : ℕ}
      → rb.tail ≡ t
      → Write n rb
          (swapping input t k)
          (record rb { tail = u32 (t + k) % n })
          (storing input t k 0)
          []
  lose_tail :
      {input : List ℕ} {t k : ℕ}
      → rb.tail ≢ t
      → Write n rb (swapping input t k) rb (started input k) []
  put :
      {input : List ℕ} {t k i : ℕ}
      → i < k
      → Write n rb
          (storing input t k i)
          (record rb { content = update rb.content (copy_index n t k i) (get_or input i 0) })
          (storing input t k (i + 1))
          []
  stored : {input : List ℕ} {t k : ℕ} → Write n rb (storing input t k k) rb (waiting input t k) []
  wait :
      {input : List ℕ} {t k : ℕ}
      → rb.old_tail ≢ t
      → Write n rb (waiting input t k) rb (waiting input t k) []
  publish :
      {input : List ℕ} {t k : ℕ}
      → rb.old_tail ≡ t
      → Write n rb
          (waiting input t k)
          (record rb { old_tail = u32 (t + k) % n })
          resting
          (take k input)

-- Where the reader stands in rb_read, with its locals, and the bytes that it has copied.
pub data ReaderPc : Type 0 where
  resting : ReaderPc
  started : (len : ℕ) → ReaderPc
  saw_head : (len h : ℕ) → ReaderPc
  saw_tail : (len h o : ℕ) → ReaderPc
  loading : (h k : ℕ) (got : List ℕ) → ReaderPc

-- One step of the reader, with the bytes that it returns.
pub data Read (n : ℕ) (rb : Ring) : ReaderPc → Ring → ReaderPc → List ℕ → Type 0 where
  call : {len : ℕ} → len < 2 ^ 31 → Read n rb resting rb (started len) []
  load_head : {len : ℕ} → Read n rb (started len) rb (saw_head len rb.head) []
  load_tail : {len h : ℕ} → Read n rb (saw_head len h) rb (saw_tail len h rb.old_tail) []
  empty :
      {len h o : ℕ} → clip (read_size n h o) len ≡ 0 → Read n rb (saw_tail len h o) rb resting []
  has_bytes :
      {len h o : ℕ}
      → clip (read_size n h o) len ≢ 0
      → Read n rb (saw_tail len h o) rb (loading h (clip (read_size n h o) len) []) []
  get :
      {h k : ℕ} {got : List ℕ}
      → length got < k
      → Read n rb
          (loading h k got)
          rb
          (loading h k (got ++ (rb.content (copy_index n h k (length got)) ∷ [])))
          []
  take_head :
      {h k : ℕ} {got : List ℕ}
      → length got ≡ k
      → rb.head ≡ h
      → Read n rb (loading h k got) (record rb { head = u32 (h + k) % n }) resting got
  lose_head :
      {h k : ℕ} {got : List ℕ}
      → length got ≡ k
      → rb.head ≢ h
      → Read n rb (loading h k got) rb (started k) []

-- The ring and the two processes, with the bytes of all writes that have ended and of all reads.
pub record System : Type 0 where
  pub ring : Ring
  pub writer : WriterPc
  pub reader : ReaderPc
  pub sent : List ℕ
  pub received : List ℕ

pub data Step (n : ℕ) (s : System) : System → Type 0 where
  write :
      {rb : Ring} {pc : WriterPc} {bytes : List ℕ}
      → Write n s.ring s.writer rb pc bytes
      → Step n s (record s { ring = rb; writer = pc; sent = s.sent ++ bytes })
  read :
      {rb : Ring} {pc : ReaderPc} {bytes : List ℕ}
      → Read n s.ring s.reader rb pc bytes
      → Step n s (record s { ring = rb; reader = pc; received = s.received ++ bytes })

-- The segment as rb_init leaves it.
abbrev pub start : (ℕ → ℕ) → System
start content = record {
  ring = record { head = 0; tail = 0; old_tail = 0; content = content };
  writer = WriterPc.resting;
  reader = ReaderPc.resting;
  sent = [];
  received = [];
}

pub data Reach (n : ℕ) (content : ℕ → ℕ) : System → Type 0 where
  here : Reach n content (start content)
  next : {s t : System} → Reach n content s → Step n s t → Reach n content t
