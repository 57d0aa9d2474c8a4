-- ===== src/Mpmc.antt =====
-- rb_write and rb_read of release/RingBuffer.cpp in any number of processes at once, writers and
-- readers on one ring, one shared access at a time. The steps are those of Spsc.

pub mod Position
pub mod Inv
pub mod Moved
pub mod Writing
pub mod Reading
pub mod Safety
pub mod Chained
pub mod Progress
mod Tests
use make_the_american_great.Prelude.{ℕ, ◌+◌, ◌<◌, ◌≡◌, List, [], ◌++◌, length, update}
use make_the_american_great.Ring.{Ring}
use make_the_american_great.Spsc.{
  WriterPc, ReaderPc, Write, Read, swapping, storing, waiting, loading,
}

-- A process in a call, with how many bytes had gone through the head or the tail of the ring when
-- it loaded them. The code has no such counters; they say how old the loaded words are.
pub record Process (Pc : Type 0) : Type 0 where
  pub pc : Pc
  pub head_seen : ℕ
  pub tail_seen : ℕ

-- The ring and the processes, with the bytes of the writes that have ended and of the reads, and how
-- many bytes have been reserved at the tail.
pub record System : Type 0 where
  pub ring : Ring
  pub writer : ℕ → Process WriterPc
  pub reader : ℕ → Process ReaderPc
  pub sent : List ℕ
  pub received : List ℕ
  pub reserved : ℕ

-- A writer after its step to a place.
abbrev pub wrote : System → Process WriterPc → WriterPc → Process WriterPc
wrote s p (WriterPc.saw_head input len h) = record p {
  pc = WriterPc.saw_head input len h;
  head_seen = length s.received;
}
wrote s p (WriterPc.saw_tail input len h t) = record p {
  pc = WriterPc.saw_tail input len h t;
  tail_seen = s.reserved;
}
wrote s p WriterPc.resting = record p { pc = WriterPc.resting }
wrote s p (WriterPc.started input len) = record p { pc = WriterPc.started input len }
wrote s p (swapping input t k) = record p { pc = swapping input t k }
wrote s p (storing input t k i) = record p { pc = storing input t k i }
wrote s p (waiting input t k) = record p { pc = waiting input t k }

-- How many bytes a step reserves.
abbrev pub gained : WriterPc → WriterPc → ℕ
gained pc pc' = elim pc [
  | swapping input t k ↦ elim pc' [ storing input' t' k' i ↦ k | _ ↦ 0 ]
  | _ ↦ 0
]

-- A reader after its step to a place.
abbrev pub read_on : System → Process ReaderPc → ReaderPc → Process ReaderPc
read_on s p (ReaderPc.saw_head len h) = record p {
  pc = ReaderPc.saw_head len h;
  head_seen = length s.received;
}
read_on s p (ReaderPc.saw_tail len h o) = record p {
  pc = ReaderPc.saw_tail len h o;
  tail_seen = length s.sent;
}
read_on s p ReaderPc.resting = record p { pc = ReaderPc.resting }
read_on s p (ReaderPc.started len) = record p { pc = ReaderPc.started len }
read_on s p (loading h k got) = record p { pc = loading h k got }

-- A writer is not overtaken: fewer than n bytes beyond the head that it loaded are reserved when it
-- loads the tail, and fewer than n more when it compares the tail.
abbrev pub WriterInTime : ℕ → System → Process WriterPc → WriterPc → Type 0
WriterInTime n s p WriterPc.resting = Unit {0}
WriterInTime n s p (WriterPc.started input len) = Unit {0}
WriterInTime n s p (WriterPc.saw_head input len h) = s.reserved < p.head_seen + n
WriterInTime n s p (WriterPc.saw_tail input len h t) = Unit {0}
WriterInTime n s p (swapping input t k) = s.reserved < p.tail_seen + n
WriterInTime n s p (storing input t k i) = Unit {0}
WriterInTime n s p (waiting input t k) = Unit {0}

-- A reader is not overtaken: fewer than n bytes beyond the head that it loaded are written when it
-- loads the tail, and fewer than n are read when it compares the head.
abbrev pub ReaderInTime : ℕ → System → Process ReaderPc → ReaderPc → Type 0
ReaderInTime n s p ReaderPc.resting = Unit {0}
ReaderInTime n s p (ReaderPc.started len) = Unit {0}
ReaderInTime n s p (ReaderPc.saw_head len h) = length s.sent < p.head_seen + n
ReaderInTime n s p (ReaderPc.saw_tail len h o) = Unit {0}
ReaderInTime n s p (loading h k got) = length got ≡ k → length s.received < p.head_seen + n

-- Process i makes a step in time.
pub data Turn (n : ℕ) (s : System) : System → Type 0 where
  write :
      (i : ℕ) {rb : Ring} {pc : WriterPc} {bytes : List ℕ}
      → WriterInTime n s (s.writer i) (s.writer i).pc
      → Write n s.ring (s.writer i).pc rb pc bytes
      → Turn n s (record s {
        ring = rb;
        writer = update s.writer i (wrote s (s.writer i) pc);
        sent = s.sent ++ bytes;
        reserved = s.reserved + gained (s.writer i).pc pc;
      })
  read :
      (i : ℕ) {rb : Ring} {pc : ReaderPc} {bytes : List ℕ}
      → ReaderInTime n s (s.reader i) (s.reader i).pc
      → Read n s.ring (s.reader i).pc rb pc bytes
      → Turn n s (record s {
        ring = rb;
        reader = update s.reader i (read_on s (s.reader i) pc);
        received = s.received ++ bytes;
      })

-- A new segment, and all processes before their calls.
abbrev pub start : (ℕ → ℕ) → System
start content = record {
  ring = record { head = 0; tail = 0; old_tail = 0; content = content };
  writer = λ i. record { pc = WriterPc.resting; head_seen = 0; tail_seen = 0 };
  reader = λ i. record { pc = ReaderPc.resting; head_seen = 0; tail_seen = 0 };
  sent = [];
  received = [];
  reserved = 0;
}

pub data Reach (n : ℕ) (content : ℕ → ℕ) : System → Type 0 where
  here : Reach n content (start content)
  next : {s t : System} → Reach n content s → Turn n s t → Reach n content t
