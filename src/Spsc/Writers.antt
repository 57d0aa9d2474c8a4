-- ===== src/Spsc/Writers.antt =====
-- rb_write of release/RingBuffer.cpp in any number of processes at once, one shared access at a
-- time, while no process reads.
pub mod Apart
pub mod Moved
pub mod Steps
pub mod Safety
pub mod Chained
pub mod Progress
mod Tests
use make_the_american_great.Prelude.{ℕ, ◌+◌, List, [], ◌++◌, update}
use make_the_american_great.Ring.{Ring}
use make_the_american_great.Spsc.{WriterPc, Write}

-- The ring, the writers, and the bytes of all writes that have ended, in the order of their ends.
pub record Writers : Type 0 where
  pub ring : Ring
  pub writer : ℕ → WriterPc
  pub sent : List ℕ

-- Writer i makes a step.
pub data Turn (n : ℕ) (s : Writers) : Writers → Type 0 where
  turn :
      (i : ℕ) {rb : Ring} {pc : WriterPc} {bytes : List ℕ}
      → Write n s.ring (s.writer i) rb pc bytes
      → Turn n s (record { ring = rb; writer = update s.writer i pc; sent = s.sent ++ bytes })

-- All writers are about to call rb_write on the ring.
pub data Reach (n : ℕ) (rb : Ring) : Writers → Type 0 where
  here : Reach n rb (record { ring = rb; writer = λ i. WriterPc.resting; sent = [] })
  next : {s u : Writers} → Reach n rb s → Turn n s u → Reach n rb u
