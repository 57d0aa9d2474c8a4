-- ===== src/TwoWord/Demo.antt =====
-- The Connection of workspace/io.cpp and its testConnection, up to the end of their scope. Opening a
-- ring attaches its segment; shmctl reports how many attachments there were before.
use make_the_american_great.Prelude.{ℕ, ◌+◌, List, generate, ◌==◌, if◌then◌else◌, update}
use make_the_american_great.Run.{Run, done, bind}
use make_the_american_great.Connections.{map_key}
use make_the_american_great.Index.{shared_keys}
use make_the_american_great.TwoWord.{Words, read, write}

-- The segments by name, how often each is attached, and how many were made with IPC_PRIVATE. The
-- name of a segment is its key, and that of a private one is above all keys.
pub record Segments : Type 0 where
  pub words : ℕ → Words
  pub attached : ℕ → ℕ
  pub made : ℕ

-- shmget with IPC_PRIVATE: a new segment, which nothing is attached to.
abbrev pub private_name : Segments → ℕ
private_name s = shared_keys + s.made

unfoldable pub new_segment : Segments → Segments
new_segment s = record s { attached = update s.attached (private_name s) 0; made = s.made + 1 }

-- The constructor of RingBuffer after shmget, on the segment with this name.
unfoldable pub attach_ring : ℕ → Segments → Segments
attach_ring name s =
    let rb : Words = s.words name in
    record s {
      words =
          update s.words name
            (if s.attached name == 0 then record rb { head = 0; tail = 0 } else rb);
      attached = update s.attached name (s.attached name + 1);
    }

-- The constructor of RingBuffer: the name of its segment, and the segments.
unfoldable pub open_ring : ℕ → Segments → ℕ × Segments
unfolding new_segment attach_ring
open_ring key s =
    if key == 0
    then (private_name s, attach_ring (private_name s) (new_segment s))
    else (key, attach_ring key s)

-- A Connection: its ports, and the names of the segments of its two rings.
pub record Link : Type 0 where
  pub src : ℕ
  pub dst : ℕ
  pub read_rb : ℕ
  pub write_rb : ℕ

-- The constructor of Connection opens the ring that it reads and then the one that it writes.
unfoldable pub open_link : ℕ → ℕ → Segments → Link × Segments
unfolding open_ring
open_link src dst s =
    let r = open_ring (map_key src dst) s in
    let w = open_ring (map_key dst src) r.1 in
    (record { src = src; dst = dst; read_rb = r.0; write_rb = w.0 }, w.1)

unfoldable pub link_read : ℕ → Link → ℕ → Segments → Run (ℕ × List ℕ × Segments)
link_read n c len s =
    bind (read n 1 (s.words c.read_rb) len)
      (λ r. done (r.0, r.1, record s { words = update s.words c.read_rb r.2 }))

unfoldable pub link_write : ℕ → Link → ℕ → List ℕ → Segments → Run (ℕ × Segments)
link_write n c len input s =
    bind (write n 1 (s.words c.write_rb) len input)
      (λ r. done (r.0, record s { words = update s.words c.write_rb r.1 }))

-- The bytes from "a" to "l".
abbrev pub letters : List ℕ
letters = generate (λ i. 97 + i) 12

-- What testConnection prints, for the third argument `arg`.
unfoldable pub test_connection :
    ℕ → ℕ → ℕ → List ℕ → Segments → Run (ℕ × (ℕ × List ℕ) × ℕ × (ℕ × List ℕ))
unfolding open_link link_read link_write
test_connection n src dst arg s =
    let c : Link × Segments = open_link src dst s in
    let c_reverse : Link × Segments = open_link dst src c.1 in
    bind (link_write n c.0 12 letters c_reverse.1) (λ w₁.
      bind (link_read n c_reverse.0 5 w₁.1) (λ r₁. bind (link_write n c.0 5 arg r₁.2) (λ w₂.
        bind (link_read n c_reverse.0 12 w₂.1)
          (λ r₂. done (w₁.0, (r₁.0, r₁.1), w₂.0, (r₂.0, r₂.1))))))
