-- ===== src/Connection.antt =====
-- shm/Connection.cpp: a connection is the ring that it reads and the ring that it writes.

pub mod Opposite
pub mod Held
pub mod Trial
pub mod Demo
mod Tests
use make_the_american_great.Prelude.{ℕ, List}
use make_the_american_great.Index.{M, pure, ◌>>=◌, ◌>>◌, Handle, get_idx, rb_init, rb_destroy}
use make_the_american_great.Socket.{write_ring, read_ring}

-- A Connection, and a process's part of one.
pub record Ends : Type 0 where
  pub src : ℕ
  pub dst : ℕ
  pub read_rb : Handle
  pub write_rb : Handle

module _ (stat junk : ℕ → ℕ) (fuel : ℕ) where
  -- The constructor.
  unfoldable pub new_ends : ℕ → ℕ → M Ends
  new_ends src_port dst_port = do
    k ← get_idx stat junk fuel src_port dst_port
    read_rb ← rb_init stat k
    k' ← get_idx stat junk fuel dst_port src_port
    write_rb ← rb_init stat k'
    pure (record { src = src_port; dst = dst_port; read_rb = read_rb; write_rb = write_rb })

  -- Connection::read and Connection::write.
  unfoldable pub read_ends : ℕ → Ends → ℕ → M (ℕ × List ℕ)
  read_ends n c len = read_ring stat junk fuel n c.read_rb len

  unfoldable pub write_ends : ℕ → Ends → ℕ → List ℕ → M ℕ
  write_ends n c len input = write_ring stat junk fuel n c.write_rb len input

-- The destructor.
unfoldable pub destroy_ends : Ends → M (Unit {0})
destroy_ends c = do rb_destroy c.read_rb; rb_destroy c.write_rb
