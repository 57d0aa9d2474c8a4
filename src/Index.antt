-- ===== src/Index.antt =====
-- The index tables of release/RingBuffer.cpp: get_idx, clear_idx, rb_get, rb_init and rb_destroy.
-- The calls of one process run in a monad over what it holds itself and what all processes share.
-- The operating system is a parameter: `stat` gives shm_nattch of a key before the attach, and
-- every shmget, shmat and malloc succeeds. A segment is named by its key.

pub mod Owned
pub mod Shared
pub mod Tests
use make_the_american_great.Prelude.{
  ℕ, ◌+◌, ◌*◌, ◌-◌, ◌^◌, List, Bool, true, Option, none, some, u32, ltb, ◌==◌, if◌then◌else◌,
  update,
}
use make_the_american_great.Run.{Run, done, fault, bind}
use make_the_american_great.Ring.{Ring}
use make_the_american_great.Pool.{Shm, Channel, pool_get, pool_release}

-- The state that a call of one process works on. The process has its id, client_fd_to_idx, whether
-- rb_memo has a ring, its chain of pool channels, and port_table_availble. All processes share the
-- port table, the blocks of indices by source and destination port, the segments of the pool and
-- of the rings by key, and the list of the processes that were sent SIGUSR1.
pub record State : Type 0 where
  pub pid : ℕ
  pub client_fd_to_idx : ℕ → ℕ
  pub rb_memo : ℕ → Bool
  pub chain : List Channel
  pub port_table_available : Bool
  pub ports : ℕ → ℕ
  pub dst_block : ℕ → ℕ → ℕ
  pub pool_shm : Shm
  pub rings : ℕ → Ring
  pub signalled : List ℕ

-- The segments of the rings below this have a key, and the others are made with IPC_PRIVATE: each
-- process has its own.
abbrev pub shared_keys : ℕ
shared_keys = 2 ^ 32

-- A process resumes with what another has left in the shared segments. The block of the source
-- port 0 is not shared: its key is IPC_PRIVATE.
abbrev pub resume : State → State → State
resume mine theirs = record mine {
  ports = theirs.ports;
  dst_block = λ src. if src == 0 then mine.dst_block 0 else theirs.dst_block src;
  pool_shm = theirs.pool_shm;
  rings = λ key. if ltb key shared_keys then theirs.rings key else mine.rings key;
  signalled = theirs.signalled;
}

-- A call: it returns, accesses memory out of range, or goes on for ever.
abbrev pub M : Type 0 → Type 0
M A = State → Run (A × State)

abbrev pub pure : {A : Type 0} → A → M A
pure a w = done (a, w)

infixl 5 ◌>>=◌ ◌>>◌
abbrev pub ◌>>=◌ : {A B : Type 0} → M A → (A → M B) → M B
◌>>=◌ m f w = bind (m w) (λ r. f r.0 r.1)

abbrev pub ◌>>◌ : {B : Type 0} → M (Unit {0}) → M B → M B
m >> k = m >>= λ _. k

abbrev pub port_number : ℕ
port_number = 65536

-- A RingBuffer_t: its index, and the key of its segment for the shmid and the addresses.
pub record Handle : Type 0 where
  pub index : ℕ
  pub segment : ℕ

-- The documented value of an int that is -k.
abbrev pub minus : ℕ → ℕ
minus k = 2 ^ 32 - k

abbrev pub with_table : State → ℕ → ℕ → ℕ → State
with_table w src dst v = record w {
  dst_block = update w.dst_block src (update (w.dst_block src) dst v);
}

-- rb_init: the key of the segment is idx << 16. When it is 0, that is IPC_PRIVATE, the segment is a
-- new one of the process, which here has a name by its index.
unfoldable pub ring_key : ℕ → ℕ
ring_key idx = let key : ℕ = u32 (idx * 2 ^ 16) in if key == 0 then shared_keys + idx else key

-- shm_nattch of a ring's segment before the attach. A new segment has none.
unfoldable pub nattch : (ℕ → ℕ) → ℕ → ℕ
nattch stat key = if ltb key shared_keys then stat key else 0

module _ (stat junk : ℕ → ℕ) (fuel : ℕ) where
  -- pool_get, which get_idx calls, on the pool of the process.
  unfoldable pub fresh_idx : M ℕ
  fresh_idx w =
      bind (pool_get stat junk fuel w.pool_shm w.chain)
        (λ r. done (r.0, record w { pool_shm = r.1; chain = r.2 }))

  -- get_idx from its load of the entry on, when it has found 0: the entry may have changed since.
  unfoldable pub acquire_idx : ℕ → ℕ → M ℕ
  unfolding fresh_idx
  acquire_idx src dst w = bind (fresh_idx w) (λ r. done (r.0, with_table r.1 src dst r.0))

  -- get_idx.
  unfoldable pub get_idx : ℕ → ℕ → M ℕ
  unfolding acquire_idx
  get_idx src dst w =
      if ltb dst port_number
      then (if w.dst_block src dst == 0
          then acquire_idx src dst w
          else done (w.dst_block src dst, w))
      else fault

-- clear_idx.
unfoldable pub clear_idx : ℕ → ℕ → M (Unit {0})
clear_idx src dst w = if ltb dst port_number then done (tt, with_table w src dst 0) else fault

-- rb_init: a segment that no process was attached to is emptied.
unfoldable pub rb_init : (ℕ → ℕ) → ℕ → M Handle
unfolding nattch
rb_init stat idx w =
    let key : ℕ = ring_key idx in
    let handle : Handle = record { index = idx; segment = key } in
    let emptied : Ring = record (w.rings key) { head = 0; tail = 0; old_tail = 0 } in
    if nattch stat key == 0
    then done (handle, record w { rings = update w.rings key emptied })
    else done (handle, w)

-- rb_get: `none` is NULL.
unfoldable pub rb_get : (ℕ → ℕ) → ℕ → M (Option Handle)
unfolding rb_init
rb_get stat k w =
    if k == minus 1
    then done (none, w)
    else if w.rb_memo k
    then done (some (record { index = k; segment = ring_key k }), w)
    else bind (rb_init stat k w)
        (λ r. done (some r.0, record r.1 { rb_memo = update r.1.rb_memo k true }))

-- rb_destroy.
unfoldable pub rb_destroy : Handle → M (Unit {0})
rb_destroy rb w =
    bind (pool_release w.pool_shm w.chain rb.index) (λ shm. done (tt, record w { pool_shm = shm }))
