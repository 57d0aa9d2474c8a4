-- ===== src/Lib.antt =====
-- Shared-memory sockets: processes on one machine that talk through ring buffers in System V
-- shared memory, behind the socket API. release/ has the library; shm/ has the same RingBuffer,
-- Pool and socket files beside its tests, and workspace/ earlier versions.
--
-- The parts, from the top:
--   socket.c         bind, listen, connect, accept, send, recv and close. The port table, shared by
--                    all processes, says who has each port. A descriptor stands for a local port
--                    and a remote port.
--   RingBuffer.cpp   a table of indices by source and destination port (get_idx, clear_idx), the
--                    process's cache of rings (rb_get), and the ring itself (rb_read, rb_write).
--   Pool.cpp         the allocator of the indices: a chain of shared segments, each with a free
--                    list that is changed by compare-and-swap.
-- send looks up the index of its ports, which comes from the pool when there is none, and writes
-- to the ring of that index; recv reads the ring of the opposite ports.
--
-- The files:
--   Prelude, Run     numbers, tests and lists; C integers as bit patterns; what a call comes to:
--                    a result, an access out of range, or no end.
--   Ring             release/RingBuffer.cpp, rb_read and rb_write. A Ring is a segment: the words
--                    head, tail and old_tail and the data bytes. `n` is SHM_DATA_SIZE. Queue is the
--                    byte queue that Ring/Refine compares a ring with. Ring/Stale and Ring/Repeat
--                    have a write and a read that go on, with the head that they loaded, after
--                    other calls.
--   Spsc             release/RingBuffer.cpp again, one shared access at a time: a writer and a reader
--                    as step relations over the ring (Write, Read), and every order of their steps
--                    (Step, Reach). A memcpy copies byte by byte. Spsc/Writers and Spsc/Readers
--                    have any number of processes on one side and none on the other.
--   Mpmc             the same steps with any number of writers and readers at once. How many bytes
--                    went through the ring when a process loaded a word is noted beside the code's
--                    variables, and a step is in time when fewer than n have gone through since.
--   Pool             release/Pool.cpp. A Channel is the key of its segment and its member `key`; a
--                    process's Pool is the list of the channels that it is attached to. Shm is all
--                    segments by key. Pool/Start has two processes in the constructor at once,
--                    and Pool/Shared has Channel::get and Channel::release one shared access at a
--                    time, in any number of processes.
--   Index            get_idx, clear_idx, rb_get, rb_init and rb_destroy of release/RingBuffer.cpp,
--                    and the State on which the calls of a process work: its own variables, and
--                    the shared tables and segments.
--   Socket           release/socket.c. Every function that changes state is a function of the same
--                    name on State; send and recv are sendto and recvfrom. Its proofs are by call
--                    (Bind, Connect, Close), by what the calls use (Ports, FreePort, Open, Resumed,
--                    Blank), and by what two processes do in turn (Transfer, Session, Wait,
--                    Limits, and Missed, where both are in get_idx). Socket/Race has connect in
--                    any number of clients at once, one access of the port table at a time.
--   Connection       shm/Connection.cpp, a pair of rings for the two directions. Connection/Trial is
--                    TestNonConcurrency of shm/TestConcurrency.cpp, and Connection/Demo how it ends.
--   Circular         workspace/ringbuffer.cpp, the byte-by-byte buffer.
--   TwoWord          workspace/io.cpp, the ring with two words. TwoWord/Early has a read in the
--                    middle of a write, and TwoWord/Demo its Connection and testConnection over all
--                    segments and the numbers of their attachments (Segments), which shm_nattch is.
--   Connections      workspace/io.cpp, the pool of connections and the map from ports to them.
--   PingPong         workspace/test.cpp, ten threads that send to each other and wait, one round of
--                    a loop at a time.
--   Util             shm/Util.h, a linked list, over a heap of nodes.
--
-- Integers: an int and a uint32_t are their 32 bits; a size_t has 64. Conversions, the sign of an
-- int in a comparison and the wrap-around are written out. -1 is `minus 1`.
--
-- Fuel: rb_read and rb_write take a number of attempts, of which one is enough without another
-- process in between. Pool::get takes the number of channels that it may allocate, and one is
-- enough. The loops of Circular take rounds, and one more than the size is enough. The loop of
-- recvfrom takes the list of what other processes do before each of its rounds.
--
-- Parameters: `stat` is the number of attached processes that shmctl reports for a key before the
-- attach, and `junk` the value of the member `key` of a Channel, which no constructor sets.
-- `others` is what other processes do to the shared state in the middle of a call: to the port
-- table before the compare-and-swap of connect, and to all segments while accept and recvfrom wait.
-- A segment whose key is IPC_PRIVATE, which is 0, is the process's own: for the rings it has a name
-- above all keys, and `resume`, by which one process goes on after another, leaves it as it is.
-- `moved` is the address that realloc returns, and `fresh` the one that malloc returns.
--
-- Not modelled: failures of shmget, shmat and malloc, which the code mostly asserts away; console
-- output; src_memo, a cache of addresses; the death of a process that is signalled before accept
-- has installed its handler; channels of the pool whose key is IPC_PRIVATE, when processes share
-- the pool; several processes in the middle of allocNextChannel; Channel's destructor, which runs
-- when the process ends, and those of workspace/io.cpp; the other tests and the measurements of
-- shm/ and test/, which print, sleep or time and use the kernel's sockets.
pub mod Prelude
pub mod Run
pub mod Queue
pub mod PingPong
pub mod Ring
pub mod Pool
pub mod Circular
pub mod Index
pub mod Socket
pub mod Spsc
pub mod Mpmc
pub mod Connection
pub mod TwoWord
pub mod Util
pub mod Connections
