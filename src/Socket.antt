-- ===== src/Socket.antt =====
-- release/socket.c: bind, listen, connect, accept, send, recv and close over the port table, the
-- index tables and the rings. The port of an address is its sin_port; ints are bit patterns.

pub mod Ports
pub mod FreePort
pub mod Wait
pub mod Limits
pub mod Bind
pub mod Transfer
pub mod Connect
pub mod Resumed
pub mod Blank
pub mod Session
pub mod Missed
pub mod Race
pub mod Open
pub mod Close
mod Tests
use make_the_american_great.Prelude.{
  ℕ, zero, suc, ◌+◌, ◌*◌, ◌-◌, ◌/◌, ◌%◌, ◌^◌, List, [], ◌∷◌, Bool, true, false, Option, none, some,
  u32, ltb, leb, lt_int, ◌==◌, if◌then◌else◌, update,
}
use make_the_american_great.Run.{done, fault, spinning, bind as run_bind}
use make_the_american_great.Ring.{Ring, rb_read, rb_write}
use make_the_american_great.Index.{
  State, M, pure, ◌>>=◌, ◌>>◌, Handle, port_number, minus, get_idx, clear_idx, rb_get, rb_destroy,
  resume,
}

abbrev pub max_pid_bits : ℕ
max_pid_bits = 22

abbrev pub client_mark : ℕ
client_mark = 2 ^ max_pid_bits

-- GET_LOCAL_PORT_FROM_FD, GET_REMOTE_PORT_FROM_FD and FD2PORT. The bits of the fields that `|`
-- joins do not overlap: a process id is below 2 ^ 22.
abbrev pub local_port : ℕ → ℕ
local_port x = x % 2 ^ 16

abbrev pub remote_port : ℕ → ℕ
remote_port x = x / 2 ^ 16 % 2 ^ 16

unfoldable pub fd2port : ℕ → ℕ → ℕ
fd2port fd pid = u32 (fd * 2 ^ max_pid_bits) + pid

abbrev pub listen_pid_table_key : ℕ
listen_pid_table_key = 0x4f4f4f4f

module _ (stat : ℕ → ℕ) where
  -- init_port_table, and the test before it that every access of the table begins with.
  unfoldable pub init_port_table : State → State
  init_port_table w =
      if stat listen_pid_table_key == 0
      then record w { ports = λ port. 0; port_table_available = true }
      else record w { port_table_available = true }

  unfoldable pub ensure_port_table : State → State
  unfolding init_port_table
  ensure_port_table w = if w.port_table_available then w else init_port_table w

  -- write_port_table and read_port_table.
  unfoldable pub write_port_table : ℕ → ℕ → M (Unit {0})
  write_port_table port value w =
      let w' : State = ensure_port_table w in
      if ltb port port_number
      then done (tt, record w' { ports = update w'.ports port value })
      else fault

  unfoldable pub read_port_table : ℕ → M ℕ
  read_port_table port w =
      let w' : State = ensure_port_table w in
      if ltb port port_number then done (w'.ports port, w') else fault

  -- The loop of get_free_port from port i on, with `count` ports left.
  unfoldable pub free_port_from : ℕ → ℕ → ℕ → M ℕ
  free_port_from zero i idx = pure 0
  free_port_from (suc count) i idx =
      let rest = free_port_from count (i + 1) idx in
      do value ← read_port_table i; if value == 0 then (write_port_table i idx >> pure i) else rest

  unfoldable pub get_free_port : ℕ → M ℕ
  get_free_port idx = free_port_from (port_number - 1) 1 idx

-- getpid.
unfoldable pub getpid : M ℕ
getpid w = done (w.pid, w)

-- kill(pid, SIGUSR1).
unfoldable pub kill : ℕ → M (Unit {0})
kill pid w = done (tt, record w { signalled = pid ∷ w.signalled })

-- How many signals the process with the id pid was sent.
abbrev pub signals : ℕ → List ℕ → ℕ
signals pid [] = 0
signals pid (p ∷ ps) = if p == pid then signals pid ps + 1 else signals pid ps

-- pause(), with the handler installed that does nothing: it returns when the process is signalled
-- while it waits, and the process then finds what `others` has left.
unfoldable pub pause : (State → State) → M (Unit {0})
pause others w =
    let u : State = resume w (others w) in
    if ltb (signals w.pid w.signalled) (signals w.pid u.signalled) then done (tt, u) else spinning

-- client_fd_to_idx[fd], an array of 1024 ints.
unfoldable pub store_idx : ℕ → ℕ → M (Unit {0})
store_idx fd idx w =
    if ltb fd 1024
    then done (tt, record w { client_fd_to_idx = update w.client_fd_to_idx fd idx })
    else fault

-- if (fd < 1024) fd = client_fd_to_idx[fd]; a negative fd is out of range.
unfoldable pub resolve : ℕ → M ℕ
resolve fd w =
    if lt_int fd 1024
    then (if ltb fd 1024 then done (w.client_fd_to_idx fd, w) else fault)
    else done (fd, w)

-- What other processes do to the port table at a point of a call.
unfoldable pub interfere : ((ℕ → ℕ) → ℕ → ℕ) → M (Unit {0})
interfere others w = done (tt, record w { ports = others w.ports })

-- __sync_bool_compare_and_swap on an entry of the port table.
unfoldable pub swap_port : ℕ → ℕ → ℕ → M Bool
swap_port port old new w =
    if w.ports port == old
    then done (true, record w { ports = update w.ports port new })
    else done (false, w)

unfoldable pub listen : ℕ → ℕ → M ℕ
listen fd backlog = pure 0

module _ (stat : ℕ → ℕ) where
  -- bind from its test of the entry of the port on, when it has read `value`.
  unfoldable pub bind_read : ℕ → ℕ → M ℕ
  unfolding write_port_table getpid
  bind_read value port =
      if value == 0 then (do me ← getpid; write_port_table stat port me; pure 0) else pure (minus 1)

  unfoldable pub bind : ℕ → ℕ → M ℕ
  unfolding read_port_table bind_read
  bind fd port = do value ← read_port_table stat port; bind_read value port

module _ (stat junk : ℕ → ℕ) (fuel : ℕ) where
  -- The ring whose index stands under the two ports.
  unfoldable pub ring_for : ℕ → ℕ → M (Option Handle)
  ring_for src dst = do k ← get_idx stat junk fuel src dst; rb_get stat k

  unfoldable pub signal : ℕ → Option Handle → M ℕ
  signal server_pid none = pure (minus 3)
  signal server_pid (some rb) = do kill server_pid; pure 0

  -- The end of connect, once the entry of the server's port is the client's.
  unfoldable pub connected : ℕ → ℕ → ℕ → ℕ → M ℕ
  connected fd server_pid client_port idx = do
    write_port_table stat client_port (minus 1)
    store_idx fd idx
    rb ← ring_for (remote_port idx) (local_port idx)
    signal server_pid rb

  -- connect from the compare-and-swap on, with the port `client_port` taken for the client.
  unfoldable pub swap_and_connect : ((ℕ → ℕ) → ℕ → ℕ) → ℕ → ℕ → ℕ → ℕ → M ℕ
  swap_and_connect others fd server_port server_pid client_port = do
    interfere others
    won ← swap_port server_port server_pid (client_port + client_mark)
    if won
        then connected fd server_pid client_port (u32 (server_port * 2 ^ 16) + client_port)
        else (do write_port_table stat client_port 0; pure (minus 1))

  -- connect. `others` is what other processes do to the port table before the compare-and-swap.
  unfoldable pub connect : ((ℕ → ℕ) → ℕ → ℕ) → ℕ → ℕ → M ℕ
  connect others fd server_port = do
    server_pid ← read_port_table stat server_port
    if leb client_mark server_pid
        then pure (minus 1)
        else if server_pid == 0
        then pure (minus 2)
        else (do
          me ← getpid
          client_port ← get_free_port stat (fd2port fd me)
          if client_port == 0
              then pure (minus 1)
              else swap_and_connect others fd server_port server_pid client_port)

  unfoldable pub accepted : ℕ → Option Handle → M ℕ
  accepted server_port none = pure (minus 1)
  accepted server_port (some rb) = do
    value ← read_port_table stat server_port
    pure (u32 (local_port value * 2 ^ 16) + server_port)

  -- accept from the return of pause() on.
  unfoldable pub accept_woken : ℕ → ℕ → M ℕ
  unfolding accepted
  accept_woken fd server_port = do
    rb ← ring_for (remote_port fd) (local_port fd)
    accepted server_port rb

  -- accept. `others` is what other processes do from the pause() on until its end.
  unfoldable pub accept : (State → State) → ℕ → ℕ → M ℕ
  unfolding accept_woken pause
  accept others fd server_port = do pause others; accept_woken fd server_port

  -- rb_write and rb_read on a ring of the process, whose data area has n bytes.
  unfoldable pub write_ring : ℕ → Handle → ℕ → List ℕ → M ℕ
  write_ring n rb len input w =
      run_bind (rb_write n fuel (w.rings rb.segment) len input)
        (λ r. done (r.0, record w { rings = update w.rings rb.segment r.1 }))

  unfoldable pub read_ring : ℕ → Handle → ℕ → M (ℕ × List ℕ)
  read_ring n rb len w =
      run_bind (rb_read n fuel (w.rings rb.segment) len)
        (λ r. done ((r.0, r.1), record w { rings = update w.rings rb.segment r.2 }))

  unfoldable pub send_on : ℕ → Option Handle → ℕ → List ℕ → M ℕ
  send_on n none len buf = pure (minus 1)
  send_on n (some rb) len buf = write_ring n rb (u32 len) buf

  -- send and sendto: the size_t `len` is converted to an int.
  unfoldable pub sendto : ℕ → ℕ → List ℕ → ℕ → M ℕ
  unfolding send_on
  sendto n fd buf len = do
    idx ← resolve fd
    rb ← ring_for (local_port idx) (remote_port idx)
    send_on n rb len buf

  -- The loop of recvfrom. `others` is what other processes do to the shared segments before each
  -- round.
  unfoldable pub poll : ℕ → List (State → State) → ℕ → Handle → ℕ → M (ℕ × List ℕ)
  poll n [] idx rb len w = spinning
  poll n (o ∷ others) idx rb len w =
      let again = poll n others idx rb len in
      ((do
        peer ← read_port_table stat (remote_port idx)
        r ← read_ring n rb (u32 len)
        if peer == 0 then pure r else (if r.0 == 0 then again else pure r))
        (resume w (o w)))

  unfoldable pub receive_on : ℕ → List (State → State) → ℕ → Option Handle → ℕ → M (ℕ × List ℕ)
  unfolding poll
  receive_on n others idx none len = pure (minus 1, [])
  receive_on n others idx (some rb) len = do
    r ← read_ring n rb (u32 len)
    if r.0 == 0 then poll n others idx rb len else pure r

  -- recv and recvfrom: the count and the bytes.
  unfoldable pub recvfrom : ℕ → List (State → State) → ℕ → ℕ → M (ℕ × List ℕ)
  unfolding receive_on
  recvfrom n others fd len = do
    idx ← resolve fd
    rb ← ring_for (remote_port idx) (local_port idx)
    receive_on n others idx rb len

  unfoldable pub close_ring : ℕ → Option Handle → M ℕ
  close_ring idx none = pure (minus 1)
  close_ring idx (some rb) = do clear_idx (remote_port idx) (local_port idx); rb_destroy rb; pure 0

  unfoldable pub close : ℕ → M ℕ
  unfolding close_ring
  close fd = do
    idx ← resolve fd
    write_port_table stat (local_port idx) 0
    rb ← ring_for (remote_port idx) (local_port idx)
    close_ring idx rb
