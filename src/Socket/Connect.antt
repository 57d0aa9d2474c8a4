-- ===== src/Socket/Connect.antt =====
-- connect and accept of release/socket.c.
use make_the_american_great.Prelude.{
  some, ℕ, ◌+◌, ◌≤◌, ◌<◌, ◌≡◌, ◌≢◌, refl, ap, ◌∙◌, List, ◌∷◌, true, false, update, arith, lt→ltb,
  le→leb, leb, ne→==-false, ==_refl, update_self, update_ne,
}
use make_the_american_great.Run.{Run, done}
use make_the_american_great.Pool.Chain.{free_indices}
use make_the_american_great.Index.{State, resume, port_number, minus}
use make_the_american_great.Index.Owned.{Owned}
use make_the_american_great.Socket.{
  connect, swap_and_connect, connected, interfere, swap_port, getpid, store_idx, kill, client_mark,
  local_port, remote_port, ring_for, fd2port, accept, accept_woken, signals, pause, accepted,
  signal,
}
use make_the_american_great.Socket.Ports.{write_port_table-known, read_port_table-known}
use make_the_american_great.Socket.FreePort.{IsFirst, get_free_port-IsFirst}
use make_the_american_great.Socket.Transfer.{Has, handle, client_idx, server_fd, ends}
use make_the_american_great.Socket.Open.{Opened, ring_for-Opened}

-- The port table when connect is about to swap: the client has the port cp.
abbrev pub claimed : State → (fd cp : ℕ) → ℕ → ℕ
claimed w fd cp = update w.ports cp (fd2port fd w.pid)

module _ (stat junk : ℕ → ℕ) (fuel : ℕ) (others : (ℕ → ℕ) → ℕ → ℕ) (w : State) (fd sp : ℕ)
    (table : w.port_table_available ≡ true) (port : sp < port_number) where
  -- Up to the swap, connect to a listening server takes the first free port.
  connect-swap :
      (cp : ℕ)
      → w.ports sp ≢ 0
      → w.ports sp < client_mark
      → cp < port_number
      → IsFirst w.ports 1 cp
      → connect stat junk fuel others fd sp w
        ≡ swap_and_connect stat junk fuel others fd sp
            (w.ports sp)
            cp
            (record w { ports = claimed w fd cp })
  unfolding connect getpid
  connect-swap cp open_port single in_range first =
      let unmarked : leb client_mark (w.ports sp) ≡ false = ground arith in
      rw (
        read_port_table-known stat w table sp port,
        unmarked,
        ne→==-false (w.ports sp) 0 open_port,
        get_free_port-IsFirst stat w table (fd2port fd w.pid) cp in_range first,
        ne→==-false cp 0 (λ z. omega (arith, first.from)),
      )

  -- connect to a port that a server listens on fails when another process changes the entry of
  -- the port before the swap: it returns -1, and the port that it had taken is free again.
  pub connect-lost :
      (cp : ℕ)
      → w.ports sp ≢ 0
      → w.ports sp < client_mark
      → cp < port_number
      → IsFirst w.ports 1 cp
      → others (claimed w fd cp) sp ≢ w.ports sp
      → connect stat junk fuel others fd sp w
        ≡ done (minus 1, record w { ports = update (others (claimed w fd cp)) cp 0 })
  unfolding swap_and_connect interfere swap_port
  connect-lost cp open_port single in_range first lost =
      let w₁ : State = record w { ports = others (claimed w fd cp) } in
      connect-swap cp open_port single in_range first
      ∙ rw (
        ne→==-false (others (claimed w fd cp) sp) (w.ports sp) lost,
        write_port_table-known stat w₁ table cp 0 in_range,
      )

  -- connect to a port that another client is connected to returns -1, and to a port that no
  -- process listens on -2; nothing has changed.
  pub connect-refused :
      (client_mark ≤ w.ports sp → connect stat junk fuel others fd sp w ≡ done (minus 1, w))
      × (w.ports sp ≡ 0 → connect stat junk fuel others fd sp w ≡ done (minus 2, w))
  unfolding connect
  connect-refused = (
    λ busy. rw (read_port_table-known stat w table sp port, le→leb client_mark (w.ports sp) busy),
    λ closed. rw (read_port_table-known stat w table sp port, closed),
  )

-- A connection is established: what connect leaves when it returns 0. The server's entry of the
-- port table is the client's port with the mark, the client's is -1, the descriptor stands for the
-- two ports, the ring from the server to the client has its own index g, and the server was sent
-- the signal.
pub record Established (w : State) (fd sp cp g : ℕ) (gs : List ℕ) (r : Run (ℕ × State))
    : Type 0 where
  pub w' : State
  pub frees : List (List ℕ)
  pub returns : r ≡ done (0, w')
  pub server_entry : w'.ports sp ≡ cp + client_mark
  pub client_entry : w'.ports cp ≡ minus 1
  pub fd_entry : w'.client_fd_to_idx fd ≡ client_idx cp sp
  pub signal_sent : w'.signalled ≡ w.ports sp ∷ w.signalled
  pub has : Has w' sp cp g
  pub owned : Owned w' frees
  pub left : free_indices 0 frees ≡ gs
  pub table_kept : w'.port_table_available ≡ w.port_table_available
  pub chain_kept : w'.chain ≡ w.chain
  pub entries_kept : (s d : ℕ) → (s ≡ sp → d ≢ cp) → w'.dst_block s d ≡ w.dst_block s d
  pub memo_kept : (j : ℕ) → j ≢ g → w'.rb_memo j ≡ w.rb_memo j

-- connect returns 0, and establishes a connection, when a process listens on the port, a port is
-- free for the client, no other process changes the server's entry in between, and the pool has a
-- free index and the ports have none.
pub connect-Established :
    (stat junk : ℕ → ℕ) (fuel : ℕ) (others : (ℕ → ℕ) → ℕ → ℕ) (w : State) (fd sp cp : ℕ)
    (frees : List (List ℕ)) (g : ℕ) (gs : List ℕ)
    → w.port_table_available ≡ true
    → sp < port_number
    → cp < port_number
    → fd < 1024
    → w.ports sp ≢ 0
    → w.ports sp < client_mark
    → IsFirst w.ports 1 cp
    → others (claimed w fd cp) sp ≡ w.ports sp
    → Owned w frees
    → free_indices 0 frees ≡ g ∷ gs
    → w.dst_block sp cp ≡ 0
    → Established w fd sp cp g gs (connect stat junk fuel others fd sp w)
unfolding swap_and_connect interfere swap_port connected store_idx signal kill
connect-Established stat junk fuel others w fd sp cp frees g gs table port in_range fd_in open_port
      single first same o e vacant =
    let (lc, rc, ls, rs) = ends cp sp in_range port in
    let apart : sp ≢ cp = λ z. open_port (ap w.ports z ∙ first.free) in
    let idx : ℕ = client_idx cp sp in
    let ports₁ : ℕ → ℕ = others (claimed w fd cp) in
    let ports₂ : ℕ → ℕ = update ports₁ sp (cp + client_mark) in
    let ports₃ : ℕ → ℕ = update ports₂ cp (minus 1) in
    let w₂ : State = record w { ports = ports₂ } in
    let w₃ : State = record w {
      ports = ports₃;
      client_fd_to_idx = update w.client_fd_to_idx fd idx;
    } in
    let o₃ : Owned w₃ frees = record {
      free = o.free;
      small = o.small;
      taken = o.taken;
      within = o.within;
      distinct = o.distinct;
    } in
    let out : Opened stat w₃ sp cp g gs (ring_for stat junk fuel sp cp w₃) =
      ring_for-Opened stat junk fuel w₃ frees sp cp g gs o₃ e in_range vacant in
    let w' : State = record out.w' { signalled = w.ports sp ∷ out.w'.signalled } in
    record {
      w' = w';
      frees = out.frees;
      returns =
          connect-swap stat junk fuel others w fd sp table port cp open_port single in_range first
          ∙ rw (
            same,
            ==_refl (w.ports sp),
            write_port_table-known stat w₂ table cp (minus 1) in_range,
            lt→ltb fd 1024 fd_in,
            lc,
            rc,
            out.returns,
          );
      server_entry =
          ap (λ t. t sp) out.ports_kept
          ∙ update_ne ports₂ cp (minus 1) sp apart
          ∙ update_self ports₁ sp (cp + client_mark);
      client_entry = ap (λ t. t cp) out.ports_kept ∙ update_self ports₂ cp (minus 1);
      fd_entry = ap (λ t. t fd) out.fds_kept ∙ update_self w.client_fd_to_idx fd idx;
      signal_sent = ap (λ t. w.ports sp ∷ t) out.signals_kept;
      has = record {
        entry = out.has.entry;
        in_range = out.has.in_range;
        nonzero = out.has.nonzero;
        not_minus = out.has.not_minus;
        memo = out.has.memo;
      };
      owned = record {
        free = out.owned.free;
        small = out.owned.small;
        taken = out.owned.taken;
        within = out.owned.within;
        distinct = out.owned.distinct;
      };
      left = out.left;
      table_kept = out.table_kept;
      chain_kept = out.chain_kept;
      entries_kept = out.entries_kept;
      memo_kept = out.memo_kept;
    }

-- accept once it has found the ring for the bits of the listening descriptor.
pub accept-found :
    (stat junk : ℕ → ℕ) (fuel : ℕ) (w u : State) (lfd sp cp k : ℕ)
    → ring_for stat junk fuel (remote_port lfd) (local_port lfd) w ≡ done (some (handle k), u)
    → u.port_table_available ≡ true
    → sp < port_number
    → cp < port_number
    → u.ports sp ≡ cp + client_mark
    → accept_woken stat junk fuel lfd sp w ≡ done (server_fd cp sp, u)
unfolding accept_woken accepted
accept-found stat junk fuel w u lfd sp cp k found table port in_range marked =
    let low : local_port (cp + client_mark) ≡ cp = omega arith in
    rw (found, read_port_table-known stat u table sp port, marked, low)

-- A process that is signalled while it waits in accept goes on with what the others have left.
pub accept-signalled :
    (stat junk : ℕ → ℕ) (fuel : ℕ) (others : State → State) (w : State) (lfd sp : ℕ)
    → signals w.pid w.signalled < signals w.pid (resume w (others w)).signalled
    → accept stat junk fuel others lfd sp w
      ≡ accept_woken stat junk fuel lfd sp (resume w (others w))
unfolding accept pause
accept-signalled stat junk fuel others w lfd sp signalled =
    let u : State = resume w (others w) in
    rw (lt→ltb (signals w.pid w.signalled) (signals w.pid u.signalled) signalled) refl

-- accept of a process that others signal while it waits, and that then finds a client's port with
-- the mark in its entry of the port table, returns the descriptor that stands for the two ports.
-- The first accept of a listening descriptor lfd also takes an index g from the pool, for the bits
-- of lfd itself.
pub accept-server_fd :
    (stat junk : ℕ → ℕ) (fuel : ℕ) (others : State → State) (v : State) (lfd sp cp : ℕ)
    (frees : List (List ℕ)) (g : ℕ) (gs : List ℕ)
    → let w = resume v (others v) in
      signals v.pid v.signalled < signals v.pid w.signalled
      → w.port_table_available ≡ true
      → sp < port_number
      → cp < port_number
      → w.ports sp ≡ cp + client_mark
      → Owned w frees
      → free_indices 0 frees ≡ g ∷ gs
      → w.dst_block (remote_port lfd) (local_port lfd) ≡ 0
      → (w' : State) × (frees' : List (List ℕ)) × (accept stat junk fuel others lfd sp v
          ≡ done (server_fd cp sp, w'))
        × Has w' (remote_port lfd) (local_port lfd) g
        × Owned w' frees'
        × (free_indices 0 frees' ≡ gs)
accept-server_fd stat junk fuel others v lfd sp cp frees g gs signalled table port in_range marked o
      e vacant =
    let w : State = resume v (others v) in
    let out =
      ring_for-Opened stat junk fuel w frees (remote_port lfd) (local_port lfd) g gs o e
        (omega arith) vacant in
    let now : out.w'.ports sp ≡ cp + client_mark = ap (λ t. t sp) out.ports_kept ∙ marked in
    let has_table : out.w'.port_table_available ≡ true = out.table_kept ∙ table in
    (
      out.w',
      out.frees,
      accept-signalled stat junk fuel others v lfd sp signalled
          ∙ accept-found stat junk fuel w out.w' lfd sp cp g out.returns has_table port in_range
              now,
      out.has,
      out.owned,
      out.left,
    )
