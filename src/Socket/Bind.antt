-- ===== src/Socket/Bind.antt =====
-- bind of release/socket.c, by one process and then by another.
use make_the_american_great.Prelude.{
  ℕ, ◌<◌, ◌≡◌, ◌≢◌, ◌∙◌, sym, true, update, ne→==-false, update_self,
}
use make_the_american_great.Run.{done}
use make_the_american_great.Index.{State, resume, port_number, minus}
use make_the_american_great.Socket.{bind, bind_read, getpid}
use make_the_american_great.Socket.Ports.{write_port_table-known, read_port_table-known}

module _ (stat : ℕ → ℕ) (w : State) (fd port : ℕ) (table : w.port_table_available ≡ true)
    (in_range : port < port_number) where
  pub bind-free :
      w.ports port ≡ 0
      → bind stat fd port w ≡ done (0, record w { ports = update w.ports port w.pid })
  unfolding bind bind_read getpid
  bind-free free = rw (
    read_port_table-known stat w table port in_range,
    free,
    write_port_table-known stat w table port w.pid in_range,
  )

  bind-taken : w.ports port ≢ 0 → bind stat fd port w ≡ done (minus 1, w)
  unfolding bind bind_read
  bind-taken taken =
      rw (read_port_table-known stat w table port in_range, ne→==-false (w.ports port) 0 taken)

-- bind to a free port returns 0 and makes the port the process's. Every bind to the port after
-- that, by any process that has the table, returns -1 and changes nothing.
pub bind-excludes :
    (stat stat' : ℕ → ℕ) (w v : State) (fd fd' port : ℕ)
    → w.port_table_available ≡ true
    → v.port_table_available ≡ true
    → port < port_number
    → w.ports port ≡ 0
    → w.pid ≢ 0
    → (w' : State) × (bind stat fd port w ≡ done (0, w'))
      × (w'.ports port ≡ w.pid)
      × (bind stat' fd' port (resume v w') ≡ done (minus 1, resume v w'))
bind-excludes stat stat' w v fd fd' port table table' in_range free running =
    let w' : State = record w { ports = update w.ports port w.pid } in
    let mine : w'.ports port ≡ w.pid = update_self w.ports port w.pid in
    (
      w',
      bind-free stat w fd port table in_range free,
      mine,
      bind-taken stat' (resume v w') fd' port table' in_range (λ z. running (sym mine ∙ z)),
    )

-- Two binds to one free port, of which the second has read its entry before the first writes it:
-- both return 0, and the port is then the second one's.
pub two_binds :
    (stat stat' : ℕ → ℕ) (w v : State) (fd port : ℕ)
    → w.port_table_available ≡ true
    → v.port_table_available ≡ true
    → port < port_number
    → w.ports port ≡ 0
    → (w' : State) × (v' : State) × (bind stat fd port w ≡ done (0, w'))
      × (w'.ports port ≡ w.pid)
      × (bind_read stat' (w.ports port) port (resume v w') ≡ done (0, v'))
      × (v'.ports port ≡ v.pid)
unfolding bind_read getpid
two_binds stat stat' w v fd port table table' in_range free =
    let w' : State = record w { ports = update w.ports port w.pid } in
    let v₀ : State = resume v w' in
    (
      w',
      record v₀ { ports = update v₀.ports port v.pid },
      bind-free stat w fd port table in_range free,
      update_self w.ports port w.pid,
      rw (free, write_port_table-known stat' v₀ table' port v.pid in_range),
      update_self v₀.ports port v.pid,
    )
