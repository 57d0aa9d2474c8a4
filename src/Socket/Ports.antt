-- ===== src/Socket/Ports.antt =====
-- The port table of a process that has it.
use make_the_american_great.Prelude.{
  ℕ, ◌<◌, ◌≡◌, refl, Bool, true, false, update, lt→ltb, if◌then◌else◌,
}
use make_the_american_great.Run.{done}
use make_the_american_great.Index.{State, port_number}
use make_the_american_great.Socket.{
  init_port_table, ensure_port_table, write_port_table, read_port_table,
}

if_true : {A : Type 0} (b : Bool) (x y : A) → b ≡ true → (if b then x else y) ≡ x
if_true true x y e = refl
if_true false x y e = cc

module _ (stat : ℕ → ℕ) (w : State) (table : w.port_table_available ≡ true) where
  ensure_available : ensure_port_table stat w ≡ w
  unfolding ensure_port_table
  ensure_available = if_true w.port_table_available w (init_port_table stat w) table

  pub write_port_table-known :
      (port v : ℕ)
      → port < port_number
      → write_port_table stat port v w ≡ done (tt, record w { ports = update w.ports port v })
  unfolding write_port_table
  write_port_table-known port v h = rw (ensure_available, lt→ltb port port_number h)

  pub read_port_table-known :
      (port : ℕ) → port < port_number → read_port_table stat port w ≡ done (w.ports port, w)
  unfolding read_port_table
  read_port_table-known port h = rw (ensure_available, lt→ltb port port_number h)
