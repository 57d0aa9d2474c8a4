-- ===== src/Socket/FreePort.antt =====
-- The port that get_free_port of release/socket.c takes.
use make_the_american_great.Prelude.{
  ℕ, zero, suc, ◌+◌, ◌-◌, ◌≤◌, ◌<◌, ◌≡◌, ◌≢◌, ap, ◌∙◌, inl, inr, true, update, arith, ne→==-false,
  le_cases,
}
use make_the_american_great.Run.{done}
use make_the_american_great.Index.{State, port_number}
use make_the_american_great.Socket.{free_port_from, get_free_port}
use make_the_american_great.Socket.Ports.{write_port_table-known, read_port_table-known}

-- p is the first free port from i on.
pub record IsFirst (ports : ℕ → ℕ) (i p : ℕ) : Type 0 where
  pub from : i ≤ p
  pub free : ports p ≡ 0
  pub before : (q : ℕ) → i ≤ q → q < p → ports q ≢ 0

module _ (stat : ℕ → ℕ) (w : State) (table : w.port_table_available ≡ true) where
  free_port_from-IsFirst :
      (count i v p : ℕ)
      → i + count ≤ port_number
      → p < i + count
      → IsFirst w.ports i p
      → free_port_from stat count i v w ≡ done (p, record w { ports = update w.ports p v })
  unfolding free_port_from
  free_port_from-IsFirst zero i v p in_range below h = absurd (omega (arith, h.from))
  free_port_from-IsFirst (suc count) i v p in_range below h = elim (le_cases p i) [
    | inl here ↦
        let same : i ≡ p = omega (arith, h.from) in
        let vacant : w.ports i ≡ 0 = ap w.ports same ∙ h.free in
        rw
          (
            read_port_table-known stat w table i (omega arith),
            vacant,
            write_port_table-known stat w table i v (omega arith),
          )
          (ap (λ q. done (q, record w { ports = update w.ports q v })) same)
    | inr above ↦
        rw
          (
            read_port_table-known stat w table i (omega arith),
            ne→==-false (w.ports i) 0 (h.before i (omega arith) above),
          )
          (free_port_from-IsFirst count (i + 1) v p (omega arith) (omega arith) (record {
            from = omega arith;
            free = h.free;
            before = λ q a b. h.before q (omega arith) b;
          }))
  ]

  pub get_free_port-IsFirst :
      (v p : ℕ)
      → p < port_number
      → IsFirst w.ports 1 p
      → get_free_port stat v w ≡ done (p, record w { ports = update w.ports p v })
  unfolding get_free_port
  get_free_port-IsFirst v p h first =
      free_port_from-IsFirst (port_number - 1) 1 v p (omega arith) (omega arith) first
