-- ===== src/Socket/Race/Tests.antt =====
-- The theorems on racing clients at a concrete port table.
use make_the_american_great.Prelude.{ℕ, ◌+◌, ◌≡◌, refl, arith, ◌==◌, if◌then◌else◌}
use make_the_american_great.Socket.Race.{
  connected, load_pid, find, claim, win, Clients, turn, Reach, here, next,
}
use make_the_american_great.Socket.Race.Once.{at_most_one_connects}
use make_the_american_great.Socket.Race.Lost.{port_given_back}

-- The process 4242 listens on port 80.
abbrev table : ℕ → ℕ
table port = if port == 80 then 4242 else 0

abbrev mine : ℕ → ℕ
mine i = i + 700

-- Client 1 has won.
abbrev won : (s : Clients) × Reach 80 mine table s
won =
    let r = next (next here (turn 1 (load_pid (omega arith) (omega arith)))) (turn 1 (find refl)) in
    (_, next (next r (turn 1 claim)) (turn 1 (win refl)))

at_most_one_connects_example : ◌≡◌ {A = ℕ} 1 1
at_most_one_connects_example =
    at_most_one_connects 80 mine table won.0 1 1 (omega arith) (omega arith) won.1 refl refl

port_given_back_example :
    (s : Clients) × Reach 80 mine table s × (s.client 0 ≡ connected 1) × (s.table 1 ≡ 0)
port_given_back_example = port_given_back 80 mine table (omega arith) (omega arith) refl
