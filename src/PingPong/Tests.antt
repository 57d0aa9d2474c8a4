-- ===== src/PingPong/Tests.antt =====
-- The theorem at a concrete order of turns.
use make_the_american_great.Prelude.{ℕ, ◌<◌, ◌≡◌, ◌≢◌, ◌⊎◌, List, [], ◌∷◌, arith}
use make_the_american_great.PingPong.{num_threads, ended, failed, Threads, started, run}
use make_the_american_great.PingPong.Progress.{GoesOn, no_deadlock}

abbrev numbers : ℕ → ℕ → List ℕ
numbers i j = i ∷ j ∷ []

abbrev some_turns : Threads numbers
some_turns = run numbers (started numbers) (3 ∷ 3 ∷ 0 ∷ 9 ∷ 3 ∷ [])

no_deadlock_example :
    (some_turns.thread 3 ≢ failed)
    × ((some_turns.thread 3 ≡ ended) ⊎ ((i : ℕ) × (i < num_threads) × GoesOn numbers some_turns i))
no_deadlock_example =
    no_deadlock numbers (λ i j. omega arith) (3 ∷ 3 ∷ 0 ∷ 9 ∷ 3 ∷ []) 3 (omega arith)
