-- ===== src/Connection/Tests.antt =====
-- The theorem on TestNonConcurrency with a new pool and new rings.
use make_the_american_great.Prelude.{ℕ, ◌≡◌, ◌≢◌, refl, [], arith}
use make_the_american_great.Run.{done, fault}
use make_the_american_great.Index.{State, ring_key, nattch}
use make_the_american_great.Index.Tests.{zeros, fresh, free_lists, fresh-Owned}
use make_the_american_great.Ring.Inv.{IsSize}
use make_the_american_great.Connection.Trial.{test_non_concurrency}
use make_the_american_great.Connection.Demo.{IsUnused, test_outcomes}

-- One process is attached, once the first constructor has returned.
abbrev attached : ℕ → ℕ
attached key = 1

unused : IsUnused zeros attached fresh free_lists 5 9 []
unfolding ring_key nattch
unused = record {
  owned = fresh-Owned;
  free = refl;
  vacant = (refl, refl);
  new = (refl, refl);
  attached = (omega arith, omega arith);
  apart = omega arith;
}

test_outcomes_example :
    ((w' : State) × (test_non_concurrency zeros attached zeros 1 20 fresh ≡ done (tt, w')))
    × ((n : ℕ) → IsSize n → n ≢ 20 → test_non_concurrency zeros attached zeros 1 n fresh ≡ fault)
test_outcomes_example = test_outcomes zeros attached zeros 0 fresh free_lists 5 9 [] unused
