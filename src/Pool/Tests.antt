-- ===== src/Pool/Tests.antt =====
-- The theorems on the pool at concrete chains.
use make_the_american_great.Pool.Shared.{
  Crowd, Reach, GetReach, begin, later, got, released, load_head, load_next, swap_head, lose_head,
}
use make_the_american_great.Pool.Gets.{taken, taken-then-free}
use make_the_american_great.Pool.Reuse.{get_twice}
use mathlib.Core.List.{Perm}
use make_the_american_great.Run.{done}
use make_the_american_great.Pool.Chain.{AllFree, free_indices}
use make_the_american_great.Pool.RoundTrip.{pool_release-pool_get}
use make_the_american_great.Prelude.{
  ◌≡◌, ◌++◌, List, ℕ, refl, [], ◌∷◌, arith, Mem, ◌==◌, if◌then◌else◌,
}
use make_the_american_great.Pool.{Shm, Channel, new_pool, pool_get, pool_release}
use make_the_american_great.Pool.FreeList.{FreeList}
use make_the_american_great.Pool.Start.{both_get_first}
use make_the_american_great.Pool.Grow.{Grown, pool_get-Grown}

-- A segment in which 5 and then 9 are free, and one in which nothing is.
abbrev two_free : Mem
two_free a = if a == 0 then 5 else if a == 5 then 9 else 0

abbrev none_free : Mem
none_free a = 0

-- Two channels with the keys 100 and 101, the first of them full.
abbrev shm : Shm
shm k = if k == 101 then two_free else none_free

abbrev first : Channel
first = record { segment = 100; key = 100 }

abbrev second : Channel
second = record { segment = 101; key = 101 }

abbrev zeros : ℕ → ℕ
zeros k = 0

pool_get-Grown_example :
    Grown zeros shm (first ∷ []) 0 101 4094 (pool_get zeros zeros 1 shm (first ∷ []))
pool_get-Grown_example =
    pool_get-Grown zeros zeros 0 shm first [] ([] ∷ []) (omega arith) refl refl (omega arith)
      (omega arith)

-- Two processes load the same head; the first takes it, and the second loses.
abbrev crossing : (s : Crowd) × GetReach two_free s
crossing =
    let r₁ = later 1 (later 0 begin load_head) load_head in
    let r₂ = later 1 (later 0 r₁ load_next) load_next in
    (_, later 1 (later 0 r₂ (swap_head refl)) (lose_head (omega arith)))

taken-then-free_example :
    (left : List ℕ) × FreeList crossing.0.segment left × (5 ∷ 9 ∷ [] ≡ taken crossing.0.log ++ left)
taken-then-free_example = taken-then-free two_free (5 ∷ 9 ∷ []) crossing.0 (omega arith) crossing.1

get_twice_example :
    (s : Crowd) × Reach two_free s × (s.log ≡ got 9 ∷ got 5 ∷ released 5 ∷ got 9 ∷ got 5 ∷ [])
get_twice_example = get_twice two_free 5 9 [] (omega arith)

pool_release-pool_get_example :
    (shm' : Shm) × (shm'' : Shm) × (yss : List (List ℕ)) × (pool_get zeros zeros 0 shm
        (first ∷ second ∷ [])
      ≡ done (4099, shm', first ∷ second ∷ []))
    × (pool_release shm' (first ∷ second ∷ []) 4099 ≡ done shm'')
    × AllFree shm'' (first ∷ second ∷ []) yss
    × Perm (free_indices 0 yss) (4099 ∷ 4103 ∷ [])
pool_release-pool_get_example =
    pool_release-pool_get zeros zeros 0 shm (first ∷ second ∷ []) ([] ∷ (5 ∷ 9 ∷ []) ∷ []) 4099
      (4103 ∷ []) (omega arith) refl (omega arith)

both_get_first_example :
    (shm₁ : Shm) × (shm₂ : Shm) × (shm₃ : Shm) × (shm₄ : Shm) × (cs : List Channel) × (ds : List
      Channel)
    × (new_pool zeros zeros 1 shm ≡ done (shm₁, cs))
    × (pool_get zeros zeros 1 shm₁ cs ≡ done (1, shm₂, cs))
    × (new_pool zeros zeros 1 shm₂ ≡ done (shm₃, ds))
    × (pool_get zeros zeros 1 shm₃ ds ≡ done (1, shm₄, ds))
both_get_first_example = both_get_first zeros zeros zeros zeros 0 0 shm refl refl
