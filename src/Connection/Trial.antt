-- ===== src/Connection/Trial.antt =====
-- TestNonConcurrency of shm/TestConcurrency.cpp. A failed assertion ends the program. The bytes are
-- their ASCII codes; none of them is 0, so that strcmp compares the bytes that were read.
use make_the_american_great.Prelude.{
  ℕ, suc, ◌+◌, ◌-◌, ◌≤◌, ◌≡◌, refl, List, [], ◌∷◌, ◌++◌, Bool, true, false, ◌&&◌, generate, take,
  drop, ◌==◌, if◌then◌else◌, arith, ne→==-false, ==_refl, le_cases, length, length-take,
  length-drop, length-append, ◌<◌, ◌≢◌, ◌∙◌, Bool-cases, inl, inr,
}
use make_the_american_great.Run.{done, fault}
use make_the_american_great.Ring.Inv.{IsSize}
use make_the_american_great.Index.{State, M, ◌>>=◌, ◌>>◌}
use make_the_american_great.Connection.{Ends, new_ends, read_ends, write_ends}
use make_the_american_great.Connection.Opposite.{ends_of}
use make_the_american_great.Connection.Held.{Holds, write_ends-Holds, read_ends-Holds}

abbrev same_bytes : List ℕ → List ℕ → Bool
same_bytes [] [] = true
same_bytes [] (y ∷ ys) = false
same_bytes (x ∷ xs) [] = false
same_bytes (x ∷ xs) (y ∷ ys) = (x == y) && same_bytes xs ys

-- assert.
abbrev check : Bool → M (Unit {0})
check b w = if b then done (tt, w) else fault

abbrev pub letters : List ℕ
letters = generate (λ i. 97 + i) 26

abbrev pub digits : List ℕ
digits = generate (λ i. 48 + i) 10

-- What the test does with its two connections. `n` is SHM_DATA_SIZE, which is SHM_SIZE less the
-- three words.
unfoldable pub test_on : (stat junk : ℕ → ℕ) → ℕ → ℕ → Ends → Ends → M (Unit {0})
test_on stat junk fuel n writer reader = do
  ret ← write_ends stat junk fuel n writer 26 letters
  check (ret == n - 1)
  r ← read_ends stat junk fuel n reader 10
  check (r.0 == 10)
  check (same_bytes r.1 (take 10 letters))
  ret ← write_ends stat junk fuel n writer 10 digits
  check (ret == 10)
  r ← read_ends stat junk fuel n reader 26
  check (19 == r.0)
  check (same_bytes r.1 (take 9 (drop 10 letters) ++ digits))

-- TestNonConcurrency. `stat` and `stat'` are what shmctl reports to its two constructors.
unfoldable pub test_non_concurrency : (stat stat' junk : ℕ → ℕ) → ℕ → ℕ → M (Unit {0})
unfolding test_on
test_non_concurrency stat stat' junk fuel n = do
  writer ← new_ends stat junk fuel 8009 8001
  reader ← new_ends stat' junk fuel 8001 8009
  test_on stat junk fuel n writer reader

module _ (stat junk : ℕ → ℕ) (fuel : ℕ) (w : State) (k k' : ℕ) where
  abbrev writer : Ends
  writer = ends_of 8009 8001 k k'

  abbrev reader : Ends
  reader = ends_of 8001 8009 k' k

  pub small_ring :
      Holds 20 w k' []
      → (w' : State) × (test_on stat junk (suc fuel) 20 writer reader w ≡ done (tt, w'))
  unfolding test_on
  small_ring h =
      let size : IsSize 20 = omega arith in
      let (w₁, e₁, h₁) =
        write_ends-Holds stat junk fuel 20 size writer k' w [] 26 19 letters refl h (omega arith)
          (omega arith) refl in
      let (w₂, e₂, h₂) =
        read_ends-Holds stat junk fuel 20 size reader k' w₁ (take 19 letters) 10 10 refl h₁
          (omega arith) refl in
      let (w₃, e₃, h₃) =
        write_ends-Holds stat junk fuel 20 size writer k' w₂ (drop 10 (take 19 letters)) 10 10
          digits refl h₂ (omega arith) (omega arith) refl in
      let (w₄, e₄, h₄) =
        read_ends-Holds stat junk fuel 20 size reader k' w₃ (drop 10 (take 19 letters) ++ digits) 26
          19 refl h₃ (omega arith) refl in
      (w₄, rw (e₁, e₂, e₃, e₄) refl)

  large_ring :
      (n : ℕ)
      → IsSize n
      → 28 ≤ n
      → Holds n w k' []
      → test_on stat junk (suc fuel) n writer reader w ≡ fault
  unfolding test_on
  large_ring n size large h =
      let (w₁, e₁, h₁) =
        write_ends-Holds stat junk fuel n size writer k' w [] 26 26 letters refl h (omega arith)
          (omega arith) (omega arith) in
      rw (e₁, ne→==-false 26 (n - 1) (λ z. omega arith)) refl

  -- A ring of fewer than eleven bytes: the first read returns fewer than ten.
  tiny_ring :
      (n : ℕ)
      → IsSize n
      → n < 11
      → Holds n w k' []
      → test_on stat junk (suc fuel) n writer reader w ≡ fault
  unfolding test_on
  tiny_ring n size tiny h =
      let held : length (take (n - 1) letters) ≡ n - 1 =
        length-take (n - 1) letters (omega arith) in
      let (w₁, e₁, h₁) =
        write_ends-Holds stat junk fuel n size writer k' w [] 26 (n - 1) letters refl h
          (omega arith) (omega arith) (omega arith) in
      let (w₂, e₂, h₂) =
        read_ends-Holds stat junk fuel n size reader k' w₁ (take (n - 1) letters) 10 (n - 1) refl h₁
          (omega arith) (omega (arith, held)) in
      rw (e₁, ==_refl (n - 1), e₂, ne→==-false (n - 1) 10 (λ z. omega (arith, size.positive, z)))
        refl

  -- A ring of 11 to 27 bytes: the last read returns all that the ring can hold.
  middle_ring :
      (n : ℕ)
      → IsSize n
      → 11 ≤ n
      → n < 28
      → n ≢ 20
      → Holds n w k' []
      → test_on stat junk (suc fuel) n writer reader w ≡ fault
  unfolding test_on
  middle_ring n size small large other h =
      let some : List ℕ = take (n - 1) letters in
      let held : length some ≡ n - 1 = length-take (n - 1) letters (omega arith) in
      let rest : length (drop 10 some) ≡ n - 11 =
        length-drop 10 some (omega (arith, held)) ∙ omega (arith, held) in
      let (w₁, e₁, h₁) =
        write_ends-Holds stat junk fuel n size writer k' w [] 26 (n - 1) letters refl h
          (omega arith) (omega arith) (omega arith) in
      let (w₂, e₂, h₂) =
        read_ends-Holds stat junk fuel n size reader k' w₁ some 10 10 refl h₁ (omega arith)
          (omega (arith, held)) in
      let (w₃, e₃, h₃) =
        write_ends-Holds stat junk fuel n size writer k' w₂ (drop 10 some) 10 10 digits refl h₂
          (omega arith) (omega arith) (omega (arith, rest)) in
      let full : length (drop 10 some ++ digits) ≡ n - 1 =
        length-append (drop 10 some) digits ∙ omega (arith, rest) in
      let (w₄, e₄, h₄) =
        read_ends-Holds stat junk fuel n size reader k' w₃ (drop 10 some ++ digits) 26 (n - 1) refl
          h₃ (omega arith) (omega (arith, full)) in
      elim (Bool-cases (same_bytes (take 10 some) (take 10 letters))) [
        | inl same ↦
            rw
              (
                e₁,
                ==_refl (n - 1),
                e₂,
                same,
                e₃,
                e₄,
                ne→==-false 19 (n - 1) (λ z. omega (arith, other, z)),
              )
              refl
        | inr different ↦ rw (e₁, ==_refl (n - 1), e₂, different) refl
      ]

  pub other_rings :
      (n : ℕ)
      → IsSize n
      → n ≢ 20
      → Holds n w k' []
      → test_on stat junk (suc fuel) n writer reader w ≡ fault
  other_rings n size other h = elim (le_cases 28 n) [
    | inl large ↦ large_ring n size large h
    | inr below ↦ elim (le_cases 11 n) [
      | inl middle ↦ middle_ring n size middle below other h
      | inr tiny ↦ tiny_ring n size tiny h
    ]
  ]
