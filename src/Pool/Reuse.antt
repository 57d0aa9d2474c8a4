-- ===== src/Pool/Reuse.antt =====
-- Channel::get that is overtaken by gets and a release, between its loads and its compare-and-swap.
use make_the_american_great.Prelude.{
  ℕ, ◌≡◌, ◌≢◌, refl, ap, ◌∙◌, sym, List, [], ◌∷◌, Mem, update, update_ne, arith,
}
use make_the_american_great.Pool.FreeList.{FreeList}
use make_the_american_great.Pool.Shared.{
  got, released, Crowd, Reach, here, next, get, release, load_head, load_next, swap_head, call,
  load_old, link, swap_index,
}

-- Process 1 calls get twice and releases the first index; process 0 has loaded the head and the
-- next index before, and swaps after. Then process 1 calls get again.
overtaken :
    (m : Mem)
    → m 0 ≢ 0
    → (s : Crowd) × Reach m s
      × (s.log ≡ got (m (m 0)) ∷ got (m 0) ∷ released (m 0) ∷ got (m (m 0)) ∷ got (m 0) ∷ [])
overtaken m some_free =
    let a : ℕ = m 0 in
    let m₂ : Mem = update (update m 0 (m a)) 0 (update m 0 (m a) (m a)) in
    let kept : update m₂ a (m₂ 0) 0 ≡ m₂ 0 = update_ne m₂ a (m₂ 0) 0 (λ e. some_free (sym e)) in
    let r₁ = next (next here (get 0 load_head)) (get 0 load_next) in
    let r₂ = next (next (next r₁ (get 1 load_head)) (get 1 load_next)) (get 1 (swap_head refl)) in
    let r₃ = next (next (next r₂ (get 1 load_head)) (get 1 load_next)) (get 1 (swap_head refl)) in
    let r₄ = next (next r₃ (release 1 (call a))) (release 1 load_old) in
    let r₅ = next (next r₄ (release 1 link)) (release 1 (swap_index kept)) in
    let r₆ = next r₅ (get 0 (swap_head refl)) in
    let r₇ = next (next (next r₆ (get 1 load_head)) (get 1 load_next)) (get 1 (swap_head refl)) in
    (_, r₇, refl)

-- On every channel with two free indices a and b at the front, some order of the accesses of two
-- processes hands b out twice, although nobody has released it: one process returns b, the other
-- one, whose compare-and-swap finds a at the head again, makes b the head, and b is returned again.
pub get_twice :
    (m : Mem) (a b : ℕ) (rest : List ℕ)
    → FreeList m (a ∷ b ∷ rest)
    → (s : Crowd) × Reach m s × (s.log ≡ got b ∷ got a ∷ released a ∷ got b ∷ got a ∷ [])
get_twice m a b rest f =
    let (s, r, log) = overtaken m (λ z. omega (arith, f.0, f.1)) in
    let next_is : m (m 0) ≡ b = ap m f.0 ∙ f.4.0 in
    (
      s,
      r,
      log
          ∙ ap (λ x. got x ∷ got (m 0) ∷ released (m 0) ∷ got x ∷ got (m 0) ∷ []) next_is
          ∙ ap (λ x. got b ∷ got x ∷ released x ∷ got b ∷ got x ∷ []) f.0,
    )
