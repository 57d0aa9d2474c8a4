-- ===== src/Pool/RoundTrip.antt =====
-- Pool::get and then Pool::release of the index.
use mathlib.Core.Path.{subst}
use mathlib.Core.List.{Perm}
use make_the_american_great.Prelude.{
  ℕ, ◌+◌, ◌*◌, ◌^◌, ◌<◌, ◌≡◌, ap, ◌∙◌, sym, List, ◌∷◌, length, arith,
}
use make_the_american_great.Run.{done}
use make_the_american_great.Pool.{Shm, Channel, channel_size, pool_get, pool_release}
use make_the_american_great.Pool.FreeList.{Apart}
use make_the_american_great.Pool.Chain.{AllFree, free_indices}
use make_the_american_great.Pool.Apart.{first_free}
use make_the_american_great.Pool.Get.{pool_get-Got}
use make_the_american_great.Pool.Release.{Released, pool_release-Released}

-- Pool::get on a pool with a free index and then Pool::release of what it returned both succeed,
-- and exactly the indices that were free before are free again, in some order.
pub pool_release-pool_get :
    (stat junk : ℕ → ℕ) (fuel : ℕ) (shm : Shm) (cs : List Channel) (xss : List (List ℕ)) (g : ℕ)
    (gs : List ℕ)
    → AllFree shm cs xss
    → free_indices 0 xss ≡ g ∷ gs
    → channel_size * length cs < 2 ^ 31
    → (shm' : Shm) × (shm'' : Shm) × (yss : List (List ℕ)) × (pool_get stat junk fuel shm cs
        ≡ done (g, shm', cs))
      × (pool_release shm' cs g ≡ done shm'')
      × AllFree shm'' cs yss
      × Perm (free_indices 0 yss) (free_indices 0 xss)
pool_release-pool_get stat junk fuel shm cs xss g gs f e small =
    let range = first_free shm cs 0 xss g gs f e in
    let (got, apart) = pool_get-Got stat junk fuel shm cs xss g gs f e small in
    let number : g ≡ 0 + g = omega arith in
    let out : Released got.shm' cs 0 got.frees g (pool_release got.shm' cs g) =
      pool_release-Released got.shm' cs 0 got.frees g got.free range.0 (omega (arith, range.1))
        (omega (arith, range.1))
        (subst (λ x. Apart x (free_indices 0 got.frees)) number
          (subst (Apart g) (sym got.rest) apart)) in
    let same : (0 + g) ∷ free_indices 0 got.frees ≡ free_indices 0 xss =
      ap (λ x. x ∷ free_indices 0 got.frees) (sym number) ∙ ap (λ xs. g ∷ xs) got.rest ∙ sym e in
    (
      got.shm',
      out.shm',
      out.frees,
      got.returns,
      out.returns,
      out.free,
      subst (Perm (free_indices 0 out.frees)) same out.rest,
    )
