-- ===== src/Pool/Start.antt =====
-- Two processes that construct their Pool of release/Pool.cpp at the same time.
use mathlib.Core.Path.{subst, sym}
use make_the_american_great.Prelude.{
  ℕ, suc, ◌-◌, ◌≡◌, refl, List, [], ◌∷◌, ◌++◌, update, update_self, arith,
}
use make_the_american_great.Run.{done}
use make_the_american_great.Pool.{
  Shm, Channel, channel_size, pool_shm_key, init_cells, new_pool, pool_get,
}
use make_the_american_great.Pool.FreeList.{FreeList, init_cells-FreeList, upto}
use make_the_american_great.Pool.Chain.{shift}
use make_the_american_great.Pool.Get.{pool_get-Got}
use make_the_american_great.Pool.Grow.{new_channel, open_channel-new, fresh_list}

-- The constructor when shmctl has reported no attached process, and then a get.
record Started (stat junk : ℕ → ℕ) (fuel : ℕ) (shm : Shm) : Type 0 where
  opened : Shm
  chain : List Channel
  shm' : Shm
  opens : new_pool stat junk fuel shm ≡ done (opened, chain)
  gets : pool_get stat junk fuel opened chain ≡ done (1, shm', chain)

new_pool-Started :
    (stat junk : ℕ → ℕ) (fuel : ℕ) (shm : Shm)
    → stat pool_shm_key ≡ 0
    → Started stat junk (suc fuel) shm
unfolding new_pool
new_pool-Started stat junk fuel shm e =
    let k : ℕ = pool_shm_key in
    let rest : List ℕ = upto 2 (channel_size - 1) in
    let opened : Shm = update shm k (init_cells (shm k)) in
    let chain : List Channel = new_channel junk k ∷ [] in
    let free : FreeList (opened k) (1 ∷ rest) = subst (FreeList (opened k)) fresh_list (
      subst (λ m. FreeList m (upto 1 channel_size)) (sym (update_self shm k (init_cells (shm k))))
        (init_cells-FreeList (shm k)).0) in
    let got =
      (pool_get-Got stat junk (suc fuel) opened chain ((1 ∷ rest) ∷ []) 1 (shift 0 rest ++ [])
        (free, tt, tt) refl (omega arith)).0 in
    record {
      opened = opened;
      chain = chain;
      shm' = got.shm';
      opens = open_channel-new stat junk fuel shm k e;
      gets = got.returns;
    }

-- Two processes that construct their Pool at the same time, so that shmctl reports no attached
-- process to either, both get the index 1, also when the second one fills the segment after the
-- first one's get.
pub both_get_first :
    (stat stat' junk junk' : ℕ → ℕ) (fuel fuel' : ℕ) (shm : Shm)
    → stat pool_shm_key ≡ 0
    → stat' pool_shm_key ≡ 0
    → (shm₁ : Shm) × (shm₂ : Shm) × (shm₃ : Shm) × (shm₄ : Shm) × (cs : List Channel) × (ds : List
        Channel)
      × (new_pool stat junk (suc fuel) shm ≡ done (shm₁, cs))
      × (pool_get stat junk (suc fuel) shm₁ cs ≡ done (1, shm₂, cs))
      × (new_pool stat' junk' (suc fuel') shm₂ ≡ done (shm₃, ds))
      × (pool_get stat' junk' (suc fuel') shm₃ ds ≡ done (1, shm₄, ds))
both_get_first stat stat' junk junk' fuel fuel' shm e e' =
    let one = new_pool-Started stat junk fuel shm e in
    let two = new_pool-Started stat' junk' fuel' one.shm' e' in
    (
      one.opened, one.shm', two.opened, two.shm', one.chain, two.chain, one.opens, one.gets,
      two.opens, two.gets,
    )
