-- ===== src/Pool/Grow.antt =====
-- Pool::get on a chain with no free index: allocNextChannel, and the first index of the new channel.
use mathlib.Core.Path.{subst, sym}
use mathlib.Core.List.{append-nil}
use make_the_american_great.Prelude.{
  ℕ, suc, ◌+◌, ◌-◌, ◌*◌, ◌^◌, ◌<◌, ◌≡◌, ◌≢◌, refl, ap, ◌∙◌, List, [], ◌∷◌, ◌++◌, length, Mem,
  update, update_self, update_ne, arith, u32,
}
use make_the_american_great.Run.{done, bind}
use make_the_american_great.Pool.{
  Shm, Channel, channel_size, next_channel_index, open_channel, alloc_next_channel, init_cells,
  get_from, pool_get,
}
use make_the_american_great.Pool.FreeList.{FreeList, init_cells-FreeList, upto}
use make_the_american_great.Pool.Chain.{Outside, AllFree, AllFree-update, free_indices, shift}
use make_the_american_great.Pool.Get.{GetResult, Got, try_channel-miss, get_from-Got}

abbrev pub last_key : List Channel → ℕ
last_key [] = 0
last_key (c ∷ []) = c.key
last_key (c ∷ d ∷ ds) = last_key (d ∷ ds)

-- The key that the last channel gives to the next one.
abbrev pub next_key : List Channel → ℕ
next_key cs = u32 (last_key cs + 1)

abbrev pub new_channel : (ℕ → ℕ) → ℕ → Channel
new_channel junk k = record { segment = k; key = junk k }

module _ (stat junk : ℕ → ℕ) where
  -- A key with no attached segment gives a channel with every index free and no next channel.
  pub open_channel-new :
      (fuel : ℕ) (shm : Shm) (k : ℕ)
      → stat k ≡ 0
      → open_channel stat junk (suc fuel) shm k
        ≡ done (update shm k (init_cells (shm k)), new_channel junk k ∷ [])
  unfolding open_channel
  open_channel-new fuel shm k e = rw e

  alloc-new :
      (fuel : ℕ) (shm : Shm) (c : Channel)
      → let k = u32 (c.key + 1) in
        stat k ≡ 0
        → k ≢ c.segment
        → alloc_next_channel stat junk (suc fuel) shm c
          ≡ done (
            update
                (update shm k (init_cells (shm k)))
                c.segment
                (update (shm c.segment) next_channel_index k),
            new_channel junk k ∷ [],
          )
  unfolding alloc_next_channel
  alloc-new fuel shm c e ne =
      let k : ℕ = u32 (c.key + 1) in
      let same : update shm k (init_cells (shm k)) c.segment ≡ shm c.segment =
        update_ne shm k (init_cells (shm k)) c.segment (λ q. ne (sym q)) in
      rw (open_channel-new fuel shm k e) (
        ap
          (λ m. done (
            update (update shm k (init_cells (shm k))) c.segment (update m next_channel_index k),
            new_channel junk k ∷ [],
          ))
          same)

-- What Pool::get comes to when nothing is free in the channels up to index q: it returns q + 1, the
-- first index of a new channel with key k at the end of the chain, and the others of it are free.
pub record Grown (junk : ℕ → ℕ) (shm : Shm) (cs : List Channel) (p k q : ℕ) (r : GetResult)
    : Type 0 where
  pub shm' : Shm
  pub frees : List (List ℕ)
  pub returns : r ≡ done (q + 1, shm', cs ++ new_channel junk k ∷ [])
  pub free : AllFree shm' (cs ++ new_channel junk k ∷ []) frees
  pub rest : free_indices p frees ≡ shift q (upto 2 (channel_size - 1))
  pub others : (s : ℕ) → Outside s cs → s ≢ k → shm' s ≡ shm s

pub fresh_list : upto 1 channel_size ≡ 1 ∷ upto 2 (channel_size - 1)
unfolding upto
fresh_list = refl

-- The segments once a new channel with key k hangs behind the channel `c`.
abbrev renewed : Shm → Channel → ℕ → Shm
renewed shm c k =
    update (update shm k (init_cells (shm k))) c.segment
      (update (shm c.segment) next_channel_index k)

renewed-others :
    (shm : Shm) (c : Channel) (k s : ℕ) → s ≢ c.segment → s ≢ k → renewed shm c k s ≡ shm s
renewed-others shm c k s o nk =
    update_ne (update shm k (init_cells (shm k))) c.segment
      (update (shm c.segment) next_channel_index k) s o
    ∙ update_ne shm k (init_cells (shm k)) s nk

renewed-FreeList :
    (shm : Shm) (c : Channel) (k : ℕ)
    → k ≢ c.segment
    → FreeList (renewed shm c k k) (1 ∷ upto 2 (channel_size - 1))
renewed-FreeList shm c k ne =
    let at_k : renewed shm c k k ≡ init_cells (shm k) =
      update_ne (update shm k (init_cells (shm k))) c.segment
        (update (shm c.segment) next_channel_index k) k ne
      ∙ update_self shm k (init_cells (shm k)) in
    subst (λ l. FreeList (renewed shm c k k) l) fresh_list
      (subst (λ z. FreeList z (upto 1 channel_size)) (sym at_k) (init_cells-FreeList (shm k)).0)

module _ (stat junk : ℕ → ℕ) (fuel : ℕ) where
  -- The rest of the loop once the last channel has turned out to be full.
  go_on-Got :
      (shm : Shm) (p : ℕ) (c : Channel)
      → let k = u32 (c.key + 1) in
        let q = p + channel_size in
        stat k ≡ 0
        → k ≢ c.segment
        → q + channel_size < 2 ^ 32
        → Got
            (renewed shm c k)
            (new_channel junk k ∷ [])
            q
            (q + 1)
            (shift q (upto 2 (channel_size - 1)))
            (bind
              (alloc_next_channel stat junk (suc fuel) shm c)
              (λ r. get_from stat junk fuel r.0 (u32 q) r.1))
  go_on-Got shm p c e ne b =
      let k : ℕ = u32 (c.key + 1) in
      let q : ℕ = p + channel_size in
      let index : u32 q ≡ q = omega arith in
      let frees : List (List ℕ) = (1 ∷ upto 2 (channel_size - 1)) ∷ [] in
      let w =
        get_from-Got stat junk fuel (renewed shm c k) q (new_channel junk k ∷ []) frees (q + 1)
          (shift q (upto 2 (channel_size - 1))) (renewed-FreeList shm c k ne, tt, tt)
          (ap (λ l. (q + 1) ∷ l) (append-nil (shift q (upto 2 (channel_size - 1)))))
          (omega arith) in
      rw (alloc-new stat junk fuel shm c e ne) (
        subst
          (λ z.
            Got (renewed shm c k) (new_channel junk k ∷ []) q (q + 1)
              (shift q (upto 2 (channel_size - 1)))
              (get_from stat junk fuel (renewed shm c k) z (new_channel junk k ∷ [])))
          (sym index) w)

  last-Grown :
      (shm : Shm) (p : ℕ) (c : Channel)
      → let k = u32 (c.key + 1) in
        FreeList (shm c.segment) []
        → stat k ≡ 0
        → k ≢ c.segment
        → p + channel_size + channel_size < 2 ^ 32
        → Grown junk shm
            (c ∷ [])
            p
            k
            (p + channel_size)
            (get_from stat junk (suc fuel) shm p (c ∷ []))
  unfolding get_from
  last-Grown shm p c f e ne b =
      let k : ℕ = u32 (c.key + 1) in
      let go_on : Shm → GetResult = λ shm'.
        bind (alloc_next_channel stat junk (suc fuel) shm' c)
          (λ r. get_from stat junk fuel r.0 (u32 (p + channel_size)) r.1) in
      let (m, missed, free) = try_channel-miss shm p c [] go_on f in
      let w = go_on-Got (update shm c.segment m) p c e ne b in
      let same : w.shm' c.segment ≡ update m next_channel_index k =
        w.others c.segment (λ q. ne (sym q), tt)
        ∙ update_self (update (update shm c.segment m) k (init_cells (update shm c.segment m k)))
            c.segment (update (update shm c.segment m c.segment) next_channel_index k)
        ∙ ap (λ z. update z next_channel_index k) (update_self shm c.segment m) in
      record {
        shm' = w.shm';
        frees = [] ∷ w.frees;
        returns = missed ∙ ap (λ r. bind r (λ t. done (t.0, t.1, c ∷ t.2))) w.returns;
        free = (subst (λ z. FreeList z []) (sym same) free, (λ q. ne (sym q), tt), w.free);
        rest = w.rest;
        others = λ s o nk.
            w.others s (nk, tt)
            ∙ renewed-others (update shm c.segment m) c k s o.0 nk
            ∙ update_ne shm c.segment m s o.0;
      }

Outside-append :
    (s : ℕ) (cs : List Channel) (d : Channel)
    → Outside s cs
    → s ≢ d.segment
    → Outside s (cs ++ d ∷ [])
Outside-append s [] d o ne = (ne, tt)
Outside-append s (c ∷ cs) d o ne = (o.0, Outside-append s cs d o.1 ne)

-- A full channel in front of a chain that grows.
more-Grown :
    (junk : ℕ → ℕ) (shm : Shm) (p : ℕ) (c : Channel) (cs : List Channel) (m : Mem) (k q : ℕ)
    (r : GetResult)
    → FreeList m []
    → Outside c.segment cs
    → k ≢ c.segment
    → Grown junk (update shm c.segment m) cs (p + channel_size) k q r
    → Grown junk shm (c ∷ cs) p k q (bind r (λ t. done (t.0, t.1, c ∷ t.2)))
more-Grown junk shm p c cs m k q r free out ne w =
    let same : w.shm' c.segment ≡ m =
      w.others c.segment out (λ z. ne (sym z)) ∙ update_self shm c.segment m in
    record {
      shm' = w.shm';
      frees = [] ∷ w.frees;
      returns = rw w.returns;
      free = (
        subst (λ z. FreeList z []) (sym same) free,
        Outside-append c.segment cs (new_channel junk k) out (λ z. ne (sym z)),
        w.free,
      );
      rest = w.rest;
      others = λ s o nk. w.others s o.1 nk ∙ update_ne shm c.segment m s o.0;
    }

get_from-Grown :
    (stat junk : ℕ → ℕ) (fuel : ℕ) (shm : Shm) (p : ℕ) (c : Channel) (cs : List Channel)
    (xss : List (List ℕ))
    → AllFree shm (c ∷ cs) xss
    → free_indices p xss ≡ []
    → stat (next_key (c ∷ cs)) ≡ 0
    → Outside (next_key (c ∷ cs)) (c ∷ cs)
    → p + channel_size * length (c ∷ cs) + channel_size < 2 ^ 32
    → Grown junk shm
        (c ∷ cs)
        p
        (next_key (c ∷ cs))
        (p + channel_size * length (c ∷ cs))
        (get_from stat junk (suc fuel) shm p (c ∷ cs))
unfolding get_from
get_from-Grown stat junk fuel shm p c cs [] f e z o b = absurd f
get_from-Grown stat junk fuel shm p c cs ((x ∷ xs) ∷ xss) f e z o b = cc
get_from-Grown stat junk fuel shm p c [] ([] ∷ xss) f e z o b =
    let q : p + channel_size ≡ p + channel_size * 1 = omega arith in
    rw (← q) (last-Grown stat junk fuel shm p c f.0 z o.0 (omega arith))
get_from-Grown stat junk fuel shm p c (d ∷ ds) ([] ∷ xss) f e z o b =
    let go_on : Shm → GetResult =
      λ shm'. get_from stat junk (suc fuel) shm' (u32 (p + channel_size)) (d ∷ ds) in
    let (m, missed, free) = try_channel-miss shm p c (d ∷ ds) go_on f.0 in
    let k : ℕ = next_key (d ∷ ds) in
    let q : ℕ = p + channel_size * length (c ∷ d ∷ ds) in
    let index : u32 (p + channel_size) ≡ p + channel_size = omega arith in
    let total : p + channel_size + channel_size * length (d ∷ ds) ≡ q = omega arith in
    let shm₁ : Shm = update shm c.segment m in
    let later =
      get_from-Grown stat junk fuel shm₁ (p + channel_size) d ds xss
        (AllFree-update shm c.segment m (d ∷ ds) xss f.1 f.2) e z o.1 (omega arith) in
    rw missed (
      more-Grown junk shm p c (d ∷ ds) m k q (go_on shm₁) free f.1 o.0 (
        subst
          (λ i.
            Grown junk shm₁ (d ∷ ds) (p + channel_size) k q
              (get_from stat junk (suc fuel) shm₁ i (d ∷ ds)))
          (sym index)
          (subst
            (λ i.
              Grown junk shm₁ (d ∷ ds) (p + channel_size) k i
                (get_from stat junk (suc fuel) shm₁ (p + channel_size) (d ∷ ds)))
            total later)))

-- Pool::get with nothing free, when the segment of the next key is new and no channel has it: it
-- returns the first index of a new channel, whose other indices are then the free ones. The indices
-- fit an int.
pub pool_get-Grown :
    (stat junk : ℕ → ℕ) (fuel : ℕ) (shm : Shm) (c : Channel) (cs : List Channel)
    (xss : List (List ℕ))
    → AllFree shm (c ∷ cs) xss
    → free_indices 0 xss ≡ []
    → stat (next_key (c ∷ cs)) ≡ 0
    → Outside (next_key (c ∷ cs)) (c ∷ cs)
    → channel_size * length (c ∷ cs) + channel_size < 2 ^ 31
    → Grown junk shm
        (c ∷ cs)
        0
        (next_key (c ∷ cs))
        (channel_size * length (c ∷ cs))
        (pool_get stat junk (suc fuel) shm (c ∷ cs))
unfolding pool_get
pool_get-Grown stat junk fuel shm c cs xss f e z o b =
    let q : 0 + channel_size * length (c ∷ cs) ≡ channel_size * length (c ∷ cs) = omega arith in
    subst
      (λ i.
        Grown junk shm (c ∷ cs) 0 (next_key (c ∷ cs)) i
          (get_from stat junk (suc fuel) shm 0 (c ∷ cs)))
      q (get_from-Grown stat junk fuel shm 0 c cs xss f e z o (omega arith))
