-- ===== src/Pool/Get.antt =====
-- Pool::get on a chain with a free index.
use mathlib.Core.Path.{subst, sym}
use make_the_american_great.Prelude.{
  ℕ, zero, suc, ◌+◌, ◌*◌, ◌^◌, ◌<◌, ◌≡◌, refl, ap, ◌∙◌, List, [], ◌∷◌, length, Mem, update, arith,
  u32, lt→ltb, ==_refl,
}
use make_the_american_great.Run.{Run, done, spinning, bind}
use make_the_american_great.Pool.{Shm, Channel, channel_size, try_channel, get_from, pool_get}
use make_the_american_great.Pool.FreeList.{Apart, FreeList, channel_get-cons, channel_get-nil}
use make_the_american_great.Pool.Chain.{
  Outside, AllFree, AllFree-update, free_indices, free_indices-Distinct, Distinct,
}

abbrev pub GetResult : Type 0
GetResult = Run (ℕ × Shm × List Channel)

try_channel-hit :
    (shm : Shm) (p : ℕ) (c : Channel) (rest : List Channel) (go_on : Shm → GetResult) (x : ℕ)
    (xs : List ℕ)
    → FreeList (shm c.segment) (x ∷ xs)
    → p + channel_size < 2 ^ 32
    → (m : Mem) × (try_channel shm p c rest go_on ≡ done (p + x, update shm c.segment m, c ∷ rest))
      × FreeList m xs
unfolding try_channel
try_channel-hit shm p c rest go_on x xs h bound =
    let (m, got, free, _) = channel_get-cons 0 (shm c.segment) x xs h in
    let e : u32 (p + x) ≡ p + x = omega (arith, h.2) in
    (m, rw (got, lt→ltb 0 x h.1) (ap (λ g. done (g, update shm c.segment m, c ∷ rest)) e), free)

pub try_channel-miss :
    (shm : Shm) (p : ℕ) (c : Channel) (rest : List Channel) (go_on : Shm → GetResult)
    → FreeList (shm c.segment) []
    → (m : Mem) × (try_channel shm p c rest go_on
        ≡ bind (go_on (update shm c.segment m)) (λ t. done (t.0, t.1, c ∷ t.2)))
      × FreeList m []
unfolding try_channel
try_channel-miss shm p c rest go_on h =
    let (m, got, free, _) = channel_get-nil 0 (shm c.segment) h in (m, rw got, free)

-- What Pool::get comes to from the channel with the first index p + 1 on: it returns g, the
-- indices gs stay free, the chain and all other segments are as they were.
pub record Got (shm : Shm) (cs : List Channel) (p g : ℕ) (gs : List ℕ) (r : GetResult)
    : Type 0 where
  pub shm' : Shm
  pub frees : List (List ℕ)
  pub returns : r ≡ done (g, shm', cs)
  pub free : AllFree shm' cs frees
  pub rest : free_indices p frees ≡ gs
  pub others : (s : ℕ) → Outside s cs → shm' s ≡ shm s

hit-Got :
    (shm : Shm) (p : ℕ) (c : Channel) (cs : List Channel) (go_on : Shm → GetResult) (x : ℕ)
    (xs : List ℕ) (xss : List (List ℕ))
    → AllFree shm (c ∷ cs) ((x ∷ xs) ∷ xss)
    → p + channel_size < 2 ^ 32
    → Got shm (c ∷ cs) p (p + x) (free_indices p (xs ∷ xss)) (try_channel shm p c cs go_on)
hit-Got shm p c cs go_on x xs xss f bound =
    let (m, e, free) = try_channel-hit shm p c cs go_on x xs f.0 bound in
    record {
      shm' = update shm c.segment m;
      frees = xs ∷ xss;
      returns = e;
      free = (rw ==_refl free, f.1, AllFree-update shm c.segment m cs xss f.1 f.2);
      rest = refl;
      others = λ s out. ground (arith, out.0);
    }

pub first_hit :
    (shm : Shm) (p : ℕ) (c : Channel) (cs : List Channel) (go_on : Shm → GetResult) (x : ℕ)
    (xs : List ℕ) (xss : List (List ℕ)) (g : ℕ) (gs : List ℕ)
    → AllFree shm (c ∷ cs) ((x ∷ xs) ∷ xss)
    → free_indices p ((x ∷ xs) ∷ xss) ≡ g ∷ gs
    → p + channel_size < 2 ^ 32
    → Got shm (c ∷ cs) p g gs (try_channel shm p c cs go_on)
first_hit shm p c cs go_on x xs xss g gs f e b =
    let head : p + x ≡ g = cc in
    let rest : free_indices p (xs ∷ xss) ≡ gs = cc in
    rw (← head, ← rest) (hit-Got shm p c cs go_on x xs xss f b)

miss-Got :
    (shm : Shm) (p : ℕ) (c : Channel) (cs : List Channel) (m : Mem) (g : ℕ) (gs : List ℕ)
    (r : GetResult)
    → FreeList m []
    → Outside c.segment cs
    → Got (update shm c.segment m) cs (p + channel_size) g gs r
    → Got shm (c ∷ cs) p g gs (bind r (λ t. done (t.0, t.1, c ∷ t.2)))
miss-Got shm p c cs m g gs r free out w =
    let same : w.shm' c.segment ≡ m = w.others c.segment out ∙ rw ==_refl in
    record {
      shm' = w.shm';
      frees = [] ∷ w.frees;
      returns = rw w.returns;
      free = (rw same free, out, w.free);
      rest = w.rest;
      others = λ s o. w.others s o.1 ∙ ground (arith, o.0);
    }

pub get_from-Got :
    (stat junk : ℕ → ℕ) (fuel : ℕ) (shm : Shm) (p : ℕ) (cs : List Channel) (xss : List (List ℕ))
    (g : ℕ) (gs : List ℕ)
    → AllFree shm cs xss
    → free_indices p xss ≡ g ∷ gs
    → p + channel_size * length cs < 2 ^ 32
    → Got shm cs p g gs (get_from stat junk fuel shm p cs)
unfolding get_from
get_from-Got stat junk fuel shm p [] [] g gs f e b = cc
get_from-Got stat junk fuel shm p [] (xs ∷ xss) g gs f e b = absurd f
get_from-Got stat junk fuel shm p (c ∷ cs) [] g gs f e b = absurd f
get_from-Got stat junk zero shm p (c ∷ []) ((x ∷ xs) ∷ xss) g gs f e b =
    first_hit shm p c [] (λ shm'. spinning) x xs xss g gs f e (omega arith)
get_from-Got stat junk (suc fuel) shm p (c ∷ []) ((x ∷ xs) ∷ xss) g gs f e b =
    first_hit shm p c [] _ x xs xss g gs f e (omega arith)
get_from-Got stat junk fuel shm p (c ∷ d ∷ ds) ((x ∷ xs) ∷ xss) g gs f e b =
    first_hit shm p c (d ∷ ds) _ x xs xss g gs f e (omega arith)
get_from-Got stat junk fuel shm p (c ∷ []) ([] ∷ []) g gs f e b = cc
get_from-Got stat junk fuel shm p (c ∷ []) ([] ∷ ys ∷ yss) g gs f e b = absurd f.2
get_from-Got stat junk fuel shm p (c ∷ d ∷ ds) ([] ∷ xss) g gs f e b =
    let go_on : Shm → GetResult =
      λ shm'. get_from stat junk fuel shm' (u32 (p + channel_size)) (d ∷ ds) in
    let (m, missed, free) = try_channel-miss shm p c (d ∷ ds) go_on f.0 in
    let index : u32 (p + channel_size) ≡ p + channel_size = omega arith in
    let shm₁ : Shm = update shm c.segment m in
    let later : Got shm₁ (d ∷ ds) (p + channel_size) g gs
        (get_from stat junk fuel shm₁ (p + channel_size) (d ∷ ds)) =
      get_from-Got stat junk fuel shm₁ (p + channel_size) (d ∷ ds) xss g gs
        (AllFree-update shm c.segment m (d ∷ ds) xss f.1 f.2) e (omega arith) in
    rw missed (
      miss-Got shm p c (d ∷ ds) m g gs _ free f.1 (
        subst
          (λ q. Got shm₁ (d ∷ ds) (p + channel_size) g gs (get_from stat junk fuel shm₁ q (d ∷ ds)))
          (sym index) later))

-- Pool::get on a chain with free indices g, gs (in the order of the walk) returns g, whatever the
-- fuel. Afterwards exactly gs are free, g is none of them, and the chain is the same. A chain has
-- few enough channels for the indices to fit an int.
pub pool_get-Got :
    (stat junk : ℕ → ℕ) (fuel : ℕ) (shm : Shm) (cs : List Channel) (xss : List (List ℕ)) (g : ℕ)
    (gs : List ℕ)
    → AllFree shm cs xss
    → free_indices 0 xss ≡ g ∷ gs
    → channel_size * length cs < 2 ^ 31
    → Got shm cs 0 g gs (pool_get stat junk fuel shm cs) × Apart g gs
unfolding pool_get
pool_get-Got stat junk fuel shm cs xss g gs f e b =
    let d : Distinct (g ∷ gs) = rw e at (free_indices-Distinct 0 shm cs xss f) in
    (get_from-Got stat junk fuel shm 0 cs xss g gs f e (omega arith), d.0)
