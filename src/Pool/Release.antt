-- ===== src/Pool/Release.antt =====
-- Pool::release of an index of the chain.
use mathlib.Core.Path.{subst, sym}
use mathlib.Core.List.{Perm, perm_middle}
use mathlib.Core.List.Perm
use make_the_american_great.Prelude.{
  ℕ, ◌+◌, ◌-◌, ◌*◌, ◌^◌, ◌≤◌, ◌<◌, ◌≡◌, ap, List, [], ◌∷◌, ◌++◌, length, update, arith, update_self,
  le_cases, inl, inr, lt_int, sub32, true, false,
}
use make_the_american_great.Run.{Run, done}
use make_the_american_great.Pool.{Shm, Channel, channel_size, pool_release}
use make_the_american_great.Pool.FreeList.{Apart, FreeList, channel_release-cons}
use make_the_american_great.Pool.Chain.{Outside, AllFree, AllFree-update, free_indices, shift}

-- What releasing the index p + i comes to on a chain whose first channel has the indices p + 1 on.
pub record Released (shm : Shm) (cs : List Channel) (p : ℕ) (xss : List (List ℕ)) (i : ℕ)
    (r : Run Shm) : Type 0 where
  pub shm' : Shm
  pub frees : List (List ℕ)
  pub returns : r ≡ done shm'
  pub free : AllFree shm' cs frees
  pub rest : Perm (free_indices p frees) ((p + i) ∷ free_indices p xss)
  pub others : (s : ℕ) → Outside s cs → shm' s ≡ shm s

Apart-append_left : (x : ℕ) (xs ys : List ℕ) → Apart x (xs ++ ys) → Apart x xs
Apart-append_left x [] ys h = tt
Apart-append_left x (y ∷ xs) ys h = (h.0, Apart-append_left x xs ys h.1)

Apart-append_right : (x : ℕ) (xs ys : List ℕ) → Apart x (xs ++ ys) → Apart x ys
Apart-append_right x [] ys h = h
Apart-append_right x (y ∷ xs) ys h = Apart-append_right x xs ys h.1

Apart-of_shift : (p x : ℕ) (xs : List ℕ) → Apart (p + x) (shift p xs) → Apart x xs
Apart-of_shift p x [] h = tt
Apart-of_shift p x (y ∷ xs) h = (λ e. h.0 (ap (λ z. p + z) e), Apart-of_shift p x xs h.1)

module _ (shm : Shm) (c : Channel) (cs : List Channel) (p : ℕ) (xs : List ℕ) (xss : List (List ℕ))
    (f : AllFree shm (c ∷ cs) (xs ∷ xss)) (i : ℕ) where
  here-Released :
      0 < i
      → i ≤ channel_size
      → Apart (p + i) (free_indices p (xs ∷ xss))
      → Released shm (c ∷ cs) p (xs ∷ xss) i (pool_release shm (c ∷ cs) i)
  unfolding pool_release
  here-Released pos top out =
      let mine : Apart i xs =
        Apart-of_shift p i xs (Apart-append_left (p + i) (shift p xs) _ out) in
      let (m, released, free, _) = channel_release-cons 0 (shm c.segment) i xs f.0 pos top mine in
      let test : lt_int channel_size i ≡ false = ground arith in
      record {
        shm' = update shm c.segment m;
        frees = (i ∷ xs) ∷ xss;
        returns = rw (test, released);
        free = (
          subst (λ k. FreeList k (i ∷ xs)) (sym (update_self shm c.segment m)) free,
          f.1,
          AllFree-update shm c.segment m cs xss f.1 f.2,
        );
        rest = Perm.refl _;
        others = λ s o. ground (arith, o.0);
      }

  later-Released :
      channel_size < i
      → i < 2 ^ 31
      → Released shm cs
          (p + channel_size)
          xss
          (i - channel_size)
          (pool_release shm cs (i - channel_size))
      → Released shm (c ∷ cs) p (xs ∷ xss) i (pool_release shm (c ∷ cs) i)
  unfolding pool_release
  later-Released above small w =
      let test : lt_int channel_size i ≡ true = ground arith in
      let index : sub32 i channel_size ≡ i - channel_size = omega arith in
      let same : w.shm' c.segment ≡ shm c.segment = w.others c.segment f.1 in
      let number : p + channel_size + (i - channel_size) ≡ p + i = omega arith in
      record {
        shm' = w.shm';
        frees = xs ∷ w.frees;
        returns = rw (test, index) w.returns;
        free = (rw same f.0, f.1, w.free);
        rest =
            Perm.trans (Perm.append_left (shift p xs) (rw number at w.rest))
              (perm_middle (shift p xs) (free_indices (p + channel_size) xss));
        others = λ s o. w.others s o.1;
      }

-- Pool::release of an index of the chain that is not free returns, and makes it free beside those
-- that were. The channels stay attached to the same segments, and no other segment changes.
pub pool_release-Released :
    (shm : Shm) (cs : List Channel) (p : ℕ) (xss : List (List ℕ)) (i : ℕ)
    → AllFree shm cs xss
    → 0 < i
    → i ≤ channel_size * length cs
    → i < 2 ^ 31
    → Apart (p + i) (free_indices p xss)
    → Released shm cs p xss i (pool_release shm cs i)
pool_release-Released shm [] p xss i f pos top small out = absurd (omega arith)
pool_release-Released shm (c ∷ cs) p [] i f pos top small out = absurd f
pool_release-Released shm (c ∷ cs) p (xs ∷ xss) i f pos top small out =
    elim (le_cases i channel_size) [
      | inl in_channel ↦ here-Released shm c cs p xs xss f i pos in_channel out
      | inr above ↦
          let number : p + channel_size + (i - channel_size) ≡ p + i = omega arith in
          later-Released shm c cs p xs xss f i above small (
            pool_release-Released shm cs (p + channel_size) xss (i - channel_size) f.2 (omega arith)
              (omega arith) (omega arith)
              (rw number (Apart-append_right (p + i) (shift p xs) _ out)))
    ]
