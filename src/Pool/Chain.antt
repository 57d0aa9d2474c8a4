-- ===== src/Pool/Chain.antt =====
-- The free indices of a chain of channels, as the numbers that Pool::get returns.
use make_the_american_great.Prelude.{ℕ, ◌+◌, ◌≤◌, ◌≡◌, ◌≢◌, List, [], ◌∷◌, ◌++◌, Mem, update, arith}
use make_the_american_great.Pool.{Shm, Channel, channel_size}
use make_the_american_great.Pool.FreeList.{Apart, Leads, FreeList}

-- A segment that no channel of the chain is attached to.
abbrev pub Outside : ℕ → List Channel → Type 0
Outside s [] = Unit {0}
Outside s (c ∷ cs) = (s ≢ c.segment) × Outside s cs

-- The channels are attached to different segments, whose free lists are those given.
abbrev pub AllFree : Shm → List Channel → List (List ℕ) → Type 0
AllFree shm [] [] = Unit {0}
AllFree shm [] (xs ∷ xss) = ⊥
AllFree shm (c ∷ cs) [] = ⊥
AllFree shm (c ∷ cs) (xs ∷ xss) =
    FreeList (shm c.segment) xs × Outside c.segment cs × AllFree shm cs xss

abbrev pub shift : ℕ → List ℕ → List ℕ
shift p [] = []
shift p (x ∷ xs) = (p + x) ∷ shift p xs

-- The free indices of the pool, in the order in which Pool::get finds them. The indices of a
-- channel come after those of the channels before it.
abbrev pub free_indices : ℕ → List (List ℕ) → List ℕ
free_indices p [] = []
free_indices p (xs ∷ xss) = shift p xs ++ free_indices (p + channel_size) xss

-- The elements are pairwise different.
abbrev pub Distinct : List ℕ → Type 0
Distinct [] = Unit {0}
Distinct (x ∷ xs) = Apart x xs × Distinct xs

pub AllFree-update :
    (shm : Shm) (s : ℕ) (m : Mem) (cs : List Channel) (xss : List (List ℕ))
    → Outside s cs
    → AllFree shm cs xss
    → AllFree (update shm s m) cs xss
AllFree-update shm s m [] [] out h = tt
AllFree-update shm s m [] (xs ∷ xss) out h = absurd h
AllFree-update shm s m (c ∷ cs) [] out h = absurd h
AllFree-update shm s m (c ∷ cs) (xs ∷ xss) out h =
    let e : update shm s m c.segment ≡ shm c.segment = ground (arith, out.0) in
    (rw e h.0, h.1, AllFree-update shm s m cs xss out.1 h.2)

Apart-append : (x : ℕ) (xs ys : List ℕ) → Apart x xs → Apart x ys → Apart x (xs ++ ys)
Apart-append x [] ys h k = k
Apart-append x (y ∷ xs) ys h k = (h.0, Apart-append x xs ys h.1 k)

Apart-shift : (p x : ℕ) (xs : List ℕ) → Apart x xs → Apart (p + x) (shift p xs)
Apart-shift p x [] h = tt
Apart-shift p x (y ∷ xs) h = (omega (arith, h.0), Apart-shift p x xs h.1)

-- An index below those of a channel is none of them.
Apart-shift_below :
    (x p q : ℕ) (m : Mem) (xs : List ℕ) → x ≤ p → Leads m q xs → Apart x (shift p xs)
Apart-shift_below x p q m [] h l = tt
Apart-shift_below x p q m (y ∷ xs) h l =
    (omega (arith, l.1), Apart-shift_below x p (m y) m xs h l.4)

Apart-free_indices :
    (x p : ℕ) (shm : Shm) (cs : List Channel) (xss : List (List ℕ))
    → x ≤ p
    → AllFree shm cs xss
    → Apart x (free_indices p xss)
Apart-free_indices x p shm [] [] h f = tt
Apart-free_indices x p shm [] (xs ∷ xss) h f = absurd f
Apart-free_indices x p shm (c ∷ cs) [] h f = absurd f
Apart-free_indices x p shm (c ∷ cs) (xs ∷ xss) h f =
    Apart-append x (shift p xs) (free_indices (p + channel_size) xss)
      (Apart-shift_below x p (shm c.segment 0) (shm c.segment) xs h f.0)
      (Apart-free_indices x (p + channel_size) shm cs xss (omega arith) f.2)

Distinct-append_shift :
    (p q : ℕ) (m : Mem) (xs ys : List ℕ)
    → Leads m q xs
    → ((x : ℕ) → x ≤ p + channel_size → Apart x ys)
    → Distinct ys
    → Distinct (shift p xs ++ ys)
Distinct-append_shift p q m [] ys l above d = d
Distinct-append_shift p q m (x ∷ xs) ys l above d = (
  Apart-append (p + x) (shift p xs) ys (Apart-shift p x xs l.3)
      (above (p + x) (omega (arith, l.2))),
  Distinct-append_shift p (m x) m xs ys l.4 above d,
)

-- No index is free twice.
pub free_indices-Distinct :
    (p : ℕ) (shm : Shm) (cs : List Channel) (xss : List (List ℕ))
    → AllFree shm cs xss
    → Distinct (free_indices p xss)
free_indices-Distinct p shm [] [] f = tt
free_indices-Distinct p shm [] (xs ∷ xss) f = absurd f
free_indices-Distinct p shm (c ∷ cs) [] f = absurd f
free_indices-Distinct p shm (c ∷ cs) (xs ∷ xss) f =
    Distinct-append_shift p (shm c.segment 0) (shm c.segment) xs
      (free_indices (p + channel_size) xss) f.0
      (λ x h. Apart-free_indices x (p + channel_size) shm cs xss h f.2)
      (free_indices-Distinct (p + channel_size) shm cs xss f.2)
