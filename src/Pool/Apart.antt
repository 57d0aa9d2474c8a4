-- ===== src/Pool/Apart.antt =====
-- Lists that an index is not in, and the range of the free indices of a chain.
use mathlib.Core.HLevel.{⊥_prop}
use mathlib.Core.Logic.Or
use mathlib.Core.List.{Perm, Mem, Memᴰ, not-mem-nil, mem-cons_of_mem, eq-or-mem_of_mem-cons}
use mathlib.Core.List.Perm
use make_the_american_great.Prelude.{ℕ, ◌+◌, ◌*◌, ◌≤◌, ◌<◌, ◌≡◌, List, [], ◌∷◌, length, arith}
use make_the_american_great.Pool.{Shm, Channel, channel_size}
use make_the_american_great.Pool.FreeList.{Apart}
use make_the_american_great.Pool.Chain.{AllFree, free_indices}

Apart→not_mem : (x : ℕ) (xs : List ℕ) → Apart x xs → Mem x xs → ⊥
Apart→not_mem x [] a m = not-mem-nil m
Apart→not_mem x (y ∷ ys) a m =
    Or.elim ⊥_prop (eq-or-mem_of_mem-cons m) a.0 (λ m'. Apart→not_mem x ys a.1 m')

not_mem→Apart : (x : ℕ) (xs : List ℕ) → (Mem x xs → ⊥) → Apart x xs
not_mem→Apart x [] h = tt
not_mem→Apart x (y ∷ ys) h =
    (λ e. h ∣ Memᴰ.head e ∣₁, not_mem→Apart x ys (λ m. h (mem-cons_of_mem y m)))

pub Apart-Perm : (x : ℕ) (xs ys : List ℕ) → Perm xs ys → Apart x ys → Apart x xs
Apart-Perm x xs ys p a = not_mem→Apart x xs (λ m. Apart→not_mem x ys a ((Perm.mem_iff p).0 m))

pub first_free :
    (shm : Shm) (cs : List Channel) (p : ℕ) (xss : List (List ℕ)) (g : ℕ) (gs : List ℕ)
    → AllFree shm cs xss
    → free_indices p xss ≡ g ∷ gs
    → (p < g) × (g ≤ p + channel_size * length cs)
first_free shm [] p [] g gs f e = cc
first_free shm [] p (xs ∷ xss) g gs f e = absurd f
first_free shm (c ∷ cs) p [] g gs f e = absurd f
first_free shm (c ∷ cs) p ((x ∷ xs) ∷ xss) g gs f e =
    let head : p + x ≡ g = cc in (omega (arith, f.0.1, f.0.2), omega (arith, f.0.1, f.0.2))
first_free shm (c ∷ cs) p ([] ∷ xss) g gs f e =
    let rest = first_free shm cs (p + channel_size) xss g gs f.2 e in
    (omega (arith, rest.0), omega (arith, rest.1))
