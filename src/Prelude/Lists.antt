-- ===== src/Prelude/Lists.antt =====
-- Lists measured by native numbers, memory as a function of the address, and lists generated from
-- functions.
use Prim.Native.Nat.{ℕ, zero, suc, ◌+◌, ◌-◌, ◌≤◌, ◌<◌}
use mathlib.Core.Path.{◌≡◌, refl, ap, ap₂, ◌∙◌}
use mathlib.Core.Logic.{◌≢◌, ◌⊎◌, inl, inr}
use mathlib.Core.List.{List, [], ◌∷◌, ◌++◌}
use mathlib.Core.Bool.{◌&&◌, true}
use native.Mathlib.Omega.{arith}
use make_the_american_great.Prelude.Tests.{ltb, leb, ◌==◌, if◌then◌else◌, Bool-cases}

module _ {ℓ} {A : Type ℓ} where
  abbrev pub length : List A → ℕ
  length [] = 0
  length (x ∷ xs) = suc (length xs)

  abbrev pub get_or : List A → ℕ → A → A
  get_or [] i d = d
  get_or (x ∷ xs) zero d = x
  get_or (x ∷ xs) (suc i) d = get_or xs i d

  abbrev pub take : ℕ → List A → List A
  take zero xs = []
  take (suc n) [] = []
  take (suc n) (x ∷ xs) = x ∷ take n xs

  abbrev pub drop : ℕ → List A → List A
  drop zero xs = xs
  drop (suc n) [] = []
  drop (suc n) (x ∷ xs) = drop n xs

  -- f 0, f 1, …, f (n - 1).
  abbrev pub generate : (ℕ → A) → ℕ → List A
  generate f zero = []
  generate f (suc n) = f 0 ∷ generate (λ i. f (suc i)) n

  pub length-generate : (f : ℕ → A) (n : ℕ) → length (generate f n) ≡ n
  length-generate f zero = refl
  length-generate f (suc n) = ap suc (length-generate (λ i. f (suc i)) n)

  pub generate_ext :
      (f g : ℕ → A) (n : ℕ) → ((i : ℕ) → i < n → f i ≡ g i) → generate f n ≡ generate g n
  generate_ext f g zero h = refl
  generate_ext f g (suc n) h =
      ap₂ ◌∷◌ (h 0 (omega arith))
        (generate_ext (λ i. f (suc i)) (λ i. g (suc i)) n (λ i p. h (suc i) (omega arith)))

  pub generate_cong :
      (f g : ℕ → A) (m n : ℕ) → m ≡ n → ((i : ℕ) → i < m → f i ≡ g i) → generate f m ≡ generate g n
  generate_cong f g m n e h = generate_ext f g m h ∙ ap (generate g) e

  pub generate-add :
      (f : ℕ → A) (m n : ℕ) → generate f (m + n) ≡ generate f m ++ generate (λ i. f (m + i)) n
  generate-add f zero n =
      generate_cong f (λ i. f (0 + i)) (0 + n) n (omega arith) (λ i p. ap f (omega arith))
  generate-add f (suc m) n =
      ap (generate f) {y = suc (m + n)} (omega arith)
      ∙ ap (◌∷◌ (f 0)) (generate-add (λ i. f (suc i)) m n)
      ∙ ap (λ ys. f 0 ∷ (generate (λ i. f (suc i)) m ++ ys))
          (generate_ext (λ i. f (suc (m + i))) (λ i. f (suc m + i)) n (λ i p. ap f (omega arith)))

  pub take-generate : (f : ℕ → A) (k n : ℕ) → k ≤ n → take k (generate f n) ≡ generate f k
  take-generate f zero n h = refl
  take-generate f (suc k) zero h = absurd (omega arith)
  take-generate f (suc k) (suc n) h =
      ap (◌∷◌ (f 0)) (take-generate (λ i. f (suc i)) k n (omega arith))

  pub drop-generate :
      (f : ℕ → A) (k n : ℕ) → k ≤ n → drop k (generate f n) ≡ generate (λ i. f (k + i)) (n - k)
  drop-generate f zero n h =
      generate_cong f (λ i. f (0 + i)) n (n - 0) (omega arith) (λ i p. ap f (omega arith))
  drop-generate f (suc k) zero h = absurd (omega arith)
  drop-generate f (suc k) (suc n) h =
      drop-generate (λ i. f (suc i)) k n (omega arith)
      ∙ generate_cong (λ i. f (suc (k + i))) (λ i. f (suc k + i)) (n - k) (suc n - suc k)
          (omega arith) (λ i p. ap f (omega arith))

  pub generate-get_or :
      (xs : List A) (d : A) (k : ℕ) → k ≤ length xs → generate (λ i. get_or xs i d) k ≡ take k xs
  generate-get_or xs d zero h = refl
  generate-get_or [] d (suc k) h = absurd (omega arith)
  generate-get_or (x ∷ xs) d (suc k) h = ap (◌∷◌ x) (generate-get_or xs d k (omega arith))

pub length-append {ℓ} : {A : Type ℓ} (xs ys : List A) → length (xs ++ ys) ≡ length xs + length ys
length-append [] ys = omega arith
length-append (x ∷ xs) ys = omega (arith, length-append xs ys)

pub take-length {ℓ} : {A : Type ℓ} (xs : List A) → take (length xs) xs ≡ xs
take-length [] = refl
take-length (x ∷ xs) = ap (◌∷◌ x) (take-length xs)

pub get_or-generate {ℓ} :
    {A : Type ℓ} (f : ℕ → A) (k i : ℕ) (d : A) → i < k → get_or (generate f k) i d ≡ f i
get_or-generate f zero i d h = absurd (omega arith)
get_or-generate f (suc k) zero d h = refl
get_or-generate f (suc k) (suc i) d h = get_or-generate (λ j. f (suc j)) k i d (omega arith)

-- A memory segment: the bytes or words at each offset.
abbrev pub Mem : Type 0
Mem = ℕ → ℕ

-- The k cells from `off` on.
abbrev pub slice : Mem → ℕ → ℕ → List ℕ
slice m off k = generate (λ i. m (off + i)) k

-- The cells of `xs` written from `off` on.
unfoldable pub blit : Mem → ℕ → List ℕ → Mem
blit m off xs a = if leb off a && ltb a (off + length xs) then get_or xs (a - off) 0 else m a

-- One cell written.
abbrev pub update {ℓ} : {A : Type ℓ} → (ℕ → A) → ℕ → A → ℕ → A
update m p v a = if a == p then v else m a

pub blit-generate :
    (m : Mem) (off : ℕ) (f : ℕ → ℕ) (k a : ℕ)
    → blit m off (generate f k) a ≡ (if leb off a && ltb a (off + k) then f (a - off) else m a)
unfolding blit
blit-generate m off f k a =
    rw (length-generate f k) (ground (arith, get_or-generate f k (a - off) 0))

pub update_self {ℓ} : {A : Type ℓ} (m : ℕ → A) (p : ℕ) (v : A) → update m p v p ≡ v
update_self m p v = ground arith

pub update_ne {ℓ} : {A : Type ℓ} (m : ℕ → A) (p : ℕ) (v : A) (a : ℕ) → a ≢ p → update m p v a ≡ m a
update_ne m p v a h = ground arith

-- What is at j after the value at i has been replaced.
pub update-cases {ℓ} :
    {A : Type ℓ} (m : ℕ → A) (i : ℕ) (x : A) (j : ℕ)
    → ((j ≡ i) × (update m i x j ≡ x)) ⊎ ((j ≢ i) × (update m i x j ≡ m j))
update-cases m i x j = elim (Bool-cases (j == i)) [
  | inl e ↦ inl (equal j i e, rw e refl)
  | inr e ↦ inr (λ q. ground (arith, e, q), rw e refl)
]
  where
    equal : (a b : ℕ) → (a == b) ≡ true → a ≡ b
    equal a b h = ground arith

pub get_or-append_left {ℓ} :
    {A : Type ℓ} (xs ys : List A) (i : ℕ) (d : A)
    → i < length xs
    → get_or (xs ++ ys) i d ≡ get_or xs i d
get_or-append_left [] ys i d h = absurd (omega arith)
get_or-append_left (x ∷ xs) ys zero d h = refl
get_or-append_left (x ∷ xs) ys (suc i) d h = get_or-append_left xs ys i d (omega arith)

pub get_or-append_right {ℓ} :
    {A : Type ℓ} (xs ys : List A) (i : ℕ) (d : A)
    → length xs ≤ i
    → get_or (xs ++ ys) i d ≡ get_or ys (i - length xs) d
get_or-append_right [] ys i d h = ap (λ z. get_or ys z d) (omega arith)
get_or-append_right (x ∷ xs) ys zero d h = absurd (omega arith)
get_or-append_right (x ∷ xs) ys (suc i) d h =
    get_or-append_right xs ys i d (omega arith) ∙ ap (λ z. get_or ys z d) (omega arith)

pub length-take {ℓ} : {A : Type ℓ} (k : ℕ) (xs : List A) → k ≤ length xs → length (take k xs) ≡ k
length-take zero [] h = refl
length-take (suc k) [] h = absurd (omega arith)
length-take zero (x ∷ xs) h = refl
length-take (suc k) (x ∷ xs) h = ap suc (length-take k xs (omega arith))

pub length-drop {ℓ} :
    {A : Type ℓ} (k : ℕ) (xs : List A) → k ≤ length xs → length (drop k xs) ≡ length xs - k
length-drop zero xs h = omega arith
length-drop (suc k) [] h = absurd (omega arith)
length-drop (suc k) (x ∷ xs) h = length-drop k xs (omega arith) ∙ omega arith
