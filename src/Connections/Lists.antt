-- ===== src/Connections/Lists.antt =====
-- Lists of different positions below a bound, taken from at the front and extended at the end.
use make_the_american_great.Prelude.{ℕ, ◌≤◌, ◌<◌, ◌≢◌, sym, List, [], ◌∷◌, ◌++◌, arith}
use make_the_american_great.Pool.FreeList.{Apart}
use make_the_american_great.Pool.Chain.{Distinct}

-- Every element is less than n.
abbrev pub Below : ℕ → List ℕ → Type 0
Below n [] = Unit {0}
Below n (x ∷ xs) = (x < n) × Below n xs

pub Below-le : (m n : ℕ) (xs : List ℕ) → m ≤ n → Below m xs → Below n xs
Below-le m n [] h b = tt
Below-le m n (x ∷ xs) h b = (omega (arith, b.0), Below-le m n xs h b.1)

pub Below-snoc : (n x : ℕ) (xs : List ℕ) → Below n xs → x < n → Below n (xs ++ (x ∷ []))
Below-snoc n x [] b h = (h, tt)
Below-snoc n x (y ∷ ys) b h = (b.0, Below-snoc n x ys b.1 h)

pub Below→Apart : (n : ℕ) (xs : List ℕ) → Below n xs → Apart n xs
Below→Apart n [] b = tt
Below→Apart n (x ∷ xs) b = (λ e. omega (arith, b.0), Below→Apart n xs b.1)

pub Apart-snoc : (x y : ℕ) (xs : List ℕ) → Apart x xs → x ≢ y → Apart x (xs ++ (y ∷ []))
Apart-snoc x y [] a h = (h, tt)
Apart-snoc x y (z ∷ zs) a h = (a.0, Apart-snoc x y zs a.1 h)

pub Distinct-snoc : (x : ℕ) (xs : List ℕ) → Distinct xs → Apart x xs → Distinct (xs ++ (x ∷ []))
Distinct-snoc x [] d a = (tt, tt)
Distinct-snoc x (y ∷ ys) d a =
    (Apart-snoc y x ys d.0 (λ e. a.0 (sym e)), Distinct-snoc x ys d.1 a.1)
