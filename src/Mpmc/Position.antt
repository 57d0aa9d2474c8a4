-- ===== src/Mpmc/Position.antt =====
-- Where the x-th byte that goes through a ring of n bytes lies.
use make_the_american_great.Prelude.{ℕ, zero, suc, ◌+◌, ◌-◌, ◌<◌, ◌≤◌, ◌≡◌, ◌≢◌, ap, ◌∙◌, arith}
use make_the_american_great.Ring.Inv.{wrap, span}

abbrev pub position : ℕ → ℕ → ℕ
position n zero = 0
position n (suc x) = wrap n (position n x + 1)

pub position-lt : (n x : ℕ) → 0 < n → position n x < n
position-lt n zero p = p
position-lt n (suc x) p = ground (arith, position-lt n x p)

pub position-add : (n x k : ℕ) → k < n → position n (x + k) ≡ wrap n (position n x + k)
position-add n x zero p = ground (arith, position-lt n x p)
position-add n x (suc k) p =
    let before : position n (x + k) ≡ wrap n (position n x + k) =
      position-add n x k (omega arith) in
    let inside = position-lt n x (omega arith) in
    let last : position n (x + suc k) ≡ wrap n (position n (x + k) + 1) =
      ap (position n) (is_next x k) in
    let inside = position-lt n x (omega arith) in ground (arith, before, last)
  where
    is_next : (x k : ℕ) → x + suc k ≡ suc (x + k)
    is_next x k = omega arith

module _ (n x y : ℕ) (after : x ≤ y) (near : y < x + n) where
  at : position n y ≡ wrap n (position n x + (y - x))
  at = ap (position n) (omega arith) ∙ position-add n x (y - x) (omega arith)

  pub span-position : span n (position n x) (position n y) ≡ y - x
  span-position = let inside = position-lt n x (omega arith) in ground (arith, at)

  -- Less than one round apart the positions are different.
  pub position-inj : position n x ≡ position n y → x ≡ y
  position-inj e = let inside = position-lt n x (omega arith) in ground (arith, at)

pub position-ne : (n x y : ℕ) → x ≢ y → x < y + n → y < x + n → position n x ≢ position n y
position-ne n x y ne p q e = ground (arith, position-inj n x y, position-inj n y x)
