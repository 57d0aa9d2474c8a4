-- ===== src/Ring/Inv.antt =====
-- The bytes that a ring holds, when a ring is well formed, and the int arithmetic of rb_read and
-- rb_write on well-formed rings.
use make_the_american_great.Prelude.{
  ℕ, ◌+◌, ◌-◌, ◌^◌, ◌<◌, ◌≡◌, List, min, arith, ltb, leb, if◌then◌else◌, length, Mem, generate,
  length-generate, ◌%◌,
}
use make_the_american_great.Ring.{Ring, read_size, write_size, clip}
use native.Mathlib.Nat.{mod-eq_of_lt, mod-eq-sub-mod}

-- An index less than 2 n, brought back into the data area.
abbrev pub wrap : ℕ → ℕ → ℕ
wrap n a = if ltb a n then a else a - n

-- The steps from index h on to index t, round the end of the data area.
abbrev pub span : ℕ → ℕ → ℕ → ℕ
span n h t = if leb h t then t - h else t + n - h

-- The k bytes from index h on, round the end of the data area.
abbrev pub window : ℕ → Mem → ℕ → ℕ → List ℕ
window n content h k = generate (λ i. content (wrap n (h + i))) k

abbrev pub used : ℕ → Ring → ℕ
used n rb = span n rb.head rb.old_tail

-- The bytes that are written and not yet read, oldest first.
abbrev pub contents : ℕ → Ring → List ℕ
contents n rb = window n rb.content rb.head (used n rb)

-- An int can hold the size of the data area.
pub record IsSize (n : ℕ) : Type 0 where
  pub positive : 0 < n
  pub small : n < 2 ^ 31

-- Every index is in range.
pub record IsValid (n : ℕ) (rb : Ring) : Type 0 where
  pub head_in : rb.head < n
  pub tail_in : rb.tail < n
  pub old_tail_in : rb.old_tail < n

-- No write is under way.
pub record IsQuiet (n : ℕ) (rb : Ring) : Type 0 where
  pub valid : IsValid n rb
  pub published : rb.old_tail ≡ rb.tail

pub length-contents : (n : ℕ) (rb : Ring) → length (contents n rb) ≡ used n rb
length-contents n rb = length-generate (λ i. rb.content (wrap n (rb.head + i))) (used n rb)

pub span-lt : (n h t : ℕ) → h < n → t < n → span n h t < n
span-lt n h t p q = ground arith

pub mod-eq-wrap : (n a : ℕ) → a < n + n → a % n ≡ wrap n a
mod-eq-wrap n a h = ground (
  arith,
  mod-eq_of_lt {n = a} {m = n},
  mod-eq-sub-mod {n = a} {m = n},
  mod-eq_of_lt {n = a - n} {m = n},
)

-- The int `size` of rb_read is the number of bytes held, and that of rb_write what is left of n - 1.
pub read_size-eq-span : (n h t : ℕ) → IsSize n → h < n → t < n → read_size n h t ≡ span n h t
unfolding read_size
read_size-eq-span n h t s p q = ground arith

pub write_size-eq : (n h t : ℕ) → IsSize n → h < n → t < n → write_size n h t ≡ n - 1 - span n h t
unfolding write_size
write_size-eq n h t s p q = ground arith

-- On ints that are not negative the clipped length is the smaller of the two.
pub clip-eq-min : (size len : ℕ) → size < 2 ^ 31 → len < 2 ^ 31 → clip size len ≡ min len size
unfolding clip
clip-eq-min size len p q = ground arith
