-- ===== src/Circular/RoundTrip.antt =====
-- A write and then a read of the byte-by-byte buffer of workspace/ringbuffer.cpp.
use mathlib.Core.Path.{subst}
use make_the_american_great.Prelude.{
  ℕ, ◌^◌, ◌≤◌, ◌<◌, ◌≡◌, ap, ◌∙◌, sym, List, ◌++◌, length, min, take, drop, arith,
}
use make_the_american_great.Run.{done}
use make_the_american_great.Circular.{Buffer, write, read}
use make_the_american_great.Circular.Inv.{as_ring, read-as_ring}
use make_the_american_great.Circular.Write.{write-as_ring}
use make_the_american_great.Ring.Inv.{IsSize, IsQuiet, used, contents, length-contents}
use make_the_american_great.Ring.Read.{after_read, contents-after_read}
use make_the_american_great.Ring.Write.{room}

-- read of at most `len` bytes returns the oldest of xs, as many as fit, and leaves the others.
abbrev Reads : ℕ → Buffer → ℕ → List ℕ → ℕ → Type 0
Reads fuel c len xs n =
    let j = min len (length xs) in
    (c' : Buffer) × (read fuel c len ≡ done (j, take j xs, c'))
    × (contents n (as_ring c') ≡ drop j xs)

read-Reads :
    (fuel : ℕ) (c : Buffer) (len : ℕ)
    → IsSize c.size
    → IsQuiet c.size (as_ring c)
    → len < 2 ^ 31
    → c.size < fuel
    → Reads fuel c len (contents c.size (as_ring c)) c.size
read-Reads fuel c len s q h f =
    let n : ℕ = c.size in
    let xs : List ℕ = contents n (as_ring c) in
    let (c', returns, same) = read-as_ring fuel c len s q h f in
    let count : min len (used n (as_ring c)) ≡ min len (length xs) =
      ap (min len) (sym (length-contents n (as_ring c))) in
    let below : min len (length xs) ≤ used n (as_ring c) = omega (arith, count) in
    (
      c',
      returns ∙ ap (λ j. done (j, take j xs, c')) count,
      ap (contents n) (same ∙ ap (after_read n (as_ring c)) count)
          ∙ contents-after_read n (as_ring c) (min len (length xs)) q.valid below,
    )

-- With a round of fuel more than the buffer's size, a write of `len` bytes and then a read of at
-- most `len'` end: the write takes as many bytes as there is room for, the read returns the oldest
-- of the bytes held before and then of those taken, as many as fit, and the others stay.
pub read-write :
    (fuel : ℕ) (c : Buffer) (len : ℕ) (input : List ℕ) (len' : ℕ)
    → IsSize c.size
    → IsQuiet c.size (as_ring c)
    → len < 2 ^ 31
    → len ≤ length input
    → len' < 2 ^ 31
    → c.size < fuel
    → let k = min len (room c.size (as_ring c)) in
      let xs = contents c.size (as_ring c) ++ take k input in
      let j = min len' (length xs) in
      (c₁ : Buffer) × (c₂ : Buffer) × (write fuel c len input ≡ done (k, c₁))
      × (read fuel c₁ len' ≡ done (j, take j xs, c₂))
      × (contents c.size (as_ring c₂) ≡ drop j xs)
read-write fuel c len input len' s q h long h' f =
    let n : ℕ = c.size in
    let xs : List ℕ = contents n (as_ring c) ++ take (min len (room n (as_ring c))) input in
    let (c₁, writes, holds, quiet, size) = write-as_ring fuel c len input s q h long f in
    let reads : Reads fuel c₁ len' (contents c₁.size (as_ring c₁)) c₁.size =
      read-Reads fuel c₁ len' (subst IsSize (sym size) s)
        (subst (λ m. IsQuiet m (as_ring c₁)) (sym size) quiet) h' (omega (arith, size)) in
    let (c₂, returns, left) : Reads fuel c₁ len' xs n =
      subst (λ ys. Reads fuel c₁ len' ys n) holds
        (subst (λ m. Reads fuel c₁ len' (contents m (as_ring c₁)) m) size reads) in
    (c₁, c₂, writes, returns, left)
