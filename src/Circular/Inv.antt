-- ===== src/Circular/Inv.antt =====
-- The byte-by-byte buffer against the ring.
use mathlib.Core.Path.{ap₂}
use make_the_american_great.Prelude.{
  ℕ, zero, suc, ◌+◌, ◌-◌, ◌^◌, ◌≤◌, ◌<◌, ◌≡◌, ◌≢◌, refl, ap, ◌∙◌, sym, ◌∷◌, min, arith, Mem,
  generate_ext, length-generate, u32, u64, int_to_size-eq, take-generate, take, ne→==-false,
}
use make_the_american_great.Run.{done, bind}
use make_the_american_great.Circular.{Buffer, step, read_loop, read}
use make_the_american_great.Ring.{Ring}
use make_the_american_great.Ring.Inv.{
  IsSize, IsQuiet, wrap, span, span-lt, window, used, contents, mod-eq-wrap,
}
use make_the_american_great.Ring.Read.{after_read}

-- The buffer as a ring with no write under way.
abbrev pub as_ring : Buffer → Ring
as_ring c = record { head = c.begin_idx; tail = c.end_idx; old_tail = c.end_idx; content = c.bytes }

pub step-eq-wrap : (n i : ℕ) → IsSize n → i < n → step n i ≡ wrap n (i + 1)
unfolding step
step-eq-wrap n i s h =
    let e : u64 (i + 1) ≡ i + 1 = omega (arith, s.small) in
    rw e (mod-eq-wrap n (i + 1) (omega arith))

window-suc :
    (n : ℕ) (m : Mem) (b k : ℕ)
    → b < n
    → k < n
    → m b ∷ window n m (wrap n (b + 1)) k ≡ window n m b (suc k)
window-suc n m b k h q =
    ap₂ ◌∷◌ (ap m (ground arith)) (generate_ext _ _ k (λ i p. ap m (ground arith)))

span_bound : (n b e k len rs : ℕ) → b < n → e < n → suc k ≡ min (len - rs) (span n b e) → k < n
span_bound n b e k len rs h p q = omega (arith, span-lt n b e h p)

read_loop-window :
    (k fuel : ℕ) (m : Mem) (e n len b rs : ℕ)
    → IsSize n
    → e < n
    → b < n
    → rs ≤ len
    → len < 2 ^ 31
    → k ≡ min (len - rs) (span n b e)
    → k < fuel
    → read_loop fuel m e n len b rs ≡ done (wrap n (b + k), window n m b k)
unfolding read_loop
read_loop-window k zero m e n len b rs s he hb hr hl ek f = absurd (omega arith)
read_loop-window zero (suc fuel) m e n len b rs s he hb hr hl ek f = ground arith
read_loop-window (suc k) (suc fuel) m e n len b rs s he hb hr hl ek f =
    let a : (b ≢ e) × (rs ≢ len) = (ground arith, omega arith) in
    let b' : ℕ = wrap n (b + 1) in
    let count : u64 (rs + 1) ≡ rs + 1 = omega arith in
    let next : read_loop fuel m e n len (step n b) (u64 (rs + 1))
        ≡ done (wrap n (b' + k), window n m b' k) =
      ap₂ (read_loop fuel m e n len) (step-eq-wrap n b s hb) count
      ∙ read_loop-window k fuel m e n len b' (rs + 1) s he (ground arith) (omega arith) hl
          (ground arith) (omega arith) in
    rw (ne→==-false b e a.0, ne→==-false rs len a.1)
      (ap (λ r. bind r (λ r. done (r.0, m b ∷ r.1))) next
        ∙ ap₂ (λ i bytes. done (i, bytes)) (ground arith)
            (window-suc n m b k hb (span_bound n b e k len rs hb he ek)))

-- read of at most `len` bytes, given one round of fuel more than the buffer's size, returns what
-- rb_read would: as many of the bytes held as fit, oldest first, with the same indices after it.
pub read-as_ring :
    (fuel : ℕ) (c : Buffer) (len : ℕ)
    → IsSize c.size
    → IsQuiet c.size (as_ring c)
    → len < 2 ^ 31
    → c.size < fuel
    → let k = min len (used c.size (as_ring c)) in
      (c' : Buffer) × (read fuel c len ≡ done (k, take k (contents c.size (as_ring c)), c'))
      × (as_ring c' ≡ after_read c.size (as_ring c) k)
unfolding read
read-as_ring fuel c len s q h f =
    let k : ℕ = min len (used c.size (as_ring c)) in
    let small : used c.size (as_ring c) < c.size =
      span-lt c.size c.begin_idx c.end_idx q.valid.head_in q.valid.tail_in in
    let b' : ℕ = wrap c.size (c.begin_idx + k) in
    let loop =
      read_loop-window k fuel c.bytes c.end_idx c.size len c.begin_idx 0 s q.valid.tail_in
        q.valid.head_in (omega arith) h (omega arith) (omega arith) in
    let count : u32 k ≡ k = omega (arith, s.small) in
    (
      record c { begin_idx = b' },
      rw
          (
            int_to_size-eq len h,
            loop,
            length-generate (λ i. c.bytes (wrap c.size (c.begin_idx + i))) k,
          )
          (ap₂ (λ i bytes. done (i, bytes, record c { begin_idx = b' })) count
            (sym (
              take-generate (λ i. c.bytes (wrap c.size (c.begin_idx + i))) k
                (used c.size (as_ring c)) (omega arith)))),
      refl,
    )
