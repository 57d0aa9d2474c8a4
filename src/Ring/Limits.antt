-- ===== src/Ring/Limits.antt =====
-- A write followed by a read, a write that waits for another that never ends, and lengths that are
-- negative as ints.
use make_the_american_great.Prelude.{
  ℕ, zero, suc, ◌+◌, ◌-◌, ◌^◌, ◌≤◌, ◌<◌, ◌≡◌, ◌≢◌, refl, ◌∙◌, List, min, arith, length, Mem, Option,
  none, some, Bool-cases, inl, inr, if◌then◌else◌, ◌==◌, u32, ltb, ne→==-false, int_to_size, sub32,
  ==_refl,
}
use make_the_american_great.Run.{Run, done, fault, spinning}
use make_the_american_great.Ring.{
  Ring, rb_read, rb_write, reserve, finish_read, finish_write, publish, fetch, store, copy_out,
  copy_in, and_then, remain_length, clip, read_size, write_size,
}
use make_the_american_great.Ring.Inv.{
  IsSize, IsValid, used, wrap, span, span-lt, read_size-eq-span, write_size-eq, clip-eq-min,
}
use make_the_american_great.Ring.Write.{reserve-done}
use make_the_american_great.Ring.Copy.{store-Stored}

publish-spinning :
    (fuel : ℕ) (rb : Ring) (t t' k : ℕ) → rb.old_tail ≢ t → publish fuel rb t t' k ≡ spinning
unfolding publish
publish-spinning zero rb t t' k h = refl
publish-spinning (suc fuel) rb t t' k h =
    rw (ne→==-false rb.old_tail t h) (publish-spinning fuel rb t t' k h)

finish_write-spinning :
    (n fuel : ℕ) (rb : Ring) (t t' k : ℕ) (input : List ℕ) (m : Mem)
    → store n rb.content t input k ≡ some m
    → rb.old_tail ≢ t
    → finish_write n fuel rb t t' k input ≡ spinning
unfolding finish_write
finish_write-spinning n fuel rb t t' k input m copied ne =
    rw (copied, finish_write) (publish-spinning fuel (record rb { content = m }) t t' k ne)

-- While another write is under way (old_tail is not yet tail), an rb_write that has anything to
-- write and room for it does not return, however many rounds it makes.
pub rb_write-spinning :
    (n fuel : ℕ) (rb : Ring) (len : ℕ) (input : List ℕ)
    → IsSize n
    → IsValid n rb
    → rb.old_tail ≢ rb.tail
    → len < 2 ^ 31
    → len ≤ length input
    → 0 < len
    → span n rb.head rb.tail < n - 1
    → rb_write n fuel rb len input ≡ spinning
unfolding rb_write
rb_write-spinning n zero rb len input s v ne small long pos room = refl
rb_write-spinning n (suc fuel) rb len input s v ne small long pos room =
    rw
      (
        write_size-eq n rb.head rb.tail s v.head_in v.tail_in,
        clip-eq-min (n - 1 - span n rb.head rb.tail) len (omega (arith, s.small)) small,
      )
      (go (min len (n - 1 - span n rb.head rb.tail)) (omega arith) (omega arith) (omega arith))
  where
    go :
        (k : ℕ)
        → 0 < k
        → k < n
        → k ≤ length input
        → (if k == 0
            then done (0, rb)
            else reserve n (suc fuel) rb rb.tail k input (rb_write n fuel rb k input))
          ≡ spinning
    go k p q l =
        let (m, copied, stored) = store-Stored n rb.content rb.tail input k s v.tail_in q l in
        let t : ℕ = wrap n (rb.tail + k) in
        rw (ne→==-false k 0 (omega arith)) (
          reserve-done n (suc fuel) rb k input (rb_write n fuel rb k input) s v.tail_in q
          ∙ finish_write-spinning n (suc fuel) (record rb { tail = t }) rb.tail t k input m copied
              ne)

copy_out-none :
    (n : ℕ) (m : Mem) (off count : ℕ)
    → n < int_to_size count
    → copy_out n m off (int_to_size count) ≡ none
unfolding copy_out
copy_out-none n m off count h = ground arith

copy_in-none :
    (n : ℕ) (m : Mem) (off : ℕ) (input : List ℕ) (from count : ℕ)
    → n < int_to_size count
    → copy_in n m off input from (int_to_size count) ≡ none
unfolding copy_in
copy_in-none n m off input from count h = ground arith

-- The byte count of a memcpy, or of the second one, when the length is negative.
negative_count :
    (n from len : ℕ)
    → n < 2 ^ 30
    → from < n
    → 2 ^ 31 ≤ len
    → len < 2 ^ 32
    → (n < int_to_size len) × (n < int_to_size (sub32 len (remain_length n from)))
unfolding int_to_size remain_length
negative_count n from len s p lo hi = ground arith

fetch-none :
    (n : ℕ) (m : Mem) (head len : ℕ)
    → n < 2 ^ 30
    → head < n
    → 2 ^ 31 ≤ len
    → len < 2 ^ 32
    → fetch n m head len ≡ none
unfolding fetch
fetch-none n m head len s p lo hi =
    let (a, b) = negative_count n head len s p lo hi in
    rw (copy_out-none n m head len a, copy_out-none n m 0 (sub32 len (remain_length n head)) b)
      (ground arith)

and_then-none :
    (o : Option Mem) (k : Mem → Option Mem) → ((m : Mem) → k m ≡ none) → and_then o k ≡ none
and_then-none none k h = refl
and_then-none (some m) k h = h m

store-none :
    (n : ℕ) (m : Mem) (tail : ℕ) (input : List ℕ) (len : ℕ)
    → n < 2 ^ 30
    → tail < n
    → 2 ^ 31 ≤ len
    → len < 2 ^ 32
    → store n m tail input len ≡ none
unfolding store
store-none n m tail input len s p lo hi =
    let (a, b) = negative_count n tail len s p lo hi in
    elim (Bool-cases (ltb (u32 (tail + len)) n)) [
      | inl test ↦ rw (test, copy_in-none n m tail input 0 len a)
      | inr test ↦ rw test (
          and_then-none _ _ (λ m'.
            copy_in-none n m' 0 input (remain_length n tail) (sub32 len (remain_length n tail)) b))
    ]

reserve-fault :
    (n fuel : ℕ) (rb : Ring) (len : ℕ) (input : List ℕ) (retry : Run (ℕ × Ring))
    → store n rb.content rb.tail input len ≡ none
    → reserve n fuel rb rb.tail len input retry ≡ fault
unfolding reserve finish_write
reserve-fault n fuel rb len input retry e = rw (==_refl rb.tail, e, finish_write)

-- A negative length is never clipped.
clip-negative : (size len : ℕ) → size < 2 ^ 31 → 2 ^ 31 ≤ len → len < 2 ^ 32 → clip size len ≡ len
unfolding clip
clip-negative size len s lo hi = ground arith

-- A length that is negative as an int makes rb_read and rb_write copy out of range.
pub negative_length :
    (n fuel : ℕ) (rb : Ring) (len : ℕ) (input : List ℕ)
    → n < 2 ^ 30
    → IsValid n rb
    → 2 ^ 31 ≤ len
    → len < 2 ^ 32
    → (rb_read n (suc fuel) rb len ≡ fault) × (rb_write n (suc fuel) rb len input ≡ fault)
unfolding rb_read rb_write finish_read
negative_length n fuel rb len input s v lo hi =
    let size : IsSize n = record { positive = omega arith; small = omega arith } in
    let h_t = span-lt n rb.head rb.old_tail v.head_in v.old_tail_in in
    let r : clip (read_size n rb.head rb.old_tail) len ≡ len =
      rw (read_size-eq-span n rb.head rb.old_tail size v.head_in v.old_tail_in)
        (clip-negative (used n rb) len (omega arith) lo hi) in
    let w : clip (write_size n rb.head rb.tail) len ≡ len =
      rw (write_size-eq n rb.head rb.tail size v.head_in v.tail_in)
        (clip-negative (n - 1 - span n rb.head rb.tail) len (omega arith) lo hi) in
    (
      rw (
        r,
        ne→==-false len 0 (omega arith),
        fetch-none n rb.content rb.head len s v.head_in lo hi,
        finish_read,
      ),
      rw (w, ne→==-false len 0 (omega arith))
          (reserve-fault n (suc fuel) rb len input (rb_write n fuel rb len input)
            (store-none n rb.content rb.tail input len s v.tail_in lo hi)),
    )
