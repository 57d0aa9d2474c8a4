-- ===== src/Ring/Copy.antt =====
-- The one or two memcpy calls of rb_read and rb_write against the window that they copy.
use make_the_american_great.Prelude.{
  blit-generate, ◌&&◌, ℕ, ◌+◌, ◌-◌, ◌^◌, ◌≤◌, ◌<◌, ◌≡◌, ap, ◌∙◌, true, false, inl, inr, some, List,
  arith, length, get_or, Mem, generate, generate_ext, generate-add, slice, blit, le_cases, le→leb,
  ltb, u32, if◌then◌else◌, leb, sym, ◌++◌, int_to_size, int_to_size-eq, sub32-eq,
}
use make_the_american_great.Ring.{fetch, store, copy_out, copy_in, remain_length}
use make_the_american_great.Ring.Inv.{IsSize, wrap, window}

copy_out-some :
    (n : ℕ) (m : Mem) (off k : ℕ)
    → off + k ≤ n
    → n < 2 ^ 31
    → copy_out n m off (int_to_size k) ≡ some (slice m off k)
unfolding copy_out
copy_out-some n m off k h s = rw (int_to_size-eq k (omega arith), le→leb (off + k) n h)

pub remain_length-eq : (n from : ℕ) → IsSize n → from < n → remain_length n from ≡ n - from
unfolding remain_length
remain_length-eq n from s h = ground arith

slice-window : (n : ℕ) (m : Mem) (off k : ℕ) → off + k ≤ n → slice m off k ≡ window n m off k
slice-window n m off k h = generate_ext _ _ k (λ i p. ap m (ground arith))

-- A window that goes round is its part up to the end and its part from 0 on.
split-window :
    (n : ℕ) (m : Mem) (head k : ℕ)
    → head < n
    → n ≤ head + k
    → k < n
    → slice m head (n - head) ++ slice m 0 (k - (n - head)) ≡ window n m head k
split-window n m head k p over q =
    ap (λ xs. xs ++ slice m 0 (k - (n - head))) (slice-window n m head (n - head) (omega arith))
    ∙ ap (λ xs. window n m head (n - head) ++ xs)
        (generate_ext _ _ (k - (n - head)) (λ i h. ap m (ground arith)))
    ∙ sym (generate-add (λ i. m (wrap n (head + i))) (n - head) (k - (n - head)))
    ∙ ap (generate (λ i. m (wrap n (head + i)))) {y = k} (omega arith)

-- Reading k bytes of the data area from `head` on yields the window, wherever it wraps.
pub fetch-window :
    (n : ℕ) (m : Mem) (head k : ℕ)
    → IsSize n
    → head < n
    → k < n
    → fetch n m head k ≡ some (window n m head k)
unfolding fetch
fetch-window n m head k s p q = elim (le_cases n (head + k)) [
  | inr inside ↦
      let test : ltb (u32 (head + k)) n ≡ true = ground arith in
      rw (test, copy_out-some n m head k (omega arith) s.small)
        (ap some (slice-window n m head k (omega arith)))
  | inl over ↦
      let test : ltb (u32 (head + k)) n ≡ false = ground arith in
      rw
        (
          test,
          remain_length-eq n head s p,
          sub32-eq k (n - head) (omega arith) (omega arith),
          copy_out-some n m head (n - head) (omega arith) s.small,
          copy_out-some n m 0 (k - (n - head)) (omega arith) s.small,
        )
        (ap some (split-window n m head k p over q))
]

-- `m'` is `m` with the first k bytes of `input` written from index t on, round the end.
pub record Stored (n : ℕ) (m : Mem) (t : ℕ) (input : List ℕ) (k : ℕ) (m' : Mem) : Type 0 where
  pub new : (i : ℕ) → i < k → m' (wrap n (t + i)) ≡ get_or input i 0
  pub kept : (i : ℕ) → k ≤ i → i < n → m' (wrap n (t + i)) ≡ m (wrap n (t + i))

-- The segment after one memcpy into it.
abbrev copied : Mem → ℕ → List ℕ → ℕ → ℕ → Mem
copied m off input from k = blit m off (slice (λ i. get_or input i 0) from k)

copy_in-some :
    (n : ℕ) (m : Mem) (off : ℕ) (input : List ℕ) (from k : ℕ)
    → off + k ≤ n
    → n < 2 ^ 31
    → from + k ≤ length input
    → copy_in n m off input from (int_to_size k) ≡ some (copied m off input from k)
unfolding copy_in
copy_in-some n m off input from k h s e =
    rw (int_to_size-eq k (omega arith), le→leb (off + k) n h, le→leb (from + k) (length input) e)

copied-lem :
    (m : Mem) (off : ℕ) (input : List ℕ) (from k a : ℕ)
    → copied m off input from k a
      ≡ (if leb off a && ltb a (off + k) then get_or input (from + (a - off)) 0 else m a)
copied-lem m off input from k a = blit-generate m off (λ i. get_or input (from + i) 0) k a

module _ (n : ℕ) (m : Mem) (t : ℕ) (input : List ℕ) (k : ℕ) where
  abbrev once : Mem
  once = copied m t input 0 k

  copied-Stored : t + k ≤ n → t < n → Stored n m t input k once
  copied-Stored h p = record {
    new = λ i q. copied-lem m t input 0 k (wrap n (t + i)) ∙ ground arith;
    kept = λ i q r. copied-lem m t input 0 k (wrap n (t + i)) ∙ ground arith;
  }

  abbrev first : Mem
  first = copied m t input 0 (n - t)

  abbrev twice : Mem
  twice = copied first 0 input (n - t) (k - (n - t))

  twice-Stored : n ≤ t + k → t < n → k < n → Stored n m t input k twice
  twice-Stored h p q = record {
    new = λ i r.
        copied-lem first 0 input (n - t) (k - (n - t)) (wrap n (t + i))
        ∙ ground (arith, copied-lem m t input 0 (n - t) (wrap n (t + i)));
    kept = λ i q r.
        copied-lem first 0 input (n - t) (k - (n - t)) (wrap n (t + i))
        ∙ ground (arith, copied-lem m t input 0 (n - t) (wrap n (t + i)));
  }

-- Writing k bytes of `input` from index t on succeeds, and leaves the rest as it was.
pub store-Stored :
    (n : ℕ) (m : Mem) (t : ℕ) (input : List ℕ) (k : ℕ)
    → IsSize n
    → t < n
    → k < n
    → k ≤ length input
    → (m' : Mem) × (store n m t input k ≡ some m') × Stored n m t input k m'
unfolding store
store-Stored n m t input k s p q e = elim (le_cases n (t + k)) [
  | inr inside ↦
      let test : ltb (u32 (t + k)) n ≡ true = ground arith in
      (
        once n m t input k,
        rw (test, copy_in-some n m t input 0 k (omega arith) s.small (omega arith)),
        copied-Stored n m t input k (omega arith) p,
      )
  | inl over ↦
      let test : ltb (u32 (t + k)) n ≡ false = ground arith in
      (
        twice n m t input k,
        rw (
          test,
          remain_length-eq n t s p,
          sub32-eq k (n - t) (omega arith) (omega arith),
          copy_in-some n m t input 0 (n - t) (omega arith) s.small (omega arith),
          copy_in-some n (first n m t input k) 0 input (n - t) (k - (n - t)) (omega arith) s.small
              (omega arith),
        ),
        twice-Stored n m t input k over p q,
      )
]
