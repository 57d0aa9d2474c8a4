-- ===== src/Ring/Read.antt =====
-- rb_read on a well-formed ring.
use make_the_american_great.Prelude.{
  ℕ, zero, suc, ◌+◌, ◌-◌, ◌^◌, ◌≤◌, ◌<◌, ◌≡◌, ap, ◌∙◌, List, [], min, arith, take, drop,
  take-generate, drop-generate, generate_cong, u32, ◌%◌, ◌==◌, if◌then◌else◌, ==_refl, ne→==-false,
  sym,
}
use make_the_american_great.Run.{Run, done}
use make_the_american_great.Ring.{Ring, rb_read, finish_read}
use make_the_american_great.Ring.Inv.{
  IsSize, IsValid, used, contents, wrap, span-lt, read_size-eq-span, clip-eq-min, mod-eq-wrap,
}
use make_the_american_great.Ring.Copy.{fetch-window}

-- The ring after k bytes have been read.
abbrev pub after_read : ℕ → Ring → ℕ → Ring
after_read n rb k = record rb { head = wrap n (rb.head + k) }

pub after_read-IsValid :
    (n : ℕ) (rb : Ring) (k : ℕ) → IsValid n rb → k < n → IsValid n (after_read n rb k)
after_read-IsValid n rb k v h = ground arith

used-after_read :
    (n : ℕ) (rb : Ring) (k : ℕ)
    → IsValid n rb
    → k ≤ used n rb
    → used n (after_read n rb k) ≡ used n rb - k
used-after_read n rb k v h = ground arith

pub contents-after_read :
    (n : ℕ) (rb : Ring) (k : ℕ)
    → IsValid n rb
    → k ≤ used n rb
    → contents n (after_read n rb k) ≡ drop k (contents n rb)
contents-after_read n rb k v h =
    generate_cong _ _ (used n (after_read n rb k)) (used n rb - k) (used-after_read n rb k v h)
      (λ i p. ap rb.content (ground arith))
    ∙ sym (drop-generate (λ i. rb.content (wrap n (rb.head + i))) k (used n rb) h)

pub next_index : (n i k : ℕ) → IsSize n → i < n → k < n → u32 (i + k) % n ≡ wrap n (i + k)
next_index n i k s p q =
    let e : u32 (i + k) ≡ i + k = omega (arith, s.small) in
    rw e (mod-eq-wrap n (i + k) (omega arith))

finish_read-done :
    (n : ℕ) (rb : Ring) (k : ℕ) (retry : Run (ℕ × List ℕ × Ring))
    → IsSize n
    → IsValid n rb
    → k ≤ used n rb
    → finish_read n rb rb.head k retry ≡ done (k, take k (contents n rb), after_read n rb k)
unfolding finish_read
finish_read-done n rb k retry s v h =
    let small : used n rb < n = span-lt n rb.head rb.old_tail v.head_in v.old_tail_in in
    let index : u32 (rb.head + k) % n ≡ wrap n (rb.head + k) =
      next_index n rb.head k s v.head_in (omega arith) in
    rw (fetch-window n rb.content rb.head k s v.head_in (omega arith), finish_read, ==_refl rb.head)
      (ap (λ xs. done (k, xs, record rb { head = u32 (rb.head + k) % n }))
          (sym (take-generate (λ i. rb.content (wrap n (rb.head + i))) k (used n rb) h))
        ∙ ap (λ i. done (k, take k (contents n rb), record rb { head = i })) index)

-- rb_read of at most `len` bytes: it returns at its first attempt, with as many of the bytes held
-- as fit, oldest first, and leaves the others.
pub rb_read-done :
    (n fuel : ℕ) (rb : Ring) (len : ℕ)
    → IsSize n
    → IsValid n rb
    → len < 2 ^ 31
    → let k = min len (used n rb) in
      rb_read n (suc fuel) rb len ≡ done (k, take k (contents n rb), after_read n rb k)
unfolding rb_read
rb_read-done n fuel rb len s v h =
    let small : used n rb < n = span-lt n rb.head rb.old_tail v.head_in v.old_tail_in in
    rw
      (
        read_size-eq-span n rb.head rb.old_tail s v.head_in v.old_tail_in,
        clip-eq-min (used n rb) len (omega arith) h,
      )
      (split (min len (used n rb)) (omega arith))
  where
    retry : ℕ → Run (ℕ × List ℕ × Ring)
    retry k = rb_read n fuel rb k

    split :
        (k : ℕ)
        → k ≤ used n rb
        → (if k == 0 then done (0, [], rb) else finish_read n rb rb.head k (retry k))
          ≡ done (k, take k (contents n rb), after_read n rb k)
    split zero p = ap (λ i. done (0, [], record rb { head = i })) (ground arith)
    split (suc k) p =
        rw (ne→==-false (suc k) 0 (omega arith))
          (finish_read-done n rb (suc k) (retry (suc k)) s v p)
