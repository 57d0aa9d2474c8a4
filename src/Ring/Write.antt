-- ===== src/Ring/Write.antt =====
-- rb_write on a well-formed ring with no write under way.
use mathlib.Core.List.{append-nil}
use make_the_american_great.Prelude.{
  ℕ, zero, suc, ◌+◌, ◌-◌, ◌^◌, ◌≤◌, ◌<◌, ◌≡◌, refl, ap, ◌∙◌, some, List, ◌++◌, min, arith, take,
  generate, generate_ext, generate-add, generate-get_or, get_or, length, ◌==◌, if◌then◌else◌,
  ==_refl, ne→==-false, Mem, sym,
}
use make_the_american_great.Run.{Run, done}
use make_the_american_great.Ring.{Ring, rb_write, finish_write, reserve, publish, store, write_size}
use make_the_american_great.Ring.Inv.{
  IsSize, IsValid, IsQuiet, used, contents, wrap, span, write_size-eq, clip-eq-min,
}
use make_the_american_great.Ring.Read.{next_index}
use make_the_american_great.Ring.Copy.{Stored, store-Stored}

-- The bytes that rb_write takes.
abbrev pub room : ℕ → Ring → ℕ
room n rb = n - 1 - used n rb

-- The ring after k bytes have been written, which leaves the data area `m`.
abbrev pub after_write : ℕ → Ring → ℕ → Mem → Ring
after_write n rb k m = record {
  head = rb.head;
  tail = wrap n (rb.tail + k);
  old_tail = wrap n (rb.tail + k);
  content = m;
}

pub after_write-IsQuiet :
    (n : ℕ) (rb : Ring) (k : ℕ) (m : Mem) → IsValid n rb → k < n → IsQuiet n (after_write n rb k m)
after_write-IsQuiet n rb k m v h = ground arith

module _ (n : ℕ) (rb : Ring) (q : IsQuiet n rb) (k : ℕ) (fits : k ≤ room n rb) where
  open q use {valid, published}
  open valid use {head_in, tail_in, old_tail_in}

  used-after_write : (m : Mem) → used n (after_write n rb k m) ≡ used n rb + k
  used-after_write m = ground arith

  -- Index i of the new contents, for the bytes that were there and for the new ones.
  old_index :
      (i : ℕ) → i < used n rb → wrap n (rb.head + i) ≡ wrap n (rb.tail + (i + n - used n rb))
  old_index i h = ground arith

  new_index : (i : ℕ) → i < k → wrap n (rb.head + (used n rb + i)) ≡ wrap n (rb.tail + i)
  new_index i h = ground arith

  pub contents-after_write :
      (m : Mem) (input : List ℕ)
      → k ≤ length input
      → Stored n rb.content rb.tail input k m
      → contents n (after_write n rb k m) ≡ contents n rb ++ take k input
  contents-after_write m input long st =
      ap (generate (λ i. m (wrap n (rb.head + i)))) (used-after_write m)
      ∙ generate-add (λ i. m (wrap n (rb.head + i))) (used n rb) k
      ∙ ap (λ xs. xs ++ generate (λ i. m (wrap n (rb.head + (used n rb + i)))) k)
          (generate_ext _ (λ i. rb.content (wrap n (rb.head + i))) (used n rb)
            (λ i h. rw (old_index i h) (st.kept (i + n - used n rb) (omega arith) (omega arith))))
      ∙ ap (λ xs. contents n rb ++ xs)
          (generate_ext _ (λ i. get_or input i 0) k (λ i h. rw (new_index i h) (st.new i h))
            ∙ generate-get_or input 0 k long)

-- What a completed rb_write of `input`, with k bytes taken, comes to.
pub record Wrote (n : ℕ) (rb : Ring) (input : List ℕ) (k : ℕ) (r : Run (ℕ × Ring)) : Type 0 where
  pub rb' : Ring
  pub returns : r ≡ done (k, rb')
  pub quiet : IsQuiet n rb'
  pub same_head : rb'.head ≡ rb.head
  pub appended : contents n rb' ≡ contents n rb ++ take k input

publish-done :
    (fuel : ℕ) (rb : Ring) (t t' k : ℕ)
    → rb.old_tail ≡ t
    → publish (suc fuel) rb t t' k ≡ done (k, record rb { old_tail = t' })
unfolding publish
publish-done fuel rb t t' k e = ground arith

pub finish_write-done :
    (n fuel : ℕ) (rb : Ring) (t t' k : ℕ) (input : List ℕ) (m : Mem)
    → store n rb.content t input k ≡ some m
    → rb.old_tail ≡ t
    → finish_write n (suc fuel) rb t t' k input ≡ done (k, record rb { content = m; old_tail = t' })
unfolding finish_write
finish_write-done n fuel rb t t' k input m copied e =
    rw (copied, finish_write) (publish-done fuel (record rb { content = m }) t t' k e)

pub reserve-done :
    (n fuel : ℕ) (rb : Ring) (k : ℕ) (input : List ℕ) (retry : Run (ℕ × Ring))
    → IsSize n
    → rb.tail < n
    → k < n
    → reserve n fuel rb rb.tail k input retry
      ≡ finish_write n fuel
          (record rb { tail = wrap n (rb.tail + k) })
          rb.tail
          (wrap n (rb.tail + k))
          k
          input
unfolding reserve
reserve-done n fuel rb k input retry s p q = rw (==_refl rb.tail) (
    ap (λ t. finish_write n fuel (record rb { tail = t }) rb.tail t k input)
      (next_index n rb.tail k s p q))

reserve-Wrote :
    (n fuel : ℕ) (rb : Ring) (k : ℕ) (input : List ℕ) (retry : Run (ℕ × Ring))
    → IsSize n
    → IsQuiet n rb
    → k ≤ room n rb
    → k ≤ length input
    → Wrote n rb input k (reserve n (suc fuel) rb rb.tail k input retry)
reserve-Wrote n fuel rb k input retry s q fits long =
    let v = q.valid in
    let small : k < n = omega (arith, s.positive) in
    let (m, copied, stored) = store-Stored n rb.content rb.tail input k s v.tail_in small long in
    let t : ℕ = wrap n (rb.tail + k) in
    record {
      rb' = after_write n rb k m;
      returns =
          reserve-done n (suc fuel) rb k input retry s v.tail_in small
          ∙ finish_write-done n fuel (record rb { tail = t }) rb.tail t k input m copied
              q.published;
      quiet = after_write-IsQuiet n rb k m v small;
      same_head = refl;
      appended = contents-after_write n rb q k fits m input long stored;
    }

-- rb_write of `len` bytes with no other write under way: it returns at its first attempt, takes as
-- many of the bytes as there is room for, and appends exactly those to what the ring holds.
pub rb_write-Wrote :
    (n fuel : ℕ) (rb : Ring) (len : ℕ) (input : List ℕ)
    → IsSize n
    → IsQuiet n rb
    → len < 2 ^ 31
    → len ≤ length input
    → Wrote n rb input (min len (room n rb)) (rb_write n (suc fuel) rb len input)
unfolding rb_write
rb_write-Wrote n fuel rb len input s q h long =
    let v = q.valid in
    let size : write_size n rb.head rb.tail ≡ room n rb =
      write_size-eq n rb.head rb.tail s v.head_in v.tail_in
      ∙ ap (λ t. n - 1 - span n rb.head t) (sym q.published) in
    rw (size, clip-eq-min (room n rb) len (omega (arith, s.small)) h)
      (split (min len (room n rb)) (omega arith) (omega arith))
  where
    split :
        (k : ℕ)
        → k ≤ room n rb
        → k ≤ length input
        → Wrote n rb input k (
            if k == 0
            then done (0, rb)
            else reserve n (suc fuel) rb rb.tail k input (rb_write n fuel rb k input))
    split zero p l = record {
      rb' = rb;
      returns = refl;
      quiet = q;
      same_head = refl;
      appended = sym (append-nil (contents n rb));
    }
    split (suc k) p l =
        rw (ne→==-false (suc k) 0 (omega arith))
          (reserve-Wrote n fuel rb (suc k) input (rb_write n fuel rb (suc k) input) s q p l)
