-- ===== src/Spsc/Reserved.antt =====
-- What one writer has reserved on a ring: where its bytes go, and the ring after them.
use make_the_american_great.Prelude.{
  ℕ, ◌+◌, ◌-◌, ◌%◌, ◌^◌, ◌<◌, ◌≡◌, ◌≢◌, ap, ◌∙◌, sym, List, ◌++◌, get_or, take, u32, arith, update,
  update_self, update_ne, generate, generate_ext, generate-add, generate-get_or, min, inl, inr,
  le_cases,
}
use make_the_american_great.Ring.{Ring, write_size, clip}
use make_the_american_great.Ring.Inv.{
  IsSize, IsValid, wrap, span, used, contents, write_size-eq, clip-eq-min,
}
use make_the_american_great.Ring.Read.{next_index}
use make_the_american_great.Spsc.{copy_index, storing}
use make_the_american_great.Spsc.Inv.{copy_index-wrap, IsReserved, WriterInv}

-- What the writer computes as its length is at most the room that there is.
pub clip-write_size :
    (n h t len : ℕ)
    → IsSize n
    → h < n
    → t < n
    → len < 2 ^ 31
    → clip (write_size n h t) len ≡ min len (n - 1 - span n h t)
clip-write_size n h t len s p q l =
    ap (λ z. clip z len) (write_size-eq n h t s p q)
    ∙ clip-eq-min (n - 1 - span n h t) len (omega (arith, s.small)) l

pub wrap-lt : (n a : ℕ) → a < n + n → wrap n a < n
wrap-lt n a h = ground arith

pub span-grown :
    (n h t k : ℕ) → h < n → t < n → k + span n h t < n → span n h (wrap n (t + k)) ≡ span n h t + k
span-grown n h t k p q r = ground arith

-- Byte i of what is reserved lies behind everything that is readable.
pub reserved-ne :
    (n h t k i j : ℕ)
    → h < n
    → t < n
    → k + span n h t < n
    → i < k
    → j < span n h t
    → wrap n (h + j) ≢ wrap n (t + i)
reserved-ne n h t k i j p q r a b e = ground arith

pub other_byte : (n t k i j : ℕ) → t < n → k < n → i < k → j < i → wrap n (t + j) ≢ wrap n (t + i)
other_byte n t k i j p q a b e = ground arith

module _ (n : ℕ) (rb : Ring) (size : IsSize n) (valid : IsValid n rb) (input : List ℕ) (t k : ℕ)
    (r : IsReserved n rb input t k) where
  pub t_in : t < n
  t_in = rw (← r.at_old) valid.old_tail_in

  -- The ring after byte i has been copied.
  abbrev copied : ℕ → Ring
  copied i = record rb { content = update rb.content (copy_index n t k i) (get_or input i 0) }

  module _ (i : ℕ) (below : i < k) where
    index : copy_index n t k i ≡ wrap n (t + i)
    index = copy_index-wrap n t k i size t_in (omega (arith, r.apart)) below

    -- The copy changes nothing that is readable.
    pub readable_kept :
        (j : ℕ)
        → j < used n rb
        → (copied i).content (wrap n (rb.head + j)) ≡ rb.content (wrap n (rb.head + j))
    readable_kept j h =
        let inside : j < span n rb.head t = rw (← r.at_old) h in
        update_ne rb.content (copy_index n t k i) (get_or input i 0) (wrap n (rb.head + j))
          (λ e. reserved-ne n rb.head t k i j valid.head_in t_in r.apart below inside (e ∙ index))

    pub contents-copied : contents n (copied i) ≡ contents n rb
    contents-copied = generate_ext _ _ (used n rb) readable_kept

    pub copied-WriterInv :
        ((j : ℕ) → j < i → rb.content (wrap n (t + j)) ≡ get_or input j 0)
        → WriterInv n (copied i) (storing input t k (i + 1))
    copied-WriterInv done_before = (
      record {
        at_old = r.at_old;
        moved = r.moved;
        some_bytes = r.some_bytes;
        given = r.given;
        apart = r.apart;
      },
      omega arith,
      λ j h. elim (le_cases i j) [
        | inl last ↦
            let same : j ≡ i = omega arith in
            ap (copied i).content (ap (λ z. wrap n (t + z)) same ∙ sym index)
            ∙ update_self rb.content (copy_index n t k i) (get_or input i 0)
            ∙ ap (λ z. get_or input z 0) (sym same)
        | inr early ↦
            update_ne rb.content (copy_index n t k i) (get_or input i 0) (wrap n (t + j))
              (λ e. other_byte n t k i j t_in (omega (arith, r.apart)) below early (e ∙ index))
            ∙ done_before j early
      ],
    )

  -- The ring after the write has ended.
  abbrev ended : Ring
  ended = record rb { old_tail = u32 (t + k) % n }

  pub new_tail : u32 (t + k) % n ≡ wrap n (t + k)
  new_tail = next_index n t k size t_in (omega (arith, r.apart))

  pub used-ended : used n ended ≡ used n rb + k
  used-ended =
      ap (span n rb.head) new_tail
      ∙ span-grown n rb.head t k valid.head_in t_in r.apart
      ∙ ap (λ z. span n rb.head z + k) (sym r.at_old)

  pub contents-ended :
      ((j : ℕ) → j < k → rb.content (wrap n (t + j)) ≡ get_or input j 0)
      → contents n ended ≡ contents n rb ++ take k input
  contents-ended all =
      ap (generate (λ i. rb.content (wrap n (rb.head + i)))) used-ended
      ∙ generate-add (λ i. rb.content (wrap n (rb.head + i))) (used n rb) k
      ∙ ap (λ xs. contents n rb ++ xs)
          (generate_ext _ (λ i. get_or input i 0) k (λ i h. ap rb.content (place i h) ∙ all i h)
            ∙ generate-get_or input 0 k r.given)
    where
      place : (i : ℕ) → i < k → wrap n (rb.head + (used n rb + i)) ≡ wrap n (t + i)
      place i h =
          let at : rb.old_tail ≡ t = r.at_old in ground (arith, r.apart, valid.head_in, t_in)
