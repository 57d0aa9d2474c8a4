-- ===== src/Mpmc/Safety.antt =====
-- Any number of writers and readers, in every order of their steps.
use make_the_american_great.Prelude.{
  ℕ, ◌+◌, ◌-◌, ◌<◌, ◌≡◌, refl, ◌∙◌, ap, sym, ◌++◌, length, get_or, arith, generate, generate_ext,
  generate-add, generate-get_or, take-length,
}
use make_the_american_great.Ring.Inv.{IsSize, wrap, span, used, contents}
use make_the_american_great.Mpmc.{System, Turn, write, read, Reach, here, next, start}
use make_the_american_great.Mpmc.Position.{position, position-add, span-position}
use make_the_american_great.Mpmc.Inv.{Inv}
use make_the_american_great.Mpmc.Writing.{Write-Inv}
use make_the_american_great.Mpmc.Reading.{Read-Inv}

start-Inv : (n : ℕ) (content : ℕ → ℕ) → IsSize n → Inv n (start content)
start-Inv n content size = record {
  size = size;
  head = refl;
  old_tail = refl;
  tail = refl;
  behind = omega arith;
  within = omega arith;
  room = omega (arith, size.positive);
  same = λ x b. absurd (omega arith);
  held = λ x b c. absurd (omega arith);
  writers = λ i. tt;
  readers = λ i. tt;
  apart = λ i j ne b c. absurd (omega arith);
}

Turn-Inv : (n : ℕ) {s t : System} → Turn n s t → Inv n s → Inv n t
Turn-Inv n {s} (write i in_time st) inv =
    Write-Inv n s inv i (s.writer i) in_time st (inv.writers i)
      (λ j ne. inv.apart i j (λ e. ne (sym e)))
Turn-Inv n {s} (read i in_time st) inv = Read-Inv n s inv i (s.reader i) in_time st (inv.readers i)

pub Reach-Inv : (n : ℕ) (content : ℕ → ℕ) {s : System} → IsSize n → Reach n content s → Inv n s
Reach-Inv n content size here = start-Inv n content size
Reach-Inv n content size (next r st) = Turn-Inv n st (Reach-Inv n content size r)

module _ (n : ℕ) (s : System) (inv : Inv n s) where
  abbrev o : ℕ
  o = length s.received

  abbrev unread : ℕ
  unread = length s.sent - length s.received

  used-unread : used n s.ring ≡ unread
  used-unread =
      ap (span n s.ring.head) inv.old_tail
      ∙ ap (λ z. span n z (position n (length s.sent))) inv.head
      ∙ span-position n o (length s.sent) inv.behind (omega (arith, inv.within, inv.room))

  place : (i : ℕ) → i < unread → wrap n (s.ring.head + i) ≡ position n (o + i)
  place i b =
      ap (λ z. wrap n (z + i)) inv.head
      ∙ sym (position-add n o i (omega (arith, inv.within, inv.room)))

  pub received-contents : s.sent ≡ s.received ++ contents n s.ring
  received-contents =
      sym (take-length s.sent)
      ∙ sym (generate-get_or s.sent 0 (length s.sent) (omega arith))
      ∙ ap (generate (λ x. get_or s.sent x 0)) total
      ∙ generate-add (λ x. get_or s.sent x 0) o unread
      ∙ ap (λ xs. xs ++ generate (λ i. get_or s.sent (o + i) 0) unread) front
      ∙ ap (λ xs. s.received ++ xs) back
    where
      total : length s.sent ≡ o + unread
      total = omega (arith, inv.behind)

      front : generate (λ x. get_or s.sent x 0) o ≡ s.received
      front =
          generate_ext _ (λ x. get_or s.received x 0) o (λ x b. sym (inv.same x b))
          ∙ generate-get_or s.received 0 o (omega arith)
          ∙ take-length s.received

      back : generate (λ i. get_or s.sent (o + i) 0) unread ≡ contents n s.ring
      back =
          generate_ext _ _ unread (λ i b.
            sym (inv.held (o + i) (omega arith) (omega (arith, total)))
            ∙ ap s.ring.content (sym (place i b)))
          ∙ ap (generate (λ i. s.ring.content (wrap n (s.ring.head + i)))) (sym used-unread)

-- Any number of processes write to a new ring and read from it, and their shared accesses come in
-- any order in which no call is overtaken by n bytes between two of its loads, or a load and its
-- compare-and-swap. At every point the bytes that the reads have returned, in the order of their
-- ends, followed by those that the ring holds, are exactly the bytes of the writes that have ended,
-- in the order of theirs: none is lost, torn, repeated or out of order.
pub sent-received :
    (n : ℕ) (content : ℕ → ℕ) (s : System)
    → IsSize n
    → Reach n content s
    → s.sent ≡ s.received ++ contents n s.ring
sent-received n content s size r = received-contents n s (Reach-Inv n content size r)
