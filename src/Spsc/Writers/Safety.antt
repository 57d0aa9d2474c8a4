-- ===== src/Spsc/Writers/Safety.antt =====
-- Any number of writers on one ring, in every order of their steps.
use mathlib.Core.List.{append-nil}
use make_the_american_great.Prelude.{ℕ, ◌≡◌, ap, sym, [], ◌++◌, arith}
use make_the_american_great.Ring.{Ring}
use make_the_american_great.Ring.Inv.{IsSize, IsQuiet, span, contents}
use make_the_american_great.Spsc.{WriterPc}
use make_the_american_great.Spsc.Writers.{Writers, turn, Reach, here, next}
use make_the_american_great.Spsc.Writers.Apart.{Inv}
use make_the_american_great.Spsc.Writers.Steps.{Write-Inv}

start-Inv :
    (n : ℕ) (rb : Ring)
    → IsQuiet n rb
    → Inv n rb (record { ring = rb; writer = λ i. WriterPc.resting; sent = [] })
start-Inv n rb q = record {
  valid = q.valid;
  behind = omega (arith, ap (span n rb.head) q.published);
  sound = λ i. tt;
  apart = λ i j ne p. absurd (omega arith);
  kept = sym (append-nil (contents n rb));
}

pub Reach-Inv :
    (n : ℕ) (rb : Ring) {s : Writers} → IsSize n → IsQuiet n rb → Reach n rb s → Inv n rb s
Reach-Inv n rb size quiet here = start-Inv n rb quiet
Reach-Inv n rb size quiet (next {s} r (turn i step)) =
    let inv : Inv n rb s = Reach-Inv n rb size quiet r in
    Write-Inv n rb s size inv i step (inv.sound i) (λ j ne. inv.apart i j (λ e. ne (sym e)))

-- Any number of processes write to a ring at once while none reads, and their shared accesses come
-- in any order. At every point the ring holds exactly what it held at the beginning, followed by
-- the bytes of the writes that have ended, in the order in which they ended: no write is torn, lost
-- or mixed with another.
pub contents-then-sent :
    (n : ℕ) (rb : Ring) (s : Writers)
    → IsSize n
    → IsQuiet n rb
    → Reach n rb s
    → contents n s.ring ≡ contents n rb ++ s.sent
contents-then-sent n rb s size quiet r = (Reach-Inv n rb size quiet r).kept
