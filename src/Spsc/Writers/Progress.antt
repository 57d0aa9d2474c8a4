-- ===== src/Spsc/Writers/Progress.antt =====
-- Several writers on one ring do not block each other.
use mathlib.Core.Path.{subst}
use make_the_american_great.Prelude.{
  ℕ, ◌+◌, ◌<◌, ◌≡◌, ◌≢◌, sym, List, [], take, arith, inl, inr, le_cases,
}
use make_the_american_great.Ring.{Ring}
use make_the_american_great.Ring.Inv.{IsSize, IsQuiet, used}
use make_the_american_great.Spsc.{WriterPc, Write, swapping, storing, waiting, put, stored, publish}
use make_the_american_great.Spsc.Progress.{write_steps}
use make_the_american_great.Spsc.Writers.{Writers, Reach}
use make_the_american_great.Spsc.Writers.Apart.{extent, IsSound, Inv}
use make_the_american_great.Spsc.Writers.Moved.{tail_at}
use make_the_american_great.Spsc.Writers.Safety.{Reach-Inv}
use make_the_american_great.Spsc.Writers.Chained.{Reach-Chained}

-- A writer at pc can make a step that brings its call nearer to its end.
abbrev pub Advances : ℕ → Ring → WriterPc → Type 0
Advances n rb pc =
    (rb' : Ring) × (pc' : WriterPc) × (bytes : List ℕ) × Write n rb pc rb' pc' bytes
    × (write_steps pc' < write_steps pc)

-- The writer whose bytes begin at old_tail does not have to wait.
first-Advances :
    (n : ℕ) (rb : Ring) (h u z : ℕ) (pc : WriterPc)
    → IsSound n h u z rb.content pc
    → 0 < (extent pc).1
    → (extent pc).0 ≡ rb.old_tail
    → Advances n rb pc
first-Advances n rb h u z WriterPc.resting w p e = absurd (omega arith)
first-Advances n rb h u z (WriterPc.started input len) w p e = absurd (omega arith)
first-Advances n rb h u z (WriterPc.saw_head input len g) w p e = absurd (omega arith)
first-Advances n rb h u z (WriterPc.saw_tail input len g t) w p e = absurd (omega arith)
first-Advances n rb h u z (swapping input t k) w p e = absurd (omega arith)
first-Advances n rb h u z (storing input t k x) w p e = elim (le_cases k x) [
  | inl last ↦
      let same : k ≡ x = omega (arith, w.2) in
      subst (λ y. Advances n rb (storing input t k y)) same
        (rb, waiting input t k, [], stored, omega arith)
  | inr more ↦ (_, storing input t k (x + 1), [], put more, omega arith)
]
first-Advances n rb h u z (waiting input t k) w p e =
    (_, WriterPc.resting, take k input, publish (sym e), omega arith)

-- Any number of processes write to a ring at once while none reads, and their shared accesses come
-- in any order. Whenever bytes are reserved that are not readable yet, some writer can make a step
-- that brings its call nearer to its end: the writers never all wait for each other.
pub writers_go_on :
    (n : ℕ) (rb : Ring) (s : Writers)
    → IsSize n
    → IsQuiet n rb
    → Reach n rb s
    → s.ring.old_tail ≢ s.ring.tail
    → (i : ℕ) × Advances n s.ring (s.writer i)
writers_go_on n rb s size quiet r unpublished =
    let inv : Inv n rb s = Reach-Inv n rb size quiet r in
    elim (Reach-Chained n rb size quiet r).front [
      | inl e ↦ absurd (unpublished e)
      | inr (i, p, e) ↦ (
        i,
        first-Advances n s.ring s.ring.head (used n s.ring) (tail_at n s.ring) (s.writer i)
            (inv.sound i) p e,
      )
    ]
