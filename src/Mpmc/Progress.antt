-- ===== src/Mpmc/Progress.antt =====
-- The writers on one ring that are not overtaken by a whole round do not block each other.
use mathlib.Core.Path.{subst}
use make_the_american_great.Prelude.{
  ℕ, ◌+◌, ◌<◌, ◌≡◌, ◌≢◌, refl, ◌∙◌, ap, sym, List, [], ◌++◌, length, take, arith, inl, inr,
  length-append, length-generate, generate, generate-get_or, get_or, le_cases,
}
use make_the_american_great.Ring.{Ring}
use make_the_american_great.Ring.Inv.{IsSize}
use make_the_american_great.Spsc.{
  WriterPc, Write, swapping, storing, waiting, call, load_head, load_tail, full, has_room,
  take_tail, lose_tail, put, stored, wait, publish,
}
use make_the_american_great.Spsc.Writers.Progress.{Advances}
use make_the_american_great.Mpmc.{
  System, Process, wrote, gained, WriterInTime, write, read, Reach, here, next,
}
use make_the_american_great.Mpmc.Position.{position, position-inj}
use make_the_american_great.Mpmc.Inv.{Inv, WriterInv, extent, extent-IsReserved}
use make_the_american_great.Mpmc.Safety.{Reach-Inv}
use make_the_american_great.Mpmc.Chained.{Chained, Next, same-Next, reserved-Next, published-Next}

same_length : (xs : List ℕ) → length (xs ++ []) ≡ length xs
same_length xs = length-append xs [] ∙ omega arith

module _ (n : ℕ) (s : System) (inv : Inv n s) (c : Chained s) (i : ℕ) where
  abbrev me : Process WriterPc
  me = s.writer i

  -- A step that reserves nothing and makes nothing readable.
  quiet_step :
      (w : Process WriterPc)
      → extent w.pc ≡ extent me.pc
      → (0 < extent w.pc → w.tail_seen ≡ me.tail_seen)
      → Next s c i w (length (s.sent ++ [])) (s.reserved + 0)
  quiet_step w e t =
      same-Next s c i w (length (s.sent ++ [])) (s.reserved + 0) (same_length s.sent) (omega arith)
        e t

  Write-Next :
      {pc pc' : WriterPc} {rb' : Ring} {bytes : List ℕ}
      → WriterInTime n s me pc
      → Write n s.ring pc rb' pc' bytes
      → WriterInv n (length s.received) (length s.sent) s.reserved s.ring.content me pc
      → me.pc ≡ pc
      → Next s c i (wrote s me pc') (length (s.sent ++ bytes)) (s.reserved + gained pc pc')
  Write-Next {pc} {pc'} in_time (call int long) v at =
      quiet_step (wrote s me pc') (ap extent (sym at)) (λ b. refl)
  Write-Next {pc} {pc'} in_time load_head v at =
      quiet_step (wrote s me pc') (ap extent (sym at)) (λ b. refl)
  Write-Next {pc} {pc'} in_time load_tail v at =
      quiet_step (wrote s me pc') (ap extent (sym at)) (λ b. absurd (omega arith))
  Write-Next {pc} {pc'} in_time (full e) v at =
      quiet_step (wrote s me pc') (ap extent (sym at)) (λ b. refl)
  Write-Next {pc} {pc'} in_time (has_room e) v at =
      quiet_step (wrote s me pc') (ap extent (sym at)) (λ b. refl)
  Write-Next {pc} {pc'} in_time (take_tail {input} {t} {k} same) v at =
      reserved-Next s c i (wrote s me pc') (length (s.sent ++ [])) (s.reserved + k)
        (same_length s.sent) (ap extent at) v.3
        (position-inj n me.tail_seen s.reserved v.2 in_time (sym v.1 ∙ sym same ∙ inv.tail)) refl
  Write-Next {pc} {pc'} in_time (lose_tail lost) v at =
      quiet_step (wrote s me pc') (ap extent (sym at)) (λ b. refl)
  Write-Next {pc} {pc'} in_time (put below) v at =
      quiet_step (wrote s me pc') (ap extent (sym at)) (λ b. refl)
  Write-Next {pc} {pc'} in_time stored v at =
      quiet_step (wrote s me pc') (ap extent (sym at)) (λ b. refl)
  Write-Next {pc} {pc'} in_time (wait other) v at =
      quiet_step (wrote s me pc') (ap extent (sym at)) (λ b. refl)
  Write-Next {pc} {pc'} in_time (publish {input} {t} {k} same) v at =
      let r = v.0 in
      let mine : extent me.pc ≡ k = ap extent at in
      let bytes : generate (λ j. get_or input j 0) k ≡ take k input =
        generate-get_or input 0 k v.2 in
      let long : length (take k input) ≡ k =
        ap length (sym bytes) ∙ length-generate (λ j. get_or input j 0) k in
      published-Next s c i (wrote s me pc') (length (s.sent ++ take k input)) (s.reserved + 0)
        (omega arith)
        (sym (
          position-inj n (length s.sent) me.tail_seen r.low
            (omega (arith, r.high, r.some_bytes, inv.room, inv.behind))
            (sym inv.old_tail ∙ same ∙ v.1)))
        (omega (arith, mine, r.some_bytes)) refl
        (length-append s.sent (take k input) ∙ omega (arith, long, mine))
        (λ j b.
          (extent-IsReserved n (length s.received) (length s.sent) s.reserved s.ring.content
            (s.writer j) (s.writer j).pc (inv.writers j) b).low)

Reach-Chained : (n : ℕ) (content : ℕ → ℕ) {s : System} → IsSize n → Reach n content s → Chained s
Reach-Chained n content size here = record { front = inl refl; ends = λ i b. absurd (omega arith) }
Reach-Chained n content size (next {s} r (write i in_time st)) =
    let inv : Inv n s = Reach-Inv n content size r in
    let out =
      Write-Next n s inv (Reach-Chained n content size r) i in_time st (inv.writers i) refl in
    record { front = out.0; ends = out.1 }
Reach-Chained n content size (next {s} r (read i in_time st)) =
    let c : Chained s = Reach-Chained n content size r in record { front = c.front; ends = c.ends }

-- The writer whose bytes come first does not have to wait.
first-Advances :
    (n : ℕ) (rb : Ring) (o p q : ℕ) (w : Process WriterPc) (pc : WriterPc)
    → WriterInv n o p q rb.content w pc
    → 0 < extent pc
    → rb.old_tail ≡ position n p
    → w.tail_seen ≡ p
    → Advances n rb pc
first-Advances n rb o p q w WriterPc.resting v b at e = absurd (omega arith)
first-Advances n rb o p q w (WriterPc.started input len) v b at e = absurd (omega arith)
first-Advances n rb o p q w (WriterPc.saw_head input len h) v b at e = absurd (omega arith)
first-Advances n rb o p q w (WriterPc.saw_tail input len h t) v b at e = absurd (omega arith)
first-Advances n rb o p q w (swapping input t k) v b at e = absurd (omega arith)
first-Advances n rb o p q w (storing input t k x) v b at e = elim (le_cases k x) [
  | inl last ↦
      let same : k ≡ x = omega (arith, v.3) in
      subst (λ y. Advances n rb (storing input t k y)) same
        (rb, waiting input t k, [], stored, omega arith)
  | inr more ↦ (_, storing input t k (x + 1), [], put more, omega arith)
]
first-Advances n rb o p q w (waiting input t k) v b at e = (
  _,
  WriterPc.resting,
  take k input,
  publish (at ∙ ap (position n) (sym e) ∙ sym v.1),
  omega arith,
)

-- Any number of processes write to a new ring and read from it, and their shared accesses come in
-- any order in which no call is overtaken by n bytes. Whenever bytes are reserved that are not
-- readable yet, some writer can make a step that brings its call nearer to its end: the writers
-- never all wait for each other.
pub some_writer_goes_on :
    (n : ℕ) (content : ℕ → ℕ) (s : System)
    → IsSize n
    → Reach n content s
    → s.ring.old_tail ≢ s.ring.tail
    → (i : ℕ) × Advances n s.ring (s.writer i).pc
some_writer_goes_on n content s size r unpublished =
    let inv : Inv n s = Reach-Inv n content size r in
    elim (Reach-Chained n content size r).front [
      | inl e ↦ absurd (unpublished (inv.old_tail ∙ ap (position n) e ∙ sym inv.tail))
      | inr (i, b, e) ↦ (
        i,
        first-Advances n s.ring (length s.received) (length s.sent) s.reserved (s.writer i)
            (s.writer i).pc (inv.writers i) b inv.old_tail e,
      )
    ]
