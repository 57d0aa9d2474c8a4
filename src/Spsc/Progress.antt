-- ===== src/Spsc/Progress.antt =====
-- How many steps of its own a call still needs.
use mathlib.Core.Path.{subst}
use make_the_american_great.Prelude.{
  ℕ, ◌+◌, ◌-◌, ◌<◌, ◌≡◌, ◌≢◌, sym, List, [], ◌∷◌, ◌++◌, length, take, arith, ◌⊎◌, inl, inr,
  le_cases, length-append,
}
use make_the_american_great.Ring.{Ring, read_size, write_size, clip}
use make_the_american_great.Ring.Inv.{IsSize, IsValid}
use make_the_american_great.Spsc.{
  WriterPc, ReaderPc, System, Write, Read, Reach, copy_index, swapping, storing, waiting, loading,
  full, has_room, take_tail, lose_tail, put, stored, wait, publish, empty, has_bytes, get,
  take_head, lose_head,
}
use make_the_american_great.Spsc.Inv.{WriterInv, ReaderInv, Inv}
use make_the_american_great.Spsc.Reserved.{clip-write_size}
use make_the_american_great.Spsc.Reading.{clip-read_size}
use make_the_american_great.Spsc.Safety.{Reach-Inv}

-- An upper bound of the steps until the call ends, 0 between calls.
abbrev pub write_steps : WriterPc → ℕ
write_steps WriterPc.resting = 0
write_steps (WriterPc.started input len) = len + 6
write_steps (WriterPc.saw_head input len h) = len + 5
write_steps (WriterPc.saw_tail input len h t) = len + 4
write_steps (swapping input t k) = k + 3
write_steps (storing input t k i) = k - i + 2
write_steps (waiting input t k) = 1

abbrev pub read_steps : ReaderPc → ℕ
read_steps ReaderPc.resting = 0
read_steps (ReaderPc.started len) = len + 6
read_steps (ReaderPc.saw_head len h) = len + 5
read_steps (ReaderPc.saw_tail len h o) = len + 4
read_steps (loading h k got) = k - length got + 2

-- The writer can go on.
abbrev pub WriterGoesOn : ℕ → System → Type 0
WriterGoesOn n s =
    (rb : Ring) × (pc : WriterPc) × (bytes : List ℕ) × Write n s.ring s.writer rb pc bytes

abbrev pub ReaderGoesOn : ℕ → System → Type 0
ReaderGoesOn n s =
    (rb : Ring) × (pc : ReaderPc) × (bytes : List ℕ) × Read n s.ring s.reader rb pc bytes

zero_or_not : (a : ℕ) → (a ≡ 0) ⊎ (a ≢ 0)
zero_or_not a = omega arith

module _ (n : ℕ) (rb : Ring) (size : IsSize n) (valid : IsValid n rb) where
  writer_can :
      (pc : WriterPc)
      → WriterInv n rb pc
      → 0 < write_steps pc
      → (rb' : Ring) × (pc' : WriterPc) × (bytes : List ℕ) × Write n rb pc rb' pc' bytes
  writer_can WriterPc.resting w busy = absurd (omega arith)
  writer_can (WriterPc.started input len) w busy =
      (rb, WriterPc.saw_head input len rb.head, [], Write.load_head)
  writer_can (WriterPc.saw_head input len h) w busy =
      (rb, WriterPc.saw_tail input len h rb.tail, [], Write.load_tail)
  writer_can (WriterPc.saw_tail input len h t) w busy =
      elim (zero_or_not (clip (write_size n h t) len)) [
        | inl e ↦ (rb, WriterPc.resting, [], full e)
        | inr e ↦ (rb, swapping input t (clip (write_size n h t) len), [], has_room e)
      ]
  writer_can (swapping input t k) w busy = (_, storing input t k 0, [], take_tail (sym w.1))
  writer_can (storing input t k i) w busy = elim (le_cases k i) [
    | inl last ↦
        let same : k ≡ i = omega (arith, w.1) in
        subst
          (λ z.
            (rb' : Ring) × (pc' : WriterPc) × (bytes : List ℕ) × Write n rb (storing input t k z)
              rb' pc' bytes)
          same (rb, waiting input t k, [], stored)
    | inr more ↦ (_, storing input t k (i + 1), [], put more)
  ]
  writer_can (waiting input t k) w busy = (_, WriterPc.resting, take k input, publish w.0.at_old)

  Write-less :
      {pc pc' : WriterPc} {rb' : Ring} {bytes : List ℕ}
      → Write n rb pc rb' pc' bytes
      → WriterInv n rb pc
      → 0 < write_steps pc
      → write_steps pc' < write_steps pc
  Write-less (Write.call int long) w busy = absurd (omega arith)
  Write-less Write.load_head w busy = omega arith
  Write-less Write.load_tail w busy = omega arith
  Write-less (full e) w busy = omega arith
  Write-less (has_room {input} {len} {h} {t} e) w busy =
      let t_in : t < n = omega (arith, w.3, valid.tail_in) in
      omega (arith, clip-write_size n h t len size w.2 t_in w.1.0)
  Write-less (take_tail e) w busy = omega arith
  Write-less (lose_tail lost) w busy = absurd (lost (sym w.1))
  Write-less (put more) w busy = omega arith
  Write-less stored w busy = omega arith
  Write-less (wait other) w busy = absurd (other w.0.at_old)
  Write-less (publish e) w busy = omega arith

  reader_can :
      (pc : ReaderPc)
      → ReaderInv n rb pc
      → 0 < read_steps pc
      → (rb' : Ring) × (pc' : ReaderPc) × (bytes : List ℕ) × Read n rb pc rb' pc' bytes
  reader_can ReaderPc.resting r busy = absurd (omega arith)
  reader_can (ReaderPc.started len) r busy = (rb, ReaderPc.saw_head len rb.head, [], Read.load_head)
  reader_can (ReaderPc.saw_head len h) r busy =
      (rb, ReaderPc.saw_tail len h rb.old_tail, [], Read.load_tail)
  reader_can (ReaderPc.saw_tail len h o) r busy = elim (zero_or_not (clip (read_size n h o) len)) [
    | inl e ↦ (rb, ReaderPc.resting, [], empty e)
    | inr e ↦ (rb, loading h (clip (read_size n h o) len) [], [], has_bytes e)
  ]
  reader_can (loading h k got) r busy = elim (le_cases k (length got)) [
    | inl last ↦ (_, ReaderPc.resting, got, take_head (omega (arith, r.3)) (sym r.0))
    | inr more ↦
        (rb, loading h k (got ++ (rb.content (copy_index n h k (length got)) ∷ [])), [], get more)
  ]

  Read-less :
      {pc pc' : ReaderPc} {rb' : Ring} {bytes : List ℕ}
      → Read n rb pc rb' pc' bytes
      → ReaderInv n rb pc
      → 0 < read_steps pc
      → read_steps pc' < read_steps pc
  Read-less (Read.call int) r busy = absurd (omega arith)
  Read-less Read.load_head r busy = omega arith
  Read-less Read.load_tail r busy = omega arith
  Read-less (empty e) r busy = omega arith
  Read-less (has_bytes {len} {h} {o} e) r busy =
      let h_in : h < n = omega (arith, r.1, valid.head_in) in
      omega (arith, clip-read_size n h o len size h_in r.2 r.0)
  Read-less (get {h} {k} {got} more) r busy =
      omega (arith, length-append {0} got (rb.content (copy_index n h k (length got)) ∷ []))
  Read-less (take_head long e) r busy = omega arith
  Read-less (lose_head long lost) r busy = absurd (lost (sym r.0))

-- With one writer and one reader no call waits for the other process: at every reachable point a
-- call that has begun can go on, and each step of it, whichever it is, brings it nearer to its end,
-- which is at most len + 6 steps from its beginning. The steps of the other process do not count.
pub calls_end :
    (n : ℕ) (content : ℕ → ℕ) (s : System)
    → IsSize n
    → Reach n content s
    → (0 < write_steps s.writer → WriterGoesOn n s)
      × ((rb : Ring) (pc : WriterPc) (bytes : List ℕ)
          → Write n s.ring s.writer rb pc bytes
          → 0 < write_steps s.writer
          → write_steps pc < write_steps s.writer)
      × (0 < read_steps s.reader → ReaderGoesOn n s)
      × ((rb : Ring) (pc : ReaderPc) (bytes : List ℕ)
          → Read n s.ring s.reader rb pc bytes
          → 0 < read_steps s.reader
          → read_steps pc < read_steps s.reader)
calls_end n content s size r =
    let inv : Inv n s = Reach-Inv n content size r in
    (
      writer_can n s.ring size inv.valid s.writer inv.writing,
      λ rb pc bytes w. Write-less n s.ring size inv.valid w inv.writing,
      reader_can n s.ring size inv.valid s.reader inv.reading,
      λ rb pc bytes q. Read-less n s.ring size inv.valid q inv.reading,
    )
