-- ===== src/Spsc/Readers.antt =====
-- rb_read of release/RingBuffer.cpp in any number of processes at once, one shared access at a
-- time, while no process writes.
mod Tests
use mathlib.Core.Path.{subst}
use mathlib.Core.List.{append-nil, append_assoc}
use make_the_american_great.Prelude.{
  ℕ, ◌+◌, ◌%◌, ◌^◌, ◌<◌, ◌≤◌, ◌≡◌, refl, ap, ◌∙◌, sym, List, [], ◌∷◌, ◌++◌, length, get_or, u32,
  arith, update, update-cases, length-append, inl, inr,
}
use make_the_american_great.Ring.{Ring, read_size, clip}
use make_the_american_great.Ring.Inv.{IsSize, IsValid, wrap, span, span-lt, used, contents}
use make_the_american_great.Ring.Read.{next_index}
use make_the_american_great.Spsc.{
  ReaderPc, copy_index, Read, started, saw_head, saw_tail, loading, call, load_head, load_tail,
  empty, has_bytes, get, take_head, lose_head,
}
use make_the_american_great.Spsc.Inv.{copy_index-wrap}
use make_the_american_great.Spsc.Reserved.{wrap-lt}
use make_the_american_great.Spsc.Reading.{clip-read_size, one_more, contents-split}

-- The ring, the readers, and the bytes of all reads that have ended, in the order of their ends.
pub record Readers : Type 0 where
  pub ring : Ring
  pub reader : ℕ → ReaderPc
  pub received : List ℕ

-- Reader i makes a step.
pub data Turn (n : ℕ) (s : Readers) : Readers → Type 0 where
  turn :
      (i : ℕ) {rb : Ring} {pc : ReaderPc} {bytes : List ℕ}
      → Read n s.ring (s.reader i) rb pc bytes
      → Turn n s
          (record { ring = rb; reader = update s.reader i pc; received = s.received ++ bytes })

-- All readers are about to call rb_read on the ring.
pub data Reach (n : ℕ) (rb : Ring) : Readers → Type 0 where
  here : Reach n rb (record { ring = rb; reader = λ i. ReaderPc.resting; received = [] })
  next : {s u : Readers} → Reach n rb s → Turn n s u → Reach n rb u

-- What the locals of a reader say about the bytes, whatever the head is by now; o is the word
-- old_tail.
abbrev IsSound : ℕ → (ℕ → ℕ) → ℕ → ReaderPc → Type 0
IsSound n content o ReaderPc.resting = Unit {0}
IsSound n content o (started len) = len < 2 ^ 31
IsSound n content o (saw_head len h) = (len < 2 ^ 31) × (h < n)
IsSound n content o (saw_tail len h p) = (len < 2 ^ 31) × (h < n) × (p ≡ o)
IsSound n content o (loading h k got) =
    (h < n)
    × (0 < k)
    × (k ≤ span n h o)
    × (length got ≤ k)
    × ((j : ℕ) → j < length got → get_or got j 0 ≡ content (wrap n (h + j)))

record Inv (n : ℕ) (rb : Ring) (s : Readers) : Type 0 where
  valid : IsValid n s.ring
  sound : (i : ℕ) → IsSound n s.ring.content s.ring.old_tail (s.reader i)
  kept : contents n rb ≡ s.received ++ contents n s.ring

-- The reader of an index after reader i has gone to pc.
turned :
    (P : ReaderPc → Type 0) (reader : ℕ → ReaderPc) (i : ℕ) (pc : ReaderPc)
    → ((j : ℕ) → P (reader j))
    → P pc
    → (j : ℕ) → P (update reader i pc j)
turned P reader i pc old new j = elim (update-cases reader i pc j) [
  | inl e ↦ subst P (sym e.1) new
  | inr e ↦ subst P (sym e.1) (old j)
]

module _ (n : ℕ) (rb₀ : Ring) (s : Readers) (size : IsSize n) (inv : Inv n rb₀ s) (i : ℕ) where
  abbrev shared : Ring
  shared = s.ring

  abbrev after : Ring → ReaderPc → List ℕ → Readers
  after rb' pc bytes = record {
    ring = rb';
    reader = update s.reader i pc;
    received = s.received ++ bytes;
  }

  looked :
      (pc : ReaderPc) → IsSound n shared.content shared.old_tail pc → Inv n rb₀ (after shared pc [])
  looked pc r = record {
    valid = inv.valid;
    sound = turned (IsSound n shared.content shared.old_tail) s.reader i pc inv.sound r;
    kept = inv.kept ∙ ap (λ xs. xs ++ contents n shared) (sym (append-nil s.received));
  }

  Read-Inv :
      {pc pc' : ReaderPc} {rb' : Ring} {bytes : List ℕ}
      → Read n shared pc rb' pc' bytes
      → IsSound n shared.content shared.old_tail pc
      → Inv n rb₀ (after rb' pc' bytes)
  Read-Inv (call {len} int) r = looked (started len) int
  Read-Inv (load_head {len}) r = looked (saw_head len shared.head) (r, inv.valid.head_in)
  Read-Inv (load_tail {len} {h}) r = looked (saw_tail len h shared.old_tail) (r.0, r.1, refl)
  Read-Inv (empty none_there) r = looked ReaderPc.resting tt
  Read-Inv (has_bytes {len} {h} {o} some_there) r =
      let o_in : o < n = omega (arith, r.2, inv.valid.old_tail_in) in
      let size_eq = clip-read_size n h o len size r.1 o_in r.0 in
      let here : span n h o ≡ span n h shared.old_tail = ap (span n h) r.2 in
      looked (loading h (clip (read_size n h o) len) []) (
        r.1,
        omega (arith, some_there),
        omega (arith, size_eq, here),
        omega arith,
        λ j b. absurd (omega arith),
      )
  Read-Inv (get {h} {k} {got} below) r =
      let x : ℕ = shared.content (copy_index n h k (length got)) in
      let small : span n h shared.old_tail < n =
        span-lt n h shared.old_tail r.0 inv.valid.old_tail_in in
      let at : copy_index n h k (length got) ≡ wrap n (h + length got) =
        copy_index-wrap n h k (length got) size r.0 (omega (arith, r.2)) below in
      let long : length (got ++ (x ∷ [])) ≡ length got + 1 = length-append got (x ∷ []) in
      looked (loading h k (got ++ (x ∷ []))) (
        r.0,
        r.1,
        r.2,
        omega (arith, long),
        one_more n shared.content h got x (ap shared.content at) r.4,
      )
  Read-Inv (take_head {h} {k} {got} long same) r =
      let h' : ℕ = u32 (h + k) % n in
      let there : k ≤ used n shared = omega (arith, r.2, ap (λ z. span n z shared.old_tail) same) in
      let small : used n shared < n =
        span-lt n shared.head shared.old_tail inv.valid.head_in inv.valid.old_tail_in in
      let moved : h' ≡ wrap n (shared.head + k) =
        next_index n h k size r.0 (omega arith) ∙ ap (λ z. wrap n (z + k)) (sym same) in
      let rb' : Ring = record shared { head = h' } in
      let bytes : (j : ℕ) → j < k → get_or got j 0 ≡ shared.content (wrap n (shared.head + j)) =
        λ j b. r.4 j (omega (arith, long)) ∙ ap (λ z. shared.content (wrap n (z + j))) (sym same) in
      record {
        valid = record {
          head_in = rw moved (wrap-lt n (shared.head + k) (omega (arith, inv.valid.head_in)));
          tail_in = inv.valid.tail_in;
          old_tail_in = inv.valid.old_tail_in;
        };
        sound =
            turned (IsSound n shared.content shared.old_tail) s.reader i ReaderPc.resting inv.sound
              tt;
        kept =
            inv.kept
            ∙ ap (λ xs. s.received ++ xs)
                (contents-split n shared inv.valid k there h' moved got long bytes)
            ∙ sym (append_assoc s.received got (contents n rb'));
      }
  Read-Inv (lose_head {h} {k} long lost) r =
      looked (started k) (omega (arith, r.2, small, size.small))
    where
      small : span n h shared.old_tail < n
      small = span-lt n h shared.old_tail r.0 inv.valid.old_tail_in

Reach-Inv : (n : ℕ) (rb : Ring) {s : Readers} → IsSize n → IsValid n rb → Reach n rb s → Inv n rb s
Reach-Inv n rb size valid here = record { valid = valid; sound = λ i. tt; kept = refl }
Reach-Inv n rb size valid (next {s} r (turn i step)) =
    let inv : Inv n rb s = Reach-Inv n rb size valid r in
    Read-Inv n rb s size inv i step (inv.sound i)

-- Any number of processes read from a ring at once while none writes, and their shared accesses
-- come in any order. At every point the bytes that the reads have returned, in the order in which
-- they ended, followed by those that the ring still holds, are exactly the bytes that it held at
-- the beginning: no byte is returned twice, and none is lost.
pub returned-then-contents :
    (n : ℕ) (rb : Ring) (s : Readers)
    → IsSize n
    → IsValid n rb
    → Reach n rb s
    → contents n rb ≡ s.received ++ contents n s.ring
returned-then-contents n rb s size valid r = (Reach-Inv n rb size valid r).kept
