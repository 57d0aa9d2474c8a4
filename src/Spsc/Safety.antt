-- ===== src/Spsc/Safety.antt =====
-- One writer and one reader, in every order of their steps.
use mathlib.Core.Path.{subst}
use make_the_american_great.Prelude.{
  ap, ◌∙◌, ℕ, ◌+◌, ◌<◌, ◌≤◌, ◌≡◌, ◌≢◌, refl, List, [], ◌∷◌, ltb, if◌then◌else◌, Bool-cases, inl,
  inr, ◌++◌, length, arith, sym,
}
use make_the_american_great.Ring.Inv.{IsSize, contents, used, span, span-lt, wrap}
use make_the_american_great.Pool.FreeList.{Apart}
use make_the_american_great.Spsc.{
  System, Step, write, read, Reach, here, next, start, loading, storing, copy_index, WriterPc,
  ReaderPc, swapping, waiting,
}
use make_the_american_great.Spsc.Inv.{Inv, WriterInv, ReaderInv, IsReserved, copy_index-wrap}
use make_the_american_great.Spsc.Writing.{Write-Inv}
use make_the_american_great.Spsc.Reserved.{wrap-lt, reserved-ne}
use make_the_american_great.Spsc.Reading.{Read-Inv}

start-Inv : (n : ℕ) (content : ℕ → ℕ) → IsSize n → Inv n (start content)
start-Inv n content s = record {
  size = s;
  valid = omega (arith, s.positive);
  writing = refl;
  reading = tt;
  kept = refl;
}

Step-Inv : (n : ℕ) {s t : System} → Step n s t → Inv n s → Inv n t
Step-Inv n {s} (write w) i =
    Write-Inv n s.ring s.reader s.sent s.received i.size i.valid i.reading i.kept w i.writing
Step-Inv n {s} (read r) i =
    Read-Inv n s.ring s.writer s.sent s.received i.size i.valid i.writing i.kept r i.reading

pub Reach-Inv : (n : ℕ) (content : ℕ → ℕ) {s : System} → IsSize n → Reach n content s → Inv n s
Reach-Inv n content size here = start-Inv n content size
Reach-Inv n content size (next r st) = Step-Inv n st (Reach-Inv n content size r)

-- One process writes to a new ring and another reads from it, and their shared accesses come in
-- any order. At every point the bytes that the reads have returned, followed by those that the
-- ring holds, are exactly the bytes of the writes that have ended: none is lost, torn, repeated or
-- out of order.
pub received-then-contents :
    (n : ℕ) (content : ℕ → ℕ) (s : System)
    → IsSize n
    → Reach n content s
    → s.sent ≡ s.received ++ contents n s.ring
received-then-contents n content s size r = (Reach-Inv n content size r).kept

module _ (n : ℕ) (s : System) (inv : Inv n s) where
  -- The offset at which the writer stores next.
  store_place :
      (input : List ℕ) (t k i : ℕ)
      → s.writer ≡ storing input t k i
      → i < k
      → IsReserved n s.ring input t k × (t < n) × (copy_index n t k i ≡ wrap n (t + i))
  store_place input t k i e below =
      let w : WriterInv n s.ring (storing input t k i) = subst (WriterInv n s.ring) e inv.writing in
      let r : IsReserved n s.ring input t k = w.0 in
      let t_in : t < n = omega (arith, r.at_old, inv.valid.old_tail_in) in
      (r, t_in, copy_index-wrap n t k i inv.size t_in (omega (arith, r.apart)) below)

  -- The offset from which the reader loads next.
  load_place :
      (h k : ℕ) (got : List ℕ)
      → s.reader ≡ loading h k got
      → length got < k
      → (h ≡ s.ring.head)
        × (k ≤ used n s.ring)
        × (copy_index n h k (length got) ≡ wrap n (h + length got))
  load_place h k got e below =
      let r : ReaderInv n s.ring (loading h k got) = subst (ReaderInv n s.ring) e inv.reading in
      let h_in : h < n = omega (arith, r.0, inv.valid.head_in) in
      let small : used n s.ring < n =
        span-lt n s.ring.head s.ring.old_tail inv.valid.head_in inv.valid.old_tail_in in
      (r.0, r.2, copy_index-wrap n h k (length got) inv.size h_in (omega (arith, r.2)) below)

-- The offset in the data area of the writer's next store, and of the reader's next load, when they
-- are in the middle of their copies.
abbrev pub next_store : ℕ → WriterPc → List ℕ
next_store n WriterPc.resting = []
next_store n (WriterPc.started input len) = []
next_store n (WriterPc.saw_head input len h) = []
next_store n (WriterPc.saw_tail input len h t) = []
next_store n (swapping input t k) = []
next_store n (storing input t k i) = if ltb i k then copy_index n t k i ∷ [] else []
next_store n (waiting input t k) = []

abbrev pub next_load : ℕ → ReaderPc → List ℕ
next_load n ReaderPc.resting = []
next_load n (ReaderPc.started len) = []
next_load n (ReaderPc.saw_head len h) = []
next_load n (ReaderPc.saw_tail len h o) = []
next_load n (loading h k got) =
    if ltb (length got) k then copy_index n h k (length got) ∷ [] else []

abbrev pub AllBelow : ℕ → List ℕ → Type 0
AllBelow n [] = Unit {0}
AllBelow n (x ∷ xs) = (x < n) × AllBelow n xs

abbrev pub Disjoint : List ℕ → List ℕ → Type 0
Disjoint [] ys = Unit {0}
Disjoint (x ∷ xs) ys = Apart x ys × Disjoint xs ys

module _ (n : ℕ) (s : System) (inv : Inv n s) where
  stores_in : (pc : WriterPc) → s.writer ≡ pc → AllBelow n (next_store n pc)
  stores_in WriterPc.resting at = tt
  stores_in (WriterPc.started input len) at = tt
  stores_in (WriterPc.saw_head input len h) at = tt
  stores_in (WriterPc.saw_tail input len h t) at = tt
  stores_in (swapping input t k) at = tt
  stores_in (storing input t k i) at = elim (Bool-cases (ltb i k)) [
    | inl more ↦
        let (r, t_in, place) = store_place n s inv input t k i at (ground arith) in
        rw more (subst (λ z. z < n) (sym place) (wrap-lt n (t + i) (ground (arith, r.apart))), tt)
    | inr none ↦ rw none tt
  ]
  stores_in (waiting input t k) at = tt

  loads_in : (pc : ReaderPc) → s.reader ≡ pc → AllBelow n (next_load n pc)
  loads_in ReaderPc.resting at = tt
  loads_in (ReaderPc.started len) at = tt
  loads_in (ReaderPc.saw_head len h) at = tt
  loads_in (ReaderPc.saw_tail len h o) at = tt
  loads_in (loading h k got) at = elim (Bool-cases (ltb (length got) k)) [
    | inl more ↦
        let (at_head, there, place) = load_place n s inv h k got at (ground arith) in
        let small : used n s.ring < n =
          span-lt n s.ring.head s.ring.old_tail inv.valid.head_in inv.valid.old_tail_in in
        let h_in : h < n = omega (arith, at_head, inv.valid.head_in) in
        let below : length got < k = ground arith in
        rw more
          (subst (λ z. z < n) (sym place) (wrap-lt n (h + length got) (omega (arith, there))), tt)
    | inr none ↦ rw none tt
  ]

  copies_apart :
      (input : List ℕ) (t k i h k' : ℕ) (got : List ℕ)
      → s.writer ≡ storing input t k i
      → i < k
      → s.reader ≡ loading h k' got
      → length got < k'
      → copy_index n t k i ≢ copy_index n h k' (length got)
  copies_apart input t k i h k' got at_store more at_load more' e =
      let (r, t_in, store_at) = store_place n s inv input t k i at_store more in
      let (at_head, there, load_at) = load_place n s inv h k' got at_load more' in
      let small : used n s.ring < n =
        span-lt n s.ring.head s.ring.old_tail inv.valid.head_in inv.valid.old_tail_in in
      let head_in : s.ring.head < n = inv.valid.head_in in
      let below : length got < span n s.ring.head t =
        subst (λ z. length got < span n s.ring.head z) r.at_old (omega (arith, there)) in
      reserved-ne n s.ring.head t k i (length got) head_in t_in r.apart more below
        (ap (λ z. wrap n (z + length got)) (sym at_head) ∙ sym load_at ∙ sym e ∙ store_at)

  store_apart :
      (input : List ℕ) (t k i : ℕ) (pc : ReaderPc)
      → s.writer ≡ storing input t k i
      → i < k
      → s.reader ≡ pc
      → Apart (copy_index n t k i) (next_load n pc)
  store_apart input t k i ReaderPc.resting at more e = tt
  store_apart input t k i (ReaderPc.started len) at more e = tt
  store_apart input t k i (ReaderPc.saw_head len h) at more e = tt
  store_apart input t k i (ReaderPc.saw_tail len h o) at more e = tt
  store_apart input t k i (loading h k' got) at more e = elim (Bool-cases (ltb (length got) k')) [
    | inl more' ↦ rw more' (copies_apart input t k i h k' got at more e (ground arith), tt)
    | inr none ↦ rw none tt
  ]

  all_apart : (pc : WriterPc) → s.writer ≡ pc → Disjoint (next_store n pc) (next_load n s.reader)
  all_apart WriterPc.resting at = tt
  all_apart (WriterPc.started input len) at = tt
  all_apart (WriterPc.saw_head input len h) at = tt
  all_apart (WriterPc.saw_tail input len h t) at = tt
  all_apart (swapping input t k) at = tt
  all_apart (storing input t k i) at = elim (Bool-cases (ltb i k)) [
    | inl more ↦ rw more (store_apart input t k i s.reader at (ground arith) refl, tt)
    | inr none ↦ rw none tt
  ]
  all_apart (waiting input t k) at = tt

-- In every reachable state, whatever the other process is doing: when the writer is in the middle of
-- its copy its next store is inside the data area, when the reader is its next load is, and when
-- both are, the two are at different offsets, so that no byte is accessed by both at once.
pub no_data_race :
    (n : ℕ) (content : ℕ → ℕ) (s : System)
    → IsSize n
    → Reach n content s
    → AllBelow n (next_store n s.writer)
      × AllBelow n (next_load n s.reader)
      × Disjoint (next_store n s.writer) (next_load n s.reader)
no_data_race n content s size reach =
    let inv : Inv n s = Reach-Inv n content size reach in
    (
      stores_in n s inv s.writer refl,
      loads_in n s inv s.reader refl,
      all_apart n s inv s.writer refl,
    )
