-- ===== src/Mpmc/Inv.antt =====
-- What holds between the steps of many writers and readers on one ring.
use make_the_american_great.Prelude.{
  ℕ, ◌+◌, ◌^◌, ◌<◌, ◌≤◌, ◌≡◌, ◌≢◌, ◌∙◌, sym, List, length, get_or, arith, ◌⊎◌, inl, inr,
}
use make_the_american_great.Ring.Inv.{IsSize}
use make_the_american_great.Spsc.{WriterPc, ReaderPc, swapping, storing, waiting, loading}
use make_the_american_great.Spsc.Inv.{IsCall}
use make_the_american_great.Mpmc.{System, Process}
use make_the_american_great.Mpmc.Position.{position, position-ne}

-- k bytes from the a-th on are reserved and not yet written; p bytes are written and q reserved.
pub record IsReserved (p q a k : ℕ) : Type 0 where
  pub low : p ≤ a
  pub high : a + k ≤ q
  pub some_bytes : 0 < k

-- The first i bytes of the input are at their places from the a-th byte on.
abbrev pub AreStored : ℕ → (ℕ → ℕ) → List ℕ → ℕ → ℕ → Type 0
AreStored n content input a i = (j : ℕ) → j < i → content (position n (a + j)) ≡ get_or input j 0

-- What a writer knows when o bytes are read, p written and q reserved.
abbrev pub WriterInv : (n o p q : ℕ) → (ℕ → ℕ) → Process WriterPc → WriterPc → Type 0
WriterInv n o p q content w WriterPc.resting = Unit {0}
WriterInv n o p q content w (WriterPc.started input len) = IsCall len input
WriterInv n o p q content w (WriterPc.saw_head input len h) =
    IsCall len input × (h ≡ position n w.head_seen) × (w.head_seen ≤ o)
WriterInv n o p q content w (WriterPc.saw_tail input len h t) =
    IsCall len input
    × (h ≡ position n w.head_seen)
    × (w.head_seen ≤ o)
    × (t ≡ position n w.tail_seen)
    × (w.tail_seen ≤ q)
    × (w.head_seen ≤ w.tail_seen)
    × (w.tail_seen < w.head_seen + n)
WriterInv n o p q content w (swapping input t k) =
    (w.head_seen ≤ o)
    × (t ≡ position n w.tail_seen)
    × (w.tail_seen ≤ q)
    × (0 < k)
    × (k ≤ length input)
    × (w.tail_seen + k < w.head_seen + n)
    × (w.head_seen ≤ w.tail_seen)
WriterInv n o p q content w (storing input t k i) =
    IsReserved p q w.tail_seen k
    × (t ≡ position n w.tail_seen)
    × (k ≤ length input)
    × (i ≤ k)
    × AreStored n content input w.tail_seen i
WriterInv n o p q content w (waiting input t k) =
    IsReserved p q w.tail_seen k
    × (t ≡ position n w.tail_seen)
    × (k ≤ length input)
    × AreStored n content input w.tail_seen k

-- What a reader knows when o bytes are read.
abbrev pub ReaderInv : (n o : ℕ) → List ℕ → Process ReaderPc → ReaderPc → Type 0
ReaderInv n o sent r ReaderPc.resting = Unit {0}
ReaderInv n o sent r (ReaderPc.started len) = len < 2 ^ 31
ReaderInv n o sent r (ReaderPc.saw_head len h) =
    (len < 2 ^ 31) × (h ≡ position n r.head_seen) × (r.head_seen ≤ o)
ReaderInv n o sent r (ReaderPc.saw_tail len h t) =
    (len < 2 ^ 31)
    × (h ≡ position n r.head_seen)
    × (r.head_seen ≤ o)
    × (t ≡ position n r.tail_seen)
    × (r.tail_seen ≤ length sent)
    × (r.head_seen ≤ r.tail_seen)
    × (r.tail_seen < r.head_seen + n)
ReaderInv n o sent r (loading h k got) =
    (h ≡ position n r.head_seen)
    × (r.head_seen ≤ o)
    × (r.head_seen + k ≤ length sent)
    × (0 < k)
    × (k < n)
    × (length got ≤ k)
    × (o ≡ r.head_seen
        → (j : ℕ) → j < length got
        → get_or got j 0 ≡ get_or sent (r.head_seen + j) 0)

-- How many bytes a writer has reserved and not published.
abbrev pub extent : WriterPc → ℕ
extent pc = elim pc [ storing input t k i ↦ k | waiting input t k ↦ k | _ ↦ 0 ]

-- The reservations of two writers do not overlap.
abbrev pub AreApart : Process WriterPc → Process WriterPc → Type 0
AreApart v w =
    0 < extent v.pc
    → 0 < extent w.pc
    → (v.tail_seen + extent v.pc ≤ w.tail_seen) ⊎ (w.tail_seen + extent w.pc ≤ v.tail_seen)

pub record Inv (n : ℕ) (s : System) : Type 0 where
  pub size : IsSize n
  pub head : s.ring.head ≡ position n (length s.received)
  pub old_tail : s.ring.old_tail ≡ position n (length s.sent)
  pub tail : s.ring.tail ≡ position n s.reserved
  pub behind : length s.received ≤ length s.sent
  pub within : length s.sent ≤ s.reserved
  pub room : s.reserved < length s.received + n
  -- What was read is what was written.
  pub same : (x : ℕ) → x < length s.received → get_or s.received x 0 ≡ get_or s.sent x 0
  -- What was written and not read is in its place.
  pub held :
      (x : ℕ)
      → length s.received ≤ x
      → x < length s.sent
      → s.ring.content (position n x) ≡ get_or s.sent x 0
  pub writers :
      (i : ℕ)
      → WriterInv n
          (length s.received)
          (length s.sent)
          s.reserved
          s.ring.content
          (s.writer i)
          (s.writer i).pc
  pub readers : (i : ℕ) → ReaderInv n (length s.received) s.sent (s.reader i) (s.reader i).pc
  pub apart : (i j : ℕ) → i ≢ j → AreApart (s.writer i) (s.writer j)

pub extent-IsReserved :
    (n o p q : ℕ) (content : ℕ → ℕ) (w : Process WriterPc) (pc : WriterPc)
    → WriterInv n o p q content w pc
    → 0 < extent pc
    → IsReserved p q w.tail_seen (extent pc)
extent-IsReserved n o p q content w WriterPc.resting i b = absurd (omega arith)
extent-IsReserved n o p q content w (WriterPc.started input len) i b = absurd (omega arith)
extent-IsReserved n o p q content w (WriterPc.saw_head input len h) i b = absurd (omega arith)
extent-IsReserved n o p q content w (WriterPc.saw_tail input len h t) i b = absurd (omega arith)
extent-IsReserved n o p q content w (swapping input t k) i b = absurd (omega arith)
extent-IsReserved n o p q content w (storing input t k x) i b = i.0
extent-IsReserved n o p q content w (waiting input t k) i b = i.0

-- What a writer knows stays true when more is read, written and reserved, as long as nothing that
-- it has reserved becomes readable or is stored to.
module _ (n o p q o' p' q' : ℕ) (content content' : ℕ → ℕ) (more_read : o ≤ o')
    (more_reserved : q ≤ q') where
  IsReserved-kept : (a k : ℕ) → (0 < k → p' ≤ a) → IsReserved p q a k → IsReserved p' q' a k
  IsReserved-kept a k low r = record {
    low = low r.some_bytes;
    high = omega (arith, r.high);
    some_bytes = r.some_bytes;
  }

  pub WriterInv-kept :
      (w : Process WriterPc) (pc : WriterPc)
      → (0 < extent pc → p' ≤ w.tail_seen)
      → ((j : ℕ)
          → j < extent pc
          → content' (position n (w.tail_seen + j)) ≡ content (position n (w.tail_seen + j)))
      → WriterInv n o p q content w pc
      → WriterInv n o' p' q' content' w pc
  WriterInv-kept w WriterPc.resting low same i = tt
  WriterInv-kept w (WriterPc.started input len) low same i = i
  WriterInv-kept w (WriterPc.saw_head input len h) low same i = (i.0, i.1, omega (arith, i.2))
  WriterInv-kept w (WriterPc.saw_tail input len h t) low same i =
      (i.0, i.1, omega (arith, i.2), i.3, omega (arith, i.4), i.5, i.6)
  WriterInv-kept w (swapping input t k) low same i =
      (omega (arith, i.0), i.1, omega (arith, i.2), i.3, i.4, i.5, i.6)
  WriterInv-kept w (storing input t k x) low same i = (
    IsReserved-kept w.tail_seen k low i.0,
    i.1,
    i.2,
    i.3,
    λ j b. same j (omega (arith, i.3)) ∙ i.4 j b,
  )
  WriterInv-kept w (waiting input t k) low same i =
      (IsReserved-kept w.tail_seen k low i.0, i.1, i.2, λ j b. same j b ∙ i.3 j b)

-- What a reader knows stays true when more is read and written.
pub ReaderInv-kept :
    (n o o' : ℕ) (sent sent' : List ℕ)
    → o ≤ o'
    → length sent ≤ length sent'
    → ((x : ℕ) → x < length sent → get_or sent' x 0 ≡ get_or sent x 0)
    → (r : Process ReaderPc) (pc : ReaderPc) → ReaderInv n o sent r pc
    → ReaderInv n o' sent' r pc
ReaderInv-kept n o o' sent sent' more longer same r ReaderPc.resting i = tt
ReaderInv-kept n o o' sent sent' more longer same r (ReaderPc.started len) i = i
ReaderInv-kept n o o' sent sent' more longer same r (ReaderPc.saw_head len h) i =
    (i.0, i.1, omega (arith, i.2))
ReaderInv-kept n o o' sent sent' more longer same r (ReaderPc.saw_tail len h t) i =
    (i.0, i.1, omega (arith, i.2), i.3, omega (arith, i.4), i.5, i.6)
ReaderInv-kept n o o' sent sent' more longer same r (loading h k got) i = (
  i.0,
  omega (arith, i.1),
  omega (arith, i.2),
  i.3,
  i.4,
  i.5,
  λ e j b. i.6 (omega (arith, i.1)) j b ∙ sym (same (r.head_seen + j) (omega (arith, i.2, i.5))),
)

-- The places of two different reservations are different.
pub apart-ne :
    (n o p q a k b l x y : ℕ)
    → o ≤ p
    → q < o + n
    → IsReserved p q a k
    → IsReserved p q b l
    → (a + k ≤ b) ⊎ (b + l ≤ a)
    → x < k
    → y < l
    → position n (b + y) ≢ position n (a + x)
apart-ne n o p q a k b l x y op qn r t apart u v =
    position-ne n (b + y) (a + x)
      (elim apart [ inl e ↦ λ z. omega arith | inr e ↦ λ z. omega arith ])
      (omega (arith, r.low, r.high, t.low, t.high)) (omega (arith, r.low, r.high, t.low, t.high))
