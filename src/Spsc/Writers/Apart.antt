-- ===== src/Spsc/Writers/Apart.antt =====
-- What several writers have reserved on one ring does not overlap.
use make_the_american_great.Prelude.{
  ℕ, ◌+◌, ◌<◌, ◌≤◌, ◌≡◌, ◌≢◌, ◌∙◌, sym, List, ◌++◌, length, get_or, arith, ◌⊎◌, inl, inr,
}
use make_the_american_great.Ring.{Ring}
use make_the_american_great.Ring.Inv.{IsValid, wrap, span, used, contents}
use make_the_american_great.Spsc.{WriterPc, swapping, storing, waiting}
use make_the_american_great.Spsc.Inv.{IsCall}
use make_the_american_great.Spsc.Writers.{Writers}

-- The bytes that a writer has reserved: their first offset and their number.
abbrev pub extent : WriterPc → ℕ × ℕ
extent WriterPc.resting = (0, 0)
extent (WriterPc.started input len) = (0, 0)
extent (WriterPc.saw_head input len h) = (0, 0)
extent (WriterPc.saw_tail input len h t) = (0, 0)
extent (swapping input t k) = (0, 0)
extent (storing input t k i) = (t, k)
extent (waiting input t k) = (t, k)

-- k bytes from t on lie behind the u that are readable and before the tail, which is z bytes behind
-- the head h.
pub record IsBetween (n h u z t k : ℕ) : Type 0 where
  pub t_in : t < n
  pub low : u ≤ span n h t
  pub high : span n h t + k ≤ z
  pub some_bytes : 0 < k

abbrev pub AreStored : ℕ → (ℕ → ℕ) → List ℕ → ℕ → ℕ → Type 0
AreStored n content input t i = (j : ℕ) → j < i → content (wrap n (t + j)) ≡ get_or input j 0

-- What the locals of a writer say about the ring.
abbrev pub IsSound : (n h u z : ℕ) → (ℕ → ℕ) → WriterPc → Type 0
IsSound n h u z content WriterPc.resting = Unit {0}
IsSound n h u z content (WriterPc.started input len) = IsCall len input
IsSound n h u z content (WriterPc.saw_head input len g) = IsCall len input × (g ≡ h)
IsSound n h u z content (WriterPc.saw_tail input len g t) = IsCall len input × (g ≡ h) × (t < n)
IsSound n h u z content (swapping input t k) =
    (t < n) × (0 < k) × (k ≤ length input) × (k + span n h t < n)
IsSound n h u z content (storing input t k i) =
    IsBetween n h u z t k × (k ≤ length input) × (i ≤ k) × AreStored n content input t i
IsSound n h u z content (waiting input t k) =
    IsBetween n h u z t k × (k ≤ length input) × AreStored n content input t k

-- Two reservations do not overlap.
abbrev pub AreApart : ℕ → ℕ → ℕ × ℕ → ℕ × ℕ → Type 0
AreApart n h a b =
    0 < a.1 → 0 < b.1 → (span n h a.0 + a.1 ≤ span n h b.0) ⊎ (span n h b.0 + b.1 ≤ span n h a.0)

pub AreApart-sym : (n h : ℕ) (a b : ℕ × ℕ) → AreApart n h a b → AreApart n h b a
AreApart-sym n h a b apart p q = elim (apart q p) [ inl e ↦ inr e | inr e ↦ inl e ]

pub record Inv (n : ℕ) (rb : Ring) (s : Writers) : Type 0 where
  pub valid : IsValid n s.ring
  pub behind : used n s.ring ≤ span n s.ring.head s.ring.tail
  pub sound :
      (i : ℕ)
      → IsSound n s.ring.head
          (used n s.ring)
          (span n s.ring.head s.ring.tail)
          s.ring.content
          (s.writer i)
  pub apart : (i j : ℕ) → i ≢ j → AreApart n s.ring.head (extent (s.writer i)) (extent (s.writer j))
  pub kept : contents n s.ring ≡ contents n rb ++ s.sent

pub extent-IsBetween :
    (n h u z : ℕ) (content : ℕ → ℕ) (pc : WriterPc)
    → IsSound n h u z content pc
    → 0 < (extent pc).1
    → IsBetween n h u z (extent pc).0 (extent pc).1
extent-IsBetween n h u z content WriterPc.resting w p = absurd (omega arith)
extent-IsBetween n h u z content (WriterPc.started input len) w p = absurd (omega arith)
extent-IsBetween n h u z content (WriterPc.saw_head input len g) w p = absurd (omega arith)
extent-IsBetween n h u z content (WriterPc.saw_tail input len g t) w p = absurd (omega arith)
extent-IsBetween n h u z content (swapping input t k) w p = absurd (omega arith)
extent-IsBetween n h u z content (storing input t k i) w p = w.0
extent-IsBetween n h u z content (waiting input t k) w p = w.0

-- A step of another writer: it may make bytes readable that lie before those reserved, move the
-- tail on, and store outside what is reserved.
module _ (n h u z u' z' : ℕ) (content content' : ℕ → ℕ) (more : z ≤ z') where
  moved-IsBetween :
      (t k : ℕ) → (0 < k → u' ≤ span n h t) → IsBetween n h u z t k → IsBetween n h u' z' t k
  moved-IsBetween t k low b = record {
    t_in = b.t_in;
    low = low b.some_bytes;
    high = omega (arith, b.high);
    some_bytes = b.some_bytes;
  }

  pub moved-IsSound :
      (pc : WriterPc)
      → (0 < (extent pc).1 → u' ≤ span n h (extent pc).0)
      → ((j : ℕ)
          → j < (extent pc).1
          → content' (wrap n ((extent pc).0 + j)) ≡ content (wrap n ((extent pc).0 + j)))
      → IsSound n h u z content pc
      → IsSound n h u' z' content' pc
  moved-IsSound WriterPc.resting low same w = tt
  moved-IsSound (WriterPc.started input len) low same w = w
  moved-IsSound (WriterPc.saw_head input len g) low same w = w
  moved-IsSound (WriterPc.saw_tail input len g t) low same w = w
  moved-IsSound (swapping input t k) low same w = w
  moved-IsSound (storing input t k i) low same w =
      (moved-IsBetween t k low w.0, w.1, w.2, λ j b. same j (omega (arith, w.2)) ∙ w.3 j b)
  moved-IsSound (waiting input t k) low same w =
      (moved-IsBetween t k low w.0, w.1, λ j b. same j b ∙ w.2 j b)

-- The bytes of reservations that do not overlap are at different offsets.
far :
    (n h t k t' k' i j : ℕ)
    → h < n
    → t < n
    → t' < n
    → span n h t + k ≤ span n h t'
    → span n h t' + k' < n
    → i < k
    → j < k'
    → wrap n (t' + j) ≢ wrap n (t + i)
far n h t k t' k' i j p q r a b x y e = ground arith

pub apart-ne :
    (n h u z t k t' k' i j : ℕ)
    → h < n
    → z < n
    → IsBetween n h u z t k
    → IsBetween n h u z t' k'
    → AreApart n h (t, k) (t', k')
    → i < k
    → j < k'
    → wrap n (t' + j) ≢ wrap n (t + i)
apart-ne n h u z t k t' k' i j h_in z_in a b apart x y e = elim (apart a.some_bytes b.some_bytes) [
  | inl before ↦ far n h t k t' k' i j h_in a.t_in b.t_in before (omega (arith, b.high)) x y e
  | inr after ↦ far n h t' k' t k j i h_in b.t_in a.t_in after (omega (arith, a.high)) y x (sym e)
]
