-- ===== src/Pool/FreeList.antt =====
-- The free list of one channel, under Channel::get and Channel::release.
use make_the_american_great.Prelude.{
  ℕ, zero, suc, ◌+◌, ◌-◌, ◌≤◌, ◌<◌, ◌≡◌, ◌≢◌, refl, ap, ◌∙◌, List, [], ◌∷◌, ltb, leb, if◌then◌else◌,
  Mem, update, arith, ◌&&◌,
}
use make_the_american_great.Run.{done}
use make_the_american_great.Pool.{
  channel_size, next_channel_index, fill, init_cells, channel_get, channel_release,
}

-- x differs from every member of the list.
abbrev pub Apart : ℕ → List ℕ → Type 0
Apart x [] = Unit {0}
Apart x (y ∷ ys) = (x ≢ y) × Apart x ys

-- From index p the cells of the segment lead through exactly the indices xs, all different, to 0.
abbrev pub Leads : Mem → ℕ → List ℕ → Type 0
Leads m p [] = p ≡ 0
Leads m p (x ∷ xs) = (p ≡ x) × (0 < x) × (x ≤ channel_size) × Apart x xs × Leads m (m x) xs

-- The free list of a segment, from its dummy head on.
abbrev pub FreeList : Mem → List ℕ → Type 0
FreeList m xs = Leads m (m 0) xs

-- A write to a cell that the list does not go through leaves the list.
pub Leads-update :
    (m : Mem) (p a v : ℕ) (xs : List ℕ) → Apart a xs → Leads m p xs → Leads (update m a v) p xs
Leads-update m p a v [] out h = h
Leads-update m p a v (x ∷ xs) out h =
    let e : update m a v x ≡ m x = ground (arith, out.0) in
    (h.0, h.1, h.2, h.3, rw e (Leads-update m (m x) a v xs out.1 h.4))

pub Apart-zero : (m : Mem) (p : ℕ) (xs : List ℕ) → Leads m p xs → Apart 0 xs
Apart-zero m p [] h = tt
Apart-zero m p (x ∷ xs) h = (omega (arith, h.1), Apart-zero m (m x) xs h.4)

-- Channel::get on a channel with a free index returns the first one and leaves the others free.
pub channel_get-cons :
    (fuel : ℕ) (m : Mem) (x : ℕ) (xs : List ℕ)
    → FreeList m (x ∷ xs)
    → (m' : Mem) × (channel_get (suc fuel) m ≡ done (x, m'))
      × FreeList m' xs
      × (m' next_channel_index ≡ m next_channel_index)
unfolding channel_get
channel_get-cons fuel m x xs h = (
  update m 0 (m x),
  ground arith,
  Leads-update m (m x) 0 (m x) xs (Apart-zero m (m x) xs h.4) h.4,
  refl,
)

-- On a full channel it returns 0 and leaves it full.
pub channel_get-nil :
    (fuel : ℕ) (m : Mem)
    → FreeList m []
    → (m' : Mem) × (channel_get (suc fuel) m ≡ done (0, m'))
      × FreeList m' []
      × (m' next_channel_index ≡ m next_channel_index)
unfolding channel_get
channel_get-nil fuel m h = (update m 0 (m (m 0)), ground arith, ap m h ∙ h, refl)

-- Channel::release of an index that is not free makes it the first free one.
pub channel_release-cons :
    (fuel : ℕ) (m : Mem) (x : ℕ) (xs : List ℕ)
    → FreeList m xs
    → 0 < x
    → x ≤ channel_size
    → Apart x xs
    → (m' : Mem) × (channel_release (suc fuel) m x ≡ done m')
      × FreeList m' (x ∷ xs)
      × (m' next_channel_index ≡ m next_channel_index)
unfolding channel_release
channel_release-cons fuel m x xs h pos top out = (
  update (update m x (m 0)) 0 x,
  ground arith,
  (
    refl,
    pos,
    top,
    out,
    let e : update (update m x (m 0)) 0 x x ≡ m 0 = ground arith in
        rw e (
          Leads-update (update m x (m 0)) (m 0) 0 x xs (Apart-zero m (m 0) xs h)
            (Leads-update m (m 0) x (m 0) xs out h)),
  ),
  ground arith,
)

pub fill_lem :
    (count i : ℕ) (m : Mem) (a : ℕ)
    → fill count i m a ≡ (if leb i a && ltb a (i + count) then a + 1 else m a)
unfolding fill
fill_lem zero i m a = ground arith
fill_lem (suc count) i m a = fill_lem count (i + 1) (update m i (i + 1)) a ∙ ground arith

-- The indices from i on.
unfoldable pub upto : ℕ → ℕ → List ℕ
upto i zero = []
upto i (suc k) = i ∷ upto (i + 1) k

Apart-upto : (x i k : ℕ) → x < i → Apart x (upto i k)
unfolding upto
Apart-upto x i zero h = tt
Apart-upto x i (suc k) h = (omega arith, Apart-upto x (i + 1) k (omega arith))

Leads-upto :
    (m : Mem) (i k : ℕ)
    → 0 < i
    → i + k ≡ channel_size
    → ((a : ℕ) → a < channel_size → m a ≡ a + 1)
    → m channel_size ≡ 0
    → Leads m i (upto i (suc k))
unfolding upto
Leads-upto m i zero pos e step end =
    let top : i ≡ channel_size = omega arith in (refl, pos, omega arith, tt, rw top end)
Leads-upto m i (suc k) pos e step end = (
  refl,
  pos,
  omega arith,
  Apart-upto i (i + 1) (suc k) (omega arith),
  rw (step i (omega arith)) (Leads-upto m (i + 1) k (omega arith) (omega arith) step end),
)

-- The initialisation leaves the indices 1, 2, … channel_size free, in this order, and no next
-- channel.
pub init_cells-FreeList :
    (m : Mem)
    → FreeList (init_cells m) (upto 1 channel_size) × (init_cells m next_channel_index ≡ 0)
unfolding init_cells
init_cells-FreeList m =
    let filled : Mem = fill (channel_size + 1) 0 m in
    let at : (a : ℕ) → filled a ≡ (if leb 0 a && ltb a (0 + 4095) then a + 1 else m a) =
      fill_lem (channel_size + 1) 0 m in
    let first : filled 0 ≡ 1 = at 0 in
    (
      rw first (
          Leads-upto (init_cells m) 1 (channel_size - 1) (omega arith) refl
            (λ a h. ground (arith, at a)) refl),
      refl,
    )
