-- ===== src/Index/Shared.antt =====
-- The segments of rings that processes share, in release/RingBuffer.cpp, and those of their own.
use make_the_american_great.Prelude.{
  ℕ, ◌<◌, ◌≡◌, ◌≢◌, refl, ltb, lt→ltb, Bool-cases, inl, inr, arith,
}
use make_the_american_great.Ring.{Ring}
use make_the_american_great.Index.{State, resume, shared_keys, nattch}

-- The ring of a process that resumes is the other's when it has a key, and its own otherwise.
pub resumed_ring :
    (P : Ring → Type 0) (mine theirs : State) (key : ℕ)
    → (key < shared_keys → P (theirs.rings key))
    → P (mine.rings key)
    → P ((resume mine theirs).rings key)
resumed_ring P mine theirs key shared own = elim (Bool-cases (ltb key shared_keys)) [
  | inl e ↦ rw e (shared (ground arith))
  | inr e ↦ rw e own
]

pub resume-rings :
    (mine theirs : State) (key : ℕ)
    → key < shared_keys
    → (resume mine theirs).rings key ≡ theirs.rings key
resume-rings mine theirs key shared = rw (lt→ltb key shared_keys shared)

-- A segment that a process is attached to has a key.
pub nattch-shared : (stat : ℕ → ℕ) (key : ℕ) → nattch stat key ≢ 0 → key < shared_keys
unfolding nattch
nattch-shared stat key some = elim (Bool-cases (ltb key shared_keys)) [
  | inl e ↦ ground arith
  | inr e ↦ absurd (some (rw e refl))
]
