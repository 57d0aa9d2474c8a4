-- ===== src/Pool/Shared.antt =====
-- Channel::get and Channel::release of release/Pool.cpp in several processes at once, one access of
-- the segment at a time. A cell of the segment is read and written whole.
use make_the_american_great.Prelude.{ℕ, ◌≡◌, ◌≢◌, List, [], ◌∷◌, Mem, update}

-- Where a process stands in get (ret, new_next) or in release (index, old_next).
pub data Pc : Type 0 where
  resting : Pc
  saw_head : (ret : ℕ) → Pc
  saw_next : (ret new_next : ℕ) → Pc
  releasing : (index : ℕ) → Pc
  saw_old : (index old_next : ℕ) → Pc
  linked : (index old_next : ℕ) → Pc

-- What the calls that have ended did.
pub data Event : Type 0 where
  got : ℕ → Event
  released : ℕ → Event

-- A step of get. The list has the index that the step returns.
pub data GetStep (m : Mem) : Pc → Mem → Pc → List Event → Type 0 where
  load_head : GetStep m resting m (saw_head (m 0)) []
  load_next : {ret : ℕ} → GetStep m (saw_head ret) m (saw_next ret (m ret)) []
  swap_head :
      {ret new_next : ℕ}
      → m 0 ≡ ret
      → GetStep m (saw_next ret new_next) (update m 0 new_next) resting (got ret ∷ [])
  lose_head : {ret new_next : ℕ} → m 0 ≢ ret → GetStep m (saw_next ret new_next) m resting []

-- A step of release.
pub data ReleaseStep (m : Mem) : Pc → Mem → Pc → List Event → Type 0 where
  call : (index : ℕ) → ReleaseStep m resting m (releasing index) []
  load_old : {index : ℕ} → ReleaseStep m (releasing index) m (saw_old index (m 0)) []
  link :
      {index old_next : ℕ}
      → ReleaseStep m (saw_old index old_next) (update m index old_next) (linked index old_next) []
  swap_index :
      {index old_next : ℕ}
      → m 0 ≡ old_next
      → ReleaseStep m (linked index old_next) (update m 0 index) resting (released index ∷ [])
  lose_index :
      {index old_next : ℕ}
      → m 0 ≢ old_next
      → ReleaseStep m (linked index old_next) m (releasing index) []

-- The segment, the processes, and what has been done, the last thing first.
pub record Crowd : Type 0 where
  pub segment : Mem
  pub pc : ℕ → Pc
  pub log : List Event

abbrev pub after : List Event → List Event → List Event
after [] log = log
after (e ∷ es) log = after es (e ∷ log)

abbrev pub moved : Crowd → ℕ → Mem → Pc → List Event → Crowd
moved s i m p es = record { segment = m; pc = update s.pc i p; log = after es s.log }

-- Process i makes a step of a call of get or of release.
pub data Move (s : Crowd) : Crowd → Type 0 where
  get :
      (i : ℕ) {m : Mem} {p : Pc} {es : List Event}
      → GetStep s.segment (s.pc i) m p es
      → Move s (moved s i m p es)
  release :
      (i : ℕ) {m : Mem} {p : Pc} {es : List Event}
      → ReleaseStep s.segment (s.pc i) m p es
      → Move s (moved s i m p es)

abbrev pub at_rest : Mem → Crowd
at_rest m = record { segment = m; pc = λ i. resting; log = [] }

pub data Reach (m : Mem) : Crowd → Type 0 where
  here : Reach m (at_rest m)
  next : {s t : Crowd} → Reach m s → Move s t → Reach m t

-- The same when no process calls release.
pub data GetReach (m : Mem) : Crowd → Type 0 where
  begin : GetReach m (at_rest m)
  later :
      {s : Crowd} {m' : Mem} {p : Pc} {es : List Event} (i : ℕ)
      → GetReach m s
      → GetStep s.segment (s.pc i) m' p es
      → GetReach m (moved s i m' p es)
