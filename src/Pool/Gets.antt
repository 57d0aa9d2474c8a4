-- ===== src/Pool/Gets.antt =====
-- Channel::get in any number of processes, in every order of their accesses.
use mathlib.Core.Path.{subst}
use mathlib.Core.List.{append_assoc}
use make_the_american_great.Prelude.{
  ℕ, ◌≡◌, ◌≢◌, refl, ap, ◌∙◌, sym, List, [], ◌∷◌, ◌++◌, Mem, update, update_self, update_ne, arith,
  inl, inr, Bool-cases, ◌==◌, ne→==-false, if◌then◌else◌,
}
use make_the_american_great.Pool.FreeList.{Apart-zero, Leads-update, FreeList}
use make_the_american_great.Pool.Shared.{
  Pc, resting, saw_head, saw_next, releasing, saw_old, linked, Event, got, released, GetStep,
  load_head, load_next, swap_head, lose_head, Crowd, moved, GetReach, begin, later,
}

-- The indices that the calls of get have returned, the first one first. A 0 is no index.
abbrev pub taken : List Event → List ℕ
taken [] = []
taken (got x ∷ log) = taken log ++ (if x == 0 then [] else x ∷ [])
taken (released x ∷ log) = taken log

-- What the locals of a process that is in get say about the segment.
abbrev IsCurrent : Mem → Pc → Type 0
IsCurrent m resting = Unit {0}
IsCurrent m (saw_head ret) = ret ≡ 0 → m 0 ≡ 0
IsCurrent m (saw_next ret new_next) =
    (ret ≢ 0 → new_next ≡ m ret) × (ret ≡ 0 → (m 0 ≡ 0) × (new_next ≡ 0))
IsCurrent m (releasing x) = ⊥
IsCurrent m (saw_old x o) = ⊥
IsCurrent m (linked x o) = ⊥

record Inv (ys : List ℕ) (s : Crowd) : Type 0 where
  left : List ℕ
  free : FreeList s.segment left
  kept : ys ≡ taken s.log ++ left
  current : (i : ℕ) → IsCurrent s.segment (s.pc i)

IsCurrent-swap :
    (m : Mem) (v : ℕ) (p : Pc) → (m 0 ≡ 0 → v ≡ 0) → IsCurrent m p → IsCurrent (update m 0 v) p
IsCurrent-swap m v resting z c = tt
IsCurrent-swap m v (saw_head ret) z c = λ e. update_self m 0 v ∙ z (c e)
IsCurrent-swap m v (saw_next ret new_next) z c =
    (λ ne. c.0 ne ∙ sym (update_ne m 0 v ret ne), λ e. (update_self m 0 v ∙ z (c.1 e).0, (c.1 e).1))
IsCurrent-swap m v (releasing x) z c = c
IsCurrent-swap m v (saw_old x o) z c = c
IsCurrent-swap m v (linked x o) z c = c

-- Process i goes to p', and the others stay where they are.
all-IsCurrent :
    (m : Mem) (pc : ℕ → Pc) (i : ℕ) (p' : Pc)
    → ((j : ℕ) → IsCurrent m (pc j))
    → IsCurrent m p'
    → (j : ℕ) → IsCurrent m (update pc i p' j)
all-IsCurrent m pc i p' others mine j = elim (Bool-cases (j == i)) [
  | inl e ↦ rw e mine
  | inr e ↦ rw e (others j)
]

-- A swap takes the first free index, or finds none.
record Swapped (ys : List ℕ) (log : List Event) (m' : Mem) (ret : ℕ) : Type 0 where
  left : List ℕ
  free : FreeList m' left
  kept : ys ≡ taken (got ret ∷ log) ++ left

swapped :
    (ys : List ℕ) (log : List Event) (m : Mem) (ret v : ℕ) (left : List ℕ)
    → FreeList m left
    → ys ≡ taken log ++ left
    → m 0 ≡ ret
    → IsCurrent m (saw_next ret v)
    → Swapped ys log (update m 0 v) ret
swapped ys log m ret v [] f kept e c =
    let none_left : ret ≡ 0 = sym e ∙ f in
    record {
      left = [];
      free = update_self m 0 v ∙ (c.1 none_left).1;
      kept = rw none_left (kept ∙ sym (append_assoc (taken log) [] []));
    }
swapped ys log m ret v (x ∷ xs) f kept e c =
    let first : ret ≡ x = sym e ∙ f.0 in
    let some_index : ret ≢ 0 = λ z. omega (arith, f.1) in
    let link : v ≡ m x = c.0 some_index ∙ ap m first in
    let free : FreeList (update m 0 (m x)) xs =
      Leads-update m (m x) 0 (m x) xs (Apart-zero m (m x) xs f.4) f.4 in
    record {
      left = xs;
      free = subst (λ w. FreeList (update m 0 w) xs) (sym link) free;
      kept =
          rw (first, ne→==-false x 0 (λ z. omega (arith, f.1)))
            (kept ∙ sym (append_assoc (taken log) (x ∷ []) xs));
    }

GetStep-Inv :
    (ys : List ℕ) (s : Crowd) (i : ℕ) {p p' : Pc} {m' : Mem} {es : List Event}
    → GetStep s.segment p m' p' es
    → IsCurrent s.segment p
    → Inv ys s
    → Inv ys (moved s i m' p' es)
GetStep-Inv ys s i load_head c inv = record {
  left = inv.left;
  free = inv.free;
  kept = inv.kept;
  current = all-IsCurrent s.segment s.pc i (saw_head (s.segment 0)) inv.current (λ e. e);
}
GetStep-Inv ys s i (load_next {ret}) c inv = record {
  left = inv.left;
  free = inv.free;
  kept = inv.kept;
  current =
      all-IsCurrent s.segment s.pc i (saw_next ret (s.segment ret)) inv.current
        (λ ne. refl, λ e. (c e, ap s.segment e ∙ c e));
}
GetStep-Inv ys s i (swap_head {ret} {new_next} e) c inv =
    let m : Mem = s.segment in
    let out = swapped ys s.log m ret new_next inv.left inv.free inv.kept e c in
    record {
      left = out.left;
      free = out.free;
      kept = out.kept;
      current =
          all-IsCurrent (update m 0 new_next) s.pc i resting
            (λ j. IsCurrent-swap m new_next (s.pc j) (λ z. (c.1 (sym e ∙ z)).1) (inv.current j)) tt;
    }
GetStep-Inv ys s i (lose_head other) c inv = record {
  left = inv.left;
  free = inv.free;
  kept = inv.kept;
  current = all-IsCurrent s.segment s.pc i resting inv.current tt;
}

GetReach-Inv : (m : Mem) (ys : List ℕ) {s : Crowd} → FreeList m ys → GetReach m s → Inv ys s
GetReach-Inv m ys f begin = record { left = ys; free = f; kept = refl; current = λ i. tt }
GetReach-Inv m ys f (later {s} i r st) =
    let inv = GetReach-Inv m ys f r in GetStep-Inv ys s i st (inv.current i) inv

-- Any number of processes call get on a channel at the same time, their accesses come in any order,
-- and none calls release. At every point the indices that the calls have returned, in their order,
-- followed by those that are still free, are exactly the indices that were free at the beginning:
-- no index is returned twice and none is lost.
pub taken-then-free :
    (m : Mem) (ys : List ℕ) (s : Crowd)
    → FreeList m ys
    → GetReach m s
    → (left : List ℕ) × FreeList s.segment left × (ys ≡ taken s.log ++ left)
taken-then-free m ys s f r = let inv = GetReach-Inv m ys f r in (inv.left, inv.free, inv.kept)
