-- ===== src/Socket/Resumed.antt =====
-- What a process finds when it resumes after another, in the index tables of release/RingBuffer.cpp.
use mathlib.Core.Path.{subst}
use make_the_american_great.Prelude.{
  ℕ, ◌+◌, ◌*◌, ◌^◌, ◌<◌, ◌≤◌, ◌≡◌, ◌≢◌, refl, ap, ◌∙◌, sym, List, [], length, true, false, arith,
  ne→==-false, lt→ltb, ◌==◌, if◌then◌else◌, inl, inr, Bool-cases, generate,
}
use make_the_american_great.Ring.{Ring}
use make_the_american_great.Ring.Inv.{IsSize, IsQuiet, used, contents, wrap}
use make_the_american_great.Pool.{channel_size}
use make_the_american_great.Pool.FreeList.{Apart}
use make_the_american_great.Pool.Chain.{AllFree, free_indices}
use make_the_american_great.Index.{State, resume, port_number, minus, get_idx}
use make_the_american_great.Index.Owned.{Owned}
use make_the_american_great.Socket.{ring_for}
use make_the_american_great.Socket.Open.{IsBlank, Got, rb_get-Got}

-- A process that uses no block of its own under the source port 0.
abbrev pub NoPrivate : State → Type 0
NoPrivate w = (d : ℕ) → w.dst_block 0 d ≡ 0

pub resumed_entry :
    (mine theirs : State) (s d : ℕ)
    → s ≢ 0
    → (resume mine theirs).dst_block s d ≡ theirs.dst_block s d
resumed_entry mine theirs s d ne = rw (ne→==-false s 0 ne)

-- An index under some ports of a process that resumes stands under the same ports of the other.
resumed_shared :
    (mine theirs : State) (s d : ℕ)
    → NoPrivate mine
    → (resume mine theirs).dst_block s d ≢ 0
    → (resume mine theirs).dst_block s d ≡ theirs.dst_block s d
resumed_shared mine theirs s d own nz = elim (Bool-cases (s == 0)) [
  | inl e ↦ absurd (nz (ap (λ z. (if z then mine.dst_block 0 else theirs.dst_block s) d) e ∙ own d))
  | inr e ↦ rw e
]

-- The indices are as well apart for a process that resumes with the same channels.
pub resume-Owned :
    (mine theirs : State) (frees : List (List ℕ))
    → Owned theirs frees
    → mine.chain ≡ theirs.chain
    → NoPrivate mine
    → Owned (resume mine theirs) frees
resume-Owned mine theirs frees o same own =
    let u : State = resume mine theirs in
    let shared : (s d : ℕ) → u.dst_block s d ≢ 0 → u.dst_block s d ≡ theirs.dst_block s d =
      λ s d nz. resumed_shared mine theirs s d own nz in
    let nonzero : (s d : ℕ) → u.dst_block s d ≢ 0 → theirs.dst_block s d ≢ 0 =
      λ s d nz z. nz (shared s d nz ∙ z) in
    record {
      free = subst (λ c. AllFree theirs.pool_shm c frees) (sym same) o.free;
      small = subst (λ c. channel_size * length c < 2 ^ 31) (sym same) o.small;
      taken = λ s d nz.
          subst (λ x. Apart x (free_indices 0 frees)) (sym (shared s d nz))
            (o.taken s d (nonzero s d nz));
      within = λ s d. elim (Bool-cases (u.dst_block s d == 0)) [
        | inl e ↦ omega (arith, equal_zero (u.dst_block s d) e)
        | inr e ↦
            subst (λ c. u.dst_block s d ≤ channel_size * length c) (sym same)
              (omega (arith, shared s d (not_zero (u.dst_block s d) e), o.within s d))
      ];
      distinct = λ s d s' d' nz e.
          o.distinct s d s' d' (nonzero s d nz)
            (sym (shared s d nz) ∙ e ∙ shared s' d' (λ z. nz (e ∙ z)));
    }
  where
    equal_zero : (a : ℕ) → (a == 0) ≡ true → a ≡ 0
    equal_zero a e = ground arith

    not_zero : (a : ℕ) → (a == 0) ≡ false → a ≢ 0
    not_zero a e = ground arith

-- get_idx of ports that have an index, and rb_get of it: the rings change only when the process
-- attaches first.
pub ring_for-Got :
    (stat junk : ℕ → ℕ) (fuel : ℕ) (w : State) (s d k : ℕ)
    → d < port_number
    → w.dst_block s d ≡ k
    → k ≢ 0
    → k ≢ minus 1
    → Got stat w k (ring_for stat junk fuel s d w)
unfolding ring_for get_idx
ring_for-Got stat junk fuel w s d k port entry nz real =
    subst (Got stat w k) (sym (rw (lt→ltb d port_number port, entry, ne→==-false k 0 nz) refl))
      (rb_get-Got stat w k real)

-- A blank ring is well formed and empty.
pub blank-IsQuiet : (n : ℕ) (rb : Ring) → IsSize n → IsBlank rb → IsQuiet n rb
blank-IsQuiet n rb s b = record {
  valid = record {
    head_in = omega (arith, b.head, s.positive);
    tail_in = omega (arith, b.tail, s.positive);
    old_tail_in = omega (arith, b.old_tail, s.positive);
  };
  published = b.old_tail ∙ sym b.tail;
}

pub used-blank : (n : ℕ) (rb : Ring) → IsBlank rb → used n rb ≡ 0
used-blank n rb b = ground (arith, b.head, b.old_tail)

pub contents-blank : (n : ℕ) (rb : Ring) → IsBlank rb → contents n rb ≡ []
contents-blank n rb b = ap (generate (λ i. rb.content (wrap n (rb.head + i)))) (used-blank n rb b)
