-- ===== src/Index/Tests.antt =====
-- The theorems on the index tables at a concrete pool.
use mathlib.Core.Path.{subst}
use make_the_american_great.Prelude.{
  ℕ, ◌+◌, ◌*◌, ◌≤◌, refl, sym, ◌∙◌, List, [], ◌∷◌, true, false, arith, Mem, ◌==◌, if◌then◌else◌,
}
use make_the_american_great.Pool.{channel_size}
use make_the_american_great.Pool.FreeList.{Apart}
use make_the_american_great.Ring.{Ring}
use make_the_american_great.Index.{State, with_table, get_idx}
use make_the_american_great.Index.Owned.{Owned, Acquired, stored, kept, entry, get_idx-Acquired}

-- A segment in which 5 and then 9 are free.
abbrev pub two_free : Mem
two_free a = if a == 0 then 5 else if a == 5 then 9 else 0

abbrev pub old_ring : Ring
old_ring = record { head = 6; tail = 2; old_tail = 2; content = λ i. i + 10 }

abbrev pub zeros : ℕ → ℕ
zeros k = 0

-- No ports have an index; the process 4242 listens on port 80.
abbrev pub fresh : State
fresh = record {
  pid = 700;
  client_fd_to_idx = zeros;
  rb_memo = λ k. false;
  chain = (record { segment = 100; key = 100 }) ∷ [];
  port_table_available = true;
  ports = λ port. if port == 80 then 4242 else 0;
  dst_block = λ src dst. 0;
  pool_shm = λ key. two_free;
  rings = λ key. old_ring;
  signalled = [];
}

abbrev pub free_lists : List (List ℕ)
free_lists = (5 ∷ 9 ∷ []) ∷ []

pub fresh-Owned : Owned fresh free_lists
fresh-Owned = record {
  free = omega arith;
  small = omega arith;
  taken = λ s d nz. absurd (nz refl);
  within = λ s d. omega arith;
  distinct = λ s d s' d' nz e. absurd (nz refl);
}

-- The ports 5 and 80 have the index 3.
abbrev pub one_taken : State
one_taken = record (with_table fresh 5 80 3) { rb_memo = λ k. true }

pub one_taken-Owned : Owned one_taken free_lists
one_taken-Owned = record {
  free = omega arith;
  small = omega arith;
  taken = λ s d nz. elim (entry fresh 5 80 3 s d) [
    | stored p q v ↦ subst (λ x. Apart x (5 ∷ 9 ∷ [])) (sym v) (omega arith)
    | kept ne v ↦ absurd (nz v)
  ];
  within = λ s d. elim (entry fresh 5 80 3 s d) [
    | stored p q v ↦ subst (λ x. x ≤ channel_size * 1) (sym v) (omega arith)
    | kept ne v ↦ subst (λ x. x ≤ channel_size * 1) (sym v) (omega arith)
  ];
  distinct = λ s d s' d' nz e. elim (entry fresh 5 80 3 s d) [
    | stored p q v ↦ elim (entry fresh 5 80 3 s' d') [
      | stored p' q' v' ↦ (p ∙ sym p', q ∙ sym q')
      | kept ne v' ↦ absurd (nz (e ∙ v'))
    ]
    | kept ne v ↦ absurd (nz v)
  ];
}

get_idx-Acquired_example : Acquired one_taken 80 5 5 (9 ∷ []) (get_idx zeros zeros 0 80 5 one_taken)
get_idx-Acquired_example =
    get_idx-Acquired one_taken free_lists 80 5 5 (9 ∷ []) one_taken-Owned refl zeros zeros 0
      (omega arith) refl
