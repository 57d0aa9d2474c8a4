-- ===== src/Socket/Wait.antt =====
-- recvfrom of release/socket.c on an empty ring.
use make_the_american_great.Prelude.{
  ℕ, suc, ◌+◌, ◌^◌, ◌<◌, ◌≡◌, ◌≢◌, refl, ◌⊎◌, inl, inr, Bool-cases, ◌==◌, ne→==-false, ◌++◌, ap,
  ◌∙◌, List, [], ◌∷◌, min, take, true, u32, update, arith,
}
use make_the_american_great.Run.{done}
use make_the_american_great.Ring.{Ring, rb_read}
use make_the_american_great.Ring.Inv.{IsSize, IsValid, used, contents, wrap}
use make_the_american_great.Ring.Read.{after_read, rb_read-done}
use make_the_american_great.Index.{State, resume, ring_key}
use make_the_american_great.Socket.{
  local_port, remote_port, resolve, recvfrom, receive_on, poll, read_ring,
}
use make_the_american_great.Socket.Ports.{read_port_table-known}
use make_the_american_great.Socket.Transfer.{Has, handle, recvfrom-known}

-- A read of an empty ring.
rb_read-empty :
    (n fuel : ℕ) (ring : Ring) (len : ℕ)
    → IsSize n
    → IsValid n ring
    → used n ring ≡ 0
    → len < 2 ^ 31
    → rb_read n (suc fuel) ring len ≡ done (0, [], ring)
rb_read-empty n fuel ring len s v empty int =
    let zero_count : min len (used n ring) ≡ 0 = omega arith in
    let same_head : wrap n (ring.head + 0) ≡ ring.head = ground (arith, v.head_in) in
    rb_read-done n fuel ring len s v int
    ∙ ap (λ c. done (c, take c (contents n ring), after_read n ring c)) zero_count
    ∙ ap (λ h. done (0, [], record ring { head = h })) same_head

-- The state after a read of the ring with key `key` that has left it as `ring`.
abbrev pub with_ring : State → ℕ → Ring → State
with_ring w key ring = record w { rings = update w.rings key ring }

-- The state in which the process goes on after a read that found nothing, when o is what the others
-- did meanwhile.
abbrev pub woken : State → ℕ → (State → State) → State
woken w key o = resume (with_ring w key (w.rings key)) (o (with_ring w key (w.rings key)))

read_ring-done :
    (stat junk : ℕ → ℕ) (fuel n : ℕ) (u : State) (k len : ℕ)
    → IsSize n
    → IsValid n (u.rings (ring_key k))
    → len < 2 ^ 31
    → let m = min len (used n (u.rings (ring_key k))) in
      read_ring stat junk (suc fuel) n (handle k) (u32 len) u
      ≡ done (
        (m, take m (contents n (u.rings (ring_key k)))),
        with_ring u (ring_key k) (after_read n (u.rings (ring_key k)) m),
      )
unfolding read_ring
read_ring-done stat junk fuel n u k len s v int =
    let same : u32 len ≡ len = omega arith in
    rw (same, rb_read-done n fuel (u.rings (ring_key k)) len s v int)

pub read_ring-empty :
    (stat junk : ℕ → ℕ) (fuel n : ℕ) (w : State) (k len : ℕ)
    → IsSize n
    → IsValid n (w.rings (ring_key k))
    → used n (w.rings (ring_key k)) ≡ 0
    → len < 2 ^ 31
    → read_ring stat junk (suc fuel) n (handle k) (u32 len) w
      ≡ done ((0, []), with_ring w (ring_key k) (w.rings (ring_key k)))
unfolding read_ring
read_ring-empty stat junk fuel n w k len s v empty int =
    let same : u32 len ≡ len = omega arith in
    rw (same, rb_read-empty n fuel (w.rings (ring_key k)) len s v empty int)

-- The state after rounds of waiting, when the list is what the others did before each of them.
abbrev pub waited : State → ℕ → List (State → State) → State
waited w key [] = w
waited w key (o ∷ os) = waited (woken w key o) key os

-- In each of these rounds the peer's port is taken and the ring is empty.
abbrev pub IsIdle : ℕ → State → (port key : ℕ) → List (State → State) → Type 0
IsIdle n w port key [] = Unit {0}
IsIdle n w port key (o ∷ os) =
    let u = woken w key o in
    (u.ports port ≢ 0)
    × IsValid n (u.rings key)
    × (used n (u.rings key) ≡ 0)
    × IsIdle n u port key os

module _ (stat junk : ℕ → ℕ) (fuel n : ℕ) (idx k len : ℕ) (s : IsSize n) (int : len < 2 ^ 31) where
  -- What a round of the loop comes to when it finds the peer's port free or bytes in the ring.
  poll-stops :
      (o : State → State) (others : List (State → State)) (w : State)
      → w.port_table_available ≡ true
      → let u = woken w (ring_key k) o in
        let ring = u.rings (ring_key k) in
        let m = min len (used n ring) in
        IsValid n ring
        → (u.ports (remote_port idx) ≡ 0) ⊎ (m ≢ 0)
        → poll stat junk
            (suc fuel)
            n
            (o ∷ others)
            idx
            (handle k)
            len
            (with_ring w (ring_key k) (w.rings (ring_key k)))
          ≡ done ((m, take m (contents n ring)), with_ring u (ring_key k) (after_read n ring m))
  unfolding poll
  poll-stops o others w table v stops =
      let u : State = woken w (ring_key k) o in
      let m : ℕ = min len (used n (u.rings (ring_key k))) in
      rw
        (
          read_port_table-known stat u table (remote_port idx) (omega arith),
          read_ring-done stat junk fuel n u k len s v int,
        )
        (elim stops [
          | inl closed ↦ rw closed refl
          | inr some ↦ elim (Bool-cases (u.ports (remote_port idx) == 0)) [
            | inl closed ↦ rw closed refl
            | inr taken ↦ rw (taken, ne→==-false m 0 some) refl
          ]
        ])

  -- The loop goes on through idle rounds.
  poll-idle :
      (os others : List (State → State)) (w : State)
      → w.port_table_available ≡ true
      → IsIdle n w (remote_port idx) (ring_key k) os
      → let u = waited w (ring_key k) os in
        poll stat junk
          (suc fuel)
          n
          (os ++ others)
          idx
          (handle k)
          len
          (with_ring w (ring_key k) (w.rings (ring_key k)))
        ≡ poll stat junk
            (suc fuel)
            n
            others
            idx
            (handle k)
            len
            (with_ring u (ring_key k) (u.rings (ring_key k)))
  unfolding poll
  poll-idle [] others w table idle = refl
  poll-idle (o ∷ os) others w table idle =
      let u : State = woken w (ring_key k) o in
      rw
        (
          read_port_table-known stat u table (remote_port idx) (omega arith),
          read_ring-empty stat junk fuel n u k len s idle.1 idle.2 int,
          ne→==-false (u.ports (remote_port idx)) 0 idle.0,
        )
        (poll-idle os others u table idle.3)

waited-table :
    (w : State) (key : ℕ) (os : List (State → State))
    → (waited w key os).port_table_available ≡ w.port_table_available
waited-table w key [] = refl
waited-table w key (o ∷ os) = waited-table (woken w key o) key os

-- recvfrom finds the ring empty, and waits for any number of rounds in which the ring stays empty
-- and the peer's port taken; then other processes free the peer's port, or leave bytes in the ring
-- of which some fit. recvfrom returns in that round, with the oldest of the bytes that the ring
-- holds then, as many as fit, or 0 when there is none: bytes that were sent before the peer closed
-- are not lost.
pub recvfrom-awaited :
    (stat junk : ℕ → ℕ) (fuel n : ℕ) (os : List (State → State)) (o : State → State)
    (others : List (State → State)) (w : State) (fd idx k len : ℕ)
    → IsSize n
    → w.port_table_available ≡ true
    → resolve fd w ≡ done (idx, w)
    → Has w (remote_port idx) (local_port idx) k
    → IsValid n (w.rings (ring_key k))
    → used n (w.rings (ring_key k)) ≡ 0
    → len < 2 ^ 31
    → IsIdle n w (remote_port idx) (ring_key k) os
    → let u = woken (waited w (ring_key k) os) (ring_key k) o in
      let ring = u.rings (ring_key k) in
      let m = min len (used n ring) in
      IsValid n ring
      → (u.ports (remote_port idx) ≡ 0) ⊎ (m ≢ 0)
      → recvfrom stat junk (suc fuel) n (os ++ o ∷ others) fd len w
        ≡ done ((m, take m (contents n ring)), with_ring u (ring_key k) (after_read n ring m))
unfolding receive_on
recvfrom-awaited stat junk fuel n os o others w fd idx k len s table e h v empty int idle v' stops =
    recvfrom-known stat junk (suc fuel) n (os ++ o ∷ others) w fd idx k len e h
    ∙ rw (read_ring-empty stat junk fuel n w k len s v empty int) refl
    ∙ poll-idle stat junk fuel n idx k len s int os (o ∷ others) w table idle
    ∙ poll-stops stat junk fuel n idx k len s int o others (waited w (ring_key k) os)
        (waited-table w (ring_key k) os ∙ table) v' stops
