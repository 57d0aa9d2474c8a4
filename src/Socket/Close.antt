-- ===== src/Socket/Close.antt =====
-- close of release/socket.c: the port, the entry of the index table, and the index.
use mathlib.Core.Path.{subst}
use mathlib.Core.List.{Perm}
use make_the_american_great.Prelude.{
  ℕ, ◌+◌, ◌*◌, ◌^◌, ◌≤◌, ◌<◌, ◌≡◌, ◌≢◌, refl, ap, ◌∙◌, sym, List, ◌∷◌, length, some, true, update,
  arith, lt→ltb, ==_refl, update_self,
}
use make_the_american_great.Run.{Run, done}
use make_the_american_great.Pool.{channel_size}
use make_the_american_great.Pool.FreeList.{Apart}
use make_the_american_great.Pool.Chain.{AllFree, free_indices}
use make_the_american_great.Pool.Apart.{Apart-Perm}
use make_the_american_great.Pool.Release.{pool_release-Released}
use make_the_american_great.Index.{State, with_table, clear_idx, rb_destroy, port_number}
use make_the_american_great.Index.Owned.{Owned, stored, kept, entry}
use make_the_american_great.Socket.{local_port, remote_port, resolve, close_ring, close}
use make_the_american_great.Socket.Ports.{write_port_table-known}
use make_the_american_great.Socket.Transfer.{Has, handle, ring_for-known}

-- The index k of the ports s and d is given back: their entry is 0, k is free beside the indices
-- that were, the indices of different ports are still apart, and the rings are as they were.
pub record Freed (w : State) (s d k : ℕ) (frees : List (List ℕ)) (r : Run (ℕ × State))
    : Type 0 where
  pub w' : State
  pub frees' : List (List ℕ)
  pub returns : r ≡ done (0, w')
  pub back : Perm (free_indices 0 frees') (k ∷ free_indices 0 frees)
  pub owned : Owned w' frees'
  pub vacant : w'.dst_block s d ≡ 0
  pub port : w'.ports d ≡ 0
  pub rings_kept : w'.rings ≡ w.rings

module _ (w : State) (frees : List (List ℕ)) (s d k : ℕ) (o : Owned w frees) (h : Has w s d k) where
  -- No other ports have the index.
  only : (s' d' : ℕ) → (s' ≡ s → d' ≢ d) → w.dst_block s' d' ≢ k
  only s' d' ne same =
      let (p, q) = o.distinct s' d' s d (λ z. h.nonzero (sym same ∙ z)) (same ∙ sym h.entry) in
      ne p q

  cleared_Owned :
      (w' : State) (frees' : List (List ℕ))
      → w'.dst_block ≡ (with_table w s d 0).dst_block
      → w'.chain ≡ w.chain
      → AllFree w'.pool_shm w.chain frees'
      → Perm (free_indices 0 frees') (k ∷ free_indices 0 frees)
      → Owned w' frees'
  cleared_Owned w' frees' table chain f back =
      let same_at : (s' d' : ℕ) → w'.dst_block s' d' ≡ (with_table w s d 0).dst_block s' d' =
        λ s' d'. ap (λ t. t s' d') table in
      record {
        free = subst (λ c. AllFree w'.pool_shm c frees') (sym chain) f;
        small = subst (λ c. channel_size * length c < 2 ^ 31) (sym chain) o.small;
        taken = λ s' d' nz. elim (entry w s d 0 s' d') [
          | stored p q v ↦ absurd (nz (same_at s' d' ∙ v))
          | kept ne v ↦
              subst (λ x. Apart x (free_indices 0 frees')) (sym (same_at s' d' ∙ v))
                (Apart-Perm (w.dst_block s' d') (free_indices 0 frees') (k ∷ free_indices 0 frees)
                  back (only s' d' ne, o.taken s' d' (λ z. nz (same_at s' d' ∙ v ∙ z))))
        ];
        within = λ s' d'. elim (entry w s d 0 s' d') [
          | stored p q v ↦ rw (same_at s' d', v) (omega arith)
          | kept ne v ↦ rw (same_at s' d', v, chain) (o.within s' d')
        ];
        distinct = λ s₁ d₁ s₂ d₂ nz same. elim (entry w s d 0 s₁ d₁) [
          | stored p q v ↦ absurd (nz (same_at s₁ d₁ ∙ v))
          | kept ne v ↦ elim (entry w s d 0 s₂ d₂) [
            | stored p' q' v' ↦ absurd (nz (same ∙ same_at s₂ d₂ ∙ v'))
            | kept ne' v' ↦
                o.distinct s₁ d₁ s₂ d₂ (λ z. nz (same_at s₁ d₁ ∙ v ∙ z))
                  (sym (same_at s₁ d₁ ∙ v) ∙ same ∙ same_at s₂ d₂ ∙ v')
          ]
        ];
      }

  close_ring-Freed :
      (stat junk : ℕ → ℕ) (fuel idx : ℕ) (ports' : ℕ → ℕ)
      → remote_port idx ≡ s
      → local_port idx ≡ d
      → ports' d ≡ 0
      → Freed w s d k frees
          (close_ring stat junk fuel idx (some (handle k)) (record w { ports = ports' }))
  unfolding close_ring clear_idx rb_destroy
  close_ring-Freed stat junk fuel idx ports' src dst zero_port =
      let range : k ≤ channel_size * length w.chain =
        subst (λ x. x ≤ channel_size * length w.chain) h.entry (o.within s d) in
      let apart : Apart k (free_indices 0 frees) =
        subst (λ x. Apart x (free_indices 0 frees)) h.entry
          (o.taken s d (λ z. h.nonzero (sym h.entry ∙ z))) in
      let nz : k ≢ 0 = h.nonzero in
      let number : k ≡ 0 + k = omega arith in
      let out =
        pool_release-Released w.pool_shm w.chain 0 frees k o.free (omega arith) range
          (omega (arith, o.small)) (subst (λ x. Apart x (free_indices 0 frees)) number apart) in
      let back : Perm (free_indices 0 out.frees) (k ∷ free_indices 0 frees) =
        subst (λ x. Perm (free_indices 0 out.frees) (x ∷ free_indices 0 frees)) (sym number)
          out.rest in
      let w' : State = record (with_table w s d 0) { ports = ports'; pool_shm = out.shm' } in
      record {
        w' = w';
        frees' = out.frees;
        returns = rw (src, dst, lt→ltb d port_number h.in_range, out.returns);
        back = back;
        owned = cleared_Owned w' out.frees refl refl out.free back;
        vacant = rw (==_refl s, ==_refl d);
        port = zero_port;
        rings_kept = refl;
      }

-- close of an end that has its ring, in a process that has the port table, returns 0. Its local
-- port is free then, the ring's index is free beside the indices that were and stands under no
-- ports, the indices of different ports are still apart, and no ring has changed: the bytes that
-- the ring holds are still there for the connection that gets the index next.
pub close-Freed :
    (stat junk : ℕ → ℕ) (fuel : ℕ) (w : State) (frees : List (List ℕ)) (fd idx k : ℕ)
    → Owned w frees
    → w.port_table_available ≡ true
    → resolve fd w ≡ done (idx, w)
    → Has w (remote_port idx) (local_port idx) k
    → Freed w (remote_port idx) (local_port idx) k frees (close stat junk fuel fd w)
unfolding close
close-Freed stat junk fuel w frees fd idx k o table e h =
    let ports' : ℕ → ℕ = update w.ports (local_port idx) 0 in
    let w₁ : State = record w { ports = ports' } in
    let has : Has w₁ (remote_port idx) (local_port idx) k = record {
      entry = h.entry;
      in_range = h.in_range;
      nonzero = h.nonzero;
      not_minus = h.not_minus;
      memo = h.memo;
    } in
    rw
      (
        e,
        write_port_table-known stat w table (local_port idx) 0 h.in_range,
        ring_for-known stat junk fuel w₁ (remote_port idx) (local_port idx) k has,
      )
      (close_ring-Freed w frees (remote_port idx) (local_port idx) k o h stat junk fuel idx ports'
        refl refl (update_self w.ports (local_port idx) 0))
