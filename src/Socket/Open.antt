-- ===== src/Socket/Open.antt =====
-- The ring of ports that have no index yet, as the calls of release/socket.c look it up.
use mathlib.Core.Path.{subst}
use make_the_american_great.Prelude.{
  ℕ, refl, sym, ◌∙◌, false, update_ne, ◌<◌, ◌≡◌, ◌≢◌, ap, List, ◌∷◌, inl, inr, Bool-cases, Bool,
  true, Option, some, update, arith, ne→==-false, ◌==◌, update_self,
}
use make_the_american_great.Run.{Run, done}
use make_the_american_great.Ring.{Ring}
use make_the_american_great.Pool.Chain.{free_indices}
use make_the_american_great.Pool.Apart.{first_free}
use make_the_american_great.Index.{
  State, Handle, get_idx, ring_key, nattch, rb_get, rb_init, port_number, minus,
}
use make_the_american_great.Index.Owned.{Owned, Acquired, get_idx-Acquired}
use make_the_american_great.Socket.{ring_for}
use make_the_american_great.Socket.Transfer.{Has, handle}

-- A ring that rb_init has emptied.
pub record IsBlank (rb : Ring) : Type 0 where
  pub head : rb.head ≡ 0
  pub tail : rb.tail ≡ 0
  pub old_tail : rb.old_tail ≡ 0

-- rb_get of an index that is not -1 returns its handle, and notes that it has the ring.
pub record Got (stat : ℕ → ℕ) (w : State) (k : ℕ) (r : Run (Option Handle × State)) : Type 0 where
  pub rings' : ℕ → Ring
  pub memo' : ℕ → Bool
  pub returns : r ≡ done (some (handle k), record w { rings = rings'; rb_memo = memo' })
  pub noted : memo' k ≡ true
  pub memo_kept : (j : ℕ) → j ≢ k → memo' j ≡ w.rb_memo j
  pub blank : w.rb_memo k ≡ false → nattch stat (ring_key k) ≡ 0 → IsBlank (rings' (ring_key k))
  pub attached : nattch stat (ring_key k) ≢ 0 → rings' ≡ w.rings
  pub rings_kept : (key : ℕ) → key ≢ ring_key k → rings' key ≡ w.rings key

pub rb_get-Got : (stat : ℕ → ℕ) (w : State) (k : ℕ) → k ≢ minus 1 → Got stat w k (rb_get stat k w)
unfolding rb_get rb_init
rb_get-Got stat w k h = elim (Bool-cases (w.rb_memo k)) [
  | inl e ↦ record {
    rings' = w.rings;
    memo' = w.rb_memo;
    returns = rw (ne→==-false k (minus 1) h, e);
    noted = e;
    memo_kept = λ j ne. refl;
    blank = λ no_ring new. cc;
    attached = λ old. refl;
    rings_kept = λ key ne. refl;
  }
  | inr e ↦ elim (Bool-cases (nattch stat (ring_key k) == 0)) [
    | inl new ↦ record {
      rings' =
          update w.rings (ring_key k)
            (record (w.rings (ring_key k)) { head = 0; tail = 0; old_tail = 0 });
      memo' = update w.rb_memo k true;
      returns = rw (ne→==-false k (minus 1) h, e, new);
      noted = update_self w.rb_memo k true;
      memo_kept = λ j ne. update_ne w.rb_memo k true j ne;
      blank = λ no_ring z.
          subst IsBlank
            (sym (
              update_self w.rings (ring_key k)
                (record (w.rings (ring_key k)) { head = 0; tail = 0; old_tail = 0 })))
            (record { head = refl; tail = refl; old_tail = refl });
      attached = λ old. absurd (ground arith);
      rings_kept = λ key ne.
          update_ne w.rings (ring_key k)
            (record (w.rings (ring_key k)) { head = 0; tail = 0; old_tail = 0 }) key ne;
    }
    | inr old ↦ record {
      rings' = w.rings;
      memo' = update w.rb_memo k true;
      returns = rw (ne→==-false k (minus 1) h, e, old);
      noted = update_self w.rb_memo k true;
      memo_kept = λ j ne. update_ne w.rb_memo k true j ne;
      blank = λ no_ring z. absurd (ground arith);
      attached = λ old. refl;
      rings_kept = λ key ne. refl;
    }
  ]
]

-- The ring of the ports s and d is opened under the first free index g: gs is left free, and only
-- the tables of indices, the pool and the rings have changed.
pub record Opened (stat : ℕ → ℕ) (w : State) (s d g : ℕ) (gs : List ℕ)
    (r : Run (Option Handle × State)) : Type 0 where
  pub w' : State
  pub frees : List (List ℕ)
  pub returns : r ≡ done (some (handle g), w')
  pub left : free_indices 0 frees ≡ gs
  pub owned : Owned w' frees
  pub has : Has w' s d g
  pub ports_kept : w'.ports ≡ w.ports
  pub table_kept : w'.port_table_available ≡ w.port_table_available
  pub fds_kept : w'.client_fd_to_idx ≡ w.client_fd_to_idx
  pub signals_kept : w'.signalled ≡ w.signalled
  pub pid_kept : w'.pid ≡ w.pid
  pub chain_kept : w'.chain ≡ w.chain
  pub entries_kept : (s' d' : ℕ) → (s' ≡ s → d' ≢ d) → w'.dst_block s' d' ≡ w.dst_block s' d'
  pub memo_kept : (j : ℕ) → j ≢ g → w'.rb_memo j ≡ w.rb_memo j
  pub blank : w.rb_memo g ≡ false → nattch stat (ring_key g) ≡ 0 → IsBlank (w'.rings (ring_key g))

-- ring_for, the lookup rb_get (get_idx (src, dst)) of every call, for ports that have no index.
pub ring_for-Opened :
    (stat junk : ℕ → ℕ) (fuel : ℕ) (w : State) (frees : List (List ℕ)) (s d g : ℕ) (gs : List ℕ)
    → Owned w frees
    → free_indices 0 frees ≡ g ∷ gs
    → d < port_number
    → w.dst_block s d ≡ 0
    → Opened stat w s d g gs (ring_for stat junk fuel s d w)
unfolding ring_for
ring_for-Opened stat junk fuel w frees s d g gs o e port vacant =
    let a : Acquired w s d g gs (get_idx stat junk fuel s d w) =
      get_idx-Acquired w frees s d g gs o e stat junk fuel port vacant in
    let range = first_free w.pool_shm w.chain 0 frees g gs o.free e in
    let got : Got stat a.w' g (rb_get stat g a.w') =
      rb_get-Got stat a.w' g (λ z. omega (arith, range.1, o.small)) in
    let w' : State = record a.w' { rings = got.rings'; rb_memo = got.memo' } in
    record {
      w' = w';
      frees = a.frees;
      returns = rw (a.returns, got.returns);
      left = a.left;
      owned = record {
        free = a.owned.free;
        small = a.owned.small;
        taken = a.owned.taken;
        within = a.owned.within;
        distinct = a.owned.distinct;
      };
      has = record {
        entry = a.mine;
        in_range = port;
        nonzero = λ z. omega (arith, range.0);
        not_minus = λ z. omega (arith, range.1, o.small);
        memo = got.noted;
      };
      ports_kept = ap (λ u. u.ports) a.state;
      table_kept = ap (λ u. u.port_table_available) a.state;
      fds_kept = ap (λ u. u.client_fd_to_idx) a.state;
      signals_kept = ap (λ u. u.signalled) a.state;
      pid_kept = ap (λ u. u.pid) a.state;
      chain_kept = ap (λ u. u.chain) a.state;
      entries_kept = a.others;
      memo_kept = λ j ne. got.memo_kept j ne ∙ ap (λ u. u.rb_memo j) a.state;
      blank = λ no_ring new. got.blank (ap (λ u. u.rb_memo g) a.state ∙ no_ring) new;
    }
