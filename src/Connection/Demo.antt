-- ===== src/Connection/Demo.antt =====
-- TestNonConcurrency of shm/TestConcurrency.cpp from its constructors on.
use mathlib.Core.Path.{subst}
use make_the_american_great.Prelude.{
  ℕ, suc, ◌≡◌, refl, List, [], ◌∷◌, arith, update, update_self, ap, sym, ◌≢◌, ◌∙◌,
}
use make_the_american_great.Run.{done, fault}
use make_the_american_great.Ring.Inv.{IsSize, IsQuiet, contents}
use make_the_american_great.Pool.Chain.{free_indices}
use make_the_american_great.Pool.Apart.{first_free}
use make_the_american_great.Ring.{Ring}
use make_the_american_great.Connection.Trial.{test_non_concurrency, small_ring, other_rings}
use make_the_american_great.Index.{State, get_idx, rb_init, ring_key, nattch}
use make_the_american_great.Index.Owned.{Owned, Acquired, get_idx-Acquired}
use make_the_american_great.Socket.Transfer.{handle}
use make_the_american_great.Socket.Open.{IsBlank}
use make_the_american_great.Socket.Resumed.{blank-IsQuiet, contents-blank}
use make_the_american_great.Connection.{new_ends}
use make_the_american_great.Connection.Opposite.{IsKnown, ends_of, new_ends-known}
use make_the_american_great.Connection.Held.{Holds}

-- Before TestNonConcurrency, when its ports have no index: g₁ and g₂ are the first free indices, and
-- no process is attached to their segments until the first constructor has attached this one.
pub record IsUnused (stat stat' : ℕ → ℕ) (w : State) (frees : List (List ℕ)) (g₁ g₂ : ℕ)
    (gs : List ℕ) : Type 0 where
  pub owned : Owned w frees
  pub free : free_indices 0 frees ≡ g₁ ∷ g₂ ∷ gs
  pub vacant : (w.dst_block 8009 8001 ≡ 0) × (w.dst_block 8001 8009 ≡ 0)
  pub new : (nattch stat (ring_key g₁) ≡ 0) × (nattch stat (ring_key g₂) ≡ 0)
  pub attached : (nattch stat' (ring_key g₁) ≢ 0) × (nattch stat' (ring_key g₂) ≢ 0)
  pub apart : ring_key g₁ ≢ ring_key g₂

abbrev emptied : State → ℕ → State
emptied w key = record w {
  rings = update w.rings key (record (w.rings key) { head = 0; tail = 0; old_tail = 0 });
}

rb_init-new :
    (stat : ℕ → ℕ) (k : ℕ) (w : State)
    → nattch stat (ring_key k) ≡ 0
    → rb_init stat k w ≡ done (handle k, emptied w (ring_key k))
unfolding rb_init
rb_init-new stat k w new = rw new refl

emptied-Holds : (n : ℕ) (w : State) (k : ℕ) → IsSize n → Holds n (emptied w (ring_key k)) k []
emptied-Holds n w k size =
    let rb : Ring = record (w.rings (ring_key k)) { head = 0; tail = 0; old_tail = 0 } in
    let blank : IsBlank rb = record { head = refl; tail = refl; old_tail = refl } in
    let here : (emptied w (ring_key k)).rings (ring_key k) ≡ rb =
      update_self w.rings (ring_key k) rb in
    record {
      quiet = subst (IsQuiet n) (sym here) (blank-IsQuiet n rb size blank);
      bytes = ap (contents n) here ∙ contents-blank n rb blank;
    }

emptied-Owned :
    (w : State) (key : ℕ) (frees : List (List ℕ)) → Owned w frees → Owned (emptied w key) frees
emptied-Owned w key frees o = record {
  free = o.free;
  small = o.small;
  taken = o.taken;
  within = o.within;
  distinct = o.distinct;
}

-- The two connections of the test, and the empty ring from the first to the second.
record Made (stat stat' junk : ℕ → ℕ) (fuel : ℕ) (w : State) (g₁ g₂ : ℕ) : Type 0 where
  w' : State
  makes : new_ends stat junk fuel 8009 8001 w ≡ done (ends_of 8009 8001 g₁ g₂, w')
  makes' : new_ends stat' junk fuel 8001 8009 w' ≡ done (ends_of 8001 8009 g₂ g₁, w')
  empty : (n : ℕ) → IsSize n → Holds n w' g₂ []

module _ (stat stat' junk : ℕ → ℕ) (fuel : ℕ) (w : State) (frees : List (List ℕ)) (g₁ g₂ : ℕ)
    (gs : List ℕ) (z : IsUnused stat stat' w frees g₁ g₂ gs) where
  both-Made : Made stat stat' junk fuel w g₁ g₂
  unfolding new_ends
  both-Made =
      let a : Acquired w 8009 8001 g₁ (g₂ ∷ gs) (get_idx stat junk fuel 8009 8001 w) =
        get_idx-Acquired w frees 8009 8001 g₁ (g₂ ∷ gs) z.owned z.free stat junk fuel (omega arith)
          z.vacant.0 in
      let u : State = emptied a.w' (ring_key g₁) in
      let o : Owned u a.frees = emptied-Owned a.w' (ring_key g₁) a.frees a.owned in
      let b : Acquired u 8001 8009 g₂ gs (get_idx stat junk fuel 8001 8009 u) =
        get_idx-Acquired u a.frees 8001 8009 g₂ gs o a.left stat junk fuel (omega arith)
          (a.others 8001 8009 (λ e. absurd (omega (arith, e))) ∙ z.vacant.1) in
      let w' : State = emptied b.w' (ring_key g₂) in
      let range = first_free w.pool_shm w.chain 0 frees g₁ (g₂ ∷ gs) z.owned.free z.free in
      let range' = first_free u.pool_shm u.chain 0 a.frees g₂ gs o.free a.left in
      let known₁ : IsKnown stat' w' 8009 8001 g₁ = record {
        entry = b.others 8009 8001 (λ e. absurd (omega (arith, e))) ∙ a.mine;
        in_range = omega arith;
        nonzero = λ e. omega (arith, range.0, e);
        attached = z.attached.0;
      } in
      let known₂ : IsKnown stat' w' 8001 8009 g₂ = record {
        entry = b.mine;
        in_range = omega arith;
        nonzero = λ e. omega (arith, range'.0, e);
        attached = z.attached.1;
      } in
      record {
        w' = w';
        makes =
            rw
              (
                a.returns,
                rb_init-new stat g₁ a.w' z.new.0,
                b.returns,
                rb_init-new stat g₂ b.w' z.new.1,
              )
              refl;
        makes' = new_ends-known stat' junk fuel w' 8001 8009 g₂ g₁ known₂ known₁;
        empty = λ n size. emptied-Holds n b.w' g₂ size;
      }

-- TestNonConcurrency on ports that have no index and rings that nothing is attached to: with 20 data
-- bytes, that is with SHM_SIZE 32, every assertion of it holds; with any other number, as with the
-- SHM_SIZE of RingBuffer.h, one fails.
pub test_outcomes :
    (stat stat' junk : ℕ → ℕ) (fuel : ℕ) (w : State) (frees : List (List ℕ)) (g₁ g₂ : ℕ)
    (gs : List ℕ)
    → IsUnused stat stat' w frees g₁ g₂ gs
    → ((w' : State) × (test_non_concurrency stat stat' junk (suc fuel) 20 w ≡ done (tt, w')))
      × ((n : ℕ) → IsSize n → n ≢ 20 → test_non_concurrency stat stat' junk (suc fuel) n w ≡ fault)
unfolding test_non_concurrency
test_outcomes stat stat' junk fuel w frees g₁ g₂ gs z =
    let m = both-Made stat stat' junk (suc fuel) w frees g₁ g₂ gs z in
    let (w', passes) = small_ring stat junk fuel m.w' g₁ g₂ (m.empty 20 (omega arith)) in
    (
      (w', rw (m.makes, m.makes') passes),
      λ n size other.
          rw (m.makes, m.makes')
            (other_rings stat junk fuel m.w' g₁ g₂ n size other (m.empty n size)),
    )
