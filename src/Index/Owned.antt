-- ===== src/Index/Owned.antt =====
-- Which ports have which index, and get_idx of release/RingBuffer.cpp.
use mathlib.Core.Path.{subst}
use make_the_american_great.Prelude.{
  ℕ, ◌*◌, ◌^◌, ◌≤◌, ◌<◌, ◌≡◌, ◌≢◌, refl, ◌∙◌, sym, List, ◌∷◌, length, inl, inr, true, false,
  Bool-cases, ◌==◌, arith, lt→ltb, ==_refl,
}
use make_the_american_great.Run.{Run, done}
use make_the_american_great.Pool.{channel_size, Shm}
use make_the_american_great.Pool.FreeList.{Apart}
use make_the_american_great.Pool.Chain.{AllFree, free_indices}
use make_the_american_great.Pool.Apart.{first_free}
use make_the_american_great.Pool.Get.{pool_get-Got}
use make_the_american_great.Index.{State, with_table, get_idx, acquire_idx, fresh_idx, port_number}

-- The indices of the table are those of the pool's channels that are not free, and no two
-- pairs of ports have the same.
pub record Owned (w : State) (frees : List (List ℕ)) : Type 0 where
  pub free : AllFree w.pool_shm w.chain frees
  pub small : channel_size * length w.chain < 2 ^ 31
  pub taken : (s d : ℕ) → w.dst_block s d ≢ 0 → Apart (w.dst_block s d) (free_indices 0 frees)
  pub within : (s d : ℕ) → w.dst_block s d ≤ channel_size * length w.chain
  pub distinct :
      (s d s' d' : ℕ)
      → w.dst_block s d ≢ 0
      → w.dst_block s d ≡ w.dst_block s' d'
      → (s ≡ s') × (d ≡ d')

equal : (a b : ℕ) → (a == b) ≡ true → a ≡ b
equal a b h = ground arith

unequal : (a b : ℕ) → (a == b) ≡ false → a ≢ b
unequal a b h = ground arith

-- An entry of the table after a store at (s, d): the stored one or an old one.
pub data Entry (w : State) (s d v s' d' : ℕ) : Type 0 where
  stored : s' ≡ s → d' ≡ d → (with_table w s d v).dst_block s' d' ≡ v → Entry w s d v s' d'
  kept :
      (s' ≡ s → d' ≢ d)
      → (with_table w s d v).dst_block s' d' ≡ w.dst_block s' d'
      → Entry w s d v s' d'

pub entry : (w : State) (s d v s' d' : ℕ) → Entry w s d v s' d'
entry w s d v s' d' = elim (Bool-cases (s' == s)) [
  | inr e ↦ kept (λ p. absurd (unequal s' s e p)) (rw e)
  | inl e ↦ elim (Bool-cases (d' == d)) [
    | inl f ↦ stored (equal s' s e) (equal d' d f) (rw (e, f))
    | inr f ↦ kept (λ p. unequal d' d f) (rw (e, f, equal s' s e))
  ]
]

-- What get_idx does when it takes the index g for the ports s and d, with gs left free.
pub record Acquired (w : State) (s d g : ℕ) (gs : List ℕ) (r : Run (ℕ × State)) : Type 0 where
  pub w' : State
  pub shm' : Shm
  pub frees : List (List ℕ)
  pub state : w' ≡ with_table (record w { pool_shm = shm' }) s d g
  pub returns : r ≡ done (g, w')
  pub left : free_indices 0 frees ≡ gs
  pub owned : Owned w' frees
  pub mine : w'.dst_block s d ≡ g
  pub fresh : (s' d' : ℕ) → w.dst_block s' d' ≢ g
  pub others : (s' d' : ℕ) → (s' ≡ s → d' ≢ d) → w'.dst_block s' d' ≡ w.dst_block s' d'

module _ (w : State) (frees : List (List ℕ)) (s d g : ℕ) (gs : List ℕ) (o : Owned w frees)
    (e : free_indices 0 frees ≡ g ∷ gs) where
  fresh-lem : (s' d' : ℕ) → w.dst_block s' d' ≢ g
  fresh-lem s' d' same =
      let range = first_free w.pool_shm w.chain 0 frees g gs o.free e in
      let apart : Apart (w.dst_block s' d') (g ∷ gs) =
        subst (Apart (w.dst_block s' d')) e (o.taken s' d' (λ z. omega (arith, range.0))) in
      apart.0 same

  stored_Owned :
      (shm' : Shm) (frees' : List (List ℕ))
      → AllFree shm' w.chain frees'
      → free_indices 0 frees' ≡ gs
      → Apart g gs
      → Owned (with_table (record w { pool_shm = shm' }) s d g) frees'
  stored_Owned shm' frees' f left apart =
      let range = first_free w.pool_shm w.chain 0 frees g gs o.free e in
      record {
        free = f;
        small = o.small;
        taken = λ s' d' nz. elim (entry w s d g s' d') [
          | stored p q v ↦
              subst (λ x. Apart x (free_indices 0 frees')) (sym v)
                (subst (Apart g) (sym left) apart)
          | kept ne v ↦
              subst (λ x. Apart x (free_indices 0 frees')) (sym v)
                (subst (Apart (w.dst_block s' d')) (sym left)
                  (subst (Apart (w.dst_block s' d')) e (o.taken s' d' (λ z. nz (v ∙ z)))).1)
        ];
        within = λ s' d'. elim (entry w s d g s' d') [
          | stored p q v ↦
              subst (λ x. x ≤ channel_size * length w.chain) (sym v) (omega (arith, range.1))
          | kept ne v ↦ subst (λ x. x ≤ channel_size * length w.chain) (sym v) (o.within s' d')
        ];
        distinct = λ s₁ d₁ s₂ d₂ nz same. elim (entry w s d g s₁ d₁) [
          | stored p q v ↦ elim (entry w s d g s₂ d₂) [
            | stored p' q' v' ↦ (p ∙ sym p', q ∙ sym q')
            | kept ne v' ↦ absurd (fresh-lem s₂ d₂ (sym v' ∙ sym same ∙ v))
          ]
          | kept ne v ↦ elim (entry w s d g s₂ d₂) [
            | stored p' q' v' ↦ absurd (fresh-lem s₁ d₁ (sym v ∙ same ∙ v'))
            | kept ne' v' ↦ o.distinct s₁ d₁ s₂ d₂ (λ z. nz (v ∙ z)) (sym v ∙ same ∙ v')
          ]
        ];
      }

  -- Once it has found no index, get_idx takes the first free one and stores it for the ports,
  -- whatever stands there by then.
  pub acquire_idx-Acquired :
      (stat junk : ℕ → ℕ) (fuel : ℕ) → Acquired w s d g gs (acquire_idx stat junk fuel s d w)
  unfolding acquire_idx fresh_idx
  acquire_idx-Acquired stat junk fuel =
      let (got, apart) =
        pool_get-Got stat junk fuel w.pool_shm w.chain frees g gs o.free e o.small in
      let shm' : Shm = got.shm' in
      record {
        w' = with_table (record w { pool_shm = shm' }) s d g;
        shm' = shm';
        frees = got.frees;
        state = refl;
        returns = rw got.returns refl;
        left = got.rest;
        owned = stored_Owned shm' got.frees got.free got.rest apart;
        mine = rw (==_refl s, ==_refl d);
        fresh = fresh-lem;
        others = λ s' d' ne. elim (entry w s d g s' d') [
          | stored p q v ↦ absurd (ne p q)
          | kept ne' v ↦ v
        ];
      }

  -- get_idx for ports without an index, when the pool has a free one, returns the first free
  -- index, which no other pair of ports has, stores it for these ports only, and keeps the
  -- indices of different ports apart.
  pub get_idx-Acquired :
      (stat junk : ℕ → ℕ) (fuel : ℕ)
      → d < port_number
      → w.dst_block s d ≡ 0
      → Acquired w s d g gs (get_idx stat junk fuel s d w)
  unfolding get_idx
  get_idx-Acquired stat junk fuel port vacant =
      subst (Acquired w s d g gs) (sym (rw (lt→ltb d port_number port, vacant) refl))
        (acquire_idx-Acquired stat junk fuel)
