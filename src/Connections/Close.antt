-- ===== src/Connections/Close.antt =====
-- closeConnection of workspace/io.cpp, in the block and after realloc has moved it.
use mathlib.Core.Path.{subst}
use make_the_american_great.Prelude.{
  ℕ, ◌+◌, ◌*◌, ◌^◌, ◌<◌, ◌≡◌, ◌≢◌, refl, ap, ◌∙◌, sym, [], ◌∷◌, ◌++◌, Bool, true, false, none, some,
  u32, ◌==◌, update, update_self, update_ne, arith, lt→ltb, ne→==-false, ==_refl,
}
use make_the_american_great.Run.{Run, done, fault}
use make_the_american_great.Connections.{
  Pointer, Table, map_key, live, next_slot, add_connection, open_connection, close_connection,
  expand_pool,
}
use make_the_american_great.Connections.Lists.{Below-snoc, Apart-snoc, Distinct-snoc}
use make_the_american_great.Connections.Inv.{
  IsOwned, at_key, elsewhere, found, next_slot-IsSlot, none-some,
}

-- closeConnection of an open connection puts its position at the end of idle_list.
pub record ClosedAt (t : Table) (src dst i : ℕ) (r : Run (Bool × Table)) : Type 0 where
  pub t' : Table
  pub returns : r ≡ done (true, t')
  pub gone : t'.map (map_key src dst) ≡ none
  pub back : t'.idle_list ≡ t.idle_list ++ (i ∷ [])
  pub others : (k : ℕ) → k ≢ map_key src dst → t'.map k ≡ t.map k
  pub owned : IsOwned t'

-- closeConnection of an open connection returns 0, takes it out of the table and puts its position
-- at the end of idle_list; the others stay, and are still at different positions.
pub close_connection-ClosedAt :
    (t : Table) (src dst : ℕ) (p : Pointer)
    → IsOwned t
    → t.map (map_key src dst) ≡ some p
    → ClosedAt t src dst p.index (close_connection src dst t)
unfolding close_connection live
close_connection-ClosedAt t src dst p o e =
    let key : ℕ = map_key src dst in
    let t' : Table = record t {
      idle = update t.idle p.index true;
      idle_list = t.idle_list ++ (p.index ∷ []);
      map = update t.map key none;
    } in
    record {
      t' = t';
      returns = rw (
        close_connection,
        e,
        o.here key p e,
        ==_refl t.base,
        lt→ltb p.index t.capacity (omega (arith, o.used key p e, o.fits)),
      );
      gone = update_self t.map key none;
      back = refl;
      others = λ k ne. update_ne t.map key none k ne;
      owned = record {
        fits = o.fits;
        here = λ k q h. elim (found t key none k q h) [
          | at_key a b ↦ absurd (none-some q b)
          | elsewhere a b ↦ o.here k q b
        ];
        used = λ k q h. elim (found t key none k q h) [
          | at_key a b ↦ absurd (none-some q b)
          | elsewhere a b ↦ o.used k q b
        ];
        busy = λ k q h. elim (found t key none k q h) [
          | at_key a b ↦ absurd (none-some q b)
          | elsewhere a b ↦
              Apart-snoc q.index p.index t.idle_list (o.busy k q b)
                (λ z. a (o.single k key q p b e z))
        ];
        single = λ k k' q q' h h' same. elim (found t key none k q h) [
          | at_key a b ↦ absurd (none-some q b)
          | elsewhere a b ↦ elim (found t key none k' q' h') [
            | at_key a' b' ↦ absurd (none-some q' b')
            | elsewhere a' b' ↦ o.single k k' q q' b b' same
          ]
        ];
        old = Below-snoc t.size p.index t.idle_list o.old (o.used key p e);
        different = Distinct-snoc p.index t.idle_list o.different (o.busy key p e);
      };
    }

-- When the block is full and realloc moves it, openConnection returns 0, and closeConnection of
-- any connection that was open before accesses the block that is gone.
pub close_connection-moved :
    (moved : ℕ → ℕ → ℕ) (t : Table) (src dst src' dst' : ℕ) (p : Pointer)
    → IsOwned t
    → t.size ≡ t.capacity
    → 0 < t.capacity
    → t.capacity * 2 < 2 ^ 32
    → moved t.base (t.capacity * 2) ≢ t.base
    → t.map (map_key src dst) ≡ none
    → t.map (map_key src' dst') ≡ some p
    → (t' : Table) × (open_connection moved src dst t ≡ done (true, t'))
      × (close_connection src' dst' t' ≡ fault)
unfolding open_connection add_connection close_connection live expand_pool
close_connection-moved moved t src dst src' dst' p o full some_room small away vacant open_before =
    let key : ℕ = map_key src dst in
    let key' : ℕ = map_key src' dst' in
    let twice : u32 (t.capacity * 2) ≡ t.capacity * 2 = omega arith in
    let is_full : (t.size == t.capacity) ≡ true =
      subst (λ c. (t.size == c) ≡ true) full (==_refl t.size) in
    let slot = next_slot t.idle_list t.size in
    let s = next_slot-IsSlot t t.idle_list refl o in
    let base' : ℕ = moved t.base (t.capacity * 2) in
    let conn : Pointer = record { block = base'; index = slot.0 } in
    let e : Table = record (expand_pool moved t) { base = base'; capacity = t.capacity * 2 } in
    let t' : Table = record e {
      size = u32 (t.size + 1);
      idle_list = slot.1;
      map = update t.map key (some conn);
      idle = update e.idle slot.0 false;
    } in
    let other : key' ≢ key = λ z. none-some p (sym vacant ∙ ap t.map (sym z) ∙ open_before) in
    let stale : t'.map key' ≡ some p = update_ne t.map key (some conn) key' other ∙ open_before in
    let dangling : p.block ≢ base' = λ z. away (sym z ∙ o.here key' p open_before) in
    (
      t',
      rw (
        open_connection,
        vacant,
        is_full,
        twice,
        ==_refl base',
        lt→ltb slot.0 (t.capacity * 2) (omega (arith, s.below)),
      ),
      rw (close_connection, stale, ne→==-false p.block base' dangling),
    )
