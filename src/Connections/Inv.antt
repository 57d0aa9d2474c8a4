-- ===== src/Connections/Inv.antt =====
-- The positions of the connections in the table of workspace/io.cpp, and openConnection.
use mathlib.Core.Path.{subst}
use make_the_american_great.Prelude.{
  ℕ, ◌+◌, ◌^◌, ◌≤◌, ◌<◌, ◌≡◌, ◌≢◌, refl, ◌∙◌, sym, List, [], ◌∷◌, Bool, true, false, Option, none,
  some, u32, ◌==◌, update, update_self, update_ne, arith, lt→ltb, ne→==-false, ==_refl, inl, inr,
  Bool-cases,
}
use make_the_american_great.Run.{Run, done}
use make_the_american_great.Pool.FreeList.{Apart}
use make_the_american_great.Pool.Chain.{Distinct}
use make_the_american_great.Connections.{
  Pointer, Table, init, map_key, live, next_slot, add_connection, open_connection,
}
use make_the_american_great.Connections.Lists.{Below, Below-le}

-- The open connections are in the current block, at different positions that have been used, and
-- none of them is in idle_list, which holds different positions that have been used.
pub record IsOwned (t : Table) : Type 0 where
  pub fits : t.size ≤ t.capacity
  pub here : (k : ℕ) (p : Pointer) → t.map k ≡ some p → p.block ≡ t.base
  pub used : (k : ℕ) (p : Pointer) → t.map k ≡ some p → p.index < t.size
  pub busy : (k : ℕ) (p : Pointer) → t.map k ≡ some p → Apart p.index t.idle_list
  pub single :
      (k k' : ℕ) (p p' : Pointer)
      → t.map k ≡ some p
      → t.map k' ≡ some p'
      → p.index ≡ p'.index
      → k ≡ k'
  pub old : Below t.size t.idle_list
  pub different : Distinct t.idle_list

pub none-some : (p : Pointer) → none ≡ some p → ⊥
none-some p e = cc

-- The table starts without connections.
init-IsOwned : (base size : ℕ) → IsOwned (init base size)
unfolding init
init-IsOwned base size = record {
  fits = omega arith;
  here = λ k p e. absurd (none-some p e);
  used = λ k p e. absurd (none-some p e);
  busy = λ k p e. absurd (none-some p e);
  single = λ k k' p p' e e' same. absurd (none-some p e);
  old = tt;
  different = tt;
}

-- A connection of the table after a change at the key k.
pub data Found (t : Table) (k : ℕ) (v : Option Pointer) (k' : ℕ) (p : Pointer) : Type 0 where
  at_key : k' ≡ k → v ≡ some p → Found t k v k' p
  elsewhere : k' ≢ k → t.map k' ≡ some p → Found t k v k' p

pub found :
    (t : Table) (k : ℕ) (v : Option Pointer) (k' : ℕ) (p : Pointer)
    → update t.map k v k' ≡ some p
    → Found t k v k' p
found t k v k' p e = elim (Bool-cases (k' == k)) [
  | inl h ↦ at_key (ground arith) (rw h at e)
  | inr h ↦ elsewhere (ground arith) (rw h at e)
]

-- The position i is taken, and rest is left in idle_list.
pub record IsSlot (t : Table) (i : ℕ) (rest : List ℕ) : Type 0 where
  pub below : i < t.size + 1
  free : (k : ℕ) (p : Pointer) → t.map k ≡ some p → p.index ≢ i
  apart : (k : ℕ) (p : Pointer) → t.map k ≡ some p → Apart p.index rest
  out : Apart i rest
  old : Below t.size rest
  different : Distinct rest

pub next_slot-IsSlot :
    (t : Table) (xs : List ℕ)
    → t.idle_list ≡ xs
    → IsOwned t
    → IsSlot t (next_slot xs t.size).0 (next_slot xs t.size).1
unfolding next_slot
next_slot-IsSlot t [] e o = record {
  below = omega arith;
  free = λ k p h z. omega (arith, o.used k p h);
  apart = λ k p h. tt;
  out = tt;
  old = tt;
  different = tt;
}
next_slot-IsSlot t (i ∷ rest) e o =
    let old : Below t.size (i ∷ rest) = subst (Below t.size) e o.old in
    let different : Distinct (i ∷ rest) = subst Distinct e o.different in
    record {
      below = omega (arith, old.0);
      free = λ k p h. (subst (Apart p.index) e (o.busy k p h)).0;
      apart = λ k p h. (subst (Apart p.index) e (o.busy k p h)).1;
      out = different.0;
      old = old.1;
      different = different.1;
    }

-- openConnection of new ports puts the connection at a position that no other connection has.
pub record OpenedAt (t : Table) (src dst : ℕ) (r : Run (Bool × Table)) : Type 0 where
  pub t' : Table
  pub i : ℕ
  pub returns : r ≡ done (true, t')
  pub mine : t'.map (map_key src dst) ≡ some (record { block = t.base; index = i })
  pub alone : (k : ℕ) (p : Pointer) → t.map k ≡ some p → p.index ≢ i
  pub others : (k : ℕ) → k ≢ map_key src dst → t'.map k ≡ t.map k
  pub owned : IsOwned t'

pub index_of :
    (i : ℕ) (b : ℕ) (p : Pointer) → some (record { block = b; index = i }) ≡ some p → i ≡ p.index
index_of i b p e = cc

pub block_of :
    (i : ℕ) (b : ℕ) (p : Pointer) → some (record { block = b; index = i }) ≡ some p → b ≡ p.block
block_of i b p e = cc

module _ (t : Table) (key i : ℕ) (rest : List ℕ) (o : IsOwned t) (s : IsSlot t i rest)
    (room : t.size < t.capacity) where
  put_IsOwned : IsOwned (record t {
    size = t.size + 1;
    idle_list = rest;
    map = update t.map key (some (record { block = t.base; index = i }));
    idle = update t.idle i false;
  })
  put_IsOwned =
      let v : Option Pointer = some (record { block = t.base; index = i }) in
      record {
        fits = omega (arith, room);
        here = λ k p e. elim (found t key v k p e) [
          | at_key a b ↦ sym (block_of i t.base p b)
          | elsewhere a b ↦ o.here k p b
        ];
        used = λ k p e. elim (found t key v k p e) [
          | at_key a b ↦ omega (arith, s.below, index_of i t.base p b)
          | elsewhere a b ↦ omega (arith, o.used k p b)
        ];
        busy = λ k p e. elim (found t key v k p e) [
          | at_key a b ↦ subst (λ x. Apart x rest) (index_of i t.base p b) s.out
          | elsewhere a b ↦ s.apart k p b
        ];
        single = λ k k' p p' e e' same. elim (found t key v k p e) [
          | at_key a b ↦ elim (found t key v k' p' e') [
            | at_key a' b' ↦ a ∙ sym a'
            | elsewhere a' b' ↦ absurd (s.free k' p' b' (sym same ∙ sym (index_of i t.base p b)))
          ]
          | elsewhere a b ↦ elim (found t key v k' p' e') [
            | at_key a' b' ↦ absurd (s.free k p b (same ∙ sym (index_of i t.base p' b')))
            | elsewhere a' b' ↦ o.single k k' p p' b b' same
          ]
        ];
        old = Below-le t.size (t.size + 1) rest (omega arith) s.old;
        different = s.different;
      }

-- openConnection of ports that have no connection, with room in the block, returns 0. The new
-- connection is at a position that no other has, the others stay as they are, and all connections
-- are still at different positions.
pub open_connection-OpenedAt :
    (moved : ℕ → ℕ → ℕ) (t : Table) (src dst : ℕ)
    → IsOwned t
    → t.map (map_key src dst) ≡ none
    → t.size < t.capacity
    → t.capacity < 2 ^ 32
    → OpenedAt t src dst (open_connection moved src dst t)
unfolding open_connection add_connection live
open_connection-OpenedAt moved t src dst o vacant room small =
    let key : ℕ = map_key src dst in
    let slot = next_slot t.idle_list t.size in
    let s = next_slot-IsSlot t t.idle_list refl o in
    let count : u32 (t.size + 1) ≡ t.size + 1 = omega arith in
    record {
      t' = record t {
        size = t.size + 1;
        idle_list = slot.1;
        map = update t.map key (some (record { block = t.base; index = slot.0 }));
        idle = update t.idle slot.0 false;
      };
      i = slot.0;
      returns = rw (
        open_connection,
        vacant,
        ne→==-false t.size t.capacity (λ z. omega arith),
        ==_refl t.base,
        lt→ltb slot.0 t.capacity (omega (arith, s.below)),
        count,
      );
      mine = update_self t.map key (some (record { block = t.base; index = slot.0 }));
      alone = s.free;
      others = λ k ne. update_ne t.map key (some (record { block = t.base; index = slot.0 })) k ne;
      owned = put_IsOwned t key slot.0 slot.1 o s room;
    }
