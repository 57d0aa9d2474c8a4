-- ===== src/Connections.antt =====
-- The table of connections of workspace/io.cpp: init, expandPool, addConnection, openConnection
-- and closeConnection. `moved` is realloc: the address of a block of connections from its old
-- address and the new number of connections. Every allocation succeeds.

pub mod Lists
pub mod Inv
pub mod Close
mod Tests
use make_the_american_great.Prelude.{
  ℕ, ◌+◌, ◌*◌, List, [], ◌∷◌, ◌++◌, Bool, true, false, Option, none, some, u32, ltb, leb, ◌==◌,
  ◌&&◌, if◌then◌else◌, update,
}
use make_the_american_great.Run.{Run, done, fault, bind}

-- A Connection_t *: the address of the block and the position in it.
pub record Pointer : Type 0 where
  pub block : ℕ
  pub index : ℕ

-- ConnectionPool and ConnectionMap. `idle` holds the flags of the block at `base`.
pub record Table : Type 0 where
  pub base : ℕ
  pub idle : ℕ → Bool
  pub size : ℕ
  pub capacity : ℕ
  pub idle_list : List ℕ
  pub map : ℕ → Option Pointer

-- get_idx(srcPort, destPort) as a uint32_t.
abbrev pub map_key : ℕ → ℕ → ℕ
map_key src dst = u32 (src * 65536 + dst)

-- init, with the address that malloc returns.
unfoldable pub init : ℕ → ℕ → Table
init base size = record {
  base = base;
  idle = λ i. ltb i size;
  size = 0;
  capacity = size;
  idle_list = [];
  map = λ k. none;
}

-- An access to the connection that a pointer points to. A block that realloc has moved is gone.
unfoldable pub live : Table → Pointer → Bool
live t p = if p.block == t.base then ltb p.index t.capacity else false

-- The position that addConnection takes, and the idle_list after it.
unfoldable pub next_slot : List ℕ → ℕ → ℕ × List ℕ
next_slot [] size = (size, [])
next_slot (i ∷ rest) size = (i, rest)

module _ (moved : ℕ → ℕ → ℕ) where
  unfoldable pub expand_pool : Table → Table
  expand_pool t =
      let new_size : ℕ = u32 (t.capacity * 2) in
      record t {
        base = moved t.base new_size;
        idle = λ i. if leb t.size i && ltb i new_size then true else t.idle i;
        capacity = new_size;
      }

  unfoldable pub add_connection : Table → Run (Pointer × Table)
  add_connection t =
      let t' : Table = if t.size == t.capacity then expand_pool t else t in
      let slot = next_slot t'.idle_list t.size in
      let conn : Pointer = record { block = t'.base; index = slot.0 } in
      if live t' conn
      then done (conn, record t' { size = u32 (t.size + 1); idle_list = slot.1 })
      else fault

  -- openConnection: 0, or `false` for its -1.
  unfoldable pub open_connection : ℕ → ℕ → Table → Run (Bool × Table)
  open_connection src dst t = elim (t.map (map_key src dst)) [
    | some p ↦ done (false, t)
    | none ↦ bind (add_connection t) (λ r. done (
      true,
      record r.1 {
        map = update r.1.map (map_key src dst) (some r.0);
        idle = update r.1.idle r.0.index false;
      },
    ))
  ]

-- closeConnection: 0, or `false` for its -1. shmdt is called on an address that is never set.
unfoldable pub close_connection : ℕ → ℕ → Table → Run (Bool × Table)
close_connection src dst t = elim (t.map (map_key src dst)) [
  | none ↦ done (false, t)
  | some p ↦
      if live t p
      then done (
        true,
        record t {
          idle = update t.idle p.index true;
          idle_list = t.idle_list ++ (p.index ∷ []);
          map = update t.map (map_key src dst) none;
        },
      )
      else fault
]
