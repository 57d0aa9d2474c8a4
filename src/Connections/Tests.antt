-- ===== src/Connections/Tests.antt =====
-- The theorems on the table of connections at concrete tables.
use make_the_american_great.Prelude.{
  ℕ, ◌+◌, ◌≡◌, refl, [], true, false, none, some, arith, update, sym, ◌∙◌,
}
use make_the_american_great.Run.{done, fault}
use make_the_american_great.Connections.{Pointer, Table, map_key, open_connection, close_connection}
use make_the_american_great.Connections.Inv.{
  IsOwned, Found, at_key, elsewhere, found, OpenedAt, open_connection-OpenedAt, index_of, block_of,
  none-some,
}
use make_the_american_great.Connections.Close.{
  ClosedAt, close_connection-ClosedAt, close_connection-moved,
}

-- realloc that always moves the block.
abbrev moved : ℕ → ℕ → ℕ
moved base size = base + 4096

abbrev at_zero : Pointer
at_zero = record { block = 100; index = 0 }

-- One position, and the connection of the ports 1 and 2 in it.
abbrev full : Table
full = record {
  base = 100;
  idle = λ i. false;
  size = 1;
  capacity = 1;
  idle_list = [];
  map = update (λ k. none) (map_key 1 2) (some at_zero);
}

-- The same with room for eight.
abbrev roomy : Table
roomy = record full { capacity = 8 }

abbrev nothing : Table
nothing = record full { map = λ k. none }

only : (k : ℕ) (p : Pointer) → full.map k ≡ some p → Found nothing (map_key 1 2) (some at_zero) k p
only k p e = found nothing (map_key 1 2) (some at_zero) k p e

full-IsOwned : IsOwned full
full-IsOwned = record {
  fits = omega arith;
  here = λ k p e. elim (only k p e) [
    | at_key a b ↦ sym (block_of 0 100 p b)
    | elsewhere a b ↦ absurd (none-some p b)
  ];
  used = λ k p e. elim (only k p e) [
    | at_key a b ↦ omega (arith, index_of 0 100 p b)
    | elsewhere a b ↦ absurd (none-some p b)
  ];
  busy = λ k p e. tt;
  single = λ k k' p p' e e' same. elim (only k p e) [
    | at_key a b ↦ elim (only k' p' e') [
      | at_key a' b' ↦ a ∙ sym a'
      | elsewhere a' b' ↦ absurd (none-some p' b')
    ]
    | elsewhere a b ↦ absurd (none-some p b)
  ];
  old = tt;
  different = tt;
}

roomy-IsOwned : IsOwned roomy
roomy-IsOwned = record {
  fits = omega arith;
  here = full-IsOwned.here;
  used = full-IsOwned.used;
  busy = full-IsOwned.busy;
  single = full-IsOwned.single;
  old = tt;
  different = tt;
}

open_connection-OpenedAt_example : OpenedAt roomy 3 2 (open_connection moved 3 2 roomy)
open_connection-OpenedAt_example =
    open_connection-OpenedAt moved roomy 3 2 roomy-IsOwned refl (omega arith) (omega arith)

close_connection-ClosedAt_example : ClosedAt roomy 1 2 0 (close_connection 1 2 roomy)
close_connection-ClosedAt_example = close_connection-ClosedAt roomy 1 2 at_zero roomy-IsOwned refl

close_connection-moved_example :
    (t' : Table) × (open_connection moved 3 2 full ≡ done (true, t'))
    × (close_connection 1 2 t' ≡ fault)
close_connection-moved_example =
    close_connection-moved moved full 3 2 1 2 at_zero full-IsOwned refl (omega arith) (omega arith)
      (omega arith) refl refl
