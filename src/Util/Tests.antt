-- ===== src/Util/Tests.antt =====
-- The theorem on a list with one element.
use make_the_american_great.Prelude.{ℕ, ◌≡◌, refl, arith, false, none, some, ◌==◌, if◌then◌else◌}
use make_the_american_great.Run.{done}
use make_the_american_great.Util.{Heap, list_empty, list_front, list_push, list_pop}
use make_the_american_great.Util.Stack.{list_pop-list_push}

-- The head node is at 8, and the element 5 at 16.
abbrev heap : Heap
heap a =
    if a == 8
    then some (record { val = 0; next = 16 })
    else if a == 16
    then some (record { val = 5; next = 0 })
    else none

list_pop-list_push_example :
    (h' : Heap) × (h'' : Heap) × (list_push 24 heap 8 7 ≡ done h')
    × (list_empty h' 8 ≡ done false)
    × (list_front h' 8 ≡ done 7)
    × (list_pop h' 8 ≡ done h'')
    × ((a : ℕ) → h'' a ≡ heap a)
list_pop-list_push_example =
    list_pop-list_push 24 heap 8 7 (record { val = 0; next = 16 }) refl (omega arith) refl
