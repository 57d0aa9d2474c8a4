-- ===== src/Util.antt =====
-- shm/Util.h: a linked list of ints behind a head node. A node is at an address other than 0, which
-- is NULL. `fresh` is the address that malloc returns.

pub mod Stack
mod Tests
use make_the_american_great.Prelude.{ℕ, Bool, Option, none, some, ◌==◌, if◌then◌else◌, update}
use make_the_american_great.Run.{Run, done, fault, bind}

-- A List_t.
pub record Node : Type 0 where
  pub val : ℕ
  pub next : ℕ

-- The nodes that are allocated.
abbrev pub Heap : Type 0
Heap = ℕ → Option Node

-- The node at an address, to which the code follows a pointer.
abbrev pub found : Option Node → Run Node
found none = fault
found (some node) = done node

abbrev pub deref : Heap → ℕ → Run Node
deref h p = found (h p)

unfoldable pub list_empty : Heap → ℕ → Run Bool
list_empty h list = bind (deref h list) (λ node. done (node.next == 0))

unfoldable pub list_front : Heap → ℕ → Run ℕ
list_front h list = bind (deref h list) (λ node. bind (deref h node.next) (λ first. done first.val))

-- The assertion fails when malloc returns NULL.
unfoldable pub list_push : ℕ → Heap → ℕ → ℕ → Run Heap
list_push fresh h list val =
    if fresh == 0
    then fault
    else bind (deref h list) (λ node. done (
        update (update h fresh (some (record { val = val; next = node.next }))) list
          (some (record node { next = fresh }))))

unfoldable pub list_pop : Heap → ℕ → Run Heap
list_pop h list = bind (deref h list) (λ node. bind (deref h node.next) (λ first.
    done (update (update h list (some (record node { next = first.next }))) node.next none)))
