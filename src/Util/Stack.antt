-- ===== src/Util/Stack.antt =====
-- The list of shm/Util.h as a stack.
use make_the_american_great.Prelude.{
  ℕ, ◌≡◌, ◌≢◌, ap, ◌∙◌, sym, true, false, none, some, ◌==◌, update, update_self, update_ne,
  ne→==-false, arith, inl, inr, Bool-cases,
}
use make_the_american_great.Run.{done}
use make_the_american_great.Util.{Node, Heap, list_empty, list_front, list_push, list_pop}

-- The calls on a heap of which two nodes are known.
module _ (h : Heap) (list : ℕ) (node first : Node) (at_list : h list ≡ some node)
    (at_first : h node.next ≡ some first) where
  list_empty-known : list_empty h list ≡ done (node.next == 0)
  unfolding list_empty
  list_empty-known = rw at_list

  list_front-known : list_front h list ≡ done first.val
  unfolding list_front
  list_front-known = rw (at_list, at_first)

  list_pop-known :
      list_pop h list
      ≡ done (update (update h list (some (record node { next = first.next }))) node.next none)
  unfolding list_pop
  list_pop-known = rw (at_list, at_first)

-- The heap between a push and the pop of it.
abbrev pub pushed : ℕ → Heap → ℕ → ℕ → Node → Heap
pushed fresh h list val node =
    update (update h fresh (some (record { val = val; next = node.next }))) list
      (some (record node { next = fresh }))

abbrev popped : ℕ → Heap → ℕ → ℕ → Node → Heap
popped fresh h list val node =
    update (update (pushed fresh h list val node) list (some node)) fresh none

module _ (fresh : ℕ) (h : Heap) (list val : ℕ) (node : Node) (head : h list ≡ some node)
    (real : fresh ≢ 0) (unused : h fresh ≡ none) where
  apart : list ≢ fresh
  apart e = clash (sym head ∙ ap h e ∙ unused)
    where
      clash : some node ≡ none → ⊥
      clash e = cc

  at_list : pushed fresh h list val node list ≡ some (record node { next = fresh })
  at_list =
      update_self (update h fresh (some (record { val = val; next = node.next }))) list
        (some (record node { next = fresh }))

  at_fresh : pushed fresh h list val node fresh ≡ some (record { val = val; next = node.next })
  at_fresh =
      update_ne (update h fresh (some (record { val = val; next = node.next }))) list
        (some (record node { next = fresh })) fresh (λ e. apart (sym e))
      ∙ update_self h fresh (some (record { val = val; next = node.next }))

  push_done : list_push fresh h list val ≡ done (pushed fresh h list val node)
  unfolding list_push
  push_done = rw (ne→==-false fresh 0 real, head)

  -- Every address is as it was before the push.
  restored : (a : ℕ) → popped fresh h list val node a ≡ h a
  restored a = elim (Bool-cases (a == fresh)) [
    | inl e ↦ rw e (sym unused ∙ ap h (sym (equal a fresh e)))
    | inr e ↦ elim (Bool-cases (a == list)) [
      | inl f ↦ rw (e, f) (sym head ∙ ap h (sym (equal a list f)))
      | inr f ↦ rw (e, f)
    ]
  ]
    where
      equal : (a b : ℕ) → (a == b) ≡ true → a ≡ b
      equal a b q = ground arith

-- list_push succeeds when malloc gives an unused address; after it the list is not empty, its front
-- is the value pushed, and list_pop succeeds and leaves the whole heap as it was before the push.
pub list_pop-list_push :
    (fresh : ℕ) (h : Heap) (list val : ℕ) (node : Node)
    → h list ≡ some node
    → fresh ≢ 0
    → h fresh ≡ none
    → (h' : Heap) × (h'' : Heap) × (list_push fresh h list val ≡ done h')
      × (list_empty h' list ≡ done false)
      × (list_front h' list ≡ done val)
      × (list_pop h' list ≡ done h'')
      × ((a : ℕ) → h'' a ≡ h a)
list_pop-list_push fresh h list val node head real unused =
    let h' : Heap = pushed fresh h list val node in
    let top : Node = record node { next = fresh } in
    let first : Node = record { val = val; next = node.next } in
    let here : h' list ≡ some top = at_list fresh h list val node head real unused in
    let there : h' fresh ≡ some first = at_fresh fresh h list val node head real unused in
    (
      h',
      popped fresh h list val node,
      push_done fresh h list val node head real unused,
      list_empty-known h' list top first here there ∙ ap done (ne→==-false fresh 0 real),
      list_front-known h' list top first here there,
      list_pop-known h' list top first here there,
      restored fresh h list val node head real unused,
    )
