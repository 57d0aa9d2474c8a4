-- ===== src/Socket/Missed/Tests.antt =====
-- The theorem on a connection of the ports 1 and 80.
use make_the_american_great.Prelude.{ℕ, ◌≡◌, ◌≢◌, refl, some, [], ◌∷◌, arith}
use make_the_american_great.Run.{done, spinning}
use make_the_american_great.Ring.Inv.{contents}
use make_the_american_great.Index.{State, resume, ring_key, nattch}
use make_the_american_great.Index.Tests.{zeros, fresh, free_lists, fresh-Owned}
use make_the_american_great.Index.Owned.{Owned}
use make_the_american_great.Socket.{ring_for, recvfrom}
use make_the_american_great.Socket.Transfer.{handle, resolve-server}
use make_the_american_great.Socket.Missed.{send_late, always, sent_unseen}

abbrev server : State
server = record fresh { ports = λ port. 7 }

server-Owned : Owned server free_lists
server-Owned = record {
  free = fresh-Owned.free;
  small = fresh-Owned.small;
  taken = fresh-Owned.taken;
  within = fresh-Owned.within;
  distinct = fresh-Owned.distinct;
}

two_keys : ring_key 5 ≢ ring_key 9
unfolding ring_key
two_keys = omega arith

none_attached : (k : ℕ) → nattch zeros (ring_key k) ≡ 0
unfolding nattch
none_attached k = ground arith

sent_unseen_example :
    (w₁ : State) × (v₁ : State) × (ring_for zeros zeros 1 1 80 server ≡ done (some (handle 5), w₁))
    × (send_late zeros zeros 1 8 1 80 (7 ∷ 8 ∷ 9 ∷ []) 3 (resume fresh w₁) ≡ done (3, v₁))
    × (contents 8 (v₁.rings (ring_key 9)) ≡ 7 ∷ 8 ∷ 9 ∷ [])
    × (v₁.dst_block 1 80 ≡ 9)
    × ((rounds : ℕ) → recvfrom zeros zeros 1 8 (always rounds v₁) 65616 4 server ≡ spinning)
sent_unseen_example =
    sent_unseen zeros zeros zeros 0 8 server fresh free_lists 65616 65616 5 9 [] (7 ∷ 8 ∷ 9 ∷ []) 4
      (omega arith) server-Owned refl refl (λ d. refl) refl
      (resolve-server server 65616 (omega arith) (omega arith)) (omega arith) (omega arith) refl
      (refl, none_attached 5) (refl, none_attached 9) two_keys (omega arith) (omega arith)
