-- ===== src/Socket/Tests.antt =====
-- The theorems on the sockets at concrete states, and runs of the calls.
use make_the_american_great.Prelude.{
  ℕ, ◌<◌, inl, ◌+◌, ◌≡◌, refl, List, [], ◌∷◌, true, arith, update,
}
use make_the_american_great.Run.{done, fault}
use make_the_american_great.Socket.Wait.{with_ring, woken, waited, recvfrom-awaited}
use make_the_american_great.Socket.Limits.{negative_server_fd}
use make_the_american_great.Ring.{Ring}
use make_the_american_great.Index.{State, resume, minus, ring_key, shared_keys}
use make_the_american_great.Index.Owned.{Owned}
use make_the_american_great.Index.Tests.{
  zeros, fresh, fresh-Owned, free_lists, one_taken, one_taken-Owned,
}
use make_the_american_great.Pool.Chain.{free_indices}
use make_the_american_great.Socket.{
  bind, bind_read, connect, accept, close, sendto, recvfrom, client_mark,
}
use make_the_american_great.Socket.Transfer.{
  client_idx, server_fd, Has, resolve-server, resolve-client, recvfrom-sendto,
}
use make_the_american_great.Socket.FreePort.{IsFirst}
use make_the_american_great.Socket.Resumed.{resume-Owned}
use make_the_american_great.Socket.Bind.{bind-excludes, two_binds}
use make_the_american_great.Socket.Connect.{
  claimed, connect-lost, Established, connect-Established, accept-server_fd,
}
use make_the_american_great.Socket.Close.{Freed, close-Freed}

abbrev stat : ℕ → ℕ
stat key = 1

abbrev junk : ℕ → ℕ
junk i = 0

abbrev one_held : Ring
one_held = record { head = 7; tail = 0; old_tail = 0; content = λ i. i + 10 }

-- A client that is connected from port 5 to port 80 under the descriptor 3, with ring 9.
abbrev client : State
client = record {
  pid = 700;
  client_fd_to_idx = λ fd. client_idx 5 80;
  rb_memo = λ k. true;
  chain = [];
  port_table_available = true;
  ports = λ port. 1;
  dst_block = λ src dst. 9;
  pool_shm = λ key i. 0;
  rings = λ key. one_held;
  signalled = [];
}

nine_shared : ring_key 9 < shared_keys
unfolding ring_key
nine_shared = omega arith

recvfrom-sendto_example :
    (w' : State) × (v' : State) × (sendto stat junk 1 8 3 (1 ∷ 2 ∷ 3 ∷ []) 3 client ≡ done (3, w'))
    × (recvfrom stat junk 1 8 [] (server_fd 5 80) 3 (resume client w')
        ≡ done ((3, 17 ∷ 1 ∷ 2 ∷ []), v'))
recvfrom-sendto_example =
    recvfrom-sendto stat junk 0 8 [] client client 3 5 80 9 3 (1 ∷ 2 ∷ 3 ∷ []) (omega arith)
      (omega arith) (omega arith) (omega arith) (omega arith) refl
      (record {
        entry = refl;
        in_range = omega arith;
        nonzero = omega arith;
        not_minus = omega arith;
        memo = refl;
      })
      refl nine_shared (omega arith) (omega arith) (omega arith) (omega arith) (omega arith)

bind-excludes_example :
    (w' : State) × (bind stat 4 81 fresh ≡ done (0, w'))
    × (w'.ports 81 ≡ 700)
    × (bind stat 9 81 (resume client w') ≡ done (minus 1, resume client w'))
bind-excludes_example =
    bind-excludes stat stat fresh client 4 9 81 refl refl (omega arith) refl (omega arith)

-- Another process, which binds at the same time.
abbrev peer : State
peer = record client { pid = 800 }

two_binds_example :
    (w' : State) × (v' : State) × (bind stat 4 81 fresh ≡ done (0, w'))
    × (w'.ports 81 ≡ 700)
    × (bind_read stat 0 81 (resume peer w') ≡ done (0, v'))
    × (v'.ports 81 ≡ 800)
two_binds_example = two_binds stat stat fresh peer 4 81 refl refl (omega arith) refl

fresh-IsFirst : IsFirst fresh.ports 1 1
fresh-IsFirst = record { from = omega arith; free = refl; before = λ q a b. absurd (omega arith) }

-- No other process, and one that takes the port 80 first.
abbrev nobody : (ℕ → ℕ) → ℕ → ℕ
nobody t = t

abbrev rival : (ℕ → ℕ) → ℕ → ℕ
rival t = update t 80 (7 + client_mark)

connect-Established_example :
    Established fresh 3 80 1 5 (9 ∷ []) (connect zeros zeros 0 nobody 3 80 fresh)
connect-Established_example =
    connect-Established zeros zeros 0 nobody fresh 3 80 1 free_lists 5 (9 ∷ []) refl (omega arith)
      (omega arith) (omega arith) (omega arith) (omega arith) fresh-IsFirst refl fresh-Owned refl
      refl

connect-lost_example :
    connect zeros zeros 0 rival 3 80 fresh
    ≡ done (minus 1, record fresh { ports = update (rival (claimed fresh 3 1)) 1 0 })
connect-lost_example =
    connect-lost zeros zeros 0 rival fresh 3 80 refl (omega arith) 1 (omega arith) (omega arith)
      (omega arith) fresh-IsFirst (omega arith)

-- The client's port 6 is connected to port 80.
abbrev marked : State
marked = record fresh { ports = λ port. 6 + client_mark }

marked-Owned : Owned marked free_lists
marked-Owned = record {
  free = omega arith;
  small = omega arith;
  taken = fresh-Owned.taken;
  within = fresh-Owned.within;
  distinct = fresh-Owned.distinct;
}

-- A client that only signals.
abbrev signal_us : State → State
signal_us w = record w { signalled = 700 ∷ w.signalled }

signalled-Owned : Owned (signal_us marked) free_lists
signalled-Owned = record {
  free = omega arith;
  small = omega arith;
  taken = fresh-Owned.taken;
  within = fresh-Owned.within;
  distinct = fresh-Owned.distinct;
}

accept-server_fd_example :
    (w' : State) × (frees' : List (List ℕ)) × (accept zeros zeros 0 signal_us 4 80 marked
      ≡ done (server_fd 6 80, w'))
    × Has w' 0 4 5
    × Owned w' frees'
    × (free_indices 0 frees' ≡ 9 ∷ [])
accept-server_fd_example =
    accept-server_fd zeros zeros 0 signal_us marked 4 80 6 free_lists 5 (9 ∷ []) (omega arith) refl
      (omega arith) (omega arith) refl
      (resume-Owned marked (signal_us marked) free_lists (signalled-Owned) refl (λ d. refl)) refl
      refl

close-Freed_example :
    Freed one_taken 5 80 3 free_lists (close zeros zeros 0 (server_fd 5 80) one_taken)
close-Freed_example =
    close-Freed zeros zeros 0 one_taken free_lists (server_fd 5 80) (server_fd 5 80) 3
      one_taken-Owned refl (resolve-server one_taken (server_fd 5 80) (omega arith) (omega arith))
      (record {
        entry = refl;
        in_range = omega arith;
        nonzero = omega arith;
        not_minus = omega arith;
        memo = refl;
      })

negative_server_fd_example :
    (sendto stat junk 1 8 (server_fd 40000 80) (1 ∷ []) 1 client ≡ fault)
    × (recvfrom stat junk 1 8 [] (server_fd 40000 80) 1 client ≡ fault)
    × (close stat junk 1 (server_fd 40000 80) client ≡ fault)
negative_server_fd_example =
    negative_server_fd stat junk 1 8 [] client 40000 80 1 (1 ∷ []) (omega arith) (omega arith)
      (omega arith)

-- The client with an empty ring, and a server that sends four bytes and closes.
abbrev waiting : State
waiting = record client { rings = λ key. record one_held { head = 0 } }

abbrev last_words : State → State
last_words w = record w { ports = zeros; rings = λ key. record one_held { head = 4 } }

-- Another process that changes nothing.
abbrev idle : State → State
idle w = w

abbrev woken_twice : State
woken_twice = waited waiting (ring_key 9) (idle ∷ idle ∷ [])

recvfrom-awaited_example :
    recvfrom stat junk 1 8 (idle ∷ idle ∷ last_words ∷ []) 3 3 waiting
    ≡ done (
      (3, 14 ∷ 15 ∷ 16 ∷ []),
      with_ring
          (woken woken_twice (ring_key 9) last_words)
          (ring_key 9)
          (record one_held { head = 7 }),
    )
unfolding ring_key
recvfrom-awaited_example =
    recvfrom-awaited stat junk 0 8 (idle ∷ idle ∷ []) last_words [] waiting 3 (client_idx 5 80) 9 3
      (omega arith) refl (resolve-client waiting 3 (omega arith))
      (record {
        entry = refl;
        in_range = omega arith;
        nonzero = omega arith;
        not_minus = omega arith;
        memo = refl;
      })
      (omega arith) refl (omega arith)
      (omega arith, omega arith, refl, (omega arith, omega arith, refl, tt)) (omega arith)
      (inl refl)
