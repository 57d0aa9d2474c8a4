-- ===== src/Socket/Limits.antt =====
-- Client ports of 2 ^ 15 and above, in release/socket.c.
use make_the_american_great.Prelude.{ℕ, ◌^◌, ◌<◌, ◌≤◌, ◌≡◌, List, arith}
use make_the_american_great.Run.{fault}
use make_the_american_great.Index.{State}
use make_the_american_great.Socket.{resolve, sendto, recvfrom, close}
use make_the_american_great.Socket.Transfer.{server_fd}

resolve-negative :
    (w : State) (cp sp : ℕ)
    → 2 ^ 15 ≤ cp
    → cp < 2 ^ 16
    → sp < 2 ^ 16
    → resolve (server_fd cp sp) w ≡ fault
unfolding resolve
resolve-negative w cp sp low high port =
    let negative : 2 ^ 31 ≤ server_fd cp sp = omega arith in
    let int : server_fd cp sp < 2 ^ 32 = omega arith in ground arith

-- The descriptor that accept returns for a client whose port is 2 ^ 15 or more is a negative int,
-- and send, recv and close on it access client_fd_to_idx out of range.
pub negative_server_fd :
    (stat junk : ℕ → ℕ) (fuel n : ℕ) (others : List (State → State)) (w : State) (cp sp len : ℕ)
    (buf : List ℕ)
    → 2 ^ 15 ≤ cp
    → cp < 2 ^ 16
    → sp < 2 ^ 16
    → (sendto stat junk fuel n (server_fd cp sp) buf len w ≡ fault)
      × (recvfrom stat junk fuel n others (server_fd cp sp) len w ≡ fault)
      × (close stat junk fuel (server_fd cp sp) w ≡ fault)
unfolding sendto recvfrom close
negative_server_fd stat junk fuel n others w cp sp len buf low high port =
    let out = resolve-negative w cp sp low high port in (rw out, rw out, rw out)
