-- ===== src/Socket/Race.antt =====
-- connect of release/socket.c in several clients at once, one access of the port table at a time.
-- Every process has the table; `sp` is the server's port.

pub mod Once
pub mod Lost
mod Tests
use make_the_american_great.Prelude.{ℕ, ◌+◌, ◌<◌, ◌≤◌, ◌≡◌, ◌≢◌, Bool, true, false, update}
use make_the_american_great.Index.{port_number, minus}
use make_the_american_great.Socket.{client_mark}

-- Where a client stands in connect, with the server's pid as it saw it, the port i that
-- get_free_port looks at, and its own port cp.
pub data Client : Type 0 where
  resting : Client
  scanning : (pid i : ℕ) → Client
  claiming : (pid i : ℕ) → Client
  swapping : (pid cp : ℕ) → Client
  winning : (cp : ℕ) → Client
  connected : (cp : ℕ) → Client
  losing : (cp : ℕ) → Client
  failed : Client

-- One step of a client; `mine` is FD2PORT of its descriptor.
pub data Connect (sp mine : ℕ) (t : ℕ → ℕ) : Client → (ℕ → ℕ) → Client → Type 0 where
  load_pid : t sp ≢ 0 → t sp < client_mark → Connect sp mine t resting t (scanning (t sp) 1)
  busy : client_mark ≤ t sp → Connect sp mine t resting t failed
  closed : t sp ≡ 0 → Connect sp mine t resting t failed
  skip :
      {pid i : ℕ}
      → t i ≢ 0
      → i + 1 < port_number
      → Connect sp mine t (scanning pid i) t (scanning pid (i + 1))
  none_free :
      {pid i : ℕ} → t i ≢ 0 → i + 1 ≡ port_number → Connect sp mine t (scanning pid i) t failed
  find : {pid i : ℕ} → t i ≡ 0 → Connect sp mine t (scanning pid i) t (claiming pid i)
  claim : {pid i : ℕ} → Connect sp mine t (claiming pid i) (update t i mine) (swapping pid i)
  win :
      {pid cp : ℕ}
      → t sp ≡ pid
      → Connect sp mine t (swapping pid cp) (update t sp (cp + client_mark)) (winning cp)
  lose : {pid cp : ℕ} → t sp ≢ pid → Connect sp mine t (swapping pid cp) t (losing cp)
  mark : {cp : ℕ} → Connect sp mine t (winning cp) (update t cp (minus 1)) (connected cp)
  give_back : {cp : ℕ} → Connect sp mine t (losing cp) (update t cp 0) failed

pub record Clients : Type 0 where
  pub table : ℕ → ℕ
  pub client : ℕ → Client

-- Client i makes a step; `mine` gives the FD2PORT of each.
pub data Turn (sp : ℕ) (mine : ℕ → ℕ) (s : Clients) : Clients → Type 0 where
  turn :
      (i : ℕ) {t : ℕ → ℕ} {c : Client}
      → Connect sp (mine i) s.table (s.client i) t c
      → Turn sp mine s (record { table = t; client = update s.client i c })

-- All clients are about to connect.
pub data Reach (sp : ℕ) (mine : ℕ → ℕ) (t : ℕ → ℕ) : Clients → Type 0 where
  here : Reach sp mine t (record { table = t; client = λ i. resting })
  next : {s u : Clients} → Reach sp mine t s → Turn sp mine s u → Reach sp mine t u

-- The client's compare-and-swap has succeeded.
abbrev pub has_won : Client → Bool
has_won resting = false
has_won (scanning pid i) = false
has_won (claiming pid i) = false
has_won (swapping pid cp) = false
has_won (winning cp) = true
has_won (connected cp) = true
has_won (losing cp) = false
has_won failed = false
