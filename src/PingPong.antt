-- ===== src/PingPong.antt =====
-- workspace/test.cpp: ten threads, each of which sends to every other one and then waits for what
-- every other one sends. A map says who has sent to whom.
pub mod Progress
mod Tests
use make_the_american_great.Prelude.{
  ℕ, ◌+◌, ◌*◌, List, [], ◌∷◌, Bool, true, false, length, update, ltb, ◌==◌, if◌then◌else◌,
}

abbrev pub num_threads : ℕ
num_threads = 10

-- send_set: the key of a pair of threads, and the map, in which a key that is not there reads as
-- false. init leaves every pair at false.
abbrev pub key : ℕ → ℕ → ℕ
key src dest = src * num_threads + dest

abbrev pub init : ℕ → Bool
init k = false

unfoldable pub send : (ℕ → Bool) → ℕ → ℕ → ℕ → Bool
send send_set src dest = update send_set (key src dest) true

-- Where a thread stands in ping_pong. `failed` is a failed assertion.
pub data Pc : Type 0 where
  sending : (i : ℕ) → Pc
  receiving : (i : ℕ) → Pc
  ended : Pc
  failed : Pc

-- Whether strcmp finds two texts equal.
abbrev pub same_text : List ℕ → List ℕ → Bool
same_text [] [] = true
same_text [] (y ∷ ys) = false
same_text (x ∷ xs) [] = false
same_text (x ∷ xs) (y ∷ ys) = if x == y then same_text xs ys else false

-- The text that sprintf prints for two threads is a parameter.
module _ (text : ℕ → ℕ → List ℕ) where
  -- recv: what it returns, and the buffer after it.
  unfoldable pub recv : (ℕ → Bool) → ℕ → ℕ → List ℕ → ℕ × List ℕ
  recv send_set src dest buf =
      if send_set (key src dest) then (length (text src dest), text src dest) else (0, buf)

  -- A round of the loops of ping_pong in thread `idx`, or one of `while (!recv(…))`, whose buffer is
  -- empty before.
  unfoldable pub ping_pong : ℕ → (ℕ → Bool) → Pc → (ℕ → Bool) × Pc
  unfolding send recv
  ping_pong idx send_set (sending i) =
      if ltb i num_threads
      then (if i == idx
          then (send_set, sending (i + 1))
          else (send send_set idx i, sending (i + 1)))
      else (send_set, receiving 0)
  ping_pong idx send_set (receiving i) =
      let r : ℕ × List ℕ = recv send_set i idx [] in
      if ltb i num_threads
      then (if i == idx
          then (send_set, receiving (i + 1))
          else if r.0 == 0
          then (send_set, receiving i)
          else if same_text r.1 (text i idx)
          then (send_set, receiving (i + 1))
          else (send_set, failed))
      else (send_set, ended)
  ping_pong idx send_set ended = (send_set, ended)
  ping_pong idx send_set failed = (send_set, failed)

  -- The map, and where each thread is. main starts the threads below num_threads. A list says in
  -- which order threads go on, one round each.
  pub record Threads : Type 0 where
    pub send_set : ℕ → Bool
    pub thread : ℕ → Pc

  abbrev pub started : Threads
  started = record { send_set = init; thread = λ i. sending 0 }

  unfoldable pub turn : Threads → ℕ → Threads
  turn s i =
      let r = ping_pong i s.send_set (s.thread i) in
      if ltb i num_threads then record { send_set = r.0; thread = update s.thread i r.1 } else s

  unfoldable pub run : Threads → List ℕ → Threads
  run s [] = s
  run s (i ∷ is) = run (turn s i) is
