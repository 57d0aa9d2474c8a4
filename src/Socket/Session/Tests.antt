-- ===== src/Socket/Session/Tests.antt =====
-- A session between two processes at concrete states.
use make_the_american_great.Prelude.{ℕ, ◌≡◌, ◌≢◌, refl, [], ◌∷◌, arith, Mem, ◌==◌, if◌then◌else◌}
use make_the_american_great.Run.{done}
use make_the_american_great.Index.{State, resume, ring_key, nattch}
use make_the_american_great.Index.Owned.{Owned}
use make_the_american_great.Index.Tests.{zeros, fresh}
use make_the_american_great.Socket.{bind, connect, accept, sendto, recvfrom}
use make_the_american_great.Socket.Transfer.{server_fd}
use make_the_american_great.Socket.Session.{IsSetting, outcome, session}

-- 5, 9 and 11 are free.
abbrev three_free : Mem
three_free a = if a == 0 then 5 else if a == 5 then 9 else if a == 9 then 11 else 0

abbrev quiet : State
quiet = record fresh { ports = zeros; pool_shm = λ key. three_free }

-- Only the server is attached to a ring.
abbrev attached : ℕ → ℕ
attached key = 1

quiet-Owned : Owned quiet ((5 ∷ 9 ∷ 11 ∷ []) ∷ [])
quiet-Owned = record {
  free = omega arith;
  small = omega arith;
  taken = λ s d nz. absurd (nz refl);
  within = λ s d. omega arith;
  distinct = λ s d s' d' nz e. absurd (nz refl);
}

not_yet : nattch zeros (ring_key 11) ≡ 0
unfolding nattch ring_key
not_yet = refl

still_attached : nattch attached (ring_key 11) ≢ 0
unfolding nattch ring_key
still_attached = omega arith

quiet-IsSetting : IsSetting zeros attached quiet quiet ((5 ∷ 9 ∷ 11 ∷ []) ∷ []) 4 3 80 1 5 9 11 []
quiet-IsSetting = record {
  tables = (refl, refl);
  ports = (omega arith, omega arith, omega arith, omega arith);
  fds = (omega arith, omega arith);
  closed = refl;
  server = (omega arith, omega arith);
  first = record { from = omega arith; free = refl; before = λ q a b. absurd (omega arith) };
  owned = quiet-Owned;
  free = refl;
  same_chain = (refl, omega arith);
  private = (λ d. refl, λ d. refl);
  vacant = (refl, refl);
  new_ring = (refl, not_yet, still_attached);
}

session_example :
    (v₁ : State) × (w₁ : State) × (v₂ : State) × (w₂ : State) × (v₃ : State) × (bind attached 4 80
        quiet
      ≡ done (0, v₁))
    × (connect zeros zeros 1 (λ t. t) 3 80 (resume quiet v₁) ≡ done (0, w₁))
    × (accept attached zeros 1
          (λ u. outcome u (connect zeros zeros 1 (λ t. t) 3 80 (resume quiet u)))
          4
          80
          v₁
        ≡ done (server_fd 1 80, v₂))
    × (sendto zeros zeros 1 8 3 (1 ∷ 2 ∷ 3 ∷ []) 3 (resume w₁ v₂) ≡ done (3, w₂))
    × (recvfrom attached zeros 1 8 [] (server_fd 1 80) 2 (resume v₂ w₂)
        ≡ done ((2, 1 ∷ 2 ∷ []), v₃))
session_example =
    session zeros attached zeros 0 8 quiet quiet ((5 ∷ 9 ∷ 11 ∷ []) ∷ []) 4 3 80 1 5 9 11 []
      (1 ∷ 2 ∷ 3 ∷ []) 2 quiet-IsSetting (omega arith) (omega arith) (omega arith) (omega arith)
      (omega arith)
