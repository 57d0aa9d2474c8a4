-- ===== src/Socket/Race/Lost.antt =====
-- Two clients of release/socket.c that take the same port, since get_free_port reads and then writes.
use make_the_american_great.Prelude.{
  ℕ, ◌+◌, ◌<◌, ◌≡◌, ◌≢◌, refl, ap, ◌∙◌, update, update_self, update_ne, arith,
}
use make_the_american_great.Socket.{client_mark}
use make_the_american_great.Socket.Race.{
  connected, load_pid, find, claim, win, lose, mark, give_back, Clients, turn, Reach, here, next,
}

-- When the first port is free, some order of the accesses of two clients that connect to the same
-- server ends with the first of them connected from that port while its entry of the port table is
-- 0, so that the port is taken for free again: both took the port, and the loser gave it back.
pub port_given_back :
    (sp : ℕ) (mine : ℕ → ℕ) (t : ℕ → ℕ)
    → t sp ≢ 0
    → t sp < client_mark
    → t 1 ≡ 0
    → (s : Clients) × Reach sp mine t s × (s.client 0 ≡ connected 1) × (s.table 1 ≡ 0)
port_given_back sp mine t listening small free =
    let other : sp ≢ 1 = λ e. listening (ap t e ∙ free) in
    let t₁ : ℕ → ℕ = update t 1 (mine 0) in
    let t₂ : ℕ → ℕ = update t₁ 1 (mine 1) in
    let kept : t₂ sp ≡ t sp = update_ne t₁ 1 (mine 1) sp other ∙ update_ne t 1 (mine 0) sp other in
    let taken : update t₂ sp (1 + client_mark) sp ≡ 1 + client_mark =
      update_self t₂ sp (1 + client_mark) in
    let r₁ = next (next here (turn 0 (load_pid listening small))) (turn 0 (find free)) in
    let r₂ = next (next r₁ (turn 1 (load_pid listening small))) (turn 1 (find free)) in
    let r₃ = next (next r₂ (turn 0 claim)) (turn 1 claim) in
    let r₄ = next (next r₃ (turn 0 (win kept))) (turn 1 (lose (λ e. omega (arith, taken, e)))) in
    (_, next (next r₄ (turn 0 mark)) (turn 1 give_back), refl, refl)
