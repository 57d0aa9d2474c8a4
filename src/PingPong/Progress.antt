-- ===== src/PingPong/Progress.antt =====
-- The threads of workspace/test.cpp never wait for each other, and no assertion fails.
use mathlib.Core.Path.{subst}
use make_the_american_great.Prelude.{
  ℕ, ◌+◌, ◌≤◌, ◌<◌, ◌≡◌, ◌≢◌, refl, ap, ◌∙◌, sym, List, [], ◌∷◌, Bool, true, false, length, update,
  ltb, ◌==◌, arith, inl, inr, ◌⊎◌, Bool-cases, update_self, update-cases, ==_refl, le_cases, lt→ltb,
  ne→==-false,
}
use make_the_american_great.PingPong.{
  num_threads, key, send, Pc, sending, receiving, ended, failed, recv, same_text, ping_pong,
  Threads, started, turn, run,
}

-- Thread i has sent to every other thread below j.
abbrev SentBelow : (ℕ → Bool) → ℕ → ℕ → Type 0
SentBelow send_set i j = (d : ℕ) → d < j → d ≢ i → send_set (key i d) ≡ true

-- What thread i has sent, by where it stands. No assertion has failed.
abbrev Sent : (ℕ → Bool) → ℕ → Pc → Type 0
Sent send_set i (sending j) = (j ≤ num_threads) × SentBelow send_set i j
Sent send_set i (receiving j) = (j ≤ num_threads) × SentBelow send_set i num_threads
Sent send_set i ended = SentBelow send_set i num_threads
Sent send_set i failed = ⊥

abbrev Grows : (ℕ → Bool) → (ℕ → Bool) → Type 0
Grows set set' = (k : ℕ) → set k ≡ true → set' k ≡ true

le→ltb-false : (a b : ℕ) → b ≤ a → ltb a b ≡ false
le→ltb-false a b h = ground arith

equal : (a b : ℕ) → (a == b) ≡ true → a ≡ b
equal a b h = ground arith

differ : (a b : ℕ) → (a == b) ≡ false → a ≢ b
differ a b h e = ground (arith, h, e)

send-Grows : (set : ℕ → Bool) (src dest : ℕ) → Grows set (send set src dest)
unfolding send
send-Grows set src dest k e = elim (update-cases set (key src dest) true k) [
  | inl (q, now) ↦ now
  | inr (q, same) ↦ same ∙ e
]

send-sent : (set : ℕ → Bool) (src dest : ℕ) → send set src dest (key src dest) ≡ true
unfolding send
send-sent set src dest = rw (==_refl (key src dest))

Sent-Grows :
    (set set' : ℕ → Bool) (i : ℕ) (pc : Pc) → Grows set set' → Sent set i pc → Sent set' i pc
Sent-Grows set set' i (sending j) g h = (h.0, λ d p q. g (key i d) (h.1 d p q))
Sent-Grows set set' i (receiving j) g h = (h.0, λ d p q. g (key i d) (h.1 d p q))
Sent-Grows set set' i ended g h = λ d p q. g (key i d) (h d p q)
Sent-Grows set set' i failed g h = h

SentBelow-suc :
    (set : ℕ → Bool) (i j : ℕ)
    → SentBelow set i j
    → (j ≢ i → set (key i j) ≡ true)
    → SentBelow set i (j + 1)
SentBelow-suc set i j h now d p q = elim (le_cases j d) [
  | inl last ↦
      let same : d ≡ j = omega arith in ap (λ z. set (key i z)) same ∙ now (λ e. q (same ∙ e))
  | inr more ↦ h d more q
]

same_text_refl : (xs : List ℕ) → same_text xs xs ≡ true
same_text_refl [] = refl
same_text_refl (x ∷ xs) = rw (==_refl x) (same_text_refl xs)

-- What is true after a round of thread i.
abbrev Kept : (ℕ → Bool) → ℕ → (ℕ → Bool) × Pc → Type 0
Kept set i r = Grows set r.0 × Sent r.0 i r.1

module _ (text : ℕ → ℕ → List ℕ) where
  ping_pong-sending :
      (i j : ℕ) (set : ℕ → Bool)
      → Sent set i (sending j)
      → Kept set i (ping_pong text i set (sending j))
  unfolding ping_pong
  ping_pong-sending i j set h = elim (le_cases num_threads j) [
    | inl last ↦
        rw (le→ltb-false j num_threads last)
          (λ k e. e, (omega arith, λ d p q. h.1 d (omega arith) q))
    | inr more ↦ elim (Bool-cases (j == i)) [
      | inl own ↦
          rw (lt→ltb j num_threads more, own)
            (λ k e. e, (omega arith, SentBelow-suc set i j h.1 (λ ne. absurd (ne (equal j i own)))))
      | inr other ↦
          rw (lt→ltb j num_threads more, other)
            (
              send-Grows set i j,
              (
                omega arith,
                SentBelow-suc (send set i j) i j (λ d p q. send-Grows set i j (key i d) (h.1 d p q))
                    (λ ne. send-sent set i j),
              ),
            )
    ]
  ]

  ping_pong-receiving :
      (i j : ℕ) (set : ℕ → Bool)
      → Sent set i (receiving j)
      → Kept set i (ping_pong text i set (receiving j))
  unfolding ping_pong recv
  ping_pong-receiving i j set h = elim (le_cases num_threads j) [
    | inl last ↦ rw (le→ltb-false j num_threads last) (λ k e. e, h.1)
    | inr more ↦ elim (Bool-cases (j == i)) [
      | inl own ↦ rw (lt→ltb j num_threads more, own) (λ k e. e, (omega arith, h.1))
      | inr other ↦ elim (Bool-cases (set (key j i))) [
        | inl sent ↦ elim (Bool-cases (length (text j i) == 0)) [
          | inl none ↦ rw (lt→ltb j num_threads more, other, sent, none) (λ k e. e, h)
          | inr some ↦
              rw (lt→ltb j num_threads more, other, sent, some, same_text_refl (text j i))
                (λ k e. e, (omega arith, h.1))
        ]
        | inr unsent ↦ rw (lt→ltb j num_threads more, other, unsent) (λ k e. e, h)
      ]
    ]
  ]

  ping_pong-Kept :
      (i : ℕ) (set : ℕ → Bool) (pc : Pc) → Sent set i pc → Kept set i (ping_pong text i set pc)
  unfolding ping_pong
  ping_pong-Kept i set (sending j) h = ping_pong-sending i j set h
  ping_pong-Kept i set (receiving j) h = ping_pong-receiving i j set h
  ping_pong-Kept i set ended h = (λ k e. e, h)
  ping_pong-Kept i set failed h = absurd h

  -- Every thread has sent what its place says.
  abbrev Inv : Threads text → Type 0
  Inv s = (i : ℕ) → Sent s.send_set i (s.thread i)

  turn-Inv : (s : Threads text) (i : ℕ) → Inv s → Inv (turn text s i)
  unfolding turn
  turn-Inv s i inv = elim (Bool-cases (ltb i num_threads)) [
    | inl thread ↦ rw thread (after (ping_pong-Kept i s.send_set (s.thread i) (inv i)))
    | inr none ↦ rw none inv
  ]
    where
      r : (ℕ → Bool) × Pc
      r = ping_pong text i s.send_set (s.thread i)

      after : Kept s.send_set i r → (j : ℕ) → Sent r.0 j (update s.thread i r.1 j)
      after kept j = elim (update-cases s.thread i r.1 j) [
        | inl (same, now) ↦
            subst (Sent r.0 j) (sym now) (subst (λ k. Sent r.0 k r.1) (sym same) kept.1)
        | inr (other, same) ↦
            subst (Sent r.0 j) (sym same) (Sent-Grows s.send_set r.0 j (s.thread j) kept.0 (inv j))
      ]

  run-Inv : (s : Threads text) (is : List ℕ) → Inv s → Inv (run text s is)
  unfolding run
  run-Inv s [] inv = inv
  run-Inv s (i ∷ is) inv = run-Inv (turn text s i) is (turn-Inv s i inv)

  started-Inv : Inv (started text)
  started-Inv i = (omega arith, λ d p. absurd (omega arith))

-- How far a thread is: its rounds of the first loop, and then of the second.
unfoldable pub position : Pc → ℕ
position (sending i) = i
position (receiving i) = num_threads + 1 + i
position ended = num_threads + num_threads + 2
position failed = 0

module _ (text : ℕ → ℕ → List ℕ) where
  -- A turn of thread i brings it nearer to its end.
  abbrev pub GoesOn : Threads text → ℕ → Type 0
  GoesOn s i = position (s.thread i) < position ((turn text s i).thread i)

  abbrev Later : (ℕ → Bool) → ℕ → Pc → Type 0
  Later set i pc = position pc < position (ping_pong text i set pc).1

  turn-Later :
      (s : Threads text) (i : ℕ) → i < num_threads → Later s.send_set i (s.thread i) → GoesOn s i
  unfolding turn
  turn-Later s i b h =
      rw
        (
          lt→ltb i num_threads b,
          update_self s.thread i (ping_pong text i s.send_set (s.thread i)).1,
        )
        h

  sending-Later : (i j : ℕ) (set : ℕ → Bool) → j ≤ num_threads → Later set i (sending j)
  unfolding ping_pong position
  sending-Later i j set b = elim (le_cases num_threads j) [
    | inl last ↦ rw (le→ltb-false j num_threads last) (omega arith)
    | inr more ↦ elim (Bool-cases (j == i)) [
      | inl own ↦ rw (lt→ltb j num_threads more, own) (omega arith)
      | inr other ↦ rw (lt→ltb j num_threads more, other) (omega arith)
    ]
  ]

  receiving-Later :
      (i j : ℕ) (set : ℕ → Bool)
      → length (text j i) ≢ 0
      → (j < num_threads → j ≢ i → set (key j i) ≡ true)
      → j ≤ num_threads
      → Later set i (receiving j)
  unfolding ping_pong position recv
  receiving-Later i j set some sent b = elim (le_cases num_threads j) [
    | inl last ↦ rw (le→ltb-false j num_threads last) (omega arith)
    | inr more ↦ elim (Bool-cases (j == i)) [
      | inl own ↦ rw (lt→ltb j num_threads more, own) (omega arith)
      | inr other ↦
          rw
            (
              lt→ltb j num_threads more,
              other,
              sent more (λ e. differ j i other e),
              ne→==-false (length (text j i)) 0 some,
              same_text_refl (text j i),
            )
            (omega arith)
    ]
  ]

  -- A thread that has not sent to d yet is still in its first loop.
  unsent-Later :
      (set : ℕ → Bool) (i d : ℕ) (pc : Pc)
      → Sent set i pc
      → d < num_threads
      → d ≢ i
      → set (key i d) ≡ false
      → Later set i pc
  unsent-Later set i d (sending j) h b ne e = sending-Later i j set h.0
  unsent-Later set i d (receiving j) h b ne e = let sent = h.1 d b ne in cc
  unsent-Later set i d ended h b ne e = let sent = h d b ne in cc
  unsent-Later set i d failed h b ne e = absurd h

  module _ (some : (i j : ℕ) → length (text i j) ≢ 0) (s : Threads text) (inv : Inv text s) where
    -- What a thread waits for has been sent, or its sender goes on.
    receiver-GoesOn :
        (t j : ℕ)
        → t < num_threads
        → j ≤ num_threads
        → Later s.send_set t (receiving j) ⊎ ((i : ℕ) × (i < num_threads) × GoesOn s i)
    receiver-GoesOn t j b c = elim (Bool-cases (s.send_set (key j t))) [
      | inl sent ↦ inl (receiving-Later t j s.send_set (some j t) (λ p q. sent) c)
      | inr unsent ↦ elim (le_cases num_threads j) [
        | inl last ↦ inl (receiving-Later t j s.send_set (some j t) (λ p q. absurd (omega arith)) c)
        | inr more ↦ elim (Bool-cases (j == t)) [
          | inl own ↦
              inl (receiving-Later t j s.send_set (some j t) (λ p q. absurd (q (equal j t own))) c)
          | inr other ↦ inr (
            j,
            more,
            turn-Later s j more (
                unsent-Later s.send_set j t (s.thread j) (inv j) b (λ e. differ j t other (sym e))
                  unsent),
          )
        ]
      ]
    ]

    thread-GoesOn :
        (t : ℕ) (pc : Pc)
        → t < num_threads
        → s.thread t ≡ pc
        → (pc ≢ failed) × ((pc ≡ ended) ⊎ ((i : ℕ) × (i < num_threads) × GoesOn s i))
    thread-GoesOn t (sending j) b e =
        let h : Sent s.send_set t (sending j) = subst (Sent s.send_set t) e (inv t) in
        (
          λ q. cc,
          inr (
            t,
            b,
            turn-Later s t b
                (subst (Later s.send_set t) (sym e) (sending-Later t j s.send_set h.0)),
          ),
        )
    thread-GoesOn t (receiving j) b e =
        let h : Sent s.send_set t (receiving j) = subst (Sent s.send_set t) e (inv t) in
        (
          λ q. cc,
          elim (receiver-GoesOn t j b h.0) [
            | inl own ↦ inr (t, b, turn-Later s t b (subst (Later s.send_set t) (sym e) own))
            | inr other ↦ inr other
          ],
        )
    thread-GoesOn t ended b e = (λ q. cc, inl refl)
    thread-GoesOn t failed b e =
        let h : Sent s.send_set t failed = subst (Sent s.send_set t) e (inv t) in absurd h

  -- Whatever turns the threads have had, when recv returns texts that are not empty: no thread is at
  -- a failed assertion, and as long as some thread is not at its end, some thread goes on in its
  -- next turn.
  pub no_deadlock :
      ((i j : ℕ) → length (text i j) ≢ 0)
      → (is : List ℕ) (t : ℕ) → t < num_threads
      → let s = run text (started text) is in
        (s.thread t ≢ failed) × ((s.thread t ≡ ended) ⊎ ((i : ℕ) × (i < num_threads) × GoesOn s i))
  no_deadlock some is t b =
      let s : Threads text = run text (started text) is in
      thread-GoesOn some s (run-Inv text (started text) is (started-Inv text)) t (s.thread t) b refl
