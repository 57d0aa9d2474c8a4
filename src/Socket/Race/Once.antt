-- ===== src/Socket/Race/Once.antt =====
-- How many of the clients that connect to one port succeed.
use mathlib.Core.Path.{subst}
use make_the_american_great.Prelude.{
  ℕ, ◌+◌, ◌<◌, ◌≡◌, ◌≢◌, refl, ap, ◌∙◌, sym, true, false, update, update_self, update_ne, arith,
  inl, inr, update-cases,
}
use make_the_american_great.Index.{minus}
use make_the_american_great.Socket.{client_mark}
use make_the_american_great.Socket.Race.{
  Client, resting, scanning, claiming, swapping, winning, connected, losing, failed, Connect,
  load_pid, busy, closed, skip, none_free, find, claim, win, lose, mark, give_back, Clients, turn,
  Reach, here, next, has_won,
}

-- What the locals of a client say about the server's entry, where the server's pid is p.
abbrev IsSound : (p sp : ℕ) → (ℕ → ℕ) → Client → Type 0
IsSound p sp t resting = Unit {0}
IsSound p sp t (scanning pid i) = pid ≡ p
IsSound p sp t (claiming pid i) = (pid ≡ p) × (i ≢ sp)
IsSound p sp t (swapping pid cp) = (pid ≡ p) × (cp ≢ sp)
IsSound p sp t (winning cp) = (cp ≢ sp) × (t sp ≢ p)
IsSound p sp t (connected cp) = t sp ≢ p
IsSound p sp t (losing cp) = cp ≢ sp
IsSound p sp t failed = Unit {0}

record Inv (p sp : ℕ) (s : Clients) : Type 0 where
  listening : s.table sp ≢ 0
  seen : s.table sp < client_mark → s.table sp ≡ p
  sound : (i : ℕ) → IsSound p sp s.table (s.client i)
  once : (i j : ℕ) → has_won (s.client i) ≡ true → has_won (s.client j) ≡ true → i ≡ j

IsSound-kept :
    (p sp : ℕ) (t t' : ℕ → ℕ) (c : Client)
    → (t sp ≢ p → t' sp ≢ p)
    → IsSound p sp t c
    → IsSound p sp t' c
IsSound-kept p sp t t' resting k h = tt
IsSound-kept p sp t t' (scanning pid i) k h = h
IsSound-kept p sp t t' (claiming pid i) k h = h
IsSound-kept p sp t t' (swapping pid cp) k h = h
IsSound-kept p sp t t' (winning cp) k h = (h.0, k h.1)
IsSound-kept p sp t t' (connected cp) k h = k h
IsSound-kept p sp t t' (losing cp) k h = h
IsSound-kept p sp t t' failed k h = tt

module _ (p sp : ℕ) (s : Clients) (inv : Inv p sp s) (i : ℕ) where
  -- Client i goes to c, and the table becomes t'.
  moved-Inv :
      (t' : ℕ → ℕ) (c : Client)
      → t' sp ≢ 0
      → (t' sp < client_mark → t' sp ≡ p)
      → (s.table sp ≢ p → t' sp ≢ p)
      → IsSound p sp t' c
      → (has_won c ≡ true → (j : ℕ) → has_won (s.client j) ≡ true → j ≡ i)
      → Inv p sp (record { table = t'; client = update s.client i c })
  moved-Inv t' c listening seen keep mine alone = record {
    listening = listening;
    seen = seen;
    sound = λ j. elim (update-cases s.client i c j) [
      | inl e ↦ subst (IsSound p sp t') (sym e.1) mine
      | inr e ↦
          subst (IsSound p sp t') (sym e.1)
            (IsSound-kept p sp s.table t' (s.client j) keep (inv.sound j))
    ];
    once = λ j k wj wk. elim (update-cases s.client i c j) [
      | inl e ↦ elim (update-cases s.client i c k) [
        | inl f ↦ e.0 ∙ sym f.0
        | inr f ↦ e.0 ∙ sym (alone (sym (ap has_won e.1) ∙ wj) k (sym (ap has_won f.1) ∙ wk))
      ]
      | inr e ↦ elim (update-cases s.client i c k) [
        | inl f ↦ alone (sym (ap has_won f.1) ∙ wk) j (sym (ap has_won e.1) ∙ wj) ∙ sym f.0
        | inr f ↦ inv.once j k (sym (ap has_won e.1) ∙ wj) (sym (ap has_won f.1) ∙ wk)
      ]
    ];
  }

  -- A step that leaves the table as it is, to a place that has not won.
  looked :
      (c : Client)
      → IsSound p sp s.table c
      → has_won c ≡ false
      → Inv p sp (record { table = s.table; client = update s.client i c })
  looked c mine lost =
      moved-Inv s.table c inv.listening inv.seen (λ k. k) mine (λ w. absurd (clash w lost))
    where
      clash : has_won c ≡ true → has_won c ≡ false → ⊥
      clash a b = cc

  -- A step that writes the entry of another port than the server's.
  wrote :
      (q v : ℕ) (c : Client)
      → q ≢ sp
      → IsSound p sp s.table c
      → (has_won c ≡ true → (j : ℕ) → has_won (s.client j) ≡ true → j ≡ i)
      → Inv p sp (record { table = update s.table q v; client = update s.client i c })
  wrote q v c other mine alone =
      let same : update s.table q v sp ≡ s.table sp =
        update_ne s.table q v sp (λ e. other (sym e)) in
      moved-Inv (update s.table q v) c (λ z. inv.listening (sym same ∙ z))
        (λ b. same ∙ inv.seen (omega (arith, same))) (λ k e. k (sym same ∙ e))
        (IsSound-kept p sp s.table (update s.table q v) c (λ k e. k (sym same ∙ e)) mine) alone

  no_winner : s.table sp ≡ p → (j : ℕ) → has_won (s.client j) ≡ true → ⊥
  no_winner e j w = ground (arith, inv.sound j)

  Connect-Inv :
      {mine : ℕ} {c c' : Client} {t' : ℕ → ℕ}
      → p < client_mark
      → Connect sp mine s.table c t' c'
      → IsSound p sp s.table c
      → (has_won c ≡ true → (j : ℕ) → has_won (s.client j) ≡ true → j ≡ i)
      → Inv p sp (record { table = t'; client = update s.client i c' })
  Connect-Inv small (load_pid open_port unmarked) h alone =
      looked (scanning (s.table sp) 1) (inv.seen unmarked) refl
  Connect-Inv small (busy e) h alone = looked failed tt refl
  Connect-Inv small (closed e) h alone = looked failed tt refl
  Connect-Inv small (skip {pid} {i = q} taken more) h alone = looked (scanning pid (q + 1)) h refl
  Connect-Inv small (none_free taken last) h alone = looked failed tt refl
  Connect-Inv small (find {pid} {i = q} free) h alone =
      looked (claiming pid q) (h, λ e. inv.listening (ap s.table (sym e) ∙ free)) refl
  Connect-Inv {mine} small (claim {pid} {i = q}) h alone =
      wrote q mine (swapping pid q) h.1 h (λ w. absurd (omega_false w))
    where
      omega_false : false ≡ true → ⊥
      omega_false e = cc
  Connect-Inv small (win {pid} {cp} same) h alone =
      let entry : update s.table sp (cp + client_mark) sp ≡ cp + client_mark =
        update_self s.table sp (cp + client_mark) in
      moved-Inv (update s.table sp (cp + client_mark)) (winning cp) (λ z. omega (arith, entry, z))
        (λ b. absurd (omega (arith, entry, b))) (λ k e. omega (arith, entry, e))
        (h.1, λ e. omega (arith, entry, e)) (λ w j wj. absurd (no_winner (same ∙ h.0) j wj))
  Connect-Inv small (lose {pid} {cp} other) h alone = looked (losing cp) h.1 refl
  Connect-Inv small (mark {cp}) h alone =
      wrote cp (minus 1) (connected cp) h.0 h.1 (λ w. alone refl)
  Connect-Inv small (give_back {cp}) h alone = wrote cp 0 failed h tt (λ w. absurd (clash w))
    where
      clash : false ≡ true → ⊥
      clash e = cc

Reach-Inv :
    (sp : ℕ) (mine : ℕ → ℕ) (t : ℕ → ℕ) {s : Clients}
    → t sp ≢ 0
    → t sp < client_mark
    → Reach sp mine t s
    → Inv (t sp) sp s
Reach-Inv sp mine t listening small here = record {
  listening = listening;
  seen = λ b. refl;
  sound = λ i. tt;
  once = λ i j wi wj. cc;
}
Reach-Inv sp mine t listening small (next {s} r (turn i st)) =
    let inv = Reach-Inv sp mine t listening small r in
    Connect-Inv (t sp) sp s inv i small st (inv.sound i) (λ w j wj. inv.once j i wj w)

-- Any number of clients connect to the port of a server at the same time, in every order of their
-- accesses of the port table: the compare-and-swap of at most one of them succeeds.
pub at_most_one_connects :
    (sp : ℕ) (mine : ℕ → ℕ) (t : ℕ → ℕ) (s : Clients) (i j : ℕ)
    → t sp ≢ 0
    → t sp < client_mark
    → Reach sp mine t s
    → has_won (s.client i) ≡ true
    → has_won (s.client j) ≡ true
    → i ≡ j
at_most_one_connects sp mine t s i j listening small r wi wj =
    (Reach-Inv sp mine t listening small r).once i j wi wj
