-- ===== src/Mpmc/Moved.antt =====
-- What a step of one process has to keep for the invariant of all.
use mathlib.Core.Path.{subst}
use make_the_american_great.Prelude.{
  ℕ, ◌+◌, ◌-◌, ◌<◌, ◌≤◌, ◌≡◌, ◌≢◌, refl, ◌∙◌, ap, sym, List, ◌++◌, length, get_or, arith, inl, inr,
  update, update-cases, length-append, get_or-append_left, get_or-append_right, le_cases,
}
use make_the_american_great.Ring.{Ring}
use make_the_american_great.Spsc.{WriterPc, ReaderPc}
use make_the_american_great.Mpmc.{System, Process}
use make_the_american_great.Mpmc.Position.{position}
use make_the_american_great.Mpmc.Inv.{
  Inv, WriterInv, ReaderInv, AreApart, extent, extent-IsReserved, WriterInv-kept, ReaderInv-kept,
}

AreApart-sym : (v w : Process WriterPc) → AreApart v w → AreApart w v
AreApart-sym v w apart p q = elim (apart q p) [ inl e ↦ inr e | inr e ↦ inl e ]

-- Writer i has made a step.
abbrev pub after_write : System → ℕ → Ring → Process WriterPc → List ℕ → ℕ → System
after_write s i rb' w bytes q = record s {
  ring = rb';
  writer = update s.writer i w;
  sent = s.sent ++ bytes;
  reserved = q;
}

abbrev pub after_read : System → ℕ → Ring → Process ReaderPc → List ℕ → System
after_read s i rb' r bytes = record s {
  ring = rb';
  reader = update s.reader i r;
  received = s.received ++ bytes;
}

module _ (n : ℕ) (s : System) (inv : Inv n s) (i : ℕ) where
  abbrev pub OthersApart : Process WriterPc → Type 0
  OthersApart w = (j : ℕ) → j ≢ i → AreApart w (s.writer j)

  apart_after :
      (w : Process WriterPc)
      → OthersApart w
      → (j k : ℕ) → j ≢ k
      → AreApart (update s.writer i w j) (update s.writer i w k)
  apart_after w others j k ne = elim (update-cases s.writer i w j) [
    | inl e ↦ elim (update-cases s.writer i w k) [
      | inl f ↦ absurd (ne (e.0 ∙ sym f.0))
      | inr f ↦
          subst (λ v. AreApart v (update s.writer i w k)) (sym e.1)
            (subst (AreApart w) (sym f.1) (others k f.0))
    ]
    | inr e ↦
        subst (λ v. AreApart v (update s.writer i w k)) (sym e.1)
          (elim (update-cases s.writer i w k) [
            | inl f ↦
                subst (AreApart (s.writer j)) (sym f.1) (AreApart-sym w (s.writer j) (others j e.0))
            | inr f ↦ subst (AreApart (s.writer j)) (sym f.1) (inv.apart j k ne)
          ])
  ]

  -- Writer i becomes w, the ring becomes rb', and q bytes are reserved.
  pub writer_moved :
      (rb' : Ring) (w : Process WriterPc) (bytes : List ℕ) (p q : ℕ)
      → p ≡ length s.sent + length bytes
      → rb'.head ≡ s.ring.head
      → rb'.old_tail ≡ position n p
      → rb'.tail ≡ position n q
      → s.reserved ≤ q
      → p ≤ q
      → q < length s.received + n
      → ((x : ℕ)
          → length s.received ≤ x
          → x < length s.sent
          → rb'.content (position n x) ≡ s.ring.content (position n x))
      → ((j : ℕ)
          → j < length bytes
          → rb'.content (position n (length s.sent + j)) ≡ get_or bytes j 0)
      → ((j : ℕ) → j ≢ i → 0 < extent (s.writer j).pc → p ≤ (s.writer j).tail_seen)
      → ((j : ℕ)
          → j ≢ i
          → (x : ℕ) → x < extent (s.writer j).pc
          → rb'.content (position n ((s.writer j).tail_seen + x))
            ≡ s.ring.content (position n ((s.writer j).tail_seen + x)))
      → WriterInv n (length s.received) p q rb'.content w w.pc
      → OthersApart w
      → Inv n (after_write s i rb' w bytes q)
  writer_moved rb' w bytes p q long head old_tail tail more within room kept new low same mine
        others =
      let e : length (s.sent ++ bytes) ≡ p = length-append s.sent bytes ∙ sym long in
      record {
        size = inv.size;
        head = head ∙ inv.head;
        old_tail = old_tail ∙ ap (position n) (sym e);
        tail = tail;
        behind = omega (arith, inv.behind, e, long);
        within = omega (arith, e);
        room = room;
        same = λ x b.
            inv.same x b ∙ sym (get_or-append_left s.sent bytes x 0 (omega (arith, inv.behind)));
        held = λ x b c. elim (le_cases (length s.sent) x) [
          | inl last ↦
              ap (λ z. rb'.content (position n z)) (again (length s.sent) x last)
              ∙ new (x - length s.sent) (omega (arith, e, long))
              ∙ sym (get_or-append_right s.sent bytes x 0 last)
          | inr early ↦
              kept x b early ∙ inv.held x b early ∙ sym (get_or-append_left s.sent bytes x 0 early)
        ];
        writers = λ j.
            subst
              (λ z.
                WriterInv n (length s.received) z q rb'.content (update s.writer i w j)
                  (update s.writer i w j).pc)
              (sym e)
              (elim (update-cases s.writer i w j) [
                | inl f ↦
                    subst (λ v. WriterInv n (length s.received) p q rb'.content v v.pc) (sym f.1)
                      mine
                | inr f ↦
                    subst (λ v. WriterInv n (length s.received) p q rb'.content v v.pc) (sym f.1)
                      (WriterInv-kept n (length s.received) (length s.sent) s.reserved
                        (length s.received) p q s.ring.content rb'.content (omega arith) more
                        (s.writer j) (s.writer j).pc (low j f.0) (same j f.0) (inv.writers j))
              ]);
        readers = λ j.
            ReaderInv-kept n (length s.received) (length s.received) s.sent (s.sent ++ bytes)
              (omega arith) (omega (arith, e, long)) (λ x b. get_or-append_left s.sent bytes x 0 b)
              (s.reader j) (s.reader j).pc (inv.readers j);
        apart = apart_after w others;
      }
    where
      again : (a x : ℕ) → a ≤ x → x ≡ a + (x - a)
      again a x h = omega arith

  -- Reader i becomes r, and the ring becomes rb'.
  pub reader_moved :
      (rb' : Ring) (r : Process ReaderPc) (bytes : List ℕ) (o : ℕ)
      → o ≡ length s.received + length bytes
      → rb'.old_tail ≡ s.ring.old_tail
      → rb'.tail ≡ s.ring.tail
      → rb'.content ≡ s.ring.content
      → rb'.head ≡ position n o
      → o ≤ length s.sent
      → ((j : ℕ) → j < length bytes → get_or bytes j 0 ≡ get_or s.sent (length s.received + j) 0)
      → ReaderInv n o s.sent r r.pc
      → Inv n (after_read s i rb' r bytes)
  reader_moved rb' r bytes o long old_tail tail content head behind new mine =
      let e : length (s.received ++ bytes) ≡ o = length-append s.received bytes ∙ sym long in
      record {
        size = inv.size;
        head = head ∙ ap (position n) (sym e);
        old_tail = old_tail ∙ inv.old_tail;
        tail = tail ∙ inv.tail;
        behind = omega (arith, e);
        within = inv.within;
        room = omega (arith, inv.room, e, long);
        same = λ x b. elim (le_cases (length s.received) x) [
          | inl last ↦
              get_or-append_right s.received bytes x 0 last
              ∙ new (x - length s.received) (omega (arith, e, long))
              ∙ ap (λ z. get_or s.sent z 0) (sym (again (length s.received) x last))
          | inr early ↦ get_or-append_left s.received bytes x 0 early ∙ inv.same x early
        ];
        held = λ x b c. ap (λ m. m (position n x)) content ∙ inv.held x (omega (arith, e, long)) c;
        writers = λ j.
            subst
              (λ z.
                WriterInv n z (length s.sent) s.reserved rb'.content (s.writer j) (s.writer j).pc)
              (sym e)
              (WriterInv-kept n (length s.received) (length s.sent) s.reserved o (length s.sent)
                s.reserved s.ring.content rb'.content (omega (arith, long)) (omega arith)
                (s.writer j) (s.writer j).pc
                (λ b.
                  (extent-IsReserved n (length s.received) (length s.sent) s.reserved s.ring.content
                    (s.writer j) (s.writer j).pc (inv.writers j) b).low)
                (λ x b. ap (λ m. m (position n ((s.writer j).tail_seen + x))) content)
                (inv.writers j));
        readers = λ j.
            subst (λ z. ReaderInv n z s.sent (update s.reader i r j) (update s.reader i r j).pc)
              (sym e)
              (elim (update-cases s.reader i r j) [
                | inl f ↦ subst (λ v. ReaderInv n o s.sent v v.pc) (sym f.1) mine
                | inr f ↦
                    subst (λ v. ReaderInv n o s.sent v v.pc) (sym f.1)
                      (ReaderInv-kept n (length s.received) o s.sent s.sent (omega (arith, long))
                        (omega arith) (λ x b. refl) (s.reader j) (s.reader j).pc (inv.readers j))
              ]);
        apart = inv.apart;
      }
    where
      again : (a x : ℕ) → a ≤ x → x ≡ a + (x - a)
      again a x h = omega arith
