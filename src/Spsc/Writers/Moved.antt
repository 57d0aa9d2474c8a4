-- ===== src/Spsc/Writers/Moved.antt =====
-- What a step of one writer has to keep for the invariant of all.
use mathlib.Core.Path.{subst}
use mathlib.Core.List.{append-nil, append_assoc}
use make_the_american_great.Prelude.{
  ℕ, ◌+◌, ◌<◌, ◌≤◌, ◌≡◌, ◌≢◌, refl, ap, ◌∙◌, sym, List, [], ◌++◌, arith, update, inl, inr,
  update-cases,
}
use make_the_american_great.Ring.{Ring}
use make_the_american_great.Ring.Inv.{IsSize, IsValid, wrap, span, span-lt, used, contents}
use make_the_american_great.Spsc.{WriterPc}
use make_the_american_great.Spsc.Writers.{Writers}
use make_the_american_great.Spsc.Writers.Apart.{
  extent, IsBetween, IsSound, AreApart, AreApart-sym, Inv, extent-IsBetween, moved-IsSound,
}

-- How far the tail is behind the head.
abbrev pub tail_at : ℕ → Ring → ℕ
tail_at n rb = span n rb.head rb.tail

-- Writer i has made a step.
abbrev pub after : Writers → ℕ → Ring → WriterPc → List ℕ → Writers
after s i rb' pc bytes = record {
  ring = rb';
  writer = update s.writer i pc;
  sent = s.sent ++ bytes;
}

-- What writer i has reserved when it is at pc does not overlap with what others have.
abbrev pub OthersApart : ℕ → Writers → ℕ → WriterPc → Type 0
OthersApart n s i pc = (j : ℕ) → j ≢ i → AreApart n s.ring.head (extent pc) (extent (s.writer j))

module _ (n : ℕ) (rb₀ : Ring) (s : Writers) (size : IsSize n) (inv : Inv n rb₀ s) (i : ℕ) where
  pub tail_in : tail_at n s.ring < n
  tail_in = span-lt n s.ring.head s.ring.tail inv.valid.head_in inv.valid.tail_in

  -- Writer i goes to pc; the ring becomes rb', with the same head.
  pub moved :
      (rb' : Ring) (pc : WriterPc) (bytes : List ℕ)
      → rb'.head ≡ s.ring.head
      → IsValid n rb'
      → used n rb' ≤ span n rb'.head rb'.tail
      → (tail_at n s.ring) ≤ span n rb'.head rb'.tail
      → ((j : ℕ)
          → j ≢ i
          → 0 < (extent (s.writer j)).1
          → used n rb' ≤ span n s.ring.head (extent (s.writer j)).0)
      → ((j : ℕ)
          → j ≢ i
          → (x : ℕ) → x < (extent (s.writer j)).1
          → rb'.content (wrap n ((extent (s.writer j)).0 + x))
            ≡ s.ring.content (wrap n ((extent (s.writer j)).0 + x)))
      → IsSound n s.ring.head (used n rb') (span n rb'.head rb'.tail) rb'.content pc
      → OthersApart n s i pc
      → contents n rb' ≡ contents n s.ring ++ bytes
      → Inv n rb₀ (after s i rb' pc bytes)
  moved rb' pc bytes head valid behind more low same mine others kept = record {
    valid = valid;
    behind = behind;
    sound = λ j.
        subst
          (λ h.
            IsSound n h (used n rb') (span n rb'.head rb'.tail) rb'.content
              (update s.writer i pc j))
          (sym head)
          (elim (update-cases s.writer i pc j) [
            | inl e ↦
                subst (IsSound n s.ring.head (used n rb') (span n rb'.head rb'.tail) rb'.content)
                  (sym e.1) mine
            | inr e ↦
                subst (IsSound n s.ring.head (used n rb') (span n rb'.head rb'.tail) rb'.content)
                  (sym e.1)
                  (moved-IsSound n s.ring.head (used n s.ring) (tail_at n s.ring) (used n rb')
                    (span n rb'.head rb'.tail) s.ring.content rb'.content more (s.writer j)
                    (low j e.0) (same j e.0) (inv.sound j))
          ]);
    apart = λ j k ne.
        subst
          (λ h. AreApart n h (extent (update s.writer i pc j)) (extent (update s.writer i pc k)))
          (sym head)
          (elim (update-cases s.writer i pc j) [
            | inl e ↦ elim (update-cases s.writer i pc k) [
              | inl f ↦ absurd (ne (e.0 ∙ sym f.0))
              | inr f ↦
                  subst (λ a. AreApart n s.ring.head (extent a) (extent (update s.writer i pc k)))
                    (sym e.1)
                    (subst (λ b. AreApart n s.ring.head (extent pc) (extent b)) (sym f.1)
                      (others k f.0))
            ]
            | inr e ↦
                subst (λ a. AreApart n s.ring.head (extent a) (extent (update s.writer i pc k)))
                  (sym e.1)
                  (elim (update-cases s.writer i pc k) [
                    | inl f ↦
                        subst (λ b. AreApart n s.ring.head (extent (s.writer j)) (extent b))
                          (sym f.1)
                          (AreApart-sym n s.ring.head (extent pc) (extent (s.writer j))
                            (others j e.0))
                    | inr f ↦
                        subst (λ b. AreApart n s.ring.head (extent (s.writer j)) (extent b))
                          (sym f.1) (inv.apart j k ne)
                  ])
          ]);
    kept = kept ∙ ap (λ xs. xs ++ bytes) inv.kept ∙ append_assoc (contents n rb₀) s.sent bytes;
  }

  -- A step that leaves the ring as it is.
  pub looked :
      (pc : WriterPc)
      → IsSound n s.ring.head (used n s.ring) (tail_at n s.ring) s.ring.content pc
      → OthersApart n s i pc
      → Inv n rb₀ (after s i s.ring pc [])
  looked pc mine others =
      moved s.ring pc [] refl inv.valid inv.behind (omega arith)
        (λ j ne p.
          (extent-IsBetween n s.ring.head (used n s.ring) (tail_at n s.ring) s.ring.content
            (s.writer j) (inv.sound j) p).low)
        (λ j ne x b. refl) mine others (sym (append-nil (contents n s.ring)))

  pub none_reserved : (pc : WriterPc) → (extent pc).1 ≡ 0 → OthersApart n s i pc
  none_reserved pc e j ne p q = absurd (omega (arith, e))

  -- What another writer has reserved.
  pub other_extent :
      (j : ℕ)
      → 0 < (extent (s.writer j)).1
      → IsBetween n s.ring.head
          (used n s.ring)
          (tail_at n s.ring)
          (extent (s.writer j)).0
          (extent (s.writer j)).1
  other_extent j p =
      extent-IsBetween n s.ring.head (used n s.ring) (tail_at n s.ring) s.ring.content (s.writer j)
        (inv.sound j) p
