-- ===== src/Mpmc/Chained.antt =====
-- The reservations of the writers follow one another from the written bytes to the tail.
use mathlib.Core.Path.{subst}
use make_the_american_great.Prelude.{
  ℕ, ◌+◌, ◌<◌, ◌≤◌, ◌≡◌, ◌≢◌, refl, ◌∙◌, ap, sym, length, arith, ◌⊎◌, inl, inr, update,
  update-cases,
}
use make_the_american_great.Spsc.{WriterPc}
use make_the_american_great.Mpmc.{System, Process}
use make_the_american_great.Mpmc.Inv.{extent}

-- As many as p bytes are reserved, or a writer has reserved bytes from the p-th on.
abbrev pub IsNext : ℕ → (ℕ → Process WriterPc) → ℕ → Type 0
IsNext reserved writer p =
    (p ≡ reserved) ⊎ ((j : ℕ) × (0 < extent (writer j).pc) × ((writer j).tail_seen ≡ p))

pub record Chained (s : System) : Type 0 where
  pub front : IsNext s.reserved s.writer (length s.sent)
  pub ends :
      (i : ℕ)
      → 0 < extent (s.writer i).pc
      → IsNext s.reserved s.writer ((s.writer i).tail_seen + extent (s.writer i).pc)

-- Writer i has become w, p bytes are written and q reserved.
module _ (s : System) (c : Chained s) (i : ℕ) (w : Process WriterPc) (p q : ℕ) where
  abbrev pub after : ℕ → Process WriterPc
  after = update s.writer i w

  abbrev pub Next : Type 0
  Next =
      IsNext q after p
      × ((j : ℕ)
          → 0 < extent (after j).pc
          → IsNext q after ((after j).tail_seen + extent (after j).pc))

  at_i : after i ≡ w
  at_i = elim (update-cases s.writer i w i) [ inl f ↦ f.1 | inr f ↦ absurd (f.0 refl) ]

  -- What begins at a place that is not writer i's stays.
  kept :
      (x : ℕ)
      → s.reserved ≡ q
      → (0 < extent (s.writer i).pc → (s.writer i).tail_seen ≢ x)
      → IsNext s.reserved s.writer x
      → IsNext q after x
  kept x same other (inl e) = inl (e ∙ same)
  kept x same other (inr (j, b, e)) = elim (update-cases s.writer i w j) [
    | inl f ↦ absurd (
        other (subst (λ k. 0 < extent (s.writer k).pc) f.0 b)
          (ap (λ k. (s.writer k).tail_seen) (sym f.0) ∙ e))
    | inr f ↦ inr (j, subst (λ v. 0 < extent v.pc) (sym f.1) b, ap (λ v. v.tail_seen) f.1 ∙ e)
  ]

  -- A step of writer i that reserves nothing and makes nothing readable.
  pub same-Next :
      p ≡ length s.sent
      → q ≡ s.reserved
      → extent w.pc ≡ extent (s.writer i).pc
      → (0 < extent w.pc → w.tail_seen ≡ (s.writer i).tail_seen)
      → Next
  same-Next ep eq el et = (
    subst (IsNext q after) (sym ep) (stays (length s.sent) c.front),
    λ j b. elim (update-cases s.writer i w j) [
      | inl f ↦
          let b' : 0 < extent w.pc = subst (λ v. 0 < extent v.pc) f.1 b in
          subst (IsNext q after) (sym (ends_at j f.1 b')) (
            stays ((s.writer i).tail_seen + extent (s.writer i).pc)
              (c.ends i (omega (arith, el, b'))))
      | inr f ↦
          subst (λ v. IsNext q after (v.tail_seen + extent v.pc)) (sym f.1)
            (stays ((s.writer j).tail_seen + extent (s.writer j).pc)
              (c.ends j (subst (λ v. 0 < extent v.pc) f.1 b)))
    ],
  )
    where
      ends_at :
          (j : ℕ)
          → after j ≡ w
          → 0 < extent w.pc
          → (after j).tail_seen + extent (after j).pc
            ≡ (s.writer i).tail_seen + extent (s.writer i).pc
      ends_at j f b =
          ap (λ v. v.tail_seen + extent v.pc) f
          ∙ ap (λ z. z + extent w.pc) (et b)
          ∙ ap (λ z. (s.writer i).tail_seen + z) el

      stays : (x : ℕ) → IsNext s.reserved s.writer x → IsNext q after x
      stays x (inl e) = inl (e ∙ sym eq)
      stays x (inr (j, b, e)) = elim (update-cases s.writer i w j) [
        | inl f ↦
            let b' : 0 < extent (s.writer i).pc = subst (λ k. 0 < extent (s.writer k).pc) f.0 b in
            inr (
              i,
              subst (λ v. 0 < extent v.pc) (sym at_i) (omega (arith, el, b')),
              ap (λ v. v.tail_seen) at_i
                  ∙ et (omega (arith, el, b'))
                  ∙ ap (λ k. (s.writer k).tail_seen) (sym f.0)
                  ∙ e,
            )
        | inr f ↦ inr (j, subst (λ v. 0 < extent v.pc) (sym f.1) b, ap (λ v. v.tail_seen) f.1 ∙ e)
      ]

  -- Writer i reserves what is behind all others.
  pub reserved-Next :
      p ≡ length s.sent
      → extent (s.writer i).pc ≡ 0
      → 0 < extent w.pc
      → w.tail_seen ≡ s.reserved
      → q ≡ s.reserved + extent w.pc
      → Next
  reserved-Next ep none some_bytes first eq = (
    subst (IsNext q after) (sym ep) (stays (length s.sent) c.front),
    λ j b. elim (update-cases s.writer i w j) [
      | inl f ↦
          inl (ap (λ v. v.tail_seen + extent v.pc) f.1 ∙ ap (λ z. z + extent w.pc) first ∙ sym eq)
      | inr f ↦
          subst (λ v. IsNext q after (v.tail_seen + extent v.pc)) (sym f.1)
            (stays ((s.writer j).tail_seen + extent (s.writer j).pc)
              (c.ends j (subst (λ v. 0 < extent v.pc) f.1 b)))
    ],
  )
    where
      stays : (x : ℕ) → IsNext s.reserved s.writer x → IsNext q after x
      stays x (inl e) = inr (
        i,
        subst (λ v. 0 < extent v.pc) (sym at_i) some_bytes,
        ap (λ v. v.tail_seen) at_i ∙ first ∙ sym e,
      )
      stays x (inr (j, b, e)) = elim (update-cases s.writer i w j) [
        | inl f ↦ absurd (omega (arith, none, subst (λ k. 0 < extent (s.writer k).pc) f.0 b))
        | inr f ↦ inr (j, subst (λ v. 0 < extent v.pc) (sym f.1) b, ap (λ v. v.tail_seen) f.1 ∙ e)
      ]

  -- Writer i, whose bytes come first, makes them readable.
  pub published-Next :
      s.reserved ≡ q
      → (s.writer i).tail_seen ≡ length s.sent
      → 0 < extent (s.writer i).pc
      → extent w.pc ≡ 0
      → p ≡ length s.sent + extent (s.writer i).pc
      → ((j : ℕ) → 0 < extent (s.writer j).pc → length s.sent ≤ (s.writer j).tail_seen)
      → Next
  published-Next eq first some_bytes none ep behind = (
    subst (IsNext q after) (sym ep) (
        kept (length s.sent + extent (s.writer i).pc) eq (λ b z. omega arith)
          (subst (λ z. IsNext s.reserved s.writer (z + extent (s.writer i).pc)) first
            (c.ends i some_bytes))),
    λ j b. elim (update-cases s.writer i w j) [
      | inl f ↦ absurd (omega (arith, none, subst (λ v. 0 < extent v.pc) f.1 b))
      | inr f ↦
          let b' : 0 < extent (s.writer j).pc = subst (λ v. 0 < extent v.pc) f.1 b in
          subst (λ v. IsNext q after (v.tail_seen + extent v.pc)) (sym f.1)
            (kept ((s.writer j).tail_seen + extent (s.writer j).pc) eq
              (λ d z. omega (arith, behind j b')) (c.ends j b'))
    ],
  )
