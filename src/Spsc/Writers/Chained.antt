-- ===== src/Spsc/Writers/Chained.antt =====
-- The reservations of several writers follow one another from old_tail to the tail.
use mathlib.Core.Path.{subst}
use make_the_american_great.Prelude.{
  ℕ, ◌+◌, ◌%◌, ◌<◌, ◌≡◌, ◌≢◌, refl, ap, ◌∙◌, sym, List, [], take, u32, arith, update, update-cases,
  ◌⊎◌, inl, inr,
}
use make_the_american_great.Ring.{Ring}
use make_the_american_great.Ring.Inv.{IsSize, IsQuiet, wrap, span, used}
use make_the_american_great.Ring.Read.{next_index}
use make_the_american_great.Spsc.{
  WriterPc, Write, swapping, storing, call, load_head, load_tail, full, has_room, take_tail,
  lose_tail, put, stored, wait, publish,
}
use make_the_american_great.Spsc.Reserved.{span-grown}
use make_the_american_great.Spsc.Writers.{Writers, turn, Reach, here, next}
use make_the_american_great.Spsc.Writers.Apart.{extent, IsBetween, IsSound, Inv, extent-IsBetween}
use make_the_american_great.Spsc.Writers.Moved.{tail_at, after, tail_in}
use make_the_american_great.Spsc.Writers.Safety.{Reach-Inv}

-- The tail is at p, or a writer has reserved bytes from p on.
abbrev pub IsNext : ℕ → (ℕ → WriterPc) → ℕ → Type 0
IsNext tail writer p =
    (p ≡ tail) ⊎ ((j : ℕ) × (0 < (extent (writer j)).1) × ((extent (writer j)).0 ≡ p))

-- From old_tail to the tail one reservation follows the other.
pub record Chained (n : ℕ) (s : Writers) : Type 0 where
  pub front : IsNext s.ring.tail s.writer s.ring.old_tail
  pub ends :
      (i : ℕ)
      → 0 < (extent (s.writer i)).1
      → IsNext s.ring.tail s.writer (wrap n ((extent (s.writer i)).0 + (extent (s.writer i)).1))

wrapped : (n t k : ℕ) → t < n → 0 < k → k < n → wrap n (t + k) ≢ t
wrapped n t k p q r e = ground arith

-- What is reserved does not end where the readable bytes end.
end-ne :
    (n h u z t k t' : ℕ)
    → h < n
    → z < n
    → u ≡ span n h t'
    → IsBetween n h u z t k
    → wrap n (t + k) ≢ t'
end-ne n h u z t k t' h_in z_in first b e =
    let grown = span-grown n h t k h_in b.t_in (omega (arith, b.high)) in
    omega (arith, grown, ap (span n h) e, first, b.low, b.some_bytes)

module _ (n : ℕ) (rb₀ : Ring) (s : Writers) (size : IsSize n) (inv : Inv n rb₀ s) (c : Chained n s)
    (i : ℕ) (pc : WriterPc) (at : s.writer i ≡ pc) where
  -- A step that reserves nothing and makes nothing readable.
  same-Chained :
      (pc' : WriterPc) (rb' : Ring) (bytes : List ℕ)
      → extent pc' ≡ extent pc
      → rb'.tail ≡ s.ring.tail
      → rb'.old_tail ≡ s.ring.old_tail
      → Chained n (after s i rb' pc' bytes)
  same-Chained pc' rb' bytes e et eo = record {
    front = subst (IsNext rb'.tail (update s.writer i pc')) (sym eo) (kept s.ring.old_tail c.front);
    ends = λ j p.
        subst (λ x. IsNext rb'.tail (update s.writer i pc') (wrap n (x.0 + x.1))) (sym (same j))
          (kept _ (c.ends j (subst (λ x. 0 < x.1) (same j) p)));
  }
    where
      same : (j : ℕ) → extent (update s.writer i pc' j) ≡ extent (s.writer j)
      same j = elim (update-cases s.writer i pc' j) [
        | inl f ↦ ap extent f.1 ∙ e ∙ ap extent (sym at) ∙ ap (λ z. extent (s.writer z)) (sym f.0)
        | inr f ↦ ap extent f.1
      ]

      kept : (p : ℕ) → IsNext s.ring.tail s.writer p → IsNext rb'.tail (update s.writer i pc') p
      kept p (inl f) = inl (f ∙ sym et)
      kept p (inr (j, q, f)) =
          inr (j, subst (λ x. 0 < x.1) (sym (same j)) q, ap (λ x. x.0) (same j) ∙ f)

  reserved-Chained :
      (input : List ℕ) (t k : ℕ)
      → pc ≡ swapping input t k
      → s.ring.tail ≡ t
      → 0 < k
      → (tail' : ℕ) → tail' ≡ wrap n (t + k)
      → Chained n (after s i (record s.ring { tail = tail' }) (storing input t k 0) [])
  reserved-Chained input t k asked same some_bytes tail' to = record {
    front = kept s.ring.old_tail c.front;
    ends = λ j p. elim (update-cases s.writer i (storing input t k 0) j) [
      | inl f ↦ inl (ap (λ x. wrap n ((extent x).0 + (extent x).1)) f.1 ∙ sym to)
      | inr f ↦
          subst
            (λ x.
              IsNext tail' (update s.writer i (storing input t k 0))
                (wrap n ((extent x).0 + (extent x).1)))
            (sym f.1) (kept _ (c.ends j (subst (λ x. 0 < (extent x).1) f.1 p)))
    ];
  }
    where
      mine : (j : ℕ) → j ≡ i → update s.writer i (storing input t k 0) j ≡ storing input t k 0
      mine j e = elim (update-cases s.writer i (storing input t k 0) j) [
        | inl f ↦ f.1
        | inr f ↦ absurd (f.0 e)
      ]

      kept :
          (p : ℕ)
          → IsNext s.ring.tail s.writer p
          → IsNext tail' (update s.writer i (storing input t k 0)) p
      kept p (inl f) = inr (
        i,
        subst (λ x. 0 < (extent x).1) (sym (mine i refl)) some_bytes,
        ap (λ x. (extent x).0) (mine i refl) ∙ sym same ∙ sym f,
      )
      kept p (inr (j, q, f)) = elim (update-cases s.writer i (storing input t k 0) j) [
        | inl g ↦
            absurd (omega (arith, subst (λ x. 0 < (extent x).1) (ap s.writer g.0 ∙ at ∙ asked) q))
        | inr g ↦ inr (j, subst (λ x. 0 < (extent x).1) (sym g.1) q, ap (λ x. (extent x).0) g.1 ∙ f)
      ]

  published-Chained :
      (t k : ℕ)
      → extent pc ≡ (t, k)
      → IsBetween n s.ring.head (used n s.ring) (tail_at n s.ring) t k
      → s.ring.old_tail ≡ t
      → (old_tail' : ℕ) → old_tail' ≡ wrap n (t + k)
      → (bytes : List ℕ)
      → Chained n (after s i (record s.ring { old_tail = old_tail' }) WriterPc.resting bytes)
  published-Chained t k e own same old_tail' to bytes = record {
    front =
        kept old_tail' (subst (IsNext s.ring.tail s.writer) (sym to) following)
          (λ f. wrapped n t k own.t_in own.some_bytes (omega (arith, own.high, z_in)) (sym to ∙ f));
    ends = λ j p. elim (update-cases s.writer i WriterPc.resting j) [
      | inl f ↦ absurd (omega (arith, subst (λ x. 0 < (extent x).1) f.1 p))
      | inr f ↦
          let q : 0 < (extent (s.writer j)).1 = subst (λ x. 0 < (extent x).1) f.1 p in
          subst
            (λ x.
              IsNext s.ring.tail (update s.writer i WriterPc.resting)
                (wrap n ((extent x).0 + (extent x).1)))
            (sym f.1)
            (kept _ (c.ends j q) (
              end-ne n s.ring.head (used n s.ring) (tail_at n s.ring) (extent (s.writer j)).0
                (extent (s.writer j)).1 t inv.valid.head_in z_in (ap (span n s.ring.head) same)
                (extent-IsBetween n s.ring.head (used n s.ring) (tail_at n s.ring) s.ring.content
                  (s.writer j) (inv.sound j) q)))
    ];
  }
    where
      mine : extent (s.writer i) ≡ (t, k)
      mine = ap extent at ∙ e

      z_in : tail_at n s.ring < n
      z_in = tail_in n rb₀ s size inv i

      following : IsNext s.ring.tail s.writer (wrap n (t + k))
      following =
          subst (λ x. IsNext s.ring.tail s.writer (wrap n (x.0 + x.1))) mine
            (c.ends i (subst (λ x. 0 < x.1) (sym mine) own.some_bytes))

      kept :
          (p : ℕ)
          → IsNext s.ring.tail s.writer p
          → p ≢ t
          → IsNext s.ring.tail (update s.writer i WriterPc.resting) p
      kept p (inl f) ne = inl f
      kept p (inr (j, q, f)) ne = elim (update-cases s.writer i WriterPc.resting j) [
        | inl g ↦ absurd (ne (sym f ∙ ap (λ z. (extent (s.writer z)).0) g.0 ∙ ap (λ x. x.0) mine))
        | inr g ↦ inr (j, subst (λ x. 0 < (extent x).1) (sym g.1) q, ap (λ x. (extent x).0) g.1 ∙ f)
      ]

module _ (n : ℕ) (rb₀ : Ring) (s : Writers) (size : IsSize n) (inv : Inv n rb₀ s) (c : Chained n s)
    (i : ℕ) where
  looked :
      (pc pc' : WriterPc)
      → s.writer i ≡ pc
      → extent pc' ≡ extent pc
      → Chained n (after s i s.ring pc' [])
  looked pc pc' at e = same-Chained n rb₀ s size inv c i pc at pc' s.ring [] e refl refl

  Write-Chained :
      {pc pc' : WriterPc} {rb' : Ring} {bytes : List ℕ}
      → Write n s.ring pc rb' pc' bytes
      → IsSound n s.ring.head (used n s.ring) (tail_at n s.ring) s.ring.content pc
      → s.writer i ≡ pc
      → Chained n (after s i rb' pc' bytes)
  Write-Chained {pc} {pc'} (call int long) w at = looked pc pc' at refl
  Write-Chained {pc} {pc'} load_head w at = looked pc pc' at refl
  Write-Chained {pc} {pc'} load_tail w at = looked pc pc' at refl
  Write-Chained {pc} {pc'} (full e) w at = looked pc pc' at refl
  Write-Chained {pc} {pc'} (has_room e) w at = looked pc pc' at refl
  Write-Chained {pc} (take_tail {input} {t} {k} same) w at =
      reserved-Chained n rb₀ s size inv c i pc at input t k refl same w.1 (u32 (t + k) % n)
        (next_index n t k size w.0 (omega (arith, w.3)))
  Write-Chained {pc} {pc'} (lose_tail lost) w at = looked pc pc' at refl
  Write-Chained {pc} {pc'} {rb'} (put below) w at =
      same-Chained n rb₀ s size inv c i pc at pc' rb' [] refl refl refl
  Write-Chained {pc} {pc'} stored w at = looked pc pc' at refl
  Write-Chained {pc} {pc'} (wait e) w at = looked pc pc' at refl
  Write-Chained {pc} (publish {input} {t} {k} same) w at =
      published-Chained n rb₀ s size inv c i pc at t k refl w.0 same (u32 (t + k) % n)
        (next_index n t k size w.0.t_in (omega (arith, w.0.high, tail_in n rb₀ s size inv i)))
        (take k input)

pub Reach-Chained :
    (n : ℕ) (rb : Ring) {s : Writers} → IsSize n → IsQuiet n rb → Reach n rb s → Chained n s
Reach-Chained n rb size quiet here = record {
  front = inl quiet.published;
  ends = λ i p. absurd (omega arith);
}
Reach-Chained n rb size quiet (next {s} r (turn i step)) =
    let inv : Inv n rb s = Reach-Inv n rb size quiet r in
    Write-Chained n rb s size inv (Reach-Chained n rb size quiet r) i step (inv.sound i) refl
