-- ===== src/Spsc/Writers/Steps.antt =====
-- The steps of one of several writers.
use mathlib.Core.List.{append-nil}
use make_the_american_great.Prelude.{
  ℕ, ◌+◌, ◌%◌, ◌<◌, ◌≡◌, ◌≢◌, refl, ap, ◌∙◌, sym, List, [], get_or, take, u32, arith, update,
  update_self, update_ne, generate_ext, inl, inr, le_cases,
}
use make_the_american_great.Ring.{Ring, write_size, clip}
use make_the_american_great.Ring.Inv.{IsSize, IsValid, wrap, span, used, contents}
use make_the_american_great.Ring.Read.{next_index}
use make_the_american_great.Spsc.{
  WriterPc, copy_index, Write, started, saw_head, saw_tail, swapping, storing, waiting, call,
  load_head, load_tail, full, has_room, take_tail, lose_tail, put, stored, wait, publish,
}
use make_the_american_great.Spsc.Inv.{copy_index-wrap, IsReserved}
use make_the_american_great.Spsc.Reserved.{
  clip-write_size, wrap-lt, span-grown, reserved-ne, other_byte, used-ended, contents-ended,
}
use make_the_american_great.Spsc.Writers.{Writers}
use make_the_american_great.Spsc.Writers.Apart.{extent, IsSound, Inv, apart-ne}
use make_the_american_great.Spsc.Writers.Moved.{
  tail_at, after, OthersApart, tail_in, moved, looked, none_reserved, other_extent,
}

module _ (n : ℕ) (rb₀ : Ring) (s : Writers) (size : IsSize n) (inv : Inv n rb₀ s) (i : ℕ) where
  -- The tail is moved n rb₀ s size inv i behind k bytes.
  reserved-Inv :
      (input : List ℕ) (t k : ℕ)
      → s.ring.tail ≡ t
      → IsSound n s.ring.head (used n s.ring) (tail_at n s.ring) s.ring.content (swapping input t k)
      → Inv n rb₀ (after s i (record s.ring { tail = u32 (t + k) % n }) (storing input t k 0) [])
  reserved-Inv input t k same w =
      let at : span n s.ring.head t ≡ (tail_at n s.ring) = ap (span n s.ring.head) (sym same) in
      let to : u32 (t + k) % n ≡ wrap n (t + k) = next_index n t k size w.0 (omega (arith, w.3)) in
      let grown : span n s.ring.head (u32 (t + k) % n) ≡ (tail_at n s.ring) + k =
        ap (span n s.ring.head) to
        ∙ span-grown n s.ring.head t k inv.valid.head_in w.0 w.3
        ∙ ap (λ z. z + k) at in
      moved n rb₀ s size inv i (record s.ring { tail = u32 (t + k) % n }) (storing input t k 0) []
        refl
        (record {
          head_in = inv.valid.head_in;
          tail_in = rw to (wrap-lt n (t + k) (omega (arith, w.0, w.3)));
          old_tail_in = inv.valid.old_tail_in;
        })
        (omega (arith, inv.behind, grown)) (omega (arith, grown))
        (λ j ne p. (other_extent n rb₀ s size inv i j p).low) (λ j ne x b. refl)
        (
          record {
            t_in = w.0;
            low = omega (arith, inv.behind, at);
            high = omega (arith, grown, at);
            some_bytes = w.1;
          },
          w.2,
          omega arith,
          λ j b. absurd (omega arith),
        )
        (λ j ne p q. inr (omega (arith, (other_extent n rb₀ s size inv i j q).high, at)))
        (sym (append-nil (contents n s.ring)))

  -- Byte x is stored.
  put-Inv :
      (input : List ℕ) (t k x : ℕ)
      → x < k
      → IsSound n s.ring.head
          (used n s.ring)
          (tail_at n s.ring)
          s.ring.content
          (storing input t k x)
      → OthersApart n s i (storing input t k x)
      → Inv n rb₀ (
          after s i
            (record s.ring {
              content = update s.ring.content (copy_index n t k x) (get_or input x 0);
            })
            (storing input t k (x + 1))
            [])
  put-Inv input t k x below w others =
      let b = w.0 in
      let at : ℕ = copy_index n t k x in
      let rb' : Ring = record s.ring { content = update s.ring.content at (get_or input x 0) } in
      let index : at ≡ wrap n (t + x) =
        copy_index-wrap n t k x size b.t_in (omega (arith, b.high, (tail_in n rb₀ s size inv i)))
          below in
      let kept : (a : ℕ) → a ≢ wrap n (t + x) → rb'.content a ≡ s.ring.content a =
        λ a ne. update_ne s.ring.content at (get_or input x 0) a (λ e. ne (e ∙ index)) in
      moved n rb₀ s size inv i rb' (storing input t k (x + 1)) [] refl
        (record {
          head_in = inv.valid.head_in;
          tail_in = inv.valid.tail_in;
          old_tail_in = inv.valid.old_tail_in;
        })
        inv.behind (omega arith) (λ j ne p. (other_extent n rb₀ s size inv i j p).low)
        (λ j ne y lt. kept (wrap n ((extent (s.writer j)).0 + y)) (
          apart-ne n s.ring.head (used n s.ring) (tail_at n s.ring) t k (extent (s.writer j)).0
            (extent (s.writer j)).1 x y inv.valid.head_in (tail_in n rb₀ s size inv i) b
            (other_extent n rb₀ s size inv i j (omega arith)) (others j ne) below lt))
        (
          b,
          w.1,
          omega arith,
          λ j lt. elim (le_cases x j) [
            | inl last ↦
                let same : j ≡ x = omega arith in
                ap rb'.content (ap (λ z. wrap n (t + z)) same ∙ sym index)
                ∙ update_self s.ring.content at (get_or input x 0)
                ∙ ap (λ z. get_or input z 0) (sym same)
            | inr early ↦
                kept (wrap n (t + j)) (
                  other_byte n t k x j b.t_in (omega (arith, b.high, (tail_in n rb₀ s size inv i)))
                    below early)
                ∙ w.3 j early
          ],
        )
        others
        (generate_ext _ _ (used n s.ring) (λ j lt. kept (wrap n (s.ring.head + j)) (
            reserved-ne n s.ring.head t k x j inv.valid.head_in b.t_in
              (omega (arith, b.high, (tail_in n rb₀ s size inv i))) below (omega (arith, b.low))))
          ∙ sym (append-nil (contents n s.ring)))

  -- The bytes become readable.
  publish-Inv :
      (input : List ℕ) (t k : ℕ)
      → s.ring.old_tail ≡ t
      → IsSound n s.ring.head (used n s.ring) (tail_at n s.ring) s.ring.content (waiting input t k)
      → OthersApart n s i (waiting input t k)
      → Inv n rb₀
          (after s i (record s.ring { old_tail = u32 (t + k) % n }) WriterPc.resting (take k input))
  publish-Inv input t k same w others =
      let b = w.0 in
      let to : u32 (t + k) % n ≡ wrap n (t + k) =
        next_index n t k size b.t_in (omega (arith, b.high, (tail_in n rb₀ s size inv i))) in
      let first : used n s.ring ≡ span n s.ring.head t = ap (span n s.ring.head) same in
      let alone : Ring = record s.ring { tail = wrap n (t + k) } in
      let in_data : wrap n (t + k) < n =
        wrap-lt n (t + k) (omega (arith, b.t_in, b.high, (tail_in n rb₀ s size inv i))) in
      let valid : IsValid n alone = record {
        head_in = inv.valid.head_in;
        tail_in = in_data;
        old_tail_in = inv.valid.old_tail_in;
      } in
      let r : IsReserved n alone input t k = record {
        at_old = same;
        moved = refl;
        some_bytes = b.some_bytes;
        given = w.1;
        apart = omega (arith, b.high, (tail_in n rb₀ s size inv i));
      } in
      let rb' : Ring = record s.ring { old_tail = u32 (t + k) % n } in
      let grown : used n rb' ≡ used n s.ring + k = used-ended n alone size valid input t k r in
      moved n rb₀ s size inv i rb' WriterPc.resting (take k input) refl
        (record {
          head_in = inv.valid.head_in;
          tail_in = inv.valid.tail_in;
          old_tail_in = rw to in_data;
        })
        (omega (arith, grown, first, b.high)) (omega arith)
        (λ j ne p. elim (others j ne b.some_bytes p) [
          | inl before ↦ omega (arith, grown, first)
          | inr after_it ↦ absurd (omega (arith, first, (other_extent n rb₀ s size inv i j p).low))
        ])
        (λ j ne x lt. refl) tt (none_reserved n rb₀ s size inv i WriterPc.resting refl)
        (contents-ended n alone size valid input t k r w.2)

  pub Write-Inv :
      {pc pc' : WriterPc} {rb' : Ring} {bytes : List ℕ}
      → Write n s.ring pc rb' pc' bytes
      → IsSound n s.ring.head (used n s.ring) (tail_at n s.ring) s.ring.content pc
      → OthersApart n s i pc
      → Inv n rb₀ (after s i rb' pc' bytes)
  Write-Inv (call {input} {len} int long) w a =
      looked n rb₀ s size inv i (started input len) (int, long)
        (none_reserved n rb₀ s size inv i (started input len) refl)
  Write-Inv (load_head {input} {len}) w a =
      looked n rb₀ s size inv i (saw_head input len s.ring.head) (w, refl)
        (none_reserved n rb₀ s size inv i (saw_head input len s.ring.head) refl)
  Write-Inv (load_tail {input} {len} {h}) w a =
      looked n rb₀ s size inv i (saw_tail input len h s.ring.tail) (w.0, w.1, inv.valid.tail_in)
        (none_reserved n rb₀ s size inv i (saw_tail input len h s.ring.tail) refl)
  Write-Inv (full empty) w a =
      looked n rb₀ s size inv i WriterPc.resting tt
        (none_reserved n rb₀ s size inv i WriterPc.resting refl)
  Write-Inv (has_room {input} {len} {h} {t} some_room) w a =
      let h_in : h < n = omega (arith, w.1, inv.valid.head_in) in
      let size_eq = clip-write_size n h t len size h_in w.2 w.0.0 in
      let at : span n h t ≡ span n s.ring.head t = ap (λ z. span n z t) w.1 in
      let k : ℕ = clip (write_size n h t) len in
      looked n rb₀ s size inv i (swapping input t k)
        (
          w.2,
          omega (arith, some_room),
          omega (arith, size_eq, w.0.1),
          omega (arith, size_eq, at, some_room),
        )
        (none_reserved n rb₀ s size inv i (swapping input t k) refl)
  Write-Inv (take_tail {input} {t} {k} same) w a = reserved-Inv input t k same w
  Write-Inv (lose_tail {input} {t} {k} lost) w a =
      looked n rb₀ s size inv i (started input k) (omega (arith, w.3, size.small), w.2)
        (none_reserved n rb₀ s size inv i (started input k) refl)
  Write-Inv (put {input} {t} {k} {i = x} below) w a = put-Inv input t k x below w a
  Write-Inv (stored {input} {t} {k}) w a =
      looked n rb₀ s size inv i (waiting input t k) (w.0, w.1, w.3) a
  Write-Inv (wait {input} {t} {k} other) w a = looked n rb₀ s size inv i (waiting input t k) w a
  Write-Inv (publish {input} {t} {k} mine) w a = publish-Inv input t k mine w a
