-- ===== src/Mpmc/Writing.antt =====
-- The steps of one of many writers.
use mathlib.Core.Path.{subst}
use make_the_american_great.Prelude.{
  ℕ, ◌+◌, ◌-◌, ◌%◌, ◌<◌, ◌≤◌, ◌≡◌, ◌≢◌, refl, ◌∙◌, ap, sym, List, [], length, get_or, take, u32,
  arith, ◌⊎◌, inl, inr, update, update_self, update_ne, le_cases, generate-get_or, get_or-generate,
  length-generate, generate,
}
use make_the_american_great.Ring.{Ring}
use make_the_american_great.Ring.Inv.{wrap, span}
use make_the_american_great.Ring.Read.{next_index}
use make_the_american_great.Spsc.{
  WriterPc, copy_index, Write, swapping, storing, waiting, call, load_head, load_tail, full,
  has_room, take_tail, lose_tail, put, stored, wait, publish,
}
use make_the_american_great.Spsc.Inv.{copy_index-wrap}
use make_the_american_great.Spsc.Reserved.{clip-write_size}
use make_the_american_great.Mpmc.{System, Process, wrote, gained, WriterInTime}
use make_the_american_great.Mpmc.Position.{
  position, position-lt, position-add, span-position, position-inj, position-ne,
}
use make_the_american_great.Mpmc.Inv.{
  Inv, WriterInv, extent, IsReserved, extent-IsReserved, apart-ne,
}
use make_the_american_great.Mpmc.Moved.{after_write, OthersApart, writer_moved}

module _ (n : ℕ) (s : System) (inv : Inv n s) (i : ℕ) where
  other_extent :
      (j : ℕ)
      → 0 < extent (s.writer j).pc
      → IsReserved (length s.sent) s.reserved (s.writer j).tail_seen (extent (s.writer j).pc)
  other_extent j b =
      extent-IsReserved n (length s.received) (length s.sent) s.reserved s.ring.content (s.writer j)
        (s.writer j).pc (inv.writers j) b

  -- A step that leaves the ring as it is.
  looked :
      (w : Process WriterPc) (q : ℕ)
      → q ≡ s.reserved
      → WriterInv n (length s.received) (length s.sent) s.reserved s.ring.content w w.pc
      → OthersApart n s inv i w
      → Inv n (after_write s i s.ring w [] q)
  looked w q e mine others =
      subst (λ z. Inv n (after_write s i s.ring w [] z)) (sym e)
        (writer_moved n s inv i s.ring w [] (length s.sent) s.reserved (omega arith) refl
          inv.old_tail inv.tail (omega arith) inv.within inv.room (λ x b c. refl)
          (λ j b. absurd (omega arith)) (λ j ne b. (other_extent j b).low) (λ j ne x b. refl) mine
          others)

  reserved-Inv :
      (w : Process WriterPc) (input : List ℕ) (t k : ℕ)
      → w.pc ≡ storing input t k 0
      → s.ring.tail ≡ t
      → s.reserved < w.tail_seen + n
      → WriterInv n
          (length s.received)
          (length s.sent)
          s.reserved
          s.ring.content
          w
          (swapping input t k)
      → Inv n (after_write s i (record s.ring { tail = u32 (t + k) % n }) w [] (s.reserved + k))
  reserved-Inv w input t k at same in_time x =
      let seen : w.tail_seen ≡ s.reserved =
        position-inj n w.tail_seen s.reserved x.2 in_time (sym x.1 ∙ sym same ∙ inv.tail) in
      let small : k < n = omega (arith, x.5, x.6) in
      let to : u32 (t + k) % n ≡ position n (s.reserved + k) =
        next_index n t k inv.size
          (subst (λ z. z < n) (sym x.1) (position-lt n w.tail_seen inv.size.positive)) small
        ∙ ap (λ z. wrap n (z + k)) (x.1 ∙ ap (position n) seen)
        ∙ sym (position-add n s.reserved k small) in
      writer_moved n s inv i (record s.ring { tail = u32 (t + k) % n }) w [] (length s.sent)
        (s.reserved + k) (omega arith) refl inv.old_tail to (omega arith)
        (omega (arith, inv.within)) (omega (arith, x.0, x.5, seen)) (λ y b c. refl)
        (λ j b. absurd (omega arith)) (λ j ne b. (other_extent j b).low) (λ j ne y b. refl)
        (subst (WriterInv n (length s.received) (length s.sent) (s.reserved + k) s.ring.content w)
          (sym at)
          (
            record {
              low = omega (arith, seen, inv.within);
              high = omega (arith, seen);
              some_bytes = x.3;
            },
            x.1,
            x.4,
            omega arith,
            λ j b. absurd (omega arith),
          ))
        (λ j ne b c. inr (omega (arith, (other_extent j c).high, seen)))

  put-Inv :
      (w : Process WriterPc) (input : List ℕ) (t k x q : ℕ)
      → w.pc ≡ storing input t k (x + 1)
      → x < k
      → q ≡ s.reserved
      → WriterInv n
          (length s.received)
          (length s.sent)
          s.reserved
          s.ring.content
          w
          (storing input t k x)
      → OthersApart n s inv i w
      → Inv n (
          after_write s i
            (record s.ring {
              content = update s.ring.content (copy_index n t k x) (get_or input x 0);
            })
            w
            []
            q)
  put-Inv w input t k x q at below e v others =
      let r = v.0 in
      let a : ℕ = w.tail_seen in
      let small : k < n = omega (arith, r.low, r.high, inv.room, inv.behind) in
      let all : extent w.pc ≡ k = ap extent at in
      let here : ℕ = copy_index n t k x in
      let rb' : Ring = record s.ring { content = update s.ring.content here (get_or input x 0) } in
      let index : here ≡ position n (a + x) =
        copy_index-wrap n t k x inv.size
          (subst (λ z. z < n) (sym v.1) (position-lt n a inv.size.positive)) small below
        ∙ ap (λ z. wrap n (z + x)) v.1
        ∙ sym (position-add n a x (omega arith)) in
      let kept : (y : ℕ) → y ≢ position n (a + x) → rb'.content y ≡ s.ring.content y =
        λ y ne. update_ne s.ring.content here (get_or input x 0) y (λ z. ne (z ∙ index)) in
      subst (λ z. Inv n (after_write s i rb' w [] z)) (sym e)
        (writer_moved n s inv i rb' w [] (length s.sent) s.reserved (omega arith) refl inv.old_tail
          inv.tail (omega arith) inv.within inv.room
          (λ y b c. kept (position n y) (
            position-ne n y (a + x) (λ z. omega (arith, r.low)) (omega (arith, r.low, inv.behind))
              (omega (arith, r.high, inv.room))))
          (λ j b. absurd (omega arith)) (λ j ne b. (other_extent j b).low)
          (λ j ne y b. kept (position n ((s.writer j).tail_seen + y)) (
            apart-ne n (length s.received) (length s.sent) s.reserved a k (s.writer j).tail_seen
              (extent (s.writer j).pc) x y inv.behind inv.room r (other_extent j (omega arith))
              (subst
                (λ c.
                  (a + c ≤ (s.writer j).tail_seen)
                  ⊎ ((s.writer j).tail_seen + extent (s.writer j).pc ≤ a))
                all (others j ne (omega (arith, all, r.some_bytes)) (omega arith)))
              below b))
          (subst (WriterInv n (length s.received) (length s.sent) s.reserved rb'.content w) (sym at)
            (
              r,
              v.1,
              v.2,
              omega arith,
              λ j b. elim (le_cases x j) [
                | inl last ↦
                    let same : j ≡ x = omega arith in
                    ap rb'.content (ap (λ z. position n (a + z)) same ∙ sym index)
                    ∙ update_self s.ring.content here (get_or input x 0)
                    ∙ ap (λ z. get_or input z 0) (sym same)
                | inr early ↦
                    kept (position n (a + j))
                      (position-ne n (a + j) (a + x) (λ z. omega arith) (omega arith) (omega arith))
                    ∙ v.4 j early
              ],
            ))
          others)

  publish-Inv :
      (w w' : Process WriterPc) (input : List ℕ) (t k q : ℕ)
      → w.pc ≡ waiting input t k
      → w'.pc ≡ WriterPc.resting
      → s.ring.old_tail ≡ t
      → q ≡ s.reserved
      → WriterInv n
          (length s.received)
          (length s.sent)
          s.reserved
          s.ring.content
          w
          (waiting input t k)
      → OthersApart n s inv i w
      → Inv n (after_write s i (record s.ring { old_tail = u32 (t + k) % n }) w' (take k input) q)
  publish-Inv w w' input t k q at at' same e v others =
      let r = v.0 in
      let a : ℕ = w.tail_seen in
      let p : ℕ = length s.sent in
      let small : k < n = omega (arith, r.low, r.high, inv.room, inv.behind) in
      let all : extent w.pc ≡ k = ap extent at in
      let first : p ≡ a =
        position-inj n p a r.low (omega (arith, r.high, inv.room, inv.behind))
          (sym inv.old_tail ∙ same ∙ v.1) in
      let to : u32 (t + k) % n ≡ position n (p + k) =
        next_index n t k inv.size (subst (λ z. z < n) (sym v.1) (position-lt n a inv.size.positive))
          small
        ∙ ap (λ z. wrap n (z + k)) (v.1 ∙ ap (position n) (sym first))
        ∙ sym (position-add n p k small) in
      let bytes : generate (λ j. get_or input j 0) k ≡ take k input =
        generate-get_or input 0 k v.2 in
      let long : length (take k input) ≡ k =
        ap length (sym bytes) ∙ length-generate (λ j. get_or input j 0) k in
      subst
        (λ z.
          Inv n
            (after_write s i (record s.ring { old_tail = u32 (t + k) % n }) w' (take k input) z))
        (sym e)
        (writer_moved n s inv i (record s.ring { old_tail = u32 (t + k) % n }) w' (take k input)
          (p + k) s.reserved (omega (arith, long)) refl to inv.tail (omega arith)
          (omega (arith, first, r.high)) inv.room (λ y b c. refl)
          (λ j b.
            ap (λ z. s.ring.content (position n (z + j))) first
            ∙ v.3 j (omega (arith, long))
            ∙ sym (get_or-generate (λ z. get_or input z 0) k j 0 (omega (arith, long)))
            ∙ ap (λ xs. get_or xs j 0) bytes)
          (λ j ne b. elim (others j ne (omega (arith, all, r.some_bytes)) b) [
            | inl before ↦ omega (arith, all, first)
            | inr later ↦ absurd (omega (arith, (other_extent j b).low, first))
          ])
          (λ j ne y b. refl)
          (subst (WriterInv n (length s.received) (p + k) s.reserved s.ring.content w') (sym at')
            tt)
          (λ j ne b c. absurd (omega (arith, ap extent at'))))

  none_reserved : (w : Process WriterPc) → extent w.pc ≡ 0 → OthersApart n s inv i w
  none_reserved w e j ne b c = absurd (omega (arith, e))

  pub Write-Inv :
      (w : Process WriterPc) {pc pc' : WriterPc} {rb' : Ring} {bytes : List ℕ}
      → WriterInTime n s w pc
      → Write n s.ring pc rb' pc' bytes
      → WriterInv n (length s.received) (length s.sent) s.reserved s.ring.content w pc
      → OthersApart n s inv i (record w { pc = pc })
      → Inv n (after_write s i rb' (wrote s w pc') bytes (s.reserved + gained pc pc'))
  Write-Inv w {pc} {pc'} in_time (call int long) v a =
      looked (wrote s w pc') (s.reserved + 0) (omega arith) (int, long)
        (none_reserved (wrote s w pc') refl)
  Write-Inv w {pc} {pc'} in_time load_head v a =
      looked (wrote s w pc') (s.reserved + 0) (omega arith) (v, inv.head, omega arith)
        (none_reserved (wrote s w pc') refl)
  Write-Inv w {pc} {pc'} in_time load_tail v a =
      looked (wrote s w pc') (s.reserved + 0) (omega arith)
        (v.0, v.1, v.2, inv.tail, omega arith, omega (arith, v.2, inv.behind, inv.within), in_time)
        (none_reserved (wrote s w pc') refl)
  Write-Inv w {pc} {pc'} in_time (full e) v a =
      looked (wrote s w pc') (s.reserved + 0) (omega arith) tt (none_reserved (wrote s w pc') refl)
  Write-Inv w {pc} {pc'} in_time (has_room {input} {len} {h} {t} e) v a =
      let h_in : h < n =
        subst (λ z. z < n) (sym v.1) (position-lt n w.head_seen inv.size.positive) in
      let t_in : t < n =
        subst (λ z. z < n) (sym v.3) (position-lt n w.tail_seen inv.size.positive) in
      let fits = clip-write_size n h t len inv.size h_in t_in v.0.0 in
      let gap : span n h t ≡ w.tail_seen - w.head_seen =
        ap (span n h) v.3
        ∙ ap (λ z. span n z (position n w.tail_seen)) v.1
        ∙ span-position n w.head_seen w.tail_seen v.5 v.6 in
      looked (wrote s w pc') (s.reserved + 0) (omega arith)
        (
          v.2,
          v.3,
          v.4,
          omega (arith, e),
          omega (arith, fits, v.0.1),
          omega (arith, fits, gap, v.5, v.6, e),
          v.5,
        )
        (none_reserved (wrote s w pc') refl)
  Write-Inv w {pc} {pc'} in_time (take_tail {input} {t} {k} same) v a =
      reserved-Inv (wrote s w pc') input t k refl same in_time v
  Write-Inv w {pc} {pc'} in_time (lose_tail {input} {t} {k} lost) v a =
      looked (wrote s w pc') (s.reserved + 0) (omega arith)
        (omega (arith, v.5, v.6, inv.size.small), v.4) (none_reserved (wrote s w pc') refl)
  Write-Inv w {pc} {pc'} in_time (put {input} {t} {k} {i = x} below) v a =
      put-Inv (wrote s w pc') input t k x (s.reserved + 0) refl below (omega arith) v a
  Write-Inv w {pc} {pc'} in_time (stored {input} {t} {k}) v a =
      looked (wrote s w pc') (s.reserved + 0) (omega arith) (v.0, v.1, v.2, v.4) a
  Write-Inv w {pc} {pc'} in_time (wait other) v a =
      looked (wrote s w pc') (s.reserved + 0) (omega arith) v a
  Write-Inv w {pc} {pc'} in_time (publish {input} {t} {k} same) v a =
      publish-Inv (record w { pc = pc }) (wrote s w pc') input t k (s.reserved + 0) refl refl same
        (omega arith) v a
