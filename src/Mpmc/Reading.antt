-- ===== src/Mpmc/Reading.antt =====
-- The steps of one of many readers.
use mathlib.Core.Path.{subst}
use make_the_american_great.Prelude.{
  ℕ, ◌+◌, ◌-◌, ◌%◌, ◌<◌, ◌≡◌, refl, ◌∙◌, ap, sym, List, [], ◌∷◌, ◌++◌, length, get_or, u32, arith,
  inl, inr, le_cases, length-append, get_or-append_left, get_or-append_right,
}
use make_the_american_great.Ring.{Ring}
use make_the_american_great.Ring.Inv.{wrap, span}
use make_the_american_great.Ring.Read.{next_index}
use make_the_american_great.Spsc.{
  ReaderPc, copy_index, Read, loading, call, load_head, load_tail, empty, has_bytes, get, take_head,
  lose_head,
}
use make_the_american_great.Spsc.Inv.{copy_index-wrap}
use make_the_american_great.Spsc.Reading.{clip-read_size}
use make_the_american_great.Mpmc.{System, Process, read_on, ReaderInTime}
use make_the_american_great.Mpmc.Position.{
  position, position-lt, position-add, span-position, position-inj,
}
use make_the_american_great.Mpmc.Inv.{Inv, ReaderInv}
use make_the_american_great.Mpmc.Moved.{after_read, reader_moved}

-- One more byte is copied.
one_more :
    (got : List ℕ) (x : ℕ) (f : ℕ → ℕ)
    → x ≡ f (length got)
    → ((j : ℕ) → j < length got → get_or got j 0 ≡ f j)
    → (j : ℕ) → j < length (got ++ (x ∷ []))
    → get_or (got ++ (x ∷ [])) j 0 ≡ f j
one_more got x f last before j b =
    let long : length (got ++ (x ∷ [])) ≡ length got + 1 = length-append got (x ∷ []) in
    elim (le_cases (length got) j) [
      | inl at_end ↦
          let same : j ≡ length got = omega (arith, long) in
          get_or-append_right got (x ∷ []) j 0 at_end
          ∙ ap (λ z. get_or (x ∷ []) z 0) (none_left j (length got) same)
          ∙ last
          ∙ ap f (sym same)
      | inr early ↦ get_or-append_left got (x ∷ []) j 0 early ∙ before j early
    ]
  where
    none_left : (a b : ℕ) → a ≡ b → a - b ≡ 0
    none_left a b e = omega arith

module _ (n : ℕ) (s : System) (inv : Inv n s) (i : ℕ) where
  -- A step that leaves the ring as it is.
  looked :
      (r : Process ReaderPc)
      → ReaderInv n (length s.received) s.sent r r.pc
      → Inv n (after_read s i s.ring r [])
  looked r mine =
      reader_moved n s inv i s.ring r [] (length s.received) (omega arith) refl refl refl inv.head
        inv.behind (λ j b. absurd (omega arith)) mine

  got-Inv :
      (r : Process ReaderPc) (h k : ℕ) (got : List ℕ) (x : ℕ)
      → r.pc ≡ loading h k (got ++ (x ∷ []))
      → x ≡ s.ring.content (copy_index n h k (length got))
      → length got < k
      → ReaderInv n (length s.received) s.sent r (loading h k got)
      → Inv n (after_read s i s.ring r [])
  got-Inv r h k got x at loaded below v =
      let a : ℕ = r.head_seen in
      let long : length (got ++ (x ∷ [])) ≡ length got + 1 = length-append got (x ∷ []) in
      let place : copy_index n h k (length got) ≡ position n (a + length got) =
        copy_index-wrap n h k (length got) inv.size
          (subst (λ z. z < n) (sym v.0) (position-lt n a inv.size.positive)) v.4 below
        ∙ ap (λ z. wrap n (z + length got)) v.0
        ∙ sym (position-add n a (length got) (omega (arith, v.4))) in
      looked r (
        subst (ReaderInv n (length s.received) s.sent r) (sym at) (
          v.0,
          v.1,
          v.2,
          v.3,
          v.4,
          omega (arith, long),
          λ e.
              one_more got x (λ j. get_or s.sent (a + j) 0)
                (loaded
                  ∙ ap s.ring.content place
                  ∙ inv.held (a + length got) (omega (arith, e)) (omega (arith, v.2)))
                (v.6 e),
        ))

  taken-Inv :
      (r : Process ReaderPc) (h k : ℕ) (got : List ℕ)
      → r.pc ≡ ReaderPc.resting
      → length got ≡ k
      → s.ring.head ≡ h
      → length s.received < r.head_seen + n
      → ReaderInv n (length s.received) s.sent r (loading h k got)
      → Inv n (after_read s i (record s.ring { head = u32 (h + k) % n }) r got)
  taken-Inv r h k got at long same in_time v =
      let o : ℕ = length s.received in
      let seen : r.head_seen ≡ o =
        position-inj n r.head_seen o v.1 in_time (sym v.0 ∙ sym same ∙ inv.head) in
      let to : u32 (h + k) % n ≡ position n (o + k) =
        next_index n h k inv.size
          (subst (λ z. z < n) (sym v.0) (position-lt n r.head_seen inv.size.positive)) v.4
        ∙ ap (λ z. wrap n (z + k)) (v.0 ∙ ap (position n) seen)
        ∙ sym (position-add n o k v.4) in
      reader_moved n s inv i (record s.ring { head = u32 (h + k) % n }) r got (o + k)
        (omega (arith, long)) refl refl refl to (omega (arith, v.2, seen))
        (λ j b. v.6 (sym seen) j b ∙ ap (λ z. get_or s.sent (z + j) 0) seen)
        (subst (ReaderInv n (o + k) s.sent r) (sym at) tt)

  pub Read-Inv :
      (r : Process ReaderPc) {pc pc' : ReaderPc} {rb' : Ring} {bytes : List ℕ}
      → ReaderInTime n s r pc
      → Read n s.ring pc rb' pc' bytes
      → ReaderInv n (length s.received) s.sent r pc
      → Inv n (after_read s i rb' (read_on s r pc') bytes)
  Read-Inv r {pc} {pc'} in_time (call int) v = looked (read_on s r pc') int
  Read-Inv r {pc} {pc'} in_time load_head v = looked (read_on s r pc') (v, inv.head, omega arith)
  Read-Inv r {pc} {pc'} in_time load_tail v =
      looked (read_on s r pc')
        (v.0, v.1, v.2, inv.old_tail, omega arith, omega (arith, v.2, inv.behind), in_time)
  Read-Inv r {pc} {pc'} in_time (empty e) v = looked (read_on s r pc') tt
  Read-Inv r {pc} {pc'} in_time (has_bytes {len} {h} {o} e) v =
      let h_in : h < n =
        subst (λ z. z < n) (sym v.1) (position-lt n r.head_seen inv.size.positive) in
      let o_in : o < n =
        subst (λ z. z < n) (sym v.3) (position-lt n r.tail_seen inv.size.positive) in
      let fits = clip-read_size n h o len inv.size h_in o_in v.0 in
      let gap : span n h o ≡ r.tail_seen - r.head_seen =
        ap (span n h) v.3
        ∙ ap (λ z. span n z (position n r.tail_seen)) v.1
        ∙ span-position n r.head_seen r.tail_seen v.5 v.6 in
      looked (read_on s r pc') (
        v.1,
        v.2,
        omega (arith, fits, gap, v.4, v.5),
        omega (arith, e),
        omega (arith, fits, gap, v.5, v.6),
        omega arith,
        λ z j b. absurd (omega arith),
      )
  Read-Inv r {pc} {pc'} in_time (get {h} {k} {got} below) v =
      got-Inv (read_on s r pc') h k got (s.ring.content (copy_index n h k (length got))) refl refl
        below v
  Read-Inv r {pc} {pc'} in_time (take_head {h} {k} {got} long same) v =
      taken-Inv (read_on s r pc') h k got refl long same (in_time long) v
  Read-Inv r {pc} {pc'} in_time (lose_head long lost) v =
      looked (read_on s r pc') (omega (arith, v.4, inv.size.small))
