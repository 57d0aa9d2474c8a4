-- ===== src/Circular/Write.antt =====
-- write of the byte-by-byte buffer against rb_write.
use mathlib.Core.Path.{ap₂, subst}
use make_the_american_great.Prelude.{
  ℕ, zero, suc, ◌+◌, ◌-◌, ◌^◌, ◌≤◌, ◌<◌, ◌≡◌, ◌≢◌, refl, ap, ◌∙◌, List, ◌++◌, length, get_or, min,
  arith, Mem, update, update_self, update_ne, u32, u64, int_to_size-eq, take, ne→==-false, lt→ltb,
}
use make_the_american_great.Run.{Run, done}
use make_the_american_great.Circular.{Buffer, write_loop, write}
use make_the_american_great.Circular.Inv.{as_ring, step-eq-wrap}
use make_the_american_great.Ring.Inv.{IsSize, IsQuiet, wrap, span, contents}
use make_the_american_great.Ring.Write.{after_write-IsQuiet, room, contents-after_write}
use make_the_american_great.Ring.Copy.{Stored}

-- The memory m' is m with the k bytes of `input` from index w on written from index e on.
record StoredFrom (n : ℕ) (m : Mem) (e : ℕ) (input : List ℕ) (w k : ℕ) (m' : Mem) : Type 0 where
  new : (i : ℕ) → i < k → m' (wrap n (e + i)) ≡ get_or input (w + i) 0
  kept : (i : ℕ) → k ≤ i → i < n → m' (wrap n (e + i)) ≡ m (wrap n (e + i))

-- One byte written, then k more.
StoredFrom-suc :
    (n : ℕ) (m : Mem) (e : ℕ) (input : List ℕ) (w k : ℕ) (m' : Mem)
    → e < n
    → k < n - 1
    → StoredFrom n (update m e (get_or input w 0)) (wrap n (e + 1)) input (w + 1) k m'
    → StoredFrom n m e input w (suc k) m'
StoredFrom-suc n m e input w k m' h b st = record { new = new; kept = kept }
  where
    v : ℕ
    v = get_or input w 0

    first : m' e ≡ v
    first =
        let back : wrap n (wrap n (e + 1) + (n - 1)) ≡ e = ground arith in
        subst (λ i. m' i ≡ update m e v i) back (st.kept (n - 1) (omega arith) (omega arith))
        ∙ update_self m e v

    new : (i : ℕ) → i < suc k → m' (wrap n (e + i)) ≡ get_or input (w + i) 0
    new zero p = ap m' (ground arith) ∙ first ∙ ap (λ j. get_or input j 0) (omega arith)
    new (suc i) p =
        ap m' (ground arith) ∙ st.new i (omega arith) ∙ ap (λ j. get_or input j 0) (omega arith)

    kept : (i : ℕ) → suc k ≤ i → i < n → m' (wrap n (e + i)) ≡ m (wrap n (e + i))
    kept zero p q = absurd (omega arith)
    kept (suc i) p q =
        let at : wrap n (wrap n (e + 1) + i) ≡ wrap n (e + suc i) = ground arith in
        let ne : wrap n (e + suc i) ≢ e = ground arith in
        subst (λ j. m' j ≡ update m e v j) at (st.kept i (omega arith) (omega arith))
        ∙ update_ne m e v (wrap n (e + suc i)) ne

record Looped (n : ℕ) (m : Mem) (e : ℕ) (input : List ℕ) (w k : ℕ) (r : Run (ℕ × Mem × ℕ))
    : Type 0 where
  m' : Mem
  returns : r ≡ done (wrap n (e + k), m', w + k)
  stored : StoredFrom n m e input w k m'

write_loop-Looped :
    (k fuel : ℕ) (input : List ℕ) (b n len : ℕ) (m : Mem) (e w : ℕ)
    → IsSize n
    → b < n
    → e < n
    → w ≤ len
    → len ≤ length input
    → len < 2 ^ 31
    → k ≡ min (len - w) (n - 1 - span n b e)
    → k < fuel
    → Looped n m e input w k (write_loop fuel input b n len m e w)
unfolding write_loop
write_loop-Looped k zero input b n len m e w s hb he hw hi hl ek f = absurd (omega arith)
write_loop-Looped zero (suc fuel) input b n len m e w s hb he hw hi hl ek f = record {
  m' = m;
  returns = rw (step-eq-wrap n e s he) (ground arith);
  stored = record { new = λ i p. absurd (omega arith); kept = λ i p q. refl };
}
write_loop-Looped (suc k) (suc fuel) input b n len m e w s hb he hw hi hl ek f =
    let e' : ℕ = wrap n (e + 1) in
    let room : e' ≢ b = ground arith in
    let count : u64 (w + 1) ≡ w + 1 = omega arith in
    let m₁ : Mem = update m e (get_or input w 0) in
    let ih =
      write_loop-Looped k fuel input b n len m₁ e' (w + 1) s hb (ground arith) (omega arith) hi hl
        (ground arith) (omega arith) in
    record {
      m' = ih.m';
      returns =
          rw
            (
              step-eq-wrap n e s he,
              ne→==-false e' b room,
              ne→==-false w len (omega arith),
              lt→ltb w (length input) (omega arith),
            )
            (ap (write_loop fuel input b n len m₁ e') count
              ∙ ih.returns
              ∙ ap₂ (λ i j. done (i, ih.m', j)) (ground arith) (omega arith));
      stored = StoredFrom-suc n m e input w k ih.m' he (omega arith) ih.stored;
    }

StoredFrom-Stored :
    (n : ℕ) (m : Mem) (e : ℕ) (input : List ℕ) (k : ℕ) (m' : Mem)
    → StoredFrom n m e input 0 k m'
    → Stored n m e input k m'
StoredFrom-Stored n m e input k m' st = record {
  new = λ i p. st.new i p ∙ ap (λ j. get_or input j 0) (omega arith);
  kept = st.kept;
}

-- write of `len` bytes, given one round of fuel more than the buffer's size, does what rb_write
-- promises: it takes as many bytes as there is room for and appends exactly those.
pub write-as_ring :
    (fuel : ℕ) (c : Buffer) (len : ℕ) (input : List ℕ)
    → IsSize c.size
    → IsQuiet c.size (as_ring c)
    → len < 2 ^ 31
    → len ≤ length input
    → c.size < fuel
    → let k = min len (room c.size (as_ring c)) in
      (c' : Buffer) × (write fuel c len input ≡ done (k, c'))
      × (contents c.size (as_ring c') ≡ contents c.size (as_ring c) ++ take k input)
      × IsQuiet c.size (as_ring c')
      × (c'.size ≡ c.size)
unfolding write
write-as_ring fuel c len input s q h long f =
    let v = q.valid in
    let k : ℕ = min len (room c.size (as_ring c)) in
    let loop =
      write_loop-Looped k fuel input c.begin_idx c.size len c.bytes c.end_idx 0 s v.head_in
        v.tail_in (omega arith) long h (omega arith) (omega arith) in
    let stored = StoredFrom-Stored c.size c.bytes c.end_idx input k loop.m' loop.stored in
    let count : u32 (0 + k) ≡ k = omega (arith, s.small) in
    (
      record c { end_idx = wrap c.size (c.end_idx + k); bytes = loop.m' },
      rw (int_to_size-eq len h, loop.returns)
          (ap (λ i. done (i, record c { end_idx = wrap c.size (c.end_idx + k); bytes = loop.m' }))
            count),
      contents-after_write c.size (as_ring c) q k (omega arith) loop.m' input (omega arith) stored,
      after_write-IsQuiet c.size (as_ring c) k loop.m' v (omega (arith, s.positive)),
      refl,
    )
