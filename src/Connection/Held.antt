-- ===== src/Connection/Held.antt =====
-- read and write of shm/Connection.cpp on rings by the bytes that they hold.
use mathlib.Core.Path.{subst}
use make_the_american_great.Prelude.{
  ℕ, suc, ◌-◌, ◌^◌, ◌≤◌, ◌<◌, ◌≡◌, refl, ap, ◌∙◌, sym, List, ◌++◌, length, min, take, drop, update,
  update_self, arith,
}
use make_the_american_great.Run.{done}
use make_the_american_great.Ring.{Ring, rb_read, rb_write}
use make_the_american_great.Ring.Inv.{IsSize, IsQuiet, used, contents, length-contents, span-lt}
use make_the_american_great.Ring.Read.{
  after_read, rb_read-done, after_read-IsValid, contents-after_read,
}
use make_the_american_great.Ring.Write.{room, Wrote, rb_write-Wrote}
use make_the_american_great.Index.{State, ring_key}
use make_the_american_great.Socket.{write_ring, read_ring}
use make_the_american_great.Socket.Transfer.{handle}
use make_the_american_great.Connection.{Ends, read_ends, write_ends}

-- The ring of the index k is quiet and holds xs.
pub record Holds (n : ℕ) (w : State) (k : ℕ) (xs : List ℕ) : Type 0 where
  pub quiet : IsQuiet n (w.rings (ring_key k))
  pub bytes : contents n (w.rings (ring_key k)) ≡ xs

used-length :
    (n : ℕ) (w : State) (k : ℕ) (xs : List ℕ)
    → Holds n w k xs
    → used n (w.rings (ring_key k)) ≡ length xs
used-length n w k xs h = sym (length-contents n (w.rings (ring_key k))) ∙ ap length h.bytes

module _ (stat junk : ℕ → ℕ) (fuel n : ℕ) (size : IsSize n) (c : Ends) (k : ℕ) where
  -- A write of m bytes, as many as there is room for.
  pub write_ends-Holds :
      (w : State) (xs : List ℕ) (len m : ℕ) (input : List ℕ)
      → c.write_rb ≡ handle k
      → Holds n w k xs
      → len < 2 ^ 31
      → len ≤ length input
      → min len (n - 1 - length xs) ≡ m
      → (w' : State) × (write_ends stat junk (suc fuel) n c len input w ≡ done (m, w'))
        × Holds n w' k (xs ++ take m input)
  unfolding write_ends write_ring
  write_ends-Holds w xs len m input mine h int long count =
      let ring : Ring = w.rings (ring_key k) in
      let all : min len (room n ring) ≡ m =
        ap (λ u. min len (n - 1 - u)) (used-length n w k xs h) ∙ count in
      let out : Wrote n ring input m (rb_write n (suc fuel) ring len input) =
        subst (λ z. Wrote n ring input z (rb_write n (suc fuel) ring len input)) all
          (rb_write-Wrote n fuel ring len input size h.quiet int long) in
      let w' : State = record w { rings = update w.rings (ring_key k) out.rb' } in
      let held : w'.rings (ring_key k) ≡ out.rb' = update_self w.rings (ring_key k) out.rb' in
      (
        w',
        rw (mine, out.returns) refl,
        record {
          quiet = subst (IsQuiet n) (sym held) out.quiet;
          bytes = ap (contents n) held ∙ out.appended ∙ ap (λ ys. ys ++ take m input) h.bytes;
        },
      )

  -- A read of m bytes, as many as there are.
  pub read_ends-Holds :
      (w : State) (xs : List ℕ) (len m : ℕ)
      → c.read_rb ≡ handle k
      → Holds n w k xs
      → len < 2 ^ 31
      → min len (length xs) ≡ m
      → (w' : State) × (read_ends stat junk (suc fuel) n c len w ≡ done ((m, take m xs), w'))
        × Holds n w' k (drop m xs)
  unfolding read_ends read_ring
  read_ends-Holds w xs len m mine h int count =
      let ring : Ring = w.rings (ring_key k) in
      let total : used n ring ≡ length xs = used-length n w k xs h in
      let all : min len (used n ring) ≡ m = ap (min len) total ∙ count in
      let below : used n ring < n =
        span-lt n ring.head ring.old_tail h.quiet.valid.head_in h.quiet.valid.old_tail_in in
      let got : rb_read n (suc fuel) ring len ≡ done (m, take m xs, after_read n ring m) =
        rb_read-done n fuel ring len size h.quiet.valid int
        ∙ ap (λ z. done (z, take z (contents n ring), after_read n ring z)) all
        ∙ ap (λ ys. done (m, take m ys, after_read n ring m)) h.bytes in
      let rb' : Ring = after_read n ring m in
      let w' : State = record w { rings = update w.rings (ring_key k) rb' } in
      let held : w'.rings (ring_key k) ≡ rb' = update_self w.rings (ring_key k) rb' in
      let some_there : m ≤ used n ring = omega (arith, all) in
      (
        w',
        rw (mine, got) refl,
        record {
          quiet = subst (IsQuiet n) (sym held) (record {
            valid = after_read-IsValid n ring m h.quiet.valid (omega arith);
            published = h.quiet.published;
          });
          bytes =
              ap (contents n) held
              ∙ contents-after_read n ring m h.quiet.valid some_there
              ∙ ap (drop m) h.bytes;
        },
      )
