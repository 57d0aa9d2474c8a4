-- ===== src/Connection/Opposite.antt =====
-- Two connections of opposite ports, as shm/Connection.cpp makes them.
use mathlib.Core.Path.{subst, ap₂}
use make_the_american_great.Prelude.{
  ℕ, suc, ◌^◌, ◌≤◌, ◌<◌, ◌≡◌, ◌≢◌, ap, ◌∙◌, sym, List, ◌++◌, length, min, take, update, update_self,
  take-length, arith, lt→ltb, ne→==-false,
}
use make_the_american_great.Run.{done}
use make_the_american_great.Ring.{Ring, rb_read, rb_write}
use make_the_american_great.Ring.Inv.{IsSize, IsQuiet, used, contents, length-contents}
use make_the_american_great.Ring.Read.{after_read, rb_read-done}
use make_the_american_great.Ring.Write.{room, Wrote, rb_write-Wrote}
use make_the_american_great.Index.{State, resume, port_number, ring_key, nattch, get_idx, rb_init}
use make_the_american_great.Index.Shared.{resume-rings, nattch-shared}
use make_the_american_great.Socket.{write_ring, read_ring}
use make_the_american_great.Socket.Transfer.{handle}
use make_the_american_great.Connection.{Ends, new_ends, read_ends, write_ends}

-- The ports have the index k, whose segment a process is attached to.
pub record IsKnown (stat : ℕ → ℕ) (w : State) (src dst k : ℕ) : Type 0 where
  pub entry : w.dst_block src dst ≡ k
  pub in_range : dst < port_number
  pub nonzero : k ≢ 0
  pub attached : nattch stat (ring_key k) ≢ 0

abbrev pub ends_of : (src dst k k' : ℕ) → Ends
ends_of src dst k k' = record { src = src; dst = dst; read_rb = handle k; write_rb = handle k' }

pub new_ends-known :
    (stat junk : ℕ → ℕ) (fuel : ℕ) (w : State) (src dst k k' : ℕ)
    → IsKnown stat w src dst k
    → IsKnown stat w dst src k'
    → new_ends stat junk fuel src dst w ≡ done (ends_of src dst k k', w)
unfolding new_ends get_idx rb_init
new_ends-known stat junk fuel w src dst k k' h h' = rw (
  lt→ltb dst port_number h.in_range,
  h.entry,
  ne→==-false k 0 h.nonzero,
  ne→==-false (nattch stat (ring_key k)) 0 h.attached,
  lt→ltb src port_number h'.in_range,
  h'.entry,
  ne→==-false k' 0 h'.nonzero,
  ne→==-false (nattch stat (ring_key k')) 0 h'.attached,
)

resume-IsKnown :
    (stat : ℕ → ℕ) (v w : State) (src dst k : ℕ)
    → 0 < src
    → IsKnown stat w src dst k
    → IsKnown stat (resume v w) src dst k
resume-IsKnown stat v w src dst k pos h = record {
  entry = rw (ne→==-false src 0 (λ z. omega (arith, pos))) h.entry;
  in_range = h.in_range;
  nonzero = h.nonzero;
  attached = h.attached;
}

-- One process connects src to dst and another dst to src, when both directions have rings that are
-- attached. Bytes that the first writes, and that the ring has room for, are all taken, and the
-- second then reads the oldest of what the ring held before, followed by them.
pub read_ends-write_ends :
    (stat junk : ℕ → ℕ) (fuel n : ℕ) (w v : State) (src dst k k' len : ℕ) (buf : List ℕ)
    → IsSize n
    → 0 < src
    → 0 < dst
    → IsKnown stat w src dst k
    → IsKnown stat w dst src k'
    → IsQuiet n (w.rings (ring_key k'))
    → length buf ≤ room n (w.rings (ring_key k'))
    → len < 2 ^ 31
    → let all = contents n (w.rings (ring_key k')) ++ buf in
      let m = min len (length all) in
      (c : Ends) × (c' : Ends) × (w' : State) × (v' : State) × (new_ends stat junk fuel src dst w
        ≡ done (c, w))
      × (new_ends stat junk fuel dst src (resume v w) ≡ done (c', resume v w))
      × (write_ends stat junk (suc fuel) n c (length buf) buf w ≡ done (length buf, w'))
      × (read_ends stat junk (suc fuel) n c' len (resume v w') ≡ done ((m, take m all), v'))
unfolding read_ends write_ends read_ring write_ring
read_ends-write_ends stat junk fuel n w v src dst k k' len buf s pos pos' h h' q fits int =
    let ring : Ring = w.rings (ring_key k') in
    let l : ℕ = length buf in
    let l_int : l < 2 ^ 31 = omega (arith, s.small) in
    let taken : min l (room n ring) ≡ l = omega arith in
    let out : Wrote n ring buf l (rb_write n (suc fuel) ring l buf) =
      subst (λ c. Wrote n ring buf c (rb_write n (suc fuel) ring l buf)) taken
        (rb_write-Wrote n fuel ring l buf s q l_int (omega arith)) in
    let w' : State = record w { rings = update w.rings (ring_key k') out.rb' } in
    let u : State = resume v w' in
    let held : u.rings (ring_key k') ≡ out.rb' =
      resume-rings v w' (ring_key k') (nattch-shared stat (ring_key k') h'.attached)
      ∙ update_self w.rings (ring_key k') out.rb' in
    let full : contents n out.rb' ≡ contents n ring ++ buf =
      out.appended ∙ ap (λ xs. contents n ring ++ xs) (take-length buf) in
    let got =
      ap (λ r. rb_read n (suc fuel) r len) held
      ∙ rb_read-done n fuel out.rb' len s out.quiet.valid int in
    let count : used n out.rb' ≡ length (contents n ring ++ buf) =
      sym (length-contents n out.rb') ∙ ap length full in
    let m : ℕ = min len (used n out.rb') in
    let v' : State = record u { rings = update u.rings (ring_key k') (after_read n out.rb' m) } in
    (
      ends_of src dst k k',
      ends_of dst src k' k,
      w',
      v',
      new_ends-known stat junk fuel w src dst k k' h h',
      new_ends-known stat junk fuel (resume v w) dst src k' k
          (resume-IsKnown stat v w dst src k' pos' h') (resume-IsKnown stat v w src dst k pos h),
      rw out.returns,
      rw got (ap₂ (λ c xs. done ((min len c, take (min len c) xs), v')) count full),
    )
