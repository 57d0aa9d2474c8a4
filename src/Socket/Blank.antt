-- ===== src/Socket/Blank.antt =====
-- A send into a ring that holds no bytes, and a receive of all that a ring holds.
use mathlib.Core.Path.{subst, ap₂}
use make_the_american_great.Prelude.{
  ℕ, suc, ◌^◌, ◌<◌, ◌≡◌, ap, ◌∙◌, sym, List, [], ◌++◌, length, min, take, some, u32, update, arith,
  take-length,
}
use make_the_american_great.Run.{Run, done, bind as run_bind}
use make_the_american_great.Ring.{Ring, rb_read, rb_write}
use make_the_american_great.Ring.Inv.{IsSize, IsQuiet, used, contents, length-contents}
use make_the_american_great.Ring.Read.{after_read, rb_read-done}
use make_the_american_great.Ring.Write.{room, Wrote, rb_write-Wrote}
use make_the_american_great.Index.{State, ring_key}
use make_the_american_great.Socket.{sendto, recvfrom, resolve, ring_for, local_port, remote_port}
use make_the_american_great.Socket.Transfer.{handle, sendto-found, recvfrom-found, receive_on-now}
use make_the_american_great.Socket.Open.{IsBlank}
use make_the_american_great.Socket.Resumed.{blank-IsQuiet, used-blank, contents-blank}

-- A send into a ring that is blank: all bytes are taken, and they are what the ring holds.
pub record Sent (n : ℕ) (u : State) (k : ℕ) (buf : List ℕ) (r : Run (ℕ × State)) : Type 0 where
  pub rb' : Ring
  pub returns : r ≡ done (length buf, record u { rings = update u.rings (ring_key k) rb' })
  pub quiet : IsQuiet n rb'
  pub holds : contents n rb' ≡ buf

-- rb_write of all of buf into a blank ring.
pub write_blank :
    (fuel n : ℕ) (u : State) (k : ℕ) (buf : List ℕ)
    → IsSize n
    → IsBlank (u.rings (ring_key k))
    → length buf < n
    → Sent n u k buf (
        run_bind
          (rb_write n (suc fuel) (u.rings (ring_key k)) (u32 (length buf)) buf)
          (λ r. done (r.0, record u { rings = update u.rings (ring_key k) r.1 })))
write_blank fuel n u k buf s blank fits =
    let ring : Ring = u.rings (ring_key k) in
    let l : ℕ = length buf in
    let same : u32 l ≡ l = omega (arith, s.small) in
    let taken : min l (room n ring) ≡ l = omega (arith, used-blank n ring blank) in
    let out : Wrote n ring buf l (rb_write n (suc fuel) ring l buf) =
      subst (λ c. Wrote n ring buf c (rb_write n (suc fuel) ring l buf)) taken
        (rb_write-Wrote n fuel ring l buf s (blank-IsQuiet n ring s blank) (omega (arith, s.small))
          (omega arith)) in
    record {
      rb' = out.rb';
      returns =
          ap
            (λ z.
              run_bind z (λ r. done (r.0, record u { rings = update u.rings (ring_key k) r.1 })))
            (ap (λ c. rb_write n (suc fuel) ring c buf) same ∙ out.returns);
      quiet = out.quiet;
      holds = out.appended ∙ ap₂ ◌++◌ (contents-blank n ring blank) (take-length buf);
    }

pub sendto-Sent :
    (stat junk : ℕ → ℕ) (fuel n : ℕ) (w u : State) (fd idx k : ℕ) (buf : List ℕ)
    → IsSize n
    → resolve fd w ≡ done (idx, w)
    → ring_for stat junk (suc fuel) (local_port idx) (remote_port idx) w ≡ done (some (handle k), u)
    → IsBlank (u.rings (ring_key k))
    → length buf < n
    → Sent n u k buf (sendto stat junk (suc fuel) n fd buf (length buf) w)
sendto-Sent stat junk fuel n w u fd idx k buf s e found blank fits =
    subst (Sent n u k buf)
      (sym (sendto-found stat junk (suc fuel) n w u fd idx k buf (length buf) e found))
      (write_blank fuel n u k buf s blank fits)

-- A receive from a ring that holds exactly buf.
pub recvfrom-buf :
    (stat junk : ℕ → ℕ) (fuel n : ℕ) (w u : State) (fd k len : ℕ) (rb : Ring) (buf : List ℕ)
    → IsSize n
    → resolve fd w ≡ done (fd, w)
    → ring_for stat junk (suc fuel) (remote_port fd) (local_port fd) w ≡ done (some (handle k), u)
    → u.rings (ring_key k) ≡ rb
    → IsQuiet n rb
    → contents n rb ≡ buf
    → 0 < length buf
    → 0 < len
    → len < 2 ^ 31
    → (u' : State) × (recvfrom stat junk (suc fuel) n [] fd len w
        ≡ done ((min len (length buf), take (min len (length buf)) buf), u'))
recvfrom-buf stat junk fuel n w u fd k len rb buf s e found is q holds some_bytes wants int =
    let same : u32 len ≡ len = omega arith in
    let count : used n rb ≡ length buf = sym (length-contents n rb) ∙ ap length holds in
    let m : ℕ = min len (used n rb) in
    let u' : State = record u { rings = update u.rings (ring_key k) (after_read n rb m) } in
    let got : rb_read n (suc fuel) (u.rings (ring_key k)) (u32 len)
        ≡ done (m, take m (contents n rb), after_read n rb m) =
      ap₂ (λ r c. rb_read n (suc fuel) r c) is same ∙ rb_read-done n fuel rb len s q.valid int in
    (
      u',
      recvfrom-found stat junk (suc fuel) n [] w u fd fd k len e found
          ∙ receive_on-now stat junk (suc fuel) n [] u fd k len m (take m (contents n rb))
              (after_read n rb m) got (omega (arith, count))
          ∙ ap₂ (λ c xs. done ((min len c, take (min len c) xs), u')) count holds,
    )
