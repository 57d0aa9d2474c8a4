-- ===== src/Socket/Missed.antt =====
-- The first send and the first recv of a connection at the same time: get_idx of
-- release/RingBuffer.cpp in two processes that both find no index for the same ports.
mod Tests
use mathlib.Core.Path.{subst}
use make_the_american_great.Prelude.{
  ℕ, zero, suc, ◌+◌, ◌*◌, ◌^◌, ◌<◌, ◌≤◌, ◌≡◌, ◌≢◌, refl, ap, ◌∙◌, sym, List, [], ◌∷◌, length, true,
  false, some, u32, update, update_self, update_ne, arith, ne→==-false, ◌==◌, if◌then◌else◌,
}
use make_the_american_great.Run.{Run, done, spinning, bind}
use make_the_american_great.Ring.{Ring, rb_write}
use make_the_american_great.Ring.Inv.{IsSize, IsQuiet, used, contents}
use make_the_american_great.Pool.Chain.{free_indices}
use make_the_american_great.Pool.Apart.{first_free}
use make_the_american_great.Index.{
  State, M, ◌>>=◌, resume, shared_keys, port_number, ring_key, nattch, minus, acquire_idx, rb_get,
}
use make_the_american_great.Index.Shared.{resumed_ring, resume-rings}
use make_the_american_great.Index.Owned.{Owned, Acquired, acquire_idx-Acquired}
use make_the_american_great.Socket.{
  local_port, remote_port, resolve, ring_for, send_on, write_ring, recvfrom, receive_on, poll,
}
use make_the_american_great.Socket.Ports.{read_port_table-known}
use make_the_american_great.Socket.Transfer.{handle, recvfrom-found}
use make_the_american_great.Socket.Open.{IsBlank, Got, rb_get-Got, Opened, ring_for-Opened}
use make_the_american_great.Socket.Resumed.{NoPrivate, resume-Owned, blank-IsQuiet, used-blank}
use make_the_american_great.Socket.Blank.{Sent, write_blank}
use make_the_american_great.Socket.Wait.{read_ring-empty}

-- sendto from the place on where its get_idx has found no index.
unfoldable pub send_late : (stat junk : ℕ → ℕ) → ℕ → ℕ → ℕ → ℕ → List ℕ → ℕ → M ℕ
send_late stat junk fuel n src dst buf len = do
  k ← acquire_idx stat junk fuel src dst
  rb ← rb_get stat k
  send_on stat junk fuel n rb len buf

-- A late send under the index g: it takes all bytes, the ring of g holds them, and no other ring has
-- changed.
record SentLate (n : ℕ) (w : State) (s d g : ℕ) (buf : List ℕ) (r : Run (ℕ × State)) : Type 0 where
  w' : State
  returns : r ≡ done (length buf, w')
  entry : w'.dst_block s d ≡ g
  holds : contents n (w'.rings (ring_key g)) ≡ buf
  kept : (key : ℕ) → key ≢ ring_key g → w'.rings key ≡ w.rings key
  ports : w'.ports ≡ w.ports

send_late-SentLate :
    (stat junk : ℕ → ℕ) (fuel n : ℕ) (w : State) (frees : List (List ℕ)) (s d g : ℕ) (gs : List ℕ)
    (buf : List ℕ)
    → IsSize n
    → Owned w frees
    → free_indices 0 frees ≡ g ∷ gs
    → w.rb_memo g ≡ false
    → nattch stat (ring_key g) ≡ 0
    → length buf < n
    → SentLate n w s d g buf (send_late stat junk (suc fuel) n s d buf (length buf) w)
unfolding send_late send_on write_ring
send_late-SentLate stat junk fuel n w frees s d g gs buf size o e memo new fits =
    let a : Acquired w s d g gs (acquire_idx stat junk (suc fuel) s d w) =
      acquire_idx-Acquired w frees s d g gs o e stat junk (suc fuel) in
    let range = first_free w.pool_shm w.chain 0 frees g gs o.free e in
    let got : Got stat a.w' g (rb_get stat g a.w') =
      rb_get-Got stat a.w' g (λ z. omega (arith, range.1, o.small)) in
    let u : State = record a.w' { rings = got.rings'; rb_memo = got.memo' } in
    let out : Sent n u g buf (
        bind (rb_write n (suc fuel) (u.rings (ring_key g)) (u32 (length buf)) buf)
          (λ r. done (r.0, record u { rings = update u.rings (ring_key g) r.1 }))) =
      write_blank fuel n u g buf size (got.blank (ap (λ z. z.rb_memo g) a.state ∙ memo) new) fits in
    record {
      w' = record u { rings = update u.rings (ring_key g) out.rb' };
      returns = rw (a.returns, got.returns) out.returns;
      entry = a.mine;
      holds = ap (contents n) (update_self u.rings (ring_key g) out.rb') ∙ out.holds;
      kept = λ key ne.
          update_ne u.rings (ring_key g) out.rb' key ne
          ∙ got.rings_kept key ne
          ∙ ap (λ z. z.rings key) a.state;
      ports = ap (λ z. z.ports) a.state;
    }

-- The same state of the others before each of m rounds.
abbrev pub always : ℕ → State → List (State → State)
always zero v = []
always (suc m) v = (λ w. v) ∷ always m v

-- A loop of recvfrom whose ring stays blank, and whose peer's port stays taken, goes on.
poll-blank :
    (stat junk : ℕ → ℕ) (fuel n : ℕ) (v : State) (m : ℕ) (u : State) (idx k len : ℕ)
    → IsSize n
    → u.port_table_available ≡ true
    → (ring_key k < shared_keys → IsBlank (v.rings (ring_key k)))
    → IsBlank (u.rings (ring_key k))
    → v.ports (remote_port idx) ≢ 0
    → len < 2 ^ 31
    → poll stat junk (suc fuel) n (always m v) idx (handle k) len u ≡ spinning
unfolding poll
poll-blank stat junk fuel n v zero u idx k len size table shared own taken int = refl
poll-blank stat junk fuel n v (suc m) u idx k len size table shared own taken int =
    let w : State = resume u v in
    let ring : Ring = w.rings (ring_key k) in
    let blank : IsBlank ring = resumed_ring IsBlank u v (ring_key k) shared own in
    let quiet = blank-IsQuiet n ring size blank in
    rw
      (
        read_port_table-known stat w table (remote_port idx) (omega arith),
        read_ring-empty stat junk fuel n w k len size quiet.valid (used-blank n ring blank) int,
        ne→==-false (v.ports (remote_port idx)) 0 taken,
      )
      (poll-blank stat junk fuel n v m
        (record w { rings = update w.rings (ring_key k) (w.rings (ring_key k)) }) idx k len size
        table shared (subst IsBlank (sym (update_self w.rings (ring_key k) ring)) blank) taken int)

-- A receiver calls recv on a connection whose direction has no index yet, and finds none; before
-- it goes on, so does the sender in its send. The receiver takes the index g₁, and its ring is
-- empty. Then the sender takes g₂: its send returns the length of all its bytes, and the ring of g₂
-- holds them. However long the receiver then waits, its recv does not return, although the entry of
-- the table is g₂.
pub sent_unseen :
    (stat stat' junk : ℕ → ℕ) (fuel n : ℕ) (w v : State) (frees : List (List ℕ)) (fd idx g₁ g₂ : ℕ)
    (gs buf : List ℕ) (len : ℕ)
    → IsSize n
    → Owned w frees
    → free_indices 0 frees ≡ g₁ ∷ g₂ ∷ gs
    → v.chain ≡ w.chain
    → NoPrivate v
    → w.port_table_available ≡ true
    → resolve fd w ≡ done (idx, w)
    → remote_port idx ≢ 0
    → w.ports (remote_port idx) ≢ 0
    → w.dst_block (remote_port idx) (local_port idx) ≡ 0
    → (w.rb_memo g₁ ≡ false) × (nattch stat (ring_key g₁) ≡ 0)
    → (v.rb_memo g₂ ≡ false) × (nattch stat' (ring_key g₂) ≡ 0)
    → ring_key g₁ ≢ ring_key g₂
    → length buf < n
    → len < 2 ^ 31
    → (w₁ : State) × (v₁ : State) × (ring_for stat junk
          (suc fuel)
          (remote_port idx)
          (local_port idx)
          w
        ≡ done (some (handle g₁), w₁))
      × (send_late stat' junk
            (suc fuel)
            n
            (remote_port idx)
            (local_port idx)
            buf
            (length buf)
            (resume v w₁)
          ≡ done (length buf, v₁))
      × (contents n (v₁.rings (ring_key g₂)) ≡ buf)
      × (v₁.dst_block (remote_port idx) (local_port idx) ≡ g₂)
      × ((rounds : ℕ) → recvfrom stat junk (suc fuel) n (always rounds v₁) fd len w ≡ spinning)
unfolding receive_on
sent_unseen stat stat' junk fuel n w v frees fd idx g₁ g₂ gs buf len size o e chain own table found
      real taken vacant new₁ new₂ apart fits int =
    let src : ℕ = remote_port idx in
    let dst : ℕ = local_port idx in
    let a : Opened stat w src dst g₁ (g₂ ∷ gs) (ring_for stat junk (suc fuel) src dst w) =
      ring_for-Opened stat junk (suc fuel) w frees src dst g₁ (g₂ ∷ gs) o e (omega arith) vacant in
    let blank : IsBlank (a.w'.rings (ring_key g₁)) = a.blank new₁.0 new₁.1 in
    let b : SentLate n (resume v a.w') src dst g₂ buf
        (send_late stat' junk (suc fuel) n src dst buf (length buf) (resume v a.w')) =
      send_late-SentLate stat' junk fuel n (resume v a.w') a.frees src dst g₂ gs buf size
        (resume-Owned v a.w' a.frees a.owned (chain ∙ sym a.chain_kept) own) a.left new₂.0 new₂.1
        fits in
    let still : ring_key g₁ < shared_keys → IsBlank (b.w'.rings (ring_key g₁)) = λ p.
      subst IsBlank (sym (b.kept (ring_key g₁) apart ∙ resume-rings v a.w' (ring_key g₁) p))
        blank in
    let quiet = blank-IsQuiet n (a.w'.rings (ring_key g₁)) size blank in
    (
      a.w',
      b.w',
      a.returns,
      b.returns,
      b.holds,
      b.entry,
      λ rounds.
          recvfrom-found stat junk (suc fuel) n (always rounds b.w') w a.w' fd idx g₁ len found
            a.returns
          ∙ rw
              (read_ring-empty stat junk fuel n a.w' g₁ len size quiet.valid
                (used-blank n (a.w'.rings (ring_key g₁)) blank) int)
              (poll-blank stat junk fuel n b.w' rounds
                (record a.w' { rings = update a.w'.rings (ring_key g₁) (a.w'.rings (ring_key g₁)) })
                idx g₁ len size (a.table_kept ∙ table) still
                (subst IsBlank
                  (sym (update_self a.w'.rings (ring_key g₁) (a.w'.rings (ring_key g₁)))) blank)
                (λ z. taken (sym (ap (λ f. f src) (b.ports ∙ a.ports_kept)) ∙ z)) int),
    )
