-- ===== src/Socket/Transfer.antt =====
-- One end of a connection sends and the other receives: sendto and recvfrom of release/socket.c.
use mathlib.Core.Path.{ap₂, subst}
use make_the_american_great.Prelude.{
  ℕ, suc, ◌+◌, ◌*◌, ◌^◌, ◌≤◌, ◌<◌, ◌≡◌, ◌≢◌, ap, ◌∙◌, sym, List, ◌++◌, length, min, take, true,
  some, u32, update, take-length, length-append, update_self, arith, ne→==-false, lt→ltb,
}
use make_the_american_great.Run.{done, bind}
use make_the_american_great.Ring.{Ring, rb_read, rb_write}
use make_the_american_great.Ring.Inv.{IsSize, IsQuiet, used, contents, length-contents}
use make_the_american_great.Ring.Read.{after_read, rb_read-done}
use make_the_american_great.Ring.Write.{room, Wrote, rb_write-Wrote}
use make_the_american_great.Index.{
  State, resume, shared_keys, Handle, port_number, minus, ring_key, get_idx, rb_get,
}
use make_the_american_great.Index.Shared.{resume-rings}
use make_the_american_great.Socket.{
  local_port, remote_port, resolve, ring_for, write_ring, read_ring, receive_on, sendto, recvfrom,
}

-- The int that connect stores for the client, and the one that accept returns to the server.
abbrev pub client_idx : (client_port server_port : ℕ) → ℕ
client_idx client_port server_port = u32 (server_port * 2 ^ 16) + client_port

abbrev pub server_fd : (client_port server_port : ℕ) → ℕ
server_fd client_port server_port = u32 (client_port * 2 ^ 16) + server_port

-- The two ends name the same two ports, each from its side.
pub ends :
    (cp sp : ℕ)
    → cp < 2 ^ 16
    → sp < 2 ^ 16
    → (local_port (client_idx cp sp) ≡ cp)
      × (remote_port (client_idx cp sp) ≡ sp)
      × (local_port (server_fd cp sp) ≡ sp)
      × (remote_port (server_fd cp sp) ≡ cp)
ends cp sp h k = (omega arith, omega arith, omega arith, omega arith)

-- The process has the ring with index k under the ports src and dst.
pub record Has (w : State) (src dst k : ℕ) : Type 0 where
  pub entry : w.dst_block src dst ≡ k
  pub in_range : dst < port_number
  pub nonzero : k ≢ 0
  pub not_minus : k ≢ minus 1
  pub memo : w.rb_memo k ≡ true

abbrev pub handle : ℕ → Handle
handle k = record { index = k; segment = ring_key k }

pub resolve-client :
    (w : State) (fd : ℕ) → fd < 1024 → resolve fd w ≡ done (w.client_fd_to_idx fd, w)
unfolding resolve
resolve-client w fd h = ground arith

pub resolve-server : (w : State) (fd : ℕ) → 1024 ≤ fd → fd < 2 ^ 31 → resolve fd w ≡ done (fd, w)
unfolding resolve
resolve-server w fd h k = ground arith

module _ (stat junk : ℕ → ℕ) (fuel : ℕ) where
  pub ring_for-known :
      (w : State) (src dst k : ℕ)
      → Has w src dst k
      → ring_for stat junk fuel src dst w ≡ done (some (handle k), w)
  unfolding ring_for get_idx rb_get
  ring_for-known w src dst k h = rw (
    lt→ltb dst port_number h.in_range,
    h.entry,
    ne→==-false k 0 h.nonzero,
    ne→==-false k (minus 1) h.not_minus,
    h.memo,
  )

  -- send and recv go on with the ring that ring_for finds.
  pub sendto-found :
      (n : ℕ) (w u : State) (fd idx k : ℕ) (buf : List ℕ) (len : ℕ)
      → resolve fd w ≡ done (idx, w)
      → ring_for stat junk fuel (local_port idx) (remote_port idx) w ≡ done (some (handle k), u)
      → sendto stat junk fuel n fd buf len w
        ≡ bind
            (rb_write n fuel (u.rings (ring_key k)) (u32 len) buf)
            (λ r. done (r.0, record u { rings = update u.rings (ring_key k) r.1 }))
  unfolding sendto write_ring
  sendto-found n w u fd idx k buf len e found = rw (e, found)

  pub recvfrom-found :
      (n : ℕ) (others : List (State → State)) (w u : State) (fd idx k len : ℕ)
      → resolve fd w ≡ done (idx, w)
      → ring_for stat junk fuel (remote_port idx) (local_port idx) w ≡ done (some (handle k), u)
      → recvfrom stat junk fuel n others fd len w
        ≡ receive_on stat junk fuel n others idx (some (handle k)) len u
  unfolding recvfrom
  recvfrom-found n others w u fd idx k len e found = rw (e, found)

  -- send on an end that knows its ring is rb_write on the ring of its outgoing ports.
  sendto-known :
      (n : ℕ) (w : State) (fd idx k : ℕ) (buf : List ℕ) (len : ℕ)
      → resolve fd w ≡ done (idx, w)
      → Has w (local_port idx) (remote_port idx) k
      → sendto stat junk fuel n fd buf len w
        ≡ bind
            (rb_write n fuel (w.rings (ring_key k)) (u32 len) buf)
            (λ r. done (r.0, record w { rings = update w.rings (ring_key k) r.1 }))
  sendto-known n w fd idx k buf len e h =
      sendto-found n w w fd idx k buf len e
        (ring_for-known w (local_port idx) (remote_port idx) k h)

  pub recvfrom-known :
      (n : ℕ) (others : List (State → State)) (w : State) (fd idx k len : ℕ)
      → resolve fd w ≡ done (idx, w)
      → Has w (remote_port idx) (local_port idx) k
      → recvfrom stat junk fuel n others fd len w
        ≡ receive_on stat junk fuel n others idx (some (handle k)) len w
  recvfrom-known n others w fd idx k len e h =
      recvfrom-found n others w w fd idx k len e
        (ring_for-known w (remote_port idx) (local_port idx) k h)

  -- A receive that finds bytes does not wait.
  pub receive_on-now :
      (n : ℕ) (others : List (State → State)) (w : State) (idx k len c : ℕ) (bytes : List ℕ)
      (ring : Ring)
      → rb_read n fuel (w.rings (ring_key k)) (u32 len) ≡ done (c, bytes, ring)
      → c ≢ 0
      → receive_on stat junk fuel n others idx (some (handle k)) len w
        ≡ done ((c, bytes), record w { rings = update w.rings (ring_key k) ring })
  unfolding receive_on read_ring
  receive_on-now n others w idx k len c bytes ring e h = rw (e, ne→==-false c 0 h)

module _ (stat junk : ℕ → ℕ) (fuel n : ℕ) (cp sp k : ℕ) (small : cp < 2 ^ 15)
    (port : sp < 2 ^ 16) where
  client-sends :
      (w : State) (fd l : ℕ) (buf : List ℕ) (ring : Ring)
      → fd < 1024
      → w.client_fd_to_idx fd ≡ client_idx cp sp
      → Has w cp sp k
      → l < 2 ^ 31
      → rb_write n fuel (w.rings (ring_key k)) l buf ≡ done (l, ring)
      → sendto stat junk fuel n fd buf l w
        ≡ done (l, record w { rings = update w.rings (ring_key k) ring })
  client-sends w fd l buf ring fd_in e has int written =
      let (lc, rc, ls, rs) = ends cp sp (omega arith) port in
      let found : resolve fd w ≡ done (client_idx cp sp, w) =
        resolve-client w fd fd_in ∙ ap (λ i. done (i, w)) e in
      let same : u32 l ≡ l = omega arith in
      sendto-known stat junk fuel n w fd (client_idx cp sp) k buf l found (
        subst (λ a. Has w a (remote_port (client_idx cp sp)) k) (sym lc)
          (subst (λ a. Has w cp a k) (sym rc) has))
      ∙ ap (λ r. bind r (λ r. done (r.0, record w { rings = update w.rings (ring_key k) r.1 })))
          (ap (λ c. rb_write n fuel (w.rings (ring_key k)) c buf) same ∙ written)

  server-receives :
      (others : List (State → State)) (u : State) (len c : ℕ) (bytes : List ℕ) (ring : Ring)
      → 0 < cp
      → Has u cp sp k
      → len < 2 ^ 31
      → rb_read n fuel (u.rings (ring_key k)) len ≡ done (c, bytes, ring)
      → c ≢ 0
      → recvfrom stat junk fuel n others (server_fd cp sp) len u
        ≡ done ((c, bytes), record u { rings = update u.rings (ring_key k) ring })
  server-receives others u len c bytes ring pos has int got nonempty =
      let (lc, rc, ls, rs) = ends cp sp (omega arith) port in
      let nfd : ℕ = server_fd cp sp in
      let same : u32 len ≡ len = omega arith in
      recvfrom-known stat junk fuel n others u nfd nfd k len
        (resolve-server u nfd (omega arith) (omega arith))
        (subst (λ a. Has u a (local_port nfd) k) (sym rs) (subst (λ a. Has u cp a k) (sym ls) has))
      ∙ receive_on-now stat junk fuel n others u nfd k len c bytes ring
          (ap (λ z. rb_read n fuel (u.rings (ring_key k)) z) same ∙ got) nonempty

-- A client sends bytes that its ring has room for, and the server at the other end then receives:
-- send takes all the bytes, and recv returns the oldest of what the ring held before, followed by
-- what was sent, as many as fit into the server's buffer. The client's port is below 2 ^ 15, no
-- write is under way, both processes have the ring already, and the key of its segment is not
-- IPC_PRIVATE.
pub recvfrom-sendto :
    (stat junk : ℕ → ℕ) (fuel n : ℕ) (others : List (State → State)) (w v : State)
    (fd cp sp k len : ℕ) (buf : List ℕ)
    → IsSize n
    → 0 < cp
    → cp < 2 ^ 15
    → sp < 2 ^ 16
    → fd < 1024
    → w.client_fd_to_idx fd ≡ client_idx cp sp
    → Has w cp sp k
    → v.rb_memo k ≡ true
    → ring_key k < shared_keys
    → IsQuiet n (w.rings (ring_key k))
    → 0 < length buf
    → length buf ≤ room n (w.rings (ring_key k))
    → 0 < len
    → len < 2 ^ 31
    → let all = contents n (w.rings (ring_key k)) ++ buf in
      let m = min len (length all) in
      (w' : State) × (v' : State) × (sendto stat junk (suc fuel) n fd buf (length buf) w
        ≡ done (length buf, w'))
      × (recvfrom stat junk (suc fuel) n others (server_fd cp sp) len (resume v w')
          ≡ done ((m, take m all), v'))
recvfrom-sendto stat junk fuel n others w v fd cp sp k len buf s pos small port fd_in e has memo
      shared q some_bytes fits wants int =
    let ring : Ring = w.rings (ring_key k) in
    let l : ℕ = length buf in
    let l_int : l < 2 ^ 31 = omega (arith, s.small) in
    let taken : min l (room n ring) ≡ l = omega arith in
    let out : Wrote n ring buf l (rb_write n (suc fuel) ring l buf) =
      subst (λ c. Wrote n ring buf c (rb_write n (suc fuel) ring l buf)) taken
        (rb_write-Wrote n fuel ring l buf s q l_int (omega arith)) in
    let w' : State = record w { rings = update w.rings (ring_key k) out.rb' } in
    let u : State = resume v w' in
    let has' : Has u cp sp k = record {
      entry = rw (ne→==-false cp 0 (λ z. omega (arith, pos))) has.entry;
      in_range = has.in_range;
      nonzero = has.nonzero;
      not_minus = has.not_minus;
      memo = memo;
    } in
    let held : u.rings (ring_key k) ≡ out.rb' =
      resume-rings v w' (ring_key k) shared ∙ update_self w.rings (ring_key k) out.rb' in
    let full : contents n out.rb' ≡ contents n ring ++ buf =
      out.appended ∙ ap (λ xs. contents n ring ++ xs) (take-length buf) in
    let m : ℕ = min len (used n out.rb') in
    let got =
      ap (λ r. rb_read n (suc fuel) r len) held
      ∙ rb_read-done n fuel out.rb' len s out.quiet.valid int in
    let size : used n out.rb' ≡ length (contents n ring) + l =
      sym (length-contents n out.rb') ∙ ap length full ∙ length-append (contents n ring) buf in
    let v' : State = record u { rings = update u.rings (ring_key k) (after_read n out.rb' m) } in
    let received =
      server-receives stat junk (suc fuel) n cp sp k small port others u len m
        (take m (contents n out.rb')) (after_read n out.rb' m) pos has' int got (omega arith) in
    let count : used n out.rb' ≡ length (contents n ring ++ buf) =
      sym (length-contents n out.rb') ∙ ap length full in
    (
      w',
      v',
      client-sends stat junk (suc fuel) n cp sp k small port w fd l buf out.rb' fd_in e has l_int
          out.returns,
      received ∙ ap₂ (λ c xs. done ((min len c, take (min len c) xs), v')) count full,
    )
