-- ===== src/Socket/Session.antt =====
-- The calls of release/socket.c in turn: a server binds, a client connects, the server accepts, the
-- client sends, and the server receives.

mod Tests
use mathlib.Core.Path.{subst, ap₂}
use make_the_american_great.Prelude.{
  ℕ, suc, ◌-◌, ◌^◌, ◌<◌, ◌≡◌, ◌≢◌, ap, ◌∙◌, sym, List, [], ◌∷◌, length, min, take, true, false,
  update, update_self, update_ne, arith, ==_refl, ◌+◌, ◌==◌, if◌then◌else◌,
}
use make_the_american_great.Run.{Run, done, fault, spinning}
use make_the_american_great.Ring.{Ring}
use make_the_american_great.Ring.Inv.{IsSize}
use make_the_american_great.Pool.FreeList.{Apart}
use make_the_american_great.Pool.Chain.{Outside, free_indices}
use make_the_american_great.Index.{State, resume, port_number, ring_key, nattch}
use make_the_american_great.Index.Shared.{resume-rings, nattch-shared}
use make_the_american_great.Index.Owned.{Owned}
use make_the_american_great.Socket.{
  bind, connect, accept, accept_woken, signals, sendto, recvfrom, ring_for, local_port, remote_port,
  client_mark,
}
use make_the_american_great.Socket.FreePort.{IsFirst}
use make_the_american_great.Socket.Bind.{bind-free}
use make_the_american_great.Socket.Connect.{
  Established, connect-Established, accept-found, accept-signalled,
}
use make_the_american_great.Socket.Transfer.{
  client_idx, server_fd, ends, resolve-client, resolve-server,
}
use make_the_american_great.Socket.Open.{IsBlank, Got, Opened, ring_for-Opened}
use make_the_american_great.Socket.Resumed.{NoPrivate, resumed_entry, resume-Owned, ring_for-Got}
use make_the_american_great.Socket.Blank.{Sent, sendto-Sent, recvfrom-buf}

-- The state after a call, when it returns.
unfoldable pub outcome : State → Run (ℕ × State) → State
outcome u (done r) = r.1
outcome u fault = u
outcome u spinning = u

-- The two processes before the calls, on the ports sp and cp with the descriptors lfd and fd. No
-- channel of the pool has the key IPC_PRIVATE.
pub record IsSetting (stat stat' : ℕ → ℕ) (v w : State) (frees : List (List ℕ))
    (lfd fd sp cp g₁ g₂ g₃ : ℕ) (gs : List ℕ) : Type 0 where
  pub tables : (v.port_table_available ≡ true) × (w.port_table_available ≡ true)
  pub ports : (0 < sp) × (sp < port_number) × (0 < cp) × (cp < 2 ^ 15)
  pub fds : (lfd < 2 ^ 16) × (fd < 1024)
  pub closed : v.ports sp ≡ 0
  pub server : (v.pid ≢ 0) × (v.pid < client_mark)
  pub first : IsFirst (update v.ports sp v.pid) 1 cp
  pub owned : Owned v frees
  pub free : free_indices 0 frees ≡ g₁ ∷ g₂ ∷ g₃ ∷ gs
  pub same_chain : (w.chain ≡ v.chain) × Outside 0 v.chain
  pub private : NoPrivate v × NoPrivate w
  pub vacant : (v.dst_block sp cp ≡ 0) × (v.dst_block cp sp ≡ 0)
  pub new_ring :
      (w.rb_memo g₃ ≡ false) × (nattch stat (ring_key g₃) ≡ 0) × (nattch stat' (ring_key g₃) ≢ 0)

module _ (stat stat' junk : ℕ → ℕ) (fuel : ℕ) (v w : State) (frees : List (List ℕ))
    (lfd fd sp cp g₁ g₂ g₃ : ℕ) (gs : List ℕ)
    (z : IsSetting stat stat' v w frees lfd fd sp cp g₁ g₂ g₃ gs) where
  -- The server after bind, and the client that goes on then.
  abbrev bound : State
  bound = record v { ports = update v.ports sp v.pid }

  abbrev client₁ : State
  client₁ = resume w bound

  bound-Owned : Owned bound frees
  bound-Owned = record {
    free = z.owned.free;
    small = z.owned.small;
    taken = z.owned.taken;
    within = z.owned.within;
    distinct = z.owned.distinct;
  }

  abbrev nobody : (ℕ → ℕ) → ℕ → ℕ
  nobody t = t

  sp_ne_cp : sp ≢ cp
  sp_ne_cp e = z.server.0 (sym (update_self v.ports sp v.pid) ∙ ap client₁.ports e ∙ z.first.free)

  -- connect.
  est : Established client₁ fd sp cp g₁ (g₂ ∷ g₃ ∷ gs) (connect stat junk fuel nobody fd sp client₁)
  est =
      let listens : client₁.ports sp ≡ v.pid = update_self v.ports sp v.pid in
      connect-Established stat junk fuel nobody client₁ fd sp cp frees g₁ (g₂ ∷ g₃ ∷ gs) z.tables.1
        z.ports.1 (omega (arith, z.ports.3)) z.fds.1 (λ e. z.server.0 (sym listens ∙ e))
        (omega (arith, listens, z.server.1)) z.first (update_ne client₁.ports cp _ sp sp_ne_cp)
        (resume-Owned w bound frees bound-Owned z.same_chain.0 z.private.1) z.free
        (resumed_entry w bound sp cp (λ e. omega (arith, z.ports.0)) ∙ z.vacant.0)

  -- While the server waits in accept, the client connects.
  abbrev connecting : State → State
  connecting u = outcome u (connect stat junk fuel nobody fd sp (resume w u))

  connected : connecting bound ≡ est.w'
  unfolding outcome
  connected = ap (outcome bound) est.returns

  abbrev server₁ : State
  server₁ = resume bound est.w'

  signalled : signals bound.pid bound.signalled < signals bound.pid server₁.signalled
  signalled =
      let listens : client₁.ports sp ≡ v.pid = update_self v.ports sp v.pid in
      let one : est.w'.signalled ≡ v.pid ∷ v.signalled =
        est.signal_sent ∙ ap (λ p. p ∷ v.signalled) listens in
      rw (one, ==_refl v.pid) (omega arith)

  low : (local_port lfd ≡ lfd) × (remote_port lfd ≡ 0)
  low = (omega (arith, z.fds.0), omega (arith, z.fds.0))

  -- accept.
  acc :
      Opened stat' server₁
        (remote_port lfd)
        (local_port lfd)
        g₂
        (g₃ ∷ gs)
        (ring_for stat' junk fuel (remote_port lfd) (local_port lfd) server₁)
  acc =
      ring_for-Opened stat' junk fuel server₁ est.frees (remote_port lfd) (local_port lfd) g₂
        (g₃ ∷ gs)
        (resume-Owned bound est.w' est.frees est.owned (sym z.same_chain.0 ∙ sym est.chain_kept)
          z.private.0)
        est.left (omega arith)
        (ap (λ s. server₁.dst_block s (local_port lfd)) low.1 ∙ z.private.0 (local_port lfd))

  accepts : accept stat' junk fuel connecting lfd sp bound ≡ done (server_fd cp sp, acc.w')
  accepts =
      accept-signalled stat' junk fuel connecting bound lfd sp (
        subst
          (λ u. signals bound.pid bound.signalled < signals bound.pid (resume bound u).signalled)
          (sym connected) signalled)
      ∙ ap (λ u. accept_woken stat' junk fuel lfd sp (resume bound u)) connected
      ∙ accept-found stat' junk fuel server₁ acc.w' lfd sp cp g₂ acc.returns
          (acc.table_kept ∙ z.tables.0) z.ports.1 (omega (arith, z.ports.3))
          (ap (λ t. t sp) acc.ports_kept ∙ est.server_entry)

  abbrev client₂ : State
  client₂ = resume est.w' acc.w'

  -- What the client finds for its first send.
  opened : Opened stat client₂ cp sp g₃ gs (ring_for stat junk fuel cp sp client₂)
  opened =
      ring_for-Opened stat junk fuel client₂ acc.frees cp sp g₃ gs
        (resume-Owned est.w' acc.w' acc.frees acc.owned
          (est.chain_kept ∙ z.same_chain.0 ∙ sym acc.chain_kept)
          (λ d. est.entries_kept 0 d (λ e. absurd (omega (arith, e, z.ports.0))) ∙ z.private.1 d))
        acc.left z.ports.1
        (resumed_entry est.w' acc.w' cp sp (λ e. omega (arith, e, z.ports.2))
          ∙ acc.entries_kept cp sp (λ e. absurd (omega (arith, e, low.1, z.ports.2)))
          ∙ resumed_entry bound est.w' cp sp (λ e. omega (arith, e, z.ports.2))
          ∙ est.entries_kept cp sp (λ e. absurd (sp_ne_cp (sym e)))
          ∙ resumed_entry w bound cp sp (λ e. omega (arith, e, z.ports.2))
          ∙ z.vacant.1)

  -- The ring of the client's sends is not the one that connect opened.
  other_ring : g₃ ≢ g₁
  other_ring e =
      let apart : Apart g₁ (g₂ ∷ g₃ ∷ gs) = subst (Apart g₁) est.left (
        subst (λ x. Apart x (free_indices 0 est.frees)) est.has.entry
          (est.owned.taken sp cp (λ q. est.has.nonzero (sym est.has.entry ∙ q)))) in
      apart.1.0 (sym e)

  blank : IsBlank (opened.w'.rings (ring_key g₃))
  blank = opened.blank (est.memo_kept g₃ other_ring ∙ z.new_ring.0) z.new_ring.1

  -- What the server finds for its first receive, when the client has left the ring as rb.
  module _ (rb : Ring) where
    abbrev server₂ : State
    server₂ = resume acc.w' (record opened.w' { rings = update opened.w'.rings (ring_key g₃) rb })

    found : Got stat' server₂ g₃ (ring_for stat' junk fuel cp sp server₂)
    found =
        ring_for-Got stat' junk fuel server₂ cp sp g₃ z.ports.1
          (resumed_entry acc.w'
              (record opened.w' { rings = update opened.w'.rings (ring_key g₃) rb }) cp sp
              (λ e. omega (arith, e, z.ports.2))
            ∙ opened.has.entry)
          opened.has.nonzero opened.has.not_minus

    same_ring : found.rings' (ring_key g₃) ≡ rb
    same_ring =
        ap (λ t. t (ring_key g₃)) (found.attached z.new_ring.2)
        ∙ resume-rings acc.w' (record opened.w' { rings = update opened.w'.rings (ring_key g₃) rb })
            (ring_key g₃) (nattch-shared stat' (ring_key g₃) z.new_ring.2)
        ∙ update_self opened.w'.rings (ring_key g₃) rb

-- A whole session between two processes that use the same channels of the pool: the server binds a
-- free port and calls accept, the client connects while the server waits in it for a signal, and the
-- client sends bytes that a new ring can hold. All four calls succeed, accept returns the descriptor of the two ports, and the
-- server then receives what was sent, from the first byte on and as much as fits. The client's
-- port, the first free one, is below 2 ^ 15, no process is attached to the ring's segment before the
-- send, and the key of the segment is not IPC_PRIVATE.
pub session :
    (stat stat' junk : ℕ → ℕ) (fuel n : ℕ) (v w : State) (frees : List (List ℕ))
    (lfd fd sp cp g₁ g₂ g₃ : ℕ) (gs : List ℕ) (buf : List ℕ) (len : ℕ)
    → IsSetting stat stat' v w frees lfd fd sp cp g₁ g₂ g₃ gs
    → IsSize n
    → 0 < length buf
    → length buf < n
    → 0 < len
    → len < 2 ^ 31
    → let m = min len (length buf) in
      (v₁ : State) × (w₁ : State) × (v₂ : State) × (w₂ : State) × (v₃ : State) × (bind stat' lfd sp
          v
        ≡ done (0, v₁))
      × (connect stat junk (suc fuel) (λ t. t) fd sp (resume w v₁) ≡ done (0, w₁))
      × (accept stat' junk
            (suc fuel)
            (λ u. outcome u (connect stat junk (suc fuel) (λ t. t) fd sp (resume w u)))
            lfd
            sp
            v₁
          ≡ done (server_fd cp sp, v₂))
      × (sendto stat junk (suc fuel) n fd buf (length buf) (resume w₁ v₂) ≡ done (length buf, w₂))
      × (recvfrom stat' junk (suc fuel) n [] (server_fd cp sp) len (resume v₂ w₂)
          ≡ done ((m, take m buf), v₃))
session stat stat' junk fuel n v w frees lfd fd sp cp g₁ g₂ g₃ gs buf len z s some_bytes fits wants
      int =
    let (lc, rc, ls, rs) = ends cp sp (omega (arith, z.ports.3)) z.ports.1 in
    let f : ℕ = suc fuel in
    let nfd : ℕ = server_fd cp sp in
    let e = est stat stat' junk f v w frees lfd fd sp cp g₁ g₂ g₃ gs z in
    let a = acc stat stat' junk f v w frees lfd fd sp cp g₁ g₂ g₃ gs z in
    let o = opened stat stat' junk f v w frees lfd fd sp cp g₁ g₂ g₃ gs z in
    let c : State = resume e.w' a.w' in
    let sent : Sent n o.w' g₃ buf (sendto stat junk f n fd buf (length buf) c) =
      sendto-Sent stat junk fuel n c o.w' fd (client_idx cp sp) g₃ buf s
        (resolve-client c fd z.fds.1 ∙ ap (λ i. done (i, c)) e.fd_entry)
        (ap₂ (λ x y. ring_for stat junk f x y c) lc rc ∙ o.returns)
        (blank stat stat' junk f v w frees lfd fd sp cp g₁ g₂ g₃ gs z) fits in
    let w₂ : State = record o.w' { rings = update o.w'.rings (ring_key g₃) sent.rb' } in
    let d : State = resume a.w' w₂ in
    let g = found stat stat' junk f v w frees lfd fd sp cp g₁ g₂ g₃ gs z sent.rb' in
    let (v₃, received) =
      recvfrom-buf stat' junk fuel n d (record d { rings = g.rings'; rb_memo = g.memo' }) nfd g₃ len
        sent.rb' buf s
        (resolve-server d nfd (omega (arith, z.ports.2)) (omega (arith, z.ports.3, z.ports.1)))
        (ap₂ (λ x y. ring_for stat' junk f x y d) rs ls ∙ g.returns)
        (same_ring stat stat' junk f v w frees lfd fd sp cp g₁ g₂ g₃ gs z sent.rb') sent.quiet
        sent.holds some_bytes wants int in
    (
      bound stat stat' junk f v w frees lfd fd sp cp g₁ g₂ g₃ gs z,
      e.w',
      a.w',
      w₂,
      v₃,
      bind-free stat' v lfd sp z.tables.0 z.ports.1 z.closed,
      e.returns,
      accepts stat stat' junk f v w frees lfd fd sp cp g₁ g₂ g₃ gs z,
      sent.returns,
      received,
    )
