-- ===== src/Ngrok/Session/Failures.antt =====
-- The task of ngrok/src/session.rs when something goes wrong: a lost transport, a bad header, and a
-- labeled tunnel that the service gives another id.
use Prim.Native.String.{String}
use ngrok_rs.Common.{
  ℕ, suc, ◌≡◌, refl, subst, sym, ◌∙◌, [], Option, none, some, Result, ok, err, Poll, ready, pending,
  arith,
}
use ngrok_rs.Common.Names.{get, delete, get-delete, Distinct, AllValues}
use ngrok_rs.Common.Integers.{negsuc, IsI64}
use ngrok_rs.Ngrok.Io.{AcceptError, Failure, raised, panicked, OnReturn, OnReturn-self}
use ngrok_rs.Ngrok.Proto.{proxy_req}
use ngrok_rs.Ngrok.Proto.Header.{read_from_stream-negative}
use ngrok_rs.Ngrok.Rpc.Accept as Accept
use ngrok_rs.Ngrok.Session.{BoundTunnel, TunnelConns, SessionInner, SessionIo}
use ngrok_rs.Ngrok.Session.Incoming.{
  Served, Task, conn_of, sent, give, route, accepted, accept_one, try_reconnect, running, finished,
  reconnected, turned, accept_incoming,
}
use ngrok_rs.Ngrok.Session.Rebinding.{IsEndpoint, try_reconnect-get}

-- Every tunnel of the second table is one of the first, under the same id.
abbrev pub Within : TunnelConns → TunnelConns → Type 0
Within old new = (id : String) (tun : BoundTunnel) → get new id ≡ some tun → get old id ≡ some tun

Within-delete : (tunnels : TunnelConns) (id : String) → Within tunnels (delete tunnels id)
Within-delete tunnels id other tun e = ground (arith, get-delete tunnels id other)

-- After a turn: the tunnels are among those before it, or the task is over and has none.
abbrev pub Kept :
    {State : Type 0} → SessionInner → State × Poll (Result (Failure AcceptError) Task) → Type 0
Kept inner (state, pending) = Unit
Kept inner (state, ready (err e)) = Unit
Kept inner (state, ready (ok (running inner' incoming))) = Within inner.tunnels inner'.tunnels
Kept inner (state, ready (ok (finished inner'))) = inner'.tunnels ≡ []

module _ {State Cause : Type 0} (lib : SessionIo State Cause) where
  open lib use {rpc_io, accept_io, send, retry}

  -- A stream of the proxy type whose header announces a negative length panics the task, which
  -- then neither accepts nor reconnects.
  pub accept_incoming-negative :
      (rounds incoming stream n : ℕ) (inner : SessionInner) (first taken last : State)
      → accept_io.accept_typed incoming first ≡ (taken, ok (proxy_req, stream))
      → accept_io.header_io.read_i64_le stream taken ≡ (last, ok (negsuc n))
      → IsI64 (negsuc n)
      → accept_incoming lib (suc rounds) inner incoming first ≡ (last, ready (err panicked))
  unfolding accept_incoming accept_one Accept.accept Accept.accept_round Accept.match_typ
  accept_incoming-negative rounds incoming stream n inner first taken last e h i =
      rw (e, read_from_stream-negative accept_io.header_io stream taken last n i h)

  abbrev KeptServed : SessionInner → Served State → Type 0
  KeptServed inner (state, pending) = Unit
  KeptServed inner (state, ready (err e)) = Unit
  KeptServed inner (state, ready (ok inner')) = Within inner.tunnels inner'.tunnels

  sent-Kept :
      (inner : SessionInner) (id : String) (p : State × Result (Unit {0}) (Unit {0}))
      → KeptServed inner (sent lib inner id p)
  sent-Kept inner id (s, ok u) = λ other tun e. e
  sent-Kept inner id (s, err u) = Within-delete inner.tunnels id

  give-Kept :
      (inner : SessionInner) (conn : Accept.TunnelStream) (state : State) (tun : Option BoundTunnel)
      → KeptServed inner (give lib inner conn state tun)
  give-Kept inner conn state none = λ other tun e. e
  give-Kept inner conn state (some tun) =
      sent-Kept inner conn.header.id (send tun.tx (ok (conn_of lib conn)) state)

  accepted-Kept :
      (inner : SessionInner)
      (p : State × Poll (Result (Failure (Accept.AcceptError Cause)) Accept.TunnelStream))
      → KeptServed inner (accepted lib inner p)
  unfolding route
  accepted-Kept inner (s, pending) = tt
  accepted-Kept inner (s, ready (ok conn)) =
      give-Kept inner conn s (get inner.tunnels conn.header.id)
  accepted-Kept inner (s, ready (err (raised (Accept.transport error)))) = tt
  accepted-Kept inner (s, ready (err (raised (Accept.header error)))) = λ other tun e. e
  accepted-Kept inner (s, ready (err (raised (Accept.invalid_type t)))) = λ other tun e. e
  accepted-Kept inner (s, ready (err panicked)) = tt

  reconnected-Kept :
      (inner : SessionInner) (p : State × Result (Failure AcceptError) (SessionInner × ℕ))
      → OnReturn (λ s (r : SessionInner × ℕ). Within inner.tunnels r.0.tunnels) p
      → Kept inner (reconnected lib inner p)
  reconnected-Kept inner (s, ok (inner', incoming)) h = h
  reconnected-Kept inner (s, err (raised error)) h = refl
  reconnected-Kept inner (s, err panicked) h = tt

  turned-Kept :
      (inner : SessionInner) (incoming : ℕ) (p : Served State)
      → ((s : State)
          → OnReturn
              (λ s (r : SessionInner × ℕ). Within inner.tunnels r.0.tunnels)
              (retry (try_reconnect lib inner) s))
      → KeptServed inner p
      → Kept inner (turned lib incoming inner p)
  turned-Kept inner incoming (s, pending) h k = tt
  turned-Kept inner incoming (s, ready (ok inner')) h k = k
  turned-Kept inner incoming (s, ready (err (raised error))) h k =
      reconnected-Kept inner (retry (try_reconnect lib inner) s) (h s)
  turned-Kept inner incoming (s, ready (err panicked)) h k = tt

  -- For tunnels of endpoints, and retries that answer as one of their attempts does: a turn of the
  -- task leaves the session with no tunnel that it did not have under the same id, whether a
  -- connection was accepted or the session reconnected, and the task ends with no tunnels at all.
  pub accept_incoming-Kept :
      (rounds incoming : ℕ) (inner : SessionInner) (first : State)
      → ((s : State)
          → (attempt : State) × (retry (try_reconnect lib inner) s
              ≡ try_reconnect lib inner attempt))
      → AllValues IsEndpoint inner.tunnels
      → Distinct inner.tunnels
      → Kept inner (accept_incoming lib rounds inner incoming first)
  unfolding accept_incoming accept_one
  accept_incoming-Kept rounds incoming inner first r a d =
      let P : State → SessionInner × ℕ → Type 0 = λ s p. Within inner.tunnels p.0.tunnels in
      turned-Kept inner incoming (accept_one lib rounds incoming inner first)
        (λ s.
          let (attempt, e) = r s in
          subst (OnReturn P) (sym e) (
            OnReturn-self P (try_reconnect lib inner attempt)
              (λ s' p h id tun g. sym (try_reconnect-get lib inner attempt s' p a d h id) ∙ g)))
        (accepted-Kept inner (Accept.accept accept_io rounds incoming first))
