-- ===== src/Ngrok/Session/Routing.antt =====
-- The table of tunnels of ngrok/src/session.rs: what starting and closing a tunnel do to it, and
-- where a connection goes.
use Prim.Native.String.{String}
use ngrok_rs.Common.{
  ℕ, ◌≡◌, refl, subst, sym, ◌⊎◌, inl, inr, if◌then◌else◌, Option, none, some, Result, ok, err, Poll,
  ready, pending,
}
use ngrok_rs.Common.Names.{same, get, set, delete, get-set, get-delete}
use ngrok_rs.Errors.{Error}
use ngrok_rs.Ngrok.Io.{
  AcceptError, Failure, raised, panicked, OnReturn, OnReturn-bind, OnReturn-if, OnReturn-ok,
}
use ngrok_rs.Ngrok.Proto.Endpoints.{BindOpts}
use ngrok_rs.Ngrok.Config.{TunnelConfig}
use ngrok_rs.Ngrok.Rpc.{listen, listen_label, unlisten}
use ngrok_rs.Ngrok.Rpc.Accept as Accept
use ngrok_rs.Ngrok.Session.{BoundTunnel, SessionInner, SessionIo}
use ngrok_rs.Ngrok.Session.Tunnels.{
  TunnelInner, unwrap, start_endpoint, start_labeled, start_either, start_tunnel, close_tunnel,
}
use ngrok_rs.Ngrok.Session.Incoming.{Served, conn_of, sent, give, route, accepted, accept_one}

-- A tunnel has options unless it is a labeled one.
abbrev pub HasOpts : BoundTunnel → Type 0
HasOpts tun = (tun.proto ≡ "") ⊎ ((opts : BindOpts) × (tun.opts ≡ some opts))

-- Both halves of a tunnel agree.
abbrev pub Agree : TunnelConfig → TunnelInner → BoundTunnel → Type 0
Agree cfg tunnel bound =
    (bound.tx ≡ tunnel.incoming)
    × (bound.proto ≡ tunnel.proto)
    × (bound.labels ≡ cfg.labels)
    × (bound.forwards_to ≡ cfg.forwards_to)
    × (tunnel.forwards_to ≡ cfg.forwards_to)
    × (bound.extra.metadata ≡ tunnel.metadata)
    × HasOpts bound

-- What starting a tunnel does to a session.
abbrev pub Started : SessionInner → TunnelConfig → SessionInner × TunnelInner → Type 0
Started inner cfg (inner', tunnel) =
    (bound : BoundTunnel) × (Agree cfg tunnel bound
      × (inner' ≡ record inner { tunnels = set inner.tunnels tunnel.id bound })
      × ((other : String)
          → get inner'.tunnels other
            ≡ (if same tunnel.id other then some bound else get inner.tunnels other)))

module _ {State Cause : Type 0} (lib : SessionIo State Cause) where
  open lib use {rpc_io, accept_io, channel, send}

  start_either-Agree :
      (client : ℕ) (cfg : TunnelConfig) (tx : ℕ) (state : State)
      → OnReturn
          (λ (s : State) (p : TunnelInner × BoundTunnel). Agree cfg p.0 p.1 × (p.1.tx ≡ tx))
          (start_either lib client cfg tx state)
  unfolding start_endpoint start_labeled
  start_either-Agree client cfg tx state =
      let P : State → TunnelInner × BoundTunnel → Type 0 =
        λ s p. Agree cfg p.0 p.1 × (p.1.tx ≡ tx) in
      OnReturn-if P (same cfg.proto "") (start_labeled lib client cfg tx)
        (start_endpoint lib client cfg tx) state
        (λ e.
          OnReturn-bind P
            (listen_label rpc_io client cfg.labels cfg.extra.metadata cfg.forwards_to state) _
            (λ s resp r. ((refl, refl, refl, refl, refl, refl, inl refl), refl)))
        (λ e. OnReturn-bind P (unwrap cfg.opts state) _ (λ s opts u.
          OnReturn-bind P (listen rpc_io client cfg.proto opts cfg.extra "" cfg.forwards_to s) _
            (λ s' resp r.
              ((refl, refl, refl, refl, refl, refl, inr (resp.bind_opts, refl)), refl))))

  -- A tunnel that is started is in the table under its id, with the sender of the channel that the
  -- tunnel receives from and with what its configuration says; it has options unless it is a
  -- labeled one, and no other entry of the session changes.
  pub start_tunnel-get :
      (inner : SessionInner) (cfg : TunnelConfig) (first last : State)
      (started : SessionInner × TunnelInner)
      → start_tunnel lib inner cfg first ≡ (last, ok started)
      → Started inner cfg started
  unfolding start_tunnel
  start_tunnel-get inner cfg first last started h =
      let P : State → SessionInner × TunnelInner → Type 0 = λ s p. Started inner cfg p in
      let (s, tx) = channel 64 first in
      OnReturn-ok P h (
        OnReturn-bind P (start_either lib inner.client cfg tx s) _ (λ s' p e.
          let (agree, t) =
            OnReturn-ok
              (λ (s : State) (p : TunnelInner × BoundTunnel). Agree cfg p.0 p.1 × (p.1.tx ≡ tx)) e
              (start_either-Agree inner.client cfg tx s) in
          (p.1, (agree, refl, λ other. get-set inner.tunnels p.0.id other p.1))))

  -- A tunnel that is closed is no longer in the table; no other entry of the session changes.
  pub close_tunnel-get :
      (inner inner' : SessionInner) (id : String) (first last : State)
      → close_tunnel lib inner id first ≡ (last, ok inner')
      → (inner' ≡ record inner { tunnels = delete inner.tunnels id })
        × ((other : String)
            → get inner'.tunnels other ≡ (if same id other then none else get inner.tunnels other))
  unfolding close_tunnel
  close_tunnel-get inner inner' id first last h =
      let P : State → SessionInner → Type 0 = λ s inner'.
        (inner' ≡ record inner { tunnels = delete inner.tunnels id })
        × ((other : String)
            → get inner'.tunnels other
              ≡ (if same id other then none else get inner.tunnels other)) in
      OnReturn-ok P h (
        OnReturn-bind P (unlisten rpc_io inner.client id first) _
          (λ s resp e. (refl, λ other. get-delete inner.tunnels id other)))

  -- What becomes of a connection for the tunnel of this id.
  abbrev pub Routed : SessionInner → Accept.TunnelStream → State → Served State → Type 0
  Routed inner conn mid served =
      (get inner.tunnels conn.header.id ≡ none → served ≡ (mid, ready (ok inner)))
      × ((tun : BoundTunnel) (last : State)
          → get inner.tunnels conn.header.id ≡ some tun
          → send tun.tx (ok (conn_of lib conn)) mid ≡ (last, ok tt)
          → served ≡ (last, ready (ok inner)))
      × ((tun : BoundTunnel) (last : State)
          → get inner.tunnels conn.header.id ≡ some tun
          → send tun.tx (ok (conn_of lib conn)) mid ≡ (last, err tt)
          → (inner' : SessionInner) × ((served ≡ (last, ready (ok inner')))
              × ((other : String)
                  → get inner'.tunnels other
                    ≡ (if same conn.header.id other then none else get inner.tunnels other))))

  route-Routed :
      (inner : SessionInner) (conn : Accept.TunnelStream) (mid : State)
      → Routed inner conn mid (route lib inner conn mid)
  unfolding route
  route-Routed inner conn mid = (
    λ e. rw e,
    λ tun last e s. rw (e, s),
    λ tun last e s. (
      record inner { tunnels = delete inner.tunnels conn.header.id },
      (rw (e, s), λ other. get-delete inner.tunnels conn.header.id other),
    ),
  )

  -- A connection goes to the tunnel that the header names, and to no other: without such a tunnel
  -- it is dropped, and where the tunnel no longer receives, that tunnel and no other is removed
  -- from the table.
  pub accept_one-Routed :
      (rounds incoming : ℕ) (inner : SessionInner) (conn : Accept.TunnelStream) (first mid : State)
      → Accept.accept accept_io rounds incoming first ≡ (mid, ready (ok conn))
      → Routed inner conn mid (accept_one lib rounds incoming inner first)
  unfolding accept_one
  accept_one-Routed rounds incoming inner conn first mid h =
      subst (λ p. Routed inner conn mid (accepted lib inner p)) (sym h)
        (route-Routed inner conn mid)

  sent-ok :
      (inner : SessionInner) (id : String) (p : State × Result (Unit {0}) (Unit {0})) (last : State)
      (e : AcceptError)
      → sent lib inner id p ≡ (last, ready (err (raised e)))
      → ⊥
  sent-ok inner id (s, ok u) last e h = cc
  sent-ok inner id (s, err u) last e h = cc

  give-ok :
      (inner : SessionInner) (conn : Accept.TunnelStream) (state : State) (tun : Option BoundTunnel)
      (last : State) (e : AcceptError)
      → give lib inner conn state tun ≡ (last, ready (err (raised e)))
      → ⊥
  give-ok inner conn state none last e h = cc
  give-ok inner conn state (some tun) last e h =
      sent-ok inner conn.header.id (send tun.tx (ok (conn_of lib conn)) state) last e h

  route-ok :
      (inner : SessionInner) (conn : Accept.TunnelStream) (state last : State) (e : AcceptError)
      → route lib inner conn state ≡ (last, ready (err (raised e)))
      → ⊥
  unfolding route
  route-ok inner conn state last e h =
      give-ok inner conn state (get inner.tunnels conn.header.id) last e h

  accepted-raised :
      (inner : SessionInner)
      (p : State × Poll (Result (Failure (Accept.AcceptError Cause)) Accept.TunnelStream))
      (last : State) (e : AcceptError)
      → accepted lib inner p ≡ (last, ready (err (raised e)))
      → (error : Error) × ((e ≡ AcceptError.transport error)
          × (p ≡ (last, ready (err (raised (Accept.transport error))))))
  accepted-raised inner (s, pending) last e h = cc
  accepted-raised inner (s, ready (ok conn)) last e h = elim (route-ok inner conn s last e h) [ ]
  accepted-raised inner (s, ready (err (raised (Accept.transport error)))) last e h =
      (error, (cc, cc))
  accepted-raised inner (s, ready (err (raised (Accept.header error)))) last e h = cc
  accepted-raised inner (s, ready (err (raised (Accept.invalid_type t)))) last e h = cc
  accepted-raised inner (s, ready (err panicked)) last e h = cc

  -- Accepting a connection raises an error only where the transport did, and it is that one: a bad
  -- header or a stream of an unknown type leaves the session as it is.
  pub accept_one-raised :
      (rounds incoming : ℕ) (inner : SessionInner) (first last : State) (e : AcceptError)
      → accept_one lib rounds incoming inner first ≡ (last, ready (err (raised e)))
      → (error : Error) × ((e ≡ AcceptError.transport error)
          × (Accept.accept accept_io rounds incoming first
              ≡ (last, ready (err (raised (Accept.transport error))))))
  unfolding accept_one
  accept_one-raised rounds incoming inner first last e h =
      accepted-raised inner (Accept.accept accept_io rounds incoming first) last e h
