-- ===== src/Ngrok/Session/Life.antt =====
-- What a session of ngrok/src/session.rs can become, by the calls that change it.
use Prim.Native.String.{String}
use ngrok_rs.Common.{
  ℕ, ◌≡◌, subst, sym, [], Option, none, some, Result, ok, err, Poll, ready, pending,
}
use ngrok_rs.Common.Names.{
  get, delete, Distinct, Distinct-set, Distinct-delete, AllValues, AllValues-set, AllValues-delete,
  AllValues-get,
}
use ngrok_rs.Ngrok.Io.{Failure, raised, panicked, OnReturn-ok}
use ngrok_rs.Ngrok.Config.{TunnelConfig}
use ngrok_rs.Ngrok.Rpc.Accept as Accept
use ngrok_rs.Ngrok.Session.{BoundTunnel, TunnelConns, SessionBuilder, SessionInner, SessionIo}
use ngrok_rs.Ngrok.Session.Connect.{connect_inner}
use ngrok_rs.Ngrok.Session.Heartbeats.{connect_inner-ok}
use ngrok_rs.Ngrok.Session.Tunnels.{TunnelInner, start_tunnel, close_tunnel}
use ngrok_rs.Ngrok.Session.Incoming.{
  Served, conn_of, sent, give, route, accepted, accept_one, try_reconnect,
}
use ngrok_rs.Ngrok.Session.Routing.{HasOpts, start_tunnel-get, close_tunnel-get}
use ngrok_rs.Ngrok.Session.Rebinding.{rebind_all-AllValues, OnReturn-reconnect}

-- The table has one entry for an id, and every tunnel of it can be bound again.
abbrev pub IsTable : TunnelConns → Type 0
IsTable tunnels = Distinct tunnels × AllValues HasOpts tunnels

module _ {State Cause : Type 0} (lib : SessionIo State Cause) where
  open lib use {accept_io, send}

  pub data Step : SessionInner → SessionInner → Type 0 where
    starts :
        {inner inner' : SessionInner} (cfg : TunnelConfig) (first last : State)
        (tunnel : TunnelInner)
        → start_tunnel lib inner cfg first ≡ (last, ok (inner', tunnel))
        → Step inner inner'
    closes :
        {inner inner' : SessionInner} (id : String) (first last : State)
        → close_tunnel lib inner id first ≡ (last, ok inner')
        → Step inner inner'
    serves :
        {inner inner' : SessionInner} (rounds incoming : ℕ) (first last : State)
        → accept_one lib rounds incoming inner first ≡ (last, ready (ok inner'))
        → Step inner inner'
    reconnects :
        {inner inner' : SessionInner} (first last : State) (incoming : ℕ)
        → try_reconnect lib inner first ≡ (last, ok (inner', incoming))
        → Step inner inner'

  -- The sessions after `connect`
  pub data Live : SessionInner → Type 0 where
    connects :
        {inner : SessionInner} (builder : SessionBuilder) (first last : State) (incoming : ℕ)
        → connect_inner lib builder first ≡ (last, ok (inner, incoming))
        → Live inner
    steps : {inner inner' : SessionInner} → Live inner → Step inner inner' → Live inner'

  IsTable-of : (a b : SessionInner) → IsTable a.tunnels → a ≡ b → IsTable b.tunnels
  IsTable-of a b t e = subst (λ (i : SessionInner). IsTable i.tunnels) e t

  served-injective :
      (a b : SessionInner) {s last : State}
      → ◌≡◌ {A = Served State} (s, ready (ok a)) (last, ready (ok b))
      → a ≡ b
  served-injective a b e = cc

  sent-IsTable :
      (inner inner' : SessionInner) (id : String) (p : State × Result (Unit {0}) (Unit {0}))
      (last : State)
      → IsTable inner.tunnels
      → sent lib inner id p ≡ (last, ready (ok inner'))
      → IsTable inner'.tunnels
  sent-IsTable inner inner' id (s, ok u) last t h =
      IsTable-of inner inner' t (served-injective inner inner' h)
  sent-IsTable inner inner' id (s, err u) last (d, a) h =
      let closed : SessionInner = record inner { tunnels = delete inner.tunnels id } in
      IsTable-of closed inner'
        (Distinct-delete inner.tunnels id d, AllValues-delete HasOpts inner.tunnels id a)
        (served-injective closed inner' h)

  give-IsTable :
      (inner inner' : SessionInner) (conn : Accept.TunnelStream) (state last : State)
      (tun : Option BoundTunnel)
      → IsTable inner.tunnels
      → give lib inner conn state tun ≡ (last, ready (ok inner'))
      → IsTable inner'.tunnels
  give-IsTable inner inner' conn state last none t h =
      IsTable-of inner inner' t (served-injective inner inner' h)
  give-IsTable inner inner' conn state last (some tun) t h =
      sent-IsTable inner inner' conn.header.id (send tun.tx (ok (conn_of lib conn)) state) last t h

  accepted-IsTable :
      (inner inner' : SessionInner)
      (p : State × Poll (Result (Failure (Accept.AcceptError Cause)) Accept.TunnelStream))
      (last : State)
      → IsTable inner.tunnels
      → accepted lib inner p ≡ (last, ready (ok inner'))
      → IsTable inner'.tunnels
  unfolding route
  accepted-IsTable inner inner' (s, pending) last t h = cc
  accepted-IsTable inner inner' (s, ready (ok conn)) last t h =
      give-IsTable inner inner' conn s last (get inner.tunnels conn.header.id) t h
  accepted-IsTable inner inner' (s, ready (err (raised (Accept.transport error)))) last t h = cc
  accepted-IsTable inner inner' (s, ready (err (raised (Accept.header error)))) last t h =
      IsTable-of inner inner' t (served-injective inner inner' h)
  accepted-IsTable inner inner' (s, ready (err (raised (Accept.invalid_type y)))) last t h =
      IsTable-of inner inner' t (served-injective inner inner' h)
  accepted-IsTable inner inner' (s, ready (err panicked)) last t h = cc

  Step-IsTable :
      (inner inner' : SessionInner)
      → IsTable inner.tunnels
      → Step inner inner'
      → IsTable inner'.tunnels
  unfolding accept_one
  Step-IsTable inner inner' (d, a) (starts cfg first last tunnel h) =
      let (bound, ((tx, pr, la, fo, fw, me, opts), made, others)) =
        start_tunnel-get lib inner cfg first last (inner', tunnel) h in
      subst (λ (i : SessionInner). IsTable i.tunnels) (sym made)
        (
          Distinct-set inner.tunnels tunnel.id bound d,
          AllValues-set HasOpts inner.tunnels tunnel.id bound a opts,
        )
  Step-IsTable inner inner' (d, a) (closes id first last h) =
      let (made, others) = close_tunnel-get lib inner inner' id first last h in
      subst (λ (i : SessionInner). IsTable i.tunnels) (sym made)
        (Distinct-delete inner.tunnels id d, AllValues-delete HasOpts inner.tunnels id a)
  Step-IsTable inner inner' t (serves rounds incoming first last h) =
      accepted-IsTable inner inner' (Accept.accept accept_io rounds incoming first) last t h
  Step-IsTable inner inner' (d, a) (reconnects first last incoming h) =
      OnReturn-ok (λ (s : State) (p : SessionInner × ℕ). IsTable p.0.tunnels) h
        (OnReturn-reconnect lib (λ s p. IsTable p.0.tunnels) inner first
          (λ s last client incoming builder result e.
            let (a', d') =
              OnReturn-ok (λ (s : State) (r : TunnelConns). AllValues HasOpts r × Distinct r) e
                (rebind_all-AllValues lib HasOpts client inner.tunnels [] s a tt tt) in
            (d', a')))

  Live-IsTable : (inner : SessionInner) → Live inner → IsTable inner.tunnels
  Live-IsTable inner (connects builder first last incoming h) =
      let (lt, (s', (buf, (resp, (opened, replied, read, made))))) =
        connect_inner-ok lib builder first last (inner, incoming) h in
      subst (λ (i : SessionInner). IsTable i.tunnels) (sym made) (tt, tt)
  Live-IsTable inner (steps {inner = before} live step) =
      Step-IsTable before inner (Live-IsTable before live) step

  -- Whatever a connected session has been through, its table has one entry for an id, and a tunnel
  -- under an id has the options to be bound again, unless it is a labeled one.
  pub Live-table :
      (inner : SessionInner)
      → Live inner
      → Distinct inner.tunnels
        × ((id : String) (tun : BoundTunnel) → get inner.tunnels id ≡ some tun → HasOpts tun)
  Live-table inner live =
      let (d, a) = Live-IsTable inner live in
      (d, λ id tun e. AllValues-get HasOpts inner.tunnels id tun a e)
