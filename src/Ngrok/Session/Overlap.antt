-- ===== src/Ngrok/Session/Overlap.antt =====
-- `start_tunnel` of ngrok/src/session.rs while the session reconnects. Both load the same inner
-- session. `start_tunnel` waits for its table while `try_reconnect` reads it, and inserts into it
-- afterwards; what `try_reconnect` stores has a table of its own.
use Prim.Native.String.{String}
use ngrok_rs.Common.{ℕ, ◌≡◌, ap, ◌∙◌, none, some, ok, ready, arith}
use ngrok_rs.Common.Names.{get, Distinct, AllValues}
use ngrok_rs.Ngrok.Config.{TunnelConfig}
use ngrok_rs.Ngrok.Rpc.Accept as Accept
use ngrok_rs.Ngrok.Session.{BoundTunnel, SessionInner, SessionIo}
use ngrok_rs.Ngrok.Session.Tunnels.{TunnelInner, start_tunnel}
use ngrok_rs.Ngrok.Session.Incoming.{accept_one, try_reconnect}
use ngrok_rs.Ngrok.Session.Routing.{start_tunnel-get, accept_one-Routed}
use ngrok_rs.Ngrok.Session.Rebinding.{IsEndpoint, try_reconnect-get}
use text.Mathlib.TextEquality.{eq_iff}

module _ {State Cause : Type 0} (lib : SessionIo State Cause) where
  open lib use {accept_io}

  -- In this session a connection for this tunnel is passed over, and the session stays as it is.
  abbrev pub Drops : SessionInner → String → Type 0
  Drops inner id =
      (rounds incoming : ℕ) (conn : Accept.TunnelStream) (first last : State)
      → Accept.accept accept_io rounds incoming first ≡ (last, ready (ok conn))
      → conn.header.id ≡ id
      → accept_one lib rounds incoming inner first ≡ (last, ready (ok inner))

  absent-Drops : (inner : SessionInner) (id : String) → get inner.tunnels id ≡ none → Drops inner id
  absent-Drops inner id e rounds incoming conn first last h named =
      (accept_one-Routed lib rounds incoming inner conn first last h).0
        (ap (λ n. get inner.tunnels n) named ∙ e)

  -- A start and a reconnect of a session whose tunnels are all of endpoints, where both load the
  -- same inner session, which has no tunnel under the id that the service gives the new one, and the
  -- reconnect reads the table before the start inserts into it. If both succeed, the caller of the
  -- start has the tunnel, and the inner session that was loaded has it in its table. But in the
  -- inner session that the reconnect stores no tunnel has its id: every connection for the tunnel
  -- that is accepted there is dropped.
  pub start_tunnel-lost :
      (old : SessionInner) (cfg : TunnelConfig) (first mid last : State)
      (started new : SessionInner) (tunnel : TunnelInner) (incoming : ℕ)
      → AllValues IsEndpoint old.tunnels
      → Distinct old.tunnels
      → get old.tunnels tunnel.id ≡ none
      → start_tunnel lib old cfg first ≡ (mid, ok (started, tunnel))
      → try_reconnect lib old mid ≡ (last, ok (new, incoming))
      → ((bound : BoundTunnel) × ((get started.tunnels tunnel.id ≡ some bound)
            × (bound.tx ≡ tunnel.incoming)))
        × (get new.tunnels tunnel.id ≡ none)
        × Drops new tunnel.id
  start_tunnel-lost old cfg first mid last started new tunnel incoming endpoints distinct free s r =
      let (bound, (agree, made, entries)) =
        start_tunnel-get lib old cfg first mid (started, tunnel) s in
      let gone : get new.tunnels tunnel.id ≡ none =
        try_reconnect-get lib old mid last (new, incoming) endpoints distinct r tunnel.id ∙ free in
      (
        (bound, (entries tunnel.id ∙ ground (arith, eq_iff tunnel.id tunnel.id), agree.0)),
        gone,
        absent-Drops new tunnel.id gone,
      )
