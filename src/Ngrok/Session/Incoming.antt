-- ===== src/Ngrok/Session/Incoming.antt =====
-- The task of ngrok/src/session.rs that accepts connections and reconnects: `accept_one`,
-- `try_reconnect` and `accept_incoming`.
use Prim.Native.String.{String}
use ngrok_rs.Common.{
  ℕ, if◌then◌else◌, [], ◌∷◌, Option, none, some, Result, ok, err, Poll, ready, pending,
}
use ngrok_rs.Common.Names.{same, get, set, delete}
use ngrok_rs.Errors.{Error}
use ngrok_rs.Ngrok.Io.{Async, AcceptError, Failure, raised, panicked, ◌>>=◌, return, map_err}
use ngrok_rs.Ngrok.Config.{unwrap_or}
use ngrok_rs.Ngrok.Rpc.{listen, listen_label}
use ngrok_rs.Ngrok.Rpc.Accept as Accept
use ngrok_rs.Ngrok.Session.{
  BoundTunnel, Conn, IpAddr, SocketAddr, TunnelConns, SessionInner, SessionIo,
}
use ngrok_rs.Ngrok.Session.Connect.{connect_inner}
use ngrok_rs.Ngrok.Session.Tunnels.{unwrap}

-- `"0.0.0.0:0"`
abbrev pub unspecified : SocketAddr
unspecified = record { ip = IpAddr.v4 0; port = 0 }

-- The value of `accept_one`: the inner session after it.
abbrev pub Served : Type 0 → Type 0
Served State = State × Poll (Result (Failure AcceptError) SessionInner)

-- Where the task is after a turn: in its loop, or after it.
pub data Task : Type 0 where
  running : SessionInner → ℕ → Task
  finished : SessionInner → Task

module _ {State Cause : Type 0} (lib : SessionIo State Cause) where
  open lib use {rpc_io, accept_io, send, parse_addr, retry}

  abbrev pub conn_of : Accept.TunnelStream → Conn
  conn_of conn = record {
    remote_addr = unwrap_or (parse_addr conn.header.client_addr) unspecified;
    stream = conn.stream;
  }

  -- The removal of a tunnel whose receiver is gone
  abbrev pub sent : SessionInner → String → State × Result (Unit {0}) (Unit {0}) → Served State
  sent inner id (state, ok u) = (state, ready (ok inner))
  sent inner id (state, err u) =
      (state, ready (ok (record inner { tunnels = delete inner.tunnels id })))

  abbrev pub give : SessionInner → Accept.TunnelStream → State → Option BoundTunnel → Served State
  give inner conn state none = (state, ready (ok inner))
  give inner conn state (some tun) =
      sent inner conn.header.id (send tun.tx (ok (conn_of conn)) state)

  -- A connection is given to the tunnel of its header.
  unfoldable pub route : SessionInner → Accept.TunnelStream → State → Served State
  route inner conn state = give inner conn state (get inner.tunnels conn.header.id)

  abbrev pub accepted :
      SessionInner
      → State × Poll (Result (Failure (Accept.AcceptError Cause)) Accept.TunnelStream)
      → Served State
  accepted inner (state, pending) = (state, pending)
  accepted inner (state, ready (ok conn)) = route inner conn state
  accepted inner (state, ready (err (raised (Accept.transport error)))) =
      (state, ready (err (raised (AcceptError.transport error))))
  accepted inner (state, ready (err (raised (Accept.header error)))) = (state, ready (ok inner))
  accepted inner (state, ready (err (raised (Accept.invalid_type t)))) = (state, ready (ok inner))
  accepted inner (state, ready (err panicked)) = (state, ready (err panicked))

  -- `accept_one`, where `accept` has so many rounds.
  unfoldable pub accept_one : ℕ → ℕ → SessionInner → State → Served State
  unfolding Accept.accept route
  accept_one rounds incoming inner state =
      accepted inner (Accept.accept accept_io rounds incoming state)

  -- The turn of the loop of `try_reconnect` for one tunnel: the key that it has in the new table.
  unfoldable pub rebind : ℕ → String → BoundTunnel → Async State AcceptError String
  unfolding listen listen_label
  rebind client id tun =
      if same tun.proto ""
      then (do
        resp ←
            map_err (λ e. AcceptError.transport Error.error_unknown)
              (listen_label rpc_io client tun.labels tun.extra.metadata tun.forwards_to)
        return (if same resp.id "" then id else resp.id))
      else (do
        opts ← unwrap tun.opts
        resp ←
            map_err (λ e. AcceptError.transport Error.error_unknown)
              (listen rpc_io client tun.proto opts tun.extra id tun.forwards_to)
        return id)

  unfoldable pub rebind_all : ℕ → TunnelConns → TunnelConns → Async State AcceptError TunnelConns
  unfolding rebind
  rebind_all client [] new_tunnels = return new_tunnels
  rebind_all client ((id, tun) ∷ old_tunnels) new_tunnels = do
    key ← rebind client id tun
    rebind_all client old_tunnels (set new_tunnels key tun)

  -- `try_reconnect`, with the inner session that it stores.
  unfoldable pub try_reconnect : SessionInner → Async State AcceptError (SessionInner × ℕ)
  unfolding connect_inner rebind_all
  try_reconnect old_inner = do
    (new_inner, new_incoming) ←
        map_err (λ e. AcceptError.transport Error.session_closed)
          (connect_inner lib old_inner.builder)
    new_tunnels ← rebind_all new_inner.client old_inner.tunnels new_inner.tunnels
    return (record new_inner { tunnels = new_tunnels }, new_incoming)

  -- The `drain` after the loop
  unfoldable pub drain : TunnelConns → AcceptError → State → State
  drain [] error state = state
  drain ((id, tun) ∷ tunnels) error state = drain tunnels error (send tun.tx (err error) state).0

  abbrev pub reconnected :
      SessionInner
      → State × Result (Failure AcceptError) (SessionInner × ℕ)
      → State × Poll (Result (Failure AcceptError) Task)
  reconnected inner (state, ok (new_inner, new_incoming)) =
      (state, ready (ok (running new_inner new_incoming)))
  reconnected inner (state, err (raised error)) =
      (drain inner.tunnels error state, ready (ok (finished (record inner { tunnels = [] }))))
  reconnected inner (state, err panicked) = (state, ready (err panicked))

  abbrev pub turned :
      ℕ → SessionInner → Served State → State × Poll (Result (Failure AcceptError) Task)
  turned incoming inner (state, pending) = (state, pending)
  turned incoming inner (state, ready (ok inner')) = (state, ready (ok (running inner' incoming)))
  turned incoming inner (state, ready (err (raised error))) =
      reconnected inner (retry (try_reconnect inner) state)
  turned incoming inner (state, ready (err panicked)) = (state, ready (err panicked))

  -- One turn of the loop of `accept_incoming`, and what follows the loop.
  unfoldable pub accept_incoming :
      ℕ → SessionInner → ℕ → State → State × Poll (Result (Failure AcceptError) Task)
  unfolding accept_one try_reconnect drain
  accept_incoming rounds inner incoming state =
      turned incoming inner (accept_one rounds incoming inner state)
