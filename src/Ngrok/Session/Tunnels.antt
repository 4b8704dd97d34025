-- ===== src/Ngrok/Session/Tunnels.antt =====
-- `start_tunnel` and `close_tunnel` of ngrok/src/session.rs, for the inner session that they load,
-- and `TunnelInner` of ngrok/src/tunnel.rs. Both ends of a channel have the number of the channel.
use Prim.Native.String.{String}
use ngrok_rs.Common.{ℕ, if◌then◌else◌, [], Option, none, some, ok}
use ngrok_rs.Common.Names.{same, set, delete}
use ngrok_rs.Ngrok.Io.{Async, ◌>>=◌, return, panic}
use ngrok_rs.Ngrok.Proto.{Labels}
use ngrok_rs.Ngrok.Config.{TunnelConfig}
use ngrok_rs.Ngrok.Rpc.{RpcError, listen, listen_label, unlisten}
use ngrok_rs.Ngrok.Session.{BoundTunnel, SessionInner, SessionIo}

-- Without its handle of the session
pub record TunnelInner : Type 0 where
  pub id : String
  pub proto : String
  pub url : String
  pub labels : Labels
  pub forwards_to : String
  pub metadata : String
  pub incoming : ℕ

-- `opts.unwrap()`
abbrev pub unwrap : {State E A : Type 0} → Option A → Async State E A
unwrap none = panic
unwrap (some a) = return a

module _ {State Cause : Type 0} (lib : SessionIo State Cause) where
  open lib use {rpc_io, channel}

  -- A tunnel of an endpoint, with the id and the URL that the service gives it
  unfoldable pub start_endpoint :
      ℕ → TunnelConfig → ℕ → Async State (RpcError Cause) (TunnelInner × BoundTunnel)
  unfolding listen
  start_endpoint client cfg tx = do
    opts ← unwrap cfg.opts
    resp ← listen rpc_io client cfg.proto opts cfg.extra "" cfg.forwards_to
    return (
      record {
        id = resp.client_id;
        proto = resp.proto;
        url = resp.url;
        labels = [];
        forwards_to = cfg.forwards_to;
        metadata = cfg.extra.metadata;
        incoming = tx;
      },
      record {
        proto = resp.proto;
        opts = some resp.bind_opts;
        extra = record cfg.extra { token = resp.extra.token };
        labels = cfg.labels;
        forwards_to = cfg.forwards_to;
        tx = tx;
      },
    )

  unfoldable pub start_labeled :
      ℕ → TunnelConfig → ℕ → Async State (RpcError Cause) (TunnelInner × BoundTunnel)
  unfolding listen_label
  start_labeled client cfg tx = do
    resp ← listen_label rpc_io client cfg.labels cfg.extra.metadata cfg.forwards_to
    return (
      record {
        id = resp.id;
        proto = "";
        url = "";
        labels = cfg.labels;
        forwards_to = cfg.forwards_to;
        metadata = cfg.extra.metadata;
        incoming = tx;
      },
      record {
        extra = cfg.extra;
        proto = "";
        opts = none;
        forwards_to = cfg.forwards_to;
        labels = cfg.labels;
        tx = tx;
      },
    )

  -- `channel(64)`
  abbrev new_channel : {E : Type 0} → Async State E ℕ
  new_channel state = let (state', tx) = channel 64 state in (state', ok tx)

  abbrev pub start_either :
      ℕ → TunnelConfig → ℕ → Async State (RpcError Cause) (TunnelInner × BoundTunnel)
  start_either client cfg tx =
      if same cfg.proto "" then start_labeled client cfg tx else start_endpoint client cfg tx

  -- `Session::start_tunnel`, which changes the table of the inner session.
  unfoldable pub start_tunnel :
      SessionInner → TunnelConfig → Async State (RpcError Cause) (SessionInner × TunnelInner)
  unfolding start_endpoint start_labeled
  start_tunnel inner cfg = do
    tx ← new_channel
    (tunnel, bound) ← start_either inner.client cfg tx
    return (record inner { tunnels = set inner.tunnels tunnel.id bound }, tunnel)

  -- `Session::close_tunnel`
  unfoldable pub close_tunnel : SessionInner → String → Async State (RpcError Cause) SessionInner
  unfolding unlisten
  close_tunnel inner id = do
    resp ← unlisten rpc_io inner.client id
    return (record inner { tunnels = delete inner.tunnels id })
