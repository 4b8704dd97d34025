-- ===== src/Ngrok/Session.antt =====
-- ngrok/src/session.rs: a session, how it is built and connected, and its table of tunnels.
pub mod Connect
pub mod Tunnels
pub mod Incoming
pub mod Routing
pub mod Rebinding
pub mod Heartbeats
pub mod Life
pub mod Failures
pub mod Renamed
pub mod Overlap
pub mod Peer
mod Runs
use Prim.Native.String.{String}
use ngrok_rs.Common.{ℕ, List, [], Option, none, some, Result}
use ngrok_rs.Ngrok.Io.{Async, IoError, AcceptError}
use ngrok_rs.Ngrok.Proto.{BindExtra, Labels, SecretString, secret_from}
use ngrok_rs.Ngrok.Proto.Endpoints.{BindOpts}
use ngrok_rs.Ngrok.Rpc.{RpcIo, RpcError}
use ngrok_rs.Ngrok.Rpc.Accept.{AcceptIo}
use ngrok_rs.Heartbeat.{HeartbeatConfig}

-- An address of the std library.
pub data IpAddr : Type 0 where
  v4 v6 : ℕ → IpAddr

pub record SocketAddr : Type 0 where
  pub ip : IpAddr
  pub port : ℕ

-- `Conn` of ngrok/src/tunnel.rs, with its stream's number
pub record Conn : Type 0 where
  pub remote_addr : SocketAddr
  pub stream : ℕ

-- The sender is the number of its channel.
pub record BoundTunnel : Type 0 where
  pub proto : String
  pub opts : Option BindOpts
  pub extra : BindExtra
  pub labels : Labels
  pub forwards_to : String
  pub tx : ℕ

abbrev pub TunnelConns : Type 0
TunnelConns = List (String × BoundTunnel)

-- The connect callback and the TLS configuration are named by numbers. The intervals are in
-- nanoseconds.
pub record SessionBuilder : Type 0 where
  pub authtoken : Option SecretString
  pub metadata : Option String
  pub heartbeat_interval : Option ℕ
  pub heartbeat_tolerance : Option ℕ
  pub server_addr : String
  pub tls_config : ℕ
  pub connect_callback : ℕ
  pub cookie : Option SecretString
  pub id : Option String

-- The client is the number of its muxado session.
pub record SessionInner : Type 0 where
  pub client : ℕ
  pub tunnels : TunnelConns
  pub builder : SessionBuilder

pub data ConnectError (Cause : Type 0) : Type 0 where
  invalid_heartbeat_interval invalid_heartbeat_tolerance : ℕ → ConnectError Cause
  invalid_server_port invalid_server_name : Cause → ConnectError Cause
  tcp tls : IoError Cause → ConnectError Cause
  start : IoError Cause → ConnectError Cause
  auth : RpcError Cause → ConnectError Cause

-- What a session asks of its surroundings: the requests and the accepted streams of a muxado session,
-- the call of a connect callback with an address and a TLS configuration, the start of a muxado
-- session with its heartbeat on a connection, the retries of an attempt to reconnect, the
-- channels of the tunnels, and the machine.
pub record SessionIo (State Cause : Type 0) : Type 0 where
  pub rpc_io : RpcIo State Cause
  pub accept_io : AcceptIo State Cause
  pub call : ℕ → String → ℕ → Async State (ConnectError Cause) ℕ
  pub start : ℕ → HeartbeatConfig → Async State (IoError Cause) ℕ
  pub retry :
      Async State AcceptError (SessionInner × ℕ) → Async State AcceptError (SessionInner × ℕ)
  pub channel : ℕ → State → State × ℕ
  pub send : ℕ → Result AcceptError Conn → State → State × Result (Unit {0}) (Unit {0})
  pub parse_addr : String → Option SocketAddr
  pub os : String
  pub arch : String
  pub pkg_version : String

-- `SessionBuilder::default()`, for the TLS configuration of the ngrok root certificate and the
-- callback `default_connect`.
abbrev pub default_builder : ℕ → ℕ → SessionBuilder
default_builder tls_config connect_callback = record {
  authtoken = none;
  metadata = none;
  heartbeat_interval = none;
  heartbeat_tolerance = none;
  server_addr = "tunnel.ngrok.com:443";
  tls_config = tls_config;
  connect_callback = connect_callback;
  cookie = none;
  id = none;
}

unfoldable pub authtoken : SessionBuilder → String → SessionBuilder
authtoken self token = record self { authtoken = some (secret_from token) }

-- For what the environment variable has
unfoldable pub authtoken_from_env : SessionBuilder → Option String → SessionBuilder
authtoken_from_env self none = record self { authtoken = none }
authtoken_from_env self (some token) = record self { authtoken = some (secret_from token) }

unfoldable pub heartbeat_interval : SessionBuilder → ℕ → SessionBuilder
heartbeat_interval self value = record self { heartbeat_interval = some value }

unfoldable pub heartbeat_tolerance : SessionBuilder → ℕ → SessionBuilder
heartbeat_tolerance self value = record self { heartbeat_tolerance = some value }

unfoldable pub metadata : SessionBuilder → String → SessionBuilder
metadata self value = record self { metadata = some value }

unfoldable pub with_server_addr : SessionBuilder → String → SessionBuilder
with_server_addr self addr = record self { server_addr = addr }

unfoldable pub tls_config : SessionBuilder → ℕ → SessionBuilder
tls_config self config = record self { tls_config = config }

unfoldable pub with_connect_callback : SessionBuilder → ℕ → SessionBuilder
with_connect_callback self callback = record self { connect_callback = callback }
