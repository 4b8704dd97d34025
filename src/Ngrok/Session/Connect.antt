-- ===== src/Ngrok/Session/Connect.antt =====
-- `connect_inner` of ngrok/src/session.rs, and the parts of `default_connect` that are not I/O.
use Prim.Native.String.{String}
use ngrok_rs.Common.{ℕ, ltb, ◌^◌, if◌then◌else◌, List, [], ◌∷◌, some, Result, ok, err}
use ngrok_rs.Common.Names.{same}
use ngrok_rs.Common.Integers.{ℤ, pos}
use ngrok_rs.Heartbeat.{HeartbeatConfig, default_config}
use ngrok_rs.Ngrok.Io.{Async, ◌>>=◌, return, lift, map_err}
use ngrok_rs.Ngrok.Proto.{AuthExtra, secret_from, default_auth_extra}
use ngrok_rs.Ngrok.Config.{unwrap_or}
use ngrok_rs.Ngrok.Rpc as Rpc
use ngrok_rs.Ngrok.Session.{
  SessionBuilder, SessionInner, ConnectError, SessionIo, invalid_heartbeat_interval,
  invalid_heartbeat_tolerance,
}

abbrev pub not_implemented : String
not_implemented = "the agent has not defined a callback for this operation"

-- `heartbeat_config`
unfoldable pub config_of : SessionBuilder → HeartbeatConfig
config_of self = record {
  interval = unwrap_or self.heartbeat_interval default_config.interval;
  tolerance = unwrap_or self.heartbeat_tolerance default_config.tolerance;
}

-- `i64::try_from(nanos)`, for a u128, with the error of `map_err`
unfoldable pub i64_nanos : {E : Type 0} → (ℕ → E) → ℕ → Result E ℤ
i64_nanos e nanos = if ltb nanos (2 ^ 63) then ok (pos nanos) else err (e nanos)

-- `os`
unfoldable pub os_name : String → String
os_name os = if same os "macos" then "darwin" else os

-- The host and the port of `default_connect`, from the pieces of the address between its colons. A
-- split gives one piece at least.
unfoldable pub host_port :
    {Cause : Type 0} → (String → Result Cause ℕ) → String → List String → Result Cause (String × ℕ)
host_port parse host [] = ok (host, 443)
host_port parse host (port ∷ rest) = elim (parse port) [ ok n ↦ ok (host, n) | err e ↦ err e ]

module _ {State Cause : Type 0} (lib : SessionIo State Cause) where
  open lib use {rpc_io, call, start, os, arch, pkg_version}

  -- The `AuthExtra` of `connect_inner`
  abbrev pub auth_extra : SessionBuilder → ℤ → ℤ → AuthExtra
  auth_extra self heartbeat_interval heartbeat_tolerance = record default_auth_extra {
    version = pkg_version;
    auth_token = unwrap_or self.authtoken (secret_from "");
    metadata = unwrap_or self.metadata "";
    os = os_name os;
    arch = arch;
    heartbeat_interval = heartbeat_interval;
    heartbeat_tolerance = heartbeat_tolerance;
    restart_unsupported_error = some not_implemented;
    stop_unsupported_error = some not_implemented;
    update_unsupported_error = some not_implemented;
    client_type = "library/official/rust";
    cookie = unwrap_or self.cookie (secret_from "");
  }

  -- The incoming streams are those of the same muxado session.
  unfoldable pub connect_inner :
      SessionBuilder → Async State (ConnectError Cause) (SessionInner × ℕ)
  unfolding config_of i64_nanos os_name Rpc.auth
  connect_inner self = do
    conn ← call self.connect_callback self.server_addr self.tls_config
    heartbeat_interval ← lift (i64_nanos invalid_heartbeat_interval (config_of self).interval)
    heartbeat_tolerance ← lift (i64_nanos invalid_heartbeat_tolerance (config_of self).interval)
    raw ← map_err ConnectError.start (start conn (config_of self))
    resp ← map_err ConnectError.auth (
        Rpc.auth rpc_io raw (unwrap_or self.id "")
          (auth_extra self heartbeat_interval heartbeat_tolerance))
    return (
      record {
        client = raw;
        tunnels = [];
        builder = record self { cookie = resp.extra.cookie; id = some resp.client_id };
      },
      raw,
    )
