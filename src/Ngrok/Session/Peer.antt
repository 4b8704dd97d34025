-- ===== src/Ngrok/Session/Peer.antt =====
-- The service of the test runs, and channels of which only the first is still received from.
use Prim.Native.String.{String}
use ngrok_rs.Common.{ℕ, ◌==◌, if◌then◌else◌, List, [], ◌∷◌, none, some, ok, err}
use ngrok_rs.Ngrok.Proto.{secret_from}
use ngrok_rs.Ngrok.Proto.Endpoints.{BindOpts, default_tcp}
use ngrok_rs.Ngrok.Rpc.Peer.{Script, rpc_io, accept_io}
use ngrok_rs.Ngrok.Session.{BoundTunnel, IpAddr, SessionInner, SessionIo, default_builder}

abbrev pub session_io : SessionIo Script ℕ
session_io = record {
  rpc_io = rpc_io;
  accept_io = accept_io;
  call = λ callback addr tls s. (s, ok 3);
  start = λ conn config s. (s, ok 4);
  retry = λ action. action;
  channel = λ size s. (s, 1);
  send = λ tx item s. if tx == 1 then (record s { sent = tx ∷ s.sent }, ok tt) else (s, err tt);
  parse_addr = λ text. some (record { ip = IpAddr.v4 1; port = 2 });
  os = "linux";
  arch = "x86_64";
  pkg_version = "0.12";
}

abbrev pub endpoint : ℕ → BoundTunnel
endpoint tx = record {
  proto = "tcp";
  opts = some (BindOpts.tcp default_tcp);
  extra = record { token = secret_from ""; ip_policy_ref = ""; metadata = "" };
  labels = [];
  forwards_to = "rust";
  tx = tx;
}

abbrev pub labeled : BoundTunnel
labeled = record {
  proto = "";
  opts = none;
  extra = record { token = secret_from ""; ip_policy_ref = ""; metadata = "" };
  labels = ("edge", "abc") ∷ [];
  forwards_to = "rust";
  tx = 1;
}

abbrev pub holds : List (String × BoundTunnel) → SessionInner
holds tunnels = record { client = 4; tunnels = tunnels; builder = default_builder 0 0 }
