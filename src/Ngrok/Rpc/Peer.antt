-- ===== src/Ngrok/Rpc/Peer.antt =====
-- A small service for the test runs: the replies and the types of the streams that it gives, in
-- order, and the connections that were sent on.
use Prim.Native.String.{String}
use ngrok_rs.Common.{ℕ, ◌==◌, if◌then◌else◌, false, List, [], ◌∷◌, none, ok, err}
use ngrok_rs.Common.Integers.{ℤ, pos}
use ngrok_rs.Errors.{Error}
use ngrok_rs.Frame.{Bytes}
use ngrok_rs.Ngrok.Io.{raised}
use ngrok_rs.Ngrok.Proto.{BindResp, unbind_resp, secret_from}
use ngrok_rs.Ngrok.Proto.Kinds.{EdgeType}
use ngrok_rs.Ngrok.Proto.Endpoints.{default_http, default_tcp, default_tls}
use ngrok_rs.Ngrok.Proto.Header.{ProxyHeader, HeaderIo}
use ngrok_rs.Ngrok.Rpc.{Codec, Json, RpcIo}
use ngrok_rs.Ngrok.Rpc.Accept.{AcceptIo}

pub record Script : Type 0 where
  pub replies : List Bytes
  pub types : List ℕ
  pub sent : List ℕ

abbrev pub name : ℕ → String
name n = if n == 0 then "zero" else if n == 1 then "one" else "many"

abbrev reading : {Req Resp : Type 0} → (ℕ → Resp) → Codec ℕ Req Resp
reading resp = record {
  to_string = λ req. ok "request";
  from_slice = λ buf. elim buf [ [] ↦ err 0 | n ∷ rest ↦ ok (resp n) ];
}

abbrev bound : {T : Type 0} → T → ℕ → BindResp T
bound opts n = record {
  client_id = name n;
  url = "url";
  proto = "tcp";
  bind_opts = opts;
  extra = record { token = secret_from "token" };
}

-- A reply that begins with 0 is an error message too.
abbrev pub json : Json ℕ
json = record {
  auth = reading (λ n. record {
    version = "2";
    client_id = name n;
    extra = record {
      version = none;
      region = none;
      cookie = none;
      account_name = none;
      session_duration = none;
      plan_name = none;
      banner = none;
    };
  });
  bind_http = reading (bound default_http);
  bind_tcp = reading (bound default_tcp);
  bind_tls = reading (bound default_tls);
  bind_labeled = reading (λ n. record { id = name n });
  unbind = reading (λ n. unbind_resp);
  error = λ buf. elim buf [ [] ↦ err 0 | n ∷ rest ↦ if n == 0 then ok "refused" else err 0 ];
}

abbrev read_reply : Script → Script × Bytes
read_reply s = elim s.replies [ [] ↦ (s, []) | reply ∷ rest ↦ (record s { replies = rest }, reply) ]

abbrev pub rpc_io : RpcIo Script ℕ
rpc_io = record {
  open_typed = λ client typ s. (s, ok 7);
  write_all = λ stream text s. (s, ok tt);
  read_to_end = λ stream s. let (s', reply) = read_reply s in (s', ok reply);
  json = json;
}

abbrev pub header_of : ProxyHeader
header_of = record {
  id = "one";
  client_addr = "addr";
  proto = "tcp";
  edge_type = EdgeType.tcp;
  passthrough_tls = false;
}

abbrev pub header_io : ℤ → HeaderIo Script ℕ
header_io size = record {
  read_i64_le = λ stream s. (s, ok size);
  read_exact = λ stream n s. (s, ok (5 ∷ 6 ∷ []));
  from_utf8 = λ buf. ok "header";
  from_str = λ text. ok header_of;
}

abbrev pub accept_io : AcceptIo Script ℕ
accept_io = record {
  accept_typed = λ incoming s. elim s.types [
    | [] ↦ (s, err (raised Error.session_closed))
    | t ∷ rest ↦ (record s { types = rest }, ok (t, 9))
  ];
  header_io = header_io (pos 2);
}

abbrev pub script : List Bytes → List ℕ → Script
script replies types = record { replies = replies; types = types; sent = [] }
