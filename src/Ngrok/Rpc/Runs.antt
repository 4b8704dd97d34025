-- ===== src/Ngrok/Rpc/Runs.antt =====
-- Concrete runs of ngrok/src/internals/raw_session.rs, and its theorems at concrete inputs.
use ngrok_rs.Common.{ℕ, ◌≡◌, refl, [], ◌∷◌, ok, err, ready}
use ngrok_rs.Frame.{Bytes}
use ngrok_rs.Ngrok.Io.{raised}
use ngrok_rs.Ngrok.Proto.{
  BindExtra, BindResp, Unbind, UnbindResp, unbind_resp, unbind_req, secret_from,
}
use ngrok_rs.Ngrok.Proto.Endpoints.{BindOpts, default_tcp}
use ngrok_rs.Ngrok.Rpc.{RpcRequest, rpc, listen}
use ngrok_rs.Ngrok.Rpc.Replies.{Replied, IsError, Listened, rpc-ok, listen-Listened}
use ngrok_rs.Ngrok.Rpc.Accept.{invalid_type, accept}
use ngrok_rs.Ngrok.Rpc.Peer.{script, json, rpc_io, accept_io}

abbrev unbinds : RpcRequest ℕ Unbind UnbindResp
unbinds = record { typ = unbind_req; codec = json.unbind }

abbrev asks : Unbind
asks = record { client_id = "one" }

rpc-unbinds : rpc rpc_io 4 unbinds asks (script ((1 ∷ []) ∷ []) []) ≡ (script [] [], ok unbind_resp)
unfolding rpc
rpc-unbinds = refl

rpc-ok_example :
    (buf : Bytes) × (Replied rpc_io 4 unbinds asks (script ((1 ∷ []) ∷ []) []) (script [] []) buf
      × (json.unbind.from_slice buf ≡ ok unbind_resp)
      × (IsError (json.error buf) → ⊥))
rpc-ok_example =
    rpc-ok rpc_io 4 unbinds asks (script ((1 ∷ []) ∷ []) []) (script [] []) unbind_resp rpc-unbinds

abbrev bound : BindResp BindOpts
bound = record {
  client_id = "one";
  url = "url";
  proto = "tcp";
  bind_opts = BindOpts.tcp default_tcp;
  extra = record { token = secret_from "token" };
}

abbrev no_extra : BindExtra
no_extra = record { token = secret_from ""; ip_policy_ref = ""; metadata = "" }

listens :
    listen rpc_io 4 "tcp" (BindOpts.tcp default_tcp) no_extra "" "rust" (script ((1 ∷ []) ∷ []) [])
    ≡ (script [] [], ok bound)
unfolding listen
listens = refl

listen-Listened_example :
    Listened rpc_io 4 "tcp"
      (BindOpts.tcp default_tcp)
      no_extra
      ""
      "rust"
      (script ((1 ∷ []) ∷ []) [])
      (script [] [])
      bound
listen-Listened_example =
    listen-Listened rpc_io 4 "tcp" (BindOpts.tcp default_tcp) no_extra "" "rust"
      (script ((1 ∷ []) ∷ []) []) (script [] []) bound listens

-- A stream of no known type
accept_unknown :
    accept accept_io 1 4 (script [] (9 ∷ []))
    ≡ (script [] [], ready (err (raised (invalid_type 9))))
unfolding accept
accept_unknown = refl
