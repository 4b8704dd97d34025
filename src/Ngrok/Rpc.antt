-- ===== src/Ngrok/Rpc.antt =====
-- ngrok/src/internals/rpc.rs and raw_session.rs: a request on a stream of its own, and the streams
-- that the service opens. The streams are muxado's, behind trait objects, and the JSON is serde's:
-- arguments.
pub mod Accept
pub mod Replies
pub mod Peer
mod Runs
use Prim.Native.String.{String}
use ngrok_rs.Common.{ℕ, if◌then◌else◌, List, [], ◌∷◌, Result, ok, err}
use ngrok_rs.Common.Names.{same}
use ngrok_rs.Errors.{Error}
use ngrok_rs.Frame.{Bytes}
use ngrok_rs.Ngrok.Io.{Async, IoError, other, ◌>>=◌, ◌>>◌, return, lift, map_err, and_then, convert}
use ngrok_rs.Ngrok.Proto.{
  Auth, AuthExtra, AuthResp, Bind, BindExtra, BindResp, StartTunnelWithLabel,
  StartTunnelWithLabelResp, Unbind, UnbindResp, Labels, version, auth_req, bind_req, unbind_req,
  bind_labeled_req,
}
use ngrok_rs.Ngrok.Proto.Endpoints.{BindOpts, HttpEndpoint, TcpEndpoint, TlsEndpoint}

-- `open_error` is `Open`.
pub data RpcError (Cause : Type 0) : Type 0 where
  open_error : Error → RpcError Cause
  send receive : IoError Cause → RpcError Cause
  invalid_response : Cause → RpcError Cause
  response : String → RpcError Cause

-- The JSON of a request and of its response.
pub record Codec (Cause Req Resp : Type 0) : Type 0 where
  pub to_string : Req → Result Cause String
  pub from_slice : Bytes → Result Cause Resp

pub record Json (Cause : Type 0) : Type 0 where
  pub auth : Codec Cause Auth AuthResp
  pub bind_http : Codec Cause (Bind HttpEndpoint) (BindResp HttpEndpoint)
  pub bind_tcp : Codec Cause (Bind TcpEndpoint) (BindResp TcpEndpoint)
  pub bind_tls : Codec Cause (Bind TlsEndpoint) (BindResp TlsEndpoint)
  pub bind_labeled : Codec Cause StartTunnelWithLabel StartTunnelWithLabelResp
  pub unbind : Codec Cause Unbind UnbindResp
  -- The `error` of an `ErrResp`
  pub error : Bytes → Result Cause String

-- What is done with a stream of the client's session.
pub record RpcIo (State Cause : Type 0) : Type 0 where
  pub open_typed : ℕ → ℕ → Async State Error ℕ
  pub write_all : ℕ → String → Async State (IoError Cause) (Unit {0})
  pub read_to_end : ℕ → Async State (IoError Cause) Bytes
  pub json : Json Cause

-- `RpcRequest`, as `rpc_req!` makes it.
pub record RpcRequest (Cause Req Resp : Type 0) : Type 0 where
  pub typ : ℕ
  pub codec : Codec Cause Req Resp

-- The answer to the two readings of the reply: `err_resp`, then `ok_resp`.
unfoldable pub answer :
    {Cause Resp : Type 0} → Result Cause String → Result Cause Resp → Result (RpcError Cause) Resp
answer (ok error) (ok resp) = if same error "" then ok resp else err (response error)
answer (ok error) (err e) = if same error "" then err (invalid_response e) else err (response error)
answer (err e) (ok resp) = ok resp
answer (err e') (err e) = err (invalid_response e)

-- The `BindResp` of an arm of `match_variant!`
abbrev pub with_variant : {T : Type 0} → (T → BindOpts) → BindResp T → BindResp BindOpts
with_variant variant resp = record {
  client_id = resp.client_id;
  url = resp.url;
  proto = resp.proto;
  bind_opts = variant resp.bind_opts;
  extra = resp.extra;
}

module _ {State Cause : Type 0} (lib : RpcIo State Cause) where
  open lib use {open_typed, write_all, read_to_end, json}

  -- `RpcClient::rpc`
  unfoldable pub rpc :
      {Req Resp : Type 0} → ℕ → RpcRequest Cause Req Resp → Req → Async State (RpcError Cause) Resp
  unfolding answer
  rpc client request req = do
    stream ← map_err open_error (open_typed client request.typ)
    s ← map_err (λ e. send (other e)) (lift (request.codec.to_string req))
    map_err send (write_all stream s)
    buf ← map_err receive (read_to_end stream)
    lift (answer (json.error buf) (request.codec.from_slice buf))

  -- `RpcClient::auth`
  unfoldable pub auth : ℕ → String → AuthExtra → Async State (RpcError Cause) AuthResp
  unfolding rpc auth_req
  auth client id extra =
      rpc client (record { typ = auth_req; codec = json.auth })
        (record { version = version ∷ []; client_id = id; extra = extra })

  -- An arm of `match_variant!`
  unfoldable pub listen_variant :
      {T : Type 0}
      → Codec Cause (Bind T) (BindResp T)
      → (T → BindOpts)
      → ℕ
      → Bind T
      → Async State (RpcError Cause) (BindResp BindOpts)
  unfolding rpc bind_req
  listen_variant codec variant client req = do
    resp ← rpc client (record { typ = bind_req; codec = codec }) req
    return (with_variant variant resp)

  -- `RpcClient::listen`
  unfoldable pub listen :
      ℕ
      → String
      → BindOpts
      → BindExtra
      → String
      → String
      → Async State (RpcError Cause) (BindResp BindOpts)
  unfolding listen_variant
  listen client protocol (BindOpts.http opts) extra id forwards_to =
      listen_variant json.bind_http BindOpts.http client (record {
        client_id = id;
        proto = protocol;
        forwards_to = forwards_to;
        opts = opts;
        extra = extra;
      })
  listen client protocol (BindOpts.tcp opts) extra id forwards_to =
      listen_variant json.bind_tcp BindOpts.tcp client (record {
        client_id = id;
        proto = protocol;
        forwards_to = forwards_to;
        opts = opts;
        extra = extra;
      })
  listen client protocol (BindOpts.tls opts) extra id forwards_to =
      listen_variant json.bind_tls BindOpts.tls client (record {
        client_id = id;
        proto = protocol;
        forwards_to = forwards_to;
        opts = opts;
        extra = extra;
      })

  -- `RpcClient::listen_label`
  unfoldable pub listen_label :
      ℕ → Labels → String → String → Async State (RpcError Cause) StartTunnelWithLabelResp
  unfolding rpc bind_labeled_req
  listen_label client labels metadata forwards_to =
      rpc client (record { typ = bind_labeled_req; codec = json.bind_labeled })
        (record { labels = labels; forwards_to = forwards_to; metadata = metadata })

  -- `RpcClient::unlisten`
  unfoldable pub unlisten : ℕ → String → Async State (RpcError Cause) UnbindResp
  unfolding rpc unbind_req
  unlisten client id =
      rpc client (record { typ = unbind_req; codec = json.unbind }) (record { client_id = id })
