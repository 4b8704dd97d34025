-- ===== src/Ngrok/Rpc/Replies.antt =====
-- What the answers of `rpc` and `listen` in ngrok/src/internals/raw_session.rs come from.
use Prim.Native.String.{String}
use ngrok_rs.Common.{ℕ, ◌≡◌, refl, false, Result, ok, err, arith}
use ngrok_rs.Common.Names.{same}
use ngrok_rs.Frame.{Bytes}
use ngrok_rs.Ngrok.Io.{
  raised, other, return, OnReturn-bind, OnReturn-try, OnReturn-lift, OnReturn-lift_try, OnReturn-ok,
}
use ngrok_rs.Ngrok.Proto.{Bind, BindExtra, BindResp, bind_req}
use ngrok_rs.Ngrok.Proto.Endpoints.{BindOpts}
use ngrok_rs.Ngrok.Rpc.{
  open_error, send, receive, response, Codec, RpcIo, RpcRequest, answer, rpc, with_variant,
  listen_variant, listen,
}

-- A reply is an error message when it has an `Error` that is not empty.
abbrev pub IsError : {Cause : Type 0} → Result Cause String → Type 0
IsError (ok error) = same error "" ≡ false
IsError (err e) = ⊥

pub answer-ok :
    {Cause Resp : Type 0} (error : Result Cause String) (reply : Result Cause Resp) {resp : Resp}
    → answer error reply ≡ ok resp
    → (reply ≡ ok resp) × (IsError error → ⊥)
unfolding answer
answer-ok (ok error) (ok a) h = ground arith
answer-ok (ok error) (err e) h = ground arith
answer-ok (err e) (ok a) h = ground arith
answer-ok (err e') (err e) h = ground arith

pub answer-error :
    {Cause Resp : Type 0} (text : String) (reply : Result Cause Resp)
    → same text "" ≡ false
    → answer (ok text) reply ≡ err (response text)
unfolding answer
answer-error text (ok a) h = ground arith
answer-error text (err e) h = ground arith

module _ {State Cause : Type 0} (lib : RpcIo State Cause) where
  open lib use {open_typed, write_all, read_to_end, json}

  -- The stream on which a request got the reply.
  abbrev pub Replied :
      {Req Resp : Type 0} → ℕ → RpcRequest Cause Req Resp → Req → State → State → Bytes → Type 0
  Replied client request req first last buf =
      (stream : ℕ) × ((opened : State) × ((s : String) × ((wrote : State) × ((open_typed client
                  request.typ first
                ≡ (opened, ok stream))
              × (request.codec.to_string req ≡ ok s)
              × (write_all stream s opened ≡ (wrote, ok tt))
              × (read_to_end stream wrote ≡ (last, ok buf))))))

  -- A request that returns opened a stream of the request's type, wrote the request's JSON on it
  -- and read the stream to its end; what it read is the JSON of the response returned, and is not
  -- that of an error message.
  pub rpc-ok :
      {Req Resp : Type 0} (client : ℕ) (request : RpcRequest Cause Req Resp) (req : Req)
      (first last : State) (resp : Resp)
      → rpc lib client request req first ≡ (last, ok resp)
      → (buf : Bytes) × (Replied client request req first last buf
          × (request.codec.from_slice buf ≡ ok resp)
          × (IsError (json.error buf) → ⊥))
  unfolding rpc
  rpc-ok {Req} {Resp} client request req first last resp h =
      let P : State → Resp → Type 0 = λ last resp.
        (buf : Bytes) × (Replied client request req first last buf
          × (request.codec.from_slice buf ≡ ok resp)
          × (IsError (json.error buf) → ⊥)) in
      OnReturn-ok P h (
        OnReturn-try P open_error (open_typed client request.typ first) _ (λ s1 stream e1.
          OnReturn-lift_try P (λ e. send (other e)) (request.codec.to_string req) s1 _
            (λ s e2. OnReturn-try P send (write_all stream s s1) _ (λ s2 u e3.
              OnReturn-try P receive (read_to_end stream s2) _ (λ s3 buf e4.
                OnReturn-lift P (answer (json.error buf) (request.codec.from_slice buf)) s3
                  (λ resp e5.
                    let (e6, e7) = answer-ok (json.error buf) (request.codec.from_slice buf) e5 in
                    (buf, ((stream, (s1, (s, (s2, (e1, e2, cc, e4))))), e6, e7))))))))

  -- A reply with a non-empty `Error` is that error, also where it could be read as a response.
  pub rpc-error :
      {Req Resp : Type 0} (client : ℕ) (request : RpcRequest Cause Req Resp) (req : Req)
      (first last : State) (buf : Bytes) (text : String)
      → Replied client request req first last buf
      → json.error buf ≡ ok text
      → same text "" ≡ false
      → rpc lib client request req first ≡ (last, err (raised (response text)))
  unfolding rpc
  rpc-error client request req first last buf text (stream, (s1, (s, (s2, (e1, e2, e3, e4))))) h t =
      rw (e1, e2, e3, e4, h, answer-error text (request.codec.from_slice buf) t)

  -- A `Bind` request of type 1 with these fields got the reply that is returned, with its options
  -- as those of the kind of endpoint.
  abbrev pub Binds :
      {T : Type 0}
      → Codec Cause (Bind T) (BindResp T)
      → (T → BindOpts)
      → ℕ
      → Bind T
      → State
      → State
      → BindResp BindOpts
      → Type 0
  Binds {T} codec kind client req first last resp =
      (buf : Bytes) × ((reply : BindResp T) × (Replied client (record { typ = 1; codec = codec })
            req first last buf
          × (codec.from_slice buf ≡ ok reply)
          × (resp ≡ record {
            client_id = reply.client_id;
            url = reply.url;
            proto = reply.proto;
            bind_opts = kind reply.bind_opts;
            extra = reply.extra;
          })))

  -- The request that asks for an endpoint of the kind that its options have
  abbrev pub Listened :
      ℕ
      → String
      → BindOpts
      → BindExtra
      → String
      → String
      → State
      → State
      → BindResp BindOpts
      → Type 0
  Listened client protocol (BindOpts.http o) extra id forwards_to first last resp =
      Binds json.bind_http BindOpts.http client
        (record {
          client_id = id;
          proto = protocol;
          forwards_to = forwards_to;
          opts = o;
          extra = extra;
        })
        first last resp
  Listened client protocol (BindOpts.tcp o) extra id forwards_to first last resp =
      Binds json.bind_tcp BindOpts.tcp client
        (record {
          client_id = id;
          proto = protocol;
          forwards_to = forwards_to;
          opts = o;
          extra = extra;
        })
        first last resp
  Listened client protocol (BindOpts.tls o) extra id forwards_to first last resp =
      Binds json.bind_tls BindOpts.tls client
        (record {
          client_id = id;
          proto = protocol;
          forwards_to = forwards_to;
          opts = o;
          extra = extra;
        })
        first last resp

  listen_variant-Binds :
      {T : Type 0} (codec : Codec Cause (Bind T) (BindResp T)) (variant : T → BindOpts) (client : ℕ)
      (req : Bind T) (first last : State) (resp : BindResp BindOpts)
      → listen_variant lib codec variant client req first ≡ (last, ok resp)
      → Binds codec variant client req first last resp
  unfolding listen_variant bind_req
  listen_variant-Binds {T} codec variant client req first last resp h =
      let P : State → BindResp BindOpts → Type 0 =
        λ last resp. Binds codec variant client req first last resp in
      OnReturn-ok P h (
        OnReturn-bind P (rpc lib client (record { typ = 1; codec = codec }) req first)
          (λ resp. return (with_variant variant resp))
          (λ s reply e.
            let (buf, (replied, read, no_error)) =
              rpc-ok client (record { typ = 1; codec = codec }) req first s reply e in
            (buf, (reply, (replied, read, refl)))))

  -- A `listen` that returns sent one `Bind` request for the kind of endpoint that its options are
  -- of, with the protocol, the options, the extra part, the id and the address that it was given,
  -- on a stream of the type of bind requests. It returns the reply that was read from that stream,
  -- as one for the same kind of endpoint.
  pub listen-Listened :
      (client : ℕ) (protocol : String) (opts : BindOpts) (extra : BindExtra)
      (id forwards_to : String) (first last : State) (resp : BindResp BindOpts)
      → listen lib client protocol opts extra id forwards_to first ≡ (last, ok resp)
      → Listened client protocol opts extra id forwards_to first last resp
  unfolding listen
  listen-Listened client protocol (BindOpts.http o) extra id forwards_to first last resp h =
      listen_variant-Binds json.bind_http BindOpts.http client _ first last resp h
  listen-Listened client protocol (BindOpts.tcp o) extra id forwards_to first last resp h =
      listen_variant-Binds json.bind_tcp BindOpts.tcp client _ first last resp h
  listen-Listened client protocol (BindOpts.tls o) extra id forwards_to first last resp h =
      listen_variant-Binds json.bind_tls BindOpts.tls client _ first last resp h
