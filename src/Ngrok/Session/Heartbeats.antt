-- ===== src/Ngrok/Session/Heartbeats.antt =====
-- What `connect_inner` of ngrok/src/session.rs tells the service, and what it keeps of the answer.
use ngrok_rs.Common.{
  ltb→lt, if◌then◌else◌, Bool, ℕ, ltb, ◌^◌, ◌<◌, ◌≤◌, ◌≡◌, refl, true, false, [], ◌∷◌, some, ok,
  err, arith,
}
use ngrok_rs.Common.Names.{same}
use ngrok_rs.Common.Integers.{ℤ, pos}
use ngrok_rs.Frame.{Bytes}
use ngrok_rs.Ngrok.Io.{
  Async, raised, lift, and_then, OnReturn, OnReturn-bind, OnReturn-try, OnReturn-ok,
}
use ngrok_rs.Ngrok.Proto.{AuthExtra, AuthResp, auth_req}
use ngrok_rs.Ngrok.Config.{unwrap_or}
use ngrok_rs.Ngrok.Rpc as Rpc
use ngrok_rs.Ngrok.Rpc.Replies.{Replied, rpc-ok}
use ngrok_rs.Ngrok.Session.{
  SessionBuilder, SessionInner, ConnectError, SessionIo, invalid_heartbeat_interval,
  invalid_heartbeat_tolerance,
}
use ngrok_rs.Ngrok.Session.Connect.{config_of, i64_nanos, os_name, auth_extra, connect_inner}

OnReturn-test :
    {E A State : Type 0} (P : State → A → Type 0) (b : Bool) (z : ℤ) (e : E) (s : State)
    (f : ℤ → Async State E A)
    → (b ≡ true → OnReturn P (f z s))
    → OnReturn P (and_then (lift (if b then ok z else err e) s) f)
OnReturn-test P true z e s f h = h refl
OnReturn-test P false z e s f h = tt

OnReturn-nanos :
    {E A State : Type 0} (P : State → A → Type 0) (e : ℕ → E) (n : ℕ) (s : State)
    (f : ℤ → Async State E A)
    → (n < 2 ^ 63 → OnReturn P (f (pos n) s))
    → OnReturn P (and_then (lift (i64_nanos e n) s) f)
unfolding i64_nanos
OnReturn-nanos P e n s f h =
    OnReturn-test P (ltb n (2 ^ 63)) (pos n) (e n) s f (λ t. h (ltb→lt n (2 ^ 63) t))

i64_nanos-big : {E : Type 0} (e : ℕ → E) (n : ℕ) → 2 ^ 63 ≤ n → i64_nanos e n ≡ err (e n)
unfolding i64_nanos
i64_nanos-big e n h = ground arith

module _ {State Cause : Type 0} (lib : SessionIo State Cause) where
  open lib use {rpc_io, call, start, os, arch, pkg_version}

  -- What the builder says of itself and of its machine; both heartbeat numbers are its interval.
  abbrev pub introduces : SessionBuilder → AuthExtra
  introduces self = record {
    os = if same os "macos" then "darwin" else os;
    arch = arch;
    auth_token = unwrap_or self.authtoken (record { text = "" });
    version = pkg_version;
    hostname = "";
    user_agent = "";
    metadata = unwrap_or self.metadata "";
    cookie = unwrap_or self.cookie (record { text = "" });
    heartbeat_interval = pos (unwrap_or self.heartbeat_interval 10000000000);
    heartbeat_tolerance = pos (unwrap_or self.heartbeat_interval 10000000000);
    update_unsupported_error = some "the agent has not defined a callback for this operation";
    stop_unsupported_error = some "the agent has not defined a callback for this operation";
    restart_unsupported_error = some "the agent has not defined a callback for this operation";
    proxy_type = "";
    mutual_tls = false;
    service_run = false;
    config_version = "";
    custom_interface = false;
    custom_cas = false;
    client_type = "library/official/rust";
  }

  -- The connection is made, and a muxado session with the builder's durations is started on it.
  abbrev pub Connects : SessionBuilder → State → State → ℕ → Type 0
  Connects self first opened raw =
      (conn : ℕ) × ((s : State) × ((call self.connect_callback self.server_addr self.tls_config
              first
            ≡ (s, ok conn))
          × (start conn
                (record {
                  interval = unwrap_or self.heartbeat_interval 10000000000;
                  tolerance = unwrap_or self.heartbeat_tolerance 15000000000;
                })
                s
              ≡ (opened, ok raw))))

  -- The session that a reply to an `Auth` request makes.
  abbrev pub Authorised : SessionBuilder → State → State → SessionInner × ℕ → Type 0
  Authorised self first last (inner, incoming) =
      (unwrap_or self.heartbeat_interval 10000000000 < 2 ^ 63)
      × ((opened : State) × ((buf : Bytes) × ((resp : AuthResp) × (Connects self first opened
                  incoming
                × Replied rpc_io incoming (record { typ = 0; codec = rpc_io.json.auth })
                    (record {
                      version = "2" ∷ [];
                      client_id = unwrap_or self.id "";
                      extra = introduces self;
                    })
                    opened last buf
                × (rpc_io.json.auth.from_slice buf ≡ ok resp)
                × (inner ≡ record {
                  client = incoming;
                  tunnels = [];
                  builder = record self { cookie = resp.extra.cookie; id = some resp.client_id };
                })))))

  auth-Authorised :
      (self : SessionBuilder) (raw : ℕ) (first s last : State) (resp : AuthResp)
      → unwrap_or self.heartbeat_interval 10000000000 < 2 ^ 63
      → Connects self first s raw
      → Rpc.auth rpc_io raw
          (unwrap_or self.id "")
          (auth_extra lib self (pos (config_of self).interval) (pos (config_of self).interval))
          s
        ≡ (last, ok resp)
      → Authorised self first last (
        record {
          client = raw;
          tunnels = [];
          builder = record self { cookie = resp.extra.cookie; id = some resp.client_id };
        },
        raw,
      )
  unfolding Rpc.auth config_of os_name auth_req
  auth-Authorised self raw first s last resp lt connects h =
      let (buf, (replied, read, no_error)) =
        rpc-ok rpc_io raw (record { typ = 0; codec = rpc_io.json.auth })
          (record { version = "2" ∷ []; client_id = unwrap_or self.id ""; extra = introduces self })
          s last resp h in
      (lt, (s, (buf, (resp, (connects, replied, read, refl)))))

  -- A session that is connected opened the connection of its builder and started a muxado session
  -- on it with the builder's heartbeat interval and tolerance, or the defaults of 10 and 15 seconds.
  -- It then sent an `Auth` request with the builder's id, its token, metadata and cookie and the
  -- machine it runs on. The heartbeat interval of the request is the builder's, which fits an i64,
  -- and the heartbeat tolerance of the request is that interval too, whatever tolerance the builder
  -- has. The session has no tunnels yet and keeps the id and the cookie of the answer for the next
  -- time.
  pub connect_inner-ok :
      (self : SessionBuilder) (first last : State) (connected : SessionInner × ℕ)
      → connect_inner lib self first ≡ (last, ok connected)
      → Authorised self first last connected
  unfolding connect_inner config_of
  connect_inner-ok self first last connected h =
      let P = Authorised self first in
      OnReturn-ok P h (
        OnReturn-bind P (call self.connect_callback self.server_addr self.tls_config first) _
          (λ s1 conn e1.
            OnReturn-nanos P invalid_heartbeat_interval (config_of self).interval s1 _ (λ lt.
              OnReturn-nanos P invalid_heartbeat_tolerance (config_of self).interval s1 _ (λ lt'.
                OnReturn-try P ConnectError.start (start conn (config_of self) s1) _ (λ s2 raw e2.
                  OnReturn-try P ConnectError.auth
                    (Rpc.auth rpc_io raw (unwrap_or self.id "")
                      (auth_extra lib self (pos (config_of self).interval)
                        (pos (config_of self).interval))
                      s2)
                    _
                    (λ s3 resp e3.
                      auth-Authorised self raw first s2 s3 resp lt (conn, (s1, (e1, e2))) e3))))))

  -- An interval that an i64 does not hold is refused before anything is sent.
  pub connect_inner-interval :
      (self : SessionBuilder) (first mid : State) (conn : ℕ)
      → call self.connect_callback self.server_addr self.tls_config first ≡ (mid, ok conn)
      → 2 ^ 63 ≤ (config_of self).interval
      → connect_inner lib self first
        ≡ (mid, err (raised (invalid_heartbeat_interval (config_of self).interval)))
  unfolding connect_inner
  connect_inner-interval self first mid conn e h =
      rw (e, i64_nanos-big invalid_heartbeat_interval (config_of self).interval h)
