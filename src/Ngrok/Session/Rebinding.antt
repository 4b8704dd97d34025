-- ===== src/Ngrok/Session/Rebinding.antt =====
-- `try_reconnect` of ngrok/src/session.rs, and the sessions that a session can become.
use Prim.Native.String.{String}
use ngrok_rs.Common.{
  ℕ, ◌≡◌, refl, subst, sym, ap, ◌∙◌, if◌then◌else◌, false, [], ◌∷◌, Option, none, some, ok, arith,
}
use ngrok_rs.Common.Names.{
  same, get, set, get-set, Distinct, Distinct-set, AllValues, AllValues-set,
}
use ngrok_rs.Errors.{Error}
use ngrok_rs.Ngrok.Io.{
  AcceptError, OnReturn, OnReturn-bind, OnReturn-try, OnReturn-if, OnReturn-weaken, OnReturn-ok,
}
use ngrok_rs.Ngrok.Rpc.{listen}
use ngrok_rs.Ngrok.Session.{BoundTunnel, TunnelConns, SessionBuilder, SessionInner, SessionIo}
use ngrok_rs.Ngrok.Session.Connect.{connect_inner}
use ngrok_rs.Ngrok.Session.Heartbeats.{connect_inner-ok}
use ngrok_rs.Ngrok.Session.Tunnels.{unwrap}
use ngrok_rs.Ngrok.Session.Incoming.{rebind, rebind_all, try_reconnect}
use text.Mathlib.TextEquality.{eq_iff}

-- It is not a labeled tunnel.
abbrev pub IsEndpoint : BoundTunnel → Type 0
IsEndpoint tun = same tun.proto "" ≡ false

-- The first, or else the second
abbrev or_else : Option BoundTunnel → Option BoundTunnel → Option BoundTunnel
or_else (some tun) other = some tun
or_else none other = other

get-or_else :
    (id key : String) (tun : BoundTunnel) (old new : TunnelConns)
    → get old id ≡ none
    → or_else (get old key) (get (set new id tun) key)
      ≡ or_else (if same id key then some tun else get old key) (get new key)
get-or_else id key tun old new h = ground (arith, get-set new id key tun, eq_iff id key)

or_else-none : (o : Option BoundTunnel) → or_else o none ≡ o
or_else-none none = refl
or_else-none (some tun) = refl

module _ {State Cause : Type 0} (lib : SessionIo State Cause) where
  open lib use {rpc_io}

  rebind-key :
      (client : ℕ) (id : String) (tun : BoundTunnel) (state : State)
      → IsEndpoint tun
      → OnReturn (λ (s : State) key. key ≡ id) (rebind lib client id tun state)
  unfolding rebind
  rebind-key client id tun state h =
      let P : State → String → Type 0 = λ s key. key ≡ id in
      OnReturn-if P (same tun.proto "") _ _ state (λ e. cc)
        (λ e. OnReturn-bind P (unwrap tun.opts state) _ (λ s opts e1.
          OnReturn-try P (λ e. AcceptError.transport Error.error_unknown)
            (listen rpc_io client tun.proto opts tun.extra id tun.forwards_to s) _
            (λ s' resp e2. refl)))

  rebind_all-get :
      (client : ℕ) (old new : TunnelConns) (state : State)
      → AllValues IsEndpoint old
      → Distinct old
      → OnReturn
          (λ (s : State) (result : TunnelConns).
            (key : String) → get result key ≡ or_else (get old key) (get new key))
          (rebind_all lib client old new state)
  unfolding rebind_all get
  rebind_all-get client [] new state a d = λ key. refl
  rebind_all-get client ((id, tun) ∷ old) new state (p, a) (n, d) =
      let P : State → TunnelConns → Type 0 = λ s result.
        (key : String)
        → get result key ≡ or_else (if same id key then some tun else get old key) (get new key) in
      let Q : BoundTunnel → State → TunnelConns → Type 0 = λ tun s result.
        (key : String) → get result key ≡ or_else (get old key) (get (set new id tun) key) in
      OnReturn-bind P (rebind lib client id tun state) _ (λ s k e.
        let ek =
          OnReturn-ok (λ (s : State) (key : String). key ≡ id) e
            (rebind-key client id tun state p) in
        subst (λ k. OnReturn P (rebind_all lib client old (set new k tun) s)) (sym ek)
          (OnReturn-weaken (Q tun) P (rebind_all lib client old (set new id tun) s)
            (λ s' result h key. h key ∙ get-or_else id key tun old new n)
            (rebind_all-get client old (set new id tun) s a d)))

  -- What holds of all the tunnels of a session holds of all those of the one it reconnects to.
  pub rebind_all-AllValues :
      (P : BoundTunnel → Type 0) (client : ℕ) (old new : TunnelConns) (state : State)
      → AllValues P old
      → AllValues P new
      → Distinct new
      → OnReturn
          (λ (s : State) (result : TunnelConns). AllValues P result × Distinct result)
          (rebind_all lib client old new state)
  unfolding rebind_all
  rebind_all-AllValues P client [] new state a b d = (b, d)
  rebind_all-AllValues P client ((id, tun) ∷ old) new state (p, a) b d =
      OnReturn-bind (λ (s : State) (result : TunnelConns). AllValues P result × Distinct result)
        (rebind lib client id tun state) _
        (λ s key e.
          rebind_all-AllValues P client old (set new key tun) s a (AllValues-set P new key tun b p)
            (Distinct-set new key tun d))

  -- What holds of a session that was connected anew and has the tunnels that were bound again.
  pub OnReturn-reconnect :
      (P : State → SessionInner × ℕ → Type 0) (old : SessionInner) (first : State)
      → ((s last : State) (client incoming : ℕ) (builder : SessionBuilder) (result : TunnelConns)
          → rebind_all lib client old.tunnels [] s ≡ (last, ok result)
          → P last (record { client = client; tunnels = result; builder = builder }, incoming))
      → OnReturn P (try_reconnect lib old first)
  unfolding try_reconnect
  OnReturn-reconnect P old first h =
      OnReturn-try P (λ e. AcceptError.transport Error.session_closed)
        (connect_inner lib old.builder first) _
        (λ s connected e.
          let (lt, (s', (buf, (resp, (opened, replied, read, made))))) =
            connect_inner-ok lib old.builder first s connected e in
          OnReturn-bind P (rebind_all lib connected.0.client old.tunnels connected.0.tunnels s) _
            (λ s2 result e2.
              let Rebound : TunnelConns → Type 0 =
                λ t. rebind_all lib connected.0.client old.tunnels t s ≡ (s2, ok result) in
              h s s2 connected.0.client connected.1 connected.0.builder result
                (subst Rebound (ap (λ (i : SessionInner). i.tunnels) made) e2)))

  -- Where all tunnels are of endpoints, a session that reconnects has the same tunnels under the
  -- same ids, with their senders.
  pub try_reconnect-get :
      (old : SessionInner) (first last : State) (reconnected : SessionInner × ℕ)
      → AllValues IsEndpoint old.tunnels
      → Distinct old.tunnels
      → try_reconnect lib old first ≡ (last, ok reconnected)
      → (id : String) → get reconnected.0.tunnels id ≡ get old.tunnels id
  unfolding get
  try_reconnect-get old first last reconnected a d h =
      let P : State → SessionInner × ℕ → Type 0 =
        λ s p. (id : String) → get p.0.tunnels id ≡ get old.tunnels id in
      let Q : State → TunnelConns → Type 0 =
        λ s result. (id : String) → get result id ≡ or_else (get old.tunnels id) none in
      OnReturn-ok P h (
        OnReturn-reconnect P old first (λ s last client incoming builder result e id.
          OnReturn-ok Q e (rebind_all-get client old.tunnels [] s a d) id
          ∙ or_else-none (get old.tunnels id)))
