-- ===== src/Ngrok/Session/Renamed.antt =====
-- A tunnel of ngrok/src/session.rs under another id after a reconnect, while its `TunnelInner` has
-- the id from before.
use Prim.Native.String.{String}
use ngrok_rs.Common.{ℕ, ◌≡◌, refl, subst, ap, ◌∙◌, if◌then◌else◌, true, false, [], ◌∷◌, ok}
use ngrok_rs.Common.Names.{same, set, delete}
use ngrok_rs.Errors.{Error}
use ngrok_rs.Ngrok.Io.{AcceptError, OnReturn, OnReturn-ok, OnReturn-bind, OnReturn-try, OnReturn-if}
use ngrok_rs.Ngrok.Proto.{StartTunnelWithLabelResp}
use ngrok_rs.Ngrok.Rpc.{listen_label}
use ngrok_rs.Ngrok.Session.{BoundTunnel, TunnelConns, SessionInner, SessionIo}
use ngrok_rs.Ngrok.Session.Tunnels.{close_tunnel}
use ngrok_rs.Ngrok.Session.Incoming.{rebind, rebind_all, try_reconnect}
use ngrok_rs.Ngrok.Session.Routing.{close_tunnel-get}
use ngrok_rs.Ngrok.Session.Rebinding.{OnReturn-reconnect}

delete-absent :
    (id key : String) (tun : BoundTunnel)
    → same key id ≡ false
    → delete ((key, tun) ∷ []) id ≡ (key, tun) ∷ []
unfolding delete
delete-absent id key tun e = rw e

module _ {State Cause : Type 0} (lib : SessionIo State Cause) where
  open lib use {rpc_io}

  -- The service answers the request to bind the labels of a tunnel again.
  abbrev pub Rebinds : BoundTunnel → StartTunnelWithLabelResp → Type 0
  Rebinds tun resp =
      (client : ℕ) × ((s : State) × ((s' : State) × (listen_label rpc_io client tun.labels
              tun.extra.metadata tun.forwards_to s
            ≡ (s', ok resp))))

  -- The key of a labeled tunnel is the id that the service answers, or the old one if that is empty.
  abbrev pub Renames : String → BoundTunnel → String → Type 0
  Renames id tun key =
      (resp : StartTunnelWithLabelResp) × (Rebinds tun resp
        × (key ≡ (if same resp.id "" then id else resp.id)))

  rebind-Renames :
      (client : ℕ) (id : String) (tun : BoundTunnel) (state : State)
      → same tun.proto "" ≡ true
      → OnReturn (λ (s : State) key. Renames id tun key) (rebind lib client id tun state)
  unfolding rebind
  rebind-Renames client id tun state h =
      let P : State → String → Type 0 = λ s key. Renames id tun key in
      OnReturn-if P (same tun.proto "") _ _ state
        (λ e.
          OnReturn-try P (λ e. AcceptError.transport Error.error_unknown)
            (listen_label rpc_io client tun.labels tun.extra.metadata tun.forwards_to state) _
            (λ s resp e1. (resp, ((client, (state, (s, e1))), refl))))
        (λ e. cc)

  try_reconnect-Renames :
      (old : SessionInner) (id : String) (tun : BoundTunnel) (first last : State)
      (reconnected : SessionInner × ℕ)
      → old.tunnels ≡ (id, tun) ∷ []
      → same tun.proto "" ≡ true
      → try_reconnect lib old first ≡ (last, ok reconnected)
      → (key : String) × (Renames id tun key × (reconnected.0.tunnels ≡ (key, tun) ∷ []))
  unfolding rebind_all set
  try_reconnect-Renames old id tun first last reconnected e labels h =
      let P : State → SessionInner × ℕ → Type 0 =
        λ s p. (key : String) × (Renames id tun key × (p.0.tunnels ≡ (key, tun) ∷ [])) in
      let Q : State → TunnelConns → Type 0 =
        λ s t. (key : String) × (Renames id tun key × (t ≡ (key, tun) ∷ [])) in
      OnReturn-ok P h (
        OnReturn-reconnect lib P old first (λ s last client incoming builder result e'.
          let Rebound : TunnelConns → Type 0 =
            λ t. rebind_all lib client t [] s ≡ (last, ok result) in
          OnReturn-ok Q (subst Rebound e e') (
            OnReturn-bind Q (rebind lib client id tun s) _ (λ s' key b. (
              key,
              (
                OnReturn-ok (λ (s : State) key. Renames id tun key) b
                    (rebind-Renames client id tun s labels),
                refl,
              ),
            )))))

  -- A labeled tunnel that is the only one of a session that reconnects is bound again under the id
  -- that the service answers, if that is not empty. Where this is not the id that the tunnel was
  -- started with, closing the tunnel by the latter leaves it in the table.
  pub close_tunnel-renamed :
      (old : SessionInner) (id : String) (tun : BoundTunnel) (first mid before after : State)
      (new closed : SessionInner) (incoming : ℕ)
      → old.tunnels ≡ (id, tun) ∷ []
      → same tun.proto "" ≡ true
      → try_reconnect lib old first ≡ (mid, ok (new, incoming))
      → close_tunnel lib new id before ≡ (after, ok closed)
      → (key : String) × (Renames id tun key
          × (new.tunnels ≡ (key, tun) ∷ [])
          × (same key id ≡ false → closed.tunnels ≡ (key, tun) ∷ []))
  close_tunnel-renamed old id tun first mid before after new closed incoming e labels h c =
      let (key, (renames, t)) =
        try_reconnect-Renames old id tun first mid (new, incoming) e labels h in
      let (made, others) = close_tunnel-get lib new closed id before after c in
      (
        key,
        (
          renames,
          t,
          λ d.
              ap (λ (i : SessionInner). i.tunnels) made
              ∙ ap (λ entries. delete entries id) t
              ∙ delete-absent id key tun d,
        ),
      )
