-- ===== src/Ngrok/Session/Runs.antt =====
-- Concrete runs of ngrok/src/session.rs, and its theorems at concrete inputs.
use Prim.Native.String.{String}
use ngrok_rs.Common.{none, ℕ, ◌≡◌, refl, false, List, [], ◌∷◌, some, ok, err, ready, arith}
use ngrok_rs.Common.Names.{Distinct, get, set, delete, same}
use ngrok_rs.Common.Integers.{negsuc, as_usize}
use ngrok_rs.Errors.{Error}
use ngrok_rs.Frame.{Bytes}
use ngrok_rs.Ngrok.Io.{transport, raised, panicked}
use ngrok_rs.Ngrok.Proto.{proxy_req}
use ngrok_rs.Ngrok.Proto.Endpoints.{BindOpts, default_tcp}
use ngrok_rs.Ngrok.Config.Tcp.{default_options, tcp_config}
use ngrok_rs.Ngrok.Rpc.{response, auth}
use ngrok_rs.Ngrok.Rpc.Accept as Accept
use ngrok_rs.Ngrok.Rpc.Peer.{Script, script, header_of, header_io, accept_io}
use ngrok_rs.Ngrok.Session.{BoundTunnel, SessionInner, SessionIo, default_builder}
use ngrok_rs.Ngrok.Session.Peer.{session_io, endpoint, labeled, holds}
use ngrok_rs.Ngrok.Session.Connect.{connect_inner}
use ngrok_rs.Ngrok.Session.Tunnels.{TunnelInner, start_tunnel, close_tunnel}
use ngrok_rs.Ngrok.Session.Incoming.{accept_one, try_reconnect, accept_incoming}
use ngrok_rs.Ngrok.Session.Heartbeats.{Authorised, connect_inner-ok}
use ngrok_rs.Ngrok.Session.Routing.{HasOpts, Started, Routed, start_tunnel-get, accept_one-Routed}
use ngrok_rs.Ngrok.Session.Rebinding.{try_reconnect-get}
use ngrok_rs.Ngrok.Session.Life.{connects, Live-table}
use ngrok_rs.Ngrok.Session.Failures.{Kept, accept_incoming-negative, accept_incoming-Kept}
use ngrok_rs.Ngrok.Session.Overlap.{Drops, start_tunnel-lost}
use ngrok_rs.Ngrok.Session.Renamed.{Renames, close_tunnel-renamed}

abbrev fresh : SessionInner
fresh = record {
  client = 4;
  tunnels = [];
  builder = record (default_builder 0 0) { id = some "one" };
}

connects_fresh :
    connect_inner session_io (default_builder 0 0) (script ((1 ∷ []) ∷ []) [])
    ≡ (script [] [], ok (fresh, 4))
unfolding connect_inner auth
connects_fresh = refl

connect_inner-ok_example :
    Authorised session_io
      (default_builder 0 0)
      (script ((1 ∷ []) ∷ []) [])
      (script [] [])
      (fresh, 4)
connect_inner-ok_example =
    connect_inner-ok session_io (default_builder 0 0) (script ((1 ∷ []) ∷ []) []) (script [] [])
      (fresh, 4) connects_fresh

Live-table_example :
    Distinct fresh.tunnels
    × ((id : String) (tun : BoundTunnel) → get fresh.tunnels id ≡ some tun → HasOpts tun)
Live-table_example =
    Live-table session_io fresh
      (connects (default_builder 0 0) (script ((1 ∷ []) ∷ []) []) (script [] []) 4 connects_fresh)

abbrev tunnel : TunnelInner
tunnel = record {
  id = "one";
  proto = "tcp";
  url = "url";
  labels = [];
  forwards_to = "rust";
  metadata = "";
  incoming = 1;
}

abbrev bound : BoundTunnel
bound = record {
  proto = "tcp";
  opts = some (BindOpts.tcp default_tcp);
  extra = record { token = record { text = "token" }; ip_policy_ref = ""; metadata = "" };
  labels = [];
  forwards_to = "rust";
  tx = 1;
}

starts_tcp :
    start_tunnel session_io fresh (tcp_config default_options) (script ((1 ∷ []) ∷ []) [])
    ≡ (script [] [], ok (record fresh { tunnels = ("one", bound) ∷ [] }, tunnel))
unfolding start_tunnel set tcp_config
starts_tcp = refl

start_tunnel-get_example :
    Started fresh
      (tcp_config default_options)
      (record fresh { tunnels = ("one", bound) ∷ [] }, tunnel)
start_tunnel-get_example =
    start_tunnel-get session_io fresh (tcp_config default_options) (script ((1 ∷ []) ∷ []) [])
      (script [] []) (record fresh { tunnels = ("one", bound) ∷ [] }, tunnel) starts_tcp

-- A refusal is an error, although the message could be read as a response.
refused :
    start_tunnel session_io fresh (tcp_config default_options) (script ((0 ∷ []) ∷ []) [])
    ≡ (script [] [], err (raised (response "refused")))
unfolding start_tunnel set tcp_config
refused = refl

abbrev both : SessionInner
both = holds (("one", endpoint 2) ∷ ("two", endpoint 1) ∷ [])

abbrev conn : Accept.TunnelStream
conn = record { header = header_of; stream = 9 }

-- Two streams for the agent itself are passed over.
accepts_conn :
    Accept.accept accept_io 3 4 (script [] (4 ∷ 6 ∷ 3 ∷ [])) ≡ (script [] [], ready (ok conn))
unfolding Accept.accept as_usize
accepts_conn = refl

accept_one-Routed_example :
    Routed session_io both conn
      (script [] [])
      (accept_one session_io 3 4 both (script [] (4 ∷ 6 ∷ 3 ∷ [])))
accept_one-Routed_example =
    accept_one-Routed session_io 3 4 both conn (script [] (4 ∷ 6 ∷ 3 ∷ [])) (script [] [])
      accepts_conn

-- The tunnel that no longer receives is removed.
removes :
    accept_one session_io 3 4 both (script [] (4 ∷ 6 ∷ 3 ∷ []))
    ≡ (script [] [], ready (ok (holds (("two", endpoint 1) ∷ []))))
unfolding accept_one as_usize get delete
removes = refl

lost :
    accept_one session_io 1 4 both (script [] [])
    ≡ (script [] [], ready (err (raised (transport Error.session_closed))))
unfolding accept_one
lost = refl

abbrev rebuilt : SessionInner
rebuilt = record fresh { tunnels = ("one", endpoint 2) ∷ ("two", endpoint 1) ∷ [] }

reconnects_both :
    try_reconnect session_io both (script ((1 ∷ []) ∷ (1 ∷ []) ∷ (1 ∷ []) ∷ []) [])
    ≡ (script [] [], ok (rebuilt, 4))
unfolding try_reconnect set
reconnects_both = refl

both-Distinct : Distinct both.tunnels
unfolding get
both-Distinct = (refl, (refl, tt))

try_reconnect-get_example : get rebuilt.tunnels "two" ≡ get both.tunnels "two"
try_reconnect-get_example =
    try_reconnect-get session_io both (script ((1 ∷ []) ∷ (1 ∷ []) ∷ (1 ∷ []) ∷ []) [])
      (script [] []) (rebuilt, 4) (refl, (refl, tt)) both-Distinct reconnects_both "two"

accept_incoming-Kept_example : Kept both (accept_incoming session_io 1 both 4 (script [] []))
accept_incoming-Kept_example =
    accept_incoming-Kept session_io 1 4 both (script [] []) (λ s. (s, refl)) (refl, (refl, tt))
      both-Distinct

-- The connection announces a header of -1 bytes.
abbrev negative_io : SessionIo Script ℕ
negative_io = record session_io {
  accept_io = record accept_io { header_io = header_io (negsuc 0) };
}

accept_incoming-negative_example :
    accept_incoming negative_io 1 both 4 (script [] (3 ∷ [])) ≡ (script [] [], ready (err panicked))
unfolding proxy_req
accept_incoming-negative_example =
    accept_incoming-negative negative_io 0 4 9 0 both (script [] (3 ∷ [])) (script [] [])
      (script [] []) refl refl (omega arith)

abbrev one_labeled : SessionInner
one_labeled = holds (("edge", labeled) ∷ [])

reconnects_labeled :
    try_reconnect session_io one_labeled (script ((1 ∷ []) ∷ (2 ∷ []) ∷ []) [])
    ≡ (script [] [], ok (record fresh { tunnels = ("many", labeled) ∷ [] }, 4))
unfolding try_reconnect set
reconnects_labeled = refl

closes_labeled :
    close_tunnel session_io
      (record fresh { tunnels = ("many", labeled) ∷ [] })
      "edge"
      (script ((1 ∷ []) ∷ []) [])
    ≡ (script [] [], ok (record fresh { tunnels = ("many", labeled) ∷ [] }))
unfolding close_tunnel delete
closes_labeled = refl

close_tunnel-renamed_example :
    (key : String) × (Renames session_io "edge" labeled key
      × ◌≡◌ {A = List (String × BoundTunnel)} (("many", labeled) ∷ []) ((key, labeled) ∷ [])
      × (same key "edge" ≡ false
          → ◌≡◌ {A = List (String × BoundTunnel)} (("many", labeled) ∷ []) ((key, labeled) ∷ [])))
close_tunnel-renamed_example =
    close_tunnel-renamed session_io one_labeled "edge" labeled
      (script ((1 ∷ []) ∷ (2 ∷ []) ∷ []) []) (script [] []) (script ((1 ∷ []) ∷ []) [])
      (script [] []) (record fresh { tunnels = ("many", labeled) ∷ [] })
      (record fresh { tunnels = ("many", labeled) ∷ [] }) 4 refl refl reconnects_labeled
      closes_labeled

abbrev answers : List Bytes
answers = (1 ∷ []) ∷ (1 ∷ []) ∷ []

reconnects_none :
    try_reconnect session_io fresh (script ((1 ∷ []) ∷ []) []) ≡ (script [] [], ok (fresh, 4))
unfolding try_reconnect
reconnects_none = refl

starts_before :
    start_tunnel session_io fresh (tcp_config default_options) (script answers [])
    ≡ (script ((1 ∷ []) ∷ []) [], ok (record fresh { tunnels = ("one", bound) ∷ [] }, tunnel))
unfolding start_tunnel set tcp_config
starts_before = refl

start_tunnel-lost_example :
    ((b : BoundTunnel) × ((get (("one", bound) ∷ []) "one" ≡ some b) × (b.tx ≡ 1)))
    × (get fresh.tunnels "one" ≡ none)
    × Drops session_io fresh "one"
unfolding get
start_tunnel-lost_example =
    start_tunnel-lost session_io fresh (tcp_config default_options) (script answers [])
      (script ((1 ∷ []) ∷ []) []) (script [] []) (record fresh { tunnels = ("one", bound) ∷ [] })
      fresh tunnel 4 tt tt refl starts_before reconnects_none
