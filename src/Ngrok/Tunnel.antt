-- ===== src/Ngrok/Tunnel.antt =====
-- ngrok/src/tunnel.rs and tunnel_ext.rs: closing a tunnel, and forwarding its connections to a local
-- address. The sockets and the channel are arguments, and so is spawning a task.
pub mod Copying
pub mod Forwarding
mod Runs
use Prim.Native.String.{String}
use ngrok_rs.Common.{
  ℕ, zero, suc, true, false, Bool, List, [], ◌∷◌, Option, none, some, Result, ok, err, Poll, ready,
  pending,
}
use ngrok_rs.Frame.{Bytes}
use ngrok_rs.Ngrok.Io.{
  Async, AcceptError, IoError, Failure, raised, panicked, not_connected, ◌>>=◌, ◌>>◌, return,
  map_err, and_then, convert,
}
use ngrok_rs.Ngrok.Config.{TunnelConfig}
use ngrok_rs.Ngrok.Rpc.{RpcError}
use ngrok_rs.Ngrok.Session.{Conn, SessionInner, SessionIo, SocketAddr}
use ngrok_rs.Ngrok.Session.Tunnels.{TunnelInner, unwrap, start_tunnel, close_tunnel}

module _ {State Cause : Type 0} (lib : SessionIo State Cause) where
  -- `TunnelBuilder::listen` of a builder with this session and these options
  unfoldable pub listen :
      Option SessionInner → TunnelConfig → Async State (RpcError Cause) (SessionInner × TunnelInner)
  unfolding start_tunnel
  listen session options = do inner ← unwrap session; start_tunnel lib inner options

  -- `TunnelInner::close`, where closing the receiver is the channel's.
  unfoldable pub close :
      (ℕ → State → State) → SessionInner → TunnelInner → Async State (RpcError Cause) SessionInner
  unfolding close_tunnel
  close close_receiver inner self = do
    inner' ← close_tunnel lib inner self.id
    λ state. (close_receiver self.incoming state, ok inner')

-- `local` connects to the address that is forwarded to, and `on_error` is the caller's.
pub record ForwardIo (State Cause : Type 0) : Type 0 where
  pub read : ℕ → ℕ → Async State (IoError Cause) Bytes
  pub write_all : ℕ → Bytes → Async State (IoError Cause) (Unit {0})
  pub try_next : ℕ → Async State AcceptError (Option Conn)
  pub lookup_host : String → Async State (IoError Cause) (List SocketAddr)
  pub connect : List SocketAddr → Async State (IoError Cause) ℕ
  pub connect_unix : String → Async State (IoError Cause) ℕ
  pub peer_addr : ℕ → Async State (IoError Cause) (Unit {0})
  pub join_streams : ℕ → ℕ → State → State
  pub on_error : IoError Cause → Conn → State → State

module _ {State Cause : Type 0} (lib : ForwardIo State Cause) where
  open lib use {
    read, write_all, try_next, lookup_host, connect, connect_unix, peer_addr, join_streams,
    on_error,
  }

  -- The rest of the loop of `forward_bytes`, after its turn.
  abbrev pub copied :
      State × Result (Failure (IoError Cause)) Bool
      → (State → State × Poll (Result (Failure (IoError Cause)) (Unit {0})))
      → State × Poll (Result (Failure (IoError Cause)) (Unit {0}))
  copied (state, ok true) rest = rest state
  copied (state, ok false) rest = (state, ready (ok tt))
  copied (state, err e) rest = (state, ready (err e))

  -- `w.write_all(&buf[0..n])`, if n is not 0
  abbrev pub write_some : ℕ → Bytes → Async State (IoError Cause) Bool
  write_some w [] = return false
  write_some w (b ∷ buf) = write_all w (b ∷ buf) >> return true

  -- A turn of `forward_bytes`: whether there is another.
  unfoldable pub copy_some : ℕ → ℕ → Async State (IoError Cause) Bool
  copy_some r w = do buf ← read r 1024; write_some w buf

  -- `forward_bytes`, for so many turns
  unfoldable pub forward_bytes :
      ℕ → ℕ → ℕ → State → State × Poll (Result (Failure (IoError Cause)) (Unit {0}))
  unfolding copy_some
  forward_bytes zero r w state = (state, pending)
  forward_bytes (suc turns) r w state = copied (copy_some r w state) (forward_bytes turns r w)

  -- `local_conn.peer_addr().unwrap()`
  abbrev pub unwrap_peer :
      State × Result (Failure (IoError Cause)) (Unit {0})
      → State × Result (Failure (IoError Cause)) (Unit {0})
  unwrap_peer (state, ok u) = (state, ok u)
  unwrap_peer (state, err e) = (state, err panicked)

  abbrev pub joined :
      Conn
      → State × Result (Failure (IoError Cause)) ℕ
      → State × Result (Failure (IoError Cause)) Bool
  joined conn (state, ok local_conn) =
      and_then (unwrap_peer (peer_addr local_conn state))
        (λ u state. (join_streams conn.stream local_conn state, ok true))
  joined conn (state, err (raised error)) = (on_error error conn state, ok true)
  joined conn (state, err panicked) = (state, err panicked)

  abbrev pub handle_conn :
      Async State (IoError Cause) ℕ → Option Conn → Async State (IoError Cause) Bool
  handle_conn local none = return false
  handle_conn local (some conn) = λ state. joined conn (local state)

  -- `handle_one`, and `handle_one_unix`, which differ in how they connect
  unfoldable pub handle_one : ℕ → List SocketAddr → Async State (IoError Cause) Bool
  handle_one this addrs = do
    conn ← map_err not_connected (try_next this)
    handle_conn (connect addrs) conn

  unfoldable pub handle_one_unix : ℕ → String → Async State (IoError Cause) Bool
  handle_one_unix this addr = do
    conn ← map_err not_connected (try_next this)
    handle_conn (connect_unix addr) conn

  -- The loop of `forward_conns` and of `forward_unix_conns`, for so many turns
  unfoldable pub forward_loop :
      ℕ
      → Async State (IoError Cause) Bool
      → State
      → State × Poll (Result (Failure (IoError Cause)) (Unit {0}))
  forward_loop zero handle state = (state, pending)
  forward_loop (suc turns) handle state = copied (handle state) (forward_loop turns handle)

  abbrev pub looked_up :
      State × Result (Failure (IoError Cause)) (List SocketAddr)
      → (List SocketAddr → State → State × Poll (Result (Failure (IoError Cause)) (Unit {0})))
      → State × Poll (Result (Failure (IoError Cause)) (Unit {0}))
  looked_up (state, ok addrs) rest = rest addrs state
  looked_up (state, err e) rest = (state, ready (err e))

  unfoldable pub forward_conns :
      ℕ → ℕ → String → State → State × Poll (Result (Failure (IoError Cause)) (Unit {0}))
  unfolding forward_loop handle_one
  forward_conns turns this addr state =
      looked_up (lookup_host addr state) (λ addrs. forward_loop turns (handle_one this addrs))

  unfoldable pub forward_unix_conns :
      ℕ → ℕ → String → State → State × Poll (Result (Failure (IoError Cause)) (Unit {0}))
  unfolding forward_loop handle_one_unix
  forward_unix_conns turns this addr = forward_loop turns (handle_one_unix this addr)
