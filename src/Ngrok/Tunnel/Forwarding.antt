-- ===== src/Ngrok/Tunnel/Forwarding.antt =====
-- How the forwarding of ngrok/src/tunnel_ext.rs ends.
use Prim.Native.String.{String}
use ngrok_rs.Common.{
  ℕ, zero, suc, ◌≡◌, refl, subst, true, false, Bool, List, Option, none, some, Result, ok, err,
  Poll, ready,
}
use ngrok_rs.Ngrok.Io.{
  Async, AcceptError, IoError, Failure, raised, panicked, not_connected, convert, and_then,
}
use ngrok_rs.Ngrok.Session.{Conn, SocketAddr}
use ngrok_rs.Ngrok.Tunnel.{
  ForwardIo, copied, unwrap_peer, joined, handle_conn, handle_one, looked_up, forward_loop,
  forward_conns,
}

module _ {State Cause : Type 0} (lib : ForwardIo State Cause) where
  open lib use {try_next, connect, peer_addr, lookup_host, on_error}

  -- Why a turn ends the loop: the tunnel has no more connections, or it gave an error.
  abbrev pub Ended : ℕ → State → State → Result (Failure (IoError Cause)) (Unit {0}) → Type 0
  Ended this first last (ok u) = try_next this first ≡ (last, ok none)
  Ended this first last (err (raised e)) =
      (error : AcceptError) × ((e ≡ not_connected error)
        × (try_next this first ≡ (last, err (raised error))))
  Ended this first last (err panicked) = Unit

  abbrev EndedBy : ℕ → State → State × Result (Failure (IoError Cause)) Bool → Type 0
  EndedBy this first (last, ok true) = Unit
  EndedBy this first (last, ok false) = Ended this first last (ok tt)
  EndedBy this first (last, err e) = Ended this first last (err e)

  unwrap_peer-EndedBy :
      (this : ℕ) (first : State) (conn : Conn) (local_conn : ℕ)
      (p : State × Result (Failure (IoError Cause)) (Unit {0}))
      → EndedBy this first (
          and_then
            (unwrap_peer lib p)
            (λ u state. (lib.join_streams conn.stream local_conn state, ok true)))
  unwrap_peer-EndedBy this first conn local_conn (s, ok u) = tt
  unwrap_peer-EndedBy this first conn local_conn (s, err e) = tt

  joined-EndedBy :
      (this : ℕ) (first : State) (conn : Conn) (p : State × Result (Failure (IoError Cause)) ℕ)
      → EndedBy this first (joined lib conn p)
  joined-EndedBy this first conn (s, ok local_conn) =
      unwrap_peer-EndedBy this first conn local_conn (peer_addr local_conn s)
  joined-EndedBy this first conn (s, err (raised e)) = tt
  joined-EndedBy this first conn (s, err panicked) = tt

  handle-EndedBy :
      (this : ℕ) (first : State) (local : Async State (IoError Cause) ℕ)
      (p : State × Result (Failure AcceptError) (Option Conn))
      → try_next this first ≡ p
      → EndedBy this first (and_then (convert not_connected p) (handle_conn lib local))
  handle-EndedBy this first local (s, ok none) h = h
  handle-EndedBy this first local (s, ok (some conn)) h = joined-EndedBy this first conn (local s)
  handle-EndedBy this first local (s, err (raised e)) h = (e, (refl, h))
  handle-EndedBy this first local (s, err panicked) h = tt

  -- Some turn ended the loop.
  abbrev pub EndsWith : ℕ → State → Result (Failure (IoError Cause)) (Unit {0}) → Type 0
  EndsWith this last r = (before : State) × Ended this before last r

  failed :
      {s last : State} {f f' : Failure (IoError Cause)}
      → ◌≡◌ {A = State × Poll (Result (Failure (IoError Cause)) (Unit {0}))}
          (s, ready (err f'))
          (last, ready (err f))
      → ◌≡◌ {A = State × Result (Failure (IoError Cause)) Bool} (s, err f') (last, err f)
  failed e = cc

  copied-EndsWith :
      (this : ℕ) (first last : State) (r : Result (Failure (IoError Cause)) (Unit {0}))
      (p : State × Result (Failure (IoError Cause)) Bool)
      (rest : State → State × Poll (Result (Failure (IoError Cause)) (Unit {0})))
      → EndedBy this first p
      → ((s : State) → rest s ≡ (last, ready r) → EndsWith this last r)
      → copied lib p rest ≡ (last, ready r)
      → EndsWith this last r
  copied-EndsWith this first last r (s, ok true) rest h later e = later s e
  copied-EndsWith this first last (ok u) (s, ok false) rest h later e = (first, cc)
  copied-EndsWith this first last (err f) (s, ok false) rest h later e = cc
  copied-EndsWith this first last (ok u) (s, err f) rest h later e = cc
  copied-EndsWith this first last (err f) (s, err f') rest h later e =
      (first, subst (EndedBy this first) (failed e) h)

  loop-EndsWith :
      (this turns : ℕ) (handle : Async State (IoError Cause) Bool) (first last : State)
      (r : Result (Failure (IoError Cause)) (Unit {0}))
      → ((s : State) → EndedBy this s (handle s))
      → forward_loop lib turns handle first ≡ (last, ready r)
      → EndsWith this last r
  unfolding forward_loop
  loop-EndsWith this zero handle first last r h e = cc
  loop-EndsWith this (suc turns) handle first last r h e =
      copied-EndsWith this first last r (handle first) (forward_loop lib turns handle) (h first)
        (λ s e'. loop-EndsWith this turns handle s last r h e') e

  -- Once the address is resolved, forwarding ends without an error only where the tunnel has no
  -- more connections, and with an error only where the tunnel gave one: a local connection that
  -- fails is handed to the caller and does not end it.
  pub forward_conns-EndsWith :
      (turns this : ℕ) (addr : String) (addrs : List SocketAddr) (first found last : State)
      (r : Result (Failure (IoError Cause)) (Unit {0}))
      → lookup_host addr first ≡ (found, ok addrs)
      → forward_conns lib turns this addr first ≡ (last, ready r)
      → EndsWith this last r
  unfolding forward_conns handle_one
  forward_conns-EndsWith turns this addr addrs first found last r e h =
      loop-EndsWith this turns (handle_one lib this addrs) found last r
        (λ s. handle-EndedBy this s (connect addrs) (try_next this s) refl)
        (subst
          (λ p.
            looked_up lib p (λ addrs. forward_loop lib turns (handle_one lib this addrs))
            ≡ (last, ready r))
          e h)
