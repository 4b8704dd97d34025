-- ===== src/Ngrok/Rpc/Accept.antt =====
-- `IncomingStreams::accept` of ngrok/src/internals/raw_session.rs. The loop runs for so many
-- rounds; after the last it is still waiting.
use ngrok_rs.Common.{
  subst, ==_iff, ℕ, zero, suc, ◌<◌, ◌==◌, ◌≡◌, refl, ◌||◌, Bool, true, if◌then◌else◌, Option, none,
  some, Result, ok, err, Poll, ready, pending, arith,
}
use ngrok_rs.Errors.{Error}
use ngrok_rs.Ngrok.Io.{
  Async, Failure, ◌>>=◌, return, fail, map_err, OnReturn, OnReturn-try, OnReturn-if, OnReturn-ok,
}
use ngrok_rs.Ngrok.Proto.{proxy_req, restart_req, stop_req, update_req}
use ngrok_rs.Ngrok.Proto.Header.{ProxyHeader, ReadHeaderError, HeaderIo, read_from_stream}

-- `AcceptError` of raw_session.rs
pub data AcceptError (Cause : Type 0) : Type 0 where
  transport : Error → AcceptError Cause
  header : ReadHeaderError Cause → AcceptError Cause
  invalid_type : ℕ → AcceptError Cause

-- The next stream and its type, and how a header is read from it.
pub record AcceptIo (State Cause : Type 0) : Type 0 where
  pub accept_typed : ℕ → Async State Error (ℕ × ℕ)
  pub header_io : HeaderIo State Cause

pub record TunnelStream : Type 0 where
  pub header : ProxyHeader
  pub stream : ℕ

abbrev pub is_ignored : ℕ → Bool
is_ignored t = (t == restart_req || t == stop_req) || t == update_req

-- The rest of the loop, after a round that did not leave it.
abbrev pub looped :
    {State E A : Type 0}
    → State × Result (Failure E) (Option A)
    → (State → State × Poll (Result (Failure E) A))
    → State × Poll (Result (Failure E) A)
looped (state, ok none) rest = rest state
looped (state, ok (some a)) rest = (state, ready (ok a))
looped (state, err e) rest = (state, ready (err e))

module _ {State Cause : Type 0} (lib : AcceptIo State Cause) where
  open lib use {accept_typed, header_io}

  -- The `match` on the type of a stream
  unfoldable pub match_typ : ℕ → ℕ → Async State (AcceptError Cause) (Option TunnelStream)
  unfolding proxy_req restart_req stop_req update_req read_from_stream
  match_typ stream t =
      if is_ignored t
      then return none
      else if t == proxy_req
      then (do
        read ← map_err header (read_from_stream header_io stream)
        return (some (record { header = read; stream = stream })))
      else fail (invalid_type t)

  -- One round
  unfoldable pub accept_round : ℕ → Async State (AcceptError Cause) (Option TunnelStream)
  unfolding match_typ
  accept_round incoming = do
    (t, stream) ← map_err transport (accept_typed incoming)
    match_typ stream t

  unfoldable pub accept :
      ℕ → ℕ → State → State × Poll (Result (Failure (AcceptError Cause)) TunnelStream)
  unfolding accept_round
  accept zero incoming state = (state, pending)
  accept (suc rounds) incoming state = looped (accept_round incoming state) (accept rounds incoming)

  -- So many rounds took a stream each and went on.
  pub data Ignores (incoming : ℕ) : ℕ → State → State → Type 0 where
    start : {s : State} → Ignores incoming 0 s s
    ignore :
        {n : ℕ} {first mid last : State}
        → accept_round incoming first ≡ (mid, ok none)
        → Ignores incoming n mid last
        → Ignores incoming (suc n) first last

  -- The round that leaves the loop with this answer.
  abbrev pub Leaves : ℕ → State → State → Result (Failure (AcceptError Cause)) TunnelStream → Type 0
  Leaves incoming first last (ok t) = accept_round incoming first ≡ (last, ok (some t))
  Leaves incoming first last (err e) = accept_round incoming first ≡ (last, err e)

  accept-Leaves :
      (incoming more : ℕ) (first last : State)
      (r : Result (Failure (AcceptError Cause)) TunnelStream)
      → Leaves incoming first last r
      → accept (suc more) incoming first ≡ (last, ready r)
  unfolding accept
  accept-Leaves incoming more first last (ok t) h = rw h
  accept-Leaves incoming more first last (err e) h = rw h

  -- However many streams are ignored before a round that leaves the loop, the answer is that
  -- round's, given one round more than there are such streams.
  pub accept-Ignores :
      (incoming n rounds : ℕ) (first mid last : State)
      (r : Result (Failure (AcceptError Cause)) TunnelStream)
      → Ignores incoming n first mid
      → Leaves incoming mid last r
      → n < rounds
      → accept rounds incoming first ≡ (last, ready r)
  unfolding accept
  accept-Ignores incoming n zero first mid last r i h lt = ground arith
  accept-Ignores incoming n (suc more) first mid last r start h lt =
      accept-Leaves incoming more first last r h
  accept-Ignores incoming n (suc more) first mid last r (ignore {n = k} {mid = next} e i) h lt =
      rw (e, accept-Ignores incoming k more next mid last r i h (ground arith))

  looped-ready :
      (incoming : ℕ) (first last : State) (r : Result (Failure (AcceptError Cause)) TunnelStream)
      (p : State × Result (Failure (AcceptError Cause)) (Option TunnelStream))
      (rest : State → State × Poll (Result (Failure (AcceptError Cause)) TunnelStream))
      → ((mid : State)
          → rest mid ≡ (last, ready r)
          → (n : ℕ) × ((end : State) × (Ignores incoming n mid end × Leaves incoming end last r)))
      → accept_round incoming first ≡ p
      → looped p rest ≡ (last, ready r)
      → (n : ℕ) × ((mid : State) × (Ignores incoming n first mid × Leaves incoming mid last r))
  looped-ready incoming first last (ok t) (s, ok none) rest later e h =
      let (n, (mid, (i, l))) = later s h in (suc n, (mid, (ignore e i, l)))
  looped-ready incoming first last (err f) (s, ok none) rest later e h =
      let (n, (mid, (i, l))) = later s h in (suc n, (mid, (ignore e i, l)))
  looped-ready incoming first last (ok t) (s, ok (some t')) rest later e h =
      (0, (first, (start, cc)))
  looped-ready incoming first last (err f) (s, ok (some t')) rest later e h = cc
  looped-ready incoming first last (ok t) (s, err f') rest later e h = cc
  looped-ready incoming first last (err f) (s, err f') rest later e h = (0, (first, (start, cc)))

  -- An answer comes from the first round that leaves the loop: every stream before was ignored.
  pub accept-ready :
      (incoming rounds : ℕ) (first last : State)
      (r : Result (Failure (AcceptError Cause)) TunnelStream)
      → accept rounds incoming first ≡ (last, ready r)
      → (n : ℕ) × ((mid : State) × (Ignores incoming n first mid × Leaves incoming mid last r))
  unfolding accept
  accept-ready incoming zero first last r h = cc
  accept-ready incoming (suc rounds) first last r h =
      looped-ready incoming first last r (accept_round incoming first) (accept rounds incoming)
        (λ mid e. accept-ready incoming rounds mid last r e) refl h

  -- What a round took: a stream that is not for it, or the connection of a stream with its header.
  abbrev pub Took : ℕ → State → State → Option TunnelStream → Type 0
  Took incoming first last none =
      (t : ℕ) × ((stream : ℕ) × ((accept_typed incoming first ≡ (last, ok (t, stream)))
          × (is_ignored t ≡ true)))
  Took incoming first last (some conn) =
      (mid : State) × ((accept_typed incoming first ≡ (mid, ok (proxy_req, conn.stream)))
        × (read_from_stream header_io conn.stream mid ≡ (last, ok conn.header)))

  match_typ-Took :
      (incoming : ℕ) (first mid : State) (t stream : ℕ)
      → accept_typed incoming first ≡ (mid, ok (t, stream))
      → OnReturn (Took incoming first) (match_typ stream t mid)
  unfolding match_typ
  match_typ-Took incoming first mid t stream h =
      let P = Took incoming first in
      let Taken : ℕ → Type 0 = λ typ. accept_typed incoming first ≡ (mid, ok (typ, stream)) in
      OnReturn-if P (is_ignored t) _ _ mid (λ e. (t, (stream, (h, e))))
        (λ e.
          OnReturn-if P (t == proxy_req) _ _ mid
            (λ e'.
              OnReturn-try P header (read_from_stream header_io stream mid) _
                (λ last read r. (mid, (subst Taken ((==_iff t proxy_req).0 e') h, r))))
            (λ e'. tt))

  -- A round that returns took a stream that restarts, stops or updates the agent and did nothing
  -- with it, or it took one of the proxy type and read the header of the connection from it.
  pub accept_round-Took :
      (incoming : ℕ) (first last : State) (taken : Option TunnelStream)
      → accept_round incoming first ≡ (last, ok taken)
      → Took incoming first last taken
  unfolding accept_round
  accept_round-Took incoming first last taken h = OnReturn-ok (Took incoming first) h (
      OnReturn-try (Took incoming first) transport (accept_typed incoming first) _
        (λ mid p e. match_typ-Took incoming first mid p.0 p.1 e))
