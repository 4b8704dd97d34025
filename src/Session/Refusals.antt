-- ===== src/Session/Refusals.antt =====
-- The error paths of `Reader` in muxado/src/session.rs.
use ngrok_rs.Common.{
  ℕ, ◌<◌, ◌≡◌, refl, sym, ap, ◌∙◌, arith, Bool, true, false, List, [], ◌∷◌, ◌++◌, length, map,
  Option, none, some, Result, ok, err, OnOk, OnOk-ok, OnOk-bind, Panic, ready, pending,
}
use ngrok_rs.Common.Maps.{lookup, insert}
use ngrok_rs.Errors.{Error}
use ngrok_rs.Frame.{Bytes, Header, Frame, is_syn, rst_frame}
use ngrok_rs.StreamManager.{
  StreamHandle, StreamManager, OpenReq, create_stream, close_senders, close_channel,
}
use ngrok_rs.StreamManager.Sending.{
  Channel, SendResult, shut, is_bare_fin, is_data, send_to_stream, send_polls, poll_send,
}
use ngrok_rs.StreamManager.Flow.{data_on}
use ngrok_rs.StreamManager.Overrun.{data_beyond_window}
use ngrok_rs.Session.{
  Reader, Answers, Handled, Incoming, frame, last, create, accept_syn, send_sys, to_stream,
  dispatch, handle_frame, finish, run,
}

-- Without a SYN the reader goes straight to the frame's type.
no_syn :
    (r : Reader) (f : Frame) (answers : Answers)
    → is_syn f ≡ false
    → handle_frame r f answers ≡ dispatch r f answers f.header.typ
unfolding handle_frame accept_syn
no_syn r f answers h = simp (h, accept_syn, handle_frame)

-- The reader's answer to an error of the stream manager.
refused :
    (r : Reader) (f : Frame) (answers : Answers) (m : StreamManager) (e : Error)
    → send_to_stream r.manager f answers.stream ≡ (m, ready (err e))
    → answers.sys ≡ ok tt
    → to_stream r f answers ≡ (
      record r { manager = m; sys_tx = r.sys_tx ++ (rst_frame f.header.stream_id e ∷ []) },
      ready (ok tt),
    )
unfolding to_stream send_sys
refused r f answers m e h s = simp (h, s, to_stream, send_sys)

-- Data without a SYN that overruns the window of its stream, which is open for data, is answered
-- with an RST that carries the flow control error, while the system channel takes it. The
-- stream's writers are closed and nothing is delivered; the other streams and the reader go on.
pub overrun_is_reset :
    (r : Reader) (id : ℕ) (hd : Header) (bs : Bytes) (h : StreamHandle) (answers : Answers)
    (c : Channel) (cs : List Channel)
    → is_syn (data_on id hd bs) ≡ false
    → lookup id r.manager.streams ≡ some h
    → h.data_write_closed ≡ false
    → h.window < length bs
    → answers.stream ≡ c ∷ cs
    → answers.sys ≡ ok tt
    → handle_frame r (data_on id hd bs) answers
      ≡ ok (
        record r {
          manager = record (r.manager) {
            streams = insert id (shut Error.stream_closed h) r.manager.streams;
          };
          sys_tx = r.sys_tx ++ (rst_frame id Error.flow_control ∷ []);
        },
        ready (ok tt),
      )
unfolding dispatch
overrun_is_reset r id hd bs h answers c cs quiet q opened beyond a s =
    no_syn r (data_on id hd bs) answers quiet
    ∙ ap ok (
        refused r (data_on id hd bs) answers _ Error.flow_control
          (ap (send_to_stream r.manager (data_on id hd bs)) a
            ∙ data_beyond_window r.manager id hd bs c cs h q opened beyond)
          s)

unknown_refused :
    (m : StreamManager) (id : ℕ) (hd : Header) (bs : Bytes) (c : Channel) (cs : List Channel)
    → lookup id m.streams ≡ none
    → is_bare_fin (data_on id hd bs) ≡ false
    → send_to_stream m (data_on id hd bs) (c ∷ cs) ≡ (m, ready (err Error.stream_closed))
unfolding send_to_stream send_polls poll_send is_data
unknown_refused m id hd bs c cs q full = simp (q, full, send_to_stream, send_polls, poll_send)

-- Data without a SYN for a stream that the manager does not have, but for a bare FIN, is answered
-- with an RST that says that the stream is closed, while the system channel takes it, and changes
-- nothing else.
pub unknown_stream_is_reset :
    (r : Reader) (id : ℕ) (hd : Header) (bs : Bytes) (answers : Answers) (c : Channel)
    (cs : List Channel)
    → is_syn (data_on id hd bs) ≡ false
    → lookup id r.manager.streams ≡ none
    → is_bare_fin (data_on id hd bs) ≡ false
    → answers.stream ≡ c ∷ cs
    → answers.sys ≡ ok tt
    → handle_frame r (data_on id hd bs) answers
      ≡ ok
          (record r { sys_tx = r.sys_tx ++ (rst_frame id Error.stream_closed ∷ []) }, ready (ok tt))
unfolding dispatch
unknown_stream_is_reset r id hd bs answers c cs quiet q full a s =
    no_syn r (data_on id hd bs) answers quiet
    ∙ ap ok (
        refused r (data_on id hd bs) answers r.manager Error.stream_closed
          (ap (send_to_stream r.manager (data_on id hd bs)) a
            ∙ unknown_refused r.manager id hd bs c cs q full)
          s)

create_full :
    (m : StreamManager) (id : Option ℕ) (req : OpenReq)
    → length m.streams ≡ m.stream_limit
    → create_stream m id req ≡ (m, err Error.streams_exhausted, false)
unfolding create_stream
create_full m id req full = ground arith

-- A SYN from the peer when the manager is at its limit ends the whole session: the reader handles
-- no further frame, and it closes the channels to all the streams that there are.
pub syn_at_limit_ends_session :
    (r : Reader) (f : Frame) (answers : Answers) (rest : List Incoming)
    → is_syn f ≡ true
    → length r.manager.streams ≡ r.manager.stream_limit
    → run r (frame f answers ∷ rest) ≡ ok (finish r)
unfolding run handle_frame accept_syn
syn_at_limit_ends_session r f answers rest syn full = simp (handled, run)
  where
    accepted : accept_syn r f answers ≡ (r, err Error.streams_exhausted)
    accepted = simp (
      syn,
      create_full r.manager (some f.header.stream_id) (create r.window false).0 full,
      accept_syn,
    )

    handled : handle_frame r f answers ≡ ok (r, ready (err Error.streams_exhausted))
    handled = simp (accepted, handle_frame)

-- Whether a handle's channel is closed, if there is a handle.
abbrev shut_off : Option StreamHandle → Bool
shut_off none = true
shut_off (some h) = h.to_stream.closed

lookup-closed :
    (id : ℕ) (s : List (ℕ × StreamHandle))
    → shut_off (lookup id (map (λ (entry : ℕ × StreamHandle). (entry.0, close_channel entry.1)) s))
      ≡ true
unfolding lookup
lookup-closed id [] = refl
lookup-closed id ((k, g) ∷ s) = ground (arith, lookup-closed id s)

-- What is left of a session whose reader has ended.
abbrev pub IsOver : Handled → Type 0
IsOver (r, pending) = Unit
IsOver (r, ready result) =
    (result ≡ err Error.session_closed)
    × ((id : ℕ) (h : StreamHandle)
        → lookup id r.manager.streams ≡ some h
        → h.to_stream.closed ≡ true)

finish-IsOver : (r : Reader) → IsOver (finish r)
unfolding finish close_senders
finish-IsOver r = (refl, λ id h q. sym (ap shut_off q) ∙ lookup-closed id r.manager.streams)

run-IsOver : (r : Reader) (incoming : List Incoming) → OnOk IsOver (run r incoming)
unfolding run
run-IsOver r [] = tt
run-IsOver r (last ∷ rest) = finish-IsOver r
run-IsOver r (frame f answers ∷ rest) =
    OnOk-bind (λ (p : Handled). Unit) IsOver (handle_frame r f answers) _
      (trivially (handle_frame r f answers)) (λ p h. turn p.0 p.1 (run-IsOver p.0 rest))
  where
    trivially : (q : Result Panic Handled) → OnOk (λ (p : Handled). Unit {0}) q
    trivially (ok p) = tt
    trivially (err e) = tt

    turn :
        (r' : Reader) (answer : SendResult)
        → OnOk IsOver (run r' rest)
        → OnOk IsOver (elim answer [
          | pending ↦ ok (r', pending)
          | ready result ↦ elim result [ err _ ↦ ok (finish r') | ok _ ↦ run r' rest ]
        ])
    turn r' pending k = tt
    turn r' (ready (err _)) k = finish-IsOver r'
    turn r' (ready (ok _)) k = k

-- Whatever the connection gives, when the reader's loop comes to an end, by the end of the
-- connection, by an error of it or by a frame that is an error, its result is that the session is
-- closed, and the channel to every stream of the manager is closed.
pub run_closes_streams :
    (r r' : Reader) (incoming : List Incoming) (result : Result Error (Unit {0}))
    → run r incoming ≡ ok (r', ready result)
    → (result ≡ err Error.session_closed)
      × ((id : ℕ) (h : StreamHandle)
          → lookup id r'.manager.streams ≡ some h
          → h.to_stream.closed ≡ true)
run_closes_streams r r' incoming result e =
    OnOk-ok IsOver _ (r', ready result) e (run-IsOver r incoming)
