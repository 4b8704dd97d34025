-- ===== src/Session/Managed.antt =====
-- What the tasks of muxado/src/session.rs do to their stream manager, as its own steps.
use ngrok_rs.Common.{
  ℕ, ◌≡◌, refl, sym, subst, ◌⊎◌, inl, inr, Bool-cases, true, false, List, [], ◌∷◌, Option,
  Option-cases, none, some, Result, ok, err, OnOk, OnOk-sym, Result-cases, Poll-cases, Panic, Poll,
  ready, pending,
}
use ngrok_rs.Common.Maps.{lookup}
use ngrok_rs.Errors.{Error}
use ngrok_rs.Frame.{HeaderType, Body, Frame, is_fin, is_syn, rst_frame, goaway}
use ngrok_rs.StreamOutput.{SendError}
use ngrok_rs.StreamManager.{StreamManager, get_stream, create_stream}
use ngrok_rs.StreamManager.Polling.{poll_next}
use ngrok_rs.StreamManager.Sending.{
  Channel, SendResult, data_len, poll_send, send_polls, send_to_stream,
}
use ngrok_rs.StreamManager.Steps.{
  creates, polls, sends, leaves, closes, finishes, Reach, here, next,
}
use ngrok_rs.Session.{
  Reader, Writer, Answers, Handled, create, accept_syn, send_sys, close_data_write, to_stream,
  leave, dispatch, handle_frame, finish, write_turn, open_stream, write_frame, Turn, Outcome,
  invalid_frame,
}

pub Reach-trans : {a b c : StreamManager} → Reach a b → Reach b c → Reach a c
Reach-trans r here = r
Reach-trans r (next q s) = next (Reach-trans r q) s

send_polls-Reach :
    (m : StreamManager) (f : Frame) (shrink : ℕ) (channels : List Channel)
    → Reach m (send_polls m f shrink channels).0
unfolding send_polls
send_polls-Reach m f shrink [] = here
send_polls-Reach m f shrink (c ∷ cs) = elim (Poll-cases (poll_send m f shrink c).2) [
  | inl h ↦
      simp (h, send_polls)
        (Reach-trans (next here (sends f shrink c))
          (send_polls-Reach (poll_send m f shrink c).0 f (poll_send m f shrink c).1 cs))
  | inr (a, h) ↦ simp (h, send_polls) (next here (sends f shrink c))
]

send_to_stream-cases :
    (m : StreamManager) (f : Frame) (channels : List Channel)
    → (send_to_stream m f channels ≡ (m, ready (err Error.internal)))
      ⊎ (send_to_stream m f channels ≡ send_polls m f (data_len f.body) channels)
unfolding send_to_stream
send_to_stream-cases m f channels =
    elim f.body
        as (λ b.
          f.body ≡ b
          → (send_to_stream m f channels ≡ (m, ready (err Error.internal)))
            ⊎ (send_to_stream m f channels ≡ send_polls m f (data_len f.body) channels)) [
              | Body.go_away _ _ _ ↦ λ h. inl (simp (h, send_to_stream))
              | Body.invalid _ _ ↦ λ h. inl (simp (h, send_to_stream))
              | Body.rst _ ↦ λ h. inr (simp (h, send_to_stream))
              | Body.data _ ↦ λ h. inr (simp (h, send_to_stream))
              | Body.wnd_inc _ ↦ λ h. inr (simp (h, send_to_stream))
            ]
      refl

send_to_stream-Reach :
    (m : StreamManager) (f : Frame) (channels : List Channel)
    → Reach m (send_to_stream m f channels).0
send_to_stream-Reach m f channels = elim (send_to_stream-cases m f channels) [
  | inl h ↦ subst (λ (p : StreamManager × SendResult). Reach m p.0) (sym h) here
  | inr h ↦
      subst (λ (p : StreamManager × SendResult). Reach m p.0) (sym h)
        (send_polls-Reach m f (data_len f.body) channels)
]

close_data_write-Reach : (id : ℕ) (m : StreamManager) → Reach m (close_data_write id m)
unfolding close_data_write get_stream
close_data_write-Reach id m = elim (Option-cases (lookup id m.streams)) [
  | inl h ↦ simp (h, close_data_write, get_stream) here
  | inr (g, h) ↦ simp (h, close_data_write, get_stream) (next here (finishes id g h))
]

-- The reader's manager is reachable from what it was.
abbrev pub Manages : Reader → Handled → Type 0
Manages r p = Reach r.manager p.0.manager

accept_syn-Reach :
    (r : Reader) (f : Frame) (answers : Answers)
    → Reach r.manager (accept_syn r f answers).0.manager
unfolding accept_syn create
accept_syn-Reach r f answers = elim (Bool-cases (is_syn f)) [
  | inr h ↦ simp (h, accept_syn) here
  | inl h ↦
      elim (Result-cases
        (create_stream r.manager (some f.header.stream_id) (create r.window false).0).1) [
          | inr (e, q) ↦
              simp (h, q, accept_syn)
                (next here (creates (some f.header.stream_id) (create r.window false).0))
          | inl (_, q) ↦ elim (Result-cases answers.accept) [
            | inl (_, c) ↦
                simp (h, q, c, accept_syn)
                  (next here (creates (some f.header.stream_id) (create r.window false).0))
            | inr (_, c) ↦
                simp (h, q, c, accept_syn)
                  (next here (creates (some f.header.stream_id) (create r.window false).0))
          ]
        ]
]

send_sys-manager :
    (f : Frame) (e : Error) (answers : Answers) (r : Reader)
    → (send_sys f e answers r).0.manager ≡ r.manager
unfolding send_sys
send_sys-manager f e answers r = elim (Result-cases answers.sys) [
  | inl (_, c) ↦ simp (c, send_sys)
  | inr (_, c) ↦ simp (c, send_sys)
]

to_stream-Manages : (r : Reader) (f : Frame) (answers : Answers) → Manages r (to_stream r f answers)
unfolding to_stream
to_stream-Manages r f answers = elim (Poll-cases (send_to_stream r.manager f answers.stream).1) [
  | inl h ↦ simp (h, to_stream) sent
  | inr (err e, h) ↦
      simp (h, to_stream)
        (subst (Reach r.manager)
          (sym (send_sys-manager (rst_frame f.header.stream_id e) Error.session_closed answers _))
          sent)
  | inr (ok _, h) ↦ elim (Bool-cases (is_fin f)) [
    | inl q ↦
        simp (h, q, to_stream) (Reach-trans sent (close_data_write-Reach f.header.stream_id _))
    | inr q ↦ simp (h, q, to_stream) sent
  ]
]
  where
    sent : Reach r.manager (send_to_stream r.manager f answers.stream).0
    sent = send_to_stream-Reach r.manager f answers.stream

leave-Manages : (r : Reader) (b : Body) → OnOk (Manages r) (leave r b)
unfolding leave
leave-Manages r (Body.go_away _ e _) = next here (leaves e)
leave-Manages r (Body.data _) = tt
leave-Manages r (Body.rst _) = tt
leave-Manages r (Body.wnd_inc _) = tt
leave-Manages r (Body.invalid _ _) = tt

dispatch-Manages :
    (r : Reader) (f : Frame) (answers : Answers) (typ : HeaderType)
    → OnOk (Manages r) (dispatch r f answers typ)
unfolding dispatch
dispatch-Manages r f answers HeaderType.data = to_stream-Manages r f answers
dispatch-Manages r f answers HeaderType.rst = to_stream-Manages r f answers
dispatch-Manages r f answers HeaderType.wnd_inc = to_stream-Manages r f answers
dispatch-Manages r f answers HeaderType.go_away = leave-Manages r f.body
dispatch-Manages r f answers (HeaderType.invalid _) =
    subst (Reach r.manager)
      (sym (
        send_sys-manager (goaway r.last_stream_processed Error.protocol invalid_frame)
          Error.stream_closed answers r))
      here

later-Manages :
    (r r' : Reader) (q : Result Panic Handled)
    → Reach r.manager r'.manager
    → OnOk (Manages r') q
    → OnOk (Manages r) q
later-Manages r r' (ok p) h k = Reach-trans h k
later-Manages r r' (err e) h k = tt

pub handle_frame-Manages :
    (r : Reader) (f : Frame) (answers : Answers) → OnOk (Manages r) (handle_frame r f answers)
unfolding handle_frame
handle_frame-Manages r f answers = elim (Result-cases (accept_syn r f answers).1) [
  | inr (e, h) ↦
      OnOk-sym (Manages r) (handle_frame r f answers)
        (ok ((accept_syn r f answers).0, ready (err e))) (simp (h, handle_frame))
        (accept_syn-Reach r f answers)
  | inl (_, h) ↦
      OnOk-sym (Manages r) (handle_frame r f answers)
        (dispatch (accept_syn r f answers).0 f answers f.header.typ) (simp (h, handle_frame))
        (later-Manages r (accept_syn r f answers).0 _ (accept_syn-Reach r f answers)
          (dispatch-Manages (accept_syn r f answers).0 f answers f.header.typ))
]

pub finish-Manages : (r : Reader) → Manages r (finish r)
unfolding finish
finish-Manages r = next here closes

write_frame-manager :
    (w : Writer) (io : Result SendError (Unit {0})) (p : Poll (Option Frame))
    → (write_frame w io p).0.manager ≡ w.manager
unfolding write_frame
write_frame-manager w io pending = refl
write_frame-manager w io (ready none) = refl
write_frame-manager w (err _) (ready (some f)) = refl
write_frame-manager w (ok _) (ready (some f)) = refl

pub write_turn-Reach :
    (w : Writer) (t : Turn)
    → OnOk (λ (p : Writer × Outcome). Reach w.manager p.0.manager) (write_turn w t)
unfolding write_turn open_stream
write_turn-Reach w (Turn.next sys task io) = elim (Result-cases (poll_next w.manager sys task)) [
  | inr (e, h) ↦
      OnOk-sym (λ (p : Writer × Outcome). Reach w.manager p.0.manager)
        (write_turn w (Turn.next sys task io)) (err e) (simp (h, write_turn)) tt
  | inl (p, h) ↦
      OnOk-sym (λ (p : Writer × Outcome). Reach w.manager p.0.manager)
        (write_turn w (Turn.next sys task io))
        (ok (write_frame (record w { manager = p.0 }) io p.1)) (simp (h, write_turn))
        (subst (Reach w.manager) (sym (write_frame-manager (record w { manager = p.0 }) io p.1))
          (next here (polls sys task p h)))
]
write_turn-Reach w Turn.open_req = next here (creates none (create w.window true).0)
