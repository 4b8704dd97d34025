-- ===== src/Stream/Turns.antt =====
-- The loop of `poll_read` of muxado/src/stream.rs: its turns, and when it waits.
use ngrok_rs.Common.{
  ℕ, zero, suc, ◌+◌, ◌≤◌, ◌<◌, ◌≡◌, refl, ap, ◌∙◌, ◌⊎◌, inl, inr, arith, ◌==◌, Bool, Bool-cases,
  true, false, List, List-cases, [], ◌∷◌, ◌++◌, length, some, Result, ok, err, ◌>>=◌, Succeeds,
  Succeeds-sym, Succeeds-weaken, Succeeds-bind, Succeeds-ok, Result-cases, Poll-cases, Panic, Poll,
  ready, pending,
}
use ngrok_rs.Errors.{Error}
use ngrok_rs.Frame.{HeaderType, Body, Frame}
use ngrok_rs.Window.{inc}
use ngrok_rs.StreamOutput.{SendError, StreamSender, check_closed, poll_ready}
use ngrok_rs.Stream.{
  Stream, Outgoing, handle_body, note_fin, handle_frame, same_type, maybe_wake_read,
  maybe_wake_write, recv_frames, poll_recv_frame_type, poll_send_wndinc,
}
use ngrok_rs.Stream.Reading.{ReadPoll, read_len, give, read_loop, poll_read}
use ngrok_rs.Stream.Effects.{leaves}

-- A body that the manager hands to a stream, with the type that goes with it.
abbrev pub ForStream : Body → HeaderType → Type 0
ForStream (Body.data bs) typ = typ ≡ HeaderType.data
ForStream (Body.wnd_inc by) typ = typ ≡ HeaderType.wnd_inc
ForStream _ typ = ⊥

abbrev pub AllForStream : List Frame → Type 0
AllForStream [] = Unit
AllForStream (f ∷ fs) = ForStream f.body f.header.typ × AllForStream fs

-- What `poll_recv_frame_type` leaves when it waits, and when it has an answer.
abbrev Received : ℕ → Stream → Stream × Poll (Unit {0}) → Type 0
Received n s (t, pending) =
    (t.incoming ≡ record { queue = []; ended = false }) × (t.read_waker ≡ s.read_waker)
Received n s (t, ready _) =
    AllForStream t.incoming.queue × ((length t.incoming.queue < n) ⊎ (t.data_read_closed ≡ true))

Received-suc :
    (n : ℕ) (s s' : Stream) (p : Stream × Poll (Unit {0}))
    → s'.read_waker ≡ s.read_waker
    → Received n s' p
    → Received (suc n) s p
Received-suc n s s' (t, pending) e (h, k) = (h, k ∙ e)
Received-suc n s s' (t, ready _) e (h, inl k) = (h, inl (omega arith))
Received-suc n s s' (t, ready _) e (h, inr k) = (h, inr k)

recv_frames-Received :
    (cx : ℕ) (ended : Bool) (fs : List Frame) (s : Stream)
    → AllForStream fs
    → Succeeds (Received (length fs) s) (recv_frames HeaderType.data cx ended fs s)
unfolding recv_frames handle_frame handle_body note_fin same_type maybe_wake_read maybe_wake_write
recv_frames-Received cx true [] s h = (tt, inr refl)
recv_frames-Received cx false [] s h = (refl, refl)
recv_frames-Received cx ended (f ∷ fs) s (here, h) =
    by_body f.body refl here (λ s'. recv_frames-Received cx ended fs s' h)
  where
    s0 : Stream
    s0 = note_fin (leaves s ended fs) f

    result : Result Panic (Stream × Poll (Unit {0}))
    result = recv_frames HeaderType.data cx ended (f ∷ fs) s

    by_body :
        (b : Body)
        → f.body ≡ b
        → ForStream b f.header.typ
        → ((s' : Stream)
            → Succeeds (Received (length fs) s') (recv_frames HeaderType.data cx ended fs s'))
        → Succeeds (Received (suc (length fs)) s) result
    by_body (Body.data bs) e t again =
        Succeeds-sym (Received (suc (length fs)) s) result
          (ok (maybe_wake_read (some cx) (record s0 { read_buf = s0.read_buf ++ bs }), ready tt))
          (simp (e, t, recv_frames, handle_frame, handle_body, same_type)) (h, inl (omega arith))
    by_body (Body.wnd_inc by) e t again =
        let s' = maybe_wake_write (some cx) (record s0 { window = inc s0.window by }) in
        Succeeds-sym (Received (suc (length fs)) s) result
          (recv_frames HeaderType.data cx ended fs s')
          (simp (e, t, recv_frames, handle_frame, handle_body, same_type))
          (Succeeds-weaken (Received (length fs) s') (Received (suc (length fs)) s) _
            (λ p k. Received-suc (length fs) s s' p refl k) (again s'))
    by_body (Body.rst _) e t again = elim t [ ]
    by_body (Body.go_away _ _ _) e t again = elim t [ ]
    by_body (Body.invalid _ _) e t again = elim t [ ]

poll_ready_answers :
    (s : StreamSender) (r : Result SendError (Unit {0}))
    → (a : Result Error (Unit {0})) × ((poll_ready s (ready r)).1 ≡ ready a)
unfolding poll_ready
poll_ready_answers s r = elim (Result-cases (check_closed s.closer)) [
  | inr (e, h) ↦ (err e, simp (h, poll_ready))
  | inl (_, h) ↦ elim (Result-cases r) [
    | inl (_, q) ↦ (ok tt, simp (h, q, poll_ready))
    | inr (_, q) ↦ (err Error.session_closed, simp (h, q, poll_ready))
  ]
]

-- The increment that a read announces waits only while the channel has no room.
poll_send_wndinc_waits :
    (s : Stream) (n : ℕ) (out : Outgoing)
    → (out.room ≡ pending) ⊎ ((poll_send_wndinc s n out).1 ≡ ready tt)
unfolding poll_send_wndinc
poll_send_wndinc_waits s n out = elim (Poll-cases out.room) [
  | inl h ↦ inl h
  | inr (r, h) ↦
      let (a, e) = poll_ready_answers s.fout r in
      inr (by_answer a (ap (λ c. (poll_ready s.fout c).1) h ∙ e))
]
  where
    by_answer :
        (a : Result Error (Unit {0}))
        → (poll_ready s.fout out.room).1 ≡ ready a
        → (poll_send_wndinc s n out).1 ≡ ready tt
    by_answer (ok _) e = simp (e, poll_send_wndinc)
    by_answer (err _) e = simp (e, poll_send_wndinc)

-- When a `poll_read` may wait: the manager's channel has no room for the increment, or the channel
-- from the manager is empty and goes on, and the reader's task is stored to be woken.
abbrev pub Waits : ℕ → Outgoing → ReadPoll → Type 0
Waits cx out (t, ready _) = Unit
Waits cx out (t, pending) =
    (out.room ≡ pending)
    ⊎ ((t.incoming ≡ record { queue = []; ended = false }) × (t.read_waker ≡ some cx))

give-Waits : (s : Stream) (cx remaining : ℕ) (out : Outgoing) → Waits cx out (give s remaining out)
unfolding give
give-Waits s cx remaining out = elim (Bool-cases (read_len s remaining == 0)) [
  | inl h ↦ simp (h, give) tt
  | inr h ↦ elim (poll_send_wndinc_waits s (read_len s remaining) out) [
    | inr e ↦ simp (h, e, give) tt
    | inl e ↦ elim (Poll-cases (poll_send_wndinc s (read_len s remaining) out).1) [
      | inl q ↦ simp (h, q, give) (inl e)
      | inr (_, q) ↦ simp (h, q, give) tt
    ]
  ]
]

-- There are turns for the frames, for the end and for the answer.
abbrev Enough : ℕ → Stream → Type 0
Enough fuel s = (length s.incoming.queue + 2 ≤ fuel) ⊎ ((s.data_read_closed ≡ true) × (1 ≤ fuel))

read_loop-Waits :
    (fuel : ℕ) (s : Stream) (cx remaining : ℕ) (out : Outgoing)
    → AllForStream s.incoming.queue
    → Enough fuel s
    → Succeeds (Waits cx out) (read_loop fuel s cx remaining out)
unfolding read_loop poll_recv_frame_type
read_loop-Waits zero s cx remaining out h (inl k) = absurd (omega arith)
read_loop-Waits zero s cx remaining out h (inr k) = absurd (omega (arith, k.1))
read_loop-Waits (suc fuel) s cx remaining out h enough = elim (List-cases s.read_buf) [
  | inr (b, bs, e) ↦
      by_equation (ok (give s remaining out)) (simp (e, read_loop)) (give-Waits s cx remaining out)
  | inl e ↦ elim (Bool-cases s.data_read_closed) [
    | inl q ↦ by_equation (ok (s, ready [])) (simp (e, q, read_loop)) tt
    | inr q ↦ by_equation (received s1 >>= next_turn) (simp (e, q, read_loop)) (
        Succeeds-bind (Received (length s.incoming.queue) s1) (Waits cx out) (received s1) next_turn
          (recv_frames-Received cx s.incoming.ended s.incoming.queue s1 h)
          (λ p k.
            turn (λ t g. read_loop-Waits fuel t cx remaining out g) (left q enough) p.0 p.1 k))
  ]
]
  where
    s1 : Stream
    s1 = record s { read_waker = some cx }

    left : s.data_read_closed ≡ false → Enough (suc fuel) s → length s.incoming.queue + 1 ≤ fuel
    left q (inl k) = omega arith
    left q (inr k) = absurd (cc)

    received : Stream → Result Panic (Stream × Poll (Unit {0}))
    received t = poll_recv_frame_type HeaderType.data cx t

    next_turn : Stream × Poll (Unit {0}) → Result Panic ReadPoll
    next_turn (t, answer) = elim answer [
      | pending ↦ ok (t, pending)
      | ready _ ↦ read_loop fuel t cx remaining out
    ]

    by_equation :
        (y : Result Panic ReadPoll)
        → read_loop (suc fuel) s cx remaining out ≡ y
        → Succeeds (Waits cx out) y
        → Succeeds (Waits cx out) (read_loop (suc fuel) s cx remaining out)
    by_equation y e k = Succeeds-sym (Waits cx out) _ y e k

    turn :
        ((t : Stream)
          → AllForStream t.incoming.queue
          → Enough fuel t
          → Succeeds (Waits cx out) (read_loop fuel t cx remaining out))
        → length s.incoming.queue + 1 ≤ fuel
        → (t : Stream) (answer : Poll (Unit {0}))
        → Received (length s.incoming.queue) s1 (t, answer)
        → Succeeds (Waits cx out) (next_turn (t, answer))
    turn again room t pending (idle, waker) = inr (idle, waker)
    turn again room t (ready _) (g, inl fewer) = again t g (inl (omega arith))
    turn again room t (ready _) (g, inr closed) = again t g (inr (closed, omega arith))

-- While the manager hands the stream only the frames that are meant for it, data and window
-- increments, `poll_read` has a result for every buffer: it does not panic, and its turns do not
-- run out. It waits only when the channel to the manager has no room for its increment, or when
-- the channel from the manager is empty and goes on and the reader's task is stored to be woken.
pub poll_read_total :
    (s : Stream) (cx remaining : ℕ) (out : Outgoing)
    → AllForStream s.incoming.queue
    → (p : ReadPoll) × (poll_read s cx remaining out ≡ ok p) × Waits cx out p
unfolding poll_read
poll_read_total s cx remaining out h =
    Succeeds-ok (Waits cx out) _ (
      read_loop-Waits (suc (suc (length s.incoming.queue))) s cx remaining out h
        (inl (omega arith)))
