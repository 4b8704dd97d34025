-- ===== src/Stream/Effects.antt =====
-- Induction over the loops of `poll_recv_frame_type` and `poll_read` of muxado/src/stream.rs.
use ngrok_rs.Common.{
  ℕ, zero, suc, Bool, true, false, Bool-cases, List, [], ◌∷◌, length, Option, some, Result, ok, err,
  OnOk, OnOk-if, OnOk-bind, OnOk-weaken, List-cases, Panic, Poll, ready, pending, ◌≡◌, refl, sym,
  subst, ◌>>=◌, inl, inr,
}
use ngrok_rs.Frame.{HeaderType, Body, Frame}
use ngrok_rs.Stream.{
  Stream, Outgoing, handle_body, note_fin, handle_frame, same_type, recv_frames,
  poll_recv_frame_type,
}
use ngrok_rs.Stream.Reading.{ReadPoll, give, read_loop, poll_read}

-- The stream when these frames are left on its channel.
abbrev pub leaves : Stream → Bool → List Frame → Stream
leaves s ended fs = record s { incoming = record { queue = fs; ended = ended } }

-- A relation that each step of receiving keeps.
pub record IsReceiving (P : Stream → Stream → Type 0) : Type 0 where
  pub refl_P : (s : Stream) → P s s
  pub trans_P : (s t u : Stream) → P s t → P t u → P s u
  pub body_P :
      (s : Stream) (ended : Bool) (f : Frame) (fs : List Frame) (cx : ℕ)
      → OnOk
          (P (leaves s ended (f ∷ fs)))
          (handle_body (some cx) (note_fin (leaves s ended fs) f) f.body)
  pub end_P :
      (s : Stream) → P (leaves s true []) (record (leaves s true []) { data_read_closed = true })
  pub waits_P : (s : Stream) (cx : ℕ) → P s (record s { read_waker = some cx })
  pub blocks_P : (s : Stream) (cx : ℕ) → P s (record s { write_waker = some cx })

handle_body-leaves :
    (s : Stream) (ended : Bool) (f : Frame) (fs : List Frame) (cx : Option ℕ) (b : Body)
    → OnOk (λ t. leaves t ended fs ≡ t) (handle_body cx (note_fin (leaves s ended fs) f) b)
unfolding handle_body note_fin
handle_body-leaves s ended f fs cx (Body.data bs) = refl
handle_body-leaves s ended f fs cx (Body.wnd_inc by) = refl
handle_body-leaves s ended f fs cx (Body.rst _) = tt
handle_body-leaves s ended f fs cx (Body.go_away _ _ _) = tt
handle_body-leaves s ended f fs cx (Body.invalid _ _) = tt

both :
    (P Q : Stream → Type 0) (r : Result Panic Stream)
    → OnOk P r
    → OnOk Q r
    → OnOk (λ t. P t × Q t) r
both P Q (ok t) h k = (h, k)
both P Q (err e) h k = tt

module _ (P : Stream → Stream → Type 0) (r : IsReceiving P) where
  recv_frames-P :
      (target : HeaderType) (cx : ℕ) (ended : Bool) (fs : List Frame) (s : Stream)
      → OnOk (λ p. P (leaves s ended fs) p.0) (recv_frames target cx ended fs s)
  unfolding recv_frames handle_frame
  recv_frames-P target cx true [] s = r.end_P s
  recv_frames-P target cx false [] s = r.refl_P (leaves s false [])
  recv_frames-P target cx ended (f ∷ fs) s =
      OnOk-bind (λ (p : Stream × HeaderType). P s0 p.0 × (leaves p.0 ended fs ≡ p.0))
        (λ (p : Stream × Poll (Unit {0})). P s0 p.0) _ _
        (OnOk-bind (λ t. P s0 t × (leaves t ended fs ≡ t))
          (λ (p : Stream × HeaderType). P s0 p.0 × (leaves p.0 ended fs ≡ p.0)) _ _
          (both (P s0) (λ t. leaves t ended fs ≡ t) _ (r.body_P s ended f fs cx)
            (handle_body-leaves s ended f fs (some cx) f.body))
          (λ a h. h))
        (λ p h.
          OnOk-if (λ (q : Stream × Poll (Unit {0})). P s0 q.0) (same_type p.1 target) _ _ h.0
            (OnOk-weaken (λ (q : Stream × Poll (Unit {0})). P p.0 q.0) _ _
              (λ q k. r.trans_P s0 p.0 q.0 h.0 k)
              (subst
                (λ t.
                  OnOk (λ (q : Stream × Poll (Unit {0})). P t q.0)
                    (recv_frames target cx ended fs p.0))
                h.1 (recv_frames-P target cx ended fs p.0))))
    where
      s0 : Stream
      s0 = leaves s ended (f ∷ fs)

  pub poll_recv-P :
      (target : HeaderType) (cx : ℕ) (s : Stream)
      → OnOk (λ p. P s p.0) (poll_recv_frame_type target cx s)
  unfolding poll_recv_frame_type
  poll_recv-P target cx s = recv_frames-P target cx s.incoming.ended s.incoming.queue s

-- What holds of an answer of `poll_read` for a stream, given that receiving first does not matter.
pub record IsAnswer (P : Stream → Stream → Type 0) (cx remaining : ℕ) (out : Outgoing)
    (Q : Stream → ReadPoll → Type 0) : Type 0 where
  pub later_Q : (s t : Stream) (p : ReadPoll) → P s t → Q t p → Q s p
  pub give_Q : (s : Stream) → Q s (give s remaining out)
  pub end_Q : (s : Stream) → Q s (s, ready [])
  pub wait_Q : (s : Stream) → Q s (s, pending)

module _ (P : Stream → Stream → Type 0) (r : IsReceiving P) (cx remaining : ℕ) (out : Outgoing)
    (Q : Stream → ReadPoll → Type 0) (a : IsAnswer P cx remaining out Q) where
  read_loop-Q : (fuel : ℕ) (s : Stream) → OnOk (Q s) (read_loop fuel s cx remaining out)
  unfolding read_loop
  read_loop-Q zero s = a.wait_Q s
  read_loop-Q (suc fuel) s = elim (List-cases s.read_buf) [
    | inr (b, bs, h) ↦ by_equation _ (ok (give s remaining out)) (simp (h, read_loop)) (a.give_Q s)
    | inl h ↦ elim (Bool-cases s.data_read_closed) [
      | inl e ↦ by_equation _ (ok (s, ready [])) (simp (h, e, read_loop)) (a.end_Q s)
      | inr e ↦ by_equation _ (received s1 >>= next_turn) (simp (h, e, read_loop)) (
          OnOk-bind (λ (p : Stream × Poll (Unit {0})). P s p.0) (Q s) _ _
            (OnOk-weaken (λ (p : Stream × Poll (Unit {0})). P s1 p.0)
              (λ (p : Stream × Poll (Unit {0})). P s p.0) _
              (λ p k. r.trans_P s s1 p.0 (r.waits_P s cx) k)
              (poll_recv-P P r HeaderType.data cx s1))
            (λ p k. turn (λ t. read_loop-Q fuel t) p.0 p.1 k))
    ]
  ]
    where
      s1 : Stream
      s1 = record s { read_waker = some cx }

      received : Stream → Result Panic (Stream × Poll (Unit {0}))
      received t = poll_recv_frame_type HeaderType.data cx t

      next_turn : Stream × Poll (Unit {0}) → Result Panic ReadPoll
      next_turn (t, answer) = elim answer [
        | pending ↦ ok (t, pending)
        | ready _ ↦ read_loop fuel t cx remaining out
      ]

      by_equation : (x y : Result Panic ReadPoll) → x ≡ y → OnOk (Q s) y → OnOk (Q s) x
      by_equation x y e h = subst (OnOk (Q s)) (sym e) h

      turn :
          ((t : Stream) → OnOk (Q t) (read_loop fuel t cx remaining out))
          → (t : Stream) (answer : Poll (Unit {0})) → P s t
          → OnOk (Q s) (elim answer [
            | pending ↦ ok (t, pending)
            | ready _ ↦ read_loop fuel t cx remaining out
          ])
      turn again t pending k = a.later_Q s t (t, pending) k (a.wait_Q t)
      turn again t (ready _) k = OnOk-weaken (Q t) (Q s) _ (λ p h. a.later_Q s t p k h) (again t)

  pub poll_read-Q : (s : Stream) → OnOk (Q s) (poll_read s cx remaining out)
  unfolding poll_read
  poll_read-Q s = read_loop-Q (suc (suc (length s.incoming.queue))) s
