-- ===== src/Stream/Fifo.antt =====
-- The bytes of the data frames of muxado/src/stream.rs, on the channel and in the reader's hands.
use ngrok_rs.Common.{
  ℕ, ◌≤◌, ◌==◌, ◌≡◌, refl, sym, ap, ◌∙◌, inl, inr, arith, Bool, Bool-cases, List, [], ◌∷◌, ◌++◌,
  append_assoc, length, take, drop, take-append-drop, length-take, some, ok, OnOk, OnOk-ok,
  Result-cases, Poll-cases, Poll, ready, pending,
}
use ngrok_rs.Frame.{Bytes, Body, Frame}
use ngrok_rs.StreamOutput.{poll_ready}
use ngrok_rs.Stream.{Stream, Outgoing, handle_body, note_fin, poll_send_wndinc}
use ngrok_rs.Stream.Reading.{ReadPoll, read_len, give, poll_read}
use ngrok_rs.Stream.Effects.{leaves, IsReceiving, IsAnswer, poll_read-Q}

abbrev pub body_bytes : Body → Bytes
body_bytes (Body.data bs) = bs
body_bytes _ = []

abbrev pub queued : List Frame → Bytes
queued [] = []
queued (f ∷ fs) = body_bytes f.body ++ queued fs

-- The bytes that the peer has sent and the reader has not been given yet.
abbrev pub unread : Stream → Bytes
unread s = s.read_buf ++ queued s.incoming.queue

abbrev pub given : Poll Bytes → Bytes
given (ready bs) = bs
given pending = []

abbrev IsUnread : Stream → Stream → Type 0
IsUnread s t = unread t ≡ unread s

abbrev IsGiven : ℕ → Stream → ReadPoll → Type 0
IsGiven remaining s p = (given p.1 ++ unread p.0 ≡ unread s) × (length (given p.1) ≤ remaining)

body-IsUnread :
    (s : Stream) (ended : Bool) (f : Frame) (fs : List Frame) (cx : ℕ) (b : Body)
    → OnOk
        (λ t. unread t ≡ s.read_buf ++ (body_bytes b ++ queued fs))
        (handle_body (some cx) (note_fin (leaves s ended fs) f) b)
unfolding handle_body note_fin
body-IsUnread s ended f fs cx (Body.data bs) = append_assoc s.read_buf bs (queued fs)
body-IsUnread s ended f fs cx (Body.wnd_inc by) = refl
body-IsUnread s ended f fs cx (Body.rst _) = tt
body-IsUnread s ended f fs cx (Body.go_away _ _ _) = tt
body-IsUnread s ended f fs cx (Body.invalid _ _) = tt

receiving : IsReceiving IsUnread
receiving = record {
  refl_P = λ s. refl;
  trans_P = λ s t u h k. k ∙ h;
  body_P = λ s ended f fs cx. body-IsUnread s ended f fs cx f.body;
  end_P = λ s. refl;
  waits_P = λ s cx. refl;
  blocks_P = λ s cx. refl;
}

-- Announcing changes the stream's sender and nothing else.
pub wndinc_keeps :
    (s : Stream) (n : ℕ) (out : Outgoing)
    → (poll_send_wndinc s n out).0 ≡ record s { fout = (poll_send_wndinc s n out).0.fout }
unfolding poll_send_wndinc
wndinc_keeps s n out = elim (Poll-cases (poll_ready s.fout out.room).1) [
  | inl h ↦ rw (h, poll_send_wndinc)
  | inr (r, h) ↦ elim (Result-cases r) [
    | inl (_, e) ↦ rw (h, e, poll_send_wndinc)
    | inr (_, e) ↦ rw (h, e, poll_send_wndinc)
  ]
]

read_len_le : (s : Stream) (remaining : ℕ) → read_len s remaining ≤ remaining
unfolding read_len
read_len_le s remaining = ground arith

cut : (n : ℕ) (bs qs : Bytes) → take n bs ++ (drop n bs ++ qs) ≡ bs ++ qs
cut n bs qs =
    sym (append_assoc (take n bs) (drop n bs) qs) ∙ ap (λ xs. xs ++ qs) (take-append-drop n bs)

give-IsGiven :
    (s : Stream) (remaining : ℕ) (out : Outgoing) → IsGiven remaining s (give s remaining out)
unfolding give
give-IsGiven s remaining out = elim (Bool-cases (read_len s remaining == 0)) [
  | inl h ↦ rw (h, give) (refl, omega arith)
  | inr h ↦ elim (Poll-cases (poll_send_wndinc s (read_len s remaining) out).1) [
    | inl e ↦ rw (h, e, give) (ap unread (wndinc_keeps s (read_len s remaining) out), omega arith)
    | inr (_, e) ↦
        rw (h, e, give)
          (
            cut (read_len s remaining) _ _ ∙ ap unread (wndinc_keeps s (read_len s remaining) out),
            omega (
              arith,
              length-take (read_len s remaining)
                  (poll_send_wndinc s (read_len s remaining) out).0.read_buf,
              read_len_le s remaining,
            ),
          )
  ]
]

answering :
    (cx remaining : ℕ) (out : Outgoing) → IsAnswer IsUnread cx remaining out (IsGiven remaining)
answering cx remaining out = record {
  later_Q = λ s t p h k. (k.0 ∙ h, k.1);
  give_Q = λ s. give-IsGiven s remaining out;
  end_Q = λ s. (refl, omega arith);
  wait_Q = λ s. (refl, omega arith);
}

-- Whatever the channels answer, a `poll_read` that has a result gives the bytes of the data frames
-- in order: what it gives, with what is then still to be read, is what was to be read before. It
-- gives no more bytes than the buffer has room for, and none while it is pending.
pub read_in_order :
    (s s' : Stream) (cx remaining : ℕ) (out : Outgoing) (answer : Poll Bytes)
    → poll_read s cx remaining out ≡ ok (s', answer)
    → (given answer ++ unread s' ≡ unread s) × (length (given answer) ≤ remaining)
read_in_order s s' cx remaining out answer e =
    OnOk-ok (IsGiven remaining s) _ (s', answer) e
      (poll_read-Q IsUnread receiving cx remaining out (IsGiven remaining)
        (answering cx remaining out) s)
