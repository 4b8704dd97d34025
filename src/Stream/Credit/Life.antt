-- ===== src/Stream/Credit/Life.antt =====
-- The life of a stream of muxado/src/stream.rs, and the bytes that it sends.
use ngrok_rs.Common.{ℕ, ◌+◌, ◌≤◌, ◌≡◌, arith, Bool, true, false, [], ◌∷◌, ◌++◌, ok, OnOk-ok}
use ngrok_rs.Errors.{Error}
use ngrok_rs.Frame.{Bytes, Frame}
use ngrok_rs.Window.{capacity, inc, dec}
use ngrok_rs.StreamOutput.{wrap, close_with}
use ngrok_rs.Stream.{Stream, Outgoing, new}
use ngrok_rs.Stream.Reading.{ReadPoll, poll_read}
use ngrok_rs.Stream.Writing.{IoPoll, poll_write, poll_flush, poll_shutdown}
use ngrok_rs.Stream.Effects.{leaves, poll_read-Q}
use ngrok_rs.Stream.Credit.{
  credit, IsWithin, sent_bytes, increment, increments-append, receiving, answering,
}
use ngrok_rs.Stream.Credit.Writes.{poll_flush-IsWithin, poll_write-IsWithin, poll_shutdown-IsWithin}

-- A stream's life: what its owner, the manager and the peer do to it in turn, and the bytes that
-- the peer has allowed beyond the first window.
pub data Life (window : ℕ) : Stream → ℕ → Type 0 where
  starts :
      (needs_syn : Bool)
      → Life window (new wrap (record { queue = []; ended = false }) window needs_syn) 0
  arrives :
      {s : Stream} {n : ℕ} (f : Frame)
      → Life window s n
      → Life window
          (leaves s s.incoming.ended (s.incoming.queue ++ (f ∷ [])))
          (n + increment f.body)
  ends : {s : Stream} {n : ℕ} → Life window s n → Life window (leaves s true s.incoming.queue) n
  closes :
      {s : Stream} {n : ℕ} (e : Error)
      → Life window s n
      → Life window (record s { fout = record (s.fout) { closer = close_with s.fout.closer e } }) n
  reads :
      {s : Stream} {n : ℕ} (t : ReadPoll) (cx remaining : ℕ) (out : Outgoing)
      → poll_read s cx remaining out ≡ ok t
      → Life window s n
      → Life window t.0 n
  writes :
      {s : Stream} {n : ℕ} (t : Stream × IoPoll ℕ) (cx : ℕ) (buf : Bytes) (out : Outgoing)
      → poll_write s cx buf out ≡ ok t
      → Life window s n
      → Life window t.0 n
  flushes :
      {s : Stream} {n : ℕ} (out : Outgoing) → Life window s n → Life window (poll_flush s out).0 n
  shuts :
      {s : Stream} {n : ℕ} (out : Outgoing)
      → Life window s n
      → Life window (poll_shutdown s out).0 n

Life-credit : (window : ℕ) (s : Stream) (n : ℕ) → Life window s n → credit s ≤ window + n
unfolding new capacity
Life-credit window s n (starts needs_syn) = unfold ngrok_rs.Window.new wrap in omega arith
Life-credit window _ _ (arrives {s} {n} f l) =
    omega (arith, Life-credit window s n l, increments-append s.incoming.queue f)
Life-credit window _ _ (ends {s} {n} l) = Life-credit window s n l
Life-credit window _ _ (closes {s} {n} e l) = Life-credit window s n l
Life-credit window _ _ (reads {s} {n} t cx remaining out e l) = omega (
  arith,
  Life-credit window s n l,
  OnOk-ok (λ (p : ReadPoll). IsWithin s p.0) _ t e
      (poll_read-Q IsWithin receiving cx remaining out (λ s p. IsWithin s p.0)
        (answering cx remaining out) s),
)
Life-credit window _ _ (writes {s} {n} t cx buf out e l) = omega (
  arith,
  Life-credit window s n l,
  OnOk-ok (λ (p : Stream × IoPoll ℕ). IsWithin s p.0) _ t e (poll_write-IsWithin s cx buf out),
)
Life-credit window _ _ (flushes {s} {n} out l) =
    omega (arith, Life-credit window s n l, poll_flush-IsWithin s out)
Life-credit window _ _ (shuts {s} {n} out l) =
    omega (arith, Life-credit window s n l, poll_shutdown-IsWithin s out)

-- Through a stream's life the channel to the session takes no more bytes of data from it than its
-- first window and the increments that the peer has sent; what the window still allows is within
-- that sum too.
pub written_within_window :
    (window : ℕ) (s : Stream) (n : ℕ)
    → Life window s n
    → sent_bytes s.fout.sink + capacity s.window ≤ window + n
written_within_window window s n l = omega (arith, Life-credit window s n l)
