-- ===== src/Typed/Prefix.antt =====
-- The type at the start of a stream of muxado/src/typed.rs, as it is written and read.
use ngrok_rs.Common.{
  ℕ, ◌≤◌, ◌<◌, ◌^◌, ◌≡◌, sym, ap, ◌∙◌, arith, [], ◌∷◌, ◌++◌, append-nil, length, take, take_all,
  length-take, min, some, ok, ready,
}
use ngrok_rs.Constrained.{clamp}
use ngrok_rs.Frame.{Frame}
use ngrok_rs.Window.{capacity}
use ngrok_rs.Codec.Buffers.{BufOps, IsBuf}
use ngrok_rs.Stream.{Stream, Outgoing}
use ngrok_rs.Stream.Fifo.{body_bytes}
use ngrok_rs.Stream.Shutdown.{IsOpen, write_sends_prefix}
use ngrok_rs.Typed.{accept_typed, open_typed}

module _ (lib : BufOps) (is : IsBuf lib) where
  open lib use {put_u32, get_u32}

  -- Opening a typed stream puts one frame on the channel, with the first bytes of its type.
  open_typed_sends :
      (s : Stream) (typ cx : ℕ) (out : Outgoing)
      → IsOpen s out
      → 0 < capacity s.window
      → (t : Stream) × (frame : Frame) × (open_typed lib s typ cx out
          ≡ ok (t, ready (ok (record { typ = typ; inner = t }))))
        × (t.fout.sink ≡ s.fout.sink ++ (frame ∷ []))
        × (body_bytes frame.body ≡ take (min (capacity s.window) 4) (put_u32 typ))
  unfolding open_typed
  open_typed_sends s typ cx out o room =
      let four = is.width typ in
      let (t, frame, n, e, len, sink, body, _, _, _) =
        write_sends_prefix s cx (put_u32 typ) out o room (omega (arith, four)) in
      (
        t,
        frame,
        simp (e, open_typed),
        sink,
        ap body_bytes body ∙ ap (λ k. take k (put_u32 typ)) (omega (arith, len, four)),
      )

  -- Opening a typed stream whose channel and cell are open and whose window has at least four
  -- bytes sends one frame with the stream's type. A peer that reads the frame's bytes accepts a
  -- stream of that type.
  pub accept_typed-open_typed :
      (s peer : Stream) (typ cx : ℕ) (out : Outgoing)
      → IsOpen s out
      → 4 ≤ capacity s.window
      → typ < 2 ^ 32
      → (t : Stream) × (frame : Frame) × (open_typed lib s typ cx out
          ≡ ok (t, ready (ok (record { typ = typ; inner = t }))))
        × (t.fout.sink ≡ s.fout.sink ++ (frame ∷ []))
        × (accept_typed lib (some peer) (ok (body_bytes frame.body))
            ≡ ok (ok (record { typ = typ; inner = peer })))
  unfolding accept_typed clamp
  accept_typed-open_typed s peer typ cx out o room fits =
      let (t, frame, e, sink, bytes) = open_typed_sends s typ cx out o (omega arith) in
      let whole : body_bytes frame.body ≡ put_u32 typ =
        bytes ∙ take_all (min (capacity s.window) 4) (put_u32 typ) (omega (arith, is.width typ)) in
      let got : get_u32 (body_bytes frame.body) ≡ ok (typ, []) =
        ap get_u32 (whole ∙ sym (append-nil (put_u32 typ))) ∙ is.get-put typ [] fits in
      (t, frame, e, sink, simp (got, accept_typed) (ground arith))

  -- For a stream that is open, on a channel that has room and takes the frame, and with a window of
  -- one, two or three bytes, `open_typed` still reports success after one write, and the only frame
  -- that it has sent has as many bytes as the window, and not the four of the type.
  pub open_typed_cut :
      (s : Stream) (typ cx : ℕ) (out : Outgoing)
      → IsOpen s out
      → 0 < capacity s.window
      → capacity s.window < 4
      → (t : Stream) × (frame : Frame) × (open_typed lib s typ cx out
          ≡ ok (t, ready (ok (record { typ = typ; inner = t }))))
        × (t.fout.sink ≡ s.fout.sink ++ (frame ∷ []))
        × (length (body_bytes frame.body) ≡ capacity s.window)
  open_typed_cut s typ cx out o room narrow =
      let (t, frame, e, sink, bytes) = open_typed_sends s typ cx out o room in
      (
        t,
        frame,
        e,
        sink,
        ap length bytes
            ∙ omega (arith, length-take (min (capacity s.window) 4) (put_u32 typ), is.width typ),
      )
