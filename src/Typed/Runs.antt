-- ===== src/Typed/Runs.antt =====
-- The theorems on muxado/src/typed.rs at concrete inputs.
use ngrok_rs.Common.{◌≡◌, refl, arith, true, false, [], ◌∷◌, length, none, some, ok, ready}
use ngrok_rs.Frame.{Frame}
use ngrok_rs.Window.{capacity}
use ngrok_rs.StreamOutput.{check_closed}
use ngrok_rs.Codec.Network.{network, network-IsBuf}
use ngrok_rs.Stream.{Stream, Outgoing}
use ngrok_rs.Stream.Fifo.{body_bytes}
use ngrok_rs.Stream.Shutdown.{IsOpen}
use ngrok_rs.Typed.{accept_typed, open_typed}
use ngrok_rs.Typed.Prefix.{accept_typed-open_typed, open_typed_cut}

abbrev willing : Outgoing
willing = record { room = ready (ok tt); send = ok tt; flush = ready (ok tt) }

abbrev wide : Stream
wide = record {
  window = record { max_size = 8; size = 8 };
  incoming = record { queue = []; ended = false };
  fout = record { sink = []; closer = 0 };
  read_buf = [];
  read_waker = none;
  write_waker = none;
  write_closed = none;
  data_read_closed = false;
  needs_syn = true;
  woken = [];
}

abbrev narrow : Stream
narrow = record wide { window = record { max_size = 3; size = 3 } }

wide-IsOpen : IsOpen wide willing
unfolding check_closed
wide-IsOpen = record { cell = refl; room = refl; send = refl; unclosed = refl }

narrow-IsOpen : IsOpen narrow willing
unfolding check_closed
narrow-IsOpen = record { cell = refl; room = refl; send = refl; unclosed = refl }

accept_typed-open_typed_example :
    (t : Stream) × (frame : Frame) × (open_typed network wide 7 1 willing
      ≡ ok (t, ready (ok (record { typ = 7; inner = t }))))
    × (t.fout.sink ≡ frame ∷ [])
    × (accept_typed network (some wide) (ok (body_bytes frame.body))
        ≡ ok (ok (record { typ = 7; inner = wide })))
unfolding capacity
accept_typed-open_typed_example =
    accept_typed-open_typed network network-IsBuf wide wide 7 1 willing wide-IsOpen (omega arith)
      (omega arith)

open_typed_cut_example :
    (t : Stream) × (frame : Frame) × (open_typed network narrow 7 1 willing
      ≡ ok (t, ready (ok (record { typ = 7; inner = t }))))
    × (t.fout.sink ≡ frame ∷ [])
    × (length (body_bytes frame.body) ≡ capacity narrow.window)
unfolding capacity
open_typed_cut_example =
    open_typed_cut network network-IsBuf narrow 7 1 willing narrow-IsOpen (omega arith)
      (omega arith)
