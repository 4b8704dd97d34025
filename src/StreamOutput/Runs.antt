-- ===== src/StreamOutput/Runs.antt =====
-- Concrete runs of stream_output.rs, and its theorems at concrete inputs.
use ngrok_rs.Common.{◌≡◌, refl, [], ◌∷◌, ok, err}
use ngrok_rs.Errors.{Error, code_from_error, error_from_code}
use ngrok_rs.Frame.{Body, Frame, frame_from}
use ngrok_rs.StreamOutput.{StreamSender, close_with, check_closed, wrap, start_send}

abbrev refused : StreamSender
refused = record { sink = []; closer = 5 }

abbrev ping : Frame
ping = frame_from (Body.data (1 ∷ []))

-- A cell that is closed with the error that stands for none stays open.
close_with_none : check_closed (close_with 0 Error.none) ≡ ok tt
unfolding check_closed close_with code_from_error
close_with_none = refl

send_open : (start_send wrap ping (ok tt)).0.sink ≡ ping ∷ []
unfolding start_send wrap check_closed
send_open = refl

refused_closed : check_closed 5 ≡ err Error.stream_refused
unfolding check_closed error_from_code
refused_closed = refl
