-- ===== src/Frame/Runs.antt =====
-- The theorems on muxado/src/frame.rs at concrete inputs.
use ngrok_rs.Common.{[], ◌∷◌}
use ngrok_rs.Frame.{Body, Frame, frame_from}

abbrev five : Frame
five = frame_from (Body.data (1 ∷ 2 ∷ 3 ∷ 4 ∷ 5 ∷ []))
