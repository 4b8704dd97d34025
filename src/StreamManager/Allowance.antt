-- ===== src/StreamManager/Allowance.antt =====
-- The window of a handle in `handle_frame` and `poll_next` of muxado/src/stream_manager.rs
use ngrok_rs.Common.{
  ℕ, ◌+◌, ◌-◌, ◌≤◌, ◌≡◌, ◌≢◌, refl, false, if◌then◌else◌, arith, length, ok, err, Result, ready,
  pending,
}
use ngrok_rs.Errors.{Error}
use ngrok_rs.Frame.{Body, Frame, is_fin}
use ngrok_rs.StreamOutput.{SendError, SinkPoll}
use ngrok_rs.StreamManager.{StreamHandle}
use ngrok_rs.StreamManager.Polling.{sent, credit}
use ngrok_rs.StreamManager.Sending.{Channel, data_len, shut, send_frame, handle_body, handle_frame}
use ngrok_rs.StreamManager.Flow.{send_frame_keeps}
use ngrok_rs.Stream.Fifo.{body_bytes}
use ngrok_rs.Stream.Credit.{increment}

pub data_len-body_bytes : (b : Body) → length (body_bytes b) ≡ data_len b
unfolding data_len
data_len-body_bytes (Body.data bs) = refl
data_len-body_bytes (Body.wnd_inc _) = refl
data_len-body_bytes (Body.rst _) = refl
data_len-body_bytes (Body.go_away _ _ _) = refl
data_len-body_bytes (Body.invalid _ _) = refl

pub sent-window : (f : Frame) (h : StreamHandle) → (sent f h).window ≡ h.window + increment f.body
unfolding sent credit
sent-window f h = go f.body
  where
    go :
        (b : Body)
        → (if is_fin f then record (credit b h) { needs_fin = false } else credit b h).window
          ≡ h.window + increment b
    go (Body.data _) = ground arith
    go (Body.wnd_inc _) = ground arith
    go (Body.rst _) = ground arith
    go (Body.go_away _ _ _) = ground arith
    go (Body.invalid _ _) = ground arith

-- What is left of the handle's window once this many bytes are taken off.
abbrev rest_of : ℕ → StreamHandle → StreamHandle
rest_of shrink h = record h { window = h.window - shrink }

send_frame-window :
    (f : Frame) (shrink : ℕ) (channel : Channel) (h : StreamHandle)
    → (send_frame f channel (rest_of shrink h)).0.window ≡ h.window - shrink
send_frame-window f shrink channel h = (send_frame_keeps f channel (rest_of shrink h)).0

-- A poll takes no more off the window than it is asked to.
handle_body-window :
    (b : Body) (f : Frame) (shrink : ℕ) (channel : Channel) (h : StreamHandle)
    → h.window ≤ (handle_body b f shrink channel h).0.window + shrink
unfolding handle_body shut
handle_body-window (Body.rst e) f shrink channel h = omega arith
handle_body-window (Body.data _) f shrink channel h =
    ground (arith, send_frame-window f shrink channel h)
handle_body-window (Body.wnd_inc _) f shrink channel h =
    ground (arith, send_frame-window f shrink channel h)
handle_body-window (Body.go_away _ _ _) f shrink channel h =
    ground (arith, send_frame-window f shrink channel h)
handle_body-window (Body.invalid _ _) f shrink channel h =
    ground (arith, send_frame-window f shrink channel h)

pub handle_frame-window :
    (f : Frame) (shrink : ℕ) (channel : Channel) (h : StreamHandle)
    → h.window ≤ (handle_frame f shrink channel h).0.window + shrink
unfolding handle_frame
handle_frame-window f shrink channel h =
    ground (arith, handle_body-window f.body f shrink channel h)

send_frame-Allowed :
    (f : Frame) (channel : Channel) (h : StreamHandle)
    → (send_frame f channel h).1 ≢ ready (err Error.flow_control)
unfolding send_frame
send_frame-Allowed f channel h = go channel.room channel.send
  where
    go :
        (room : SinkPoll) (send : Result SendError (Unit {0}))
        → (send_frame f (record { room = room; send = send }) h).1 ≢ ready (err Error.flow_control)
    go pending send = ground arith
    go (ready (err _)) send = ground arith
    go (ready (ok _)) (err _) = ground arith
    go (ready (ok _)) (ok _) = ground arith

handle_body-Allowed :
    (b : Body) (f : Frame) (shrink : ℕ) (channel : Channel) (h : StreamHandle)
    → shrink ≤ h.window
    → (handle_body b f shrink channel h).2 ≢ ready (err Error.flow_control)
unfolding handle_body
handle_body-Allowed (Body.rst e) f shrink channel h fits = ground arith
handle_body-Allowed (Body.data _) f shrink channel h fits =
    ground (arith, send_frame-Allowed f channel (rest_of shrink h))
handle_body-Allowed (Body.wnd_inc _) f shrink channel h fits =
    ground (arith, send_frame-Allowed f channel (rest_of shrink h))
handle_body-Allowed (Body.go_away _ _ _) f shrink channel h fits =
    ground (arith, send_frame-Allowed f channel (rest_of shrink h))
handle_body-Allowed (Body.invalid _ _) f shrink channel h fits =
    ground (arith, send_frame-Allowed f channel (rest_of shrink h))

pub handle_frame-Allowed :
    (f : Frame) (shrink : ℕ) (channel : Channel) (h : StreamHandle)
    → shrink ≤ h.window
    → (handle_frame f shrink channel h).2 ≢ ready (err Error.flow_control)
unfolding handle_frame
handle_frame-Allowed f shrink channel h fits =
    ground (arith, handle_body-Allowed f.body f shrink channel h fits)
