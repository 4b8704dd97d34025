-- ===== src/Errors.antt =====
-- muxado/src/errors.rs, and the ranges of the wire's number types from muxado/src/frame.rs.
pub mod Codes
mod Runs
use ngrok_rs.Common.{ℕ, ◌==◌, if◌then◌else◌}
use ngrok_rs.Constrained.{Range, mask}

abbrev pub wndinc_max : ℕ
wndinc_max = 0x7FFFFFFF

abbrev pub stream_id_max : ℕ
stream_id_max = 0x7FFFFFFF

abbrev pub length_max : ℕ
length_max = 0x00FFFFFF

abbrev pub error_max : ℕ
error_max = 0xFFFFFFFF

abbrev pub stream_id_range : Range
stream_id_range = record { start = 0; end = stream_id_max }

abbrev pub wnd_inc_range : Range
wnd_inc_range = record { start = 0; end = wndinc_max }

abbrev pub length_range : Range
length_range = record { start = 0; end = length_max }

abbrev pub error_code_range : Range
error_code_range = record { start = 0; end = error_max }

pub data Error : Type 0 where
  none protocol internal flow_control stream_closed stream_refused stream_cancelled : Error
  stream_reset frame_size_error accept_queue_full enhance_your_calm remote_gone_away : Error
  streams_exhausted write_timeout session_closed peer_eof error_unknown : Error

-- `other as u32`
unfoldable pub discriminant : Error → ℕ
discriminant Error.none = 0x00
discriminant Error.protocol = 0x01
discriminant Error.internal = 0x02
discriminant Error.flow_control = 0x03
discriminant Error.stream_closed = 0x04
discriminant Error.stream_refused = 0x05
discriminant Error.stream_cancelled = 0x06
discriminant Error.stream_reset = 0x07
discriminant Error.frame_size_error = 0x08
discriminant Error.accept_queue_full = 0x09
discriminant Error.enhance_your_calm = 0x0A
discriminant Error.remote_gone_away = 0x0B
discriminant Error.streams_exhausted = 0x0C
discriminant Error.write_timeout = 0x0D
discriminant Error.session_closed = 0x0E
discriminant Error.peer_eof = 0x0F
discriminant Error.error_unknown = 0xFFFFFFFF

-- `ErrorCode::from(error)`
unfoldable pub code_from_error : Error → ℕ
unfolding mask discriminant
code_from_error other = mask error_code_range (discriminant other)

-- `Error::from(code)`
unfoldable pub error_from_code : ℕ → Error
error_from_code c =
    if c == 0x00
    then Error.none
    else if c == 0x01
    then Error.protocol
    else if c == 0x02
    then Error.internal
    else if c == 0x03
    then Error.flow_control
    else if c == 0x04
    then Error.stream_closed
    else if c == 0x05
    then Error.stream_refused
    else if c == 0x06
    then Error.stream_cancelled
    else if c == 0x07
    then Error.stream_reset
    else if c == 0x08
    then Error.frame_size_error
    else if c == 0x09
    then Error.accept_queue_full
    else if c == 0x0A
    then Error.enhance_your_calm
    else if c == 0x0B
    then Error.remote_gone_away
    else if c == 0x0C
    then Error.streams_exhausted
    else if c == 0x0D
    then Error.write_timeout
    else if c == 0x0E
    then Error.session_closed
    else if c == 0x0F
    then Error.peer_eof
    else Error.error_unknown

pub data InvalidHeader : Type 0 where
  zero_stream_id : InvalidHeader
  non_zero_stream_id : ℕ → InvalidHeader
  length : ℕ → ℕ → InvalidHeader
  min_length : ℕ → ℕ → InvalidHeader
  typ : ℕ → InvalidHeader

-- `Error::from(invalid_header)`
unfoldable pub error_from_invalid_header : InvalidHeader → Error
error_from_invalid_header other = Error.protocol
