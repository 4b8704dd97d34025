-- ===== src/Frame.antt =====
-- muxado/src/frame.rs: the frames. A `Bytes` is the list of its bytes, and a `Flags` is the u8
-- that the `bitflags!` macro wraps.
pub mod Lengths
mod Runs
use ngrok_rs.Common.{
  ℕ, Bool, List, [], ◌%◌, ◌^◌, ◌==◌, if◌then◌else◌, min, bit_and, bit_or, length, take,
}
use ngrok_rs.Constrained.{clamp}
use ngrok_rs.Errors.{Error, InvalidHeader, length_max, length_range}

abbrev pub Bytes : Type 0
Bytes = List ℕ

abbrev pub fin_flag : ℕ
fin_flag = 0b0001

abbrev pub syn_flag : ℕ
syn_flag = 0b0010

pub data HeaderType : Type 0 where
  rst «data» wnd_inc go_away : HeaderType
  invalid : ℕ → HeaderType

pub record Header : Type 0 where
  pub length : ℕ
  pub typ : HeaderType
  pub flags : ℕ
  pub stream_id : ℕ

pub data Body : Type 0 where
  rst : Error → Body
  «data» : Bytes → Body
  wnd_inc : ℕ → Body
  go_away : ℕ → Error → Bytes → Body
  invalid : InvalidHeader → Bytes → Body

pub record Frame : Type 0 where
  pub header : Header
  pub body : Body

-- `HeaderType::from(other)` for a u8.
unfoldable pub header_type_from : ℕ → HeaderType
header_type_from other =
    if other == 0
    then HeaderType.rst
    else if other == 1
    then HeaderType.data
    else if other == 2
    then HeaderType.wnd_inc
    else if other == 3
    then HeaderType.go_away
    else HeaderType.invalid other

-- `u8::from(other)` for a header type.
unfoldable pub u8_from : HeaderType → ℕ
u8_from HeaderType.rst = 0
u8_from HeaderType.data = 1
u8_from HeaderType.wnd_inc = 2
u8_from HeaderType.go_away = 3
u8_from (HeaderType.invalid t) = t

-- `Header::default()`, with the default of each field.
abbrev pub default_header : Header
default_header = record { length = 0; typ = HeaderType.invalid 255; flags = 0; stream_id = 0 }

unfoldable pub header_type : Body → HeaderType
header_type (Body.data bs) = HeaderType.data
header_type (Body.go_away last error message) = HeaderType.go_away
header_type (Body.wnd_inc inc) = HeaderType.wnd_inc
header_type (Body.rst error) = HeaderType.rst
header_type (Body.invalid error body) = HeaderType.invalid 0xff

-- `Body::len`
unfoldable pub body_len : Body → ℕ
body_len (Body.data bs) = length bs
body_len (Body.go_away last error message) = 8
body_len (Body.wnd_inc inc) = 4
body_len (Body.rst error) = 4
body_len (Body.invalid error body) = length body

unfoldable pub clamp_len : Body → Body
clamp_len (Body.data bs) = Body.data (take (min length_max (length bs)) bs)
clamp_len (Body.invalid error body) = Body.invalid error (take (min length_max (length body)) body)
clamp_len (Body.rst error) = Body.rst error
clamp_len (Body.wnd_inc inc) = Body.wnd_inc inc
clamp_len (Body.go_away last error message) = Body.go_away last error message

-- `Frame::from(body)`
unfoldable pub frame_from : Body → Frame
unfolding header_type body_len clamp_len clamp
frame_from other =
    let clamped = clamp_len other in
    record {
      header = record default_header {
        length = clamp length_range (body_len clamped % 2 ^ 32);
        typ = header_type other;
      };
      body = clamped;
    }

unfoldable pub is_fin : Frame → Bool
is_fin f = bit_and f.header.flags fin_flag == fin_flag

unfoldable pub is_syn : Frame → Bool
is_syn f = bit_and f.header.flags syn_flag == syn_flag

unfoldable pub fin : Frame → Frame
fin f = record f { header = record (f.header) { flags = bit_or f.header.flags fin_flag } }

unfoldable pub syn : Frame → Frame
syn f = record f { header = record (f.header) { flags = bit_or f.header.flags syn_flag } }

-- `Frame::stream_id`, which sets the field.
unfoldable pub with_stream_id : ℕ → Frame → Frame
with_stream_id id f = record f { header = record (f.header) { stream_id = id } }

-- `Frame::rst`
unfoldable pub rst_frame : ℕ → Error → Frame
unfolding clamp
rst_frame stream_id error = record {
  header = record default_header {
    length = clamp length_range 4;
    stream_id = stream_id;
    typ = HeaderType.rst;
  };
  body = Body.rst error;
}

-- `Frame::goaway`
unfoldable pub goaway : ℕ → Error → Bytes → Frame
unfolding clamp
goaway last_stream_id error message =
    let len = clamp length_range (length message % 2 ^ 32) in
    record {
      header = record default_header { length = len; typ = HeaderType.go_away };
      body = Body.go_away last_stream_id error (take len message);
    }
