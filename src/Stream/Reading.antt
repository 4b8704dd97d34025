-- ===== src/Stream/Reading.antt =====
-- `poll_read` of muxado/src/stream.rs.
use ngrok_rs.Common.{
  ℕ, zero, suc, ◌%◌, ◌^◌, ◌==◌, if◌then◌else◌, min, true, false, [], ◌∷◌, length, take, drop, some,
  Result, ok, ◌>>=◌, Panic, Poll, ready, pending,
}
use ngrok_rs.Constrained.{clamp}
use ngrok_rs.Errors.{wnd_inc_range}
use ngrok_rs.Frame.{Bytes, HeaderType}
use ngrok_rs.Stream.{Stream, Outgoing, poll_recv_frame_type, poll_send_wndinc}

-- The stream, and the bytes that the poll has put into the buffer when it is ready.
abbrev pub ReadPoll : Type 0
ReadPoll = Stream × Poll Bytes

-- How much of the read buffer goes to a buffer with `remaining` free bytes.
unfoldable pub read_len : Stream → ℕ → ℕ
unfolding clamp
read_len s remaining = clamp wnd_inc_range (min (length s.read_buf) remaining % 2 ^ 32)

-- The first `if` of the loop, on a read buffer that is not empty.
unfoldable pub give : Stream → ℕ → Outgoing → ReadPoll
unfolding read_len poll_send_wndinc
give s remaining out =
    let n = read_len s remaining in
    if n == 0
    then (s, ready [])
    else let (s', answer) = poll_send_wndinc s n out in
      elim answer [
        | pending ↦ (s', pending)
        | ready _ ↦ (record s' { read_buf = drop n s'.read_buf }, ready (take n s'.read_buf))
      ]

-- The loop of `poll_read`, on fuel. Each turn but the last takes a frame off the channel.
unfoldable pub read_loop : ℕ → Stream → ℕ → ℕ → Outgoing → Result Panic ReadPoll
unfolding give poll_recv_frame_type
read_loop zero s cx remaining out = ok (s, pending)
read_loop (suc fuel) s cx remaining out = elim s.read_buf [
  | _ ∷ _ ↦ ok (give s remaining out)
  | [] ↦ elim s.data_read_closed [
    | true ↦ ok (s, ready [])
    | false ↦
        poll_recv_frame_type HeaderType.data cx (record s { read_waker = some cx })
        >>= λ (s', answer). elim answer [
          | pending ↦ ok (s', pending)
          | ready _ ↦ read_loop fuel s' cx remaining out
        ]
  ]
]

-- `poll_read`, with a turn for each frame of the channel, one for its end and one to answer.
unfoldable pub poll_read : Stream → ℕ → ℕ → Outgoing → Result Panic ReadPoll
unfolding read_loop
poll_read s cx remaining out = read_loop (suc (suc (length s.incoming.queue))) s cx remaining out
