-- ===== src/Lib.antt =====
-- ngrok-rs. The muxado crate is a session that runs many streams over one connection: bytes of the
-- connection are frames (codec, frame); a frame of the peer goes from the session's reader through
-- the stream manager to its stream; what a stream sends goes through its sender to the manager, whose
-- poll_next hands it to the session's writer. The stream and the manager share a cell that says why
-- the stream is closed. The ngrok crate keeps a client's tunnels on such a session: each request to
-- the service has a stream of its own, each connection of a tunnel comes as a stream with a header, and
-- a task hands it to the tunnel of the header, or connects and binds the tunnels anew.
--
-- Which file models which part (paths from the repository's root):
--   Common          the shared names, lists, results, bits (Common/Bits) maps (Common/Maps,
--                   Common/Names) and signed numbers (Common/Integers). A HashMap is an association
--                   list that is kept without doubles, with numbers or texts for keys.
--   Constrained     muxado/src/constrained.rs. `clamp`, `mask` and `try_from` take the macro's range
--                   as an argument; the newtypes are the numbers that they wrap.
--   Errors          muxado/src/errors.rs, with the ranges of muxado/src/frame.rs.
--   Frame           muxado/src/frame.rs. `frame_from` is `Frame::from(body)`, `rst_frame` is
--                   `Frame::rst`, `with_stream_id` is `Frame::stream_id`; a `Flags` is its u8.
--   Codec           muxado/src/codec.rs: `decode` and `encode` of `FrameCodec`. Codec/Buffers holds
--                   what is used of the bytes crate, a parameter with its documented behaviour
--                   `IsBuf`; Codec/Network is a big-endian instance, which has that behaviour.
--   Window          muxado/src/window.rs.
--   StreamOutput    muxado/src/stream_output.rs: `StreamSender` and its `SinkCloser`, whose atomic
--                   number is the field `closer`.
--   StreamManager   muxado/src/stream_manager.rs. StreamManager/Polling is `poll_next`,
--                   StreamManager/Sending is `send_to_stream` with the polls that it is made of, and
--                   StreamManager/Steps is the manager's life: its calls in any order, as a relation.
--   Stream          muxado/src/stream.rs. Stream/Reading is `poll_read`, Stream/Writing is
--                   `poll_write`, `poll_flush` and `poll_shutdown`; Stream/Credit/Life is a stream's
--                   life as a relation.
--   Typed           muxado/src/typed.rs: `open_typed` and `accept_typed` around the write and the read
--                   of the type.
--   Heartbeat       muxado/src/heartbeat.rs: the accept filter, the durations, the requester and the
--                   responder, each as a function of what its stream gives round by round, and
--                   the check task (Heartbeat/Check), on a clock.
--   Session         muxado/src/session.rs: `Reader::handle_frame` and `Reader::run`, the turns of
--                   `Writer::run`, `SessionBuilder::start`, and `OpenReq::create`. Session/Live is
--                   the two tasks together, on one manager, and Session/Agreement is the
--                   flow control between two peers.
--   Ngrok           ngrok/src. Ngrok/Io is how an asynchronous call is a function on the state of what
--                   is outside: it returns, raises an error, or panics.
--     Proto         ngrok/src/internals/proto.rs: the messages; Proto/Kinds has `EdgeType` and
--                   `ProxyProto`, Proto/Endpoints the bind options, Proto/Header `ProxyHeader`.
--     Config        ngrok/src/config: the options of each kind of builder with its setters.
--     Rpc           ngrok/src/internals/raw_session.rs and rpc.rs: `rpc` and its requests; Rpc/Accept
--                   is `IncomingStreams::accept`.
--     Session       ngrok/src/session.rs: Session/Connect is `connect_inner`, Session/Tunnels
--                   `start_tunnel` and `close_tunnel`, Session/Incoming `accept_one`, `try_reconnect`
--                   and `accept_incoming`; Session/Life is a session's life as a relation, and
--                   Session/Overlap a start during a reconnect.
--     Tunnel        ngrok/src/tunnel.rs and tunnel_ext.rs: closing, and forwarding to an address.
-- Modules named Peer hold a small service for the runs, and modules named Runs hold tests and the
-- theorems at concrete inputs.
--
-- How it is modelled. Numbers are natural numbers. A u8 or u32 that can wrap is reduced where the
-- source computes it (`% 2 ^ 32` for `as u32`); a usize is not bounded, since the sums of window
-- sizes, increments and lengths stay far below its range. A `Result` is a result, `?` its bind, and
-- `Poll` has its two cases; a panic (`unwrap`, `unreachable!`, a short buffer) is an error of its
-- own. Channels, the connection, the set of tasks and the wakers are other crates': what they answer
-- is an argument of each operation, so that a theorem holds whatever they answer, and the frames
-- that a channel took are kept in order. In StreamManager the stored waker is the fact that there is
-- one; in Stream a waker is the number of its task, and the wake-ups are recorded.
--
-- In the ngrok crate the streams, the JSON, the sockets, the channels and the machine are the fields of
-- the records RpcIo, AcceptIo, HeaderIo, SessionIo and ForwardIo, functions on a state that the theorems
-- leave open; a stream or a channel is its number there, an f64 is the number of its bits, and a
-- secret is its text. A session is the `SessionInner` that a call loads, and the call gives the one
-- that it leaves.
--
-- Loops. `send_polls` runs over the channel's answers to the polls of one `send_to_stream`, and
-- `Session.run` over what the connection gives: both wait when these run out. `recv_frames` runs over
-- the frames that are on the channel. `read_loop` is on fuel: each turn but the last takes a frame or
-- learns that the channel has ended, and `poll_read` gives it a turn for each frame on the channel,
-- one for the end and one to answer: a turn takes a frame, or notes the end, or gives the answer.
-- `accept`, `forward_bytes` and `forward_conns` run for a number of rounds and then wait: the peer can
-- keep them going for ever. `accept_incoming` is one turn of its loop.
--
-- What is not modelled. Turns of the two session tasks interleave at whole calls and not at each
-- await, and the lock that they share is only that. In the ngrok crate a call of a session is one step,
-- but for a start that overlaps a reconnect, and `RawSession::start`, which puts the muxado
-- parts together, is a parameter. Tracing, formatting, the accept handles and the wrappers of the tunnels,
-- which pass values on, are left out, and so are what serde derives and the error page that hyper
-- serves.
pub mod Common
pub mod Constrained
pub mod Errors
pub mod Frame
pub mod Codec
pub mod Window
pub mod StreamOutput
pub mod StreamManager
pub mod Stream
pub mod Session
pub mod Typed
pub mod Heartbeat
pub mod Ngrok
