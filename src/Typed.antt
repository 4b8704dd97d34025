-- ===== src/Typed.antt =====
-- muxado/src/typed.rs: streams that begin with their type, a u32. Reading and writing a u32 is the
-- bytes crate's, as in Codec/Buffers; what `read_exact` gives is an argument.
pub mod Prefix
mod Runs
use ngrok_rs.Common.{
  ℕ, List, Option, none, some, Result, ok, err, ◌>>=◌, Panic, Poll, ready, pending,
}
use ngrok_rs.Constrained.{Range, clamp}
use ngrok_rs.Errors.{Error}
use ngrok_rs.Frame.{Bytes}
use ngrok_rs.Codec.Buffers.{BufOps}
use ngrok_rs.Stream.{Stream, Outgoing}
use ngrok_rs.Stream.Writing.{IoError, IoPoll, poll_write}

abbrev pub stream_type_range : Range
stream_type_range = record { start = 0; end = 0xFFFFFFFF }

pub record TypedStream : Type 0 where
  pub typ : ℕ
  pub inner : Stream

module _ (lib : BufOps) where
  open lib use {put_u32, get_u32}

  -- `TypedAccept::accept_typed`, for the stream that was accepted and the bytes that `read_exact`
  -- has read from it.
  unfoldable pub accept_typed :
      Option Stream → Result IoError Bytes → Result Panic (Result Error TypedStream)
  unfolding clamp
  accept_typed none read = ok (err Error.session_closed)
  accept_typed (some stream) (err _) = ok (err Error.stream_closed)
  accept_typed (some stream) (ok buf) = get_u32 buf >>= λ (typ, _).
      ok (ok (record { typ = clamp stream_type_range typ; inner = stream }))

  -- The answer of `open_typed` to that of the write.
  abbrev opened_typed : ℕ → Stream × IoPoll ℕ → Stream × Poll (Result Error TypedStream)
  opened_typed typ (stream, pending) = (stream, pending)
  opened_typed typ (stream, ready (err _)) = (stream, ready (err Error.stream_reset))
  opened_typed typ (stream, ready (ok _)) =
      (stream, ready (ok (record { typ = typ; inner = stream })))

  -- `TypedOpen::open_typed`, for the stream that was opened: one poll of its write.
  unfoldable pub open_typed :
      Stream → ℕ → ℕ → Outgoing → Result Panic (Stream × Poll (Result Error TypedStream))
  open_typed stream typ cx out =
      poll_write stream cx (put_u32 typ) out >>= λ p. ok (opened_typed typ p)
