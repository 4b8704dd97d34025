-- ===== src/Ngrok/Proto/Header.antt =====
-- `ProxyHeader` of ngrok/src/internals/proto.rs, and its reading from a stream. Reading a number
-- and a buffer are tokio's, the text and its JSON the libraries': arguments.
use Prim.Native.String.{String}
use ngrok_rs.Common.{err, ℕ, ◌≡◌, Bool, true, false, Result, ok, ltb, ◌^◌, ◌≤◌, refl, arith}
use ngrok_rs.Common.Integers.{ℤ, pos, negsuc, as_usize, IsI64, as_usize-negsuc}
use ngrok_rs.Frame.{Bytes}
use ngrok_rs.Ngrok.Io.{
  Async, IoError, ◌>>=◌, ◌>>◌, panicked, OnReturn-bind, OnReturn-convert, OnReturn-try,
  OnReturn-lift, OnReturn-lift_try, OnReturn-ok, return, panic, lift, map_err,
}
use ngrok_rs.Ngrok.Proto.Kinds.{EdgeType}

pub record ProxyHeader : Type 0 where
  pub id : String
  pub client_addr : String
  pub proto : String
  pub edge_type : EdgeType
  pub passthrough_tls : Bool

pub data ReadHeaderError (Cause : Type 0) : Type 0 where
  io : IoError Cause → ReadHeaderError Cause
  invalid_utf8 invalid_header : Cause → ReadHeaderError Cause

-- How a header is read.
pub record HeaderIo (State Cause : Type 0) : Type 0 where
  pub read_i64_le : ℕ → Async State (IoError Cause) ℤ
  pub read_exact : ℕ → ℕ → Async State (IoError Cause) Bytes
  pub from_utf8 : Bytes → Result Cause String
  pub from_str : String → Result Cause ProxyHeader

-- `vec![0u8; size]` panics where the size is above isize::MAX.
abbrev pub zeroed : {State E : Type 0} → ℕ → Async State E (Unit {0})
zeroed size = elim (ltb size (2 ^ 63)) [ true ↦ return tt | false ↦ panic ]

module _ {State Cause : Type 0} (lib : HeaderIo State Cause) where
  open lib use {read_i64_le, read_exact, from_utf8, from_str}

  -- `ProxyHeader::read_from_stream`
  unfoldable pub read_from_stream : ℕ → Async State (ReadHeaderError Cause) ProxyHeader
  read_from_stream stream = do
    size ← map_err io (read_i64_le stream)
    zeroed (as_usize size)
    buf ← map_err io (read_exact stream (as_usize size))
    header ← map_err invalid_utf8 (lift (from_utf8 buf))
    map_err invalid_header (lift (from_str header))

  zeroed-ok :
      {E : Type 0} (z : ℤ) {first last : State} {u : Unit {0}}
      → IsI64 z
      → zeroed {E = E} (as_usize z) first ≡ (last, ok u)
      → (n : ℕ) × ((z ≡ pos n) × (first ≡ last))
  unfolding as_usize
  zeroed-ok (pos n) i h = (n, (refl, ground arith))
  zeroed-ok {E = E} (negsuc n) {first} i h = ground (arith, as_usize-negsuc n i)

  zeroed-big :
      {E : Type 0} (size : ℕ) (state : State)
      → 2 ^ 63 ≤ size
      → zeroed {E = E} size state ≡ (state, err panicked)
  zeroed-big size state h = ground arith

  -- What a header that was read comes from: the announced number of bytes, which are read next.
  abbrev pub IsReadFrom : ℕ → State → State → ProxyHeader → Type 0
  IsReadFrom stream first last header =
      (n : ℕ) × ((mid : State) × ((buf : Bytes) × ((text : String) × ((read_i64_le stream first
                ≡ (mid, ok (pos n)))
              × (read_exact stream n mid ≡ (last, ok buf))
              × (from_utf8 buf ≡ ok text)
              × (from_str text ≡ ok header)))))

  -- A header that is read is what the JSON of exactly the announced number of bytes says, and that
  -- number is not negative.
  pub read_from_stream-ok :
      (stream : ℕ) (first last : State) (header : ProxyHeader)
      → ((s : State) (z : ℤ) (s' : State) → read_i64_le stream s ≡ (s', ok z) → IsI64 z)
      → read_from_stream stream first ≡ (last, ok header)
      → IsReadFrom stream first last header
  unfolding read_from_stream as_usize
  read_from_stream-ok stream first last header i64 h =
      let P = IsReadFrom stream first in
      OnReturn-ok P h (
        OnReturn-try P io (read_i64_le stream first) _ (λ s1 z e1.
          OnReturn-bind P (zeroed (as_usize z) s1) _ (λ s2 u e2.
            OnReturn-try P io (read_exact stream (as_usize z) s2) _ (λ s3 buf e3.
              OnReturn-lift_try P invalid_utf8 (from_utf8 buf) s3 _ (λ text e4.
                OnReturn-convert P invalid_header (lift (from_str text) s3) (
                  OnReturn-lift P (from_str text) s3 (λ header e5.
                    let (n, (ez, es)) = zeroed-ok z (i64 first z s1 e1) e2 in
                    (n, (s1, (buf, (text, (cc, cc, e4, e5))))))))))))

  -- A negative announced length panics: as a usize it is more than an allocation may have.
  pub read_from_stream-negative :
      (stream : ℕ) (first mid : State) (n : ℕ)
      → IsI64 (negsuc n)
      → read_i64_le stream first ≡ (mid, ok (negsuc n))
      → read_from_stream stream first ≡ (mid, err panicked)
  unfolding read_from_stream
  read_from_stream-negative stream first mid n i h =
      rw (h, zeroed-big (as_usize (negsuc n)) mid (as_usize-negsuc n i))
