-- ===== src/Http3/Frames.antt =====
-- The frame classes and parse_http3_frames of dpkt/http3.py. Each `unpack` method is a function from
-- the buffer to the frame's fields, or to the exception that the method raises.
use dpkt_ng.Base.{ℕ, ◌+◌, ◌-◌, Bool, List, ◌++◌, ltb, leb, ◌==◌, if◌then◌else◌, length}
use dpkt_ng.Base.Bytes.{slice}
use dpkt_ng.Base.Results.{Outcome, returns, ◌>>=◌}
use dpkt_ng.Base.Loops.{read_loop}
use dpkt_ng.Quic.Varint.{decode_varint, encode_varint}

-- Type, length and the fields of the class; `plain` is the base class, for the types without their own.
pub data Http3Frame : Type 0 where
  plain : ℕ → ℕ → Http3Frame
  data_frame headers_frame : ℕ → ℕ → List ℕ → Http3Frame
  settings_frame : ℕ → ℕ → List (ℕ × ℕ) → Http3Frame
  goaway_frame cancel_push_frame max_push_id_frame : ℕ → ℕ → ℕ → Http3Frame
  push_promise_frame : ℕ → ℕ → ℕ → List ℕ → Http3Frame

-- Type, length, and where the body begins
unfoldable pub frame_header : List ℕ → ℕ → Outcome (ℕ × ℕ × ℕ)
frame_header buf off = do
  (type, n) ← decode_varint buf off
  (length, m) ← decode_varint buf (off + n)
  returns (type, length, off + n + m)

unfoldable pub unpack_plain : List ℕ → Outcome Http3Frame
unpack_plain buf = do (type, length, body) ← frame_header buf 0; returns (plain type length)

unfoldable pub unpack_data : List ℕ → Outcome Http3Frame
unpack_data buf = do
  (type, length, body) ← frame_header buf 0
  returns (data_frame type length (slice body (body + length) buf))

unfoldable pub unpack_headers : List ℕ → Outcome Http3Frame
unpack_headers buf = do
  (type, length, body) ← frame_header buf 0
  returns (headers_frame type length (slice body (body + length) buf))

unfoldable pub read_setting : List ℕ → ℕ → Outcome ((ℕ × ℕ) × ℕ)
read_setting buf off = do
  (sid, sn) ← decode_varint buf off
  (sval, sv) ← decode_varint buf (off + sn)
  returns ((sid, sval), off + sn + sv)

-- while off + 2 <= end
unfoldable pub more_settings : ℕ → ℕ → Bool
more_settings end off = leb (off + 2) end

-- A setting takes a byte at least, so `length buf` rounds are enough.
unfoldable pub read_settings : List ℕ → ℕ → ℕ → Outcome (List (ℕ × ℕ))
read_settings buf off end = read_loop (more_settings end) (read_setting buf) (length buf) off

unfoldable pub unpack_settings : List ℕ → Outcome Http3Frame
unpack_settings buf = do
  (type, length, body) ← frame_header buf 0
  settings ← read_settings buf body (body + length)
  returns (settings_frame type length settings)

unfoldable pub unpack_goaway : List ℕ → Outcome Http3Frame
unpack_goaway buf = do
  (type, length, body) ← frame_header buf 0
  (last_stream_id, n) ← decode_varint buf body
  returns (goaway_frame type length last_stream_id)

-- `length - p` may go below zero; the slice is then empty, as it is with the stop at or before the start.
unfoldable pub unpack_push_promise : List ℕ → Outcome Http3Frame
unpack_push_promise buf = do
  (type, length, body) ← frame_header buf 0
  (push_id, p) ← decode_varint buf body
  returns (push_promise_frame type length push_id (slice (body + p) (body + p + length - p) buf))

unfoldable pub unpack_cancel_push : List ℕ → Outcome Http3Frame
unpack_cancel_push buf = do
  (type, length, body) ← frame_header buf 0
  (push_id, n) ← decode_varint buf body
  returns (cancel_push_frame type length push_id)

unfoldable pub unpack_max_push_id : List ℕ → Outcome Http3Frame
unpack_max_push_id buf = do
  (type, length, body) ← frame_header buf 0
  (max_push_id, n) ← decode_varint buf body
  returns (max_push_id_frame type length max_push_id)

unfoldable pub unpack_frame : ℕ → List ℕ → Outcome Http3Frame
unpack_frame ftype buf =
    if ftype == 0x00
    then unpack_data buf
    else if ftype == 0x01
    then unpack_headers buf
    else if ftype == 0x04
    then unpack_settings buf
    else if ftype == 0x07
    then unpack_goaway buf
    else if ftype == 0x05
    then unpack_push_promise buf
    else if ftype == 0x03
    then unpack_cancel_push buf
    else if ftype == 0x0d
    then unpack_max_push_id buf
    else unpack_plain buf

-- One round of the loop, with the offset of the next
unfoldable pub read_frame : List ℕ → ℕ → Outcome (Http3Frame × ℕ)
read_frame buf off = do
  (ftype, flen, body) ← frame_header buf off
  f ← unpack_frame ftype (slice off (body + flen) buf)
  returns (f, body + flen)

unfoldable pub more_frames : List ℕ → ℕ → Bool
more_frames buf off = ltb off (length buf)

-- A frame takes a byte at least, so `length buf` rounds are enough.
unfoldable pub parse_http3_frames : List ℕ → Outcome (List Http3Frame)
parse_http3_frames buf = read_loop (more_frames buf) (read_frame buf) (length buf) 0

-- Http3DataFrame.__bytes__ of a frame with this type and payload
unfoldable pub data_bytes : ℕ → List ℕ → Outcome (List ℕ)
data_bytes type payload = do
  t ← encode_varint type
  l ← encode_varint (length payload)
  returns (t ++ l ++ payload)
