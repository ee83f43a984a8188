-- ===== src/Quic/Frames.antt =====
-- The frame classes and parse_frames of dpkt/quic.py. `unpack` of a class is a function from the bytes
-- to the frame or to the exception; the TLS records that a CRYPTO frame holds are left out.
use Prim.Native.Nat.{bit_and}
use dpkt_ng.Base.{
  ℕ, zero, suc, ◌+◌, ◌&&◌, Option, none, some, List, [], ◌∷◌, ◌++◌, leb, ◌==◌, if◌then◌else◌,
  length, drop, get_elem?,
}
use dpkt_ng.Base.Bytes.{slice}
use dpkt_ng.Base.Results.{Outcome, returns, raises, index_error, ◌>>=◌}
use dpkt_ng.Quic.Varint.{decode_varint, encode_varint}

-- The fields of each class in the order in which `unpack` sets them; `plain` is QUICFrame itself.
pub data QuicFrame : Type 0 where
  plain : ℕ → QuicFrame
  stream_frame : ℕ → ℕ → ℕ → ℕ → List ℕ → QuicFrame
  crypto_frame : ℕ → ℕ → ℕ → List ℕ → QuicFrame
  ack_frame : ℕ → ℕ → ℕ → ℕ → ℕ → List (ℕ × ℕ) → QuicFrame
  max_data_frame : ℕ → ℕ → QuicFrame
  max_stream_data_frame : ℕ → ℕ → ℕ → QuicFrame
  connection_close_frame : ℕ → ℕ → Option ℕ → List ℕ → QuicFrame

-- buf[i]
unfoldable pub byte_at : List ℕ → ℕ → Outcome ℕ
byte_at buf i = elim (get_elem? buf i) [ none ↦ raises index_error | some b ↦ returns b ]

-- A field that is there if its flag is set, and otherwise zero
unfoldable pub optional_field : ℕ → ℕ → List ℕ → ℕ → Outcome (ℕ × ℕ)
optional_field type flag buf off =
    if bit_and type flag == 0 then returns (0, 0) else decode_varint buf off

-- `self.data = buf[off:off+self.length] if self.length else buf[off:]`
unfoldable pub stream_data : ℕ → ℕ → List ℕ → List ℕ
stream_data length off buf = if length == 0 then drop off buf else slice off (off + length) buf

unfoldable pub unpack_stream : List ℕ → Outcome QuicFrame
unpack_stream buf = do
  type ← byte_at buf 0
  (stream_id, n) ← decode_varint buf 1
  (offset, m) ← optional_field type 0x04 buf (1 + n)
  (length, k) ← optional_field type 0x02 buf (1 + n + m)
  returns (stream_frame type stream_id offset length (stream_data length (1 + n + m + k) buf))

unfoldable pub unpack_crypto : List ℕ → Outcome QuicFrame
unpack_crypto buf = do
  type ← byte_at buf 0
  (offset, n) ← decode_varint buf 1
  (length, m) ← decode_varint buf (1 + n)
  returns (crypto_frame type offset length (slice (1 + n + m) (1 + n + m + length) buf))

-- for _ in range(block_count)
unfoldable pub read_blocks : ℕ → List ℕ → ℕ → Outcome (List (ℕ × ℕ))
read_blocks zero buf off = returns []
read_blocks (suc count) buf off = do
  (gap, n) ← decode_varint buf off
  (ack_len, m) ← decode_varint buf (off + n)
  rest ← read_blocks count buf (off + n + m)
  returns ((gap, ack_len) ∷ rest)

unfoldable pub unpack_ack : List ℕ → Outcome QuicFrame
unpack_ack buf = do
  type ← byte_at buf 0
  (largest_ack, a) ← decode_varint buf 1
  (ack_delay, b) ← decode_varint buf (1 + a)
  (block_count, c) ← decode_varint buf (1 + a + b)
  (first_ack_range, d) ← decode_varint buf (1 + a + b + c)
  blocks ← read_blocks block_count buf (1 + a + b + c + d)
  returns (ack_frame type largest_ack ack_delay block_count first_ack_range blocks)

unfoldable pub unpack_max_data : List ℕ → Outcome QuicFrame
unpack_max_data buf = do
  type ← byte_at buf 0
  (max_data, n) ← decode_varint buf 1
  returns (max_data_frame type max_data)

unfoldable pub unpack_max_stream_data : List ℕ → Outcome QuicFrame
unpack_max_stream_data buf = do
  type ← byte_at buf 0
  (stream_id, n) ← decode_varint buf 1
  (max_data, m) ← decode_varint buf (1 + n)
  returns (max_stream_data_frame type stream_id max_data)

-- Only a transport close, 0x1c, has a frame type.
unfoldable pub close_frame_type : ℕ → List ℕ → ℕ → Outcome (Option ℕ × ℕ)
close_frame_type type buf off =
    if type == 0x1c
    then (decode_varint buf off >>= λ p. returns (some p.0, off + p.1))
    else returns (none, off)

unfoldable pub unpack_connection_close : List ℕ → Outcome QuicFrame
unpack_connection_close buf = do
  type ← byte_at buf 0
  (error_code, n) ← decode_varint buf 1
  (frame_type, off) ← close_frame_type type buf (1 + n)
  (reason_len, k) ← decode_varint buf off
  returns (
      connection_close_frame type error_code frame_type
        (slice (off + k) (off + k + reason_len) buf))

unfoldable pub unpack_plain : List ℕ → Outcome QuicFrame
unpack_plain buf = do type ← byte_at buf 0; returns (plain type)

-- get_frame_parser(frame_type), called on the bytes
unfoldable pub unpack_frame : ℕ → List ℕ → Outcome QuicFrame
unpack_frame frame_type buf =
    if leb 0x08 frame_type && leb frame_type 0x0f
    then unpack_stream buf
    else if frame_type == 2
    then unpack_ack buf
    else if frame_type == 3
    then unpack_ack buf
    else if frame_type == 6
    then unpack_crypto buf
    else if frame_type == 0x1c
    then unpack_connection_close buf
    else if frame_type == 0x1d
    then unpack_connection_close buf
    else if frame_type == 16
    then unpack_max_data buf
    else if frame_type == 17
    then unpack_max_stream_data buf
    else unpack_plain buf

-- len(encode_varint(v))
unfoldable pub encoded_size : ℕ → Outcome ℕ
encoded_size v = encode_varint v >>= λ e. returns (length e)

unfoldable pub optional_size : ℕ → ℕ → ℕ → Outcome ℕ
optional_size type flag v = if bit_and type flag == 0 then returns 0 else encoded_size v

unfoldable pub blocks_size : List (ℕ × ℕ) → Outcome ℕ
blocks_size [] = returns 0
blocks_size ((gap, ack_len) ∷ rest) = do
  a ← encoded_size gap
  b ← encoded_size ack_len
  c ← blocks_size rest
  returns (a + b + c)

-- _frame_byte_size; all other classes have the length 1 of QUICFrame.
unfoldable pub frame_byte_size : QuicFrame → Outcome ℕ
frame_byte_size (crypto_frame type offset length' data') = do
  a ← encoded_size offset
  b ← encoded_size length'
  returns (1 + a + b + length')
frame_byte_size (stream_frame type stream_id offset length' data') = do
  a ← encoded_size stream_id
  b ← optional_size type 0x04 offset
  c ← optional_size type 0x02 length'
  returns (1 + a + b + c + length data')
frame_byte_size (ack_frame type largest_ack ack_delay block_count first_ack_range blocks) = do
  a ← encoded_size largest_ack
  b ← encoded_size ack_delay
  c ← encoded_size block_count
  d ← encoded_size first_ack_range
  e ← blocks_size blocks
  returns (1 + a + b + c + d + e)
frame_byte_size (plain type) = returns 1
frame_byte_size (max_data_frame type max_data) = returns 1
frame_byte_size (max_stream_data_frame type stream_id max_data) = returns 1
frame_byte_size (connection_close_frame type error_code frame_type reason) = returns 1

-- QUICCryptoFrame.__bytes__
unfoldable pub crypto_bytes : ℕ → ℕ → List ℕ → Outcome (List ℕ)
crypto_bytes offset length' data' = do
  a ← encode_varint offset
  b ← encode_varint length'
  returns ((0x06 ∷ []) ++ (a ++ b ++ data'))
