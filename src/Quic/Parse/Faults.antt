-- ===== src/Quic/Parse/Faults.antt =====
-- Where parse_frames of dpkt/quic.py loses its place: frames that it takes for one byte, and STREAM
-- frames with the explicit length zero.
use dpkt_ng.Base.{ℕ, ◌+◌, ◌≤◌, List, [], ◌∷◌, ◌≡◌, arith}
use dpkt_ng.Base.Results.{returns, ◌>>=◌, bind_inversion}
use dpkt_ng.Quic.Varint.{decode_varint}
use dpkt_ng.Quic.Frames.{
  QuicFrame, byte_at, unpack_frame, unpack_max_data, unpack_max_stream_data,
  unpack_connection_close, unpack_plain, frame_byte_size, close_frame_type,
}
use dpkt_ng.Quic.Parse.{parse_frames}
use dpkt_ng.Quic.Parse.Sequence.{parse_frames-append}
use dpkt_ng.Quic.Parse.Crypto.{round_of_frame}

module _ (buf : List ℕ) {f : QuicFrame} where
  one_max_data : unpack_max_data buf ≡ returns f → frame_byte_size f ≡ returns 1
  unfolding unpack_max_data frame_byte_size
  one_max_data h =
      let (t, r, h1) = bind_inversion (byte_at buf 0) _ h in
      let (p, q, h2) = bind_inversion (decode_varint buf 1) _ h1 in ground arith

  one_max_stream_data : unpack_max_stream_data buf ≡ returns f → frame_byte_size f ≡ returns 1
  unfolding unpack_max_stream_data frame_byte_size
  one_max_stream_data h =
      let (t, r, h1) = bind_inversion (byte_at buf 0) _ h in
      let (p, q, h2) = bind_inversion (decode_varint buf 1) _ h1 in
      let (p', q', h3) = bind_inversion (decode_varint buf (1 + p.1)) _ h2 in ground arith

  one_connection_close : unpack_connection_close buf ≡ returns f → frame_byte_size f ≡ returns 1
  unfolding unpack_connection_close frame_byte_size
  one_connection_close h =
      let (t, r, h1) = bind_inversion (byte_at buf 0) _ h in
      let (p, q, h2) = bind_inversion (decode_varint buf 1) _ h1 in
      let (c, q', h3) = bind_inversion (close_frame_type t buf (1 + p.1)) _ h2 in
      let (l, q'', h4) = bind_inversion (decode_varint buf c.1) _ h3 in ground arith

  one_plain : unpack_plain buf ≡ returns f → frame_byte_size f ≡ returns 1
  unfolding unpack_plain frame_byte_size
  one_plain h = let (t, r, h1) = bind_inversion (byte_at buf 0) _ h in ground arith

one_byte :
    (b : ℕ) (buf : List ℕ) {f : QuicFrame}
    → 16 ≤ b
    → unpack_frame b buf ≡ returns f
    → frame_byte_size f ≡ returns 1
unfolding unpack_frame
one_byte b buf {f = f} l h = ground (
  arith,
  one_max_data buf {f = f},
  one_max_stream_data buf {f = f},
  one_connection_close buf {f = f},
  one_plain buf {f = f},
)

-- After a frame of a type from 16 on, MAX_DATA, MAX_STREAM_DATA and CONNECTION_CLOSE among them, that
-- its class can read, parse_frames goes on at the very next byte: the frame's own fields are parsed as
-- frames again.
pub parse_frames_inside_frame :
    (b : ℕ) (buf : List ℕ) (f : QuicFrame)
    → 16 ≤ b
    → unpack_frame b (b ∷ buf) ≡ returns f
    → parse_frames (b ∷ buf) ≡ (parse_frames buf >>= λ rest. returns (f ∷ rest))
parse_frames_inside_frame b buf f l h =
    parse_frames-append (b ∷ []) buf (f ∷ []) (omega arith)
      (round_of_frame b buf f 1 (ground arith) h (one_byte b (b ∷ buf) l h))
