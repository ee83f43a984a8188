-- ===== src/Quic/Tests.antt =====
-- Runs of dpkt/quic.py on concrete bytes, and the theorems at them.
use dpkt_ng.Base.{ℕ, ◌+◌, ◌^◌, List, [], ◌∷◌, ◌++◌, length, some, ◌≡◌, refl, arith}
use dpkt_ng.Base.Bytes.{be_value, be_bytes}
use dpkt_ng.Base.Results.{returns, raises, struct_error, ◌>>=◌}
use dpkt_ng.Base.Loops.{read_loop}
use dpkt_ng.Quic.Varint.{decode_word, decode_tagged, decode_varint, pack, encode_varint}
use dpkt_ng.Quic.RoundTrip.{decode_varint-encode_varint}
use dpkt_ng.Quic.Frames.{
  crypto_frame, ack_frame, max_data_frame, plain, byte_at, optional_field, stream_data,
  unpack_stream, read_blocks, unpack_ack, unpack_max_data, unpack_plain, unpack_frame,
  connection_close_frame, close_frame_type, unpack_connection_close, frame_byte_size, crypto_bytes,
}
use dpkt_ng.Quic.Parse.{advance, attempt, read_round, more_bytes, join, parse_frames}
use dpkt_ng.Quic.Parse.Crypto.{parse_frames-crypto_bytes}
use dpkt_ng.Quic.Parse.Faults.{parse_frames_inside_frame}

four_bytes : encode_varint 100000 ≡ returns (0x80 ∷ 0x01 ∷ 0x86 ∷ 0xa0 ∷ [])
unfolding encode_varint pack be_bytes
four_bytes = refl

read_four : decode_varint (0x80 ∷ 0x01 ∷ 0x86 ∷ 0xa0 ∷ []) 0 ≡ returns (100000, 4)
unfolding decode_varint decode_tagged decode_word be_value
read_four = refl

too_large : encode_varint (2 ^ 64) ≡ raises struct_error
unfolding encode_varint pack
too_large = refl

-- The value that does not fit loses its two high bits.
decode_varint-encode_varint_example :
    (e : List ℕ) × (encode_varint (2 ^ 62 + 5) ≡ returns e)
    × (decode_varint ((7 ∷ []) ++ (e ++ (9 ∷ []))) 1 ≡ returns (5, length e))
decode_varint-encode_varint_example =
    decode_varint-encode_varint (2 ^ 62 + 5) (7 ∷ []) (9 ∷ []) (omega arith)

-- test_quic_ack_frame and test_quic_connection_close
ack : unpack_frame 2 (2 ∷ 10 ∷ 0 ∷ 0 ∷ 5 ∷ []) ≡ returns (ack_frame 2 10 0 0 5 [])
unfolding unpack_frame unpack_ack byte_at decode_varint decode_tagged read_blocks
ack = refl

close :
    unpack_frame 0x1c (0x1c ∷ 1 ∷ 8 ∷ 3 ∷ 101 ∷ 114 ∷ 114 ∷ [])
    ≡ returns (connection_close_frame 0x1c 1 (some 8) (101 ∷ 114 ∷ 114 ∷ []))
unfolding unpack_frame unpack_connection_close close_frame_type byte_at decode_varint decode_tagged
close = refl

-- Padding, a PING, and a STREAM frame that is cut off
three_rounds : parse_frames (0 ∷ 1 ∷ 0x0a ∷ []) ≡ returns (plain 1 ∷ [])
unfolding parse_frames read_loop more_bytes read_round attempt advance join byte_at unpack_frame
    unpack_plain unpack_stream optional_field stream_data decode_varint decode_tagged
    frame_byte_size
three_rounds = refl

parse_frames-crypto_bytes_example :
    (bytes : List ℕ) × (crypto_bytes 70 2 (8 ∷ 9 ∷ []) ≡ returns bytes)
    × (parse_frames (bytes ++ (1 ∷ []))
        ≡ (parse_frames (1 ∷ []) >>= λ fs. returns (crypto_frame 0x06 70 2 (8 ∷ 9 ∷ []) ∷ fs)))
parse_frames-crypto_bytes_example =
    parse_frames-crypto_bytes 70 (8 ∷ 9 ∷ []) (1 ∷ []) (omega arith) (omega arith)

limit_read : unpack_frame 0x10 (0x10 ∷ 1 ∷ []) ≡ returns (max_data_frame 0x10 1)
unfolding unpack_frame unpack_max_data byte_at decode_varint decode_tagged
limit_read = refl

-- The limit 1 of MAX_DATA is parsed again, as a PING.
parse_frames_inside_frame_example :
    parse_frames (0x10 ∷ 1 ∷ [])
    ≡ (parse_frames (1 ∷ []) >>= λ rest. returns (max_data_frame 0x10 1 ∷ rest))
parse_frames_inside_frame_example =
    parse_frames_inside_frame 0x10 (1 ∷ []) (max_data_frame 0x10 1) (omega arith) limit_read
