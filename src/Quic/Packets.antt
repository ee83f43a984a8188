-- ===== src/Quic/Packets.antt =====
-- Runs of the packet headers of dpkt/quic.py on the packets of its tests.
use dpkt_ng.Base.{[], ◌∷◌, ◌≡◌, refl}
use dpkt_ng.Base.Bytes.{be_value}
use dpkt_ng.Base.Loops.{read_loop}
use dpkt_ng.Base.Results.{returns, raises, struct_error}
use dpkt_ng.Quic.Varint.{decode_tagged, decode_varint}
use dpkt_ng.Quic.Frames.{plain, byte_at, unpack_plain, unpack_frame, frame_byte_size}
use dpkt_ng.Quic.Parse.{advance, attempt, read_round, more_bytes, join, parse_frames}
use dpkt_ng.Quic.Header.{
  retry_packet, long_packet, long_header, word_at, payload_frames, initial_token, unpack_numbered,
  unpack_long, new_quic,
}

-- test_quic_long_initial, with shorter connection ids
initial :
    new_quic 0xc0 (0xff ∷ 0 ∷ 0 ∷ 0x1d ∷ 1 ∷ 5 ∷ 0 ∷ 0 ∷ 2 ∷ 0 ∷ 1 ∷ []) 0
    ≡ returns (
        long_header (long_packet 0xc0 0xff00001d (5 ∷ []) [] [] 2 (0 ∷ []) (1 ∷ []) (plain 1 ∷ [])))
unfolding new_quic unpack_long byte_at word_at be_value unpack_numbered initial_token decode_varint
    decode_tagged payload_frames parse_frames read_loop more_bytes read_round attempt advance join
    unpack_frame unpack_plain frame_byte_size
initial = refl

-- test_quic_retry_packet
retry :
    unpack_long (
      0xf0 ∷ 0xff ∷ 0 ∷ 0 ∷ 0x1d ∷ 0 ∷ 0 ∷ 7 ∷ 8 ∷ 1 ∷ 2 ∷ 3 ∷ 4 ∷ 5 ∷ 6 ∷ 7 ∷ 8 ∷ 9 ∷ 10 ∷ 11 ∷ 12
      ∷ 13 ∷ 14 ∷ 15 ∷ 16 ∷ [])
    ≡ returns (
        retry_packet 0xf0 0xff00001d [] []
          (7 ∷ 8 ∷ [])
          (1 ∷ 2 ∷ 3 ∷ 4 ∷ 5 ∷ 6 ∷ 7 ∷ 8 ∷ 9 ∷ 10 ∷ 11 ∷ 12 ∷ 13 ∷ 14 ∷ 15 ∷ 16 ∷ []))
unfolding unpack_long byte_at word_at be_value
retry = refl

no_version : unpack_long (0xc0 ∷ 1 ∷ []) ≡ raises struct_error
unfolding unpack_long byte_at word_at
no_version = refl
