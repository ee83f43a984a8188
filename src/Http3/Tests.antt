-- ===== src/Http3/Tests.antt =====
-- Runs of dpkt/http3.py on concrete bytes, and the theorems at them.
use dpkt_ng.Base.{ℕ, ◌≤◌, List, [], ◌∷◌, ◌≡◌, refl, arith}
use dpkt_ng.Base.Bytes.{be_value}
use dpkt_ng.Base.Results.{returns, raises, need_data, ◌>>=◌}
use dpkt_ng.Base.Loops.{read_loop}
use dpkt_ng.Quic.Varint.{decode_word, decode_tagged, decode_varint, encode_varint}
use dpkt_ng.Http3.Frames.{
  data_frame, headers_frame, settings_frame, frame_header, unpack_data, unpack_headers,
  read_setting, more_settings, read_settings, unpack_settings, unpack_frame, read_frame,
  more_frames, parse_http3_frames,
}
use dpkt_ng.Http3.Parsing.{parse_http3_frames-frame, all_data_bytes, parse_http3_frames-data_bytes}
use dpkt_ng.Http3.Settings.{settings_body, unpack_settings-settings_body}

-- test_http3_settings
two_settings :
    unpack_settings (4 ∷ 5 ∷ 1 ∷ 0x40 ∷ 0x40 ∷ 8 ∷ 0 ∷ [])
    ≡ returns (settings_frame 4 5 ((1, 64) ∷ (8, 0) ∷ []))
unfolding unpack_settings frame_header read_settings read_loop more_settings read_setting
    decode_varint decode_tagged decode_word be_value
two_settings = refl

-- A DATA frame and a HEADERS frame that is cut off
cut_off :
    parse_http3_frames (0 ∷ 1 ∷ 7 ∷ 1 ∷ 9 ∷ 8 ∷ [])
    ≡ returns (data_frame 0 1 (7 ∷ []) ∷ headers_frame 1 9 (8 ∷ []) ∷ [])
unfolding parse_http3_frames read_loop more_frames read_frame frame_header unpack_frame unpack_data
    unpack_headers decode_varint decode_tagged
cut_off = refl

no_length : parse_http3_frames (0 ∷ []) ≡ raises need_data
unfolding parse_http3_frames read_loop more_frames read_frame frame_header decode_varint
    decode_tagged
no_length = refl

one_byte : (n : ℕ) → n ≤ 63 → encode_varint n ≡ returns (n ∷ [])
unfolding encode_varint
one_byte n h = ground arith

parse_http3_frames-frame_example : parse_http3_frames (1 ∷ 2 ∷ 8 ∷ 9 ∷ 0 ∷ 0 ∷ []) ≡ (
    unpack_frame 1 (1 ∷ 2 ∷ 8 ∷ 9 ∷ []) >>= λ f.
    parse_http3_frames (0 ∷ 0 ∷ []) >>= λ fs. returns (f ∷ fs))
parse_http3_frames-frame_example =
    parse_http3_frames-frame 1 (1 ∷ []) (2 ∷ []) (8 ∷ 9 ∷ []) (0 ∷ 0 ∷ []) (omega arith)
      (omega arith) (one_byte 1 (omega arith)) (one_byte 2 (omega arith))

parse_http3_frames-data_bytes_example :
    (bytes : List ℕ) × (all_data_bytes ((7 ∷ 8 ∷ []) ∷ [] ∷ []) ≡ returns bytes)
    × (parse_http3_frames bytes ≡ returns (data_frame 0 2 (7 ∷ 8 ∷ []) ∷ data_frame 0 0 [] ∷ []))
parse_http3_frames-data_bytes_example =
    parse_http3_frames-data_bytes ((7 ∷ 8 ∷ []) ∷ [] ∷ []) (omega arith, (omega arith, tt))

body_written : settings_body ((1, 2) ∷ (8, 0) ∷ []) ≡ returns (1 ∷ 2 ∷ 8 ∷ 0 ∷ [])
unfolding settings_body encode_varint
body_written = refl

unpack_settings-settings_body_example :
    unpack_settings (4 ∷ 4 ∷ 1 ∷ 2 ∷ 8 ∷ 0 ∷ [])
    ≡ returns (settings_frame 4 4 ((1, 2) ∷ (8, 0) ∷ []))
unpack_settings-settings_body_example =
    unpack_settings-settings_body ((1, 2) ∷ (8, 0) ∷ []) (1 ∷ 2 ∷ 8 ∷ 0 ∷ []) (4 ∷ [])
      ((omega arith, omega arith), ((omega arith, omega arith), tt)) body_written (omega arith)
      (one_byte 4 (omega arith))
