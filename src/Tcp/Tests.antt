-- ===== src/Tcp/Tests.antt =====
-- Runs of dpkt/tcp.py on concrete bytes, and the theorems at them.
use dpkt_ng.Base.{ℕ, ◌<◌, none, some, List, [], ◌∷◌, All, ◌≡◌, refl, arith}
use dpkt_ng.Base.Bytes.{be_value}
use dpkt_ng.Base.Results.{returns}
use dpkt_ng.Packet.Header.{hdr_len, field_values, unpack, init}
use dpkt_ng.Tcp.Options.{sized_option, read_option, parse_opts_from, parse_opts}
use dpkt_ng.Tcp.Options.Written.{options_bytes, parse_opts-options_bytes}
use dpkt_ng.Tcp.Header.{Tcp, off_flags, unpack_options, unpack_tcp, new_tcp, tcp_bytes}
use dpkt_ng.Tcp.Header.RoundTrip.{tcp_bytes-new_tcp}

-- test_parse_opts
normal :
    parse_opts (2 ∷ 4 ∷ 0x23 ∷ 0 ∷ 1 ∷ 1 ∷ 4 ∷ 2 ∷ [])
    ≡ returns (some (2, 0x23 ∷ 0 ∷ []) ∷ some (1, []) ∷ some (1, []) ∷ some (4, []) ∷ [])
unfolding parse_opts parse_opts_from read_option sized_option
normal = refl

cut_off : parse_opts (0x0b ∷ []) ≡ returns (none ∷ [])
unfolding parse_opts parse_opts_from read_option sized_option
cut_off = refl

parse_opts-options_bytes_example :
    parse_opts (options_bytes ((2, 5 ∷ 180 ∷ []) ∷ (1, []) ∷ []))
    ≡ returns (some (2, 5 ∷ 180 ∷ []) ∷ some (1, []) ∷ [])
parse_opts-options_bytes_example =
    parse_opts-options_bytes ((2, 5 ∷ 180 ∷ []) ∷ (1, []) ∷ [])
      ((λ h. absurd (omega arith)), ((λ h. refl), tt))

-- A header of 24 bytes with one option and one byte of data
abbrev packet : List ℕ
packet =
    0 ∷ 80 ∷ 1 ∷ 0 ∷ 0 ∷ 0 ∷ 0 ∷ 1 ∷ 0 ∷ 0 ∷ 0 ∷ 2 ∷ 0x60 ∷ 0x18 ∷ 1 ∷ 0 ∷ 0 ∷ 0 ∷ 0 ∷ 0 ∷ 2 ∷ 4 ∷ 5
    ∷ 180 ∷ 7 ∷ []

abbrev parsed_packet : Tcp
parsed_packet = record {
  fields = 80 ∷ 256 ∷ 1 ∷ 2 ∷ 0x6018 ∷ 256 ∷ 0 ∷ 0 ∷ [];
  opts = 2 ∷ 4 ∷ 5 ∷ 180 ∷ [];
  data' = 7 ∷ [];
}

parses : new_tcp packet ≡ returns parsed_packet
unfolding new_tcp init unpack_tcp unpack unpack_options off_flags field_values hdr_len be_value
parses = refl

bytes : All (λ b. b < 256) packet
bytes = ground arith

tcp_bytes-new_tcp_example : tcp_bytes parsed_packet ≡ returns packet
tcp_bytes-new_tcp_example = tcp_bytes-new_tcp packet parsed_packet bytes parses
