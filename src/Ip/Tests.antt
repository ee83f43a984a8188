-- ===== src/Ip/Tests.antt =====
-- Runs of dpkt/ip.py and dpkt/udp.py, and the theorem at a UDP packet whose checksums are set.
use dpkt_ng.Base.{ℕ, List, [], ◌∷◌, ◌++◌, ◌≡◌, refl, take, arith}
use dpkt_ng.Base.Bytes.{be_bytes, be_value}
use dpkt_ng.Base.Results.{returns, raises, unpack_error}
use dpkt_ng.Packet.Checksum.{ntole, sum_words, in_cksum_add, in_cksum_done, in_cksum}
use dpkt_ng.Packet.Header.{Packet, hdr_len, field_values, unpack, init, init_failure, pack_hdr}
use dpkt_ng.Packet.Struct.{struct_pack}
use dpkt_ng.Ip.{
  carried, Ip, four_bytes, offset, is_fragment, data_size, data_bytes, ip_len, or_raw, parse_data,
  header_size, ip_fields, ip_unpack, ip_init, pseudo_header, udp_zero, sum_data, ip_bytes,
}
use dpkt_ng.Ip.Transports.{
  Segment, udp, udp_init, udp_bytes, parser, segment_bytes, segment_size, segment_sum,
  set_segment_sum, transports,
}
use dpkt_ng.Ip.Checksum.{IsUnsummed, ip_bytes-ip_init}

-- A datagram of one byte, with the checksum and without
abbrev datagram : ℕ → Packet
datagram sum = record { fields = 111 ∷ 53 ∷ 9 ∷ sum ∷ []; data' = 7 ∷ [] }

abbrev unsummed : Ip Segment
unsummed = record {
  v_hl = 0x45;
  tos = 0;
  len = 0;
  id = 1;
  flags_offset = 0;
  ttl = 64;
  p = 17;
  sum = 0;
  src = 10 ∷ 0 ∷ 0 ∷ 1 ∷ [];
  dst = 10 ∷ 0 ∷ 0 ∷ 2 ∷ [];
  opts = [];
  data' = carried (udp (datagram 0));
}

abbrev datagram_bytes : List ℕ
datagram_bytes = 0 ∷ 111 ∷ 0 ∷ 53 ∷ 0 ∷ 9 ∷ 228 ∷ 53 ∷ 7 ∷ []

unsummed-IsUnsummed :
    IsUnsummed transports unsummed (carried (udp (datagram 0xe435))) datagram_bytes
unfolding ip_len data_size data_bytes sum_data parse_data or_raw offset is_fragment header_size
    pseudo_header udp_zero four_bytes transports parser udp_init udp_bytes segment_bytes
    segment_size segment_sum set_segment_sum struct_pack pack_hdr be_bytes be_value hdr_len
    field_values unpack init in_cksum_add in_cksum_done ntole sum_words
unsummed-IsUnsummed = record {
  no_sum = refl;
  data_summed = refl;
  packet = record {
    v_hl_fits = omega arith;
    tos_fits = omega arith;
    len_fits = omega arith;
    id_fits = omega arith;
    flags_fit = omega arith;
    ttl_fits = omega arith;
    p_fits = omega arith;
    sum_fits = omega arith;
    four_src = refl;
    four_dst = refl;
    hl = refl;
    whole = refl;
    written = refl;
    parsed = refl;
  };
  bytes = ground arith;
  few_options = omega arith;
}

ip_bytes-ip_init_example :
    (buf : List ℕ) × (ip' : Ip Segment) × (ip_bytes transports unsummed ≡ returns (buf, ip'))
    × (ip_init transports (buf ++ (9 ∷ 9 ∷ [])) ≡ returns ip')
    × (ip' ≡ record unsummed {
      len = ip_len transports unsummed;
      sum = ip'.sum;
      data' = carried (udp (datagram 0xe435));
    })
    × (in_cksum (take (header_size 0x45) buf) ≡ 0)
ip_bytes-ip_init_example =
    ip_bytes-ip_init transports unsummed (carried (udp (datagram 0xe435))) datagram_bytes
      unsummed-IsUnsummed (9 ∷ 9 ∷ [])

-- A header length of 16 bytes
short_header :
    ip_init transports
      (0x44 ∷ 0 ∷ 0 ∷ 20 ∷ 0 ∷ 0 ∷ 0 ∷ 0 ∷ 0 ∷ 0 ∷ 0 ∷ 0 ∷ 0 ∷ 0 ∷ 0 ∷ 0 ∷ 0 ∷ 0 ∷ 0 ∷ 0 ∷ [])
    ≡ raises unpack_error
unfolding ip_init ip_unpack ip_fields header_size init init_failure unpack hdr_len field_values
    be_value
short_header = refl
