-- ===== src/Ip6/Tests.antt =====
-- Runs of dpkt/ip6.py, and the theorem at concrete bytes.
use dpkt_ng.Base.{ℕ, ◌≡◌, refl, some, List, [], ◌∷◌, ◌++◌, replicate, arith}
use dpkt_ng.Base.Bytes.{be_value}
use dpkt_ng.Base.Results.{raises, attribute_error}
use dpkt_ng.Packet.Header.{unpack, init, init_failure, hdr_len, field_values}
use dpkt_ng.Ip.Transports.{transports}
use dpkt_ng.Packet.Faults.{OnlyNeedData}
use dpkt_ng.Ip6.{
  ext_length, ext_nxt, frag_off, read_ip6_options, options_fields, options_init, fragment_init,
  ext_parser, next_parser, read_chain, last_frag_off, parse_payload, ip6_fields, ip6_unpack,
  ip6_init,
}
use dpkt_ng.Ip6.Chain.{read_chain-OnlyNeedData}

-- A header of destination options with one option of two bytes and PADN, which UDP follows
abbrev options_bytes : List ℕ
options_bytes = 17 ∷ 0 ∷ 5 ∷ 2 ∷ 7 ∷ 8 ∷ 1 ∷ 0 ∷ []

-- A fragment header, which those options follow
abbrev fragment_bytes : List ℕ
fragment_bytes = (60 ∷ 0 ∷ 0 ∷ 1 ∷ 0 ∷ 0 ∷ 0 ∷ 9 ∷ []) ++ options_bytes

-- The first fragment of a packet with destination options behind the fragment header: the last extension
-- header has no frag_off.
fragment_then_options :
    ip6_init transports
      ((0x60 ∷ 0 ∷ 0 ∷ 0 ∷ 0 ∷ 16 ∷ 44 ∷ 64 ∷ []) ++ (replicate 32 1 ++ fragment_bytes))
    ≡ raises attribute_error
unfolding ip6_init ip6_unpack ip6_fields parse_payload last_frag_off frag_off read_chain next_parser
    ext_parser fragment_init options_init options_fields read_ip6_options ext_length ext_nxt unpack
    init init_failure hdr_len field_values be_value
fragment_then_options = refl

read_chain-OnlyNeedData_example : OnlyNeedData (read_chain 17 (some 44) fragment_bytes)
read_chain-OnlyNeedData_example = read_chain-OnlyNeedData 17 (some 44) fragment_bytes (omega arith)
