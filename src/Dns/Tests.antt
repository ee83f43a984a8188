-- ===== src/Dns/Tests.antt =====
-- Messages of dpkt/dns.py's own tests.
use dpkt_ng.Base.{ℕ, List, [], ◌∷◌, ◌≡◌, refl, list_eq}
use dpkt_ng.Base.Results.{attribute, Outcome, returns, raises, unpack_error, ◌>>=◌}
use dpkt_ng.Base.Bytes.{be_value, be_bytes}
use dpkt_ng.Packet.Header.{hdr_len, field_values, unpack, init_failure, init}
use dpkt_ng.Packet.Struct.{struct_unpack, struct_pack}
use dpkt_ng.Dns.Utf8.{is_utf8, utf8_from, utf8_lead}
use dpkt_ng.Dns.Names.{
  add_first, split_dots, join_dots, upper_byte, upper, pointer_to, label_key, remember, label_bytes,
  pointer_bytes, pack_labels, name_labels, pack_name, follow_pointer, read_label, walk_byte,
  walk_round, walk, start_walk, finish_walk, unpack_name,
}
use dpkt_ng.Dns.Records.{
  rr_type, characters, pack_text, pack_texts, pack_soa, pack_preference, pack_mx, pack_srv,
  pack_attribute, pack_rdata, unpack_texts, hex_digit, hex, unpack_soa, unpack_mx, unpack_srv,
  unpack_attribute, unpack_rdata,
}
use dpkt_ng.Dns.Message.{
  pack_q, unpack_q, pack_rr, unpack_rr, unpack_many, dns_unpack, dns_init, pack_many, dns_bytes,
}

abbrev a_resp : List ℕ
a_resp =
    5 ∷ 156 ∷ 129 ∷ 128 ∷ 0 ∷ 1 ∷ 0 ∷ 1 ∷ 0 ∷ 0 ∷ 0 ∷ 1 ∷ 6 ∷ 103 ∷ 111 ∷ 111 ∷ 103 ∷ 108 ∷ 101 ∷ 3
    ∷ 99 ∷ 111 ∷ 109 ∷ 0 ∷ 0 ∷ 1 ∷ 0 ∷ 1 ∷ 192 ∷ 12 ∷ 0 ∷ 1 ∷ 0 ∷ 1 ∷ 0 ∷ 0 ∷ 1 ∷ 43 ∷ 0 ∷ 4 ∷ 216
    ∷ 58 ∷ 206 ∷ 46 ∷ 0 ∷ 0 ∷ 41 ∷ 2 ∷ 0 ∷ 0 ∷ 0 ∷ 0 ∷ 0 ∷ 0 ∷ 0 ∷ []

abbrev soa_resp : List ℕ
soa_resp =
    133 ∷ 31 ∷ 129 ∷ 128 ∷ 0 ∷ 1 ∷ 0 ∷ 1 ∷ 0 ∷ 0 ∷ 0 ∷ 0 ∷ 6 ∷ 103 ∷ 111 ∷ 111 ∷ 103 ∷ 108 ∷ 101 ∷ 3
    ∷ 99 ∷ 111 ∷ 109 ∷ 0 ∷ 0 ∷ 6 ∷ 0 ∷ 1 ∷ 192 ∷ 12 ∷ 0 ∷ 6 ∷ 0 ∷ 1 ∷ 0 ∷ 0 ∷ 0 ∷ 35 ∷ 0 ∷ 38 ∷ 3
    ∷ 110 ∷ 115 ∷ 50 ∷ 192 ∷ 12 ∷ 9 ∷ 100 ∷ 110 ∷ 115 ∷ 45 ∷ 97 ∷ 100 ∷ 109 ∷ 105 ∷ 110 ∷ 192 ∷ 12
    ∷ 10 ∷ 116 ∷ 116 ∷ 71 ∷ 0 ∷ 0 ∷ 3 ∷ 132 ∷ 0 ∷ 0 ∷ 3 ∷ 132 ∷ 0 ∷ 0 ∷ 7 ∷ 8 ∷ 0 ∷ 0 ∷ 0 ∷ 60 ∷ []

abbrev mx_resp : List ℕ
mx_resp =
    5 ∷ 59 ∷ 129 ∷ 128 ∷ 0 ∷ 1 ∷ 0 ∷ 1 ∷ 0 ∷ 0 ∷ 0 ∷ 0 ∷ 6 ∷ 103 ∷ 111 ∷ 111 ∷ 103 ∷ 108 ∷ 101 ∷ 3
    ∷ 99 ∷ 111 ∷ 109 ∷ 0 ∷ 0 ∷ 15 ∷ 0 ∷ 1 ∷ 192 ∷ 12 ∷ 0 ∷ 15 ∷ 0 ∷ 1 ∷ 0 ∷ 0 ∷ 2 ∷ 87 ∷ 0 ∷ 17 ∷ 0
    ∷ 30 ∷ 4 ∷ 97 ∷ 108 ∷ 116 ∷ 50 ∷ 5 ∷ 97 ∷ 115 ∷ 112 ∷ 109 ∷ 120 ∷ 1 ∷ 108 ∷ 192 ∷ 12 ∷ []

abbrev invalid_rr : List ℕ
invalid_rr =
    0 ∷ 0 ∷ 1 ∷ 0 ∷ 0 ∷ 0 ∷ 0 ∷ 1 ∷ 0 ∷ 0 ∷ 0 ∷ 0 ∷ 4 ∷ 110 ∷ 97 ∷ 109 ∷ 101 ∷ 0 ∷ 0 ∷ 21 ∷ 0 ∷ 1
    ∷ 0 ∷ 0 ∷ 0 ∷ 0 ∷ 0 ∷ 0 ∷ []

-- DNS(buf), then bytes
abbrev read_and_write : List ℕ → Outcome (List ℕ)
read_and_write buf = dns_init buf >>= dns_bytes

-- Each is read, and written as it was.
messages_again :
    (read_and_write a_resp ≡ returns a_resp)
    × (read_and_write soa_resp ≡ returns soa_resp)
    × (read_and_write mx_resp ≡ returns mx_resp)
    × (dns_init invalid_rr ≡ raises unpack_error)
unfolding is_utf8 utf8_from utf8_lead add_first split_dots join_dots upper_byte upper pointer_to
    label_key remember label_bytes pointer_bytes pack_labels name_labels pack_name follow_pointer
    read_label walk_byte walk_round walk start_walk finish_walk unpack_name rr_type attribute
    characters pack_text pack_texts pack_soa pack_preference pack_mx pack_srv pack_attribute
    pack_rdata unpack_texts hex_digit hex unpack_soa unpack_mx unpack_srv unpack_attribute
    unpack_rdata pack_q unpack_q pack_rr unpack_rr unpack_many dns_unpack dns_init pack_many
    dns_bytes hdr_len field_values unpack init_failure init struct_unpack struct_pack be_value
    be_bytes list_eq
messages_again = (refl, refl, refl, refl)
