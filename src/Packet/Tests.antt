-- ===== src/Packet/Tests.antt =====
-- Runs of dpkt/dpkt.py on concrete bytes, and the theorems at them.
use dpkt_ng.Base.{ℕ, ◌-◌, List, [], ◌∷◌, ◌≡◌, refl, arith}
use dpkt_ng.Base.Bytes.{be_bytes}
use dpkt_ng.Base.Results.{returns, raises, pack_error}
use dpkt_ng.Packet.Checksum.{ntole, sum_words, in_cksum_add, in_cksum_done, in_cksum}
use dpkt_ng.Packet.Checksum.Rfc.{ones_sum, add_carry, in_cksum-ones_sum}
use dpkt_ng.Packet.Header.{pack_hdr}

-- test_utils
abbrev fifteen : List ℕ
fifteen = 0 ∷ 1 ∷ 2 ∷ 3 ∷ 4 ∷ 5 ∷ 6 ∷ 7 ∷ 8 ∷ 9 ∷ 10 ∷ 11 ∷ 12 ∷ 13 ∷ 14 ∷ []

fifteen_added : in_cksum_add 0 fifteen ≡ 12600
unfolding in_cksum_add sum_words
fifteen_added = refl

fifteen_sum : in_cksum fifteen ≡ 51150
unfolding in_cksum in_cksum_add sum_words in_cksum_done ntole
fifteen_sum = refl

in_cksum-ones_sum_example : in_cksum (0x45 ∷ 0 ∷ 7 ∷ []) ≡ 65535 - ones_sum (0x45 ∷ 0 ∷ 7 ∷ [])
in_cksum-ones_sum_example =
    in_cksum-ones_sum (0x45 ∷ 0 ∷ 7 ∷ []) (omega arith, (omega arith, (omega arith, tt)))
      (omega arith)

three_words : ones_sum (0xff ∷ 0xff ∷ 0 ∷ 2 ∷ []) ≡ 2
unfolding ones_sum add_carry
three_words = refl

udp_ports : pack_hdr (2 ∷ 2 ∷ []) (111 ∷ 65535 ∷ []) ≡ returns (0 ∷ 111 ∷ 255 ∷ 255 ∷ [])
unfolding pack_hdr be_bytes
udp_ports = refl

too_large : pack_hdr (1 ∷ []) (256 ∷ []) ≡ raises pack_error
unfolding pack_hdr
too_large = refl
