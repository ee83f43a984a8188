-- ===== src/Ip/Transports.antt =====
-- class UDP of dpkt/udp.py, and UDP and TCP as what IP of dpkt/ip.py carries.
use dpkt_ng.Base.{
  ℕ, ◌+◌, ◌==◌, Option, none, some, List, [], ◌∷◌, ◌++◌, if◌then◌else◌, length, set, get_or,
}
use dpkt_ng.Base.Results.{Outcome, returns, ◌>>=◌}
use dpkt_ng.Packet.Header.{Packet, unpack, init, pack_hdr}
use dpkt_ng.Tcp.Header.{Tcp, new_tcp, tcp_bytes}
use dpkt_ng.Ip.{Transport}

-- sport, dport, ulen, sum
abbrev pub udp_sizes : List ℕ
udp_sizes = 2 ∷ 2 ∷ 2 ∷ 2 ∷ []

-- UDP(buf)
unfoldable pub udp_init : List ℕ → Outcome Packet
udp_init buf = init udp_sizes buf (unpack udp_sizes buf)

-- Packet.__bytes__ of a packet with bytes as its data
unfoldable pub udp_bytes : Packet → Outcome (List ℕ)
udp_bytes u = pack_hdr udp_sizes u.fields >>= λ front. returns (front ++ u.data')

pub data Segment : Type 0 where
  tcp : Tcp → Segment
  udp : Packet → Segment

unfoldable pub parser : ℕ → Option (List ℕ → Outcome Segment)
parser p =
    if p == 6
    then some (λ buf. new_tcp buf >>= λ x. returns (tcp x))
    else if p == 17
    then some (λ buf. udp_init buf >>= λ x. returns (udp x))
    else none

unfoldable pub segment_bytes : Segment → Outcome (List ℕ)
segment_bytes (tcp x) = tcp_bytes x
segment_bytes (udp x) = udp_bytes x

-- len(tcp) and len(udp)
unfoldable pub segment_size : Segment → ℕ
segment_size (tcp x) = 20 + length x.opts + length x.data'
segment_size (udp x) = 8 + length x.data'

-- sum is the seventh field of TCP and the fourth of UDP.
unfoldable pub segment_sum : Segment → ℕ
segment_sum (tcp x) = get_or x.fields 6 0
segment_sum (udp x) = get_or x.fields 3 0

unfoldable pub set_segment_sum : ℕ → Segment → Segment
set_segment_sum v (tcp x) = tcp (record x { fields = set x.fields 6 v })
set_segment_sum v (udp x) = udp (record x { fields = set x.fields 3 v })

unfoldable pub transports : Transport Segment
transports = record {
  protosw = parser;
  bytes = segment_bytes;
  size = segment_size;
  sum = segment_sum;
  set_sum = set_segment_sum;
}
