-- ===== src/Tcp/Header.antt =====
-- class TCP of dpkt/tcp.py: the header, the options behind it and the data.
pub mod RoundTrip
use dpkt_ng.Base.{ℕ, ◌+◌, ◌-◌, ◌*◌, ◌/◌, List, [], ◌∷◌, ◌++◌, ltb, if◌then◌else◌, drop, get_or}
use dpkt_ng.Base.Bytes.{slice}
use dpkt_ng.Base.Results.{Outcome, returns, raises, unpack_error, ◌>>=◌}
use dpkt_ng.Packet.Header.{Packet, hdr_len, unpack, init, pack_hdr}

-- sport, dport, seq, ack, _off_flags, win, sum, urp
abbrev pub tcp_sizes : List ℕ
tcp_sizes = 2 ∷ 2 ∷ 4 ∷ 4 ∷ 2 ∷ 2 ∷ 2 ∷ 2 ∷ []

pub record Tcp : Type 0 where
  pub fields : List ℕ
  pub opts : List ℕ
  pub data' : List ℕ

-- self._off_flags, the fifth field
unfoldable pub off_flags : List ℕ → ℕ
off_flags fields = get_or fields 4 0

-- `(x >> 12) << 2` is the header's length in bytes; below 20 the length of the options is negative.
unfoldable pub unpack_options : List ℕ → Packet → Outcome Tcp
unpack_options buf p =
    let header = off_flags p.fields / 4096 * 4 in
    if ltb header 20
    then raises unpack_error
    else returns record {
      fields = p.fields;
      opts = slice 20 (20 + (header - 20)) buf;
      data' = drop (20 + (header - 20)) buf;
    }

unfoldable pub unpack_tcp : List ℕ → Outcome Tcp
unpack_tcp buf = unpack tcp_sizes buf >>= unpack_options buf

-- TCP(buf)
unfoldable pub new_tcp : List ℕ → Outcome Tcp
new_tcp buf = init tcp_sizes buf (unpack_tcp buf)

-- TCP.__bytes__
unfoldable pub tcp_bytes : Tcp → Outcome (List ℕ)
tcp_bytes p = pack_hdr tcp_sizes p.fields >>= λ header. returns (header ++ p.opts ++ p.data')
