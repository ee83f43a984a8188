-- ===== src/Sctp/Tests.antt =====
-- Runs of dpkt/crc32c.py and dpkt/sctp.py, and the theorems at concrete packets.
use dpkt_ng.Base.{ℕ, List, [], ◌∷◌, ◌≡◌, refl, arith}
use dpkt_ng.Base.Results.{returns}
use dpkt_ng.Crc32c.{crc32c_table, add_byte, add, done, cksum}
use dpkt_ng.Crc32c.Bitwise.{divide, add-divide}
use dpkt_ng.Sctp.{Chunk, Sctp, sctp_bytes, sctp_init}
use dpkt_ng.Packet.Faults.{OnlyNeedData}
use dpkt_ng.Sctp.Faults.{sctp_init-OnlyNeedData}
use dpkt_ng.Sctp.RoundTrip.{IsSctp, new_sum, sctp_bytes-sctp_init}

-- test_crc32c
check_value : cksum (49 ∷ 50 ∷ 51 ∷ 52 ∷ 53 ∷ 54 ∷ 55 ∷ 56 ∷ 57 ∷ []) ≡ 0x839206e3
unfolding cksum done add add_byte crc32c_table
check_value = refl

add-divide_example : add 0xffffffff (49 ∷ 200 ∷ []) ≡ divide 0xffffffff (49 ∷ 200 ∷ [])
add-divide_example = add-divide 0xffffffff (49 ∷ 200 ∷ []) (omega arith, (omega arith, tt))

-- DATA with five bytes and three of padding, then a COOKIE_ACK
abbrev data_chunk : Chunk
data_chunk = record {
  type' = 0;
  flags = 3;
  len = 9;
  data' = 1 ∷ 2 ∷ 3 ∷ 4 ∷ 5 ∷ [];
  padding = 0 ∷ 0 ∷ 0 ∷ [];
}

abbrev cookie_ack : Chunk
cookie_ack = record { type' = 11; flags = 0; len = 4; data' = []; padding = [] }

abbrev packet : Sctp
packet = record {
  sport = 32836;
  dport = 80;
  vtag = 1;
  sum = 0;
  chunks = data_chunk ∷ cookie_ack ∷ [];
}

packet-IsSctp : IsSctp packet
packet-IsSctp = record {
  sport_fits = omega arith;
  dport_fits = omega arith;
  vtag_fits = omega arith;
  sum_fits = omega arith;
  chunks_whole = (
    record {
      type_fits = omega arith;
      flags_fit = omega arith;
      len_fits = omega arith;
      whole = refl;
      padded = refl;
    },
    (
      record {
        type_fits = omega arith;
        flags_fit = omega arith;
        len_fits = omega arith;
        whole = refl;
        padded = refl;
      },
      tt,
    ),
  );
}

sctp_bytes-sctp_init_example :
    (buf : List ℕ) × (s' : Sctp) × (sctp_bytes packet ≡ returns (buf, s'))
    × (sctp_init buf ≡ returns s')
    × (s' ≡ record packet { sum = new_sum packet })
sctp_bytes-sctp_init_example = sctp_bytes-sctp_init packet packet-IsSctp

-- A chunk whose length is 0
sctp_init-OnlyNeedData_example :
    OnlyNeedData (sctp_init (0 ∷ 1 ∷ 0 ∷ 2 ∷ 0 ∷ 0 ∷ 0 ∷ 3 ∷ 0 ∷ 0 ∷ 0 ∷ 4 ∷ 5 ∷ 0 ∷ 0 ∷ 0 ∷ []))
sctp_init-OnlyNeedData_example =
    sctp_init-OnlyNeedData (0 ∷ 1 ∷ 0 ∷ 2 ∷ 0 ∷ 0 ∷ 0 ∷ 3 ∷ 0 ∷ 0 ∷ 0 ∷ 4 ∷ 5 ∷ 0 ∷ 0 ∷ 0 ∷ [])
