-- ===== src/Quic/Bounds.antt =====
-- decode_varint of dpkt/quic.py stays within its buffer.
use dpkt_ng.Base.{ℕ, ◌+◌, ◌-◌, ◌^◌, ◌≤◌, ◌<◌, List, length, get_or, ◌≡◌, arith}
use dpkt_ng.Base.Bits.{and_mask}
use dpkt_ng.Base.Bytes.{slice, be_value, mod_lt}
use dpkt_ng.Base.Results.{returns}
use dpkt_ng.Quic.Varint.{decode_word, decode_tagged, decode_varint}

-- The decoder takes at least one byte and only bytes that are there, and every value below 2 ** 62.
word-bounds :
    (n k : ℕ) (buf : List ℕ) (offset : ℕ) {v m : ℕ}
    → 2 ^ k ≤ 2 ^ 62
    → 0 < 2 ^ k
    → decode_word n (2 ^ k - 1) buf offset ≡ returns (v, m)
    → (m ≡ n) × (offset + m ≤ length buf) × (v < 2 ^ 62)
unfolding decode_word
word-bounds n k buf offset l p h = ground (
  arith,
  and_mask k (be_value (slice offset (offset + n) buf)),
  mod_lt (be_value (slice offset (offset + n) buf)) (2 ^ k) p,
)

pub decode_varint_bounds :
    (buf : List ℕ) (offset : ℕ) {v n : ℕ}
    → decode_varint buf offset ≡ returns (v, n)
    → (0 < n) × (offset + n ≤ length buf) × (v < 2 ^ 62)
unfolding decode_varint decode_tagged
decode_varint_bounds buf offset {v = v} {n = n} h = ground (
  arith,
  and_mask 6 (get_or buf offset 0),
  word-bounds 2 14 buf offset {v = v} {m = n} (omega arith) (omega arith),
  word-bounds 4 30 buf offset {v = v} {m = n} (omega arith) (omega arith),
  word-bounds 8 62 buf offset {v = v} {m = n} (omega arith) (omega arith),
)
