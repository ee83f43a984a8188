-- ===== src/Quic/Varint.antt =====
-- decode_varint and encode_varint of dpkt/quic.py. A byte string is a list of numbers below 256.
use Prim.Native.Nat.{bit_and, bit_or}
use dpkt_ng.Base.{ℕ, ◌+◌, ◌/◌, ◌^◌, List, [], ◌∷◌, leb, ltb, ◌==◌, if◌then◌else◌, length, get_or}
use dpkt_ng.Base.Bytes.{slice, be_value, be_bytes}
use dpkt_ng.Base.Results.{Outcome, returns, raises, need_data, struct_error}

-- An n-byte word at offset, without the bits of the tag
unfoldable pub decode_word : ℕ → ℕ → List ℕ → ℕ → Outcome (ℕ × ℕ)
decode_word n mask buf offset =
    if ltb (length buf) (offset + n)
    then raises need_data
    else returns (bit_and (be_value (slice offset (offset + n) buf)) mask, n)

unfoldable pub decode_tagged : ℕ → List ℕ → ℕ → Outcome (ℕ × ℕ)
decode_tagged b buf offset =
    let tag = b / 64 in
    if tag == 0
    then returns (bit_and b 0x3f, 1)
    else if tag == 1
    then decode_word 2 0x3fff buf offset
    else if tag == 2
    then decode_word 4 0x3fffffff buf offset
    else decode_word 8 0x3fffffffffffffff buf offset

unfoldable pub decode_varint : List ℕ → ℕ → Outcome (ℕ × ℕ)
decode_varint buf offset =
    if leb (length buf) offset
    then raises need_data
    else decode_tagged (get_or buf offset 0) buf offset

-- struct.pack raises struct.error where the value does not fit into n bytes.
unfoldable pub pack : ℕ → ℕ → Outcome (List ℕ)
pack n v = if ltb v (256 ^ n) then returns (be_bytes n v) else raises struct_error

unfoldable pub encode_varint : ℕ → Outcome (List ℕ)
encode_varint v =
    if leb v 63
    then returns (v ∷ [])
    else if leb v 16383
    then pack 2 (bit_or v 0x4000)
    else if leb v 1073741823
    then pack 4 (bit_or v 0x80000000)
    else pack 8 (bit_or v 0xc000000000000000)
