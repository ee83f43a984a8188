-- ===== src/Quic/Header.antt =====
-- The packet headers of dpkt/quic.py: class QUIC chooses between the long and the short one.
pub mod Layout
use Prim.Native.Nat.{bit_and}
use dpkt_ng.Base.{
  ℕ, ◌+◌, ◌-◌, ◌*◌, ◌/◌, ◌%◌, List, [], ◌∷◌, ltb, ◌==◌, if◌then◌else◌, length, take, drop,
}
use dpkt_ng.Base.Bytes.{slice, be_value}
use dpkt_ng.Base.Results.{Outcome, returns, raises, struct_error, ◌>>=◌}
use dpkt_ng.Quic.Varint.{decode_varint}
use dpkt_ng.Quic.Frames.{QuicFrame, byte_at}
use dpkt_ng.Quic.Parse.{parse_frames}

-- Both kinds have flags, version, destination and source connection id; a retry packet then has a
-- token and an integrity tag, the others token, length, packet number, data and frames. The numbers
-- that these determine, the type, the lengths and __hdr_len__, are left out.
pub data LongHeader : Type 0 where
  retry_packet : ℕ → ℕ → List ℕ → List ℕ → List ℕ → List ℕ → LongHeader
  long_packet : ℕ → ℕ → List ℕ → List ℕ → List ℕ → ℕ → List ℕ → List ℕ → List QuicFrame → LongHeader

-- struct.unpack('>I', buf[off:off+4])
unfoldable pub word_at : List ℕ → ℕ → Outcome ℕ
word_at buf off =
    if length (slice off (off + 4) buf) == 4
    then returns (be_value (slice off (off + 4) buf))
    else raises struct_error

-- parse_frames(payload) if payload else []
unfoldable pub payload_frames : List ℕ → Outcome (List QuicFrame)
payload_frames [] = returns []
payload_frames (b ∷ rest) = parse_frames (b ∷ rest)

-- Only an Initial packet, type 0, has a token.
unfoldable pub initial_token : ℕ → List ℕ → ℕ → Outcome (List ℕ × ℕ)
initial_token long_pkt_type buf off =
    if long_pkt_type == 0
    then (decode_varint buf off >>= λ p.
        returns (slice (off + p.1) (off + p.1 + p.0) buf, off + p.1 + p.0))
    else returns ([], off)

-- What follows the connection ids where the packet is no Retry
unfoldable pub unpack_numbered : ℕ → ℕ → List ℕ → List ℕ → List ℕ → ℕ → Outcome LongHeader
unpack_numbered flags version dcid scid buf off = do
  (token, off') ← initial_token (flags / 16 % 4) buf off
  (length', n) ← decode_varint buf off'
  let remaining = slice (off' + n) (off' + n + length') buf
  let n_bytes = flags % 4 + 1
  frames ← payload_frames (drop n_bytes remaining)
  returns (
      long_packet flags version dcid scid token length' (take n_bytes remaining)
        (drop n_bytes remaining) frames)

unfoldable pub unpack_long : List ℕ → Outcome LongHeader
unpack_long buf = do
  flags ← byte_at buf 0
  version ← word_at buf 1
  dcid_len ← byte_at buf 5
  let dcid = slice 6 (6 + dcid_len) buf
  scid_len ← byte_at buf (6 + dcid_len)
  let off = 6 + dcid_len + 1 + scid_len
  let scid = slice (6 + dcid_len + 1) off buf
  if flags / 16 % 4 == 3
      then returns (
          retry_packet flags version dcid scid (slice off (length buf - 16) buf)
            (drop (length buf - 16) buf))
      else unpack_numbered flags version dcid scid buf off

-- Flags, destination connection id, packet number, frames
pub data ShortHeader : Type 0 where
  short_packet : ℕ → List ℕ → List ℕ → List QuicFrame → ShortHeader

unfoldable pub unpack_short : List ℕ → ℕ → Outcome ShortHeader
unpack_short buf dcid_len = do
  flags ← byte_at buf 0
  let pn_offset = 1 + dcid_len
  let pn_len = flags % 4 + 1
  let payload_offset = pn_offset + pn_len
  frames ←
      if ltb payload_offset (length buf) then parse_frames (drop payload_offset buf) else returns []
  returns (
      short_packet flags (slice 1 (1 + dcid_len) buf) (slice pn_offset (pn_offset + pn_len) buf)
        frames)

-- QUIC(buf, dcid_len=...) of a buffer that is not empty
pub data Quic : Type 0 where
  long_header : LongHeader → Quic
  short_header : ShortHeader → Quic

unfoldable pub new_quic : ℕ → List ℕ → ℕ → Outcome Quic
new_quic b rest dcid_len =
    if bit_and b 0x80 == 0
    then (unpack_short (b ∷ rest) dcid_len >>= λ p. returns (short_header p))
    else (unpack_long (b ∷ rest) >>= λ p. returns (long_header p))
