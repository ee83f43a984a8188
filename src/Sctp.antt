-- ===== src/Sctp.antt =====
-- dpkt/sctp.py: a packet of chunks, with a checksum over all of it.
pub mod Faults
pub mod RoundTrip
mod Tests
use dpkt_ng.Base.{
  ℕ, zero, suc, ◌+◌, ◌-◌, ◌%◌, ◌==◌, Bool, true, false, ◌&&◌, not, List, [], ◌∷◌, ◌++◌, leb,
  if◌then◌else◌, length, take, drop, get_or,
}
use dpkt_ng.Base.Bytes.{slice}
use dpkt_ng.Base.Results.{Outcome, returns, raises, stuck, ◌>>=◌}
use dpkt_ng.Crc32c.{add, done}
use dpkt_ng.Packet.Header.{unpack, init, pack_hdr}

pub record Chunk : Type 0 where
  pub type' : ℕ
  pub flags : ℕ
  pub len : ℕ
  pub data' : List ℕ
  pub padding : List ℕ

abbrev pub chunk_sizes : List ℕ
chunk_sizes = 1 ∷ 1 ∷ 2 ∷ []

-- data[:len - 4]; where len is less than 4 the end counts from behind.
unfoldable pub chunk_data : ℕ → List ℕ → List ℕ
chunk_data len data' =
    if leb 4 len then take (len - 4) data' else take (length data' - (4 - len)) data'

-- The padding of a DATA chunk behind its data
unfoldable pub chunk_padding : ℕ → ℕ → List ℕ → List ℕ → List ℕ
chunk_padding type' len data' buf =
    if type' == 0 && not (len % 4 == 0)
    then slice (4 + length data') (4 + length data' + (4 - len % 4)) buf
    else []

unfoldable pub chunk_unpack : List ℕ → Outcome Chunk
chunk_unpack buf = unpack chunk_sizes buf >>= λ p.
    let type' = get_or p.fields 0 0 in
    let len = get_or p.fields 2 0 in
    let data' = chunk_data len p.data' in
    returns record {
      type' = type';
      flags = get_or p.fields 1 0;
      len = len;
      data' = data';
      padding = chunk_padding type' len data' buf;
    }

-- Chunk(buf)
unfoldable pub chunk_init : List ℕ → Outcome Chunk
chunk_init buf = init chunk_sizes buf (chunk_unpack buf)

-- len(chunk)
unfoldable pub chunk_len : Chunk → ℕ
chunk_len c = c.len + length c.padding

unfoldable pub chunk_bytes : Chunk → Outcome (List ℕ)
chunk_bytes c = pack_hdr chunk_sizes (c.type' ∷ c.flags ∷ c.len ∷ []) >>= λ front.
    returns (front ++ (c.data' ++ c.padding))

pub record Sctp : Type 0 where
  pub sport : ℕ
  pub dport : ℕ
  pub vtag : ℕ
  pub sum : ℕ
  pub chunks : List Chunk

abbrev pub sctp_sizes : List ℕ
sctp_sizes = 2 ∷ 2 ∷ 4 ∷ 4 ∷ []

-- The loop over the chunks; each of them but the last takes a byte or more.
unfoldable pub read_chunks : ℕ → List ℕ → Outcome (List Chunk)
read_chunks fuel [] = returns []
read_chunks zero (b ∷ data') = raises stuck
read_chunks (suc fuel) (b ∷ data') = chunk_init (b ∷ data') >>= λ chunk.
    (let rest = read_chunks fuel (drop (chunk_len chunk) (b ∷ data')) in
      if chunk_len chunk == 0
      then returns (chunk ∷ [])
      else (rest >>= λ chunks. returns (chunk ∷ chunks)))

unfoldable pub sctp_unpack : List ℕ → Outcome Sctp
sctp_unpack buf = unpack sctp_sizes buf >>= λ p.
    (read_chunks (length p.data') p.data' >>= λ chunks. returns record {
      sport = get_or p.fields 0 0;
      dport = get_or p.fields 1 0;
      vtag = get_or p.fields 2 0;
      sum = get_or p.fields 3 0;
      chunks = chunks;
    })

-- SCTP(buf)
unfoldable pub sctp_init : List ℕ → Outcome Sctp
sctp_init buf = init sctp_sizes buf (sctp_unpack buf)

-- len(sctp)
unfoldable pub chunks_len : List Chunk → ℕ
chunks_len [] = 0
chunks_len (c ∷ chunks) = chunk_len c + chunks_len chunks

unfoldable pub sctp_len : Sctp → ℕ
sctp_len s = 12 + chunks_len s.chunks

-- [bytes(x) for x in self.chunks]
unfoldable pub chunks_bytes : List Chunk → Outcome (List (List ℕ))
chunks_bytes [] = returns []
chunks_bytes (c ∷ chunks) =
    chunk_bytes c >>= λ bytes. (chunks_bytes chunks >>= λ rest. returns (bytes ∷ rest))

-- b''.join(l_)
unfoldable pub join : List (List ℕ) → List ℕ
join [] = []
join (x ∷ xs) = x ++ join xs

-- The checksum over the chunks one by one
unfoldable pub add_all : ℕ → List (List ℕ) → ℕ
add_all crc [] = crc
add_all crc (x ∷ xs) = add_all (add crc x) xs

unfoldable pub sctp_hdr : Sctp → Outcome (List ℕ)
sctp_hdr s = pack_hdr sctp_sizes (s.sport ∷ s.dport ∷ s.vtag ∷ s.sum ∷ [])

-- The checksum is set where it is 0.
unfoldable pub set_sum : Sctp → List (List ℕ) → Outcome Sctp
set_sum s l_ =
    if s.sum == 0
    then (sctp_hdr s >>= λ front.
        returns (record s { sum = done (add_all (add 0xffffffff front) l_) }))
    else returns s

-- The bytes, and the packet with its checksum
unfoldable pub sctp_bytes : Sctp → Outcome (List ℕ × Sctp)
sctp_bytes s = chunks_bytes s.chunks >>= λ l_.
    (set_sum s l_ >>= λ s'. (sctp_hdr s' >>= λ front. returns (front ++ join l_, s')))
