-- ===== src/Sctp/RoundTrip.antt =====
-- What bytes(SCTP) of dpkt/sctp.py writes, SCTP(buf) reads.
use mathlib.Core.List.{append_assoc}
use dpkt_ng.Base.{
  ℕ, zero, suc, ◌+◌, ◌-◌, ◌%◌, ◌^◌, ◌<◌, ◌≤◌, ◌==◌, ◌≡◌, refl, sym, ap, ap₂, subst, ◌∙◌, false,
  ◌&&◌, not, List, [], ◌∷◌, ◌++◌, All, if◌then◌else◌, length, length-append, take, drop, le→leb,
  Bool-cases, inl, inr, arith,
}
use dpkt_ng.Base.Bytes.{slice, slice_behind, take-append_length, drop-append_length}
use dpkt_ng.Base.Results.{returns, ◌>>=◌}
use dpkt_ng.Crc32c.{add_byte, add, done, cksum}
use dpkt_ng.Crc32c.Order.{done_lt}
use dpkt_ng.Packet.Header.{hdr_len, init}
use dpkt_ng.Packet.Struct.Fields.{
  Fits, nothing, field, fields_bytes, length-fields_bytes, pack_hdr-Fits, unpack-Fits,
}
use dpkt_ng.Sctp.{
  Chunk, chunk_sizes, chunk_data, chunk_padding, chunk_unpack, chunk_init, chunk_len, chunk_bytes,
  read_chunks, Sctp, sctp_sizes, sctp_unpack, sctp_init, chunks_bytes, join, add_all, sctp_hdr,
  set_sum, sctp_bytes,
}

-- The bytes of padding that a chunk has
abbrev pub padding_size : ℕ → ℕ → ℕ
padding_size type' len = if type' == 0 && not (len % 4 == 0) then 4 - len % 4 else 0

-- A chunk whose length field is that of the header and the data, with its padding where it carries DATA
pub record IsChunk (c : Chunk) : Type 0 where
  pub type_fits : c.type' < 2 ^ 8
  pub flags_fit : c.flags < 2 ^ 8
  pub len_fits : c.len < 2 ^ 16
  pub whole : c.len ≡ 4 + length c.data'
  pub padded : length c.padding ≡ padding_size c.type' c.len

abbrev pub chunk_values : Chunk → List ℕ
chunk_values c = c.type' ∷ c.flags ∷ c.len ∷ []

abbrev pub bytes_of : Chunk → List ℕ
bytes_of c = fields_bytes chunk_sizes (chunk_values c) ++ (c.data' ++ c.padding)

chunk_values-Fits : (c : Chunk) → IsChunk c → Fits chunk_sizes (chunk_values c)
chunk_values-Fits c g = field g.type_fits (field g.flags_fit (field g.len_fits nothing))

chunk_bytes-bytes_of : (c : Chunk) → IsChunk c → chunk_bytes c ≡ returns (bytes_of c)
unfolding chunk_bytes
chunk_bytes-bytes_of c g = rw (pack_hdr-Fits (chunk_values-Fits c g))

chunk_data_whole :
    (data' rest : List ℕ) (len : ℕ)
    → len ≡ 4 + length data'
    → chunk_data len (data' ++ rest) ≡ data'
unfolding chunk_data
chunk_data_whole data' rest len e =
    ap
      (λ b.
        if b
        then take (len - 4) (data' ++ rest)
        else take (length (data' ++ rest) - (4 - len)) (data' ++ rest))
      (le→leb 4 len (omega arith))
    ∙ ap (λ n. take n (data' ++ rest)) (omega arith)
    ∙ take-append_length data' rest

chunk_padding_whole :
    (t len : ℕ) (front data' padding rest : List ℕ)
    → length front ≡ 4
    → length padding ≡ padding_size t len
    → chunk_padding t len data' (front ++ (data' ++ (padding ++ rest))) ≡ padding
unfolding chunk_padding
chunk_padding_whole t len front data' padding rest f e =
    elim (Bool-cases (t == 0 && not (len % 4 == 0))) [
      | inl h ↦
          ap
            (λ b. if b then slice (4 + length data') (4 + length data' + (4 - len % 4)) buf else [])
            h
          ∙ ap₂ (λ i b. slice i (i + (4 - len % 4)) b) (omega (arith, length-append front data'))
              (sym (append_assoc front data' (padding ++ rest)))
          ∙ slice_behind (front ++ data') padding rest
              (e ∙ ap (λ b. if b then 4 - len % 4 else 0) h)
      | inr h ↦
          ap
            (λ b. if b then slice (4 + length data') (4 + length data' + (4 - len % 4)) buf else [])
            h
          ∙ sym (no_bytes padding (e ∙ ap (λ b. if b then 4 - len % 4 else 0) h))
    ]
  where
    buf : List ℕ
    buf = front ++ (data' ++ (padding ++ rest))

    no_bytes : (xs : List ℕ) → length xs ≡ 0 → xs ≡ []
    no_bytes [] h = refl
    no_bytes (x ∷ xs) h = absurd (omega arith)

chunk_init-bytes_of :
    (c : Chunk) (rest : List ℕ) → IsChunk c → chunk_init (bytes_of c ++ rest) ≡ returns c
unfolding chunk_init chunk_unpack init hdr_len
chunk_init-bytes_of c rest g =
    let f = chunk_values-Fits c g in
    let front = fields_bytes chunk_sizes (chunk_values c) in
    ap chunk_init (
      append_assoc front (c.data' ++ c.padding) rest
      ∙ ap (λ b. front ++ b) (append_assoc c.data' c.padding rest))
    ∙ rw
        (
          unpack-Fits (c.data' ++ (c.padding ++ rest)) f,
          chunk_data_whole c.data' (c.padding ++ rest) c.len g.whole,
          chunk_padding_whole c.type' c.len front c.data' c.padding rest (length-fields_bytes f)
              g.padded,
        )
        refl

chunk_len-bytes_of : (c : Chunk) → IsChunk c → chunk_len c ≡ length (bytes_of c)
unfolding chunk_len hdr_len
chunk_len-bytes_of c g = omega (
  arith,
  g.whole,
  length-fields_bytes (chunk_values-Fits c g),
  length-append (fields_bytes chunk_sizes (chunk_values c)) (c.data' ++ c.padding),
  length-append c.data' c.padding,
)

-- The chunks one behind the other
unfoldable pub all_bytes : List Chunk → List (List ℕ)
all_bytes [] = []
all_bytes (c ∷ chunks) = bytes_of c ∷ all_bytes chunks

chunks_bytes-all_bytes :
    (cs : List Chunk) → All IsChunk cs → chunks_bytes cs ≡ returns (all_bytes cs)
unfolding chunks_bytes all_bytes
chunks_bytes-all_bytes [] g = refl
chunks_bytes-all_bytes (c ∷ cs) g =
    rw (chunk_bytes-bytes_of c (g.0), chunks_bytes-all_bytes cs (g.1))

read_chunks_none : (fuel : ℕ) → read_chunks fuel [] ≡ returns []
unfolding read_chunks
read_chunks_none zero = refl
read_chunks_none (suc fuel) = refl

read_chunks_next :
    (fuel : ℕ) (buf : List ℕ) {c : Chunk}
    → 0 < length buf
    → chunk_init buf ≡ returns c
    → 0 < chunk_len c
    → read_chunks (suc fuel) buf
      ≡ (read_chunks fuel (drop (chunk_len c) buf) >>= λ cs. returns (c ∷ cs))
unfolding read_chunks
read_chunks_next fuel [] l h p = absurd (omega arith)
read_chunks_next fuel (b ∷ buf) {c} l h p = rw (h, positive (chunk_len c) p)
  where
    positive : (n : ℕ) → 0 < n → (n == 0) ≡ false
    positive n h = ground arith

length-bytes_of : (c : Chunk) → IsChunk c → 4 ≤ length (bytes_of c)
unfolding hdr_len
length-bytes_of c g = omega (
  arith,
  length-fields_bytes (chunk_values-Fits c g),
  length-append (fields_bytes chunk_sizes (chunk_values c)) (c.data' ++ c.padding),
)

read_chunks-all_bytes :
    (cs : List Chunk) (fuel : ℕ)
    → All IsChunk cs
    → length (join (all_bytes cs)) ≤ fuel
    → read_chunks fuel (join (all_bytes cs)) ≡ returns cs
unfolding join all_bytes
read_chunks-all_bytes [] zero g h = read_chunks_none zero
read_chunks-all_bytes [] (suc fuel) g h = read_chunks_none (suc fuel)
read_chunks-all_bytes (c ∷ cs) zero g h =
    absurd
      (omega (arith, length-bytes_of c (g.0), length-append (bytes_of c) (join (all_bytes cs))))
read_chunks-all_bytes (c ∷ cs) (suc fuel) g h =
    let rest = join (all_bytes cs) in
    let size = length-append (bytes_of c) rest in
    let four = length-bytes_of c (g.0) in
    read_chunks_next fuel (bytes_of c ++ rest) (omega (arith, size, four))
      (chunk_init-bytes_of c rest (g.0)) (omega (arith, chunk_len-bytes_of c (g.0), four))
    ∙ ap (λ b. read_chunks fuel b >>= λ cs. returns (c ∷ cs))
        (ap (λ n. drop n (bytes_of c ++ rest))
            (chunk_len-bytes_of c (g.0) ∙ plus_zero (length (bytes_of c)))
          ∙ drop-append_length 0 (bytes_of c) rest)
    ∙ ap (λ o. o >>= λ cs. returns (c ∷ cs))
        (read_chunks-all_bytes cs fuel (g.1) (omega (arith, size, four)))
  where
    plus_zero : (n : ℕ) → n ≡ n + 0
    plus_zero n = omega arith

pub record IsSctp (s : Sctp) : Type 0 where
  pub sport_fits : s.sport < 2 ^ 16
  pub dport_fits : s.dport < 2 ^ 16
  pub vtag_fits : s.vtag < 2 ^ 32
  pub sum_fits : s.sum < 2 ^ 32
  pub chunks_whole : All IsChunk s.chunks

abbrev pub header_values : Sctp → List ℕ
header_values s = s.sport ∷ s.dport ∷ s.vtag ∷ s.sum ∷ []

-- The packet as bytes, with the checksum that it has
unfoldable pub wire : Sctp → List ℕ
wire s = fields_bytes sctp_sizes (header_values s) ++ join (all_bytes s.chunks)

add-append : (crc : ℕ) (xs ys : List ℕ) → add crc (xs ++ ys) ≡ add (add crc xs) ys
unfolding add
add-append crc [] ys = refl
add-append crc (x ∷ xs) ys = add-append (add_byte crc x) xs ys

add_all-join : (crc : ℕ) (l : List (List ℕ)) → add_all crc l ≡ add crc (join l)
unfolding add_all join add
add_all-join crc [] = refl
add_all-join crc (x ∷ l) = add_all-join (add crc x) l ∙ sym (add-append crc x (join l))

-- What the checksum is when the packet is written
abbrev pub new_sum : Sctp → ℕ
new_sum s = if s.sum == 0 then cksum (wire s) else s.sum

header_values-Fits : (s : Sctp) → IsSctp s → Fits sctp_sizes (header_values s)
header_values-Fits s g =
    field g.sport_fits (field g.dport_fits (field g.vtag_fits (field g.sum_fits nothing)))

set_sum-new_sum :
    (s : Sctp) → IsSctp s → set_sum s (all_bytes s.chunks) ≡ returns (record s { sum = new_sum s })
unfolding set_sum sctp_hdr cksum wire
set_sum-new_sum s g = elim (Bool-cases (s.sum == 0)) [
  | inl h ↦
      rw
        (
          h,
          pack_hdr-Fits (header_values-Fits s g),
          add_all-join (add 0xffffffff (fields_bytes sctp_sizes (header_values s)))
              (all_bytes s.chunks),
        )
        (ap (λ c. returns (record s { sum = done c }))
          (sym (
            add-append 0xffffffff (fields_bytes sctp_sizes (header_values s))
              (join (all_bytes s.chunks)))))
  | inr h ↦ rw h refl
]

summed-IsSctp : (s : Sctp) → IsSctp s → IsSctp (record s { sum = new_sum s })
unfolding cksum
summed-IsSctp s g = record {
  sport_fits = g.sport_fits;
  dport_fits = g.dport_fits;
  vtag_fits = g.vtag_fits;
  sum_fits = elim (Bool-cases (s.sum == 0)) [
    | inl h ↦
        subst (λ n. n < 2 ^ 32) (sym (ap (λ b. if b then cksum (wire s) else s.sum) h)) (done_lt _)
    | inr h ↦
        subst (λ n. n < 2 ^ 32) (sym (ap (λ b. if b then cksum (wire s) else s.sum) h)) g.sum_fits
  ];
  chunks_whole = g.chunks_whole;
}

sctp_init-wire : (s : Sctp) → IsSctp s → sctp_init (wire s) ≡ returns s
unfolding sctp_init sctp_unpack init wire
sctp_init-wire s g =
    rw
      (
        unpack-Fits (join (all_bytes s.chunks)) (header_values-Fits s g),
        read_chunks-all_bytes s.chunks (length (join (all_bytes s.chunks))) g.chunks_whole
            (omega arith),
      )
      refl

-- A packet whose fields fit and whose chunks are whole is written, with the checksum of its bytes where it has
-- none, and read again from what was written.
pub sctp_bytes-sctp_init :
    (s : Sctp)
    → IsSctp s
    → (buf : List ℕ) × (s' : Sctp) × (sctp_bytes s ≡ returns (buf, s'))
      × (sctp_init buf ≡ returns s')
      × (s' ≡ record s { sum = new_sum s })
unfolding sctp_bytes sctp_hdr wire
sctp_bytes-sctp_init s g =
    let s' : Sctp = record s { sum = new_sum s } in
    let g' = summed-IsSctp s g in
    (
      wire s',
      s',
      rw (
        chunks_bytes-all_bytes s.chunks g.chunks_whole,
        set_sum-new_sum s g,
        pack_hdr-Fits (header_values-Fits s' g'),
      ),
      sctp_init-wire s' g',
      refl,
    )
