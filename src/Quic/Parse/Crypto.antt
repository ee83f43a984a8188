-- ===== src/Quic/Parse/Crypto.antt =====
-- CRYPTO frames of dpkt/quic.py are read back by parse_frames, whatever follows.
use dpkt_ng.Base.{
  ℕ, ◌+◌, ◌^◌, ◌<◌, false, List, [], ◌∷◌, ◌++◌, ◌==◌, length, length-append, ◌≡◌, refl, sym, ap,
  ap₂, ◌∙◌, arith,
}
use mathlib.Core.List.{append_assoc}
use dpkt_ng.Base.Bytes.{slice, slice-append, slice-front}
use dpkt_ng.Base.Results.{returns, ◌>>=◌}
use dpkt_ng.Quic.Varint.{decode_varint, encode_varint}
use dpkt_ng.Quic.RoundTrip.{decode_varint-append, decode-written, writable}
use dpkt_ng.Quic.Frames.{
  QuicFrame, crypto_frame, byte_at, unpack_frame, unpack_crypto, frame_byte_size, encoded_size,
  crypto_bytes,
}
use dpkt_ng.Quic.Parse.{advance, attempt, read_round, parse_frames}
use dpkt_ng.Quic.Parse.Sequence.{parse_frames-append}

pub round_of_frame :
    (b : ℕ) (buf : List ℕ) (f : QuicFrame) (n : ℕ)
    → (b == 0) ≡ false
    → unpack_frame b (b ∷ buf) ≡ returns f
    → frame_byte_size f ≡ returns n
    → read_round (b ∷ buf) 0 ≡ returns (f ∷ [], n)
unfolding read_round byte_at attempt advance
round_of_frame b buf f n h u s = rw (h, u, s, zero_add)
  where
    zero_add : 0 + n ≡ n
    zero_add = omega arith

-- The second of two written numbers behind a byte
pub second_written :
    (b : ℕ) {v : ℕ} (e : List ℕ) {e' : List ℕ} (rest : List ℕ)
    → v < 2 ^ 62
    → encode_varint v ≡ returns e'
    → decode_varint (b ∷ (e ++ (e' ++ rest))) (1 + length e) ≡ returns (v, length e')
second_written b e {e'} rest h w =
    ap (decode_varint (b ∷ (e ++ (e' ++ rest)))) (omega arith)
    ∙ decode_varint-append 0 (b ∷ e) (e' ++ rest)
    ∙ decode-written rest h w

pub first_written :
    (b : ℕ) {v : ℕ} {e : List ℕ} (rest : List ℕ)
    → v < 2 ^ 62
    → encode_varint v ≡ returns e
    → decode_varint (b ∷ (e ++ rest)) 1 ≡ returns (v, length e)
first_written b {e = e} rest h w =
    decode_varint-append 0 (b ∷ []) (e ++ rest) ∙ decode-written rest h w

behind_two :
    (b : ℕ) (e e' d rest : List ℕ)
    → slice
        (1 + length e + length e')
        (1 + length e + length e' + length d)
        (b ∷ (e ++ (e' ++ (d ++ rest))))
      ≡ d
behind_two b e e' d rest =
    ap₂ (slice (1 + length e + length e')) (omega (arith, length-append e e'))
      (ap (λ l. b ∷ l) (sym (append_assoc e e' (d ++ rest))))
    ∙ ap (λ k. slice k (length (b ∷ (e ++ e')) + (0 + length d)) ((b ∷ (e ++ e')) ++ (d ++ rest)))
        (omega (arith, length-append e e'))
    ∙ slice-append 0 (0 + length d) (b ∷ (e ++ e')) (d ++ rest)
    ∙ slice-front (length d) d rest refl

unpack_crypto-written :
    (o : ℕ) (eo el data' rest : List ℕ)
    → o < 2 ^ 62
    → length data' < 2 ^ 62
    → encode_varint o ≡ returns eo
    → encode_varint (length data') ≡ returns el
    → unpack_crypto (0x06 ∷ (eo ++ (el ++ (data' ++ rest))))
      ≡ returns (crypto_frame 0x06 o (length data') data')
unfolding unpack_crypto byte_at
unpack_crypto-written o eo el data' rest ho hl wo wl =
    let first = first_written 0x06 (el ++ (data' ++ rest)) ho wo in
    let second = second_written 0x06 eo (data' ++ rest) hl wl in
    let body : slice (1 + length eo + length el) (1 + length eo + length el + length data')
          (0x06 ∷ (eo ++ (el ++ (data' ++ rest))))
        ≡ data' =
      behind_two 0x06 eo el data' rest in
    rw (first, second, body)

size_of_crypto :
    (o : ℕ) (eo el data' : List ℕ)
    → encode_varint o ≡ returns eo
    → encode_varint (length data') ≡ returns el
    → frame_byte_size (crypto_frame 0x06 o (length data') data')
      ≡ returns (1 + length eo + length el + length data')
unfolding frame_byte_size encoded_size
size_of_crypto o eo el data' wo wl = rw (wo, wl)

crypto_reassoc :
    (eo el data' rest : List ℕ) → (eo ++ el ++ data') ++ rest ≡ eo ++ (el ++ (data' ++ rest))
crypto_reassoc eo el data' rest =
    append_assoc (eo ++ el) data' rest ∙ append_assoc eo el (data' ++ rest)

-- What QUICCryptoFrame.__bytes__ writes for an offset and data whose length is below 2 ** 62 is parsed,
-- whatever follows it, as that frame and then as the rest is parsed.
pub parse_frames-crypto_bytes :
    (o : ℕ) (data' rest : List ℕ)
    → o < 2 ^ 62
    → length data' < 2 ^ 62
    → (bytes : List ℕ) × (crypto_bytes o (length data') data' ≡ returns bytes)
      × (parse_frames (bytes ++ rest)
          ≡ (parse_frames rest >>= λ fs. returns (crypto_frame 0x06 o (length data') data' ∷ fs)))
unfolding crypto_bytes unpack_frame
parse_frames-crypto_bytes o data' rest ho hl =
    let (eo, wo) = writable o ho in
    let (el, wl) = writable (length data') hl in
    let f = crypto_frame 0x06 o (length data') data' in
    let size : 1 + length eo + length el + length data' ≡ length (0x06 ∷ (eo ++ el ++ data')) =
      omega (arith, length-append (eo ++ el) data', length-append eo el) in
    (
      0x06 ∷ (eo ++ el ++ data'),
      rw (wo, wl),
      parse_frames-append (0x06 ∷ (eo ++ el ++ data')) rest (f ∷ []) (omega arith) (
          round_of_frame 0x06 ((eo ++ el ++ data') ++ rest) f (length (0x06 ∷ (eo ++ el ++ data')))
            refl
            (ap (λ b. unpack_crypto (0x06 ∷ b)) (crypto_reassoc eo el data' rest)
              ∙ unpack_crypto-written o eo el data' rest ho hl wo wl)
            (size_of_crypto o eo el data' wo wl ∙ ap returns size)),
    )
