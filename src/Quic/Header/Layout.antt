-- ===== src/Quic/Header/Layout.antt =====
-- QUICShortHeader of dpkt/quic.py finds the parts of a packet where RFC 9000 lays them.
use dpkt_ng.Base.{
  ℕ, ◌+◌, ◌%◌, List, [], ◌∷◌, ◌++◌, ltb, true, false, if◌then◌else◌, length, length-append, drop,
  take, ◌≡◌, refl, sym, ap, ap₂, ◌∙◌, arith,
}
use mathlib.Core.List.{append_assoc}
use dpkt_ng.Base.Bytes.{slice, slice-append, slice-front, drop-append_length}
use dpkt_ng.Base.Loops.{read_loop}
use dpkt_ng.Base.Results.{returns, ◌>>=◌}
use dpkt_ng.Quic.Frames.{byte_at}
use dpkt_ng.Quic.Parse.{parse_frames, more_bytes, join}
use dpkt_ng.Quic.Header.{short_packet, unpack_short}

module _ (flags : ℕ) (dcid pn payload : List ℕ) (h : length pn ≡ flags % 4 + 1) where
  packet : List ℕ
  packet = flags ∷ (dcid ++ (pn ++ payload))

  dcid_there : slice 1 (1 + length dcid) packet ≡ dcid
  unfolding packet
  dcid_there =
      ap (λ k. take k (dcid ++ (pn ++ payload))) (omega arith)
      ∙ slice-front (length dcid) dcid (pn ++ payload) refl

  pn_there : slice (1 + length dcid) (1 + length dcid + (flags % 4 + 1)) packet ≡ pn
  unfolding packet
  pn_there =
      ap₂ (λ a b. slice a b ((flags ∷ dcid) ++ (pn ++ payload))) (omega arith) (omega arith)
      ∙ slice-append 0 (0 + length pn) (flags ∷ dcid) (pn ++ payload)
      ∙ slice-front (length pn) pn payload refl

  payload_there : drop (1 + length dcid + (flags % 4 + 1)) packet ≡ payload
  unfolding packet
  payload_there =
      ap₂ drop (omega (arith, length-append (flags ∷ dcid) pn))
        (sym (append_assoc (flags ∷ dcid) pn payload))
      ∙ drop-append_length 0 ((flags ∷ dcid) ++ pn) payload

  size : length packet ≡ 1 + length dcid + (flags % 4 + 1) + length payload
  unfolding packet
  size = omega (arith, length-append dcid (pn ++ payload), length-append pn payload)

parse_nil : parse_frames [] ≡ returns []
unfolding parse_frames more_bytes read_loop join
parse_nil = refl

frames_there :
    (n : ℕ) (buf payload : List ℕ)
    → length buf ≡ n + length payload
    → drop n buf ≡ payload
    → (if ltb n (length buf) then parse_frames (drop n buf) else returns []) ≡ parse_frames payload
frames_there n buf [] l d =
    let none_left : ltb n (length buf) ≡ false = ground arith in
    ap (λ c. if c then parse_frames (drop n buf) else returns []) none_left ∙ sym parse_nil
frames_there n buf (b ∷ rest) l d =
    let some_left : ltb n (length buf) ≡ true = ground arith in
    ap (λ c. if c then parse_frames (drop n buf) else returns []) some_left ∙ ap parse_frames d

-- A short header packet of flags, destination connection id, packet number of the length that the
-- flags state, and payload is unpacked to these parts and the frames of the payload, if the caller
-- knows the length of the connection id.
pub unpack_short_parts :
    (flags : ℕ) (dcid pn payload : List ℕ)
    → length pn ≡ flags % 4 + 1
    → unpack_short (flags ∷ (dcid ++ (pn ++ payload))) (length dcid)
      ≡ (parse_frames payload >>= λ frames. returns (short_packet flags dcid pn frames))
unfolding unpack_short byte_at packet
unpack_short_parts flags dcid pn payload h =
    ap
      (λ r. r >>= λ frames. returns (
        short_packet flags (slice 1 (1 + length dcid) (packet flags dcid pn payload h))
          (slice (1 + length dcid) (1 + length dcid + (flags % 4 + 1))
            (packet flags dcid pn payload h))
          frames))
      (frames_there (1 + length dcid + (flags % 4 + 1)) (packet flags dcid pn payload h) payload
        (size flags dcid pn payload h) (payload_there flags dcid pn payload h))
    ∙ ap₂ (λ a b. parse_frames payload >>= λ frames. returns (short_packet flags a b frames))
        (dcid_there flags dcid pn payload h) (pn_there flags dcid pn payload h)
