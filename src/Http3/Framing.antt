-- ===== src/Http3/Framing.antt =====
-- parse_http3_frames of dpkt/http3.py takes a buffer apart at the frames that were put together.
use dpkt_ng.Base.{
  ℕ, ◌+◌, ◌-◌, ◌^◌, ◌<◌, List, [], ◌++◌, length, length-append, ◌≡◌, refl, ap, ap₂, ◌∙◌, subst,
  arith, take_all, inl, inr,
}
use mathlib.Core.List.{append_assoc, append-nil}
use dpkt_ng.Base.Bytes.{slice, slice-append, slice-front}
use dpkt_ng.Base.Results.{returns, ◌>>=◌}
use dpkt_ng.Base.Loops.{Outcome-cases}
use dpkt_ng.Quic.Varint.{decode_varint, encode_varint}
use dpkt_ng.Quic.RoundTrip.{decode_varint-append, decode-written}
use dpkt_ng.Http3.Frames.{frame_header, unpack_frame, read_frame, more_frames}
use dpkt_ng.Http3.Termination.{frame_header-cases}

pub decode-behind :
    (xs ys : List ℕ) (off n : ℕ)
    → decode_varint (xs ++ ys) (length xs + off + n) ≡ decode_varint ys (off + n)
decode-behind xs ys off n =
    ap (decode_varint (xs ++ ys)) (omega arith) ∙ decode_varint-append (off + n) xs ys

-- A buffer in front moves the offsets.
frame_header-append :
    (off : ℕ) (xs ys : List ℕ)
    → frame_header (xs ++ ys) (length xs + off)
      ≡ (frame_header ys off >>= λ h. returns (h.0, h.1, length xs + h.2))
unfolding frame_header
frame_header-append off xs ys = elim (Outcome-cases (decode_varint ys off)) [
  | inr (e, r) ↦ let moved = decode_varint-append off xs ys in ground arith
  | inl (t, n, r) ↦
      let moved = decode_varint-append off xs ys in
      let moved' = decode-behind xs ys off n in ground arith
]

slice-behind :
    (xs ys : List ℕ) (off body l : ℕ)
    → slice (length xs + off) (length xs + body + l) (xs ++ ys) ≡ slice off (body + l) ys
slice-behind xs ys off body l =
    ap (λ k. slice (length xs + off) k (xs ++ ys)) (omega arith) ∙ slice-append off (body + l) xs ys

pub read_frame-append :
    (xs ys : List ℕ) (off : ℕ)
    → read_frame (xs ++ ys) (length xs + off)
      ≡ (read_frame ys off >>= λ p. returns (p.0, length xs + p.1))
unfolding read_frame
read_frame-append xs ys off = elim (frame_header-cases (frame_header ys off)) [
  | inr (e, r) ↦ let moved = frame_header-append off xs ys in ground arith
  | inl (t, l, body, r) ↦
      let moved = frame_header-append off xs ys in
      let same = slice-behind xs ys off body l in ground arith
]

pub more_frames-append :
    (xs ys : List ℕ) (off : ℕ) → more_frames (xs ++ ys) (length xs + off) ≡ more_frames ys off
unfolding more_frames
more_frames-append xs ys off = ground (arith, length-append xs ys)

-- The header of a frame that was put together
module _ (t l : ℕ) (et el body : List ℕ) (ht : t < 2 ^ 62) (hl : l < 2 ^ 62)
    (wt : encode_varint t ≡ returns et) (wl : encode_varint l ≡ returns el) where
  frame_header-written :
      (rest : List ℕ) → frame_header (et ++ (el ++ rest)) 0 ≡ returns (t, l, length et + length el)
  unfolding frame_header
  frame_header-written rest =
      let type = decode-written (el ++ rest) ht wt in
      let next : decode_varint (et ++ (el ++ rest)) (0 + length et) ≡ returns (l, length el) =
        ap (decode_varint (et ++ (el ++ rest))) (omega arith)
        ∙ decode_varint-append 0 et (el ++ rest)
        ∙ decode-written rest hl wl in
      ground arith

  unfoldable pub frame : List ℕ
  frame = et ++ el ++ body

  pub header_of_frame :
      (rest : List ℕ) → frame_header (frame ++ rest) 0 ≡ returns (t, l, length et + length el)
  unfolding frame
  header_of_frame rest =
      ap (λ b. frame_header b 0)
        (append_assoc (et ++ el) body rest ∙ append_assoc et el (body ++ rest))
      ∙ frame_header-written (body ++ rest)

  pub length-frame : length body ≡ l → length frame ≡ length et + length el + l
  unfolding frame
  length-frame h = ground (arith, length-append (et ++ el) body, length-append et el)

  pub read_frame-written :
      (rest : List ℕ)
      → length body ≡ l
      → read_frame (frame ++ rest) 0 ≡ (unpack_frame t frame >>= λ f. returns (f, length frame))
  unfolding read_frame
  read_frame-written rest h =
      let header = header_of_frame rest in
      let size = length-frame h in
      let whole : slice 0 (length et + length el + l) (frame ++ rest) ≡ frame =
        ap (λ k. slice 0 k (frame ++ rest)) (omega arith)
        ∙ slice-front (length frame) frame rest refl in
      rw (header, whole, size)

  pub header_alone : frame_header frame 0 ≡ returns (t, l, length et + length el)
  header_alone =
      subst (λ b. frame_header b 0 ≡ returns (t, l, length et + length el)) (append-nil frame)
        (header_of_frame [])

  pub body_of_frame :
      length body ≡ l → slice (length et + length el) (length et + length el + l) frame ≡ body
  unfolding frame
  body_of_frame h =
      ap₂ (λ a b. slice a b (et ++ el ++ body)) (omega (arith, length-append et el))
        (omega (arith, length-append et el))
      ∙ slice-append 0 l (et ++ el) body
      ∙ take_all (l - 0) body (omega arith)
