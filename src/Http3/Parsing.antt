-- ===== src/Http3/Parsing.antt =====
-- What parse_http3_frames of dpkt/http3.py returns for a sequence of frames.
use dpkt_ng.Base.{
  ℕ, ◌^◌, ◌<◌, ◌≤◌, List, [], ◌∷◌, ◌++◌, length, length-append, map, All, ◌≡◌, refl, ap, ◌∙◌, arith,
}
use dpkt_ng.Base.Results.{Outcome, returns, ◌>>=◌}
use dpkt_ng.Base.Loops.{read_loop, read_loop_fuel, read_loop_shift, read_loop_round}
use dpkt_ng.Quic.Varint.{encode_varint}
use dpkt_ng.Quic.Bounds.{decode_varint_bounds}
use dpkt_ng.Quic.RoundTrip.{decode-written, writable}
use dpkt_ng.Http3.Frames.{
  Http3Frame, data_frame, unpack_frame, unpack_data, read_frame, more_frames, parse_http3_frames,
  data_bytes,
}
use dpkt_ng.Http3.Termination.{read_frame-Advances}
use dpkt_ng.Http3.Framing.{
  frame, read_frame-written, read_frame-append, more_frames-append, header_alone, body_of_frame,
}

-- The rounds behind a prefix are the rounds on the rest, with any fuel that is enough.
loop_behind :
    (xs ys : List ℕ) (f : ℕ)
    → length ys ≤ f
    → read_loop (more_frames (xs ++ ys)) (read_frame (xs ++ ys)) f (length xs)
      ≡ parse_http3_frames ys
unfolding parse_http3_frames
loop_behind xs ys f h =
    ap (read_loop (more_frames (xs ++ ys)) (read_frame (xs ++ ys)) f) (omega arith)
    ∙ read_loop_shift _ _ _ _ (length xs) (more_frames-append xs ys) (read_frame-append xs ys) f 0
    ∙ read_loop_fuel _ _ (length ys) (read_frame-Advances ys) f (length ys) 0 (omega arith)
        (omega arith)

parse-prefix :
    (xs ys : List ℕ) (u : Outcome Http3Frame)
    → 0 < length xs
    → read_frame (xs ++ ys) 0 ≡ (u >>= λ f. returns (f, length xs))
    → parse_http3_frames (xs ++ ys) ≡ (u >>= λ f. parse_http3_frames ys >>= λ fs. returns (f ∷ fs))
unfolding parse_http3_frames more_frames
parse-prefix [] ys u h r = absurd (omega arith)
parse-prefix (x ∷ xs) ys u h r =
    read_loop_round _ _ (length (xs ++ ys)) 0 (length (x ∷ xs)) u (ground arith) r
    ∙ ap (λ l. u >>= λ f. l >>= λ fs. returns (f ∷ fs))
        (loop_behind (x ∷ xs) ys (length (xs ++ ys)) (omega (arith, length-append xs ys)))

pub written_length : {v : ℕ} {e : List ℕ} → v < 2 ^ 62 → encode_varint v ≡ returns e → 0 < length e
written_length {v} {e} h w = (decode_varint_bounds (e ++ []) 0 (decode-written [] h w)).0

-- A buffer that begins with a frame, type and length written by encode_varint and then a body of
-- that length, is parsed as that frame by its class, followed by what the rest is parsed as; an
-- exception of the class or in the rest is the result of the whole.
pub parse_http3_frames-frame :
    (t : ℕ) (et el body rest : List ℕ)
    → t < 2 ^ 62
    → length body < 2 ^ 62
    → encode_varint t ≡ returns et
    → encode_varint (length body) ≡ returns el
    → parse_http3_frames (et ++ el ++ body ++ rest) ≡ (
        unpack_frame t (et ++ el ++ body) >>= λ f.
        parse_http3_frames rest >>= λ fs. returns (f ∷ fs))
unfolding frame
parse_http3_frames-frame t et el body rest ht hl wt wl =
    parse-prefix (et ++ el ++ body) rest (unpack_frame t (et ++ el ++ body))
      (omega (arith, length-append (et ++ el) body, length-append et el, written_length ht wt))
      (read_frame-written t (length body) et el body ht hl wt wl rest refl)

-- The DATA frames of these payloads, one after the other
unfoldable pub all_data_bytes : List (List ℕ) → Outcome (List ℕ)
all_data_bytes [] = returns []
all_data_bytes (p ∷ ps) = do b ← data_bytes 0x00 p; rest ← all_data_bytes ps; returns (b ++ rest)

encode_zero : encode_varint 0x00 ≡ returns (0x00 ∷ [])
unfolding encode_varint
encode_zero = refl

parse_nil : parse_http3_frames [] ≡ returns []
unfolding parse_http3_frames more_frames read_loop
parse_nil = refl

data_bytes-frame :
    (p : List ℕ) {el : List ℕ}
    → encode_varint (length p) ≡ returns el
    → data_bytes 0x00 p ≡ returns ((0x00 ∷ []) ++ el ++ p)
unfolding data_bytes
data_bytes-frame p w = rw (encode_zero, w)

unpack-data_bytes :
    (el p : List ℕ)
    → length p < 2 ^ 62
    → encode_varint (length p) ≡ returns el
    → unpack_frame 0x00 ((0x00 ∷ []) ++ el ++ p) ≡ returns (data_frame 0x00 (length p) p)
unfolding unpack_frame unpack_data frame
unpack-data_bytes el p h w =
    let header = header_alone 0x00 (length p) (0x00 ∷ []) el p (omega arith) h encode_zero w in
    let body = body_of_frame 0x00 (length p) (0x00 ∷ []) el p (omega arith) h encode_zero w refl in
    rw (header, body)

-- DATA frames written by Http3DataFrame.__bytes__ one after the other, with payloads shorter than
-- 2 ** 62, are parsed as DATA frames with these payloads.
pub parse_http3_frames-data_bytes :
    (ps : List (List ℕ))
    → All (λ p. length p < 2 ^ 62) ps
    → (bytes : List ℕ) × (all_data_bytes ps ≡ returns bytes)
      × (parse_http3_frames bytes ≡ returns (map (λ p. data_frame 0x00 (length p) p) ps))
unfolding all_data_bytes
parse_http3_frames-data_bytes [] h = ([], refl, parse_nil)
parse_http3_frames-data_bytes (p ∷ ps) (small, rest_small) =
    let (bytes, written, parsed) = parse_http3_frames-data_bytes ps rest_small in
    let (el, wl) = writable (length p) small in
    let one = data_bytes-frame p wl in
    (
      (0x00 ∷ []) ++ el ++ p ++ bytes,
      rw (one, written),
      parse_http3_frames-frame 0x00 (0x00 ∷ []) el p bytes (omega arith) small encode_zero wl
          ∙ rw (unpack-data_bytes el p small wl, parsed),
    )
