-- ===== src/Http3/Termination.antt =====
-- The loops of dpkt/http3.py go forward and end.
use dpkt_ng.Base.{ℕ, ◌+◌, ◌<◌, ◌≤◌, List, length, ◌≡◌, ◌≢◌, refl, ◌⊎◌, inl, inr, arith}
use dpkt_ng.Base.Bytes.{slice}
use dpkt_ng.Base.Results.{Error, Outcome, returns, raises, stuck, bind_inversion}
use dpkt_ng.Base.Loops.{Outcome-cases, Advances, NeverStuck, read_loop-NeverStuck}
use dpkt_ng.Quic.Varint.{decode_word, decode_tagged, decode_varint}
use dpkt_ng.Quic.Bounds.{decode_varint_bounds}
use dpkt_ng.Http3.Frames.{
  frame_header, unpack_plain, unpack_data, unpack_headers, read_setting, read_settings,
  unpack_settings, unpack_goaway, unpack_push_promise, unpack_cancel_push, unpack_max_push_id,
  unpack_frame, read_frame, parse_http3_frames,
}

pub decode_varint-NeverStuck : (buf : List ℕ) → NeverStuck (decode_varint buf)
unfolding decode_varint decode_tagged decode_word
decode_varint-NeverStuck buf off h = ground arith

pub frame_header-cases :
    (r : Outcome (ℕ × ℕ × ℕ))
    → ((t : ℕ) × (l : ℕ) × (body : ℕ) × (r ≡ returns (t, l, body))) ⊎ ((e : Error) × (r ≡ raises e))
frame_header-cases (returns (t, l, body)) = inl (t, l, body, refl)
frame_header-cases (raises e) = inr (e, refl)

frame_header-NeverStuck : (buf : List ℕ) → NeverStuck (frame_header buf)
unfolding frame_header
frame_header-NeverStuck buf off h = elim (Outcome-cases (decode_varint buf off)) [
  | inr (e, r) ↦ let ns = decode_varint-NeverStuck buf off in ground arith
  | inl (t, n, r) ↦ let ns = decode_varint-NeverStuck buf (off + n) in ground arith
]

pub frame_header_bounds :
    (buf : List ℕ) (off : ℕ) {t l body : ℕ}
    → frame_header buf off ≡ returns (t, l, body)
    → (off + 1 < body) × (body ≤ length buf)
unfolding frame_header
frame_header_bounds buf off h =
    let ((t, n), r, h1) = bind_inversion (decode_varint buf off) _ h in
    let ((l, m), q, h2) = bind_inversion (decode_varint buf (off + n)) _ h1 in
    ground (arith, decode_varint_bounds buf off r, decode_varint_bounds buf (off + n) q)

read_setting-Advances : (buf : List ℕ) → Advances (read_setting buf) (length buf)
unfolding read_setting
read_setting-Advances buf off a off' h =
    let ((s, n), r, h1) = bind_inversion (decode_varint buf off) _ h in
    let ((v, m), q, h2) = bind_inversion (decode_varint buf (off + n)) _ h1 in
    ground (arith, decode_varint_bounds buf off r, decode_varint_bounds buf (off + n) q)

read_setting-NeverStuck : (buf : List ℕ) → NeverStuck (read_setting buf)
unfolding read_setting
read_setting-NeverStuck buf off h = elim (Outcome-cases (decode_varint buf off)) [
  | inr (e, r) ↦ let ns = decode_varint-NeverStuck buf off in ground arith
  | inl (t, n, r) ↦ let ns = decode_varint-NeverStuck buf (off + n) in ground arith
]

read_settings-NeverStuck : (buf : List ℕ) (off end : ℕ) → read_settings buf off end ≢ raises stuck
unfolding read_settings
read_settings-NeverStuck buf off end =
    read_loop-NeverStuck _ _ (length buf) (read_setting-Advances buf) (read_setting-NeverStuck buf)
      _ off (omega arith)

unpack_frame-NeverStuck : (ftype : ℕ) (buf : List ℕ) → unpack_frame ftype buf ≢ raises stuck
unfolding unpack_frame unpack_plain unpack_data unpack_headers unpack_settings unpack_goaway
    unpack_push_promise unpack_cancel_push unpack_max_push_id
unpack_frame-NeverStuck ftype buf h = elim (frame_header-cases (frame_header buf 0)) [
  | inr (e, r) ↦ let ns = frame_header-NeverStuck buf 0 in ground arith
  | inl (t, l, body, r) ↦
      let ns = decode_varint-NeverStuck buf body in
      let ns' = read_settings-NeverStuck buf body (body + l) in ground arith
]

pub read_frame-Advances : (buf : List ℕ) → Advances (read_frame buf) (length buf)
unfolding read_frame
read_frame-Advances buf off a off' h =
    let ((t, l, body), r, h1) = bind_inversion (frame_header buf off) _ h in
    let (f, q, h2) = bind_inversion (unpack_frame t (slice off (body + l) buf)) _ h1 in
    ground (arith, frame_header_bounds buf off r)

read_frame-NeverStuck : (buf : List ℕ) → NeverStuck (read_frame buf)
unfolding read_frame
read_frame-NeverStuck buf off h = elim (frame_header-cases (frame_header buf off)) [
  | inr (e, r) ↦ let ns = frame_header-NeverStuck buf off in ground arith
  | inl (t, l, body, r) ↦
      let ns = unpack_frame-NeverStuck t (slice off (body + l) buf) in ground arith
]

-- parse_http3_frames ends for every buffer: with the rounds that the buffer's length allows it
-- returns frames or raises, and does not run out of rounds.
pub parse_http3_frames_ends : (buf : List ℕ) → parse_http3_frames buf ≢ raises stuck
unfolding parse_http3_frames
parse_http3_frames_ends buf =
    read_loop-NeverStuck _ _ (length buf) (read_frame-Advances buf) (read_frame-NeverStuck buf) _ 0
      (omega arith)
