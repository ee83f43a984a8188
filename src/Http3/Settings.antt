-- ===== src/Http3/Settings.antt =====
-- The settings of a SETTINGS frame of dpkt/http3.py: identifiers and values up to the frame's end.
use dpkt_ng.Base.{
  ℕ, zero, suc, ◌+◌, ◌^◌, ◌<◌, ◌≤◌, true, false, List, [], ◌∷◌, ◌++◌, length, length-append, All,
  ◌≡◌, refl, sym, ap, ◌∙◌, subst, arith, inl, inr,
}
use mathlib.Core.List.{append_assoc}
use dpkt_ng.Base.Results.{Outcome, returns, ◌>>=◌}
use dpkt_ng.Base.Loops.{read_loop, read_loop_shift, read_loop_next, read_loop_done, Outcome-cases}
use dpkt_ng.Quic.Varint.{decode_varint, encode_varint}
use dpkt_ng.Quic.RoundTrip.{decode_varint-append, decode-written, writable, same_value}
use dpkt_ng.Http3.Frames.{
  settings_frame, read_setting, more_settings, read_settings, unpack_settings,
}
use dpkt_ng.Http3.Framing.{decode-behind, frame, header_alone}
use dpkt_ng.Http3.Parsing.{written_length}

read_setting-append :
    (xs ys : List ℕ) (off : ℕ)
    → read_setting (xs ++ ys) (length xs + off)
      ≡ (read_setting ys off >>= λ p. returns (p.0, length xs + p.1))
unfolding read_setting
read_setting-append xs ys off = elim (Outcome-cases (decode_varint ys off)) [
  | inr (e, r) ↦ let moved = decode_varint-append off xs ys in ground arith
  | inl (t, n, r) ↦
      let moved = decode_varint-append off xs ys in
      let moved' = decode-behind xs ys off n in ground arith
]

-- The settings behind a prefix are those of the rest.
settings_behind :
    (xs ys : List ℕ) (f : ℕ)
    → read_loop (more_settings (length xs + length ys)) (read_setting (xs ++ ys)) f (length xs)
      ≡ read_loop (more_settings (length ys)) (read_setting ys) f 0
unfolding more_settings
settings_behind xs ys f =
    ap (read_loop (more_settings (length xs + length ys)) (read_setting (xs ++ ys)) f) (omega arith)
    ∙ read_loop_shift _ _ _ _ (length xs) (λ off. ground arith) (read_setting-append xs ys) f 0

-- One identifier and value in front
setting-written :
    (s v : ℕ) (es ev rest : List ℕ)
    → s < 2 ^ 62
    → v < 2 ^ 62
    → encode_varint s ≡ returns es
    → encode_varint v ≡ returns ev
    → read_setting ((es ++ ev) ++ rest) 0 ≡ returns ((s, v), length (es ++ ev))
unfolding read_setting
setting-written s v es ev rest hs hv ws wv =
    ap (λ b. read_setting b 0) (append_assoc es ev rest) ∙ read
  where
    id_read : decode_varint (es ++ (ev ++ rest)) 0 ≡ returns (s, length es)
    id_read = decode-written (ev ++ rest) hs ws

    value_read : decode_varint (es ++ (ev ++ rest)) (0 + length es) ≡ returns (v, length ev)
    value_read =
        ap (decode_varint (es ++ (ev ++ rest))) (omega arith)
        ∙ decode_varint-append 0 es (ev ++ rest)
        ∙ decode-written rest hv wv

    size : 0 + length es + length ev ≡ length (es ++ ev)
    size = omega (arith, length-append es ev)

    read : read_setting (es ++ (ev ++ rest)) 0 ≡ returns ((s, v), length (es ++ ev))
    read = rw (id_read, value_read, size)

-- The body of a SETTINGS frame as RFC 9114 describes it
unfoldable pub settings_body : List (ℕ × ℕ) → Outcome (List ℕ)
settings_body [] = returns []
settings_body ((s, v) ∷ rest) = do
  es ← encode_varint s
  ev ← encode_varint v
  others ← settings_body rest
  returns ((es ++ ev) ++ others)

encode_four : encode_varint 0x04 ≡ returns (0x04 ∷ [])
unfolding encode_varint
encode_four = refl

none_left : more_settings 0 0 ≡ false
unfolding more_settings
none_left = refl

two_more : {n : ℕ} → 2 ≤ n → more_settings n 0 ≡ true
unfolding more_settings
two_more h = ground arith

first_setting :
    (s v : ℕ) (es ev rest : List ℕ) (f : ℕ)
    → s < 2 ^ 62
    → v < 2 ^ 62
    → encode_varint s ≡ returns es
    → encode_varint v ≡ returns ev
    → read_loop
        (more_settings (length ((es ++ ev) ++ rest)))
        (read_setting ((es ++ ev) ++ rest))
        (suc f)
        0
      ≡ (read_loop (more_settings (length rest)) (read_setting rest) f 0 >>= λ l.
          returns ((s, v) ∷ l))
first_setting s v es ev rest f hs hv ws wv =
    let xs = es ++ ev in
    let more : more_settings (length (xs ++ rest)) 0 ≡ true = two_more (
      omega (
        arith,
        length-append (es ++ ev) rest,
        length-append es ev,
        written_length hs ws,
        written_length hv wv,
      )) in
    read_loop_next _ _ f 0 more (setting-written s v es ev rest hs hv ws wv)
    ∙ ap
        (λ n. read_loop (more_settings n) (read_setting (xs ++ rest)) f (length xs) >>= λ l.
          returns ((s, v) ∷ l))
        (length-append xs rest)
    ∙ ap (λ r. r >>= λ l. returns ((s, v) ∷ l)) (settings_behind xs rest f)

written_setting_size :
    {s v : ℕ} (es ev rest : List ℕ)
    → s < 2 ^ 62
    → v < 2 ^ 62
    → encode_varint s ≡ returns es
    → encode_varint v ≡ returns ev
    → length rest + 2 ≤ length ((es ++ ev) ++ rest)
written_setting_size es ev rest hs hv ws wv = omega (
  arith,
  length-append (es ++ ev) rest,
  length-append es ev,
  written_length hs ws,
  written_length hv wv,
)

next_setting :
    (s v : ℕ) (es ev rest : List ℕ) (ps : List (ℕ × ℕ))
    → s < 2 ^ 62
    → v < 2 ^ 62
    → encode_varint s ≡ returns es
    → encode_varint v ≡ returns ev
    → ((f : ℕ)
        → length rest ≤ f
        → read_loop (more_settings (length rest)) (read_setting rest) f 0 ≡ returns ps)
    → (f : ℕ) → length ((es ++ ev) ++ rest) ≤ f
    → read_loop
        (more_settings (length ((es ++ ev) ++ rest)))
        (read_setting ((es ++ ev) ++ rest))
        f
        0
      ≡ returns ((s, v) ∷ ps)
next_setting s v es ev rest ps hs hv ws wv read zero p =
    absurd (omega (arith, written_setting_size es ev rest hs hv ws wv))
next_setting s v es ev rest ps hs hv ws wv read (suc f) p =
    first_setting s v es ev rest f hs hv ws wv
    ∙ ap (λ r. r >>= λ l. returns ((s, v) ∷ l))
        (read f (omega (arith, written_setting_size es ev rest hs hv ws wv)))

settings_read :
    (ps : List (ℕ × ℕ))
    → All (λ p. (p.0 < 2 ^ 62) × (p.1 < 2 ^ 62)) ps
    → (body : List ℕ) × (settings_body ps ≡ returns body)
      × ((f : ℕ)
          → length body ≤ f
          → read_loop (more_settings (length body)) (read_setting body) f 0 ≡ returns ps)
unfolding settings_body
settings_read [] h = ([], refl, λ f p. read_loop_done _ _ f 0 none_left)
settings_read ((s, v) ∷ rest) ((hs, hv), small) =
    let (body, written, read) = settings_read rest small in
    let (es, ws) = writable s hs in
    let (ev, wv) = writable v hv in
    ((es ++ ev) ++ body, rw (ws, wv, written), next_setting s v es ev body rest hs hv ws wv read)

-- A SETTINGS frame with these identifiers and values, all below 2 ** 62, is unpacked to them in order.
pub unpack_settings-settings_body :
    (ps : List (ℕ × ℕ)) (body el : List ℕ)
    → All (λ p. (p.0 < 2 ^ 62) × (p.1 < 2 ^ 62)) ps
    → settings_body ps ≡ returns body
    → length body < 2 ^ 62
    → encode_varint (length body) ≡ returns el
    → unpack_settings ((0x04 ∷ []) ++ el ++ body) ≡ returns (settings_frame 0x04 (length body) ps)
unfolding unpack_settings read_settings frame
unpack_settings-settings_body ps body el small w h wl =
    let header =
      header_alone 0x04 (length body) (0x04 ∷ []) el body (omega arith) h encode_four wl in
    let (body', w', read) = settings_read ps small in
    let same : body' ≡ body = same_value (sym w' ∙ w) in
    let prefix = (0x04 ∷ []) ++ el in
    let enough : length body ≤ length ((0x04 ∷ []) ++ el ++ body) =
      omega (arith, length-append prefix body) in
    let there =
      subst
        (λ b.
          (f : ℕ)
          → length b ≤ f
          → read_loop (more_settings (length b)) (read_setting b) f 0 ≡ returns ps)
        same read (length (prefix ++ body)) enough in
    let at : 1 + length el ≡ length prefix = omega arith in
    let settings : read_settings (prefix ++ body) (1 + length el) (1 + length el + length body)
        ≡ returns ps =
      ap (λ n. read_settings (prefix ++ body) n (n + length body)) at
      ∙ settings_behind prefix body (length (prefix ++ body))
      ∙ there in
    ap
      (λ r. r >>= λ h.
        read_settings (prefix ++ body) h.2 (h.2 + h.1) >>= λ l. returns (settings_frame h.0 h.1 l))
      header
    ∙ ap (λ r. r >>= λ l. returns (settings_frame 0x04 (length body) l)) settings
