-- ===== src/Tcp/Header/RoundTrip.antt =====
-- TCP of dpkt/tcp.py writes the bytes that it was unpacked from, and refuses what it cannot unpack.
use dpkt_ng.Base.{
  ℕ, zero, suc, drop_all, ap₂, ◌+◌, ◌-◌, ◌*◌, ◌/◌, ◌<◌, ◌≤◌, List, [], ◌∷◌, ◌++◌, ltb, length, take,
  drop, take-append-drop, All, Bool-cases, ◌⊎◌, inl, inr, ◌≡◌, ◌≢◌, sym, ap, ◌∙◌, arith,
}
use native.Mathlib.Decide.{dec_lt}
use mathlib.Core.List.{append_assoc}
use dpkt_ng.Base.Bytes.{slice}
use dpkt_ng.Base.Results.{Error, returns, raises, need_data, unpack_error, ◌>>=◌}
use dpkt_ng.Packet.Header.{Packet, hdr_len, field_values, unpack, init, init_failure}
use dpkt_ng.Packet.Header.RoundTrip.{pack_hdr-field_values}
use dpkt_ng.Tcp.Header.{Tcp, tcp_sizes, off_flags, unpack_options, unpack_tcp, new_tcp, tcp_bytes}

-- The two ways in which a buffer is refused
pub new_tcp_short : (buf : List ℕ) → length buf < 20 → new_tcp buf ≡ raises need_data
unfolding new_tcp init unpack_tcp unpack init_failure hdr_len
new_tcp_short buf h = ground arith

drop_sum : (n m : ℕ) (bs : List ℕ) → drop (n + m) bs ≡ drop m (drop n bs)
drop_sum zero m bs = ap (λ k. drop k bs) (omega arith)
drop_sum (suc n) m [] = drop_all (suc n + m) [] (omega arith) ∙ sym (drop_all m [] (omega arith))
drop_sum (suc n) m (b ∷ bs) = ap (λ k. drop k (b ∷ bs)) (suc_sum n m) ∙ drop_sum n m bs
  where
    suc_sum : (n m : ℕ) → suc n + m ≡ suc (n + m)
    suc_sum n m = omega arith

parts : (n : ℕ) (buf : List ℕ) → take 20 buf ++ slice 20 (20 + n) buf ++ drop (20 + n) buf ≡ buf
parts n buf =
    append_assoc (take 20 buf) (slice 20 (20 + n) buf) (drop (20 + n) buf)
    ∙ ap₂ (λ k d. take 20 buf ++ (take k (drop 20 buf) ++ d)) (omega arith) (drop_sum 20 n buf)
    ∙ ap (λ l. take 20 buf ++ l) (take-append-drop n (drop 20 buf))
    ∙ take-append-drop 20 buf

abbrev parsed : List ℕ → ℕ → Tcp
parsed buf n = record {
  fields = field_values tcp_sizes buf;
  opts = slice 20 (20 + n) buf;
  data' = drop (20 + n) buf;
}

parsed_bytes :
    (buf : List ℕ) (n : ℕ)
    → All (λ b. b < 256) buf
    → 20 ≤ length buf
    → tcp_bytes (parsed buf n) ≡ returns buf
unfolding tcp_bytes hdr_len
parsed_bytes buf n h l =
    ap (λ r. r >>= λ header. returns (header ++ slice 20 (20 + n) buf ++ drop (20 + n) buf))
      (pack_hdr-field_values tcp_sizes buf h l)
    ∙ ap returns (parts n buf)

abbrev header_part : List ℕ → Packet
header_part buf = record { fields = field_values tcp_sizes buf; data' = drop 20 buf }

abbrev header_length : List ℕ → ℕ
header_length buf = off_flags (field_values tcp_sizes buf) / 4096 * 4

-- A header that is long enough is refused if the length that it states is below 20.
long_enough :
    (buf : List ℕ)
    → 20 ≤ length buf
    → new_tcp buf ≡ init tcp_sizes buf (unpack_options buf (header_part buf))
unfolding new_tcp unpack_tcp unpack hdr_len
long_enough buf h = ground arith

options_cases :
    (buf : List ℕ)
    → (unpack_options buf (header_part buf) ≡ raises unpack_error)
      ⊎ (unpack_options buf (header_part buf) ≡ returns (parsed buf (header_length buf - 20)))
unfolding unpack_options
options_cases buf = elim (Bool-cases (ltb (header_length buf) 20)) [
  | inl low ↦ inl (rw low)
  | inr fits ↦ inr (rw fits)
]

-- What TCP(buf) is where it is anything
new_tcp-parsed :
    (buf : List ℕ) (t : Tcp)
    → new_tcp buf ≡ returns t
    → (20 ≤ length buf) × (n : ℕ) × (t ≡ parsed buf n)
unfolding init
new_tcp-parsed buf t h = elim (dec_lt (length buf) 20) [
  | yes short ↦ let refused = new_tcp_short buf short in absurd (failed _ t (sym refused ∙ h))
  | no long ↦
      let there = long_enough buf (omega arith) in
      elim (options_cases buf) [
        | inl r ↦ absurd (failed _ t (sym (there ∙ ap (init tcp_sizes buf) r) ∙ h))
        | inr r ↦ (
          omega arith,
          header_length buf - 20,
          same_value (sym h ∙ there ∙ ap (init tcp_sizes buf) r),
        )
      ]
]
  where
    failed : (e : Error) (t : Tcp) → raises e ≢ returns t
    failed e t h = cc

    same_value : {a b : Tcp} → returns a ≡ returns b → a ≡ b
    same_value h = cc

-- For bytes, TCP(buf) written by bytes() is buf: header, options and data are taken apart without loss.
pub tcp_bytes-new_tcp :
    (buf : List ℕ) (t : Tcp)
    → All (λ b. b < 256) buf
    → new_tcp buf ≡ returns t
    → tcp_bytes t ≡ returns buf
tcp_bytes-new_tcp buf t h e =
    let (l, n, same) = new_tcp-parsed buf t e in ap tcp_bytes same ∙ parsed_bytes buf n h l
