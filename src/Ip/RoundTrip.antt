-- ===== src/Ip/RoundTrip.antt =====
-- What bytes(IP) of dpkt/ip.py writes, IP(buf) reads.
use mathlib.Core.List.{append_assoc}
use dpkt_ng.Base.{
  ℕ, ◌+◌, ◌-◌, ◌^◌, ◌<◌, ◌≤◌, ◌==◌, ◌≡◌, refl, sym, ap, ap₂, ◌∙◌, false, List, [], ◌∷◌, ◌++◌, ltb,
  if◌then◌else◌, length, length-append, take, drop, replicate, arith,
}
use dpkt_ng.Base.Bytes.{slice, slice_behind, take-append_length}
use dpkt_ng.Base.Results.{returns}
use dpkt_ng.Packet.Header.{hdr_len, unpack, init}
use dpkt_ng.Packet.Struct.Fields.{
  Fits, nothing, field, fields_bytes, length-fields_bytes, pack_hdr-Fits, unpack-Fits,
}
use dpkt_ng.Ip.{
  Transport, Ip, ip_sizes, four_bytes, data_bytes, parse_data, data_of, header_size, ip_fields,
  ip_unpack, ip_init, ip_hdr,
}

four_bytes_four : (s : List ℕ) → length s ≡ 4 → four_bytes s ≡ s
unfolding four_bytes
four_bytes_four s h =
    ap (λ n. take n (s ++ replicate 4 0)) (sym h) ∙ take-append_length s (replicate 4 0)

not_less : (n m : ℕ) → m ≤ n → ltb n m ≡ false
not_less n m h = ground arith

not_zero : (n : ℕ) → 0 < n → (n == 0) ≡ false
not_zero n h = ground arith

module _ {T : Type 0} (t : Transport T) where
  -- A packet whose numbers fit, with a header as long as it says, and with data of which d are the bytes: they
  -- are parsed to the data again, and len counts them.
  pub record IsIp (ip : Ip T) (d : List ℕ) : Type 0 where
    pub v_hl_fits : ip.v_hl < 2 ^ 8
    pub tos_fits : ip.tos < 2 ^ 8
    pub len_fits : ip.len < 2 ^ 16
    pub id_fits : ip.id < 2 ^ 16
    pub flags_fit : ip.flags_offset < 2 ^ 16
    pub ttl_fits : ip.ttl < 2 ^ 8
    pub p_fits : ip.p < 2 ^ 8
    pub sum_fits : ip.sum < 2 ^ 16
    pub four_src : length ip.src ≡ 4
    pub four_dst : length ip.dst ≡ 4
    pub hl : header_size ip.v_hl ≡ 20 + length ip.opts
    pub whole : ip.len ≡ 20 + length ip.opts + length d
    pub written : data_bytes t ip.data' ≡ returns d
    pub parsed : parse_data t ip.p ip.flags_offset d ≡ returns ip.data'

  abbrev pub values : Ip T → List ℕ
  values ip = ip.v_hl ∷ ip.tos ∷ ip.len ∷ ip.id ∷ ip.flags_offset ∷ ip.ttl ∷ ip.p ∷ ip.sum ∷ []

  values-Fits : (ip : Ip T) (d : List ℕ) → IsIp ip d → Fits ip_sizes (values ip)
  values-Fits ip d g = field g.v_hl_fits (
      field g.tos_fits (
        field g.len_fits (
          field g.id_fits
            (field g.flags_fit (field g.ttl_fits (field g.p_fits (field g.sum_fits nothing)))))))

  -- The header without options
  abbrev pub front : Ip T → List ℕ
  front ip = fields_bytes ip_sizes (values ip) ++ (ip.src ++ ip.dst)

  pub ip_hdr-front : (ip : Ip T) (d : List ℕ) → IsIp ip d → ip_hdr t ip ≡ returns (front ip)
  unfolding ip_hdr
  ip_hdr-front ip d g = rw (
    pack_hdr-Fits (values-Fits ip d g),
    four_bytes_four ip.src g.four_src,
    four_bytes_four ip.dst g.four_dst,
  )

  pub length-front : (ip : Ip T) (d : List ℕ) → IsIp ip d → length (front ip) ≡ 20
  unfolding hdr_len
  length-front ip d g = omega (
    arith,
    length-fields_bytes (values-Fits ip d g),
    g.four_src,
    g.four_dst,
    length-append (fields_bytes ip_sizes (values ip)) (ip.src ++ ip.dst),
    length-append ip.src ip.dst,
  )

  -- What ip_unpack makes of the parts that it reads
  ip_read :
      (ip : Ip T) (buf rest d : List ℕ)
      → ltb (length buf) 20 ≡ false
      → unpack ip_sizes buf ≡ returns record { fields = values ip; data' = rest }
      → take 4 rest ≡ ip.src
      → slice 4 8 rest ≡ ip.dst
      → ltb (header_size ip.v_hl) 20 ≡ false
      → slice 20 (20 + (header_size ip.v_hl - 20)) buf ≡ ip.opts
      → data_of (header_size ip.v_hl - 20) ip.len buf ≡ d
      → parse_data t ip.p ip.flags_offset d ≡ returns ip.data'
      → ip_unpack t buf ≡ returns ip
  unfolding ip_unpack ip_fields
  ip_read ip buf rest d l u s a h o e p = rw (l, u, h, e, p, s, a, o)

  -- The packet as bytes, and what follows it in the buffer
  abbrev pub wire : Ip T → List ℕ → List ℕ → List ℕ
  wire ip d trailer = front ip ++ (ip.opts ++ (d ++ trailer))

  module _ (ip : Ip T) (d trailer : List ℕ) (g : IsIp ip d) where
    addresses : List ℕ
    addresses = ip.src ++ (ip.dst ++ (ip.opts ++ (d ++ trailer)))

    numbers_first : wire ip d trailer ≡ fields_bytes ip_sizes (values ip) ++ addresses
    unfolding addresses
    numbers_first =
        append_assoc (fields_bytes ip_sizes (values ip)) (ip.src ++ ip.dst)
          (ip.opts ++ (d ++ trailer))
        ∙ ap (λ b. fields_bytes ip_sizes (values ip) ++ b)
            (append_assoc ip.src ip.dst (ip.opts ++ (d ++ trailer)))

    long_enough : ltb (length (wire ip d trailer)) 20 ≡ false
    long_enough =
        not_less (length (wire ip d trailer)) 20
          (omega (arith, length-front ip d g, length-append (front ip) (ip.opts ++ (d ++ trailer))))

    source_read : take 4 addresses ≡ ip.src
    unfolding addresses
    source_read = ap (λ n. take n addresses) (sym g.four_src) ∙ take-append_length ip.src _

    destination_read : slice 4 8 addresses ≡ ip.dst
    unfolding addresses
    destination_read =
        ap (λ n. slice n (n + 4) addresses) (sym g.four_src)
        ∙ slice_behind ip.src ip.dst _ g.four_dst

    options_read : slice 20 (20 + (header_size ip.v_hl - 20)) (wire ip d trailer) ≡ ip.opts
    options_read =
        ap₂ (λ i n. slice i (i + n) (wire ip d trailer)) (sym (length-front ip d g))
          (omega (arith, g.hl))
        ∙ slice_behind (front ip) ip.opts (d ++ trailer) refl

    data_read : data_of (header_size ip.v_hl - 20) ip.len (wire ip d trailer) ≡ d
    unfolding data_of
    data_read =
        ap
          (λ b.
            if b
            then drop (20 + (header_size ip.v_hl - 20)) (wire ip d trailer)
            else slice (20 + (header_size ip.v_hl - 20)) ip.len (wire ip d trailer))
          (not_zero ip.len (omega (arith, g.whole)))
        ∙ ap₂ (λ i j. slice i j (wire ip d trailer)) (omega (arith, at_data, g.hl))
            (omega (arith, at_data, g.whole))
        ∙ ap (slice (length (front ip ++ ip.opts)) (length (front ip ++ ip.opts) + length d))
            (sym (append_assoc (front ip) ip.opts (d ++ trailer)))
        ∙ slice_behind (front ip ++ ip.opts) d trailer refl
      where
        at_data : length (front ip ++ ip.opts) ≡ 20 + length ip.opts
        at_data = omega (arith, length-front ip d g, length-append (front ip) ip.opts)

    -- Such a packet is read from its bytes, whatever follows them.
    pub ip_init-wire : ip_init t (wire ip d trailer) ≡ returns ip
    unfolding ip_init init
    ip_init-wire = ap (init (1 ∷ 1 ∷ 2 ∷ 2 ∷ 2 ∷ 1 ∷ 1 ∷ 2 ∷ 4 ∷ 4 ∷ []) (wire ip d trailer)) (
        ip_read ip (wire ip d trailer) addresses d long_enough
          (ap (unpack ip_sizes) numbers_first ∙ unpack-Fits addresses (values-Fits ip d g))
          source_read destination_read (not_less (header_size ip.v_hl) 20 (omega (arith, g.hl)))
          options_read data_read g.parsed)
