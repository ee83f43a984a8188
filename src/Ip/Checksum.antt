-- ===== src/Ip/Checksum.antt =====
-- The header checksum that bytes(IP) of dpkt/ip.py sets.
use mathlib.Core.List.{append_assoc}
use dpkt_ng.Base.{
  ℕ, ◌+◌, ◌/◌, ◌%◌, ◌^◌, ◌<◌, ◌≤◌, ◌==◌, ◌≡◌, refl, sym, ap, ap₂, ◌∙◌, true, List, [], ◌∷◌, ◌++◌,
  All, length, length-append, take, arith,
}
use dpkt_ng.Base.Bytes.{be_bytes, take-append_length}
use dpkt_ng.Base.Results.{returns}
use dpkt_ng.Packet.Checksum.{ntole, in_cksum_done, in_cksum}
use dpkt_ng.Packet.Checksum.Verify.{in_cksum_verifies}
use dpkt_ng.Ip.{
  Transport, Payload, Ip, header_size, ip_len, ip_init, ip_hdr, sum_data, set_sums, ip_bytes,
}
use dpkt_ng.Ip.RoundTrip.{IsIp, front, ip_hdr-front, ip_init-wire, length-front}

in_cksum_lt : (buf : List ℕ) → in_cksum buf < 2 ^ 16
unfolding in_cksum in_cksum_done ntole
in_cksum_lt buf = omega arith

two_bytes : (v : ℕ) → be_bytes 2 v ≡ v / 256 ∷ v % 256 ∷ []
unfolding be_bytes
two_bytes v = ap (λ x. v / 256 ∷ x ∷ []) (omega arith)

one_byte : (v : ℕ) → be_bytes 1 v ≡ v ∷ []
unfolding be_bytes
one_byte v = ap (λ x. x ∷ []) (omega arith)

abbrev pub IsBytes : List ℕ → Type 0
IsBytes bs = All (λ b. b < 256) bs

module _ {T : Type 0} (t : Transport T) where
  -- What stands before the checksum
  abbrev before : Ip T → List ℕ
  before ip =
      ip.v_hl
      ∷ ip.tos
      ∷ (ip.len / 256)
      ∷ (ip.len % 256)
      ∷ (ip.id / 256)
      ∷ (ip.id % 256)
      ∷ (ip.flags_offset / 256)
      ∷ (ip.flags_offset % 256)
      ∷ ip.ttl
      ∷ ip.p
      ∷ []

  front-before :
      (ip : Ip T)
      → front t ip ++ ip.opts
        ≡ before ip ++ ((ip.sum / 256) ∷ (ip.sum % 256) ∷ (ip.src ++ ip.dst ++ ip.opts))
  front-before ip =
      rw
        (
          one_byte ip.v_hl,
          one_byte ip.tos,
          two_bytes ip.len,
          two_bytes ip.id,
          two_bytes ip.flags_offset,
          one_byte ip.ttl,
          one_byte ip.p,
          two_bytes ip.sum,
        )
        refl

  before-IsBytes : (ip : Ip T) (d : List ℕ) → IsIp t ip d → IsBytes (before ip)
  before-IsBytes ip d g = (
    g.v_hl_fits,
    (
      g.tos_fits,
      (
        omega (arith, g.len_fits),
        (
          omega arith,
          (
            omega (arith, g.id_fits),
            (
              omega arith,
              (omega (arith, g.flags_fit), (omega arith, (g.ttl_fits, (g.p_fits, tt)))),
            ),
          ),
        ),
      ),
    ),
  )

  header_verifies :
      (ip : Ip T) (d : List ℕ)
      → IsIp t ip d
      → IsBytes (ip.src ++ ip.dst ++ ip.opts)
      → ip.sum ≡ in_cksum (front t (record ip { sum = 0 }) ++ ip.opts)
      → length (ip.opts) ≤ 40
      → in_cksum (front t ip ++ ip.opts) ≡ 0
  header_verifies ip d g b e l =
      let zeroed = front-before (record ip { sum = 0 }) in
      let c = in_cksum (before ip ++ (0 ∷ 0 ∷ (ip.src ++ ip.dst ++ ip.opts))) in
      ap in_cksum (front-before ip)
      ∙ ap (λ s. in_cksum (before ip ++ ((s / 256) ∷ (s % 256) ∷ (ip.src ++ ip.dst ++ ip.opts))))
          (e ∙ ap in_cksum zeroed)
      ∙ in_cksum_verifies 5 (before ip) (ip.src ++ ip.dst ++ ip.opts) refl (before-IsBytes ip d g) b
          (omega (
            arith,
            l,
            g.four_src,
            g.four_dst,
            length-append (ip.src ++ ip.dst) ip.opts,
            length-append ip.src ip.dst,
          ))

  -- A packet without a checksum whose data are bytes, or have one already, and whose len is to be set
  pub record IsUnsummed (ip : Ip T) (data' : Payload T) (d : List ℕ) : Type 0 where
    pub no_sum : ip.sum ≡ 0
    pub data_summed : sum_data t (record ip { len = ip_len t ip }) ≡ returns data'
    pub packet : IsIp t (record ip { len = ip_len t ip; data' = data' }) d
    pub bytes : IsBytes (ip.src ++ ip.dst ++ ip.opts)
    pub few_options : length ip.opts ≤ 40

  module _ (ip : Ip T) (data' : Payload T) (d : List ℕ) (u : IsUnsummed ip data' d) where
    -- The packet as it is once it has been written
    abbrev summed : Ip T
    summed = record ip {
      len = ip_len t ip;
      sum = in_cksum (front t (record ip { len = ip_len t ip }) ++ ip.opts);
      data' = data';
    }

    summed-IsIp : IsIp t summed d
    summed-IsIp = record {
      v_hl_fits = u.packet.v_hl_fits;
      tos_fits = u.packet.tos_fits;
      len_fits = u.packet.len_fits;
      id_fits = u.packet.id_fits;
      flags_fit = u.packet.flags_fit;
      ttl_fits = u.packet.ttl_fits;
      p_fits = u.packet.p_fits;
      sum_fits = in_cksum_lt (front t (record ip { len = ip_len t ip }) ++ ip.opts);
      four_src = u.packet.four_src;
      four_dst = u.packet.four_dst;
      hl = u.packet.hl;
      whole = u.packet.whole;
      written = u.packet.written;
      parsed = u.packet.parsed;
    }

    set_sums-summed : set_sums t ip ≡ returns summed
    unfolding set_sums ip_hdr
    set_sums-summed =
        let ip' : Ip T = record ip { len = ip_len t ip } in
        let zero : (ip.sum == 0) ≡ true = ap (λ n. n == 0) u.no_sum in
        let hdr : ip_hdr t ip' ≡ returns (front t ip') =
          ip_hdr-front t (record ip' { data' = data' }) d u.packet in
        rw (zero, hdr, u.data_summed) refl

    summed_verifies : in_cksum (front t summed ++ ip.opts) ≡ 0
    summed_verifies =
        header_verifies summed d summed-IsIp u.bytes
          (ap (λ n. in_cksum (front t (record ip { len = ip_len t ip; sum = n }) ++ ip.opts))
            u.no_sum)
          u.few_options

    -- A packet without a checksum is written with its length and the checksum of its header set; it is read
    -- again, whatever follows its bytes, and in_cksum of the header in these bytes is 0.
    pub ip_bytes-ip_init :
        (trailer : List ℕ)
        → (buf : List ℕ) × (ip' : Ip T) × (ip_bytes t ip ≡ returns (buf, ip'))
          × (ip_init t (buf ++ trailer) ≡ returns ip')
          × (ip' ≡ record ip { len = ip_len t ip; sum = ip'.sum; data' = data' })
          × (in_cksum (take (header_size ip.v_hl) buf) ≡ 0)
    unfolding ip_bytes
    ip_bytes-ip_init trailer = (
      front t summed ++ (ip.opts ++ d),
      summed,
      rw (set_sums-summed, ip_hdr-front t summed d summed-IsIp, u.packet.written),
      ap (ip_init t) (
            append_assoc (front t summed) (ip.opts ++ d) trailer
            ∙ ap (λ b. front t summed ++ b) (append_assoc ip.opts d trailer))
          ∙ ip_init-wire t summed d trailer summed-IsIp,
      refl,
      ap in_cksum (header_taken) ∙ summed_verifies,
    )
      where
        header_taken :
            take (header_size ip.v_hl) (front t summed ++ (ip.opts ++ d))
            ≡ front t summed ++ ip.opts
        header_taken =
            ap₂ take
              (u.packet.hl
                ∙ ap (λ n. n + length ip.opts) (sym (length-front t summed d summed-IsIp))
                ∙ sym (length-append (front t summed) ip.opts))
              (sym (append_assoc (front t summed) ip.opts d))
            ∙ take-append_length (front t summed ++ ip.opts) d
