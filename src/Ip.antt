-- ===== src/Ip.antt =====
-- class IP of dpkt/ip.py and class UDP of dpkt/udp.py. What IP calls of the packet that it carries is an
-- interface, since set_proto may register any class; Ip.Transports fills it with UDP and TCP.
pub mod Transports
pub mod RoundTrip
pub mod Checksum
mod Tests
use Prim.Native.Nat.{bit_and}
use dpkt_ng.Base.{
  ℕ, ◌+◌, ◌-◌, ◌*◌, ◌==◌, Bool, true, false, ◌&&◌, ◌||◌, not, Option, none, some, List, [], ◌∷◌,
  ◌++◌, ltb, if◌then◌else◌, length, take, drop, replicate, get_or,
}
use dpkt_ng.Base.Bytes.{slice}
use dpkt_ng.Base.Results.{
  Error, Outcome, returns, raises, need_data, unpack_error, pack_error, struct_error, index_error,
  unicode_error, attribute_error, type_error, stuck, ◌>>=◌,
}
use dpkt_ng.Packet.Header.{Packet, unpack, init, pack_hdr}
use dpkt_ng.Packet.Struct.{struct_pack}
use dpkt_ng.Packet.Checksum.{in_cksum_add, in_cksum_done, in_cksum}

-- _protosw, and what the classes in it do: the parser by protocol number, bytes(), len() and the attribute sum
pub record Transport (T : Type 0) : Type 0 where
  pub protosw : ℕ → Option (List ℕ → Outcome T)
  pub bytes : T → Outcome (List ℕ)
  pub size : T → ℕ
  pub sum : T → ℕ
  pub set_sum : ℕ → T → T

-- IP.data: bytes, or a packet
pub data Payload (T : Type 0) : Type 0 where
  raw : List ℕ → Payload T
  carried : T → Payload T

pub record Ip (T : Type 0) : Type 0 where
  pub v_hl : ℕ
  pub tos : ℕ
  pub len : ℕ
  pub id : ℕ
  pub flags_offset : ℕ
  pub ttl : ℕ
  pub p : ℕ
  pub sum : ℕ
  pub src : List ℕ
  pub dst : List ℕ
  pub opts : List ℕ
  pub data' : Payload T

-- The numbers of __hdr__; src and dst, '4s', stand behind them.
abbrev pub ip_sizes : List ℕ
ip_sizes = 1 ∷ 1 ∷ 2 ∷ 2 ∷ 2 ∷ 1 ∷ 1 ∷ 2 ∷ []

-- '4s' of struct.pack cuts, or fills with zeros.
unfoldable pub four_bytes : List ℕ → List ℕ
four_bytes s = take 4 (s ++ replicate 4 0)

-- The bit fields of __bit_fields__ that the methods read
unfoldable pub offset : ℕ → ℕ
offset flags_offset = bit_and flags_offset 0x1fff

-- IP_MF | IP_OFFMASK
unfoldable pub is_fragment : ℕ → Bool
is_fragment flags_offset = not (bit_and flags_offset 0x3fff == 0)

-- The bytes behind the options, up to len where it is not 0
unfoldable pub data_of : ℕ → ℕ → List ℕ → List ℕ
data_of ol len buf = if len == 0 then drop (20 + ol) buf else slice (20 + ol) len buf

-- (self._v_hl & 0xf) << 2
unfoldable pub header_size : ℕ → ℕ
header_size v_hl = bit_and v_hl 0xf * 4

-- IP.set_proto
unfoldable pub set_proto {ℓ} : {P : Type ℓ} → ℕ → P → (ℕ → Option P) → ℕ → Option P
set_proto p pktclass protosw q = if q == p then some pktclass else protosw q

module _ {T : Type 0} (t : Transport T) where
  unfoldable pub data_size : Payload T → ℕ
  data_size (raw bytes) = length bytes
  data_size (carried x) = t.size x

  -- bytes(self.data)
  unfoldable pub data_bytes : Payload T → Outcome (List ℕ)
  data_bytes (raw bytes) = returns bytes
  data_bytes (carried x) = t.bytes x

  -- len(ip)
  unfoldable pub ip_len : Ip T → ℕ
  ip_len ip = 20 + length ip.opts + data_size ip.data'

  -- IP(**kwargs) without len
  unfoldable pub ip_new : Ip T → Ip T
  ip_new ip = record ip { len = ip_len ip }

  -- except (KeyError, UnpackError): the data stay bytes. NeedData is an UnpackError.
  unfoldable pub or_raw : List ℕ → Outcome T → Outcome (Payload T)
  or_raw buf (returns x) = returns (carried x)
  or_raw buf (raises need_data) = returns (raw buf)
  or_raw buf (raises unpack_error) = returns (raw buf)
  or_raw buf (raises pack_error) = raises pack_error
  or_raw buf (raises struct_error) = raises struct_error
  or_raw buf (raises index_error) = raises index_error
  or_raw buf (raises unicode_error) = raises unicode_error
  or_raw buf (raises attribute_error) = raises attribute_error
  or_raw buf (raises type_error) = raises type_error
  or_raw buf (raises stuck) = raises stuck

  -- self._protosw[self.p](buf) if self.offset == 0 else buf
  unfoldable pub parse_data : ℕ → ℕ → List ℕ → Outcome (Payload T)
  parse_data p flags_offset buf =
      if offset flags_offset == 0
      then (elim (t.protosw p) [ none ↦ returns (raw buf) | some parse ↦ or_raw buf (parse buf) ])
      else returns (raw buf)

  unfoldable pub ip_fields : List ℕ → Packet → Outcome (Ip T)
  ip_fields buf f =
      let v_hl = get_or f.fields 0 0 in
      let len = get_or f.fields 2 0 in
      let flags_offset = get_or f.fields 4 0 in
      let p = get_or f.fields 6 0 in
      let ol = header_size v_hl - 20 in
      if ltb (header_size v_hl) 20
      then raises unpack_error
      else (parse_data p flags_offset (data_of ol len buf) >>= λ data'. returns record {
        v_hl = v_hl;
        tos = get_or f.fields 1 0;
        len = len;
        id = get_or f.fields 3 0;
        flags_offset = flags_offset;
        ttl = get_or f.fields 5 0;
        p = p;
        sum = get_or f.fields 7 0;
        src = take 4 f.data';
        dst = slice 4 8 f.data';
        opts = slice 20 (20 + ol) buf;
        data' = data';
      })

  -- struct.unpack reads the numbers and the two addresses, 20 bytes in all.
  unfoldable pub ip_unpack : List ℕ → Outcome (Ip T)
  ip_unpack buf =
      if ltb (length buf) 20 then raises struct_error else (unpack ip_sizes buf >>= ip_fields buf)

  -- IP(buf)
  unfoldable pub ip_init : List ℕ → Outcome (Ip T)
  ip_init buf = init (1 ∷ 1 ∷ 2 ∷ 2 ∷ 2 ∷ 1 ∷ 1 ∷ 2 ∷ 4 ∷ 4 ∷ []) buf (ip_unpack buf)

  unfoldable pub ip_hdr : Ip T → Outcome (List ℕ)
  ip_hdr ip =
      pack_hdr ip_sizes
        (ip.v_hl ∷ ip.tos ∷ ip.len ∷ ip.id ∷ ip.flags_offset ∷ ip.ttl ∷ ip.p ∷ ip.sum ∷ [])
      >>= λ front. returns (front ++ (four_bytes ip.src ++ four_bytes ip.dst))

  -- struct.pack('>4s4sxBH', src, dst, p, len): the pseudo header
  unfoldable pub pseudo_header : Ip T → ℕ → Outcome (List ℕ)
  pseudo_header ip size = struct_pack (1 ∷ 2 ∷ []) (ip.p ∷ size ∷ []) >>= λ tail.
      returns (four_bytes ip.src ++ (four_bytes ip.dst ++ (0 ∷ tail)))

  -- A computed checksum of 0 is sent as ones by UDP.
  unfoldable pub udp_zero : ℕ → ℕ → ℕ
  udp_zero p s = if p == 17 && (s == 0) then 0xffff else s

  -- The checksum of TCP or UDP where it is 0
  unfoldable pub sum_data : Ip T → Outcome (Payload T)
  sum_data ip = elim ip.data' [
    | raw bytes ↦ returns (raw bytes)
    | carried x ↦
        if ((ip.p == 6) || (ip.p == 17)) && (not (is_fragment ip.flags_offset) && (t.sum x == 0))
        then (t.bytes x >>= λ p.
            (pseudo_header ip (length p) >>= λ front. returns (
              carried (
                t.set_sum (udp_zero ip.p (in_cksum_done (in_cksum_add (in_cksum_add 0 front) p)))
                  x))))
        else returns (carried x)
  ]

  -- len, sum and the checksum of the data are set where sum is 0.
  unfoldable pub set_sums : Ip T → Outcome (Ip T)
  set_sums ip =
      let ip' = record ip { len = ip_len ip } in
      if ip.sum == 0
      then (ip_hdr ip' >>= λ front.
          (sum_data ip' >>= λ data'.
          returns (record ip' { sum = in_cksum (front ++ ip.opts); data' = data' })))
      else returns ip

  -- The bytes, and the packet as it is then
  unfoldable pub ip_bytes : Ip T → Outcome (List ℕ × Ip T)
  ip_bytes ip = set_sums ip >>= λ ip'.
      (ip_hdr ip' >>= λ front.
      (data_bytes ip'.data' >>= λ rest. returns (front ++ (ip'.opts ++ rest), ip')))
