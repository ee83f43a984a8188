-- ===== src/Dns/Records.antt =====
-- class RR of dpkt/dns.py: the record data that pack_rdata and unpack_rdata write and read by type.
use dpkt_ng.Base.{
  ℕ, zero, suc, ◌+◌, ◌/◌, ◌%◌, ◌==◌, ◌&&◌, Option, none, some, List, [], ◌∷◌, ◌++◌, ltb, leb,
  if◌then◌else◌, length, get_or, take, drop,
}
use dpkt_ng.Base.Bytes.{slice}
use dpkt_ng.Base.Results.{
  Outcome, returns, raises, unpack_error, pack_error, struct_error, unicode_error, attribute,
  type_error, stuck, ◌>>=◌,
}
use dpkt_ng.Packet.Struct.{struct_pack, struct_unpack}
use dpkt_ng.Dns.Utf8.{is_utf8}
use dpkt_ng.Dns.Names.{Pointers, pack_name, unpack_name}

-- An item of RR.text: bytes, as the caller of RR may give them, or the str that unpack_rdata makes
pub data Text : Type 0 where
  encoded decoded : List ℕ → Text

-- RR.preference: a number, or the tuple of one number that unpack_rdata makes
pub data Preference : Type 0 where
  number one_tuple : ℕ → Preference

-- The attributes of an RR outside its header, which exist once they are set
pub record Attributes : Type 0 where
  pub ip : Option (List ℕ)
  pub nsname : Option (List ℕ)
  pub cname : Option (List ℕ)
  pub ptrname : Option (List ℕ)
  pub mname : Option (List ℕ)
  pub rname : Option (List ℕ)
  pub serial : Option ℕ
  pub refresh : Option ℕ
  pub retry : Option ℕ
  pub expire : Option ℕ
  pub minimum : Option ℕ
  pub preference : Option Preference
  pub mxname : Option (List ℕ)
  pub text : Option (List Text)
  pub ip6 : Option (List ℕ)
  pub null : Option (List ℕ)
  pub priority : Option ℕ
  pub weight : Option ℕ
  pub port : Option ℕ
  pub srvname : Option (List ℕ)

pub record Rr : Type 0 where
  pub name : List ℕ
  pub type' : ℕ
  pub cls : ℕ
  pub ttl : ℕ
  pub rlen : ℕ
  pub rdata : List ℕ
  pub attributes : Attributes

abbrev pub no_attributes : Attributes
no_attributes = record {
  ip = none;
  nsname = none;
  cname = none;
  ptrname = none;
  mname = none;
  rname = none;
  serial = none;
  refresh = none;
  retry = none;
  expire = none;
  minimum = none;
  preference = none;
  mxname = none;
  text = none;
  ip6 = none;
  null = none;
  priority = none;
  weight = none;
  port = none;
  srvname = none;
}

-- RR(): type DNS_A, cls DNS_IN, rlen 4
abbrev pub default_rr : Rr
default_rr = record {
  name = [];
  type' = 1;
  cls = 1;
  ttl = 0;
  rlen = 4;
  rdata = [];
  attributes = no_attributes;
}

-- DNS_A and so on
pub data RrType : Type 0 where
  dns_a dns_ns dns_cname dns_soa dns_null dns_ptr dns_hinfo dns_mx dns_txt dns_aaaa dns_srv
        dns_opt :
      RrType
  unknown : RrType

unfoldable pub rr_type : ℕ → RrType
rr_type n =
    if n == 1
    then dns_a
    else if n == 2
    then dns_ns
    else if n == 5
    then dns_cname
    else if n == 6
    then dns_soa
    else if n == 10
    then dns_null
    else if n == 12
    then dns_ptr
    else if n == 13
    then dns_hinfo
    else if n == 15
    then dns_mx
    else if n == 16
    then dns_txt
    else if n == 28
    then dns_aaaa
    else if n == 33
    then dns_srv
    else if n == 41
    then dns_opt
    else unknown

-- len(x) of a str: the bytes that begin a character
unfoldable pub characters : List ℕ → ℕ
characters [] = 0
characters (b ∷ bytes) =
    let rest = characters bytes in if leb 0x80 b && ltb b 0xc0 then rest else suc rest

-- struct.pack('B', len(x)) + x
unfoldable pub pack_text : Text → Outcome (List ℕ)
pack_text (encoded x) = struct_pack (1 ∷ []) (length x ∷ []) >>= λ size. returns (size ++ x)
pack_text (decoded x) = struct_pack (1 ∷ []) (characters x ∷ []) >>= λ size. raises type_error

unfoldable pub pack_texts : List Text → Outcome (List ℕ)
pack_texts [] = returns []
pack_texts (x ∷ xs) = pack_text x >>= λ bytes. (pack_texts xs >>= λ rest. returns (bytes ++ rest))

unfoldable pub pack_soa : Attributes → ℕ → Pointers → Outcome (List ℕ × Pointers)
pack_soa a off ptrs = attribute a.mname >>= λ mname.
    (pack_name mname off ptrs >>= λ m.
    (attribute a.rname >>= λ rname.
    (pack_name rname (off + length (m.0)) (m.1) >>= λ r.
    (attribute a.serial >>= λ serial.
    (attribute a.refresh >>= λ refresh.
    (attribute a.retry >>= λ retry.
    (attribute a.expire >>= λ expire.
    (attribute a.minimum >>= λ minimum.
    (struct_pack (4 ∷ 4 ∷ 4 ∷ 4 ∷ 4 ∷ []) (serial ∷ refresh ∷ retry ∷ expire ∷ minimum ∷ [])
      >>= λ numbers. returns (m.0 ++ (r.0 ++ numbers), r.1))))))))))

unfoldable pub pack_preference : Preference → Outcome (List ℕ)
pack_preference (number n) = struct_pack (2 ∷ []) (n ∷ [])
pack_preference (one_tuple n) = raises struct_error

unfoldable pub pack_mx : Attributes → ℕ → Pointers → Outcome (List ℕ × Pointers)
pack_mx a off ptrs = attribute a.preference >>= λ preference.
    (pack_preference preference >>= λ front.
    (attribute a.mxname >>= λ mxname.
    (pack_name mxname (off + 2) ptrs >>= λ p. returns (front ++ p.0, p.1))))

unfoldable pub pack_srv : Attributes → ℕ → Pointers → Outcome (List ℕ × Pointers)
pack_srv a off ptrs = attribute a.priority >>= λ priority.
    (attribute a.weight >>= λ weight.
    (attribute a.port >>= λ port.
    (struct_pack (2 ∷ 2 ∷ 2 ∷ []) (priority ∷ weight ∷ port ∷ []) >>= λ front.
    (attribute a.srvname >>= λ srvname.
    (pack_name srvname (off + 6) ptrs >>= λ p. returns (front ++ p.0, p.1))))))

unfoldable pub pack_attribute : RrType → Attributes → ℕ → Pointers → Outcome (List ℕ × Pointers)
pack_attribute dns_a a off ptrs = attribute a.ip >>= λ ip. returns (ip, ptrs)
pack_attribute dns_ns a off ptrs = attribute a.nsname >>= λ nsname. pack_name nsname off ptrs
pack_attribute dns_cname a off ptrs = attribute a.cname >>= λ cname. pack_name cname off ptrs
pack_attribute dns_ptr a off ptrs = attribute a.ptrname >>= λ ptrname. pack_name ptrname off ptrs
pack_attribute dns_soa a off ptrs = pack_soa a off ptrs
pack_attribute dns_mx a off ptrs = pack_mx a off ptrs
pack_attribute dns_txt a off ptrs =
    attribute a.text >>= λ text. (pack_texts text >>= λ bytes. returns (bytes, ptrs))
pack_attribute dns_hinfo a off ptrs =
    attribute a.text >>= λ text. (pack_texts text >>= λ bytes. returns (bytes, ptrs))
pack_attribute dns_aaaa a off ptrs = attribute a.ip6 >>= λ ip6. returns (ip6, ptrs)
pack_attribute dns_srv a off ptrs = pack_srv a off ptrs
pack_attribute dns_opt a off ptrs = returns ([], ptrs)
pack_attribute dns_null a off ptrs = raises pack_error
pack_attribute unknown a off ptrs = raises pack_error

-- What was read, or given as bytes, is written as it is.
unfoldable pub pack_rdata : Rr → ℕ → Pointers → Outcome (List ℕ × Pointers)
pack_rdata rr off ptrs = elim rr.rdata [
  | [] ↦ pack_attribute (rr_type rr.type') rr.attributes off ptrs
  | b ∷ rest ↦ returns (b ∷ rest, ptrs)
]

-- The loop over the character strings of TXT and HINFO; each takes one byte or more.
unfoldable pub unpack_texts : ℕ → List ℕ → Outcome (List Text)
unpack_texts fuel [] = returns []
unpack_texts zero (n ∷ buf) = raises stuck
unpack_texts (suc fuel) (n ∷ buf) =
    let rest = unpack_texts fuel (drop n buf) in
    if is_utf8 (take n buf)
    then (rest >>= λ texts. returns (decoded (take n buf) ∷ texts))
    else raises unicode_error

-- codecs.encode(rdata, 'hex')
unfoldable pub hex_digit : ℕ → ℕ
hex_digit n = if ltb n 10 then 48 + n else 87 + n

unfoldable pub hex : List ℕ → List ℕ
hex [] = []
hex (b ∷ bytes) = hex_digit (b / 16) ∷ hex_digit (b % 16) ∷ hex bytes

unfoldable pub unpack_soa : List ℕ → ℕ → Attributes → Outcome Attributes
unpack_soa buf off a = unpack_name buf off >>= λ m.
    (unpack_name buf (m.1) >>= λ r.
    (struct_unpack (4 ∷ 4 ∷ 4 ∷ 4 ∷ 4 ∷ []) (slice (r.1) (r.1 + 20) buf) >>= λ numbers.
    returns (record a {
      mname = some (m.0);
      rname = some (r.0);
      serial = some (get_or numbers 0 0);
      refresh = some (get_or numbers 1 0);
      retry = some (get_or numbers 2 0);
      expire = some (get_or numbers 3 0);
      minimum = some (get_or numbers 4 0);
    })))

unfoldable pub unpack_mx : List ℕ → List ℕ → ℕ → Attributes → Outcome Attributes
unpack_mx rdata buf off a = struct_unpack (2 ∷ []) (take 2 rdata) >>= λ numbers.
    (unpack_name buf (off + 2) >>= λ p.
    returns (record a { preference = some (one_tuple (get_or numbers 0 0)); mxname = some (p.0) }))

unfoldable pub unpack_srv : List ℕ → List ℕ → ℕ → Attributes → Outcome Attributes
unpack_srv rdata buf off a = struct_unpack (2 ∷ 2 ∷ 2 ∷ []) (take 6 rdata) >>= λ numbers.
    (unpack_name buf (off + 6) >>= λ p. returns (record a {
      priority = some (get_or numbers 0 0);
      weight = some (get_or numbers 1 0);
      port = some (get_or numbers 2 0);
      srvname = some (p.0);
    }))

unfoldable pub unpack_attribute : RrType → List ℕ → List ℕ → ℕ → Attributes → Outcome Attributes
unpack_attribute dns_a rdata buf off a = returns (record a { ip = some rdata })
unpack_attribute dns_ns rdata buf off a =
    unpack_name buf off >>= λ p. returns (record a { nsname = some (p.0) })
unpack_attribute dns_cname rdata buf off a =
    unpack_name buf off >>= λ p. returns (record a { cname = some (p.0) })
unpack_attribute dns_ptr rdata buf off a =
    unpack_name buf off >>= λ p. returns (record a { ptrname = some (p.0) })
unpack_attribute dns_soa rdata buf off a = unpack_soa buf off a
unpack_attribute dns_mx rdata buf off a = unpack_mx rdata buf off a
unpack_attribute dns_txt rdata buf off a =
    unpack_texts (length rdata) rdata >>= λ texts. returns (record a { text = some texts })
unpack_attribute dns_hinfo rdata buf off a =
    unpack_texts (length rdata) rdata >>= λ texts. returns (record a { text = some texts })
unpack_attribute dns_aaaa rdata buf off a = returns (record a { ip6 = some rdata })
unpack_attribute dns_null rdata buf off a = returns (record a { null = some (hex rdata) })
unpack_attribute dns_srv rdata buf off a = unpack_srv rdata buf off a
unpack_attribute dns_opt rdata buf off a = returns a
unpack_attribute unknown rdata buf off a = raises unpack_error

unfoldable pub unpack_rdata : List ℕ → ℕ → Rr → Outcome Rr
unpack_rdata buf off rr =
    unpack_attribute (rr_type rr.type') rr.rdata buf off rr.attributes >>= λ a.
    returns (record rr { attributes = a })
