-- ===== src/Dns/RoundTrip/Content.antt =====
-- The data of a resource record, as pack_rdata writes and unpack_rdata of dpkt/dns.py reads it: data that are
-- given as bytes, addresses, and the records that hold one name.
use dpkt_ng.Base.{
  ℕ, ◌+◌, ◌^◌, ◌<◌, ◌≤◌, ◌≡◌, refl, sym, ap, ◌∙◌, Bool, true, false, Option, none, some, List, [],
  ◌∷◌, ◌++◌, length, length-append, arith,
}
use dpkt_ng.Base.Results.{attribute, Outcome, returns, ◌>>=◌}
use dpkt_ng.Dns.Names.{Pointers, pack_name, unpack_name}
use dpkt_ng.Dns.Records.{
  RrType, dns_a, dns_ns, dns_cname, dns_soa, dns_null, dns_ptr, dns_hinfo, dns_mx, dns_txt,
  dns_aaaa, dns_srv, dns_opt, unknown, rr_type, Attributes, no_attributes, Rr, pack_attribute,
  pack_rdata, unpack_attribute, hex,
}
use dpkt_ng.Dns.Compression.{AllKnown, AllKnown-later}
use dpkt_ng.Dns.RoundTrip.{IsName, SameName, pack_name-unpack_name}

-- The types whose data are bytes to unpack_rdata
abbrev pub is_plain : RrType → Bool
is_plain dns_a = true
is_plain dns_aaaa = true
is_plain dns_null = true
is_plain dns_opt = true
is_plain dns_ns = false
is_plain dns_cname = false
is_plain dns_soa = false
is_plain dns_ptr = false
is_plain dns_hinfo = false
is_plain dns_mx = false
is_plain dns_txt = false
is_plain dns_srv = false
is_plain unknown = false

-- rdata, type and attributes of the records for which the round trip is shown
pub data IsContent : List ℕ → RrType → Attributes → Type 0 where
  raw :
      {b : ℕ} {rest : List ℕ} {t : RrType} {a : Attributes}
      → length (b ∷ rest) < 2 ^ 16
      → is_plain t ≡ true
      → IsContent (b ∷ rest) t a
  no_data : {a : Attributes} → IsContent [] dns_opt a
  address :
      {a : Attributes} (ip : List ℕ) → a.ip ≡ some ip → length ip < 2 ^ 16 → IsContent [] dns_a a
  server :
      {a : Attributes} (name : List ℕ) → a.nsname ≡ some name → IsName name → IsContent [] dns_ns a
  alias :
      {a : Attributes} (name : List ℕ)
      → a.cname ≡ some name
      → IsName name
      → IsContent [] dns_cname a
  host :
      {a : Attributes} (name : List ℕ)
      → a.ptrname ≡ some name
      → IsName name
      → IsContent [] dns_ptr a

abbrev option_size : Option (List ℕ) → ℕ
option_size none = 0
option_size (some x) = length x + 3

-- A bound of what they take
abbrev pub content_size : List ℕ → RrType → Attributes → ℕ
content_size (b ∷ rest) t a = length (b ∷ rest)
content_size [] dns_a a = option_size a.ip
content_size [] dns_ns a = option_size a.nsname
content_size [] dns_cname a = option_size a.cname
content_size [] dns_ptr a = option_size a.ptrname
content_size [] t a = 0

abbrev SameAttribute : Option (List ℕ) → Option (List ℕ) → Type 0
SameAttribute o o' =
    (name : List ℕ) × (text : List ℕ) × (o ≡ some name) × (o' ≡ some text) × SameName name text

-- What is read has the same bytes, the same address, or the same name.
abbrev pub SameContent : List ℕ → RrType → Attributes → List ℕ → Attributes → Type 0
SameContent (b ∷ rest) t a rdata' a' = rdata' ≡ b ∷ rest
SameContent [] dns_a a rdata' a' = a'.ip ≡ a.ip
SameContent [] dns_ns a rdata' a' = SameAttribute a.nsname a'.nsname
SameContent [] dns_cname a rdata' a' = SameAttribute a.cname a'.cname
SameContent [] dns_ptr a rdata' a' = SameAttribute a.ptrname a'.ptrname
SameContent [] t a rdata' a' = rdata' ≡ []

abbrev pub pack_content : List ℕ → RrType → Attributes → ℕ → Pointers → Outcome (List ℕ × Pointers)
pack_content [] t a off ptrs = pack_attribute t a off ptrs
pack_content (b ∷ rest) t a off ptrs = returns (b ∷ rest, ptrs)

pub pack_rdata-pack_content :
    (rr : Rr) (off : ℕ) (ptrs : Pointers)
    → pack_rdata rr off ptrs ≡ pack_content rr.rdata (rr_type rr.type') rr.attributes off ptrs
unfolding pack_rdata
pack_rdata-pack_content rr off ptrs = by_data rr.rdata
  where
    by_data :
        (rdata : List ℕ)
        → (elim rdata [
          | [] ↦ pack_attribute (rr_type rr.type') rr.attributes off ptrs
          | b ∷ rest ↦ returns (b ∷ rest, ptrs)
        ])
          ≡ pack_content rdata (rr_type rr.type') rr.attributes off ptrs
    by_data [] = refl
    by_data (b ∷ rest) = refl

pub record ContentTrip (rdata : List ℕ) (t : RrType) (a : Attributes) (pre : List ℕ)
    (ptrs : Pointers) : Type 0 where
  pub bytes : List ℕ
  pub later : Pointers
  pub packed : pack_content rdata t a (length pre) ptrs ≡ returns (bytes, later)
  pub small : length bytes ≤ content_size rdata t a
  pub fits : length bytes < 2 ^ 16
  pub known : AllKnown (pre ++ bytes) (length (pre ++ bytes)) later
  pub attributes : Attributes
  pub same : SameContent rdata t a bytes attributes
  pub reads :
      (rest : List ℕ)
      → unpack_attribute t bytes (pre ++ bytes ++ rest) (length pre) no_attributes
        ≡ returns attributes

-- What unpack_rdata makes of bytes
abbrev plain_attributes : RrType → List ℕ → Attributes
plain_attributes dns_a rdata = record no_attributes { ip = some rdata }
plain_attributes dns_aaaa rdata = record no_attributes { ip6 = some rdata }
plain_attributes dns_null rdata = record no_attributes { null = some (hex rdata) }
plain_attributes t rdata = no_attributes

plain_read :
    (t : RrType) (rdata buf : List ℕ) (off : ℕ)
    → is_plain t ≡ true
    → unpack_attribute t rdata buf off no_attributes ≡ returns (plain_attributes t rdata)
unfolding unpack_attribute
plain_read dns_a rdata buf off h = refl
plain_read dns_aaaa rdata buf off h = refl
plain_read dns_null rdata buf off h = refl
plain_read dns_opt rdata buf off h = refl
plain_read dns_ns rdata buf off h = cc
plain_read dns_cname rdata buf off h = cc
plain_read dns_soa rdata buf off h = cc
plain_read dns_ptr rdata buf off h = cc
plain_read dns_hinfo rdata buf off h = cc
plain_read dns_mx rdata buf off h = cc
plain_read dns_txt rdata buf off h = cc
plain_read dns_srv rdata buf off h = cc
plain_read unknown rdata buf off h = cc

pub known_behind :
    (pre bytes : List ℕ) (ptrs : Pointers)
    → AllKnown pre (length pre) ptrs
    → AllKnown (pre ++ bytes) (length (pre ++ bytes)) ptrs
known_behind pre bytes ptrs k =
    AllKnown-later pre bytes ptrs (omega (arith, length-append pre bytes)) k

module _ (pre : List ℕ) (ptrs : Pointers) (k : AllKnown pre (length pre) ptrs) where
  -- Bytes that are written as they are
  plain-ContentTrip :
      (rdata : List ℕ) (t : RrType) (a : Attributes) (bytes : List ℕ)
      → is_plain t ≡ true
      → pack_content rdata t a (length pre) ptrs ≡ returns (bytes, ptrs)
      → length bytes ≤ content_size rdata t a
      → length bytes < 2 ^ 16
      → SameContent rdata t a bytes (plain_attributes t bytes)
      → ContentTrip rdata t a pre ptrs
  plain-ContentTrip rdata t a bytes p e small fits same = record {
    bytes = bytes;
    later = ptrs;
    packed = e;
    small = small;
    fits = fits;
    known = known_behind pre bytes ptrs k;
    attributes = plain_attributes t bytes;
    same = same;
    reads = λ rest. plain_read t bytes (pre ++ bytes ++ rest) (length pre) p;
  }

  -- A name that is written by pack_name and read by unpack_name into the attribute that `set` sets
  named-ContentTrip :
      (t : RrType) (a : Attributes) (name : List ℕ) (set : List ℕ → Attributes)
      → IsName name
      → length pre + (length name + 3) ≤ 2 ^ 14
      → pack_attribute t a (length pre) ptrs ≡ pack_name name (length pre) ptrs
      → content_size [] t a ≡ length name + 3
      → ((rdata buf : List ℕ) (off : ℕ)
          → unpack_attribute t rdata buf off no_attributes
            ≡ (unpack_name buf off >>= λ p. returns (set (p.0))))
      → ((rdata text : List ℕ) → SameName name text → SameContent [] t a rdata (set text))
      → ContentTrip [] t a pre ptrs
  named-ContentTrip t a name set n h e size unpacks same =
      let (bytes, later, packed, r) = pack_name-unpack_name pre name ptrs n k h in
      record {
        bytes = bytes;
        later = later;
        packed = e ∙ packed;
        small = omega (arith, r.small, size);
        fits = omega (arith, r.small, n.short);
        known = r.known;
        attributes = set r.item;
        same = same bytes r.item r.same;
        reads = λ rest.
            unpacks bytes (pre ++ bytes ++ rest) (length pre)
            ∙ ap (λ o. o >>= λ p. returns (set (p.0))) (r.reads rest);
      }

  pub content-ContentTrip :
      {rdata : List ℕ} {t : RrType} {a : Attributes}
      → IsContent rdata t a
      → length pre + content_size rdata t a ≤ 2 ^ 14
      → ContentTrip rdata t a pre ptrs
  unfolding pack_attribute unpack_attribute attribute
  content-ContentTrip (raw {b} {rest} {t} {a} fits p) h =
      plain-ContentTrip (b ∷ rest) t a (b ∷ rest) p refl (omega arith) fits refl
  content-ContentTrip (no_data {a}) h =
      plain-ContentTrip [] dns_opt a [] refl refl (omega arith) (omega arith) refl
  content-ContentTrip (address {a} ip e fits) h =
      plain-ContentTrip [] dns_a a ip refl (rw e) (omega (arith, ap option_size e)) fits (sym e)
  content-ContentTrip (server {a} name e n) h =
      named-ContentTrip dns_ns a name (λ text. record no_attributes { nsname = some text }) n
        (omega (arith, ap option_size e)) (rw e) (ap option_size e) (λ rdata buf off. refl)
        (λ rdata text s. (name, text, e, refl, s))
  content-ContentTrip (alias {a} name e n) h =
      named-ContentTrip dns_cname a name (λ text. record no_attributes { cname = some text }) n
        (omega (arith, ap option_size e)) (rw e) (ap option_size e) (λ rdata buf off. refl)
        (λ rdata text s. (name, text, e, refl, s))
  content-ContentTrip (host {a} name e n) h =
      named-ContentTrip dns_ptr a name (λ text. record no_attributes { ptrname = some text }) n
        (omega (arith, ap option_size e)) (rw e) (ap option_size e) (λ rdata buf off. refl)
        (λ rdata text s. (name, text, e, refl, s))
