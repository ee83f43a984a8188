-- ===== src/Dns/RoundTrip/Records.antt =====
-- pack_rr and unpack_rr of dpkt/dns.py.
use mathlib.Core.List.{append_assoc}
use dpkt_ng.Base.{
  ℕ, ◌+◌, ◌^◌, ◌<◌, ◌≤◌, ◌≡◌, refl, sym, ap, ap₂, subst, ◌∙◌, List, [], ◌∷◌, ◌++◌, length,
  length-append, replicate, arith,
}
use dpkt_ng.Base.Bytes.{slice, slice_behind}
use dpkt_ng.Base.Results.{returns}
use dpkt_ng.Packet.Header.{hdr_len}
use dpkt_ng.Packet.Struct.{struct_unpack}
use dpkt_ng.Packet.Struct.Fields.{
  Fits, nothing, field, fields_bytes, length-fields_bytes, struct_pack-Fits, struct_unpack-Fits,
}
use dpkt_ng.Dns.Names.{Pointers, pack_name, unpack_name}
use dpkt_ng.Dns.Records.{
  Rr, RrType, rr_type, Attributes, no_attributes, unpack_attribute, unpack_rdata,
}
use dpkt_ng.Dns.Message.{pack_rr, unpack_rr}
use dpkt_ng.Dns.Compression.{AllKnown}
use dpkt_ng.Dns.RoundTrip.{IsName, SameName, Readable, Trip, pack_name-unpack_name}
use dpkt_ng.Dns.RoundTrip.Questions.{tail_behind}
use dpkt_ng.Dns.RoundTrip.Content.{
  IsContent, content_size, SameContent, pack_content, pack_rdata-pack_content, ContentTrip,
  content-ContentTrip, known_behind,
}

pub record IsRecord (rr : Rr) : Type 0 where
  pub named : IsName rr.name
  pub type_fits : rr.type' < 2 ^ 16
  pub cls_fits : rr.cls < 2 ^ 16
  pub ttl_fits : rr.ttl < 2 ^ 32
  pub content : IsContent rr.rdata (rr_type rr.type') rr.attributes

abbrev pub SameRecord : Rr → Rr → Type 0
SameRecord rr rr' =
    SameName rr.name rr'.name
    × (rr'.type' ≡ rr.type')
    × (rr'.cls ≡ rr.cls)
    × (rr'.ttl ≡ rr.ttl)
    × SameContent rr.rdata (rr_type rr.type') rr.attributes rr'.rdata rr'.attributes

abbrev pub record_size : Rr → ℕ
record_size rr = length rr.name + 13 + content_size rr.rdata (rr_type rr.type') rr.attributes

abbrev rr_sizes : List ℕ
rr_sizes = 2 ∷ 2 ∷ 4 ∷ 2 ∷ []

abbrev read_rr : List ℕ → ℕ → ℕ → ℕ → List ℕ → Attributes → Rr
read_rr name t c ttl rdata a = record {
  name = name;
  type' = t;
  cls = c;
  ttl = ttl;
  rlen = length rdata;
  rdata = rdata;
  attributes = a;
}

-- What unpack_rr makes of the parts that it reads
rr_read :
    (buf : List ℕ) (off at : ℕ) (name rdata : List ℕ) (t c ttl : ℕ) (a : Attributes)
    → unpack_name buf off ≡ returns (name, at)
    → struct_unpack rr_sizes (slice at (at + 10) buf) ≡ returns (t ∷ c ∷ ttl ∷ length rdata ∷ [])
    → slice (at + 10) (at + 10 + length rdata) buf ≡ rdata
    → unpack_attribute (rr_type t) rdata buf (at + 10) no_attributes ≡ returns a
    → unpack_rr buf off ≡ returns (read_rr name t c ttl rdata a, at + 10 + length rdata)
unfolding unpack_rr unpack_rdata
rr_read buf off at name rdata t c ttl a n f d u = rw (n, f, d, u)

-- The data do not depend on the bytes before them, but on how many these are.
same_bytes :
    {rdata : List ℕ} {t : RrType} {a : Attributes} {pre pre' : List ℕ} {ptrs : Pointers}
    (c : ContentTrip rdata t a pre ptrs) (c' : ContentTrip rdata t a pre' ptrs)
    → length pre ≡ length pre'
    → c.bytes ≡ c'.bytes
same_bytes {rdata} {t} {a} {ptrs} c c' h =
    ap (λ p. p.0) (returned (sym c.packed ∙ ap (λ n. pack_content rdata t a n ptrs) h ∙ c'.packed))
  where
    returned : {p q : List ℕ × Pointers} → returns p ≡ returns q → p ≡ q
    returned h = cc

-- The record behind its name, with the fields for its data
module _ (pre : List ℕ) (rr : Rr) (ptrs : Pointers) (nb : List ℕ) (named : Pointers)
    (packed : pack_name rr.name (length pre) ptrs ≡ returns (nb, named))
    (r : Readable unpack_name (length rr.name + 3) (SameName rr.name) pre nb named) (mid : List ℕ)
    (c : ContentTrip rr.rdata (rr_type rr.type') rr.attributes (pre ++ nb ++ mid) named)
    (f : Fits rr_sizes (rr.type' ∷ rr.cls ∷ rr.ttl ∷ length c.bytes ∷ []))
    (e : mid ≡ fields_bytes rr_sizes (rr.type' ∷ rr.cls ∷ rr.ttl ∷ length c.bytes ∷ [])) where
  mid_length : length mid ≡ 10
  unfolding hdr_len
  mid_length = ap length e ∙ length-fields_bytes f

  front_length : length (pre ++ nb) + 10 ≡ length (pre ++ nb ++ mid)
  front_length = omega (arith, mid_length, length-append (pre ++ nb) mid)

  rr_packed : pack_rr pre rr ptrs ≡ returns (pre ++ (nb ++ (mid ++ c.bytes)), c.later)
  unfolding pack_rr
  rr_packed =
      let at : length pre + length nb + 10 ≡ length (pre ++ nb ++ mid) =
        omega (arith, front_length, length-append pre nb) in
      rw (packed, pack_rdata-pack_content rr, at, c.packed, struct_pack-Fits f, e)

  rr_reads :
      (rest : List ℕ)
      → unpack_rr (pre ++ (nb ++ (mid ++ c.bytes)) ++ rest) (length pre)
        ≡ returns (
          read_rr r.item rr.type' rr.cls rr.ttl c.bytes c.attributes,
          length (pre ++ (nb ++ (mid ++ c.bytes))),
        )
  unfolding hdr_len
  rr_reads rest =
      rr_read buf (length pre) (length (pre ++ nb)) r.item c.bytes rr.type' rr.cls rr.ttl
        c.attributes
        (ap (λ b. unpack_name b (length pre)) (tail_behind pre nb (mid ++ c.bytes) rest)
          ∙ r.reads (mid ++ c.bytes ++ rest))
        (ap (λ b. struct_unpack rr_sizes (slice (length (pre ++ nb)) (length (pre ++ nb) + 10) b))
            (the_fields ∙ ap (λ m. pre ++ nb ++ (m ++ (c.bytes ++ rest))) e)
          ∙ struct_unpack-Fits (pre ++ nb) (c.bytes ++ rest) 10 f refl)
        (ap₂ (λ i b. slice i (i + length c.bytes) b) front_length the_data
          ∙ slice_behind (pre ++ nb ++ mid) c.bytes rest refl)
        (ap₂ (λ i b. unpack_attribute (rr_type rr.type') c.bytes b i no_attributes) front_length
            (the_data ∙ sym (append_assoc (pre ++ nb ++ mid) c.bytes rest))
          ∙ c.reads rest)
      ∙ ap (λ n. returns (read_rr r.item rr.type' rr.cls rr.ttl c.bytes c.attributes, n)) the_end
    where
      buf : List ℕ
      buf = pre ++ (nb ++ (mid ++ c.bytes)) ++ rest

      the_fields : buf ≡ pre ++ nb ++ (mid ++ (c.bytes ++ rest))
      the_fields =
          tail_behind pre nb (mid ++ c.bytes) rest
          ∙ ap (λ b. pre ++ nb ++ b) (append_assoc mid c.bytes rest)

      the_data : buf ≡ pre ++ nb ++ mid ++ (c.bytes ++ rest)
      the_data = the_fields ∙ sym (append_assoc (pre ++ nb) mid (c.bytes ++ rest))

      the_end : length (pre ++ nb) + 10 + length c.bytes ≡ length (pre ++ (nb ++ (mid ++ c.bytes)))
      the_end = omega (
        arith,
        mid_length,
        length-append pre nb,
        length-append pre (nb ++ (mid ++ c.bytes)),
        length-append nb (mid ++ c.bytes),
        length-append mid c.bytes,
      )

  rr-Trip : Trip pack_rr unpack_rr (record_size rr) (SameRecord rr) pre rr ptrs
  rr-Trip = (
    nb ++ (mid ++ c.bytes),
    c.later,
    rr_packed,
    record {
      small = omega (
        arith,
        r.small,
        c.small,
        mid_length,
        length-append nb (mid ++ c.bytes),
        length-append mid c.bytes,
      );
      known = subst (λ b. AllKnown b (length b) c.later) whole c.known;
      item = read_rr r.item rr.type' rr.cls rr.ttl c.bytes c.attributes;
      same = (r.same, refl, refl, refl, c.same);
      reads = rr_reads;
    },
  )
    where
      whole : pre ++ nb ++ mid ++ c.bytes ≡ pre ++ (nb ++ (mid ++ c.bytes))
      whole = append_assoc (pre ++ nb) mid c.bytes ∙ append_assoc pre nb (mid ++ c.bytes)

same_length :
    (front mid mid' : List ℕ)
    → length mid ≡ length mid'
    → length (front ++ mid) ≡ length (front ++ mid')
same_length front mid mid' h = omega (arith, length-append front mid, length-append front mid')

-- The data, behind any ten bytes
content_at :
    (pre : List ℕ) (rr : Rr) (nb : List ℕ) (named : Pointers)
    → IsRecord rr
    → AllKnown (pre ++ nb) (length (pre ++ nb)) named
    → length (pre ++ nb) + 10 + content_size rr.rdata (rr_type rr.type') rr.attributes ≤ 2 ^ 14
    → (mid : List ℕ) → length mid ≡ 10
    → ContentTrip rr.rdata (rr_type rr.type') rr.attributes (pre ++ nb ++ mid) named
content_at pre rr nb named g k h mid e =
    content-ContentTrip (pre ++ nb ++ mid) named (known_behind (pre ++ nb) mid named k) g.content
      (omega (arith, e, length-append (pre ++ nb) mid))

-- A record that is written behind a buffer of which label_ptrs is true is read again, its names up to the
-- case of the letters.
pub pack_rr-unpack_rr :
    (pre : List ℕ) (rr : Rr) (ptrs : Pointers)
    → IsRecord rr
    → AllKnown pre (length pre) ptrs
    → length pre + record_size rr ≤ 2 ^ 14
    → Trip pack_rr unpack_rr (record_size rr) (SameRecord rr) pre rr ptrs
unfolding hdr_len
pack_rr-unpack_rr pre rr ptrs g k h =
    let (nb, named, packed, r) = pack_name-unpack_name pre rr.name ptrs g.named k (omega arith) in
    let read_at =
      content_at pre rr nb named g r.known (omega (arith, r.small, length-append pre nb)) in
    let c0 = read_at (replicate 10 0) refl in
    let f0 : Fits rr_sizes (rr.type' ∷ rr.cls ∷ rr.ttl ∷ length c0.bytes ∷ []) =
      field g.type_fits (field g.cls_fits (field g.ttl_fits (field c0.fits nothing))) in
    let mid = fields_bytes rr_sizes (rr.type' ∷ rr.cls ∷ rr.ttl ∷ length c0.bytes ∷ []) in
    let c = read_at mid (length-fields_bytes f0) in
    rr-Trip pre rr ptrs nb named packed r mid c
      (field g.type_fits (field g.cls_fits (field g.ttl_fits (field c.fits nothing))))
      (ap (λ b. fields_bytes rr_sizes (rr.type' ∷ rr.cls ∷ rr.ttl ∷ length b ∷ []))
        (same_bytes c0 c
          (same_length (pre ++ nb) (replicate 10 0) mid (sym (length-fields_bytes f0)))))
