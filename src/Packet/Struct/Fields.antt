-- ===== src/Packet/Struct/Fields.antt =====
-- struct.pack and struct.unpack of values that fit their fields.
use mathlib.Core.List.{append-nil}
use dpkt_ng.Base.{
  ℕ, drop, ◌+◌, ◌^◌, ◌<◌, ◌≤◌, ◌≡◌, refl, sym, ap, ◌∙◌, false, List, [], ◌∷◌, ◌++◌, ltb, lt→ltb,
  ==_iff, if◌then◌else◌, length, length-append, arith,
}
use dpkt_ng.Base.Bytes.{be_bytes, length-be_bytes, slice, slice_behind, drop-append_length}
use dpkt_ng.Base.Results.{returns, raises, struct_error}
use dpkt_ng.Packet.Header.{hdr_len, field_values, unpack, pack_hdr}
use dpkt_ng.Packet.Header.RoundTrip.{field_values-pack_hdr}
use dpkt_ng.Packet.Struct.{struct_unpack, struct_pack}

pub data Fits : List ℕ → List ℕ → Type 0 where
  nothing : Fits [] []
  field :
      {n v : ℕ} {sizes values : List ℕ}
      → v < 256 ^ n
      → Fits sizes values
      → Fits (n ∷ sizes) (v ∷ values)

abbrev pub fields_bytes : List ℕ → List ℕ → List ℕ
fields_bytes [] values = []
fields_bytes (n ∷ sizes) [] = []
fields_bytes (n ∷ sizes) (v ∷ values) = be_bytes n v ++ fields_bytes sizes values

pub length-fields_bytes :
    {sizes values : List ℕ} → Fits sizes values → length (fields_bytes sizes values) ≡ hdr_len sizes
unfolding hdr_len
length-fields_bytes nothing = refl
length-fields_bytes (field {n} {v} {sizes} {values} h f) = omega (
  arith,
  length-append (be_bytes n v) (fields_bytes sizes values),
  length-be_bytes n v,
  length-fields_bytes f,
)

pub struct_pack-Fits :
    {sizes values : List ℕ}
    → Fits sizes values
    → struct_pack sizes values ≡ returns (fields_bytes sizes values)
unfolding struct_pack
struct_pack-Fits nothing = refl
struct_pack-Fits (field {n} {v} h f) = rw (lt→ltb v (256 ^ n) h, struct_pack-Fits f)

pub pack_hdr-Fits :
    {sizes values : List ℕ}
    → Fits sizes values
    → pack_hdr sizes values ≡ returns (fields_bytes sizes values)
unfolding pack_hdr
pack_hdr-Fits nothing = refl
pack_hdr-Fits (field {n} {v} h f) = rw (lt→ltb v (256 ^ n) h, pack_hdr-Fits f)

-- The fields where they stand in a buffer
pub struct_unpack-Fits :
    {sizes values : List ℕ} (front rest : List ℕ) (size : ℕ)
    → Fits sizes values
    → size ≡ hdr_len sizes
    → struct_unpack sizes
        (slice (length front) (length front + size) (front ++ (fields_bytes sizes values ++ rest)))
      ≡ returns values
unfolding struct_unpack
struct_unpack-Fits {sizes} {values} front rest size f e =
    ap (struct_unpack sizes) (slice_behind front bytes rest (length-fields_bytes f ∙ sym e))
    ∙ ap (λ b. if b then returns (field_values sizes bytes) else raises struct_error)
        ((==_iff (length bytes) (hdr_len sizes)).1 (length-fields_bytes f))
    ∙ ap returns (
        ap (field_values sizes) (sym (append-nil bytes))
        ∙ field_values-pack_hdr sizes values bytes [] (pack_hdr-Fits f))
  where
    bytes : List ℕ
    bytes = fields_bytes sizes values

-- A header that begins with such fields
pub unpack-Fits :
    {sizes values : List ℕ} (rest : List ℕ)
    → Fits sizes values
    → unpack sizes (fields_bytes sizes values ++ rest)
      ≡ returns record { fields = values; data' = rest }
unfolding unpack
unpack-Fits {sizes} {values} rest f =
    ap
      (λ b.
        if b
        then raises struct_error
        else returns record { fields = field_values sizes buf; data' = drop (hdr_len sizes) buf })
      (long_enough (length buf) (hdr_len sizes)
        (omega (arith, length-append (fields_bytes sizes values) rest, length-fields_bytes f)))
    ∙ ap (λ vs. returns record { fields = vs; data' = drop (hdr_len sizes) buf })
        (field_values-pack_hdr sizes values (fields_bytes sizes values) rest (pack_hdr-Fits f))
    ∙ ap (λ d. returns record { fields = values; data' = d })
        (ap (λ n. drop n buf) (omega (arith, length-fields_bytes f))
          ∙ drop-append_length 0 (fields_bytes sizes values) rest)
  where
    buf : List ℕ
    buf = fields_bytes sizes values ++ rest

    long_enough : (n m : ℕ) → m ≤ n → ltb n m ≡ false
    long_enough n m h = ground arith
