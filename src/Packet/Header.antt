-- ===== src/Packet/Header.antt =====
-- The header of a Packet of dpkt/dpkt.py: big-endian unsigned fields of one, two, four or eight bytes, as
-- __hdr__ declares them. A header's attributes are the list of their values in the order of __hdr__.
pub mod RoundTrip
use dpkt_ng.Base.{ℕ, ◌+◌, ◌^◌, List, [], ◌∷◌, ◌++◌, ltb, if◌then◌else◌, length, take, drop}
use dpkt_ng.Base.Bytes.{be_value, be_bytes}
use dpkt_ng.Base.Results.{
  Error, Outcome, returns, raises, need_data, unpack_error, pack_error, struct_error, index_error,
  unicode_error, attribute_error, type_error, stuck, ◌>>=◌,
}

-- struct.calcsize of the format, __hdr_len__
unfoldable pub hdr_len : List ℕ → ℕ
hdr_len [] = 0
hdr_len (n ∷ sizes) = n + hdr_len sizes

-- struct.unpack of exactly hdr_len bytes
unfoldable pub field_values : List ℕ → List ℕ → List ℕ
field_values [] buf = []
field_values (n ∷ sizes) buf = be_value (take n buf) ∷ field_values sizes (drop n buf)

pub record Packet : Type 0 where
  pub fields : List ℕ
  pub data' : List ℕ

unfoldable pub unpack : List ℕ → List ℕ → Outcome Packet
unpack sizes buf =
    if ltb (length buf) (hdr_len sizes)
    then raises struct_error
    else returns record { fields = field_values sizes buf; data' = drop (hdr_len sizes) buf }

-- The except clause of __init__: struct.error becomes NeedData or UnpackError, all else goes through.
unfoldable pub init_failure : List ℕ → List ℕ → Error → Error
init_failure sizes buf struct_error =
    if ltb (length buf) (hdr_len sizes) then need_data else unpack_error
init_failure sizes buf need_data = need_data
init_failure sizes buf unpack_error = unpack_error
init_failure sizes buf pack_error = pack_error
init_failure sizes buf index_error = index_error
init_failure sizes buf unicode_error = unicode_error
init_failure sizes buf attribute_error = attribute_error
init_failure sizes buf type_error = type_error
init_failure sizes buf stuck = stuck

-- Packet(buf), where `unpacked` is what the class's `unpack` does with buf
unfoldable pub init {ℓ} : {P : Type ℓ} → List ℕ → List ℕ → Outcome P → Outcome P
init sizes buf (returns p) = returns p
init sizes buf (raises e) = raises (init_failure sizes buf e)

-- struct.pack raises struct.error where a value is too large or the counts differ, which pack_hdr
-- raises again as PackError.
unfoldable pub pack_hdr : List ℕ → List ℕ → Outcome (List ℕ)
pack_hdr [] [] = returns []
pack_hdr [] (v ∷ values) = raises pack_error
pack_hdr (n ∷ sizes) [] = raises pack_error
pack_hdr (n ∷ sizes) (v ∷ values) =
    let rest = pack_hdr sizes values in
    if ltb v (256 ^ n)
    then (rest >>= λ bytes. returns (be_bytes n v ++ bytes))
    else raises pack_error
