-- ===== src/Packet/Struct.antt =====
-- struct.pack and struct.unpack of big-endian unsigned fields, where a module calls them itself.
pub mod Fields
use dpkt_ng.Base.{ℕ, ◌^◌, ◌==◌, List, [], ◌∷◌, ◌++◌, ltb, if◌then◌else◌, length}
use dpkt_ng.Base.Bytes.{be_bytes}
use dpkt_ng.Base.Results.{Outcome, returns, raises, struct_error, ◌>>=◌}
use dpkt_ng.Packet.Header.{hdr_len, field_values}

unfoldable pub struct_unpack : List ℕ → List ℕ → Outcome (List ℕ)
struct_unpack sizes buf =
    if length buf == hdr_len sizes then returns (field_values sizes buf) else raises struct_error

unfoldable pub struct_pack : List ℕ → List ℕ → Outcome (List ℕ)
struct_pack [] [] = returns []
struct_pack [] (v ∷ values) = raises struct_error
struct_pack (n ∷ sizes) [] = raises struct_error
struct_pack (n ∷ sizes) (v ∷ values) =
    let rest = struct_pack sizes values in
    if ltb v (256 ^ n)
    then (rest >>= λ bytes. returns (be_bytes n v ++ bytes))
    else raises struct_error
