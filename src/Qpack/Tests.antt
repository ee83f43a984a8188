-- ===== src/Qpack/Tests.antt =====
-- Runs of dpkt/qpack.py on concrete bytes, and the theorems at them.
use dpkt_ng.Base.{◌+◌, [], ◌∷◌, ◌≡◌, refl, arith, false}
use dpkt_ng.Base.Results.{returns}
use dpkt_ng.Base.Loops.{read_loop}
use dpkt_ng.Quic.Frames.{byte_at}
use dpkt_ng.Qpack.Instructions.{
  indexed_field, literal_name_ref, continuation, decode_int, unpack_number, unpack_name_ref,
  unpack_class,
}
use dpkt_ng.Qpack.Parse.{
  attempt, with_class, read_round, more_bytes, join, request_class, parse_instructions,
  parse_qpack_request,
}
use dpkt_ng.Qpack.Integers.{groups_value, decode_int-groups_value}

-- test_qpack_request_multi
two_fields :
    parse_qpack_request (0x81 ∷ 0x47 ∷ 3 ∷ 118 ∷ 97 ∷ 108 ∷ [])
    ≡ returns (indexed_field 1 ∷ literal_name_ref false 7 3 (118 ∷ 97 ∷ 108 ∷ []) ∷ [])
unfolding parse_qpack_request parse_instructions read_loop more_bytes read_round with_class attempt
    join request_class unpack_class unpack_number unpack_name_ref decode_int continuation byte_at
two_fields = refl

-- 1337 with a prefix of five bits, from RFC 7541
rfc_value : groups_value (26 ∷ []) 10 ≡ 1306
unfolding groups_value
rfc_value = refl

decode_int-groups_value_example :
    decode_int (31 ∷ 154 ∷ 10 ∷ 7 ∷ []) 5 ≡ returns (31 + groups_value (26 ∷ []) 10, 3)
decode_int-groups_value_example =
    decode_int-groups_value 31 5 10 (26 ∷ []) (7 ∷ []) refl (omega arith, tt) (omega arith)
