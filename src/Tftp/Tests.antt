-- ===== src/Tftp/Tests.antt =====
-- Runs of dpkt/tftp.py, and the theorems at concrete messages.
use dpkt_ng.Base.{ℕ, ◌<◌, ◌≡◌, refl, true, some, none, List, [], ◌∷◌, list_eq, All, arith}
use dpkt_ng.Base.Results.{returns, raises, unpack_error}
use dpkt_ng.Packet.Header.{unpack, init, hdr_len, field_values}
use dpkt_ng.Base.Bytes.{be_value}
use dpkt_ng.Base.Split.{split, put_first}
use dpkt_ng.Tftp.{
  Tftp, tftp_new, tftp_init, tftp_unpack, tftp_bytes, set_option, get_option, has_option,
  read_orphan, read_options, read_request, read_content,
}
use dpkt_ng.Tftp.Messages.{request, asking, tftp_bytes-tftp_init}
use dpkt_ng.Tftp.Reading.{tftp_init_rewritten}

-- WRQ of "f" in mode "o" with the options "b" = "8" and "t" = ""
abbrev write_request : Tftp
write_request = request 2 (102 ∷ []) (111 ∷ []) ((98 ∷ [], 56 ∷ []) ∷ (116 ∷ [], []) ∷ [])

-- test_op_options_get_option
named_option : get_option (98 ∷ []) none ((98 ∷ [], 56 ∷ []) ∷ (116 ∷ [], []) ∷ []) ≡ some (56 ∷ [])
unfolding get_option list_eq
named_option = refl

-- test_strict_missing_null
missing_value :
    tftp_unpack (record tftp_new { strict = true }) (0 ∷ 1 ∷ 102 ∷ 0 ∷ 111 ∷ 0 ∷ 98 ∷ [])
    ≡ raises unpack_error
unfolding tftp_unpack tftp_new unpack hdr_len field_values be_value split put_first set_option
    has_option read_orphan read_options read_request read_content
missing_value = refl

tftp_bytes-tftp_init_example :
    (bytes : List ℕ) × (tftp_bytes write_request ≡ returns bytes)
    × (tftp_init bytes ≡ returns write_request)
unfolding list_eq
tftp_bytes-tftp_init_example = tftp_bytes-tftp_init write_request (
    asking 2 (102 ∷ []) (111 ∷ []) ((98 ∷ [], 56 ∷ []) ∷ (116 ∷ [], []) ∷ []) refl (omega arith, tt)
      (omega arith, tt)
      (
        omega arith,
        refl,
        (omega arith, tt),
        (omega arith, tt),
        (omega arith, refl, (omega arith, tt), tt, tt),
      ))

-- RRQ with an empty key, a key that comes twice and a last key without a value
abbrev odd_request : List ℕ
odd_request = 0 ∷ 1 ∷ 102 ∷ 0 ∷ 111 ∷ 0 ∷ 98 ∷ 0 ∷ 56 ∷ 0 ∷ 0 ∷ 57 ∷ 0 ∷ 98 ∷ 0 ∷ 57 ∷ 0 ∷ 116 ∷ []

odd_request_read :
    tftp_init odd_request
    ≡ returns (request 1 (102 ∷ []) (111 ∷ []) ((98 ∷ [], 57 ∷ []) ∷ (116 ∷ [], []) ∷ []))
unfolding tftp_init init tftp_unpack tftp_new unpack hdr_len field_values be_value split put_first
    set_option has_option read_orphan read_options read_request read_content list_eq
odd_request_read = refl

tftp_init_rewritten_example :
    (t : Tftp) × (bytes : List ℕ) × (tftp_init odd_request ≡ returns t)
    × (tftp_bytes t ≡ returns bytes)
    × (tftp_init bytes ≡ returns t)
tftp_init_rewritten_example = tftp_init_rewritten odd_request small (omega arith)
  where
    small : All (λ b. b < 256) odd_request
    small = ground arith
