-- ===== src/Qpack/Instructions.antt =====
-- _decode_int and the instruction classes of dpkt/qpack.py. `unpack` of a class gives the instruction
-- and _consumed, the number of bytes that it took.
use Prim.Native.Nat.{bit_and}
use dpkt_ng.Base.{ℕ, ◌+◌, ◌-◌, ◌*◌, ◌^◌, Bool, not, List, [], ◌∷◌, ltb, ◌==◌, if◌then◌else◌, drop}
use dpkt_ng.Base.Bytes.{slice}
use dpkt_ng.Base.Results.{Outcome, returns, ◌>>=◌}
use dpkt_ng.Quic.Frames.{byte_at}

-- The loop over the bytes behind the prefix: the list is what it has not reached.
unfoldable pub continuation : List ℕ → ℕ → ℕ → ℕ → ℕ × ℕ
continuation [] value m off = (value, off)
continuation (b ∷ rest) value m off =
    let value' = value + bit_and b 0x7f * 2 ^ m in
    let more = continuation rest value' (m + 7) (off + 1) in
    if bit_and b 0x80 == 0 then (value', off + 1) else more

unfoldable pub decode_int : List ℕ → ℕ → Outcome (ℕ × ℕ)
decode_int buf prefix_bits = do
  b ← byte_at buf 0
  let mask = 2 ^ prefix_bits - 1
  let value = bit_and b mask
  if ltb value mask then returns (value, 1) else returns (continuation (drop 1 buf) mask 0 1)

pub data Instruction : Type 0 where
  indexed_field post_base duplicate dynamic_capacity section_ack stream_cancel : ℕ → Instruction
  literal_name_ref insert_name_ref : Bool → ℕ → ℕ → List ℕ → Instruction
  literal_literal insert_no_ref : ℕ → List ℕ → ℕ → List ℕ → Instruction

-- One number is the whole instruction.
unfoldable pub unpack_number : ℕ → (ℕ → Instruction) → List ℕ → Outcome (Instruction × ℕ)
unpack_number prefix_bits instruction buf = do
  (v, n) ← decode_int buf prefix_bits
  returns (instruction v, n)

unfoldable pub unpack_name_ref :
    ℕ → ℕ → (Bool → ℕ → ℕ → List ℕ → Instruction) → List ℕ → Outcome (Instruction × ℕ)
unpack_name_ref static_bit prefix_bits instruction buf = do
  b ← byte_at buf 0
  (name_index, n) ← decode_int buf prefix_bits
  (value_len, m) ← decode_int (drop n buf) 7
  returns (
    instruction (not (bit_and b static_bit == 0)) name_index value_len
        (slice (n + m) (n + m + value_len) buf),
    n + m + value_len,
  )

unfoldable pub unpack_names :
    ℕ → (ℕ → List ℕ → ℕ → List ℕ → Instruction) → List ℕ → Outcome (Instruction × ℕ)
unpack_names prefix_bits instruction buf = do
  (name_len, n) ← decode_int buf prefix_bits
  let off = n + name_len
  (value_len, m) ← decode_int (drop off buf) 7
  returns (
    instruction name_len (slice n (n + name_len) buf) value_len
        (slice (off + m) (off + m + value_len) buf),
    off + m + value_len,
  )

pub data Class : Type 0 where
  indexed_class literal_ref_class literal_class post_base_class : Class
  insert_ref_class insert_class duplicate_class capacity_class ack_class cancel_class : Class

-- cls(buf)
unfoldable pub unpack_class : Class → List ℕ → Outcome (Instruction × ℕ)
unpack_class indexed_class = unpack_number 6 indexed_field
unpack_class literal_ref_class = unpack_name_ref 0x10 4 literal_name_ref
unpack_class literal_class = unpack_names 3 literal_literal
unpack_class post_base_class = unpack_number 4 post_base
unpack_class insert_ref_class = unpack_name_ref 0x40 6 insert_name_ref
unpack_class insert_class = unpack_names 5 insert_no_ref
unpack_class duplicate_class = unpack_number 5 duplicate
unpack_class capacity_class = unpack_number 5 dynamic_capacity
unpack_class ack_class = unpack_number 7 section_ack
unpack_class cancel_class = unpack_number 6 stream_cancel
