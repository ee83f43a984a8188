-- ===== src/Qpack/Parse.antt =====
-- parse_qpack_encoder and parse_qpack_request of dpkt/qpack.py, which differ in their choice of class.
use Prim.Native.Nat.{bit_and}
use dpkt_ng.Base.{
  ℕ, ◌+◌, Bool, Option, none, some, List, [], ◌∷◌, ◌++◌, ltb, ◌==◌, if◌then◌else◌, length, drop,
}
use dpkt_ng.Base.Results.{Outcome, returns, raises, ◌>>=◌}
use dpkt_ng.Base.Loops.{read_loop}
use dpkt_ng.Quic.Frames.{byte_at}
use dpkt_ng.Qpack.Instructions.{
  Instruction, Class, indexed_class, literal_ref_class, literal_class, post_base_class,
  insert_ref_class, insert_class, duplicate_class, capacity_class, unpack_class,
}

-- The class for a first byte, none where the loop is left
unfoldable pub encoder_class : ℕ → Option Class
encoder_class b =
    let prefix = bit_and b 0xe0 in
    if prefix == 0x20
    then some capacity_class
    else if prefix == 0x00
    then some duplicate_class
    else if bit_and b 0x80 == 0
    then (if bit_and b 0x40 == 0 then none else some insert_class)
    else some insert_ref_class

unfoldable pub request_class : ℕ → Option Class
request_class b =
    if bit_and b 0x80 == 0
    then (if bit_and b 0x40 == 0
        then (if bit_and b 0x20 == 0
            then (if bit_and b 0x10 == 0 then none else some post_base_class)
            else some literal_class)
        else some literal_ref_class)
    else some indexed_class

-- The try block; an exception leaves the loop, so that the next offset is the end of the buffer.
unfoldable pub attempt : List ℕ → ℕ → Outcome (Instruction × ℕ) → List Instruction × ℕ
attempt buf off (returns (i, n)) = (i ∷ [], off + n)
attempt buf off (raises e) = ([], length buf)

unfoldable pub with_class : List ℕ → ℕ → Option Class → List Instruction × ℕ
with_class buf off none = ([], length buf)
with_class buf off (some c) = attempt buf off (unpack_class c (drop off buf))

-- One round: the instructions that it appends, at most one, and the next offset
unfoldable pub read_round : (ℕ → Option Class) → List ℕ → ℕ → Outcome (List Instruction × ℕ)
read_round choose buf off = do b ← byte_at buf off; returns (with_class buf off (choose b))

unfoldable pub more_bytes : List ℕ → ℕ → Bool
more_bytes buf off = ltb off (length buf)

unfoldable pub join : List (List Instruction) → List Instruction
join [] = []
join (insts ∷ rest) = insts ++ join rest

unfoldable pub parse_instructions : (ℕ → Option Class) → List ℕ → Outcome (List Instruction)
parse_instructions choose buf =
    read_loop (more_bytes buf) (read_round choose buf) (length buf) 0 >>= λ rounds.
    returns (join rounds)

unfoldable pub parse_qpack_encoder : List ℕ → Outcome (List Instruction)
parse_qpack_encoder = parse_instructions encoder_class

unfoldable pub parse_qpack_request : List ℕ → Outcome (List Instruction)
parse_qpack_request = parse_instructions request_class
