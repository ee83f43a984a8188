-- ===== src/Quic/Parse.antt =====
-- parse_frames of dpkt/quic.py: frames until the bytes end or one cannot be read.
pub mod Total
pub mod Sequence
pub mod Crypto
pub mod Faults
use dpkt_ng.Base.{ℕ, ◌+◌, Bool, List, [], ◌∷◌, ◌++◌, ltb, ◌==◌, if◌then◌else◌, length, drop}
use dpkt_ng.Base.Results.{Outcome, returns, raises, ◌>>=◌}
use dpkt_ng.Base.Loops.{read_loop}
use dpkt_ng.Quic.Frames.{QuicFrame, byte_at, unpack_frame, frame_byte_size}

-- `off += _frame_byte_size(f, buf[off:])`, where an exception leaves the loop: the next offset is then
-- the end of the buffer.
unfoldable pub advance : List ℕ → ℕ → QuicFrame → Outcome ℕ → Outcome (List QuicFrame × ℕ)
advance buf off f (returns size) = returns (f ∷ [], off + size)
advance buf off f (raises e) = returns (f ∷ [], length buf)

-- The try block
unfoldable pub attempt : List ℕ → ℕ → Outcome QuicFrame → Outcome (List QuicFrame × ℕ)
attempt buf off (returns f) = advance buf off f (frame_byte_size f)
attempt buf off (raises e) = returns ([], length buf)

-- One round: the frames that it appends, at most one, and the next offset
unfoldable pub read_round : List ℕ → ℕ → Outcome (List QuicFrame × ℕ)
read_round buf off = do
  frame_type ← byte_at buf off
  if frame_type == 0
      then returns ([], off + 1)
      else attempt buf off (unpack_frame frame_type (drop off buf))

unfoldable pub more_bytes : List ℕ → ℕ → Bool
more_bytes buf off = ltb off (length buf)

unfoldable pub join : List (List QuicFrame) → List QuicFrame
join [] = []
join (fs ∷ rest) = fs ++ join rest

-- A round takes a byte at least, so `length buf` rounds are enough.
unfoldable pub parse_frames : List ℕ → Outcome (List QuicFrame)
parse_frames buf =
    read_loop (more_bytes buf) (read_round buf) (length buf) 0 >>= λ rounds. returns (join rounds)
