-- ===== src/Stream/Buffer.antt =====
-- class DirectionBuffer of dpkt/stream.py: the reassembly buffer of one direction of a connection.
use Prim.Native.Nat.{bit_and}
use dpkt_ng.Base.{
  ℕ, ◌+◌, ◌-◌, Bool, true, false, not, ◌&&◌, Option, none, some, List, [], ◌∷◌, ◌++◌, ltb, ◌==◌,
  if◌then◌else◌, length, drop, replicate,
}
use dpkt_ng.Base.Int.{ℤ, pos, pos_part, sub_ℕ, ◌+ℤ◌, ◌-ℤ◌, leb_ℤ, ltb_ℤ}
use dpkt_ng.Stream.Segments.{Segment, buffered_bytes, sort_segments, merge_segments, cascade}

pub record DirectionBuffer : Type 0 where
  pub isn : Option ℕ
  pub next_seq : ℕ
  pub fin_seq : Option ℕ
  pub syn_received : Bool
  pub fin_received : Bool
  pub contiguous : List ℕ
  pub segments : List Segment
  pub total_buffered : ℕ

abbrev pub empty_buffer : DirectionBuffer
empty_buffer = record {
  isn = none;
  next_seq = 0;
  fin_seq = none;
  syn_received = false;
  fin_received = false;
  contiguous = [];
  segments = [];
  total_buffered = 0;
}

-- tcp.TH_FIN and tcp.TH_SYN, as the truth of `flags & TH_…`.
unfoldable pub has_fin : ℕ → Bool
has_fin flags = not (bit_and flags 0x01 == 0)

unfoldable pub has_syn : ℕ → Bool
has_syn flags = not (bit_and flags 0x02 == 0)

abbrev pub is_empty {ℓ} : {A : Type ℓ} → List A → Bool
is_empty [] = true
is_empty (x ∷ xs) = false

-- The branch of a SYN. Where the payload is empty, adding it changes nothing.
unfoldable pub feed_syn : DirectionBuffer → ℕ → List ℕ → DirectionBuffer
feed_syn b seq payload = record b {
  isn = some seq;
  syn_received = true;
  next_seq = 1 + length payload;
  contiguous = b.contiguous ++ payload;
  total_buffered = b.total_buffered + length payload;
}

-- The FIN branch; a FIN without payload is recorded too.
unfoldable pub mark_fin : DirectionBuffer → ℕ → List ℕ → ℕ → DirectionBuffer
mark_fin b seq payload flags =
    if has_fin flags
    then record b { fin_seq = some (seq + length payload); fin_received = true }
    else b

-- The payload starts at `next_seq`: it is appended, and the cascade follows.
unfoldable pub append_contiguous : DirectionBuffer → List ℕ → DirectionBuffer
append_contiguous b payload =
    let f = cascade (b.next_seq + length payload) (b.contiguous ++ payload) b.segments in
    record b {
      next_seq = f.next_seq;
      contiguous = f.contiguous;
      segments = f.segments;
      total_buffered = length f.contiguous + buffered_bytes f.segments;
    }

-- The payload starts past `next_seq`: it is buffered.
unfoldable pub buffer_segment : DirectionBuffer → ℕ → ℕ → List ℕ → DirectionBuffer
buffer_segment b rel_seq ack payload =
    let added = b.segments ++ record { rel_seq = rel_seq; ack = ack; payload = payload } ∷ [] in
    let merged = merge_segments (sort_segments added) in
    record b { segments = merged; total_buffered = length b.contiguous + buffered_bytes merged }

-- A segment that is not wholly old: the part before `next_seq` is cut off. `rel_seq` may be
-- negative before the cut; where nothing is cut it is at least `next_seq`.
unfoldable pub place : DirectionBuffer → ℤ → ℕ → List ℕ → DirectionBuffer
place b rel_seq ack payload =
    if ltb_ℤ rel_seq (pos b.next_seq)
    then append_contiguous b (drop (pos_part (pos b.next_seq -ℤ rel_seq)) payload)
    else if pos_part rel_seq == b.next_seq
    then append_contiguous b payload
    else buffer_segment b (pos_part rel_seq) ack payload

unfoldable pub feed_payload : DirectionBuffer → ℕ → ℕ → ℕ → List ℕ → DirectionBuffer
feed_payload b isn seq ack payload =
    let rel_seq = sub_ℕ seq isn in
    if is_empty payload
    then b
    else if leb_ℤ (rel_seq +ℤ pos (length payload)) (pos b.next_seq)
    then b
    else place b rel_seq ack payload

unfoldable pub feed_data : DirectionBuffer → Option ℕ → ℕ → ℕ → List ℕ → ℕ → DirectionBuffer
feed_data b none seq ack payload flags = b
feed_data b (some isn) seq ack payload flags =
    feed_payload (mark_fin b seq payload flags) isn seq ack payload

-- DirectionBuffer.feed
unfoldable pub feed : DirectionBuffer → ℕ → ℕ → List ℕ → ℕ → DirectionBuffer
feed b seq ack payload flags =
    if has_syn flags then feed_syn b seq payload else feed_data b b.isn seq ack payload flags

-- The loop of `get_data(fill_gaps=True)`: the bytes of the segments, with zeros in the gaps.
unfoldable pub fill_segments : ℕ → List Segment → List ℕ
fill_segments position [] = []
fill_segments position (s ∷ rest) =
    let gap = s.rel_seq - position in
    replicate gap 0
    ++ (s.payload
        ++ fill_segments ((if ltb 0 gap then s.rel_seq else position) + length s.payload) rest)

-- DirectionBuffer.get_data: the bytes, and the buffer that is left.
unfoldable pub get_data : Bool → DirectionBuffer → List ℕ × DirectionBuffer
unfolding fill_segments
get_data true b = (
  b.contiguous ++ fill_segments b.next_seq b.segments,
  record b { contiguous = []; segments = []; total_buffered = 0 },
)
get_data false b = (
  b.contiguous,
  record b { contiguous = []; total_buffered = b.total_buffered - length b.contiguous },
)

-- The property is_complete. Python would raise on `fin_seq - None`, which `syn_received` excludes.
abbrev fin_reached : DirectionBuffer → Option ℕ → Option ℕ → Bool
fin_reached b none isn = false
fin_reached b (some fin) none = false
fin_reached b (some fin) (some isn) = leb_ℤ (sub_ℕ fin isn) (pos b.next_seq)

unfoldable pub is_complete : DirectionBuffer → Bool
is_complete b =
    b.syn_received && (b.fin_received && (fin_reached b b.fin_seq b.isn && is_empty b.segments))
