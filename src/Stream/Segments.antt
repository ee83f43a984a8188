-- ===== src/Stream/Segments.antt =====
-- The segment list of dpkt/stream.py's DirectionBuffer: the sorted insertion of an out-of-order
-- segment, the merge of overlapping neighbours, and the cascade that joins buffered segments to the
-- contiguous bytes. A byte string is a list of numbers.
use dpkt_ng.Base.{
  ℕ, ◌+◌, ◌-◌, max, true, false, List, [], ◌∷◌, ◌++◌, leb, ltb, if◌then◌else◌, length, take, drop,
  replicate,
}

-- An item (rel_seq, ack, data) of `self.segments`.
pub record Segment : Type 0 where
  pub rel_seq : ℕ
  pub ack : ℕ
  pub payload : List ℕ

abbrev pub seg_end : Segment → ℕ
seg_end s = s.rel_seq + length s.payload

-- sum(len(d) for _, _, d in segments)
unfoldable pub buffered_bytes : List Segment → ℕ
buffered_bytes [] = 0
buffered_bytes (s ∷ rest) = length s.payload + buffered_bytes rest

-- Python's `sort` is stable: an item goes before the equal ones that stood behind it.
unfoldable pub insert_segment : Segment → List Segment → List Segment
insert_segment s [] = s ∷ []
insert_segment s (t ∷ rest) =
    if leb s.rel_seq t.rel_seq then s ∷ t ∷ rest else t ∷ insert_segment s rest

unfoldable pub sort_segments : List Segment → List Segment
unfolding insert_segment
sort_segments [] = []
sort_segments (s ∷ rest) = insert_segment s (sort_segments rest)

-- `new_data`: the data of `seg` laid over `prev_data` at `overlap_off`. The slice assignment replaces
-- new_data[overlap_off : overlap_off + len(seg[2])].
unfoldable pub overlay_at : ℕ → List ℕ → List ℕ → List ℕ
overlay_at overlap_off prev_data seg_data =
    let seg_stop = overlap_off + length seg_data in
    let new_len = max (length prev_data) seg_stop in
    let padded = prev_data ++ replicate (new_len - length prev_data) 0 in
    if ltb overlap_off (length prev_data)
    then take overlap_off padded ++ (seg_data ++ drop seg_stop padded)
    else prev_data ++ (replicate (overlap_off - length prev_data) 0 ++ seg_data)

-- `merged[-1] = (prev_seq, prev_ack, new_data)`
abbrev pub overlay : Segment → Segment → Segment
overlay prev seg = record prev {
  payload = overlay_at (seg.rel_seq - prev.rel_seq) prev.payload seg.payload;
}

-- The loop over the segments; `last` is `merged[-1]`, and what `merged` holds before it is final.
unfoldable pub merge_from : Segment → List Segment → List Segment
merge_from last [] = last ∷ []
merge_from last (seg ∷ rest) = elim (leb seg.rel_seq (seg_end last)) [
  | true ↦ merge_from (overlay last seg) rest
  | false ↦ last ∷ merge_from seg rest
]

unfoldable pub merge_segments : List Segment → List Segment
unfolding merge_from
merge_segments [] = []
merge_segments (s ∷ rest) = merge_from s rest

-- What the cascade loop changes: `next_seq`, `contiguous` and `segments`.
pub record Front : Type 0 where
  pub next_seq : ℕ
  pub contiguous : List ℕ
  pub segments : List Segment

-- One popped segment: its bytes past `next_seq`, if it has any, join the contiguous ones.
unfoldable pub absorb : ℕ → List ℕ → Segment → ℕ × List ℕ
absorb next contiguous s =
    let new_start = next - s.rel_seq in
    if ltb next (seg_end s)
    then (next + (length s.payload - new_start), contiguous ++ drop new_start s.payload)
    else (next, contiguous)

unfoldable pub cascade : ℕ → List ℕ → List Segment → Front
unfolding absorb
cascade next contiguous [] = record { next_seq = next; contiguous = contiguous; segments = [] }
cascade next contiguous (s ∷ rest) = elim (leb s.rel_seq next) [
  | true ↦ cascade (absorb next contiguous s).0 (absorb next contiguous s).1 rest
  | false ↦ record { next_seq = next; contiguous = contiguous; segments = s ∷ rest }
]
