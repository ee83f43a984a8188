-- ===== src/Stream/Connection/Merged.antt =====
-- What merged_data of dpkt/stream.py's Connection puts out for each direction, against get_data.
use mathlib.Core.List.{append-nil, append_assoc}
use dpkt_ng.Base.{
  ℕ, ◌+◌, ◌-◌, ◌≤◌, ◌<◌, ◌≡◌, refl, sym, ap, ◌∙◌, Bool, true, false, none, some, List, [], ◌∷◌,
  ◌++◌, arith, All, inl, inr, Bool-cases, length, replicate, if◌then◌else◌,
}
use dpkt_ng.Base.Int.{pos, leb_ℤ}
use dpkt_ng.Stream.Segments.{Segment, seg_end}
use dpkt_ng.Stream.Buffer.{DirectionBuffer, is_empty, fill_segments, get_data}
use dpkt_ng.Stream.Sorting.{IsSeparated, IsSeparated-weaken}
use dpkt_ng.Stream.Flush.{fill_position}
use dpkt_ng.Stream.Connection.{
  Connection, Direction, to_server, to_client, Item, contiguous_items, segment_item, segment_items,
  merged_data, clear_buffer, buffer_items, connection_items, item_le, sort_items, emit, position,
  merged_pieces,
}
use dpkt_ng.Stream.Connection.Directions.{
  same_direction, of_direction, bytes_of, IsOrdered, of_direction-sort, emit_all,
  bytes_of-merge_items,
}

abbrev pub buffer_of : Direction → Connection → DirectionBuffer
buffer_of to_server c = c.c2s
buffer_of to_client c = c.s2c

of_direction-append :
    (d : Direction) (l m : List Item)
    → of_direction d (l ++ m) ≡ of_direction d l ++ of_direction d m
unfolding of_direction
of_direction-append d [] m = refl
of_direction-append d (a ∷ rest) m = ground (arith, of_direction-append d rest m)

of_direction-segments :
    (d e : Direction) (l : List Segment)
    → of_direction d (segment_items e l) ≡ (if same_direction d e then segment_items e l else [])
unfolding of_direction segment_items
of_direction-segments d e [] = ground arith
of_direction-segments d e (t ∷ rest) = ground (arith, of_direction-segments d e rest)

of_direction-contiguous :
    (d e : Direction) (next : ℕ) (xs : List ℕ)
    → of_direction d (contiguous_items e next xs)
      ≡ (if same_direction d e then contiguous_items e next xs else [])
unfolding of_direction
of_direction-contiguous d e next [] = ground arith
of_direction-contiguous d e next (x ∷ xs) = refl

of_direction-buffer :
    (d e : Direction) (b : DirectionBuffer)
    → of_direction d (buffer_items e b) ≡ (if same_direction d e then buffer_items e b else [])
of_direction-buffer d e b = ground (
  arith,
  of_direction-append d (contiguous_items e b.next_seq b.contiguous) (segment_items e b.segments),
  of_direction-contiguous d e b.next_seq b.contiguous,
  of_direction-segments d e b.segments,
)

of_direction-connection :
    (d : Direction) (c : Connection)
    → of_direction d (connection_items c) ≡ buffer_items d (buffer_of d c)
unfolding connection_items
of_direction-connection to_server c =
    of_direction-append to_server (buffer_items to_server c.c2s) (buffer_items to_client c.s2c)
    ∙ rw
        (
          of_direction-buffer to_server to_server c.c2s,
          of_direction-buffer to_server to_client c.s2c,
        )
        (append-nil _)
of_direction-connection to_client c =
    of_direction-append to_client (buffer_items to_server c.c2s) (buffer_items to_client c.s2c)
    ∙ rw
        (
          of_direction-buffer to_client to_server c.c2s,
          of_direction-buffer to_client to_client c.s2c,
        )
        refl

later_items :
    (a : Item) (d : Direction) (n : ℕ) (l : List Segment)
    → leb_ℤ a.rel_seq (pos n) ≡ true
    → IsSeparated n l
    → All (λ b. item_le a b ≡ true) (segment_items d l)
unfolding segment_items
later_items a d n [] h sep = tt
later_items a d n (t ∷ rest) h sep =
    (unfold item_le in ground arith, later_items a d (seg_end t) rest (ground arith) sep.2)

segment_items-IsOrdered :
    (d : Direction) (n : ℕ) (l : List Segment) → IsSeparated n l → IsOrdered (segment_items d l)
unfolding segment_items
segment_items-IsOrdered d n [] sep = tt
segment_items-IsOrdered d n (t ∷ rest) sep = (
  later_items _ d (seg_end t) rest (ground arith) sep.2,
  segment_items-IsOrdered d (seg_end t) rest sep.2,
)

buffer_items-IsOrdered :
    (d : Direction) (next : ℕ) (xs : List ℕ) (l : List Segment)
    → IsSeparated next l
    → IsOrdered (contiguous_items d next xs ++ segment_items d l)
buffer_items-IsOrdered d next [] l sep = segment_items-IsOrdered d next l sep
buffer_items-IsOrdered d next (x ∷ xs) l sep =
    (later_items _ d next l (ground arith) sep, segment_items-IsOrdered d next l sep)

-- The bytes of one direction are those that the loop makes of its buffer's items alone.
no_position : (d : Direction) → position d (record { at_c2s = none; at_s2c = none }) ≡ none
no_position to_server = refl
no_position to_client = refl

direction_bytes :
    (d : Direction) (fill : Bool) (c : Connection)
    → IsSeparated (buffer_of d c).next_seq (buffer_of d c).segments
    → bytes_of d (merged_pieces fill c) ≡ emit_all fill none (buffer_items d (buffer_of d c))
unfolding merged_pieces
direction_bytes d fill c sep =
    let b : DirectionBuffer = buffer_of d c in
    let own : of_direction d (connection_items c) ≡ buffer_items d b =
      of_direction-connection d c in
    bytes_of-merge_items d fill (record { at_c2s = none; at_s2c = none })
      (sort_items (connection_items c))
    ∙ rw
        (of_direction-sort d (connection_items c)
          (rw own (buffer_items-IsOrdered d b.next_seq b.contiguous b.segments sep)))
        (rw (own, no_position d) refl)

module _ (item : Item) (n r : ℕ) (at : item.rel_seq ≡ pos r) (gap : n < r) where
  emit_skips : emit false (some (pos n)) item ≡ ([], some (pos n))
  unfolding emit
  emit_skips = ground arith

  emit_pads :
      0 < length item.payload
      → emit true (some (pos n)) item
        ≡ (replicate (r - n) 0 ++ item.payload, some (pos (r + length item.payload)))
  unfolding emit
  emit_pads full = ground arith

emit_segments :
    (d : Direction) (fill : Bool) (n : ℕ) (l : List Segment)
    → IsSeparated n l
    → emit_all fill (some (pos n)) (segment_items d l) ≡ (if fill then fill_segments n l else [])
unfolding emit_all segment_items fill_segments
emit_segments d fill n [] sep = ground arith
emit_segments d false n (t ∷ rest) sep =
    rw (emit_skips (segment_item d t) n t.rel_seq refl sep.0)
      (emit_segments d false n rest (IsSeparated-weaken n (seg_end t) rest (omega arith) sep.2))
emit_segments d true n (t ∷ rest) sep =
    rw (emit_pads (segment_item d t) n t.rel_seq refl sep.0 sep.1, fill_position n t sep.0)
      (rw (emit_segments d true (seg_end t) rest sep.2)
        (append_assoc (replicate (t.rel_seq - n) 0) t.payload _))

data_bytes :
    (fill : Bool) (b : DirectionBuffer)
    → b.contiguous ++ (if fill then fill_segments b.next_seq b.segments else [])
      ≡ (get_data fill b).0
unfolding get_data
data_bytes true b = refl
data_bytes false b = append-nil b.contiguous

emit_first :
    (d : Direction) (t : Segment)
    → emit false none (segment_item d t) ≡ (t.payload, some (pos (seg_end t)))
unfolding emit
emit_first d t = ground arith

first_segment :
    (d : Direction) (t : Segment) (rest : List Segment)
    → IsSeparated (seg_end t) rest
    → emit_all false none (segment_items d (t ∷ rest)) ≡ t.payload
unfolding emit_all segment_items
first_segment d t rest sep =
    rw (emit_first d t)
      (ap (λ x. t.payload ++ x) (emit_segments d false (seg_end t) rest sep) ∙ append-nil t.payload)

emit_contiguous :
    (d : Direction) (fill : Bool) (next : ℕ) (xs : List ℕ)
    → 0 < length xs
    → length xs ≤ next
    → (rest : List Item)
    → emit_all fill none (contiguous_items d next xs ++ rest)
      ≡ xs ++ emit_all fill (some (pos next)) rest
unfolding emit_all emit
emit_contiguous d fill next [] full fits rest = absurd (omega arith)
emit_contiguous d fill next (x ∷ xs) full fits rest = ground arith

-- For a direction with contiguous bytes, merged_data puts out exactly what get_data would: those
-- bytes alone, or with fill_gaps those and the zero-padded segments, whatever the other direction
-- holds.
pub merged_direction :
    (d : Direction) (fill : Bool) (c : Connection)
    → 0 < length (buffer_of d c).contiguous
    → length (buffer_of d c).contiguous ≤ (buffer_of d c).next_seq
    → IsSeparated (buffer_of d c).next_seq (buffer_of d c).segments
    → bytes_of d (merged_pieces fill c) ≡ (get_data fill (buffer_of d c)).0
merged_direction d fill c full fits sep =
    let b : DirectionBuffer = buffer_of d c in
    direction_bytes d fill c sep
    ∙ emit_contiguous d fill b.next_seq b.contiguous full fits (segment_items d b.segments)
    ∙ rw (emit_segments d fill b.next_seq b.segments sep) (data_bytes fill b)

-- For a direction without contiguous bytes, merged_data puts out its first segment although there
-- is a gap before it, also without fill_gaps, and none of the segments behind that one.
pub merged_gap_skipped :
    (d : Direction) (c : Connection) (t : Segment) (rest : List Segment)
    → (buffer_of d c).contiguous ≡ []
    → (buffer_of d c).segments ≡ t ∷ rest
    → IsSeparated (buffer_of d c).next_seq (t ∷ rest)
    → bytes_of d (merged_pieces false c) ≡ t.payload
merged_gap_skipped d c t rest nothing segs sep =
    direction_bytes d false c (rw segs sep) ∙ rw (nothing, segs) (first_segment d t rest sep.2)

no_items :
    (d : Direction) (b : DirectionBuffer)
    → buffer_items d b ≡ []
    → (b.contiguous ≡ []) × (b.segments ≡ [])
unfolding segment_items
no_items d b h = ground arith

is_empty→eq : (l : List Item) → is_empty l ≡ true → l ≡ []
is_empty→eq [] h = refl
is_empty→eq (a ∷ rest) h = cc

of_direction-nil : (d : Direction) → of_direction d [] ≡ []
unfolding of_direction
of_direction-nil d = refl

cleared_both :
    (d : Direction) (c : Connection)
    → ((buffer_of d (record c { c2s = clear_buffer c.c2s; s2c = clear_buffer c.s2c })).contiguous
        ≡ [])
      × ((buffer_of d (record c { c2s = clear_buffer c.c2s; s2c = clear_buffer c.s2c })).segments
          ≡ [])
cleared_both to_server c = (refl, refl)
cleared_both to_client c = (refl, refl)

-- merged_data leaves nothing in either buffer, what it did not put out included.
pub merged_clears :
    (d : Direction) (fill : Bool) (c : Connection)
    → ((buffer_of d (merged_data fill c).1).contiguous ≡ [])
      × ((buffer_of d (merged_data fill c).1).segments ≡ [])
unfolding merged_data
merged_clears d fill c = elim (Bool-cases (is_empty (connection_items c))) [
  | inl idle ↦ rw idle (
      no_items d (buffer_of d c) (
        sym (of_direction-connection d c)
        ∙ ap (of_direction d) (is_empty→eq (connection_items c) idle)
        ∙ of_direction-nil d))
  | inr busy ↦ rw busy (cleared_both d c)
]
