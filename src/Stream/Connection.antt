-- ===== src/Stream/Connection.antt =====
-- class Connection of dpkt/stream.py: one TCP connection with a reassembly buffer for each direction.
pub mod Directions
pub mod Merged
use dpkt_ng.Base.{
  ℕ, Bool, true, false, ◌&&◌, Option, none, some, List, [], ◌∷◌, ◌++◌, leb, ltb, ◌==◌, list_eq,
  if◌then◌else◌, length, drop, replicate,
}
use dpkt_ng.Base.Int.{ℤ, pos, pos_part, ◌+ℤ◌, ◌-ℤ◌, leb_ℤ, ltb_ℤ}
use dpkt_ng.Stream.Segments.{Segment}
use dpkt_ng.Stream.Buffer.{DirectionBuffer, empty_buffer, is_empty, feed, is_complete}

-- An address is its dotted text; `conn_id` is the four first fields.
pub record Connection : Type 0 where
  pub src_ip : List ℕ
  pub src_port : ℕ
  pub dst_ip : List ℕ
  pub dst_port : ℕ
  pub c2s : DirectionBuffer
  pub s2c : DirectionBuffer
  pub client_isn : Option ℕ
  pub server_isn : Option ℕ

abbrev pub new_connection : List ℕ → ℕ → List ℕ → ℕ → Connection
new_connection src_ip src_port dst_ip dst_port = record {
  src_ip = src_ip;
  src_port = src_port;
  dst_ip = dst_ip;
  dst_port = dst_port;
  c2s = empty_buffer;
  s2c = empty_buffer;
  client_isn = none;
  server_isn = none;
}

-- The property is_closed.
unfoldable pub is_closed : Connection → Bool
is_closed c = is_complete c.c2s && is_complete c.s2c

-- Connection.feed: a packet from the source is for `c2s`, any other for `s2c`.
unfoldable pub feed_connection : Connection → List ℕ → ℕ → ℕ → ℕ → List ℕ → ℕ → Connection
feed_connection c src_ip sport seq ack payload flags =
    if list_eq src_ip c.src_ip && (sport == c.src_port)
    then record c { c2s = feed c.c2s seq ack payload flags }
    else record c { s2c = feed c.s2c seq ack payload flags }

-- The strings 'c2s' and 's2c'.
pub data Direction : Type 0 where
  to_server to_client : Direction

-- An item (direction, rel_seq, ack, data) of `merged_data`. The base of the contiguous bytes is a
-- difference, which Python may let go below zero.
pub record Item : Type 0 where
  pub direction : Direction
  pub rel_seq : ℤ
  pub ack : ℕ
  pub payload : List ℕ

-- `if buf.contiguous: items.append((direction, base, 0, …))`
abbrev pub contiguous_items : Direction → ℕ → List ℕ → List Item
contiguous_items d next [] = []
contiguous_items d next (x ∷ xs) =
    record { direction = d; rel_seq = pos next -ℤ pos (length (x ∷ xs)); ack = 0; payload = x ∷ xs }
    ∷ []

abbrev pub segment_item : Direction → Segment → Item
segment_item d s = record {
  direction = d;
  rel_seq = pos s.rel_seq;
  ack = s.ack;
  payload = s.payload;
}

unfoldable pub segment_items : Direction → List Segment → List Item
segment_items d [] = []
segment_items d (s ∷ rest) = segment_item d s ∷ segment_items d rest

abbrev pub buffer_items : Direction → DirectionBuffer → List Item
buffer_items d b = contiguous_items d b.next_seq b.contiguous ++ segment_items d b.segments

unfoldable pub connection_items : Connection → List Item
connection_items c = buffer_items to_server c.c2s ++ buffer_items to_client c.s2c

abbrev pub rank : Direction → ℕ
rank to_server = 0
rank to_client = 1

-- The order of `sort_key`, (rel_seq, 0 if direction == 'c2s' else 1).
unfoldable pub item_le : Item → Item → Bool
item_le a b =
    if ltb_ℤ a.rel_seq b.rel_seq
    then true
    else if ltb_ℤ b.rel_seq a.rel_seq
    then false
    else leb (rank a.direction) (rank b.direction)

-- Python's stable sort.
unfoldable pub insert_item : Item → List Item → List Item
insert_item a [] = a ∷ []
insert_item a (b ∷ rest) = if item_le a b then a ∷ b ∷ rest else b ∷ insert_item a rest

unfoldable pub sort_items : List Item → List Item
sort_items [] = []
sort_items (a ∷ rest) = insert_item a (sort_items rest)

abbrev pub max_ℤ : ℤ → ℤ → ℤ
max_ℤ a b = if leb_ℤ a b then b else a

-- One round of the loop: what is put out, and the new `pos_by_dir[direction]`, which `continue`
-- leaves alone.
unfoldable pub emit : Bool → Option ℤ → Item → List ℕ × Option ℤ
emit fill none item =
    (item.payload, some (max_ℤ (pos 0) (item.rel_seq +ℤ pos (length item.payload))))
emit fill (some p) item =
    let after : Option ℤ = some (max_ℤ p (item.rel_seq +ℤ pos (length item.payload))) in
    let overlap : ℕ = pos_part (p -ℤ item.rel_seq) in
    let fresh : List ℕ =
      if ltb overlap (length item.payload) then drop overlap item.payload else [] in
    if ltb_ℤ p item.rel_seq
    then (if fill
        then (replicate (pos_part (item.rel_seq -ℤ p)) 0 ++ fresh, after)
        else ([], some p))
    else (fresh, after)

-- The two entries of `pos_by_dir`.
pub record Positions : Type 0 where
  pub at_c2s : Option ℤ
  pub at_s2c : Option ℤ

abbrev pub position : Direction → Positions → Option ℤ
position to_server p = p.at_c2s
position to_client p = p.at_s2c

abbrev pub set_position : Direction → Option ℤ → Positions → Positions
set_position to_server v p = record p { at_c2s = v }
set_position to_client v p = record p { at_s2c = v }

-- The pieces that the loop appends to `result`, each with the direction that it comes from.
unfoldable pub merge_items : Bool → Positions → List Item → List (Direction × List ℕ)
merge_items fill p [] = []
merge_items fill p (item ∷ rest) =
    let (bytes, after) = emit fill (position item.direction p) item in
    (item.direction, bytes) ∷ merge_items fill (set_position item.direction after p) rest

unfoldable pub join_pieces : List (Direction × List ℕ) → List ℕ
join_pieces [] = []
join_pieces ((d, bytes) ∷ rest) = bytes ++ join_pieces rest

abbrev pub clear_buffer : DirectionBuffer → DirectionBuffer
clear_buffer b = record b { contiguous = []; segments = []; total_buffered = 0 }

unfoldable pub merged_pieces : Bool → Connection → List (Direction × List ℕ)
merged_pieces fill c =
    merge_items fill (record { at_c2s = none; at_s2c = none }) (sort_items (connection_items c))

-- Connection.merged_data: the bytes, and the connection with both buffers cleared.
unfoldable pub merged_data : Bool → Connection → List ℕ × Connection
merged_data fill c = if is_empty (connection_items c) then ([], c) else (
  join_pieces (merged_pieces fill c),
  record c { c2s = clear_buffer c.c2s; s2c = clear_buffer c.s2c },
)
