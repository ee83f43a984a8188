-- ===== src/Stream/Reassembler/Feed.antt =====
-- StreamReassembler.feed and find of dpkt/stream.py.
use dpkt_ng.Base.{
  ℕ, Bool, true, ◌&&◌, Option, none, some, List, [], ◌∷◌, ◌++◌, leb, ltb, ◌==◌, list_eq,
  if◌then◌else◌, length,
}
use dpkt_ng.Stream.Buffer.{DirectionBuffer, get_data}
use dpkt_ng.Stream.Connection.{Connection, new_connection, feed_connection, merged_data}
use dpkt_ng.Stream.Reassembler.{
  inet_ntoa, Endpoint, conn_id, ConnId, Table, lookup, put, StreamReassembler, Delivery, TcpPacket,
  evict_one,
}

abbrev pub source : TcpPacket → Endpoint
source p = (inet_ntoa p.src, p.sport)

abbrev pub destination : TcpPacket → Endpoint
destination p = (inet_ntoa p.dst, p.dport)

abbrev pub packet_id : TcpPacket → ConnId
packet_id p = conn_id (source p) (destination p)

abbrev pub fresh_connection : ConnId → Connection
fresh_connection k = new_connection k.0.0 k.0.1 k.1.0 k.1.1

-- The table once `conn_id` is in it.
unfoldable pub admit : ℕ → ConnId → Table → Table
admit max_connections k t = elim (lookup k t) [
  | some c ↦ t
  | none ↦ put k (fresh_connection k) (if leb max_connections (length t) then evict_one t else t)
]

-- The connection of the packet, with the packet in its buffer.
unfoldable pub take_in : Connection → TcpPacket → Connection
take_in c p = feed_connection c (inet_ntoa p.src) p.sport p.seq p.ack p.payload p.flags

-- for cb in callbacks: if data: cb(conn, data)
abbrev pub call : ConnId → List ℕ → ℕ → List Delivery
call k [] cb = []
call k (x ∷ xs) cb = record { callback = cb; conn = k; bytes = x ∷ xs } ∷ []

unfoldable pub call_each : ConnId → List ℕ → List ℕ → List ℕ → List Delivery
call_each k [] first second = []
call_each k (cb ∷ rest) first second =
    call k first cb ++ (call k second cb ++ call_each k rest first second)

-- The output branch: the connection after it, and the calls.
unfoldable pub put_out : StreamReassembler → ConnId → Connection → Connection × List Delivery
put_out r k c =
    if r.separate
    then (
      record c { c2s = (get_data r.fill_gaps c.c2s).1; s2c = (get_data r.fill_gaps c.s2c).1 },
      call_each k r.callbacks (get_data r.fill_gaps c.c2s).0 (get_data r.fill_gaps c.s2c).0,
    )
    else ((merged_data r.fill_gaps c).1, call_each k r.callbacks (merged_data r.fill_gaps c).0 [])

-- The check of `max_buffer_per_dir`; the bytes that get_data returns are dropped.
unfoldable pub limit_buffer : ℕ → Bool → DirectionBuffer → DirectionBuffer
limit_buffer max_buffer fill b = if ltb max_buffer b.total_buffered then (get_data fill b).1 else b

abbrev pub limit_buffers : StreamReassembler → Connection → Connection
limit_buffers r c = record c {
  c2s = limit_buffer r.max_buffer_per_dir r.fill_gaps c.c2s;
  s2c = limit_buffer r.max_buffer_per_dir r.fill_gaps c.s2c;
}

-- What `feed` does to the connection that it found: it is returned, and stands in the table.
unfoldable pub serve :
    StreamReassembler → ConnId → Connection → TcpPacket → Connection × List Delivery
serve r k c p = let (c', calls) = put_out r k (take_in c p) in (limit_buffers r c', calls)

abbrev pub connection_of : ConnId → Option Connection → Connection
connection_of k none = fresh_connection k
connection_of k (some c) = c

-- StreamReassembler.feed: the calls, and the reassembler after it. The connection is there after
-- `admit`, so that the case of `none` does not arise.
unfoldable pub feed_packet : StreamReassembler → TcpPacket → List Delivery × StreamReassembler
feed_packet r p =
    let k = packet_id p in
    let t = admit r.max_connections k r.connections in
    let (c, calls) = serve r k (connection_of k (lookup k t)) p in
    (calls, record r { connections = put k c t })

-- Whether a part of the key is free (None) or the one that is asked for.
abbrev fits_ip : Option (List ℕ) → List ℕ → Bool
fits_ip none x = true
fits_ip (some y) x = list_eq x y

abbrev fits_port : Option ℕ → ℕ → Bool
fits_port none x = true
fits_port (some y) x = x == y

unfoldable pub find_first :
    Option (List ℕ) → Option ℕ → Option (List ℕ) → Option ℕ → Table → Option Connection
find_first src sport dst dport [] = none
find_first src sport dst dport ((k, c) ∷ rest) =
    if fits_ip src k.0.0 && (fits_port sport k.0.1 && (fits_ip dst k.1.0 && fits_port dport k.1.1))
    then some c
    else find_first src sport dst dport rest

-- StreamReassembler.find
unfoldable pub find :
    Option (List ℕ) → Option ℕ → Option (List ℕ) → Option ℕ → StreamReassembler → Option Connection
find (some src) (some sport) (some dst) (some dport) r =
    lookup (conn_id (src, sport) (dst, dport)) r.connections
find src sport dst dport r = find_first src sport dst dport r.connections
