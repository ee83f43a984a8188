-- ===== src/Stream/Reassembler/Bounds.antt =====
-- The connection table across StreamReassembler.feed of dpkt/stream.py: its size, the connection of
-- the packet, and all other connections.
use dpkt_ng.Base.{
  ℕ, ◌≤◌, ◌<◌, ◌≡◌, refl, ap, false, Option, none, some, arith, inl, inr, Option-cases, leb, length,
  if◌then◌else◌,
}
use dpkt_ng.Stream.Counting.{is_some}
use dpkt_ng.Stream.Connection.{Connection}
use dpkt_ng.Stream.Reassembler.{
  Endpoint, ConnId, id_eq, Table, lookup, put, StreamReassembler, TcpPacket, victim, evict_one,
}
use dpkt_ng.Stream.Reassembler.Feed.{
  source, destination, packet_id, fresh_connection, connection_of, admit, serve, feed_packet, find,
}
use dpkt_ng.Stream.Reassembler.Keys.{conn_id_symm, id_eq_refl}
use dpkt_ng.Stream.Reassembler.Dict.{lookup-put, length-put, lookup-remove_ne, length-evict_one}

abbrev room : ℕ → Table → Table
room m t = if leb m (length t) then evict_one t else t

room-lt : (m : ℕ) (t : Table) → 0 < m → length t ≤ m → length (room m t) < m
room-lt m t h fits = ground (arith, length-evict_one t)

-- Why the arrival of a packet with key k leaves the connection j in the table: k is there already,
-- there is room, or another connection is the one to be evicted.
pub data Spared (m : ℕ) (k : ConnId) (t : Table) (j : ConnId) : Type 0 where
  is_known : (c : Connection) → lookup k t ≡ some c → Spared m k t j
  has_room : length t < m → Spared m k t j
  passed_over : (v : ConnId) → victim t ≡ some v → id_eq v j ≡ false → Spared m k t j

lookup-room :
    (m : ℕ) (k : ConnId) (t : Table) (j : ConnId)
    → lookup k t ≡ none
    → Spared m k t j
    → lookup j (room m t) ≡ lookup j t
unfolding evict_one
lookup-room m k t j new (is_known c e) = cc
lookup-room m k t j new (has_room h) = ground arith
lookup-room m k t j new (passed_over v e ne) = ground (arith, lookup-remove_ne v j t ne)

module _ (m : ℕ) (k : ConnId) (t : Table) where
  admit_known : {c : Connection} → lookup k t ≡ some c → admit m k t ≡ t
  unfolding admit
  admit_known h = rw (h, admit)

  admit_new : lookup k t ≡ none → admit m k t ≡ put k (fresh_connection k) (room m t)
  unfolding admit
  admit_new h = rw (h, admit)

  -- Once admitted, the connection is the one that was there, or a new one.
  lookup-admit : lookup k (admit m k t) ≡ some (connection_of k (lookup k t))
  lookup-admit = elim (Option-cases (lookup k t)) [
    | inl new ↦
        rw (admit_new new, new, lookup-put k k (fresh_connection k) (room m t), id_eq_refl k)
    | inr (c, known) ↦ rw (admit_known known, known) refl
  ]

  length-admit : 0 < m → length t ≤ m → length (admit m k t) ≤ m
  length-admit h fits = elim (Option-cases (lookup k t)) [
    | inl new ↦
        rw (admit_new new)
          (ground (arith, length-put k (fresh_connection k) (room m t), room-lt m t h fits))
    | inr (c, known) ↦ rw (admit_known known) fits
  ]

  lookup-admit_other :
      (j : ConnId) → id_eq k j ≡ false → Spared m k t j → lookup j (admit m k t) ≡ lookup j t
  lookup-admit_other j ne why = elim (Option-cases (lookup k t)) [
    | inr (c, known) ↦ rw (admit_known known)
    | inl new ↦
        rw (admit_new new, lookup-put k j (fresh_connection k) (room m t), ne)
          (lookup-room m k t j new why)
  ]

-- The packet's connection, the one that was there or a new one, once the packet is served.
abbrev pub fed_connection : StreamReassembler → TcpPacket → Connection
fed_connection r p =
    (serve r (packet_id p) (connection_of (packet_id p) (lookup (packet_id p) r.connections)) p).0

-- The connection of a packet after `feed`: the one that was there, or a new one, with the packet
-- taken in.
pub lookup-feed_packet :
    (r : StreamReassembler) (p : TcpPacket)
    → lookup (packet_id p) (feed_packet r p).1.connections ≡ some (fed_connection r p)
unfolding feed_packet
lookup-feed_packet r p =
    let k : ConnId = packet_id p in
    let t : Table = admit r.max_connections k r.connections in
    rw (
      lookup-put k k (serve r k (connection_of k (lookup k t)) p).0 t,
      id_eq_refl k,
      lookup-admit r.max_connections k r.connections,
    )

pub calls-feed_packet :
    (r : StreamReassembler) (p : TcpPacket)
    → (feed_packet r p).0
      ≡ (serve r
          (packet_id p)
          (connection_of (packet_id p) (lookup (packet_id p) r.connections))
          p).1
unfolding feed_packet
calls-feed_packet r p = rw (lookup-admit r.max_connections (packet_id p) r.connections)

-- Every other connection stays as it was, unless it is the one that is evicted.
pub lookup-feed_packet_other :
    (r : StreamReassembler) (p : TcpPacket) (j : ConnId)
    → id_eq (packet_id p) j ≡ false
    → Spared r.max_connections (packet_id p) r.connections j
    → lookup j (feed_packet r p).1.connections ≡ lookup j r.connections
unfolding feed_packet
lookup-feed_packet_other r p j ne why =
    let k : ConnId = packet_id p in
    let t : Table = admit r.max_connections k r.connections in
    rw (lookup-put k j (serve r k (connection_of k (lookup k t)) p).0 t, ne)
      (lookup-admit_other r.max_connections k r.connections j ne why)

abbrev pub find_between : Endpoint → Endpoint → StreamReassembler → Option Connection
find_between a b = find (some a.0) (some a.1) (some b.0) (some b.1)

-- `find` with all four parts gives one connection for both directions, whichever side it is asked
-- from: after `feed`, the one that the packet was fed to.
pub find-feed_packet :
    (r : StreamReassembler) (p : TcpPacket)
    → (find_between (source p) (destination p) (feed_packet r p).1 ≡ some (fed_connection r p))
      × (find_between (destination p) (source p) (feed_packet r p).1 ≡ some (fed_connection r p))
unfolding find
find-feed_packet r p =
    (lookup-feed_packet r p, rw (conn_id_symm (destination p) (source p)) (lookup-feed_packet r p))

-- The number of connections never passes `max_connections`, if that is not zero.
pub length-feed_packet :
    (r : StreamReassembler) (p : TcpPacket)
    → 0 < r.max_connections
    → length r.connections ≤ r.max_connections
    → length (feed_packet r p).1.connections ≤ r.max_connections
unfolding feed_packet
length-feed_packet r p h fits =
    let k : ConnId = packet_id p in
    let t : Table = admit r.max_connections k r.connections in
    ground (
      arith,
      length-put k (serve r k (connection_of k (lookup k t)) p).0 t,
      ap is_some (lookup-admit r.max_connections k r.connections),
      length-admit r.max_connections k r.connections h fits,
    )
