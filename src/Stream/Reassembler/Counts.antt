-- ===== src/Stream/Reassembler/Counts.antt =====
-- The byte counts of all connections across StreamReassembler.feed of dpkt/stream.py, and what
-- `max_buffer_per_dir` bounds.
use dpkt_ng.Base.{
  ℕ, ◌≤◌, ◌≡◌, Bool, true, false, [], ◌∷◌, arith, inl, inr, Bool-cases, Option-cases, All, leb, ltb,
  length,
}
use dpkt_ng.Stream.Segments.{buffered_bytes}
use dpkt_ng.Stream.Buffer.{DirectionBuffer, is_empty, get_data}
use dpkt_ng.Stream.Counting.{IsCounted, feed-IsCounted, get_data-IsCounted, empty_buffer-IsCounted}
use dpkt_ng.Stream.Connection.{
  Connection, feed_connection, merged_data, clear_buffer, connection_items,
}
use dpkt_ng.Stream.Reassembler.{
  ConnId, id_eq, Table, lookup, put, remove, victim, evict_one, StreamReassembler, TcpPacket,
}
use dpkt_ng.Stream.Reassembler.Feed.{
  packet_id, fresh_connection, connection_of, admit, take_in, put_out, limit_buffer, serve,
  feed_packet,
}

-- Both buffers of the connection are counted exactly.
pub record BothCounted (c : Connection) : Type 0 where
  pub c2s : IsCounted c.c2s
  pub s2c : IsCounted c.s2c

abbrev pub AllCounted : Table → Type 0
AllCounted t = All (λ e. BothCounted e.1) t

put-AllCounted :
    (k : ConnId) (c : Connection) (t : Table)
    → BothCounted c
    → AllCounted t
    → AllCounted (put k c t)
unfolding put
put-AllCounted k c [] h all = (h, tt)
put-AllCounted k c ((j, d) ∷ rest) h all = elim (Bool-cases (id_eq j k)) [
  | inl same ↦ rw same (h, all.1)
  | inr other ↦ rw other (all.0, put-AllCounted k c rest h all.1)
]

remove-AllCounted : (k : ConnId) (t : Table) → AllCounted t → AllCounted (remove k t)
unfolding remove
remove-AllCounted k [] all = tt
remove-AllCounted k ((j, d) ∷ rest) all = elim (Bool-cases (id_eq j k)) [
  | inl same ↦ rw same all.1
  | inr other ↦ rw other (all.0, remove-AllCounted k rest all.1)
]

evict_one-AllCounted : (t : Table) → AllCounted t → AllCounted (evict_one t)
unfolding evict_one
evict_one-AllCounted t all = elim (Option-cases (victim t)) [
  | inl none_found ↦ rw none_found all
  | inr (k, e) ↦ rw e (remove-AllCounted k t all)
]

lookup-BothCounted :
    (k : ConnId) (t : Table) → AllCounted t → BothCounted (connection_of k (lookup k t))
unfolding lookup
lookup-BothCounted k [] all = record { c2s = empty_buffer-IsCounted; s2c = empty_buffer-IsCounted }
lookup-BothCounted k ((j, d) ∷ rest) all = elim (Bool-cases (id_eq j k)) [
  | inl same ↦ rw same all.0
  | inr other ↦ rw other (lookup-BothCounted k rest all.1)
]

admit-AllCounted : (m : ℕ) (k : ConnId) (t : Table) → AllCounted t → AllCounted (admit m k t)
unfolding admit
admit-AllCounted m k t all = elim (Option-cases (lookup k t)) [
  | inr (c, known) ↦ rw (known, admit) all
  | inl new ↦
      rw (new, admit)
        (elim (Bool-cases (leb m (length t))) [
          | inl full ↦ rw full (put-AllCounted k _ (evict_one t) fresh (evict_one-AllCounted t all))
          | inr free ↦ rw free (put-AllCounted k _ t fresh all)
        ])
]
  where
    fresh : BothCounted (fresh_connection k)
    fresh = record { c2s = empty_buffer-IsCounted; s2c = empty_buffer-IsCounted }

clear_buffer-IsCounted : (b : DirectionBuffer) → IsCounted b → IsCounted (clear_buffer b)
unfolding buffered_bytes
clear_buffer-IsCounted b h = ground arith

merged_data-BothCounted :
    (fill : Bool) (c : Connection) → BothCounted c → BothCounted (merged_data fill c).1
unfolding merged_data
merged_data-BothCounted fill c h = elim (Bool-cases (is_empty (connection_items c))) [
  | inl idle ↦ rw idle h
  | inr busy ↦ rw busy (record {
    c2s = clear_buffer-IsCounted c.c2s h.c2s;
    s2c = clear_buffer-IsCounted c.s2c h.s2c;
  })
]

limit_buffer-IsCounted :
    (m : ℕ) (fill : Bool) (b : DirectionBuffer) → IsCounted b → IsCounted (limit_buffer m fill b)
unfolding limit_buffer
limit_buffer-IsCounted m fill b h = elim (Bool-cases (ltb m b.total_buffered)) [
  | inl over ↦ rw over (get_data-IsCounted fill b h)
  | inr within ↦ rw within h
]

take_in-BothCounted : (c : Connection) (p : TcpPacket) → BothCounted c → BothCounted (take_in c p)
unfolding take_in feed_connection
take_in-BothCounted c p h = ground (
  arith,
  feed-IsCounted c.c2s p.seq p.ack p.payload p.flags h.c2s,
  feed-IsCounted c.s2c p.seq p.ack p.payload p.flags h.s2c,
)

put_out-BothCounted :
    (r : StreamReassembler) (k : ConnId) (c : Connection)
    → BothCounted c
    → BothCounted (put_out r k c).0
unfolding put_out
put_out-BothCounted r k c h = elim (Bool-cases r.separate) [
  | inl separate ↦ rw separate (record {
    c2s = get_data-IsCounted r.fill_gaps c.c2s h.c2s;
    s2c = get_data-IsCounted r.fill_gaps c.s2c h.s2c;
  })
  | inr merged ↦ rw merged (merged_data-BothCounted r.fill_gaps c h)
]

-- After any packet every buffer of every connection has its exact byte count again, in both output
-- modes, with eviction and with the buffer limit.
pub feed_packet-AllCounted :
    (r : StreamReassembler) (p : TcpPacket)
    → AllCounted r.connections
    → AllCounted (feed_packet r p).1.connections
unfolding feed_packet serve
feed_packet-AllCounted r p all =
    let k : ConnId = packet_id p in
    let t : Table = admit r.max_connections k r.connections in
    let t_counted : AllCounted t = admit-AllCounted r.max_connections k r.connections all in
    let fed : Connection = take_in (connection_of k (lookup k t)) p in
    let out : BothCounted (put_out r k fed).0 =
      put_out-BothCounted r k fed (take_in-BothCounted _ p (lookup-BothCounted k t t_counted)) in
    put-AllCounted k _ t
      (record {
        c2s =
            limit_buffer-IsCounted r.max_buffer_per_dir r.fill_gaps (put_out r k fed).0.c2s out.c2s;
        s2c =
            limit_buffer-IsCounted r.max_buffer_per_dir r.fill_gaps (put_out r k fed).0.s2c out.s2c;
      })
      t_counted

-- With gap filling the limit holds after the check. Without it the check lets go of contiguous bytes
-- only: the out-of-order segments stay, however many bytes they hold.
pub limit_buffer_bounds :
    (m : ℕ) (b : DirectionBuffer)
    → IsCounted b
    → ((limit_buffer m true b).total_buffered ≤ m)
      × ((limit_buffer m false b).segments ≡ b.segments)
      × (buffered_bytes b.segments ≤ (limit_buffer m false b).total_buffered)
unfolding limit_buffer get_data
limit_buffer_bounds m b h = ground arith
