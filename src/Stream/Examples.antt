-- ===== src/Stream/Examples.antt =====
-- The theorems on flushes, faults, merged output and the connection table of dpkt/stream.py, at
-- concrete packets.
use dpkt_ng.Base.{
  ℕ, ◌+◌, ◌-◌, ◌≤◌, ◌≡◌, refl, true, false, none, some, [], ◌∷◌, ◌++◌, arith, replicate,
}
use dpkt_ng.Stream.Segments.{buffered_bytes}
use dpkt_ng.Stream.Buffer.{DirectionBuffer, has_syn, has_fin, feed, get_data}
use dpkt_ng.Stream.Slices.{slice}
use dpkt_ng.Stream.Delivery.{Holds, Carries}
use dpkt_ng.Stream.Counting.{IsCounted}
use dpkt_ng.Stream.Reassembly.{Opens}
use dpkt_ng.Stream.Flush.{masked, last_end, flush_masked}
use dpkt_ng.Stream.Faults.{resent_syn_repeats, wrapped_data_lost, flush_repeats_gap}
use dpkt_ng.Stream.Connection.{
  Connection, new_connection, to_server, to_client, merged_pieces, merged_data,
}
use dpkt_ng.Stream.Connection.Directions.{bytes_of}
use dpkt_ng.Stream.Connection.Merged.{merged_direction, merged_gap_skipped, merged_clears}
use dpkt_ng.Stream.Reassembler.{Addr, conn_id, lookup, StreamReassembler, TcpPacket}
use dpkt_ng.Stream.Reassembler.Feed.{source, destination, feed_packet, limit_buffer}
use dpkt_ng.Stream.Reassembler.Delivered.{heard}
use dpkt_ng.Stream.Reassembler.EndToEnd.{feed_packets, stream_buffer, callback_hears_stream}
use dpkt_ng.Stream.Reassembler.Counts.{feed_packet-AllCounted, AllCounted, limit_buffer_bounds}

abbrev letters : ℕ → ℕ
letters p = p + 64

-- "A" has been joined and "D", "E" are buffered behind a gap.
abbrev gapped : DirectionBuffer
gapped = record {
  isn = some 100;
  next_seq = 2;
  fin_seq = none;
  syn_received = true;
  fin_received = false;
  contiguous = 65 ∷ [];
  segments = record { rel_seq = 4; ack = 0; payload = 68 ∷ 69 ∷ [] } ∷ [];
  total_buffered = 3;
}

gapped-Holds : Holds letters 100 [] gapped
unfolding slice
gapped-Holds = record {
  known = refl;
  started = omega arith;
  bytes = refl;
  separated = (omega arith, omega arith, tt);
  parts = (refl, tt);
}

gapped-IsCounted : IsCounted gapped
unfolding buffered_bytes
gapped-IsCounted = record {
  total = refl;
  syn_known = refl;
  fin_known = refl;
  fin_after_syn = λ e. refl;
  idle = λ e. cc;
}

flush_masked_example :
    ((get_data true gapped).0
      ≡ gapped.contiguous
        ++ slice (masked letters gapped.segments) 2 (last_end 2 gapped.segments - 2))
    × ((get_data true gapped).1
        ≡ record gapped { contiguous = []; segments = []; total_buffered = 0 })
flush_masked_example = flush_masked letters 100 [] gapped gapped-Holds

-- A buffer that has joined "AB" and holds nothing else.
abbrev joined : DirectionBuffer
joined = record gapped {
  next_seq = 3;
  contiguous = 65 ∷ 66 ∷ [];
  segments = [];
  total_buffered = 2;
}

resent_syn_repeats_example :
    (feed (feed joined 100 0 [] 2) 101 0 (65 ∷ 66 ∷ []) 16).contiguous ≡ 65 ∷ 66 ∷ 65 ∷ 66 ∷ []
unfolding has_syn has_fin
resent_syn_repeats_example =
    resent_syn_repeats joined 100 0 0 (65 ∷ 66 ∷ []) 2 16 refl refl refl refl (omega arith)

-- The SYN had the number 4294967290, and the next bytes have wrapped round to 4.
abbrev near_wrap : DirectionBuffer
near_wrap = record joined { isn = some 4294967290; next_seq = 10 }

wrapped_data_lost_example : feed near_wrap 4 0 (67 ∷ 68 ∷ []) 16 ≡ near_wrap
unfolding has_syn has_fin
wrapped_data_lost_example =
    wrapped_data_lost near_wrap 4 0 (67 ∷ 68 ∷ []) 16 refl refl refl (omega arith)

flush_repeats_gap_example :
    (get_data true (feed (get_data true gapped).1 106 0 (70 ∷ []) 16)).0
    ≡ replicate (6 - 2) 0 ++ 70 ∷ []
unfolding has_syn has_fin
flush_repeats_gap_example =
    flush_repeats_gap gapped 6 0 (70 ∷ []) 16 refl refl refl (omega arith) (omega arith)

abbrev client : Addr
client = record { b0 = 10; b1 = 0; b2 = 0; b3 = 1 }

abbrev server : Addr
server = record { b0 = 10; b1 = 0; b2 = 0; b3 = 2 }

abbrev gapped_connection : Connection
gapped_connection = record (new_connection (49 ∷ []) 1 (50 ∷ []) 2) {
  c2s = gapped;
  s2c = record gapped { contiguous = [] };
}

merged_direction_example :
    bytes_of to_server (merged_pieces true gapped_connection) ≡ (get_data true gapped).0
merged_direction_example =
    merged_direction to_server true gapped_connection (omega arith) (omega arith)
      (omega arith, omega arith, tt)

merged_gap_skipped_example :
    bytes_of to_client (merged_pieces false gapped_connection) ≡ 68 ∷ 69 ∷ []
merged_gap_skipped_example =
    merged_gap_skipped to_client gapped_connection
      (record { rel_seq = 4; ack = 0; payload = 68 ∷ 69 ∷ [] }) [] refl refl
      (omega arith, omega arith, tt)

merged_clears_example :
    ((merged_data false gapped_connection).1.c2s.contiguous ≡ [])
    × ((merged_data false gapped_connection).1.c2s.segments ≡ [])
merged_clears_example = merged_clears to_server false gapped_connection

abbrev syn_packet : TcpPacket
syn_packet = record {
  src = client;
  dst = server;
  sport = 12345;
  dport = 80;
  seq = 100;
  ack = 0;
  flags = 2;
  payload = [];
}

abbrev late_packet : TcpPacket
late_packet = record syn_packet { seq = 104; flags = 16; payload = 68 ∷ 69 ∷ [] }

abbrev early_packet : TcpPacket
early_packet = record syn_packet { seq = 101; flags = 16; payload = 65 ∷ 66 ∷ 67 ∷ [] }

abbrev idle : StreamReassembler
idle = record {
  max_connections = 3;
  max_buffer_per_dir = 1024;
  separate = true;
  fill_gaps = false;
  connections = [];
  callbacks = 7 ∷ [];
}

no_connection :
    lookup (conn_id (source syn_packet) (destination syn_packet)) idle.connections ≡ none
unfolding lookup
no_connection = refl

letters_open : Opens letters (record { seq = 100; ack = 0; payload = []; flags = 2 })
unfolding has_syn slice
letters_open = record { is_syn = refl; carried = refl }

late-Carries :
    Carries letters 100 (record { seq = 104; ack = 0; payload = 68 ∷ 69 ∷ []; flags = 16 })
unfolding has_syn slice
late-Carries = record { no_syn = refl; after_syn = omega arith; carried = refl }

early-Carries :
    Carries letters 100 (record { seq = 101; ack = 0; payload = 65 ∷ 66 ∷ 67 ∷ []; flags = 16 })
unfolding has_syn slice
early-Carries = record { no_syn = refl; after_syn = omega arith; carried = refl }

callback_hears_stream_example :
    heard (feed_packets idle (syn_packet ∷ late_packet ∷ early_packet ∷ [])).0
    ≡ slice letters 1 (
        (stream_buffer
          (source syn_packet)
          (destination syn_packet)
          (feed_packets idle (syn_packet ∷ late_packet ∷ early_packet ∷ [])).1).next_seq
        - 1)
callback_hears_stream_example =
    callback_hears_stream letters (source syn_packet) (destination syn_packet) 7 idle syn_packet
      (late_packet ∷ early_packet ∷ []) no_connection refl refl refl
      (
        record { from = refl; to = refl },
        (record { from = refl; to = refl }, (record { from = refl; to = refl }, tt)),
      )
      letters_open (late-Carries, (early-Carries, tt))

feed_packet-AllCounted_example : AllCounted (feed_packet idle syn_packet).1.connections
feed_packet-AllCounted_example = feed_packet-AllCounted idle syn_packet tt

limit_buffer_bounds_example :
    ((limit_buffer 1 true gapped).total_buffered ≤ 1)
    × ((limit_buffer 1 false gapped).segments ≡ gapped.segments)
    × (buffered_bytes gapped.segments ≤ (limit_buffer 1 false gapped).total_buffered)
limit_buffer_bounds_example = limit_buffer_bounds 1 gapped gapped-IsCounted
