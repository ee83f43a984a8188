-- ===== src/Stream/Tests.antt =====
-- Runs of dpkt/stream.py on concrete packets, and the theorems at them.
use dpkt_ng.Base.{ℕ, ◌+◌, ◌-◌, ◌≡◌, refl, true, false, List, [], ◌∷◌, ◌++◌, arith, All}
use dpkt_ng.Stream.Segments.{
  insert_segment, sort_segments, overlay_at, merge_from, merge_segments, absorb, cascade,
  buffered_bytes,
}
use dpkt_ng.Stream.Buffer.{
  DirectionBuffer, empty_buffer, has_syn, has_fin, feed_syn, mark_fin, append_contiguous,
  buffer_segment, place, feed_payload, feed_data, feed, fill_segments, get_data,
}
use dpkt_ng.Stream.Slices.{slice}
use dpkt_ng.Stream.Delivery.{Arrival, Carries}
use dpkt_ng.Stream.Receiver.{Op, arrive, read, IsCarried}
use dpkt_ng.Stream.Reassembly.{Opens, session, session_reads_stream}

-- The whole of `feed` for a test.
run_feed : DirectionBuffer → ℕ → List ℕ → ℕ → DirectionBuffer
unfolding has_syn has_fin feed_syn mark_fin append_contiguous buffer_segment place feed_payload
    feed_data feed insert_segment sort_segments overlay_at merge_from merge_segments absorb cascade
    buffered_bytes
run_feed b seq payload flags = feed b seq 0 payload flags

abbrev opened : DirectionBuffer
opened = run_feed empty_buffer 0 [] 2

-- test_direction_buffer_out_of_order: "LO" at 4, then "HEL" at 1.
out_of_order :
    (get_data false (run_feed (run_feed opened 4 (76 ∷ 79 ∷ []) 16) 1 (72 ∷ 69 ∷ 76 ∷ []) 16)).0
    ≡ 72 ∷ 69 ∷ 76 ∷ 76 ∷ 79 ∷ []
unfolding run_feed get_data
out_of_order = refl

-- test_direction_buffer_overlap_preserves_tail: "XY" at 5 over "CDEFGH" at 3.
overlap_keeps_tail :
    (run_feed
      (run_feed opened 3 (67 ∷ 68 ∷ 69 ∷ 70 ∷ 71 ∷ 72 ∷ []) 16)
      5
      (88 ∷ 89 ∷ [])
      16).segments
    ≡ record { rel_seq = 3; ack = 0; payload = 67 ∷ 68 ∷ 88 ∷ 89 ∷ 71 ∷ 72 ∷ [] } ∷ []
unfolding run_feed
overlap_keeps_tail = refl

-- test_direction_buffer_flush: "AA" at 1 and "BB" at 6.
flush_fills :
    (get_data true (run_feed (run_feed opened 1 (65 ∷ 65 ∷ []) 16) 6 (66 ∷ 66 ∷ []) 16)).0
    ≡ 65 ∷ 65 ∷ 0 ∷ 0 ∷ 0 ∷ 66 ∷ 66 ∷ []
unfolding run_feed get_data fill_segments
flush_fills = refl

-- The stream "ABCDE…" of a sender whose SYN has the number 100.
abbrev letters : ℕ → ℕ
letters p = p + 64

abbrev syn : Arrival
syn = record { seq = 100; ack = 0; payload = []; flags = 2 }

abbrev late : Arrival
late = record { seq = 104; ack = 0; payload = 68 ∷ 69 ∷ []; flags = 17 }

abbrev early : Arrival
early = record { seq = 101; ack = 0; payload = 65 ∷ 66 ∷ 67 ∷ 68 ∷ []; flags = 16 }

abbrev ops : List Op
ops = arrive late ∷ read ∷ arrive early ∷ []

abbrev ops' : List Op
ops' = arrive early ∷ arrive late ∷ arrive early ∷ read ∷ []

syn-Opens : Opens letters syn
unfolding has_syn slice
syn-Opens = record { is_syn = refl; carried = refl }

late-Carries : Carries letters 100 late
unfolding has_syn slice
late-Carries = record { no_syn = refl; after_syn = omega arith; carried = refl }

early-Carries : Carries letters 100 early
unfolding has_syn slice
early-Carries = record { no_syn = refl; after_syn = omega arith; carried = refl }

abbrev carried : All (IsCarried letters 100) ops
carried = (late-Carries, (tt, (early-Carries, tt)))

abbrev carried' : All (IsCarried letters 100) ops'
carried' = (early-Carries, (late-Carries, (early-Carries, (tt, tt))))

session_reads_stream_example :
    (session syn ops).0 ++ (session syn ops).1.contiguous
    ≡ slice letters 1 ((session syn ops).1.next_seq - 1)
session_reads_stream_example = session_reads_stream letters syn syn-Opens ops carried
