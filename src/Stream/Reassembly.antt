-- ===== src/Stream/Reassembly.antt =====
-- What reading a DirectionBuffer of dpkt/stream.py gives, from the SYN on.
use dpkt_ng.Base.{ℕ, ◌-◌, ◌≤◌, ◌≡◌, refl, true, false, List, [], ◌∷◌, ◌++◌, arith, All, length}
use dpkt_ng.Stream.Segments.{Segment, seg_end}
use dpkt_ng.Stream.Buffer.{empty_buffer, has_syn, feed_syn, feed}
use dpkt_ng.Stream.Slices.{slice}
use dpkt_ng.Stream.Sorting.{covers, IsSeparated}
use dpkt_ng.Stream.Delivery.{Arrival, Holds}
use dpkt_ng.Stream.Receiver.{Op, Session, feed_arrival, perform_all, IsCarried, perform_all-Holds}

-- A SYN, with the first bytes of the stream if it has any.
pub record Opens (s : ℕ → ℕ) (syn : Arrival) : Type 0 where
  pub is_syn : has_syn syn.flags ≡ true
  pub carried : syn.payload ≡ slice s 1 (length syn.payload)

-- The session after the SYN and the operations.
abbrev pub session : Arrival → List Op → Session
session syn ops = perform_all ([], feed_arrival empty_buffer syn) ops

-- A position below every segment is in none.
pub covers_before : (p n : ℕ) (l : List Segment) → IsSeparated n l → p ≤ n → covers p l ≡ false
covers_before p n [] sep h = refl
covers_before p n (t ∷ rest) sep h = ground (arith, covers_before p (seg_end t) rest sep.2)

module _ (s : ℕ → ℕ) (syn : Arrival) (opens : Opens s syn) where
  opened-Holds : Holds s syn.seq [] (feed_arrival empty_buffer syn)
  unfolding feed feed_syn
  opened-Holds = rw opens.is_syn (record {
    known = refl;
    started = omega arith;
    bytes = ground (arith, opens.carried);
    separated = tt;
    parts = tt;
  })

  module _ (ops : List Op) (carried : All (IsCarried s syn.seq) ops) where
    session-Holds : Holds s syn.seq (session syn ops).0 (session syn ops).1
    session-Holds = perform_all-Holds s syn.seq _ ops carried opened-Holds

    -- What was read, followed by what lies ready, is the sender's stream from its first byte up to
    -- `next_seq`: no byte is lost, doubled, moved or made up, in whatever order and with whatever
    -- overlaps the segments come and wherever reads fall between them.
    pub session_reads_stream :
        (session syn ops).0 ++ (session syn ops).1.contiguous
        ≡ slice s 1 ((session syn ops).1.next_seq - 1)
    session_reads_stream = session-Holds.bytes
