-- ===== src/Stream/Reassembler/Delivered.antt =====
-- What the callbacks of dpkt/stream.py's StreamReassembler hear in the separate mode: each packet of a
-- connection is fed to the buffer of its direction, which is read at once.
use mathlib.Core.List.{append-nil, append_assoc}
use dpkt_ng.Base.{
  ℕ, ◌≡◌, Bool, true, false, ◌&&◌, arith, List, [], ◌∷◌, ◌++◌, refl, ap, ◌∙◌, list_eq, ◌==◌,
}
use dpkt_ng.Stream.Buffer.{DirectionBuffer, get_data}
use dpkt_ng.Stream.Delivery.{Arrival}
use dpkt_ng.Stream.Connection.{Connection, Direction, to_server, to_client, feed_connection}
use dpkt_ng.Stream.Receiver.{feed_arrival}
use dpkt_ng.Stream.Connection.Merged.{buffer_of}
use dpkt_ng.Stream.Reassembler.{inet_ntoa, ConnId, StreamReassembler, Delivery, TcpPacket}
use dpkt_ng.Stream.Reassembler.Feed.{take_in, call_each, put_out, limit_buffer, serve}

abbrev pub arrival : TcpPacket → Arrival
arrival p = record { seq = p.seq; ack = p.ack; payload = p.payload; flags = p.flags }

abbrev pub opposite : Direction → Direction
opposite to_server = to_client
opposite to_client = to_server

-- The packet comes from the connection's source, or does not.
abbrev pub from_source : Connection → TcpPacket → Bool
from_source c p = list_eq (inet_ntoa p.src) c.src_ip && (p.sport == c.src_port)

abbrev pub direction_of : Bool → Direction
direction_of true = to_server
direction_of false = to_client

limit_idle :
    (m : ℕ) (b : DirectionBuffer) → limit_buffer m false (get_data false b).1 ≡ (get_data false b).1
unfolding limit_buffer get_data
limit_idle m b = ground arith

-- A packet in the separate mode, without gap filling: the buffer of its direction is fed and read.
module _ (r : StreamReassembler) (k : ConnId) (c : Connection) (p : TcpPacket) where
  pub serve-from_source :
      r.separate ≡ true
      → r.fill_gaps ≡ false
      → from_source c p ≡ true
      → serve r k c p ≡ (
        record c {
          c2s = (get_data false (feed_arrival c.c2s (arrival p))).1;
          s2c = (get_data false c.s2c).1;
        },
        call_each k r.callbacks
            (get_data false (feed_arrival c.c2s (arrival p))).0
            (get_data false c.s2c).0,
      )
  unfolding serve put_out take_in feed_connection
  serve-from_source mode plain h =
      rw (mode, plain, h)
        (rw (
          limit_idle r.max_buffer_per_dir (feed_arrival c.c2s (arrival p)),
          limit_idle r.max_buffer_per_dir c.s2c,
        ))

  pub serve_to_source :
      r.separate ≡ true
      → r.fill_gaps ≡ false
      → from_source c p ≡ false
      → serve r k c p ≡ (
        record c {
          c2s = (get_data false c.c2s).1;
          s2c = (get_data false (feed_arrival c.s2c (arrival p))).1;
        },
        call_each k r.callbacks
            (get_data false c.c2s).0
            (get_data false (feed_arrival c.s2c (arrival p))).0,
      )
  unfolding serve put_out take_in feed_connection
  serve_to_source mode plain h =
      rw (mode, plain, h)
        (rw (
          limit_idle r.max_buffer_per_dir (feed_arrival c.s2c (arrival p)),
          limit_idle r.max_buffer_per_dir c.c2s,
        ))

-- All bytes that the calls hand over, in order.
unfoldable pub heard : List Delivery → List ℕ
heard [] = []
heard (d ∷ ds) = d.bytes ++ heard ds

pub heard-append : (ds es : List Delivery) → heard (ds ++ es) ≡ heard ds ++ heard es
unfolding heard
heard-append [] es = refl
heard-append (d ∷ ds) es =
    ground (arith, append_assoc d.bytes (heard ds) (heard es), heard-append ds es)

heard-call_each : (k : ConnId) (cb : ℕ) (x y : List ℕ) → heard (call_each k (cb ∷ []) x y) ≡ x ++ y
unfolding heard call_each
heard-call_each k cb [] [] = refl
heard-call_each k cb [] (b ∷ y) = append-nil (b ∷ y)
heard-call_each k cb (a ∷ x) [] = refl
heard-call_each k cb (a ∷ x) (b ∷ y) = ap (λ t. (a ∷ x) ++ t) (append-nil (b ∷ y))

-- One packet, seen from its direction.
pub record Served (r : StreamReassembler) (k : ConnId) (c : Connection) (p : TcpPacket)
    (d : Direction) : Type 0 where
  pub src_ip : (serve r k c p).0.src_ip ≡ c.src_ip
  pub src_port : (serve r k c p).0.src_port ≡ c.src_port
  pub mine :
      buffer_of d (serve r k c p).0 ≡ (get_data false (feed_arrival (buffer_of d c) (arrival p))).1
  pub quiet : (buffer_of (opposite d) (serve r k c p).0).contiguous ≡ []
  pub bytes :
      heard (serve r k c p).1 ≡ (get_data false (feed_arrival (buffer_of d c) (arrival p))).0

pub read_leaves : (b : DirectionBuffer) → (get_data false b).1.contiguous ≡ []
unfolding get_data
read_leaves b = refl

read_gives : (b : DirectionBuffer) → (get_data false b).0 ≡ b.contiguous
unfolding get_data
read_gives b = refl

pub serve-Served :
    (r : StreamReassembler) (k : ConnId) (c : Connection) (p : TcpPacket) (cb : ℕ) (way : Bool)
    → r.separate ≡ true
    → r.fill_gaps ≡ false
    → r.callbacks ≡ cb ∷ []
    → from_source c p ≡ way
    → (buffer_of (opposite (direction_of way)) c).contiguous ≡ []
    → Served r k c p (direction_of way)
serve-Served r k c p cb true mode plain single h quiet =
    let step = serve-from_source r k c p mode plain h in
    record {
      src_ip = rw step;
      src_port = rw step;
      mine = rw step;
      quiet = rw step (read_leaves c.s2c);
      bytes =
          rw (step, single)
            (heard-call_each k cb _ _ ∙ rw (read_gives c.s2c, quiet) (append-nil _));
    }
serve-Served r k c p cb false mode plain single h quiet =
    let step = serve_to_source r k c p mode plain h in
    record {
      src_ip = rw step;
      src_port = rw step;
      mine = rw step;
      quiet = rw step (read_leaves c.c2s);
      bytes = rw (step, single) (heard-call_each k cb _ _ ∙ rw (read_gives c.c2s, quiet));
    }
