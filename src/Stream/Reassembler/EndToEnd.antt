-- ===== src/Stream/Reassembler/EndToEnd.antt =====
-- From the packets of one side of a connection to what a callback of dpkt/stream.py's
-- StreamReassembler hears, in the separate mode without gap filling.
use mathlib.Core.List.{append-nil, append_assoc}
use dpkt_ng.Base.{
  ℕ, ◌-◌, ◌≡◌, refl, sym, ap, ap₂, subst, ◌∙◌, Bool, true, false, ◌&&◌, none, some, List, [], ◌∷◌,
  ◌++◌, arith, All, list_eq, ◌==◌,
}
use dpkt_ng.Stream.Buffer.{DirectionBuffer, empty_buffer, get_data}
use dpkt_ng.Stream.Slices.{slice}
use dpkt_ng.Stream.Delivery.{Arrival, Carries}
use dpkt_ng.Stream.Receiver.{
  Op, arrive, read, Session, perform, feed_arrival, perform_all, IsCarried,
}
use dpkt_ng.Stream.Reassembly.{Opens, session, session_reads_stream}
use dpkt_ng.Stream.Connection.{Connection, Direction}
use dpkt_ng.Stream.Connection.Merged.{buffer_of}
use dpkt_ng.Stream.Reassembler.{
  Endpoint, ConnId, conn_id, endpoint_eq, lookup, StreamReassembler, Delivery, TcpPacket,
}
use dpkt_ng.Stream.Reassembler.Feed.{
  source, destination, packet_id, fresh_connection, connection_of, serve, feed_packet,
}
use dpkt_ng.Stream.Reassembler.Bounds.{lookup-feed_packet, calls-feed_packet}
use dpkt_ng.Stream.Reassembler.Delivered.{
  arrival, opposite, direction_of, heard, heard-append, Served, serve-Served, read_leaves,
}

-- Feeding packet after packet, as feed_pcap does with the packets that it could parse.
unfoldable pub feed_packets : StreamReassembler → List TcpPacket → List Delivery × StreamReassembler
feed_packets r [] = ([], r)
feed_packets r (p ∷ ps) =
    let (calls, r') = feed_packet r p in
    let (more, r'') = feed_packets r' ps in (calls ++ more, r'')

module _ (e f : Endpoint) where
  abbrev id : ConnId
  id = conn_id e f

  -- The connection between e and f, a new one if the table has none.
  abbrev pub connection : StreamReassembler → Connection
  connection r = connection_of id (lookup id r.connections)

  abbrev side : Direction
  side = direction_of (endpoint_eq e id.0)

  -- The buffer for what e sends to f.
  abbrev pub stream_buffer : StreamReassembler → DirectionBuffer
  stream_buffer r = buffer_of side (connection r)

  pub record IsFrom (p : TcpPacket) : Type 0 where
    pub from : source p ≡ e
    pub to : destination p ≡ f

  -- The buffer of e's side is b, and the other side has nothing to read.
  record Tracks (cb : ℕ) (b : DirectionBuffer) (r : StreamReassembler) : Type 0 where
    src_ip : (connection r).src_ip ≡ id.0.0
    src_port : (connection r).src_port ≡ id.0.1
    mine : stream_buffer r ≡ b
    quiet : (buffer_of (opposite side) (connection r)).contiguous ≡ []
    mode : r.separate ≡ true
    plain : r.fill_gaps ≡ false
    single : r.callbacks ≡ cb ∷ []

  module _ (r : StreamReassembler) (p : TcpPacket) (way : IsFrom p) where
    same_id : packet_id p ≡ id
    same_id = ap₂ conn_id way.from way.to

    connection-feed_packet : connection (feed_packet r p).1 ≡ (serve r id (connection r) p).0
    connection-feed_packet = ap (connection_of id) (
        subst
          (λ k.
            lookup k (feed_packet r p).1.connections
            ≡ some (serve r k (connection_of k (lookup k r.connections)) p).0)
          same_id (lookup-feed_packet r p))

    calls-connection : (feed_packet r p).0 ≡ (serve r id (connection r) p).1
    calls-connection =
        subst
          (λ k. (feed_packet r p).0 ≡ (serve r k (connection_of k (lookup k r.connections)) p).1)
          same_id (calls-feed_packet r p)

    served : (cb : ℕ) (b : DirectionBuffer) → Tracks cb b r → Served r id (connection r) p side
    served cb b t =
        serve-Served r id (connection r) p cb (endpoint_eq e id.0) t.mode t.plain t.single
          (rw (t.src_ip, t.src_port)
            (ap (λ (x : Endpoint). list_eq x.0 id.0.0 && (x.1 == id.0.1)) way.from))
          t.quiet

    feed_packet-Tracks :
        (cb : ℕ) (b : DirectionBuffer)
        → Tracks cb b r
        → Tracks cb (get_data false (feed_arrival b (arrival p))).1 (feed_packet r p).1
          × (heard (feed_packet r p).0 ≡ (get_data false (feed_arrival b (arrival p))).0)
    feed_packet-Tracks cb b t =
        let v : Served r id (connection r) p side = served cb b t in
        (
          record {
            src_ip = ap (λ (c : Connection). c.src_ip) connection-feed_packet ∙ v.src_ip ∙ t.src_ip;
            src_port =
                ap (λ (c : Connection). c.src_port) connection-feed_packet
                ∙ v.src_port
                ∙ t.src_port;
            mine =
                ap (buffer_of side) connection-feed_packet
                ∙ v.mine
                ∙ ap (λ x. (get_data false (feed_arrival x (arrival p))).1) t.mine;
            quiet =
                ap (λ (c : Connection). (buffer_of (opposite side) c).contiguous)
                  connection-feed_packet
                ∙ v.quiet;
            mode = unfold feed_packet in t.mode;
            plain = unfold feed_packet in t.plain;
            single = unfold feed_packet in t.single;
          },
          ap heard calls-connection
              ∙ v.bytes
              ∙ ap (λ x. (get_data false (feed_arrival x (arrival p))).0) t.mine,
        )

  -- One packet is one arrival and one read.
  abbrev pub as_ops : List TcpPacket → List Op
  as_ops [] = []
  as_ops (p ∷ ps) = arrive (arrival p) ∷ read ∷ as_ops ps

  feed_packets-Tracks :
      (cb : ℕ) (ps : List TcpPacket) (b : DirectionBuffer) (r : StreamReassembler) (out : List ℕ)
      → All IsFrom ps
      → Tracks cb b r
      → (out ++ heard (feed_packets r ps).0 ≡ (perform_all (out, b) (as_ops ps)).0)
        × (stream_buffer (feed_packets r ps).1 ≡ (perform_all (out, b) (as_ops ps)).1)
  unfolding feed_packets heard perform_all perform
  feed_packets-Tracks cb [] b r out way t = (append-nil out, t.mine)
  feed_packets-Tracks cb (p ∷ ps) b r out way t =
      let a : DirectionBuffer = feed_arrival b (arrival p) in
      let (t', e) = feed_packet-Tracks r p way.0 cb b t in
      let (bytes, buffer) =
        feed_packets-Tracks cb ps (get_data false a).1 (feed_packet r p).1
          (out ++ (get_data false a).0) way.1 t' in
      (
        ground (
          arith,
          bytes,
          e,
          heard-append (feed_packet r p).0 (feed_packets (feed_packet r p).1 ps).0,
          append_assoc out (get_data false a).0 (heard (feed_packets (feed_packet r p).1 ps).0),
        ),
        buffer,
      )

  starts :
      (cb : ℕ) (r : StreamReassembler)
      → lookup id r.connections ≡ none
      → r.separate ≡ true
      → r.fill_gaps ≡ false
      → r.callbacks ≡ cb ∷ []
      → Tracks cb empty_buffer r
  starts cb r new mode plain single = record {
    src_ip = rw new;
    src_port = rw new;
    mine = rw new (new_side (endpoint_eq e id.0));
    quiet = rw new (ap (λ (b : DirectionBuffer). b.contiguous) (other_side (endpoint_eq e id.0)));
    mode = mode;
    plain = plain;
    single = single;
  }
    where
      new_side : (way : Bool) → buffer_of (direction_of way) (fresh_connection id) ≡ empty_buffer
      new_side true = refl
      new_side false = refl

      other_side :
          (way : Bool)
          → buffer_of (opposite (direction_of way)) (fresh_connection id) ≡ empty_buffer
      other_side true = refl
      other_side false = refl

  all_read :
      (ps : List TcpPacket) (st : Session)
      → st.1.contiguous ≡ []
      → (perform_all st (as_ops ps)).1.contiguous ≡ []
  unfolding perform_all perform
  all_read [] st h = h
  all_read (p ∷ ps) st h = all_read ps _ (read_leaves (feed_arrival st.1 (arrival p)))

  ops-IsCarried :
      (s : ℕ → ℕ) (isn : ℕ) (ps : List TcpPacket)
      → All (λ p. Carries s isn (arrival p)) ps
      → All (IsCarried s isn) (as_ops ps)
  ops-IsCarried s isn [] h = tt
  ops-IsCarried s isn (p ∷ ps) h = (h.0, (tt, ops-IsCarried s isn ps h.1))

session_heard :
    (s : ℕ → ℕ) (e f : Endpoint) (syn : Arrival) (ps : List TcpPacket)
    → Opens s syn
    → All (IsCarried s syn.seq) (as_ops e f ps)
    → (perform_all ([], empty_buffer) (arrive syn ∷ read ∷ as_ops e f ps)).0
      ≡ slice s 1
          ((perform_all ([], empty_buffer) (arrive syn ∷ read ∷ as_ops e f ps)).1.next_seq - 1)
unfolding perform_all perform
session_heard s e f syn ps opens carried =
    sym (append-nil _)
    ∙ ap (λ t. (session syn (read ∷ as_ops e f ps)).0 ++ t)
        (sym (all_read e f ps _ (read_leaves (feed_arrival empty_buffer syn))))
    ∙ session_reads_stream s syn opens (read ∷ as_ops e f ps) (tt, carried)

-- A reassembler in the separate mode, without gap filling and with one callback, that has not yet
-- seen the connection: from the SYN on, the callback hears the sender's byte stream, from its first
-- byte up to the point that the reassembly has reached, in whatever order and with whatever
-- repetitions and overlaps the packets of this side come.
pub callback_hears_stream :
    (s : ℕ → ℕ) (e f : Endpoint) (cb : ℕ) (r : StreamReassembler) (syn : TcpPacket)
    (ps : List TcpPacket)
    → lookup (conn_id e f) r.connections ≡ none
    → r.separate ≡ true
    → r.fill_gaps ≡ false
    → r.callbacks ≡ cb ∷ []
    → All (IsFrom e f) (syn ∷ ps)
    → Opens s (arrival syn)
    → All (λ p. Carries s syn.seq (arrival p)) ps
    → heard (feed_packets r (syn ∷ ps)).0
      ≡ slice s 1 ((stream_buffer e f (feed_packets r (syn ∷ ps)).1).next_seq - 1)
callback_hears_stream s e f cb r syn ps new mode plain single way opens carried =
    let (bytes, buffer) =
      feed_packets-Tracks e f cb (syn ∷ ps) empty_buffer r [] way
        (starts e f cb r new mode plain single) in
    bytes
    ∙ session_heard s e f (arrival syn) ps opens (ops-IsCarried e f s syn.seq ps carried)
    ∙ ap (λ (b : DirectionBuffer). slice s 1 (b.next_seq - 1)) (sym buffer)
