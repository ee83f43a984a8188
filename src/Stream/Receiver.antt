-- ===== src/Stream/Receiver.antt =====
-- A receiver of one direction that feeds segments to dpkt/stream.py's DirectionBuffer and reads with
-- get_data() in between, in any order.
use dpkt_ng.Base.{
  ℕ, ◌≡◌, refl, ap, ◌∙◌, Bool, false, ◌||◌, List, [], ◌∷◌, ◌++◌, arith, All, Bool-cases, inl, inr,
}
use dpkt_ng.Stream.Buffer.{
  DirectionBuffer, has_fin, mark_fin, feed_payload, feed_data, feed, get_data,
}
use mathlib.Core.List.{append-nil}
use dpkt_ng.Stream.Cases.{feed_payload-FeedCase}
use dpkt_ng.Stream.Delivery.{
  Arrival, Holds, Carries, has_byte, brings, FeedCase-Holds, has_byte-FeedCase,
}

pub data Op : Type 0 where
  arrive : Arrival → Op
  read : Op

-- The bytes read so far, and the buffer.
abbrev pub Session : Type 0
Session = List ℕ × DirectionBuffer

abbrev pub feed_arrival : DirectionBuffer → Arrival → DirectionBuffer
feed_arrival b a = feed b a.seq a.ack a.payload a.flags

unfoldable pub perform : Session → Op → Session
perform (out, b) (arrive a) = (out, feed_arrival b a)
perform (out, b) read = (out ++ (get_data false b).0, (get_data false b).1)

unfoldable pub perform_all : Session → List Op → Session
unfolding perform
perform_all st [] = st
perform_all st (op ∷ ops) = perform_all (perform st op) ops

abbrev pub IsCarried : (ℕ → ℕ) → ℕ → Op → Type 0
IsCarried s isn (arrive a) = Carries s isn a
IsCarried s isn read = Unit

-- Some arrival among the operations holds a byte for position p.
abbrev pub brought : ℕ → ℕ → List Op → Bool
brought p isn [] = false
brought p isn (arrive a ∷ ops) = brings p isn a.seq a.payload || brought p isn ops
brought p isn (read ∷ ops) = brought p isn ops

module _ (s : ℕ → ℕ) (isn : ℕ) (out : List ℕ) (b : DirectionBuffer) (h : Holds s isn out b) where
  mark_fin-Holds :
      (seq : ℕ) (payload : List ℕ) (flags : ℕ) → Holds s isn out (mark_fin b seq payload flags)
  unfolding mark_fin
  mark_fin-Holds seq payload flags = elim (Bool-cases (has_fin flags)) [
    | inl fin ↦ rw fin (record {
      known = h.known;
      started = h.started;
      bytes = h.bytes;
      separated = h.separated;
      parts = h.parts;
    })
    | inr open_end ↦ rw open_end h
  ]

  has_byte-mark_fin :
      (p seq : ℕ) (payload : List ℕ) (flags : ℕ)
      → has_byte p (mark_fin b seq payload flags) ≡ has_byte p b
  unfolding mark_fin
  has_byte-mark_fin p seq payload flags = ground arith

  feed_carried :
      (a : Arrival)
      → Carries s isn a
      → feed_arrival b a
        ≡ feed_payload (mark_fin b a.seq a.payload a.flags) isn a.seq a.ack a.payload
  unfolding feed feed_data
  feed_carried a c = rw (c.no_syn, h.known)

  feed-Holds : (a : Arrival) → Carries s isn a → Holds s isn out (feed_arrival b a)
  feed-Holds a c = rw (feed_carried a c) (
      FeedCase-Holds s isn out _ (mark_fin-Holds a.seq a.payload a.flags) a _ c
        (feed_payload-FeedCase _ isn a.seq a.ack a.payload))

  has_byte-feed :
      (p : ℕ) (a : Arrival)
      → Carries s isn a
      → has_byte p (feed_arrival b a) ≡ (has_byte p b || brings p isn a.seq a.payload)
  has_byte-feed p a c =
      let marked : DirectionBuffer = mark_fin b a.seq a.payload a.flags in
      rw (feed_carried a c) (
        has_byte-FeedCase marked p isn a.seq a.ack a.payload _
          (mark_fin-Holds a.seq a.payload a.flags).separated
          (feed_payload-FeedCase marked isn a.seq a.ack a.payload)
        ∙ ap (λ t. t || brings p isn a.seq a.payload) (has_byte-mark_fin p a.seq a.payload a.flags))

  get_data-Holds : Holds s isn (out ++ (get_data false b).0) (get_data false b).1
  unfolding get_data
  get_data-Holds = record {
    known = h.known;
    started = h.started;
    bytes = rw append-nil h.bytes;
    separated = h.separated;
    parts = h.parts;
  }

module _ (s : ℕ → ℕ) (isn : ℕ) where
  perform-Holds :
      (st : Session) (op : Op)
      → IsCarried s isn op
      → Holds s isn st.0 st.1
      → Holds s isn (perform st op).0 (perform st op).1
  unfolding perform
  perform-Holds (out, b) (arrive a) c h = feed-Holds s isn out b h a c
  perform-Holds (out, b) read c h = get_data-Holds s isn out b h

  has_byte-get_data : (p : ℕ) (b : DirectionBuffer) → has_byte p (get_data false b).1 ≡ has_byte p b
  unfolding get_data
  has_byte-get_data p b = refl

  pub perform_all-Holds :
      (st : Session) (ops : List Op)
      → All (IsCarried s isn) ops
      → Holds s isn st.0 st.1
      → Holds s isn (perform_all st ops).0 (perform_all st ops).1
  unfolding perform_all
  perform_all-Holds st [] c h = h
  perform_all-Holds st (op ∷ ops) c h =
      perform_all-Holds (perform st op) ops c.1 (perform-Holds st op c.0 h)

  pub has_byte-perform_all :
      (p : ℕ) (st : Session) (ops : List Op)
      → All (IsCarried s isn) ops
      → Holds s isn st.0 st.1
      → has_byte p (perform_all st ops).1 ≡ (has_byte p st.1 || brought p isn ops)
  unfolding perform_all
  has_byte-perform_all p st [] c h = ground arith
  has_byte-perform_all p (out, b) (arrive a ∷ ops) c h = ground (
    arith,
    has_byte-perform_all p (out, feed_arrival b a) ops c.1 (feed-Holds s isn out b h a c.0),
    has_byte-feed s isn out b h p a c.0,
  )
  has_byte-perform_all p (out, b) (read ∷ ops) c h =
      has_byte-perform_all p (out ++ (get_data false b).0, (get_data false b).1) ops c.1
        (get_data-Holds s isn out b h)
      ∙ ap (λ t. t || brought p isn ops) (has_byte-get_data p b)
