-- ===== src/Stream/Delivery.antt =====
-- Reassembly by dpkt/stream.py's DirectionBuffer against the sender's byte stream: a receiver that
-- feeds segments and reads in between, in any order.
use mathlib.Core.List.{append_assoc}
use dpkt_ng.Base.{
  ℕ, suc, ◌+◌, ◌-◌, ◌≤◌, ◌<◌, ◌≡◌, ap, Bool, false, ◌&&◌, ◌||◌, some, List, [], ◌∷◌, ◌++◌, arith,
  leb, ltb, All, All-append, length, length-drop, drop,
}
use dpkt_ng.Stream.Segments.{Segment, Front, sort_segments, cascade}
use dpkt_ng.Stream.Buffer.{DirectionBuffer, has_syn, append_contiguous, buffer_segment}
use dpkt_ng.Stream.Slices.{slice, slice_join, drop_part, IsPart}
use dpkt_ng.Stream.Sorting.{
  covers, IsSeparated, IsSeparated-All, IsBeyond, sort_segments-IsSorted, sort_segments-All,
  covers-sort_segments, covers-append,
}
use dpkt_ng.Stream.Merging.{
  covers-merge_segments, merge_segments-IsSeparated, merge_segments-IsPart,
}
use dpkt_ng.Stream.Cascading.{cascade-covers, cascade-IsSeparated, Advances, cascade-Advances}
use dpkt_ng.Stream.Cases.{FeedCase}

-- The arguments of one call of `feed`.
pub record Arrival : Type 0 where
  pub seq : ℕ
  pub ack : ℕ
  pub payload : List ℕ
  pub flags : ℕ

-- What has been read (`out`) and what lies ready are the stream from position 1 up to `next_seq`;
-- the buffered segments are pieces of the stream with gaps before them.
pub record Holds (s : ℕ → ℕ) (isn : ℕ) (out : List ℕ) (b : DirectionBuffer) : Type 0 where
  pub known : b.isn ≡ some isn
  pub started : 1 ≤ b.next_seq
  pub bytes : out ++ b.contiguous ≡ slice s 1 (b.next_seq - 1)
  pub separated : IsSeparated b.next_seq b.segments
  pub parts : All (IsPart s) b.segments

-- A segment after the SYN, with the stream's bytes from its sequence number on.
pub record Carries (s : ℕ → ℕ) (isn : ℕ) (a : Arrival) : Type 0 where
  pub no_syn : has_syn a.flags ≡ false
  pub after_syn : isn < a.seq
  pub carried : a.payload ≡ slice s (a.seq - isn) (length a.payload)

-- The byte at position p has been joined or is buffered.
abbrev pub has_byte : ℕ → DirectionBuffer → Bool
has_byte p b = ltb p b.next_seq || covers p b.segments

-- The arrival holds a byte for position p.
abbrev pub brings : ℕ → ℕ → ℕ → List ℕ → Bool
brings p isn seq payload = leb seq (isn + p) && ltb (isn + p) (seq + length payload)

join_bytes :
    (s : ℕ → ℕ) (out c payload : List ℕ) (n m : ℕ)
    → 1 ≤ n
    → n + length payload ≤ m
    → out ++ c ≡ slice s 1 (n - 1)
    → payload ≡ slice s n (length payload)
    → out ++ ((c ++ payload) ++ slice s (n + length payload) (m - (n + length payload)))
      ≡ slice s 1 (m - 1)
join_bytes s out c payload n m h k read own =
    let mid : ℕ = n + length payload in
    ground (
      arith,
      append_assoc out (c ++ payload) (slice s mid (m - mid)),
      append_assoc out c payload,
      slice_join s [] 1 n mid (omega arith) (omega arith),
      slice_join s [] 1 mid m (omega arith) (omega arith),
    )

module _ (s : ℕ → ℕ) (isn : ℕ) (out : List ℕ) (b : DirectionBuffer) (h : Holds s isn out b) where
  -- Payload at `next_seq`.
  append_contiguous-Holds :
      (payload : List ℕ)
      → payload ≡ slice s b.next_seq (length payload)
      → Holds s isn out (append_contiguous b payload)
  unfolding append_contiguous
  append_contiguous-Holds payload own =
      let next : ℕ = b.next_seq + length payload in
      let f : Front = cascade next (b.contiguous ++ payload) b.segments in
      let a : Advances s next (b.contiguous ++ payload) f =
        cascade-Advances s next (b.contiguous ++ payload) b.segments h.parts in
      record {
        known = h.known;
        started = omega (arith, h.started, a.forward);
        bytes = rw a.bytes (
            join_bytes s out b.contiguous payload b.next_seq f.next_seq h.started a.forward h.bytes
              own);
        separated =
            cascade-IsSeparated b.next_seq next (b.contiguous ++ payload) b.segments h.separated;
        parts = a.parts;
      }

  buffer_segment-Holds :
      (rel_seq ack : ℕ) (payload : List ℕ)
      → b.next_seq < rel_seq
      → 0 < length payload
      → payload ≡ slice s rel_seq (length payload)
      → Holds s isn out (buffer_segment b rel_seq ack payload)
  unfolding buffer_segment
  buffer_segment-Holds rel_seq ack payload lt full own =
      let new : Segment = record { rel_seq = rel_seq; ack = ack; payload = payload } in
      let far : All (IsBeyond b.next_seq) (b.segments ++ new ∷ []) =
        All-append (IsBeyond b.next_seq) b.segments (new ∷ [])
          (IsSeparated-All b.next_seq b.next_seq b.segments (omega arith) h.separated)
          ((lt, full), tt) in
      let own_parts : All (IsPart s) (b.segments ++ new ∷ []) =
        All-append (IsPart s) b.segments (new ∷ []) h.parts (own, tt) in
      record {
        known = h.known;
        started = h.started;
        bytes = h.bytes;
        separated =
            merge_segments-IsSeparated b.next_seq (sort_segments (b.segments ++ new ∷ []))
              (sort_segments-IsSorted b.next_seq (b.segments ++ new ∷ []) far);
        parts =
            merge_segments-IsPart s (suc b.next_seq) (sort_segments (b.segments ++ new ∷ []))
              (sort_segments-IsSorted b.next_seq (b.segments ++ new ∷ []) far)
              (sort_segments-All (IsPart s) (b.segments ++ new ∷ []) own_parts);
      }

  pub FeedCase-Holds :
      (a : Arrival) (b' : DirectionBuffer)
      → Carries s isn a
      → FeedCase b isn a.seq a.ack a.payload b'
      → Holds s isn out b'
  FeedCase-Holds a b' c (FeedCase.nothing e) = h
  FeedCase-Holds a b' c (FeedCase.old e) = h
  FeedCase-Holds a b' c (FeedCase.extends cut e lt) = append_contiguous-Holds (drop cut a.payload) (
      ground (
        arith,
        c.after_syn,
        drop_part s (a.seq - isn) a.payload c.carried cut,
        length-drop cut a.payload,
      ))
  FeedCase-Holds a b' c (FeedCase.ahead rel_seq e lt full) =
      buffer_segment-Holds rel_seq a.ack a.payload lt full (ground (arith, c.carried))

module _ (b : DirectionBuffer) (p : ℕ) where
  has_byte-append_contiguous :
      (payload : List ℕ)
      → has_byte p (append_contiguous b payload)
        ≡ (ltb p (b.next_seq + length payload) || covers p b.segments)
  unfolding append_contiguous
  has_byte-append_contiguous payload =
      cascade-covers p (b.next_seq + length payload) (b.contiguous ++ payload) b.segments

  has_byte-buffer_segment :
      (rel_seq ack : ℕ) (payload : List ℕ)
      → IsSeparated b.next_seq b.segments
      → b.next_seq < rel_seq
      → 0 < length payload
      → has_byte p (buffer_segment b rel_seq ack payload)
        ≡ (has_byte p b || (leb rel_seq p && ltb p (rel_seq + length payload)))
  unfolding buffer_segment
  has_byte-buffer_segment rel_seq ack payload sep lt full =
      let new : Segment = record { rel_seq = rel_seq; ack = ack; payload = payload } in
      let added : List Segment = b.segments ++ new ∷ [] in
      let far : All (IsBeyond b.next_seq) added =
        All-append (IsBeyond b.next_seq) b.segments (new ∷ [])
          (IsSeparated-All b.next_seq b.next_seq b.segments (omega arith) sep) ((lt, full), tt) in
      ground (
        arith,
        covers-merge_segments p (suc b.next_seq) (sort_segments added)
            (sort_segments-IsSorted b.next_seq added far),
        covers-sort_segments p added,
        covers-append p b.segments (new ∷ []),
      )

  -- What is covered after a payload is what was covered before and what the payload brings.
  pub has_byte-FeedCase :
      (isn seq ack : ℕ) (payload : List ℕ) (b' : DirectionBuffer)
      → IsSeparated b.next_seq b.segments
      → FeedCase b isn seq ack payload b'
      → has_byte p b' ≡ (has_byte p b || brings p isn seq payload)
  has_byte-FeedCase isn seq ack payload b' sep (FeedCase.nothing e) = ground (arith, ap length e)
  has_byte-FeedCase isn seq ack payload b' sep (FeedCase.old e) = ground arith
  has_byte-FeedCase isn seq ack payload b' sep (FeedCase.extends cut e lt) =
      ground (arith, has_byte-append_contiguous (drop cut payload), length-drop cut payload)
  has_byte-FeedCase isn seq ack payload b' sep (FeedCase.ahead rel_seq e lt full) =
      ground (arith, has_byte-buffer_segment rel_seq ack payload sep lt full)
