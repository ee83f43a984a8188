-- ===== src/Stream/Cases.antt =====
-- The branches of DirectionBuffer.feed in dpkt/stream.py for a segment with data, in plain numbers.
use dpkt_ng.Base.{
  ℕ, ◌+◌, ◌≤◌, ◌<◌, ◌≡◌, refl, List, [], ◌∷◌, arith, inl, inr, Bool-cases, length, drop, ◌==◌,
}
use dpkt_ng.Base.Int.{pos, pos_part, sub_ℕ, ◌+ℤ◌, ◌-ℤ◌, leb_ℤ, ltb_ℤ}
use dpkt_ng.Stream.Buffer.{DirectionBuffer, append_contiguous, buffer_segment, place, feed_payload}

-- What a payload that starts at `seq` does to the buffer.
pub data FeedCase (b : DirectionBuffer) (isn seq ack : ℕ) (payload : List ℕ)
    : DirectionBuffer → Type 0 where
  nothing : payload ≡ [] → FeedCase b isn seq ack payload b
  old : seq + length payload ≤ isn + b.next_seq → FeedCase b isn seq ack payload b
  extends :
      (cut : ℕ)
      → seq + cut ≡ isn + b.next_seq
      → cut < length payload
      → FeedCase b isn seq ack payload (append_contiguous b (drop cut payload))
  ahead :
      (rel_seq : ℕ)
      → isn + rel_seq ≡ seq
      → b.next_seq < rel_seq
      → 0 < length payload
      → FeedCase b isn seq ack payload (buffer_segment b rel_seq ack payload)

module _ (b : DirectionBuffer) (isn seq ack : ℕ) (payload : List ℕ) where
  place-FeedCase :
      isn + b.next_seq < seq + length payload
      → 0 < length payload
      → FeedCase b isn seq ack payload (place b (sub_ℕ seq isn) ack payload)
  unfolding place
  place-FeedCase new full = elim (Bool-cases (ltb_ℤ (sub_ℕ seq isn) (pos b.next_seq))) [
    | inl before ↦ rw before (
        FeedCase.extends (pos_part (pos b.next_seq -ℤ sub_ℕ seq isn)) (ground arith) (ground arith))
    | inr not_before ↦ elim (Bool-cases (pos_part (sub_ℕ seq isn) == b.next_seq)) [
      | inl at ↦ rw (not_before, at) (FeedCase.extends 0 (ground arith) full)
      | inr past ↦
          rw (not_before, past)
            (FeedCase.ahead (pos_part (sub_ℕ seq isn)) (ground arith) (ground arith) full)
    ]
  ]

pub feed_payload-FeedCase :
    (b : DirectionBuffer) (isn seq ack : ℕ) (payload : List ℕ)
    → FeedCase b isn seq ack payload (feed_payload b isn seq ack payload)
unfolding feed_payload
feed_payload-FeedCase b isn seq ack [] = FeedCase.nothing refl
feed_payload-FeedCase b isn seq ack (x ∷ xs) =
    elim (Bool-cases (leb_ℤ (sub_ℕ seq isn +ℤ pos (length (x ∷ xs))) (pos b.next_seq))) [
      | inl known ↦ rw known (FeedCase.old (ground arith))
      | inr new ↦ rw new (place-FeedCase b isn seq ack (x ∷ xs) (ground arith) (ground arith))
    ]
