-- ===== src/Stream/Counting.antt =====
-- What every operation of dpkt/stream.py's DirectionBuffer keeps, whatever it is fed: the count of
-- buffered bytes is exact, and the sequence number fields agree with the flags.
use dpkt_ng.Base.{
  ℕ, ◌+◌, ◌≡◌, refl, Bool, true, false, Option, none, some, List, [], arith, inl, inr, Bool-cases,
  length, length-append,
}
use dpkt_ng.Stream.Segments.{buffered_bytes}
use dpkt_ng.Stream.Cases.{FeedCase, feed_payload-FeedCase}
use dpkt_ng.Stream.Buffer.{
  DirectionBuffer, empty_buffer, has_syn, feed_syn, mark_fin, append_contiguous, buffer_segment,
  feed_payload, feed_data, feed, get_data,
}

abbrev pub is_some {ℓ} : {A : Type ℓ} → Option A → Bool
is_some none = false
is_some (some a) = true

-- `total_buffered` is the number of bytes held, the flags say which of `isn` and `fin_seq` are set,
-- and nothing is buffered before a SYN.
pub record IsCounted (b : DirectionBuffer) : Type 0 where
  pub total : b.total_buffered ≡ length b.contiguous + buffered_bytes b.segments
  pub syn_known : b.syn_received ≡ is_some b.isn
  pub fin_known : b.fin_received ≡ is_some b.fin_seq
  pub fin_after_syn : b.fin_received ≡ true → b.syn_received ≡ true
  pub idle : b.syn_received ≡ false → b.segments ≡ []

FeedCase-IsCounted :
    {b : DirectionBuffer} {isn seq ack : ℕ} {payload : List ℕ} {b' : DirectionBuffer}
    → b.syn_received ≡ true
    → IsCounted b
    → FeedCase b isn seq ack payload b'
    → IsCounted b'
unfolding append_contiguous buffer_segment
FeedCase-IsCounted on h (FeedCase.nothing e) = h
FeedCase-IsCounted on h (FeedCase.old e) = h
FeedCase-IsCounted on h (FeedCase.extends cut e lt) = ground arith
FeedCase-IsCounted on h (FeedCase.ahead rel_seq e lt full) = ground arith

feed_syn-IsCounted :
    (b : DirectionBuffer) (seq : ℕ) (payload : List ℕ)
    → IsCounted b
    → IsCounted (feed_syn b seq payload)
unfolding feed_syn
feed_syn-IsCounted b seq payload h = ground (arith, length-append b.contiguous payload)

mark_fin-IsCounted :
    (b : DirectionBuffer) (seq : ℕ) (payload : List ℕ) (flags : ℕ)
    → b.syn_received ≡ true
    → IsCounted b
    → (b' : DirectionBuffer) → b' ≡ mark_fin b seq payload flags
    → IsCounted b' × (b'.syn_received ≡ true)
unfolding mark_fin
mark_fin-IsCounted b seq payload flags on h b' e = ground arith

feed_payload-IsCounted :
    (b : DirectionBuffer) (isn seq ack : ℕ) (payload : List ℕ)
    → b.syn_received ≡ true
    → IsCounted b
    → IsCounted (feed_payload b isn seq ack payload)
feed_payload-IsCounted b isn seq ack payload on h =
    FeedCase-IsCounted on h (feed_payload-FeedCase b isn seq ack payload)

feed_data-IsCounted :
    (b : DirectionBuffer) (isn : Option ℕ) (seq ack : ℕ) (payload : List ℕ) (flags : ℕ)
    → b.isn ≡ isn
    → IsCounted b
    → IsCounted (feed_data b isn seq ack payload flags)
unfolding feed_data
feed_data-IsCounted b none seq ack payload flags e h = h
feed_data-IsCounted b (some isn) seq ack payload flags e h =
    let on : b.syn_received ≡ true = ground arith in
    let (counted, still) = mark_fin-IsCounted b seq payload flags on h _ refl in
    feed_payload-IsCounted (mark_fin b seq payload flags) isn seq ack payload still counted

-- DirectionBuffer.feed keeps the count and the flags right.
pub feed-IsCounted :
    (b : DirectionBuffer) (seq ack : ℕ) (payload : List ℕ) (flags : ℕ)
    → IsCounted b
    → IsCounted (feed b seq ack payload flags)
unfolding feed
feed-IsCounted b seq ack payload flags h = elim (Bool-cases (has_syn flags)) [
  | inl syn ↦ rw syn (feed_syn-IsCounted b seq payload h)
  | inr data_only ↦ rw data_only (feed_data-IsCounted b b.isn seq ack payload flags refl h)
]

pub get_data-IsCounted :
    (fill : Bool) (b : DirectionBuffer) → IsCounted b → IsCounted (get_data fill b).1
unfolding get_data buffered_bytes
get_data-IsCounted fill b h = ground arith

pub empty_buffer-IsCounted : IsCounted empty_buffer
unfolding buffered_bytes
empty_buffer-IsCounted = record {
  total = refl;
  syn_known = refl;
  fin_known = refl;
  fin_after_syn = λ e. cc;
  idle = λ e. refl;
}
