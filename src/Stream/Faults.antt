-- ===== src/Stream/Faults.antt =====
-- Where dpkt/stream.py's DirectionBuffer does not follow TCP: a SYN that is sent again, sequence
-- numbers that wrap at 2 ^ 32, and a flush that does not move `next_seq`.
use mathlib.Core.List.{append-nil}
use dpkt_ng.Base.{
  ℕ, ◌+◌, ◌-◌, ◌≤◌, ◌<◌, ◌≡◌, refl, ap, ◌∙◌, true, false, some, List, [], ◌++◌, arith, length,
  replicate,
}
use dpkt_ng.Stream.Segments.{sort_segments, merge_segments, cascade}
use dpkt_ng.Stream.Buffer.{
  DirectionBuffer, has_syn, has_fin, feed_syn, mark_fin, append_contiguous, buffer_segment,
  feed_payload, feed_data, feed, get_data,
}
use dpkt_ng.Stream.Cases.{FeedCase, feed_payload-FeedCase}

-- The branch for a plain data segment.
feed_plain :
    (b : DirectionBuffer) {isn : ℕ} (seq ack : ℕ) (payload : List ℕ) (flags : ℕ)
    → b.isn ≡ some isn
    → has_syn flags ≡ false
    → has_fin flags ≡ false
    → feed b seq ack payload flags ≡ feed_payload b isn seq ack payload
unfolding feed feed_data mark_fin
feed_plain b seq ack payload flags e syn fin = rw (syn, e, fin)

module _ (b : DirectionBuffer) {isn : ℕ} (seq ack : ℕ) (payload : List ℕ) where
  at_front :
      {b' : DirectionBuffer}
      → FeedCase b isn seq ack payload b'
      → seq ≡ isn + b.next_seq
      → 0 < length payload
      → b' ≡ append_contiguous b payload
  at_front (FeedCase.nothing e) h full = absurd (omega (arith, ap length e))
  at_front (FeedCase.old e) h full = absurd (omega arith)
  at_front (FeedCase.extends cut e lt) h full = let none_cut : cut ≡ 0 = omega arith in rw none_cut
  at_front (FeedCase.ahead rel_seq e lt f) h full = absurd (omega arith)

  all_old :
      {b' : DirectionBuffer}
      → FeedCase b isn seq ack payload b'
      → seq + length payload ≤ isn + b.next_seq
      → b' ≡ b
  all_old (FeedCase.nothing e) h = refl
  all_old (FeedCase.old e) h = refl
  all_old (FeedCase.extends cut e lt) h = absurd (omega arith)
  all_old (FeedCase.ahead rel_seq e lt f) h = absurd (omega arith)

  past_front :
      (rel_seq : ℕ) {b' : DirectionBuffer}
      → FeedCase b isn seq ack payload b'
      → seq ≡ isn + rel_seq
      → b.next_seq < rel_seq
      → 0 < length payload
      → b' ≡ buffer_segment b rel_seq ack payload
  past_front r (FeedCase.nothing e) h lt full = absurd (omega (arith, ap length e))
  past_front r (FeedCase.old e) h lt full = absurd (omega arith)
  past_front r (FeedCase.extends cut e c) h lt full = absurd (omega arith)
  past_front r (FeedCase.ahead rel_seq e c f) h lt full =
      let same : rel_seq ≡ r = omega arith in rw same

resent :
    (b : DirectionBuffer) (isn ack syn : ℕ)
    → has_syn syn ≡ true
    → feed b isn ack [] syn ≡ feed_syn b isn []
unfolding feed
resent b isn ack syn on = rw on

reset :
    (b : DirectionBuffer) (isn : ℕ)
    → ((feed_syn b isn []).isn ≡ some isn)
      × ((feed_syn b isn []).next_seq ≡ 1)
      × (((feed_syn b isn []).segments ≡ b.segments)
          × ((feed_syn b isn []).contiguous ≡ b.contiguous))
unfolding feed_syn
reset b isn = (refl, refl, (refl, append-nil b.contiguous))

joined :
    (b : DirectionBuffer) (payload : List ℕ)
    → b.segments ≡ []
    → (append_contiguous b payload).contiguous ≡ b.contiguous ++ payload
unfolding append_contiguous cascade
joined b payload idle = rw idle

-- A SYN that comes again sets `next_seq` back to 1, whatever was joined before: the first data
-- segment, sent again behind it, is joined a second time.
pub resent_syn_repeats :
    (b : DirectionBuffer) (isn ack ack' : ℕ) (payload : List ℕ) (syn flags : ℕ)
    → b.segments ≡ []
    → has_syn syn ≡ true
    → has_syn flags ≡ false
    → has_fin flags ≡ false
    → 0 < length payload
    → (feed (feed b isn ack [] syn) (isn + 1) ack' payload flags).contiguous
      ≡ b.contiguous ++ payload
resent_syn_repeats b isn ack ack' payload syn flags idle on off open_end full =
    rw (resent b isn ack syn on) (
      rw (feed_plain (feed_syn b isn []) (isn + 1) ack' payload flags (reset b isn).0 off open_end)
        (rw
          (at_front (feed_syn b isn []) (isn + 1) ack' payload
            (feed_payload-FeedCase (feed_syn b isn []) isn (isn + 1) ack' payload)
            (omega (arith, (reset b isn).1)) full)
          (joined (feed_syn b isn []) payload ((reset b isn).2.0 ∙ idle)
            ∙ ap (λ t. t ++ payload) (reset b isn).2.1)))

-- Data whose sequence number has wrapped round to below the ISN changes nothing: it is lost.
pub wrapped_data_lost :
    (b : DirectionBuffer) {isn : ℕ} (seq ack : ℕ) (payload : List ℕ) (flags : ℕ)
    → b.isn ≡ some isn
    → has_syn flags ≡ false
    → has_fin flags ≡ false
    → seq + length payload ≤ isn
    → feed b seq ack payload flags ≡ b
wrapped_data_lost b {isn} seq ack payload flags e syn fin h =
    feed_plain b seq ack payload flags e syn fin
    ∙ all_old b seq ack payload (feed_payload-FeedCase b isn seq ack payload) (omega arith)

abbrev flushed : DirectionBuffer → DirectionBuffer
flushed b = record b { contiguous = []; segments = []; total_buffered = 0 }

flush_state : (b : DirectionBuffer) → (get_data true b).1 ≡ flushed b
unfolding get_data
flush_state b = refl

one_segment :
    (b : DirectionBuffer) (rel_seq ack : ℕ) (payload : List ℕ)
    → b.contiguous ≡ []
    → b.segments ≡ []
    → (get_data true (buffer_segment b rel_seq ack payload)).0
      ≡ replicate (rel_seq - b.next_seq) 0 ++ payload
unfolding get_data buffer_segment sort_segments merge_segments
one_segment b rel_seq ack payload c idle =
    rw (c, idle) (ap (λ t. replicate (rel_seq - b.next_seq) 0 ++ t) (append-nil payload))

-- After a flush the next segment past `next_seq` is padded with zeros from `next_seq` on again, also
-- for the positions that the flush has already put out.
pub flush_repeats_gap :
    (b : DirectionBuffer) {isn : ℕ} (rel_seq ack : ℕ) (payload : List ℕ) (flags : ℕ)
    → b.isn ≡ some isn
    → has_syn flags ≡ false
    → has_fin flags ≡ false
    → b.next_seq < rel_seq
    → 0 < length payload
    → (get_data true (feed (get_data true b).1 (isn + rel_seq) ack payload flags)).0
      ≡ replicate (rel_seq - b.next_seq) 0 ++ payload
flush_repeats_gap b {isn} rel_seq ack payload flags e syn fin lt full =
    let f : DirectionBuffer = flushed b in
    rw (flush_state b) (
      rw (feed_plain f (isn + rel_seq) ack payload flags e syn fin) (
        rw
          (past_front f (isn + rel_seq) ack payload rel_seq
            (feed_payload-FeedCase f isn (isn + rel_seq) ack payload) refl lt full)
          (one_segment f rel_seq ack payload refl refl)))
