-- ===== src/Stream/Flush.antt =====
-- get_data(fill_gaps=True) of dpkt/stream.py's DirectionBuffer: the buffered bytes, with zeros in the
-- places of those that are missing.
use mathlib.Core.List.{append_assoc}
use dpkt_ng.Base.{
  ℕ, zero, suc, ◌+◌, ◌-◌, ◌≤◌, ◌<◌, ◌≡◌, refl, sym, ap, ◌∙◌, true, List, [], ◌∷◌, ◌++◌, arith, ltb,
  All, length, replicate, if◌then◌else◌,
}
use dpkt_ng.Stream.Segments.{Segment, seg_end}
use dpkt_ng.Stream.Buffer.{DirectionBuffer, fill_segments, get_data}
use dpkt_ng.Stream.Slices.{slice, slice_none, slice_join, IsPart}
use dpkt_ng.Stream.Sorting.{covers, IsSeparated}
use dpkt_ng.Stream.Delivery.{Holds}
use dpkt_ng.Stream.Reassembly.{covers_before}

-- The stream's byte where a segment holds it, and zero elsewhere.
abbrev pub masked : (ℕ → ℕ) → List Segment → ℕ → ℕ
masked s l p = if covers p l then s p else 0

-- The end of the last segment.
unfoldable pub last_end : ℕ → List Segment → ℕ
last_end position [] = position
last_end position (t ∷ rest) = last_end (seg_end t) rest

slice_ext :
    (f g : ℕ → ℕ) (a n : ℕ) → ((p : ℕ) → a ≤ p → p < a + n → f p ≡ g p) → slice f a n ≡ slice g a n
unfolding slice
slice_ext f g a zero h = refl
slice_ext f g a (suc n) h = ground (
  arith,
  h a (omega arith) (omega arith),
  slice_ext f g (a + 1) n (λ p lo hi. h p (omega arith) (omega arith)),
)

slice_zeros : (a n : ℕ) → slice (λ p. 0) a n ≡ replicate n 0
unfolding slice
slice_zeros a zero = refl
slice_zeros a (suc n) = ap (λ t. 0 ∷ t) (slice_zeros (a + 1) n)

position-le-last_end : (n : ℕ) (l : List Segment) → IsSeparated n l → n ≤ last_end n l
unfolding last_end
position-le-last_end n [] sep = omega arith
position-le-last_end n (t ∷ rest) sep = omega (arith, position-le-last_end (seg_end t) rest sep.2)

-- The three stretches of a first segment: the gap, its own bytes, and what follows.
module _ (s : ℕ → ℕ) (n : ℕ) (t : Segment) (rest : List Segment)
    (sep : IsSeparated n (t ∷ rest)) where
  gap_stretch : slice (masked s (t ∷ rest)) n (t.rel_seq - n) ≡ replicate (t.rel_seq - n) 0
  gap_stretch =
      slice_ext (masked s (t ∷ rest)) (λ p. 0) n (t.rel_seq - n)
        (λ p lo hi. ground (arith, covers_before p (seg_end t) rest sep.2))
      ∙ slice_zeros n (t.rel_seq - n)

  own_stretch : IsPart s t → slice (masked s (t ∷ rest)) t.rel_seq (length t.payload) ≡ t.payload
  own_stretch part =
      slice_ext (masked s (t ∷ rest)) s t.rel_seq (length t.payload) (λ p lo hi. ground arith)
      ∙ sym part

  later_stretch :
      (k : ℕ) → slice (masked s (t ∷ rest)) (seg_end t) k ≡ slice (masked s rest) (seg_end t) k
  later_stretch k =
      slice_ext (masked s (t ∷ rest)) (masked s rest) (seg_end t) k (λ p lo hi. ground arith)

pub fill_position :
    (n : ℕ) (t : Segment)
    → n < t.rel_seq
    → (if ltb 0 (t.rel_seq - n) then t.rel_seq else n) + length t.payload ≡ seg_end t
fill_position n t h = ground arith

fill_segments-masked :
    (s : ℕ → ℕ) (n : ℕ) (l : List Segment)
    → IsSeparated n l
    → All (IsPart s) l
    → fill_segments n l ≡ slice (masked s l) n (last_end n l - n)
unfolding fill_segments last_end
fill_segments-masked s n [] sep parts = sym (slice_none (masked s []) n (n - n) (omega arith))
fill_segments-masked s n (t ∷ rest) sep parts =
    let m : ℕ → ℕ = masked s (t ∷ rest) in
    let e : ℕ = last_end (seg_end t) rest in
    let e_le : seg_end t ≤ e = position-le-last_end (seg_end t) rest sep.2 in
    rw (fill_position n t sep.0) (
      ground (
        arith,
        gap_stretch s n t rest sep,
        own_stretch s n t rest sep parts.0,
        later_stretch s n t rest sep (e - seg_end t),
        fill_segments-masked s (seg_end t) rest sep.2 parts.1,
        slice_join m [] n t.rel_seq (seg_end t) (omega arith) (omega arith),
        slice_join m [] n (seg_end t) e (omega arith) e_le,
        append_assoc (replicate (t.rel_seq - n) 0) t.payload (slice m (seg_end t) (e - seg_end t)),
      ))

-- A flush returns what lies ready, then every position up to the end of the last segment: the
-- stream's byte where it is buffered, and a zero where it is missing. It empties the buffer and
-- leaves `next_seq`, the ISN and the FIN as they were.
pub flush_masked :
    (s : ℕ → ℕ) (isn : ℕ) (out : List ℕ) (b : DirectionBuffer)
    → Holds s isn out b
    → ((get_data true b).0
        ≡ b.contiguous
          ++ slice (masked s b.segments) b.next_seq (last_end b.next_seq b.segments - b.next_seq))
      × ((get_data true b).1 ≡ record b { contiguous = []; segments = []; total_buffered = 0 })
unfolding get_data
flush_masked s isn out b h = (
  ap (λ t. b.contiguous ++ t) (fill_segments-masked s b.next_seq b.segments h.separated h.parts),
  refl,
)
