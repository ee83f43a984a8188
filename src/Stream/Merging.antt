-- ===== src/Stream/Merging.antt =====
-- The merge of overlapping neighbours in dpkt/stream.py: after it there is a gap before each segment,
-- the same positions are covered, and pieces of one stream stay pieces of it.
use dpkt_ng.Base.{
  ℕ, suc, ◌+◌, ◌-◌, ◌≤◌, ◌<◌, max, ◌≡◌, refl, true, false, ◌||◌, inl, inr, List, [], ◌∷◌, arith,
  leb, ltb, Bool-cases, leb→le, All, length, length-append, length-take, length-drop,
  length-replicate,
}
use dpkt_ng.Stream.Segments.{Segment, seg_end, overlay_at, overlay, merge_from, merge_segments}
use dpkt_ng.Stream.Slices.{IsPart, overlay_at-slice}
use dpkt_ng.Stream.Sorting.{in_segment, covers, IsSeparated, IsSorted, IsSorted-weaken}

length-overlay_at :
    (off : ℕ) (p q : List ℕ)
    → off ≤ length p
    → length (overlay_at off p q) ≡ max (length p) (off + length q)
unfolding overlay_at
length-overlay_at off p q h = elim (Bool-cases (ltb off (length p))) [
  | inl inside ↦
      rw inside (grind (arith, length-append, length-take, length-drop, length-replicate))
  | inr past ↦ rw past (grind (arith, length-append, length-replicate))
]

-- `last` and `seg` overlap or touch.
abbrev Meets : Segment → Segment → Type 0
Meets last seg = (last.rel_seq ≤ seg.rel_seq) × (seg.rel_seq ≤ seg_end last)

in_segment-overlay :
    (p : ℕ) (last seg : Segment)
    → Meets last seg
    → in_segment p (overlay last seg) ≡ (in_segment p last || in_segment p seg)
in_segment-overlay p last seg meets =
    ground (arith, length-overlay_at (seg.rel_seq - last.rel_seq) last.payload seg.payload)

overlay-IsPart :
    (s : ℕ → ℕ) (last seg : Segment)
    → Meets last seg
    → IsPart s last
    → IsPart s seg
    → IsPart s (overlay last seg)
overlay-IsPart s last seg meets hl hs =
    let off : ℕ = seg.rel_seq - last.rel_seq in
    let at : last.rel_seq + off ≡ seg.rel_seq = omega arith in
    cc (
      overlay_at-slice s last.rel_seq off last.payload seg.payload hl (rw at hs) (omega arith),
      length-overlay_at off last.payload seg.payload (omega arith),
    )

-- The two ways of a round of the loop.
module _ (last seg : Segment) (rest : List Segment) where
  merge_from_meets :
      leb seg.rel_seq (seg_end last) ≡ true
      → merge_from last (seg ∷ rest) ≡ merge_from (overlay last seg) rest
  unfolding merge_from
  merge_from_meets h = rw (h, merge_from)

  merge_from_apart :
      leb seg.rel_seq (seg_end last) ≡ false
      → merge_from last (seg ∷ rest) ≡ last ∷ merge_from seg rest
  unfolding merge_from
  merge_from_apart h = rw (h, merge_from)

covers-merge_from :
    (p : ℕ) (last : Segment) (rest : List Segment)
    → IsSorted last.rel_seq rest
    → covers p (merge_from last rest) ≡ covers p (last ∷ rest)
unfolding merge_from
covers-merge_from p last [] sorted = refl
covers-merge_from p last (seg ∷ rest) sorted = elim (Bool-cases (leb seg.rel_seq (seg_end last))) [
  | inl meets ↦ rw (merge_from_meets last seg rest meets) (
      ground (
        arith,
        in_segment-overlay p last seg (sorted.0, leb→le _ _ meets),
        covers-merge_from p (overlay last seg) rest
            (IsSorted-weaken last.rel_seq seg.rel_seq rest sorted.0 sorted.2),
      ))
  | inr apart ↦
      rw (merge_from_apart last seg rest apart)
        (ground (arith, covers-merge_from p seg rest sorted.2))
]

merge_from-IsSeparated :
    (n : ℕ) (last : Segment) (rest : List Segment)
    → n < last.rel_seq
    → 0 < length last.payload
    → IsSorted last.rel_seq rest
    → IsSeparated n (merge_from last rest)
unfolding merge_from
merge_from-IsSeparated n last [] h full sorted = (h, full, tt)
merge_from-IsSeparated n last (seg ∷ rest) h full sorted =
    elim (Bool-cases (leb seg.rel_seq (seg_end last))) [
      | inl meets ↦ rw (merge_from_meets last seg rest meets) (
          merge_from-IsSeparated n (overlay last seg) rest h
            (omega (
              arith,
              length-overlay_at (seg.rel_seq - last.rel_seq) last.payload seg.payload,
              leb→le seg.rel_seq (seg_end last),
            ))
            (IsSorted-weaken last.rel_seq seg.rel_seq rest sorted.0 sorted.2))
      | inr apart ↦
          rw (merge_from_apart last seg rest apart) (
            h,
            full,
            merge_from-IsSeparated (seg_end last) seg rest (ground arith) sorted.1 sorted.2,
          )
    ]

merge_from-IsPart :
    (s : ℕ → ℕ) (last : Segment) (rest : List Segment)
    → IsSorted last.rel_seq rest
    → IsPart s last
    → All (IsPart s) rest
    → All (IsPart s) (merge_from last rest)
unfolding merge_from
merge_from-IsPart s last [] sorted hl hr = (hl, tt)
merge_from-IsPart s last (seg ∷ rest) sorted hl hr =
    elim (Bool-cases (leb seg.rel_seq (seg_end last))) [
      | inl meets ↦ rw (merge_from_meets last seg rest meets) (
          merge_from-IsPart s (overlay last seg) rest
            (IsSorted-weaken last.rel_seq seg.rel_seq rest sorted.0 sorted.2)
            (overlay-IsPart s last seg (sorted.0, leb→le _ _ meets) hl hr.0) hr.1)
      | inr apart ↦
          rw (merge_from_apart last seg rest apart)
            (hl, merge_from-IsPart s seg rest sorted.2 hr.0 hr.1)
    ]

pub covers-merge_segments :
    (p n : ℕ) (l : List Segment) → IsSorted n l → covers p (merge_segments l) ≡ covers p l
unfolding merge_segments
covers-merge_segments p n [] sorted = refl
covers-merge_segments p n (s ∷ rest) sorted = covers-merge_from p s rest sorted.2

pub merge_segments-IsSeparated :
    (n : ℕ) (l : List Segment) → IsSorted (suc n) l → IsSeparated n (merge_segments l)
unfolding merge_segments
merge_segments-IsSeparated n [] sorted = tt
merge_segments-IsSeparated n (s ∷ rest) sorted =
    merge_from-IsSeparated n s rest sorted.0 sorted.1 sorted.2

pub merge_segments-IsPart :
    (s : ℕ → ℕ) (n : ℕ) (l : List Segment)
    → IsSorted n l
    → All (IsPart s) l
    → All (IsPart s) (merge_segments l)
unfolding merge_segments
merge_segments-IsPart s n [] sorted h = tt
merge_segments-IsPart s n (t ∷ rest) sorted h = merge_from-IsPart s t rest sorted.2 h.0 h.1
