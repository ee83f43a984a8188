-- ===== src/Stream/Sorting.antt =====
-- What the buffered segments of dpkt/stream.py cover, and how far apart they stand; what the stable
-- sort of `self.segments` keeps of both.
use dpkt_ng.Base.{
  ℕ, suc, ◌≤◌, ◌<◌, ◌≡◌, refl, Bool, false, ◌&&◌, ◌||◌, List, [], ◌∷◌, ◌++◌, arith, leb, ltb, All,
  length,
}
use dpkt_ng.Stream.Segments.{Segment, seg_end, insert_segment, sort_segments}

abbrev pub in_segment : ℕ → Segment → Bool
in_segment p s = leb s.rel_seq p && ltb p (seg_end s)

-- Some segment holds a byte for position p.
abbrev pub covers : ℕ → List Segment → Bool
covers p [] = false
covers p (s ∷ rest) = in_segment p s || covers p rest

-- Position n is below the first segment, and there is a gap before each segment.
abbrev pub IsSeparated : ℕ → List Segment → Type 0
IsSeparated n [] = Unit
IsSeparated n (s ∷ rest) = (n < s.rel_seq) × (0 < length s.payload) × IsSeparated (seg_end s) rest

-- In order of `rel_seq`, from n on, and none is empty.
abbrev pub IsSorted : ℕ → List Segment → Type 0
IsSorted n [] = Unit
IsSorted n (s ∷ rest) = (n ≤ s.rel_seq) × (0 < length s.payload) × IsSorted s.rel_seq rest

-- A segment with data past position n.
abbrev pub IsBeyond : ℕ → Segment → Type 0
IsBeyond n s = (n < s.rel_seq) × (0 < length s.payload)

pub IsSeparated-All : (n m : ℕ) (l : List Segment) → n ≤ m → IsSeparated m l → All (IsBeyond n) l
IsSeparated-All n m [] h sep = tt
IsSeparated-All n m (s ∷ rest) h sep =
    ((omega arith, sep.1), IsSeparated-All n (seg_end s) rest (omega arith) sep.2)

pub IsSeparated-weaken : (n m : ℕ) (l : List Segment) → n ≤ m → IsSeparated m l → IsSeparated n l
IsSeparated-weaken n m [] h sep = tt
IsSeparated-weaken n m (s ∷ rest) h sep = (omega arith, sep.1, sep.2)

pub IsSorted-weaken : (n m : ℕ) (l : List Segment) → n ≤ m → IsSorted m l → IsSorted n l
IsSorted-weaken n m [] h sorted = tt
IsSorted-weaken n m (s ∷ rest) h sorted = (omega arith, sorted.1, sorted.2)

insert_segment-IsSorted :
    (n : ℕ) (s : Segment) (l : List Segment)
    → n ≤ s.rel_seq
    → 0 < length s.payload
    → IsSorted n l
    → IsSorted n (insert_segment s l)
unfolding insert_segment
insert_segment-IsSorted n s [] h full sorted = (h, full, tt)
insert_segment-IsSorted n s (t ∷ rest) h full sorted =
    ground (arith, insert_segment-IsSorted t.rel_seq s rest)

pub sort_segments-IsSorted :
    (n : ℕ) (l : List Segment) → All (IsBeyond n) l → IsSorted (suc n) (sort_segments l)
unfolding sort_segments
sort_segments-IsSorted n [] h = tt
sort_segments-IsSorted n (s ∷ rest) h =
    insert_segment-IsSorted (suc n) s (sort_segments rest) h.0.0 h.0.1
      (sort_segments-IsSorted n rest h.1)

covers-insert_segment :
    (p : ℕ) (s : Segment) (l : List Segment)
    → covers p (insert_segment s l) ≡ (in_segment p s || covers p l)
unfolding insert_segment
covers-insert_segment p s [] = refl
covers-insert_segment p s (t ∷ rest) = ground (arith, covers-insert_segment p s rest)

pub covers-sort_segments : (p : ℕ) (l : List Segment) → covers p (sort_segments l) ≡ covers p l
unfolding sort_segments
covers-sort_segments p [] = refl
covers-sort_segments p (s ∷ rest) =
    cc (covers-insert_segment p s (sort_segments rest), covers-sort_segments p rest)

pub covers-append : (p : ℕ) (l m : List Segment) → covers p (l ++ m) ≡ (covers p l || covers p m)
covers-append p [] m = refl
covers-append p (s ∷ rest) m = ground (arith, covers-append p rest m)

module _ (P : Segment → Type 0) where
  insert_segment-All : (s : Segment) (l : List Segment) → P s → All P l → All P (insert_segment s l)
  unfolding insert_segment
  insert_segment-All s [] hs hl = (hs, tt)
  insert_segment-All s (t ∷ rest) hs hl = ground (arith, insert_segment-All s rest hs hl.1)

  pub sort_segments-All : (l : List Segment) → All P l → All P (sort_segments l)
  unfolding sort_segments
  sort_segments-All [] h = tt
  sort_segments-All (s ∷ rest) h =
      insert_segment-All s (sort_segments rest) h.0 (sort_segments-All rest h.1)
