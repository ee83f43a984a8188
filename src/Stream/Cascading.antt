-- ===== src/Stream/Cascading.antt =====
-- The cascade loop of dpkt/stream.py: it moves `next_seq` over every buffered segment that it
-- reaches, no position is lost, and the bytes that it appends are the stream's own.
use mathlib.Core.List.{append-nil}
use dpkt_ng.Base.{
  ℕ, ◌-◌, ◌≤◌, max, ◌≡◌, refl, ◌∙◌, false, ◌||◌, inl, inr, List, [], ◌∷◌, ◌++◌, arith, leb, ltb,
  Bool, Bool-cases, leb→le, le→leb, All,
}
use dpkt_ng.Stream.Segments.{Segment, seg_end, Front, absorb, cascade}
use dpkt_ng.Stream.Slices.{slice, slice_none, slice_join, drop_part, IsPart}
use dpkt_ng.Stream.Sorting.{covers, IsSeparated}

module _ (next : ℕ) (contiguous : List ℕ) (seg : Segment) (reached : seg.rel_seq ≤ next) where
  absorb_next : (absorb next contiguous seg).0 ≡ max next (seg_end seg)
  unfolding absorb
  absorb_next = ground arith

  absorb_bytes :
      (s : ℕ → ℕ)
      → IsPart s seg
      → (absorb next contiguous seg).1 ≡ contiguous ++ slice s next (max next (seg_end seg) - next)
  unfolding absorb
  absorb_bytes s part = elim (Bool-cases (ltb next (seg_end seg))) [
    | inl more ↦
        rw more (ground (arith, drop_part s seg.rel_seq seg.payload part (next - seg.rel_seq)))
    | inr old ↦
        rw old
          (ground (arith, append-nil contiguous, slice_none s next (max next (seg_end seg) - next)))
  ]

module _ (next : ℕ) (contiguous : List ℕ) (seg : Segment) (rest : List Segment) where
  cascade_pops :
      seg.rel_seq ≤ next
      → cascade next contiguous (seg ∷ rest)
        ≡ cascade (absorb next contiguous seg).0 (absorb next contiguous seg).1 rest
  unfolding cascade
  cascade_pops h = rw (le→leb _ _ h, cascade)

  cascade_stops :
      leb seg.rel_seq next ≡ false
      → cascade next contiguous (seg ∷ rest)
        ≡ record { next_seq = next; contiguous = contiguous; segments = seg ∷ rest }
  unfolding cascade
  cascade_stops h = rw (h, cascade)

-- Position p is before `next_seq`, or buffered.
abbrev pub front_covers : ℕ → Front → Bool
front_covers p f = ltb p f.next_seq || covers p f.segments

pub cascade-covers :
    (p next : ℕ) (contiguous : List ℕ) (l : List Segment)
    → front_covers p (cascade next contiguous l) ≡ (ltb p next || covers p l)
unfolding cascade
cascade-covers p next contiguous [] = refl
cascade-covers p next contiguous (seg ∷ rest) = elim (Bool-cases (leb seg.rel_seq next)) [
  | inl reached ↦
      let h : seg.rel_seq ≤ next = leb→le _ _ reached in
      rw (cascade_pops next contiguous seg rest h) (
        ground (
          arith,
          absorb_next next contiguous seg h,
          cascade-covers p (absorb next contiguous seg).0 (absorb next contiguous seg).1 rest,
        ))
  | inr far ↦ rw (cascade_stops next contiguous seg rest far) refl
]

pub cascade-IsSeparated :
    (m next : ℕ) (contiguous : List ℕ) (l : List Segment)
    → IsSeparated m l
    → IsSeparated (cascade next contiguous l).next_seq (cascade next contiguous l).segments
unfolding cascade
cascade-IsSeparated m next contiguous [] sep = tt
cascade-IsSeparated m next contiguous (seg ∷ rest) sep = elim (Bool-cases (leb seg.rel_seq next)) [
  | inl reached ↦ rw (cascade_pops next contiguous seg rest (leb→le _ _ reached)) (
      cascade-IsSeparated (seg_end seg) (absorb next contiguous seg).0
        (absorb next contiguous seg).1 rest sep.2)
  | inr far ↦ rw (cascade_stops next contiguous seg rest far) (ground arith, sep.1, sep.2)
]

-- The cascade goes forward, appends the stream's bytes in between, and keeps pieces of the stream.
pub record Advances (s : ℕ → ℕ) (next : ℕ) (contiguous : List ℕ) (f : Front) : Type 0 where
  pub forward : next ≤ f.next_seq
  pub bytes : f.contiguous ≡ contiguous ++ slice s next (f.next_seq - next)
  pub parts : All (IsPart s) f.segments

stays :
    (s : ℕ → ℕ) (next : ℕ) (contiguous : List ℕ) (l : List Segment)
    → All (IsPart s) l
    → Advances s next contiguous (record { next_seq = next; contiguous = contiguous; segments = l })
stays s next contiguous l h = record {
  forward = omega arith;
  bytes = ground (arith, append-nil contiguous, slice_none s next (next - next));
  parts = h;
}

then-Advances :
    (s : ℕ → ℕ) (next mid : ℕ) (contiguous middle : List ℕ) (f : Front)
    → next ≤ mid
    → middle ≡ contiguous ++ slice s next (mid - next)
    → Advances s mid middle f
    → Advances s next contiguous f
then-Advances s next mid contiguous middle f h e a = record {
  forward = omega arith;
  bytes = a.bytes ∙ rw e (slice_join s contiguous next mid f.next_seq h a.forward);
  parts = a.parts;
}

pub cascade-Advances :
    (s : ℕ → ℕ) (next : ℕ) (contiguous : List ℕ) (l : List Segment)
    → All (IsPart s) l
    → Advances s next contiguous (cascade next contiguous l)
unfolding cascade
cascade-Advances s next contiguous [] h = stays s next contiguous [] h
cascade-Advances s next contiguous (seg ∷ rest) h = elim (Bool-cases (leb seg.rel_seq next)) [
  | inl reached ↦
      let at : seg.rel_seq ≤ next = leb→le _ _ reached in
      rw (cascade_pops next contiguous seg rest at) (
        then-Advances s next (absorb next contiguous seg).0 contiguous
          (absorb next contiguous seg).1 _ (omega (arith, absorb_next next contiguous seg at))
          (rw (absorb_next next contiguous seg at) (absorb_bytes next contiguous seg at s h.0))
          (cascade-Advances s (absorb next contiguous seg).0 (absorb next contiguous seg).1 rest
            h.1))
  | inr far ↦
      rw (cascade_stops next contiguous seg rest far) (stays s next contiguous (seg ∷ rest) h)
]
