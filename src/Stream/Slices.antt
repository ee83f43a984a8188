-- ===== src/Stream/Slices.antt =====
-- The specification's side of dpkt/stream.py: a sender's byte stream as a function from the relative
-- sequence number, and the runs of bytes that a segment carries.
use Prim.Native.Nat.add
use mathlib.Core.List.{append-nil, append_assoc}
use dpkt_ng.Base.{
  ℕ, zero, suc, ◌+◌, ◌-◌, ◌≤◌, max, ◌≡◌, refl, sym, ap, ◌∙◌, List, [], ◌∷◌, ◌++◌, arith, length,
  length-append, take, drop, replicate, length-replicate, take-append_le, drop_all, Bool-cases, inl,
  inr, ltb,
}
use dpkt_ng.Stream.Segments.{Segment, overlay_at}

-- The n bytes of the stream from position a on.
unfoldable pub slice : (ℕ → ℕ) → ℕ → ℕ → List ℕ
slice s a zero = []
slice s a (suc n) = s a ∷ slice s (a + 1) n

module _ (s : ℕ → ℕ) where
  pub length-slice : (a n : ℕ) → length (slice s a n) ≡ n
  unfolding slice
  length-slice a zero = refl
  length-slice a (suc n) = ap suc (length-slice (a + 1) n)

  pub slice-add : (a m n : ℕ) → slice s a (m + n) ≡ slice s a m ++ slice s (a + m) n
  unfolding slice
  slice-add a zero n = ground arith
  slice-add a (suc m) n = rw add.suc (ground (arith, slice-add (a + 1) m n))

  pub slice_none : (a n : ℕ) → n ≡ 0 → slice s a n ≡ []
  unfolding slice
  slice_none a n h = rw h

  -- Two runs, one behind the other.
  pub slice_join :
      (xs : List ℕ) (a m n : ℕ)
      → a ≤ m
      → m ≤ n
      → (xs ++ slice s a (m - a)) ++ slice s m (n - m) ≡ xs ++ slice s a (n - a)
  slice_join xs a m n h k =
      ground (
        arith,
        append_assoc xs (slice s a (m - a)) (slice s m (n - m)),
        slice-add a (m - a) (n - m),
      )

  pub drop-slice : (k a n : ℕ) → drop k (slice s a n) ≡ slice s (a + k) (n - k)
  unfolding slice
  drop-slice zero a n = ground arith
  drop-slice (suc k) a zero = ground arith
  drop-slice (suc k) a (suc n) = ground (arith, drop-slice k (a + 1) n)

  pub take-slice : (k a n : ℕ) → k ≤ n → take k (slice s a n) ≡ slice s a k
  unfolding slice
  take-slice zero a n h = refl
  take-slice (suc k) a zero h = absurd (omega arith)
  take-slice (suc k) a (suc n) h = ap (λ t. s a ∷ t) (take-slice k (a + 1) n (omega arith))

-- The segment carries the stream's own bytes.
abbrev pub IsPart : (ℕ → ℕ) → Segment → Type 0
IsPart s seg = seg.payload ≡ slice s seg.rel_seq (length seg.payload)

pub no_gap : (n m : ℕ) → n ≤ m → replicate {A = ℕ} (n - m) 0 ≡ []
no_gap n m h = ap (λ k. replicate k 0) (let e : n - m ≡ 0 = omega arith in e)

-- What lies behind `stop` of the padded bytes: the rest of the old ones, if there is one.
padded_tail :
    (xs pad : List ℕ) (stop : ℕ)
    → length pad ≡ max (length xs) stop - length xs
    → drop stop (xs ++ pad) ≡ drop stop xs
padded_tail xs [] stop h = rw append-nil
padded_tail xs (z ∷ pad) stop h =
    drop_all stop _ (omega (arith, length-append xs (z ∷ pad)))
    ∙ sym (drop_all stop xs (omega arith))

module _ (s : ℕ → ℕ) (a : ℕ) (p : List ℕ) (hp : p ≡ slice s a (length p)) where
  pub take_part : (k : ℕ) → k ≤ length p → take k p ≡ slice s a k
  take_part k h = ap (take k) hp ∙ take-slice s k a (length p) h

  pub drop_part : (k : ℕ) → drop k p ≡ slice s (a + k) (length p - k)
  drop_part k = ap (drop k) hp ∙ drop-slice s k a (length p)

module _ (s : ℕ → ℕ) (a off : ℕ) where
  slice_three :
      (m n : ℕ)
      → slice s a off ++ (slice s (a + off) m ++ slice s (a + (off + m)) n)
        ≡ slice s a (off + m + n)
  slice_three m n = cc (
    slice-add s a (off + m) n,
    slice-add s a off m,
    append_assoc (slice s a off) (slice s (a + off) m) (slice s (a + (off + m)) n),
  )

  -- Laid over by a piece that starts inside it or at its end, a piece of the stream grows to the
  -- union of the two.
  pub overlay_at-slice :
      (p q : List ℕ)
      → p ≡ slice s a (length p)
      → q ≡ slice s (a + off) (length q)
      → off ≤ length p
      → overlay_at off p q ≡ slice s a (max (length p) (off + length q))
  unfolding overlay_at
  overlay_at-slice p q hp hq hoff = elim (Bool-cases (ltb off (length p))) [
    | inl inside ↦ rw inside (
        let pad : List ℕ = replicate (max (length p) (off + length q) - length p) 0 in
        ground (
          arith,
          take-append_le off p pad hoff,
          take_part s a p hp off hoff,
          padded_tail p pad (off + length q) (length-replicate _ 0),
          drop_part s a p hp (off + length q),
          hq,
          slice_three (length q) (length p - (off + length q)),
        ))
    | inr past ↦
        rw past
          (ground (arith, no_gap off (length p) hoff, hp, hq, slice-add s a (length p) (length q)))
  ]
