-- ===== src/Quic/Parse/Total.antt =====
-- parse_frames of dpkt/quic.py returns for every byte string.
use dpkt_ng.Base.{
  ℕ, zero, suc, ◌+◌, ◌<◌, Bool, true, false, some, List, [], ◌∷◌, ◌==◌, if◌then◌else◌, length, drop,
  get_elem?, ◌≡◌, refl, sym, subst, ◌∙◌, arith, Option-cases, inl, inr,
}
use dpkt_ng.Base.Results.{Outcome, returns, raises, ◌>>=◌, bind_inversion}
use dpkt_ng.Base.Loops.{Advances}
use dpkt_ng.Quic.Frames.{
  QuicFrame, plain, stream_frame, crypto_frame, ack_frame, max_data_frame, max_stream_data_frame,
  connection_close_frame, byte_at, unpack_frame, frame_byte_size,
}
use dpkt_ng.Quic.Parse.{advance, attempt, read_round}

get_elem?_inside : (buf : List ℕ) (i : ℕ) → i < length buf → (b : ℕ) × (get_elem? buf i ≡ some b)
get_elem?_inside [] i h = absurd (omega arith)
get_elem?_inside (x ∷ xs) zero h = (x, refl)
get_elem?_inside (x ∷ xs) (suc i) h = get_elem?_inside xs i (omega arith)

get_elem?_bound : (buf : List ℕ) (i : ℕ) {b : ℕ} → get_elem? buf i ≡ some b → i < length buf
get_elem?_bound [] i h = cc
get_elem?_bound (x ∷ xs) zero h = omega arith
get_elem?_bound (x ∷ xs) (suc i) h = omega (arith, get_elem?_bound xs i h)

pub byte_at_inside : (buf : List ℕ) (i : ℕ) → i < length buf → (b : ℕ) × (byte_at buf i ≡ returns b)
unfolding byte_at
byte_at_inside buf i h = let (b, e) = get_elem?_inside buf i h in (b, rw (byte_at, e))

pub byte_at_bound : (buf : List ℕ) (i : ℕ) {b : ℕ} → byte_at buf i ≡ returns b → i < length buf
unfolding byte_at
byte_at_bound buf i h = elim (Option-cases (get_elem? buf i)) [
  | inl e ↦ ground arith
  | inr (b, e) ↦ get_elem?_bound buf i e
]

-- No frame is given the size zero.
size_positive : (f : QuicFrame) {n : ℕ} → frame_byte_size f ≡ returns n → 0 < n
unfolding frame_byte_size
size_positive (plain type) h = ground arith
size_positive (max_data_frame type max_data) h = ground arith
size_positive (max_stream_data_frame type stream_id max_data) h = ground arith
size_positive (connection_close_frame type error_code frame_type reason) h = ground arith
size_positive (crypto_frame type offset length' data') h = ground arith
size_positive (stream_frame type stream_id offset length' data') h = ground arith
size_positive (ack_frame type largest_ack ack_delay block_count first_ack_range blocks) h =
    ground arith

-- Every round inside the buffer returns, and goes forward.
abbrev Goes : ℕ → Outcome (List QuicFrame × ℕ) → Type 0
Goes off r = (fs : List QuicFrame) × (off' : ℕ) × (r ≡ returns (fs, off')) × (off < off')

advance-Goes :
    (buf : List ℕ) (off : ℕ) (f : QuicFrame) (size : Outcome ℕ)
    → off < length buf
    → ((n : ℕ) → size ≡ returns n → 0 < n)
    → Goes off (advance buf off f size)
unfolding advance
advance-Goes buf off f (returns n) h p = (f ∷ [], off + n, refl, omega (arith, p n refl))
advance-Goes buf off f (raises e) h p = (f ∷ [], length buf, refl, h)

attempt-Goes :
    (buf : List ℕ) (off : ℕ) (u : Outcome QuicFrame)
    → off < length buf
    → Goes off (attempt buf off u)
unfolding attempt
attempt-Goes buf off (returns f) h =
    advance-Goes buf off f (frame_byte_size f) h (λ n. size_positive f)
attempt-Goes buf off (raises e) h = ([], length buf, refl, h)

either-Goes :
    (off : ℕ) (padding : Bool) (x y : Outcome (List QuicFrame × ℕ))
    → Goes off x
    → Goes off y
    → Goes off (if padding then x else y)
either-Goes off true x y hx hy = hx
either-Goes off false x y hx hy = hy

read_round-Goes : (buf : List ℕ) (off : ℕ) → off < length buf → Goes off (read_round buf off)
unfolding read_round
read_round-Goes buf off h =
    let (b, r) = byte_at_inside buf off h in
    subst
      (λ x. Goes off (
        x >>= λ b.
        if b == 0 then returns ([], off + 1) else attempt buf off (unpack_frame b (drop off buf))))
      (sym r)
      (either-Goes off (b == 0) _ _ ([], off + 1, refl, omega arith)
        (attempt-Goes buf off (unpack_frame b (drop off buf)) h))

pub read_round-Advances : (buf : List ℕ) → Advances (read_round buf) (length buf)
unfolding read_round
read_round-Advances buf off fs off' h =
    let (b, r, h1) = bind_inversion (byte_at buf off) _ h in
    let inside = byte_at_bound buf off r in
    let (fs', off'', r', forward) = read_round-Goes buf off inside in
    (inside, subst (λ n. off < n) (same_offset (sym r' ∙ h)) forward)
  where
    same_offset : {p q : List QuicFrame × ℕ} → returns p ≡ returns q → p.1 ≡ q.1
    same_offset h = cc
