-- ===== src/Quic/Parse/Sequence.antt =====
-- parse_frames of dpkt/quic.py reads one frame and goes on behind it.
use dpkt_ng.Base.{
  ℕ, suc, ◌+◌, ◌<◌, ◌≤◌, Bool, true, false, none, some, List, [], ◌∷◌, ◌++◌, ◌==◌, if◌then◌else◌,
  length, length-append, drop, get_elem?, ◌≡◌, refl, ap, ◌∙◌, arith,
}
use dpkt_ng.Base.Bytes.{drop-append_length}
use dpkt_ng.Base.Results.{Outcome, returns, raises, index_error, ◌>>=◌}
use dpkt_ng.Base.Loops.{read_loop, read_loop_fuel, read_loop_shift, read_loop_next}
use dpkt_ng.Quic.Frames.{QuicFrame, byte_at, unpack_frame, frame_byte_size}
use dpkt_ng.Quic.Parse.{advance, attempt, read_round, more_bytes, join, parse_frames}
use dpkt_ng.Quic.Parse.Total.{read_round-Advances}

get_elem?-append : (n : ℕ) (xs ys : List ℕ) → get_elem? (xs ++ ys) (length xs + n) ≡ get_elem? ys n
get_elem?-append n [] ys = ap (get_elem? ys) (omega arith)
get_elem?-append n (x ∷ xs) ys =
    ap (get_elem? (x ∷ xs ++ ys)) (suc_sum (length xs)) ∙ get_elem?-append n xs ys
  where
    suc_sum : (l : ℕ) → suc l + n ≡ suc (l + n)
    suc_sum l = omega arith

advance-append :
    (xs ys : List ℕ) (off : ℕ) (f : QuicFrame) (size : Outcome ℕ)
    → advance (xs ++ ys) (length xs + off) f size
      ≡ (advance ys off f size >>= λ p. returns (p.0, length xs + p.1))
unfolding advance
advance-append xs ys off f (returns n) = ap (λ k. returns (f ∷ [], k)) (omega arith)
advance-append xs ys off f (raises e) = ap (λ k. returns (f ∷ [], k)) (length-append xs ys)

attempt-append :
    (xs ys : List ℕ) (off : ℕ) (u : Outcome QuicFrame)
    → attempt (xs ++ ys) (length xs + off) u
      ≡ (attempt ys off u >>= λ p. returns (p.0, length xs + p.1))
unfolding attempt
attempt-append xs ys off (returns f) = advance-append xs ys off f (frame_byte_size f)
attempt-append xs ys off (raises e) = ap (λ k. returns ([], k)) (length-append xs ys)

either-append :
    (xs : List ℕ) (off : ℕ) (padding : Bool) (x y : Outcome (List QuicFrame × ℕ))
    → x ≡ (y >>= λ p. returns (p.0, length xs + p.1))
    → (if padding then returns ([], length xs + off + 1) else x)
      ≡ ((if padding then returns ([], off + 1) else y) >>= λ p. returns (p.0, length xs + p.1))
either-append xs off true x y h = ap (λ k. returns ([], k)) (omega arith)
either-append xs off false x y h = h

byte_at-append : (n : ℕ) (xs ys : List ℕ) → byte_at (xs ++ ys) (length xs + n) ≡ byte_at ys n
unfolding byte_at
byte_at-append n xs ys =
    ap (λ o. elim o [ none ↦ raises index_error | some b ↦ returns b ]) (get_elem?-append n xs ys)

-- A round once its first byte is read
abbrev round_from : List ℕ → ℕ → Outcome ℕ → Outcome (List QuicFrame × ℕ)
round_from buf off r = r >>= λ t.
    if t == 0 then returns ([], off + 1) else attempt buf off (unpack_frame t (drop off buf))

round_from-append :
    (xs ys : List ℕ) (off : ℕ) (r : Outcome ℕ)
    → round_from (xs ++ ys) (length xs + off) r
      ≡ (round_from ys off r >>= λ p. returns (p.0, length xs + p.1))
round_from-append xs ys off (returns t) = either-append xs off (t == 0) _ _ (
    ap (λ d. attempt (xs ++ ys) (length xs + off) (unpack_frame t d)) (drop-append_length off xs ys)
    ∙ attempt-append xs ys off (unpack_frame t (drop off ys)))
round_from-append xs ys off (raises e) = refl

read_round-append :
    (xs ys : List ℕ) (off : ℕ)
    → read_round (xs ++ ys) (length xs + off)
      ≡ (read_round ys off >>= λ p. returns (p.0, length xs + p.1))
unfolding read_round
read_round-append xs ys off =
    ap (round_from (xs ++ ys) (length xs + off)) (byte_at-append off xs ys)
    ∙ round_from-append xs ys off (byte_at ys off)

more_bytes-append :
    (xs ys : List ℕ) (off : ℕ) → more_bytes (xs ++ ys) (length xs + off) ≡ more_bytes ys off
unfolding more_bytes
more_bytes-append xs ys off = ground (arith, length-append xs ys)

loop_behind :
    (xs ys : List ℕ) (f : ℕ)
    → length ys ≤ f
    → read_loop (more_bytes (xs ++ ys)) (read_round (xs ++ ys)) f (length xs)
      ≡ read_loop (more_bytes ys) (read_round ys) (length ys) 0
loop_behind xs ys f h =
    ap (read_loop (more_bytes (xs ++ ys)) (read_round (xs ++ ys)) f) (omega arith)
    ∙ read_loop_shift _ _ _ _ (length xs) (more_bytes-append xs ys) (read_round-append xs ys) f 0
    ∙ read_loop_fuel _ _ (length ys) (read_round-Advances ys) f (length ys) 0 (omega arith)
        (omega arith)

join_behind :
    (fs : List QuicFrame) (l : Outcome (List (List QuicFrame)))
    → ((l >>= λ rest. returns (fs ∷ rest)) >>= λ rounds. returns (join rounds))
      ≡ ((l >>= λ rounds. returns (join rounds)) >>= λ rest. returns (fs ++ rest))
unfolding join
join_behind fs (returns l) = refl
join_behind fs (raises e) = refl

-- After a first round that ends behind xs, the frames are those of the round and of the rest.
pub parse_frames-append :
    (xs ys : List ℕ) (fs : List QuicFrame)
    → 0 < length xs
    → read_round (xs ++ ys) 0 ≡ returns (fs, length xs)
    → parse_frames (xs ++ ys) ≡ (parse_frames ys >>= λ rest. returns (fs ++ rest))
unfolding parse_frames more_bytes
parse_frames-append [] ys fs h r = absurd (omega arith)
parse_frames-append (x ∷ xs) ys fs h r =
    ap (λ l. l >>= λ rounds. returns (join rounds))
      (read_loop_next _ _ (length (xs ++ ys)) 0 (ground arith) r
        ∙ ap (λ l. l >>= λ rest. returns (fs ∷ rest))
            (loop_behind (x ∷ xs) ys (length (xs ++ ys)) (omega (arith, length-append xs ys))))
    ∙ join_behind fs _
