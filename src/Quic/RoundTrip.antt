-- ===== src/Quic/RoundTrip.antt =====
-- The variable-length integers that encode_varint of dpkt/quic.py writes are read by decode_varint.
use Prim.Native.Nat.{bit_or, bit_or-bitwise, zero, suc, ◌-◌}
use dpkt_ng.Base.{
  ℕ, ◌+◌, ◌*◌, ◌/◌, ◌%◌, ◌^◌, ◌≤◌, ◌<◌, List, [], ◌∷◌, ◌++◌, length, get_or, length-append, ◌≡◌,
  refl, sym, ap, ◌∙◌, subst, arith,
}
use native.Mathlib.Decide.{dec_lt}
use dpkt_ng.Base.Bits.{or_high, and_mask}
use dpkt_ng.Base.Bytes.{
  be_value, be_bytes, length-be_bytes, be_value-be_bytes, slice-append, slice-front,
}
use dpkt_ng.Base.Results.{returns}
use dpkt_ng.Quic.Varint.{decode_word, decode_tagged, decode_varint, pack, encode_varint}

-- What comes before the offset does not matter.
get_or-append :
    (n : ℕ) (xs ys : List ℕ) (d : ℕ) → get_or (xs ++ ys) (length xs + n) d ≡ get_or ys n d
get_or-append n [] ys d = ap (λ k. get_or ys k d) (omega arith)
get_or-append n (x ∷ xs) ys d =
    ap (λ k. get_or (x ∷ xs ++ ys) k d) (suc_sum (length xs)) ∙ get_or-append n xs ys d
  where
    suc_sum : (l : ℕ) → suc l + n ≡ suc (l + n)
    suc_sum l = omega arith

decode_word-append :
    (size mask n : ℕ) (xs ys : List ℕ)
    → decode_word size mask (xs ++ ys) (length xs + n) ≡ decode_word size mask ys n
unfolding decode_word
decode_word-append size mask n xs ys =
    ground (arith, length-append xs ys, slice-append n (n + size) xs ys)

decode_tagged-append :
    (b n : ℕ) (xs ys : List ℕ) → decode_tagged b (xs ++ ys) (length xs + n) ≡ decode_tagged b ys n
unfolding decode_tagged
decode_tagged-append b n xs ys = rw (
  decode_word-append 2 0x3fff n xs ys,
  decode_word-append 4 0x3fffffff n xs ys,
  decode_word-append 8 0x3fffffffffffffff n xs ys,
)

pub decode_varint-append :
    (n : ℕ) (xs ys : List ℕ) → decode_varint (xs ++ ys) (length xs + n) ≡ decode_varint ys n
unfolding decode_varint
decode_varint-append n xs ys = ground (
  arith,
  length-append xs ys,
  get_or-append n xs ys 0,
  decode_tagged-append (get_or ys n 0) n xs ys,
)

-- A word of n bytes in front
decode_word-be_bytes :
    (n k w : ℕ) (rest : List ℕ)
    → w < 256 ^ n
    → decode_word n (2 ^ k - 1) (be_bytes n w ++ rest) 0 ≡ returns (w % 2 ^ k, n)
unfolding decode_word
decode_word-be_bytes n k w rest h = ground (
  arith,
  length-append (be_bytes n w) rest,
  length-be_bytes n w,
  slice-front n (be_bytes n w) rest (length-be_bytes n w),
  be_value-be_bytes n w h,
  and_mask k (be_value (be_bytes n w)),
)

-- Each branch of the decoder on a word whose two high bits are its tag
decode-tag_1 :
    (w : ℕ) (rest : List ℕ)
    → w / 2 ^ 14 ≡ 1
    → decode_varint (be_bytes 2 w ++ rest) 0 ≡ returns (w % 2 ^ 14, 2)
unfolding decode_varint decode_tagged be_bytes
decode-tag_1 w rest h = ground (arith, decode_word-be_bytes 2 14 w rest (omega arith))

decode-tag_2 :
    (w : ℕ) (rest : List ℕ)
    → w / 2 ^ 30 ≡ 2
    → decode_varint (be_bytes 4 w ++ rest) 0 ≡ returns (w % 2 ^ 30, 4)
unfolding decode_varint decode_tagged be_bytes
decode-tag_2 w rest h = ground (arith, decode_word-be_bytes 4 30 w rest (omega arith))

decode-tag_3 :
    (w : ℕ) (rest : List ℕ)
    → w / 2 ^ 62 ≡ 3
    → decode_varint (be_bytes 8 w ++ rest) 0 ≡ returns (w % 2 ^ 62, 8)
unfolding decode_varint decode_tagged be_bytes
decode-tag_3 w rest h = ground (arith, decode_word-be_bytes 8 62 w rest (omega arith))

-- What the encoder writes, without its bit operations
set_tag : (k v t : ℕ) → v < 2 ^ k → bit_or v (t * 2 ^ k) ≡ v + t * 2 ^ k
set_tag k v t h = ap (λ x. bit_or x (t * 2 ^ k)) (omega arith) ∙ or_high k v 0 t h ∙ or_zero
  where
    or_zero : v + bit_or 0 t * 2 ^ k ≡ v + t * 2 ^ k
    or_zero = ap (λ x. v + x * 2 ^ k) (bit_or-bitwise 0 t)

both_set : (a : ℕ) → a < 4 → bit_or a 3 ≡ 3
both_set zero h = refl
both_set (suc zero) h = refl
both_set (suc (suc zero)) h = refl
both_set (suc (suc (suc zero))) h = refl
both_set (suc (suc (suc (suc a)))) h = absurd (omega arith)

tag_3 : (v : ℕ) → v < 2 ^ 64 → bit_or v 0xc000000000000000 ≡ v % 2 ^ 62 + 3 * 2 ^ 62
tag_3 v h =
    ap (λ x. bit_or x 0xc000000000000000) (the_digits)
    ∙ or_high 62 (v % 2 ^ 62) (v / 2 ^ 62) 3 (omega arith)
    ∙ ap (λ x. v % 2 ^ 62 + x * 2 ^ 62) (both_set (v / 2 ^ 62) (omega arith))
  where
    the_digits : v ≡ v % 2 ^ 62 + v / 2 ^ 62 * 2 ^ 62
    the_digits = omega arith

encode-one : (v : ℕ) → v ≤ 63 → encode_varint v ≡ returns (v ∷ [])
unfolding encode_varint
encode-one v h = ground arith

encode-two : (v : ℕ) → 63 < v → v ≤ 16383 → encode_varint v ≡ returns (be_bytes 2 (v + 2 ^ 14))
unfolding encode_varint pack
encode-two v l h = ground (arith, set_tag 14 v 1 (omega arith))

encode-four :
    (v : ℕ) → 16383 < v → v ≤ 1073741823 → encode_varint v ≡ returns (be_bytes 4 (v + 2 * 2 ^ 30))
unfolding encode_varint pack
encode-four v l h = ground (arith, set_tag 30 v 2 (omega arith))

encode-eight :
    (v : ℕ)
    → 1073741823 < v
    → v < 2 ^ 64
    → encode_varint v ≡ returns (be_bytes 8 (v % 2 ^ 62 + 3 * 2 ^ 62))
unfolding encode_varint pack
encode-eight v l h = ground (arith, tag_3 v h)

-- The bytes that were written and what is read from them
abbrev IsRead : ℕ → List ℕ → Type 0
IsRead v rest =
    (e : List ℕ) × (encode_varint v ≡ returns e)
    × (decode_varint (e ++ rest) 0 ≡ returns (v % 2 ^ 62, length e))

one-IsRead : (v : ℕ) (rest : List ℕ) → v ≤ 63 → IsRead v rest
unfolding decode_varint decode_tagged
one-IsRead v rest h = (v ∷ [], encode-one v h, ground (arith, and_mask 6 v))

two-IsRead : (v : ℕ) (rest : List ℕ) → 63 < v → v ≤ 16383 → IsRead v rest
two-IsRead v rest l h = (
  be_bytes 2 (v + 2 ^ 14),
  encode-two v l h,
  ground (arith, decode-tag_1 (v + 2 ^ 14) rest (omega arith), length-be_bytes 2 (v + 2 ^ 14)),
)

four-IsRead : (v : ℕ) (rest : List ℕ) → 16383 < v → v ≤ 1073741823 → IsRead v rest
four-IsRead v rest l h = (
  be_bytes 4 (v + 2 * 2 ^ 30),
  encode-four v l h,
  ground
      (arith, decode-tag_2 (v + 2 * 2 ^ 30) rest (omega arith), length-be_bytes 4 (v + 2 * 2 ^ 30)),
)

eight-IsRead : (v : ℕ) (rest : List ℕ) → 1073741823 < v → v < 2 ^ 64 → IsRead v rest
eight-IsRead v rest l h =
    let w = v % 2 ^ 62 + 3 * 2 ^ 62 in
    let lw = length-be_bytes 8 w in
    (be_bytes 8 w, encode-eight v l h, ground (arith, decode-tag_3 w rest (omega arith), lw))

any-IsRead : (v : ℕ) (rest : List ℕ) → v < 2 ^ 64 → IsRead v rest
any-IsRead v rest h = elim (dec_lt 63 v) [
  | no small ↦ one-IsRead v rest (omega arith)
  | yes l ↦ elim (dec_lt 16383 v) [
    | no s ↦ two-IsRead v rest l (omega arith)
    | yes l2 ↦ elim (dec_lt 1073741823 v) [
      | no s ↦ four-IsRead v rest l2 (omega arith)
      | yes l3 ↦ eight-IsRead v rest l3 h
    ]
  ]
]

-- What encode_varint writes for a value below 2 ** 64 is read at any offset, to its end and whatever
-- follows, as the value modulo 2 ** 62: itself where it is below 2 ** 62.
pub decode_varint-encode_varint :
    (v : ℕ) (before rest : List ℕ)
    → v < 2 ^ 64
    → (e : List ℕ) × (encode_varint v ≡ returns e)
      × (decode_varint (before ++ (e ++ rest)) (length before) ≡ returns (v % 2 ^ 62, length e))
decode_varint-encode_varint v before rest h =
    let (e, written, read) = any-IsRead v rest h in
    (
      e,
      written,
      ap (decode_varint (before ++ (e ++ rest))) (omega arith)
          ∙ decode_varint-append 0 before (e ++ rest)
          ∙ read,
    )

pub same_value : {A : Type 0} {a b : A} → returns a ≡ returns b → a ≡ b
same_value h = cc

pub decode-written :
    {v : ℕ} {e : List ℕ} (rest : List ℕ)
    → v < 2 ^ 62
    → encode_varint v ≡ returns e
    → decode_varint (e ++ rest) 0 ≡ returns (v, length e)
decode-written {v} rest h w =
    let (e', written, read) = any-IsRead v rest (omega arith) in
    let small : v % 2 ^ 62 ≡ v = omega arith in
    subst (λ b. decode_varint (b ++ rest) 0 ≡ returns (v, length b)) (same_value (sym written ∙ w))
      (subst (λ x. decode_varint (e' ++ rest) 0 ≡ returns (x, length e')) small read)

pub writable : (v : ℕ) → v < 2 ^ 62 → (e : List ℕ) × (encode_varint v ≡ returns e)
writable v h = let (e, written, read) = any-IsRead v [] (omega arith) in (e, written)
