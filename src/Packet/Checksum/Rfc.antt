-- ===== src/Packet/Checksum/Rfc.antt =====
-- in_cksum of dpkt/dpkt.py against the checksum as RFC 1071 describes it.
use dpkt_ng.Base.{
  ℕ, suc, ◌+◌, ◌-◌, ◌*◌, ◌/◌, ◌%◌, ◌^◌, ◌≤◌, ◌<◌, List, [], ◌∷◌, ◌==◌, length, take, get_or, All,
  Bool-cases, ==_iff, false, inl, inr, ◌≡◌, refl, ap, ◌∙◌, arith,
}
use dpkt_ng.Packet.Checksum.{ntole, sum_words, in_cksum_add, in_cksum_done, in_cksum}

-- All words, with an odd last byte as a word of its own
unfoldable pub le_sum : List ℕ → ℕ
le_sum [] = 0
le_sum (a ∷ []) = a
le_sum (a ∷ b ∷ rest) = a + b * 256 + le_sum rest

two_more :
    (a b : ℕ) (rest : List ℕ)
    → take (length (a ∷ b ∷ rest) / 2 * 2) (a ∷ b ∷ rest) ≡ a ∷ b ∷ take (length rest / 2 * 2) rest
two_more a b rest = ap (λ k. take k (a ∷ b ∷ rest)) (halves (length rest))
  where
    halves : (n : ℕ) → suc (suc n) / 2 * 2 ≡ suc (suc (n / 2 * 2))
    halves n = omega arith

last_byte :
    (a b : ℕ) (rest : List ℕ)
    → 0 < length rest
    → get_or (a ∷ b ∷ rest) (length (a ∷ b ∷ rest) - 1) 0 ≡ get_or rest (length rest - 1) 0
last_byte a b rest h = ap (λ k. get_or (a ∷ b ∷ rest) k 0) (index (length rest) h)
  where
    index : (n : ℕ) → 0 < n → suc (suc n) - 1 ≡ suc (suc (n - 1))
    index n h = omega arith

odd_next : (n : ℕ) → (n / 2 * 2 == n) ≡ false → (suc (suc n) / 2 * 2 == suc (suc n)) ≡ false
odd_next n h = ground arith

odd_pos : (n : ℕ) → (n / 2 * 2 == n) ≡ false → 0 < n
odd_pos n h = ground arith

add_even :
    (s : ℕ) (buf : List ℕ)
    → length buf / 2 * 2 ≡ length buf
    → in_cksum_add s buf ≡ s + sum_words (take (length buf / 2 * 2) buf)
unfolding in_cksum_add
add_even s buf h = rw ((==_iff _ _).1 h)

add_odd :
    (s : ℕ) (buf : List ℕ)
    → (length buf / 2 * 2 == length buf) ≡ false
    → in_cksum_add s buf
      ≡ s + sum_words (take (length buf / 2 * 2) buf) + get_or buf (length buf - 1) 0
unfolding in_cksum_add
add_odd s buf h = rw h

pub in_cksum_add-le_sum : (s : ℕ) (buf : List ℕ) → in_cksum_add s buf ≡ s + le_sum buf
unfolding sum_words le_sum
in_cksum_add-le_sum s [] = add_even s [] refl
in_cksum_add-le_sum s (a ∷ []) = add_odd s (a ∷ []) refl ∙ omega arith
in_cksum_add-le_sum s (a ∷ b ∷ rest) =
    let shorter = in_cksum_add-le_sum s rest in
    let words : sum_words (take (length (a ∷ b ∷ rest) / 2 * 2) (a ∷ b ∷ rest))
        ≡ a + b * 256 + sum_words (take (length rest / 2 * 2) rest) =
      ap sum_words (two_more a b rest) in
    elim (Bool-cases (length rest / 2 * 2 == length rest)) [
      | inl even ↦
          let n = (==_iff (length rest / 2 * 2) (length rest)).0 even in
          omega (arith, add_even s (a ∷ b ∷ rest) (omega arith), add_even s rest n, words, shorter)
      | inr odd ↦ omega (
        arith,
        add_odd s (a ∷ b ∷ rest) (odd_next (length rest) odd),
        add_odd s rest odd,
        words,
        shorter,
        last_byte a b rest (odd_pos (length rest) odd),
      )
    ]

-- One's complement addition of 16-bit words: the carry is added at the low end.
unfoldable pub add_carry : ℕ → ℕ → ℕ
add_carry a b = (a + b) % 65536 + (a + b) / 65536

-- The sum of the big-endian words; an odd last byte is the high byte of a word.
unfoldable pub ones_sum : List ℕ → ℕ
ones_sum [] = 0
ones_sum (a ∷ []) = a * 256
ones_sum (a ∷ b ∷ rest) = add_carry (a * 256 + b) (ones_sum rest)

-- Both sums are the plain sum of the words modulo 65535, and zero only for it.
be_sum : List ℕ → ℕ
be_sum [] = 0
be_sum (a ∷ []) = a * 256
be_sum (a ∷ b ∷ rest) = a * 256 + b + be_sum rest

add_carry_lem : (a b : ℕ) → (q : ℕ) × (a + b ≡ add_carry a b + 65535 * q)
unfolding add_carry
add_carry_lem a b = ((a + b) / 65536, omega arith)

no_carry : (a b : ℕ) → (a + b) % 65536 + (a + b) / 65536 ≡ 0 → a + b ≡ 0
no_carry a b h = omega arith

ones_sum_lem :
    (buf : List ℕ)
    → All (λ b. b < 256) buf
    → (q : ℕ) × (be_sum buf ≡ ones_sum buf + 65535 * q)
      × (ones_sum buf < 65536)
      × (ones_sum buf ≡ 0 → be_sum buf ≡ 0)
unfolding ones_sum be_sum add_carry
ones_sum_lem [] h = (0, omega arith, omega arith, λ e. omega arith)
ones_sum_lem (a ∷ []) (h, t) = (0, omega arith, omega arith, λ e. omega arith)
ones_sum_lem (a ∷ b ∷ rest) (ha, (hb, h)) =
    let (q, eq, lt, z) = ones_sum_lem rest h in
    let w = a * 256 + b in
    (
      q + (a * 256 + b + ones_sum rest) / 65536,
      omega arith,
      omega arith,
      λ e. ground (arith, no_carry (a * 256 + b) (ones_sum rest)),
    )

swapped_sum : (buf : List ℕ) → (k : ℕ) × (256 * le_sum buf ≡ be_sum buf + 65535 * k)
unfolding le_sum be_sum
swapped_sum [] = (0, omega arith)
swapped_sum (a ∷ []) = (0, omega arith)
swapped_sum (a ∷ b ∷ rest) = let (k, e) = swapped_sum rest in (k + b, omega arith)

be_zero : (buf : List ℕ) → be_sum buf ≡ 0 → le_sum buf ≡ 0
unfolding le_sum be_sum
be_zero [] h = refl
be_zero (a ∷ []) h = omega arith
be_zero (a ∷ b ∷ rest) h = omega (arith, be_zero rest (omega arith))

pub le_sum_bound :
    (buf : List ℕ) → All (λ b. b < 256) buf → 2 * le_sum buf ≤ 65535 * (length buf + 1)
unfolding le_sum
le_sum_bound [] h = omega arith
le_sum_bound (a ∷ []) (h, t) = omega arith
le_sum_bound (a ∷ b ∷ rest) (ha, (hb, h)) = omega (arith, le_sum_bound rest h)

-- The two folds of in_cksum_done bring a sum below 2 ** 32 to 16 bits.
folded : ℕ → ℕ
folded s = (s / 65536 + s % 65536 + (s / 65536 + s % 65536) / 65536) % 65536

folded_lem :
    (s : ℕ)
    → s < 2 ^ 32
    → (q : ℕ) × (s ≡ folded s + 65535 * q) × (folded s < 65536) × (folded s ≡ 0 → s ≡ 0)
unfolding folded
folded_lem s h =
    (s / 65536 + (s / 65536 + s % 65536) / 65536, omega arith, omega arith, λ e. omega arith)

ntole_lem : (v : ℕ) → v < 65536 → 256 * v ≡ ntole v + 65535 * (v / 256)
unfolding ntole
ntole_lem v h = omega arith

ntole_inverse : (v : ℕ) → v < 65536 → ntole (65535 - v) ≡ 65535 - ntole v
unfolding ntole
ntole_inverse v h = omega arith

-- Congruent sums that are zero together are the same 16-bit number.
same_residue :
    (x y q r : ℕ)
    → x + 65535 * q ≡ y + 65535 * r
    → x < 65536
    → y < 65536
    → (x ≡ 0 → y ≡ 0)
    → (y ≡ 0 → x ≡ 0)
    → x ≡ y
same_residue x y q r h hx hy l r' = ground (arith)

ntole_lt : (v : ℕ) → v < 65536 → ntole v < 65536
unfolding ntole
ntole_lt v h = omega arith

ntole_zero : (v : ℕ) → ntole v ≡ 0 → v ≡ 0
unfolding ntole
ntole_zero v h = omega arith

zero_ntole : (v : ℕ) → v ≡ 0 → ntole v ≡ 0
unfolding ntole
zero_ntole v h = omega arith

-- The little-endian sum with its bytes swapped is the big-endian sum.
swapped_fold :
    (buf : List ℕ)
    → All (λ b. b < 256) buf
    → length buf < 2 ^ 17
    → ntole (folded (le_sum buf)) ≡ ones_sum buf
swapped_fold buf h l =
    let small : le_sum buf < 2 ^ 32 = omega (arith, le_sum_bound buf h) in
    let (q, e, lt, z) = folded_lem (le_sum buf) small in
    let (q', e', lt', z') = ones_sum_lem buf h in
    let (k, sw) = swapped_sum buf in
    let n = ntole_lem (folded (le_sum buf)) lt in
    same_residue (ntole (folded (le_sum buf))) (ones_sum buf) (folded (le_sum buf) / 256 + 256 * q)
      (q' + k) (omega arith) (ntole_lt _ lt) lt'
      (λ zero_le. omega (arith, z (ntole_zero _ zero_le), sw, e'))
      (λ zero_be. zero_ntole _ (omega (arith, be_zero buf (z' zero_be), e)))

done_lem : (s : ℕ) → s < 2 ^ 32 → in_cksum_done s ≡ 65535 - ntole (folded s)
unfolding in_cksum_done folded
done_lem s h = ntole_inverse _ (omega arith)

-- For bytes, fewer than 2 ** 17, in_cksum is the complement of the one's complement sum of the
-- big-endian words, an odd last byte padded with zero, as RFC 1071 describes it.
pub in_cksum-ones_sum :
    (buf : List ℕ)
    → All (λ b. b < 256) buf
    → length buf < 2 ^ 17
    → in_cksum buf ≡ 65535 - ones_sum buf
unfolding in_cksum
in_cksum-ones_sum buf h l =
    ap in_cksum_done (in_cksum_add-le_sum 0 buf ∙ omega arith)
    ∙ done_lem (le_sum buf) (omega (arith, le_sum_bound buf h))
    ∙ ap (λ x. 65535 - x) (swapped_fold buf h l)
