-- ===== src/Packet/Checksum/Verify.antt =====
-- A packet whose checksum field holds in_cksum of dpkt/dpkt.py verifies.
use dpkt_ng.Base.{
  ℕ, zero, suc, ◌+◌, ◌*◌, ◌/◌, ◌%◌, ◌^◌, ◌<◌, List, [], ◌∷◌, ◌++◌, length, All, All-append, ◌≡◌, ap,
  ◌∙◌, arith,
}
use dpkt_ng.Packet.Checksum.{ntole, in_cksum_add, in_cksum_done, in_cksum}
use dpkt_ng.Packet.Checksum.Rfc.{le_sum, in_cksum_add-le_sum, le_sum_bound}

-- An even number of bytes in front is summed on its own.
pub le_sum-append :
    (n : ℕ) (xs ys : List ℕ) → length xs ≡ 2 * n → le_sum (xs ++ ys) ≡ le_sum xs + le_sum ys
unfolding le_sum
le_sum-append n [] ys h = omega arith
le_sum-append n (a ∷ []) ys h = absurd (omega arith)
le_sum-append zero (a ∷ b ∷ xs) ys h = absurd (omega arith)
le_sum-append (suc n) (a ∷ b ∷ xs) ys h = omega (arith, le_sum-append n xs ys (omega arith))

-- The checksum may be added up piece by piece at even places, as the pseudo header of TCP and UDP is.
pub in_cksum_add-append :
    (n s : ℕ) (xs ys : List ℕ)
    → length xs ≡ 2 * n
    → in_cksum_add s (xs ++ ys) ≡ in_cksum_add (in_cksum_add s xs) ys
in_cksum_add-append n s xs ys h = omega (
  arith,
  in_cksum_add-le_sum s (xs ++ ys),
  in_cksum_add-le_sum (in_cksum_add s xs) ys,
  in_cksum_add-le_sum s xs,
  le_sum-append n xs ys h,
)

-- With the complement in place the folded sum has all bits set.
complement_verifies :
    (s : ℕ)
    → s < 2 ^ 32
    → in_cksum_done (s + (in_cksum_done s / 256 + in_cksum_done s % 256 * 256)) ≡ 0
unfolding in_cksum_done ntole
complement_verifies s h = omega arith

field_sum :
    (n a b : ℕ) (before after : List ℕ)
    → length before ≡ 2 * n
    → le_sum (before ++ (a ∷ b ∷ after)) ≡ le_sum (before ++ (0 ∷ 0 ∷ after)) + (a + b * 256)
unfolding le_sum
field_sum n a b before after h =
    omega
      (arith, le_sum-append n before (a ∷ b ∷ after) h, le_sum-append n before (0 ∷ 0 ∷ after) h)

in_cksum-le_sum : (buf : List ℕ) → in_cksum buf ≡ in_cksum_done (le_sum buf)
unfolding in_cksum
in_cksum-le_sum buf = ap in_cksum_done (in_cksum_add-le_sum 0 buf ∙ omega arith)

-- Take in_cksum of bytes, fewer than 2 ** 17, with zeros in a two-byte field at an even place, and put
-- it into the field, high byte first: then in_cksum of the whole is 0.
pub in_cksum_verifies :
    (n : ℕ) (before after : List ℕ)
    → length before ≡ 2 * n
    → All (λ b. b < 256) before
    → All (λ b. b < 256) after
    → length (before ++ (0 ∷ 0 ∷ after)) < 2 ^ 17
    → in_cksum (
        before
        ++ (in_cksum (before ++ (0 ∷ 0 ∷ after)) / 256
            ∷ in_cksum (before ++ (0 ∷ 0 ∷ after)) % 256
            ∷ after))
      ≡ 0
in_cksum_verifies n before after even hb ha small =
    let zeroed = before ++ (0 ∷ 0 ∷ after) in
    let bytes : All (λ b. b < 256) (before ++ (0 ∷ 0 ∷ after)) =
      All-append (λ b. b < 256) before (0 ∷ 0 ∷ after) hb (omega arith, (omega arith, ha)) in
    let c = in_cksum zeroed in
    in_cksum-le_sum (before ++ (c / 256 ∷ c % 256 ∷ after))
    ∙ ap in_cksum_done (field_sum n (c / 256) (c % 256) before after even)
    ∙ ap (λ c. in_cksum_done (le_sum zeroed + (c / 256 + c % 256 * 256))) (in_cksum-le_sum zeroed)
    ∙ complement_verifies (le_sum zeroed) (omega (arith, le_sum_bound zeroed bytes))
