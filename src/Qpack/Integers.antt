-- ===== src/Qpack/Integers.antt =====
-- _decode_int of dpkt/qpack.py reads integers as RFC 7541 lays them out, in groups of seven bits.
use Prim.Native.Nat.{bit_and}
use dpkt_ng.Base.{
  ℕ, zero, suc, ◌+◌, ◌-◌, ◌*◌, ◌/◌, ◌%◌, ◌^◌, ◌<◌, Bool, true, false, ◌&&◌, List, [], ◌∷◌, ◌++◌,
  ltb, ◌==◌, if◌then◌else◌, length, map, All, ◌≡◌, refl, ap, ap₂, ◌∙◌, arith,
}
use dpkt_ng.Base.Bits.{and_mask}
use dpkt_ng.Base.Results.{returns}
use dpkt_ng.Quic.Frames.{byte_at}
use dpkt_ng.Qpack.Instructions.{continuation, decode_int}

-- A test of the high bit, over all bytes
agrees : ℕ → Bool
agrees zero = true
agrees (suc n) = (bit_and n 0x80 == n / 128 * 128) && agrees n

agrees_at : (n b : ℕ) → agrees n ≡ true → b < n → bit_and b 0x80 ≡ b / 128 * 128
unfolding agrees
agrees_at zero b h l = absurd (omega arith)
agrees_at (suc n) b h l = ground (arith, agrees_at n b)

all_agree : agrees 256 ≡ true
unfolding agrees
all_agree = refl

high_bit : (b : ℕ) → b < 256 → bit_and b 0x80 ≡ b / 128 * 128
high_bit b h = agrees_at 256 b all_agree h

-- The value of the groups, the lowest first
unfoldable pub groups_value : List ℕ → ℕ → ℕ
groups_value [] last = last
groups_value (g ∷ groups) last = g + 128 * groups_value groups last

pow_seven : (m : ℕ) → 2 ^ (m + 7) ≡ 2 ^ m * 128
pow_seven zero = refl
pow_seven (suc m) = ap (λ k. 2 ^ k) (moved m) ∙ omega (arith, double (m + 7), double m, pow_seven m)
  where
    moved : (m : ℕ) → suc m + 7 ≡ suc (m + 7)
    moved m = omega arith

    double : (k : ℕ) → 2 ^ suc k ≡ 2 ^ k * 2
    double k = omega arith

next_value : (v g w p : ℕ) → v + g * p + w * (p * 128) ≡ v + (g + 128 * w) * p
next_value v g w p = grind arith

continuation_groups :
    (groups : List ℕ) (last : ℕ) (rest : List ℕ) (value m off : ℕ)
    → All (λ g. g < 128) groups
    → last < 128
    → continuation (map (λ g. g + 128) groups ++ (last ∷ rest)) value m off
      ≡ (value + groups_value groups last * 2 ^ m, off + length groups + 1)
unfolding continuation groups_value
continuation_groups [] last rest value m off h l =
    ground (arith, and_mask 7 last, high_bit last (omega arith))
continuation_groups (g ∷ groups) last rest value m off (hg, h) l =
    let low : bit_and (g + 128) 0x7f ≡ g = omega (arith, and_mask 7 (g + 128)) in
    let high : bit_and (g + 128) 0x80 ≡ 128 = omega (arith, high_bit (g + 128) (omega arith)) in
    ap₂
      (λ x y.
        if x == 0
        then (value + y * 2 ^ m, off + 1)
        else continuation (map (λ g. g + 128) groups ++ (last ∷ rest)) (value + y * 2 ^ m) (m + 7)
            (off + 1))
      high low
    ∙ continuation_groups groups last rest (value + g * 2 ^ m) (m + 7) (off + 1) h l
    ∙ ap₂ (λ v n. (v, n))
        (ap (λ p. value + g * 2 ^ m + groups_value groups last * p) (pow_seven m)
          ∙ next_value value g (groups_value groups last) (2 ^ m))
        (omega arith)

-- A first byte whose low bits are all set, then groups of seven bits with the high bit set and one
-- without: the value is the prefix's largest plus the groups, lowest first, and all of the groups are
-- taken, whatever follows.
pub decode_int-groups_value :
    (first prefix_bits last : ℕ) (groups rest : List ℕ)
    → first % 2 ^ prefix_bits ≡ 2 ^ prefix_bits - 1
    → All (λ g. g < 128) groups
    → last < 128
    → decode_int (first ∷ (map (λ g. g + 128) groups ++ (last ∷ rest))) prefix_bits
      ≡ returns (2 ^ prefix_bits - 1 + groups_value groups last, 2 + length groups)
unfolding decode_int byte_at
decode_int-groups_value first p last groups rest full h l =
    let value = and_mask p first in
    let groups_read = continuation_groups groups last rest (2 ^ p - 1) 0 1 h l in
    ap
      (λ x.
        if ltb x (2 ^ p - 1)
        then returns (x, 1)
        else returns (continuation (map (λ g. g + 128) groups ++ (last ∷ rest)) (2 ^ p - 1) 0 1))
      (value ∙ full)
    ∙ ap
        (λ c.
          if c
          then returns (2 ^ p - 1, 1)
          else returns (continuation (map (λ g. g + 128) groups ++ (last ∷ rest)) (2 ^ p - 1) 0 1))
        (not_below (2 ^ p - 1))
    ∙ ap returns groups_read
    ∙ ap₂ (λ v n. returns (v, n)) (omega arith) (omega arith)
  where
    not_below : (n : ℕ) → ltb n n ≡ false
    not_below n = ground arith
