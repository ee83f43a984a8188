-- ===== src/Base/Xor.antt =====
-- Exclusive or as arithmetic on the digits.
use Prim.Native.Nat.{
  ℕ, zero, suc, ◌+◌, ◌*◌, ◌/◌, ◌%◌, ◌^◌, ◌≤◌, ◌<◌, bit_xor, differ, bit_xor-bitwise,
}
use mathlib.Core.Path.{◌≡◌, refl, sym, ap, ap₂, ◌∙◌}
use native.Mathlib.Omega.{arith}
use dpkt_ng.Base.Bits.{digits_fuel, pow_suc, half}

differ_digits : (a b : ℕ) → a < 2 → b < 2 → differ a b ≡ (a + b) % 2
differ_digits zero zero h l = refl
differ_digits zero (suc zero) h l = refl
differ_digits zero (suc (suc b)) h l = absurd (omega arith)
differ_digits (suc zero) zero h l = refl
differ_digits (suc zero) (suc zero) h l = refl
differ_digits (suc zero) (suc (suc b)) h l = absurd (omega arith)
differ_digits (suc (suc a)) b h l = absurd (omega arith)

pub zero_xor : (b : ℕ) → bit_xor 0 b ≡ b
zero_xor b = bit_xor-bitwise 0 b

pub xor_step : (a b : ℕ) → bit_xor a b ≡ bit_xor (a / 2) (b / 2) * 2 + (a + b) % 2
xor_step zero b = omega (arith, bit_xor-bitwise 0 b, bit_xor-bitwise 0 (b / 2))
xor_step (suc a) b = omega (
  arith,
  bit_xor-bitwise (suc a) b,
  bit_xor-bitwise (suc a / 2) (b / 2),
  differ_digits (suc a % 2) (b % 2) (omega arith) (omega arith),
  digits_fuel (λ b. b) differ a (suc a / 2) (suc a / 2) (b / 2) (omega arith) (omega arith),
)

pub xor_half : (a b : ℕ) → bit_xor a b / 2 ≡ bit_xor (a / 2) (b / 2)
xor_half a b = omega (arith, xor_step a b)

pub xor_digit : (a b : ℕ) → bit_xor a b % 2 ≡ (a + b) % 2
xor_digit a b = omega (arith, xor_step a b)

xor_comm_below : (n a b : ℕ) → a ≤ n → b ≤ n → bit_xor a b ≡ bit_xor b a
xor_comm_below zero a b h l = ap₂ bit_xor (omega arith) (omega arith)
xor_comm_below (suc n) a b h l = omega (
  arith,
  xor_step a b,
  xor_step b a,
  xor_comm_below n (a / 2) (b / 2) (omega arith) (omega arith),
)

pub xor_comm : (a b : ℕ) → bit_xor a b ≡ bit_xor b a
xor_comm a b = xor_comm_below (a + b) a b (omega arith) (omega arith)

pub xor_zero : (a : ℕ) → bit_xor a 0 ≡ a
xor_zero a = xor_comm a 0 ∙ zero_xor a

xor_assoc_below :
    (n a b c : ℕ) → a ≤ n → b ≤ n → c ≤ n → bit_xor (bit_xor a b) c ≡ bit_xor a (bit_xor b c)
xor_assoc_below zero a b c h l m =
    let nothing : a ≡ 0 = omega arith in
    ap (λ x. bit_xor (bit_xor x b) c) nothing
    ∙ ap (λ x. bit_xor x c) (zero_xor b)
    ∙ sym (zero_xor (bit_xor b c))
    ∙ sym (ap (λ x. bit_xor x (bit_xor b c)) nothing)
xor_assoc_below (suc n) a b c h l m =
    xor_step (bit_xor a b) c
    ∙ ap₂ (λ x y. bit_xor x (c / 2) * 2 + y) (xor_half a b)
        (omega (arith, xor_digit a b, xor_digit b c))
    ∙ ap (λ x. x * 2 + (a + bit_xor b c) % 2)
        (xor_assoc_below n (a / 2) (b / 2) (c / 2) (omega arith) (omega arith) (omega arith))
    ∙ ap (λ x. bit_xor (a / 2) x * 2 + (a + bit_xor b c) % 2) (sym (xor_half b c))
    ∙ sym (xor_step a (bit_xor b c))

pub xor_assoc : (a b c : ℕ) → bit_xor (bit_xor a b) c ≡ bit_xor a (bit_xor b c)
xor_assoc a b c = xor_assoc_below (a + b + c) a b c (omega arith) (omega arith) (omega arith)

pub xor_right_comm : (a b c : ℕ) → bit_xor (bit_xor a b) c ≡ bit_xor (bit_xor a c) b
xor_right_comm a b c = xor_assoc a b c ∙ ap (bit_xor a) (xor_comm b c) ∙ sym (xor_assoc a c b)

-- Numbers whose digits do not meet
pub xor_low : (k w c : ℕ) → w < 2 ^ k → bit_xor w (c * 2 ^ k) ≡ w + c * 2 ^ k
xor_low zero w c h =
    let nothing : w ≡ 0 = omega arith in
    ap (λ x. bit_xor x (c * 1)) nothing ∙ zero_xor (c * 1) ∙ omega arith
xor_low (suc k) w c h =
    ap (λ p. bit_xor w (c * p)) (pow_suc k)
    ∙ xor_step w (c * (2 ^ k * 2))
    ∙ ap₂ (λ y d. bit_xor (w / 2) y * 2 + d) (half c (2 ^ k)) (low_digit c (2 ^ k) w)
    ∙ ap (λ y. y * 2 + w % 2) (xor_low k (w / 2) c (omega (arith, pow_suc k)))
    ∙ shape c (2 ^ k) w
    ∙ ap (λ p. w + c * p) (sym (pow_suc k))
  where
    low_digit : (c p w : ℕ) → (w + c * (p * 2)) % 2 ≡ w % 2
    low_digit c p w = grind arith

    shape : (c p w : ℕ) → (w / 2 + c * p) * 2 + w % 2 ≡ w + c * (p * 2)
    shape c p w = grind arith
