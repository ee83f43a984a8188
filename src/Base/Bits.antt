-- ===== src/Base/Bits.antt =====
-- Masks as arithmetic: `x & (2 ** k - 1)` keeps k digits, `x | t << k` acts on the digits from k on.
use Prim.Native.Nat.{
  ℕ, zero, suc, ◌+◌, ◌-◌, ◌*◌, ◌/◌, ◌%◌, ◌^◌, ◌≤◌, ◌<◌, min, max, bit_and, bit_or, digits,
  bit_and-bitwise, bit_or-bitwise,
}
use mathlib.Core.Path.{◌≡◌, refl, sym, ap, ap₂, ◌∙◌}
use native.Mathlib.Omega.{arith}

-- More digits than the first number has make no difference.
pub digits_fuel :
    (z : ℕ → ℕ) (f : ℕ → ℕ → ℕ) (n m a b : ℕ) → a ≤ n → a ≤ m → digits z f n a b ≡ digits z f m a b
digits_fuel z f n m zero b p q = digits_zero n ∙ sym (digits_zero m)
  where
    digits_zero : (n : ℕ) → digits z f n 0 b ≡ z b
    digits_zero zero = refl
    digits_zero (suc n) = refl
digits_fuel z f zero m (suc a) b p q = absurd (omega arith)
digits_fuel z f (suc n) zero (suc a) b p q = absurd (omega arith)
digits_fuel z f (suc n) (suc m) (suc a) b p q =
    omega (arith, digits_fuel z f n m (suc a / 2) (b / 2) (omega arith) (omega arith))

pub or_step : (a b : ℕ) → bit_or a b ≡ bit_or (a / 2) (b / 2) * 2 + max (a % 2) (b % 2)
or_step zero b = omega (arith, bit_or-bitwise 0 b, bit_or-bitwise 0 (b / 2))
or_step (suc a) b = omega (
  arith,
  bit_or-bitwise (suc a) b,
  bit_or-bitwise (suc a / 2) (b / 2),
  digits_fuel (λ b. b) max a (suc a / 2) (suc a / 2) (b / 2) (omega arith) (omega arith),
)

and_step : (a b : ℕ) → bit_and a b ≡ bit_and (a / 2) (b / 2) * 2 + min (a % 2) (b % 2)
and_step zero b = omega (arith, bit_and-bitwise 0 b, bit_and-bitwise 0 (b / 2))
and_step (suc a) b = omega (
  arith,
  bit_and-bitwise (suc a) b,
  bit_and-bitwise (suc a / 2) (b / 2),
  digits_fuel (λ b. zero) min a (suc a / 2) (suc a / 2) (b / 2) (omega arith) (omega arith),
)

pub pow_suc : (k : ℕ) → 2 ^ suc k ≡ 2 ^ k * 2
pow_suc k = omega arith

half_sum : (v a p : ℕ) → (v + a * (p * 2)) / 2 ≡ v / 2 + a * p
half_sum v a p = grind arith

digit_sum : (v a p : ℕ) → (v + a * (p * 2)) % 2 ≡ v % 2
digit_sum v a p = grind arith

pub half : (t p : ℕ) → t * (p * 2) / 2 ≡ t * p
half t p = grind arith

digit : (t p : ℕ) → t * (p * 2) % 2 ≡ 0
digit t p = grind arith

or_halves :
    (v a t p : ℕ)
    → bit_or (v + a * (p * 2)) (t * (p * 2)) ≡ bit_or (v / 2 + a * p) (t * p) * 2 + v % 2
or_halves v a t p =
    or_step (v + a * (p * 2)) (t * (p * 2))
    ∙ ap₂ (λ x y. x * 2 + y) (ap₂ bit_or (half_sum v a p) (half t p))
        (omega (arith, digit_sum v a p, digit t p))

high_sum : (v x p : ℕ) {y : ℕ} → y ≡ v / 2 + x * p → y * 2 + v % 2 ≡ v + x * (p * 2)
high_sum v x p h = grind arith

-- The digits below k stay, since t * 2 ^ k has none there.
pub or_high :
    (k v a t : ℕ) → v < 2 ^ k → bit_or (v + a * 2 ^ k) (t * 2 ^ k) ≡ v + bit_or a t * 2 ^ k
or_high zero zero a t h = grind arith
or_high zero (suc v) a t h = absurd (omega arith)
or_high (suc k) v a t h =
    ap₂ (λ x y. bit_or (v + a * x) (t * y)) (pow_suc k) (pow_suc k)
    ∙ or_halves v a t (2 ^ k)
    ∙ high_sum v (bit_or a t) (2 ^ k) (or_high k (v / 2) a t (omega (arith, pow_suc k)))
    ∙ ap (λ q. v + bit_or a t * q) (sym (pow_suc k))

and_halves : (x m : ℕ) → bit_and x (m * 2 + 1) ≡ bit_and (x / 2) m * 2 + x % 2
and_halves x m =
    and_step x (m * 2 + 1)
    ∙ ap₂ (λ y z. y * 2 + z) (ap (bit_and (x / 2)) (omega arith)) (omega arith)

mod_halves : (x p : ℕ) → 0 < p → x % (p * 2) ≡ (x / 2) % p * 2 + x % 2
mod_halves x p h = grind arith

pub pow_pos : (k : ℕ) → 0 < 2 ^ k
pow_pos zero = omega arith
pow_pos (suc k) = omega (arith, pow_suc k, pow_pos k)

and_zero : (n x : ℕ) → x ≤ n → bit_and x 0 ≡ 0
and_zero n zero h = bit_and-bitwise 0 0
and_zero zero (suc x) h = absurd (omega arith)
and_zero (suc n) (suc x) h = omega (arith, and_step (suc x) 0, and_zero n (suc x / 2) (omega arith))

mask_suc : (k : ℕ) → 2 ^ suc k - 1 ≡ (2 ^ k - 1) * 2 + 1
mask_suc k = omega (arith, pow_suc k, pow_pos k)

-- Below the digits of the mask the number keeps its digits.
pub and_mask : (k x : ℕ) → bit_and x (2 ^ k - 1) ≡ x % 2 ^ k
and_mask zero x = omega (arith, and_zero x x (omega arith))
and_mask (suc k) x =
    ap (bit_and x) (mask_suc k)
    ∙ and_halves x (2 ^ k - 1)
    ∙ omega (arith, and_mask k (x / 2))
    ∙ sym (mod_halves x (2 ^ k) (pow_pos k))
    ∙ ap (λ y. x % y) (sym (pow_suc k))

pow_half : (m p : ℕ) → m * (p * 2) / 2 ≡ m * p
pow_half m p = grind arith

pub div_halves : (x p : ℕ) → 0 < p → x / (p * 2) ≡ x / 2 / p
div_halves x p h = grind arith

-- A mask whose digits begin at k
pub and_high : (k x m : ℕ) → bit_and x (m * 2 ^ k) ≡ bit_and (x / 2 ^ k) m * 2 ^ k
and_high zero x m = and_unshifted (m * 1) m (x / 1) (omega arith) (omega arith)
  where
    and_unshifted : (m' m y : ℕ) → m' ≡ m → y ≡ x → bit_and x m' ≡ bit_and y m * 1
    and_unshifted m' m y p q = ap₂ bit_and (sym q) p ∙ omega arith
and_high (suc k) x m =
    ap (λ p. bit_and x (m * p)) (pow_suc k)
    ∙ and_step x (m * (2 ^ k * 2))
    ∙ ap₂ (λ y d. bit_and (x / 2) y * 2 + min (x % 2) d) (half m (2 ^ k)) (digit m (2 ^ k))
    ∙ ap (λ y. y * 2 + min (x % 2) 0) (and_high k (x / 2) m)
    ∙ ap (λ y. bit_and y m * 2 ^ k * 2 + min (x % 2) 0) (sym (div_halves x (2 ^ k) (pow_pos k)))
    ∙ shape (bit_and (x / (2 ^ k * 2)) m) (2 ^ k) (x % 2)
    ∙ ap (λ p. bit_and (x / p) m * p) (sym (pow_suc k))
  where
    shape : (y p d : ℕ) → y * p * 2 + min d 0 ≡ y * (p * 2)
    shape y p d = grind arith

pub or_zero : (n x : ℕ) → x ≤ n → bit_or x 0 ≡ x
or_zero n zero h = bit_or-bitwise 0 0
or_zero zero (suc x) h = absurd (omega arith)
or_zero (suc n) (suc x) h = omega (arith, or_step (suc x) 0, or_zero n (suc x / 2) (omega arith))

-- Numbers whose digits do not meet
pub or_low : (k c w : ℕ) → w < 2 ^ k → bit_or (c * 2 ^ k) w ≡ c * 2 ^ k + w
or_low zero c w h = or_nothing w (omega arith)
  where
    or_nothing : (w : ℕ) → w ≡ 0 → bit_or (c * 1) w ≡ c * 1 + w
    or_nothing w e = ap (bit_or (c * 1)) e ∙ omega (arith, or_zero (c * 1) (c * 1) (omega arith))
or_low (suc k) c w h =
    ap (λ p. bit_or (c * p) w) (pow_suc k)
    ∙ or_step (c * (2 ^ k * 2)) w
    ∙ ap₂ (λ y d. bit_or y (w / 2) * 2 + max d (w % 2)) (half c (2 ^ k)) (digit c (2 ^ k))
    ∙ ap (λ y. y * 2 + max 0 (w % 2)) (or_low k c (w / 2) (omega (arith, pow_suc k)))
    ∙ shape c (2 ^ k) w
    ∙ ap (λ p. c * p + w) (sym (pow_suc k))
  where
    shape : (c p w : ℕ) → (c * p + w / 2) * 2 + max 0 (w % 2) ≡ c * (p * 2) + w
    shape c p w = grind arith
