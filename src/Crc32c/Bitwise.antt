-- ===== src/Crc32c/Bitwise.antt =====
-- crc32c.add of dpkt/crc32c.py is division by the polynomial, bit by bit.
use Prim.Native.Nat.{bit_xor}
use dpkt_ng.Base.{
  ℕ, zero, suc, ◌+◌, ◌*◌, ◌/◌, ◌%◌, ◌^◌, ◌<◌, ◌≡◌, refl, sym, ap, ap₂, ◌∙◌, List, [], ◌∷◌, All, map,
  get_or, arith,
}
use dpkt_ng.Base.Bits.{pow_suc, pow_pos, div_halves, and_mask}
use dpkt_ng.Base.Xor.{xor_half, xor_digit, xor_comm, xor_right_comm, xor_low, xor_zero}
use dpkt_ng.Crc32c.{crc32c_table, add_byte, add}

-- The polynomial of RFC 3309 in reverse order of the bits
abbrev pub polynomial : ℕ
polynomial = 0x82f63b78

-- One bit is shifted out; where it is set the polynomial is subtracted.
unfoldable pub divide_bit : ℕ → ℕ
divide_bit x = bit_xor (x / 2) (x % 2 * polynomial)

unfoldable pub divide_bits : ℕ → ℕ → ℕ
divide_bits zero x = x
divide_bits (suc n) x = divide_bits n (divide_bit x)

unfoldable pub divide : ℕ → List ℕ → ℕ
divide crc [] = crc
divide crc (b ∷ buf) = divide (divide_bits 8 (bit_xor crc b)) buf

range : ℕ → ℕ → List ℕ
range zero i = []
range (suc n) i = i ∷ range n (suc i)

table_divides : crc32c_table ≡ map (divide_bits 8) (range 256 0)
unfolding crc32c_table range divide_bits divide_bit
table_divides = refl

divide_bit_high : (a h : ℕ) → divide_bit (bit_xor a (h * 2)) ≡ bit_xor (divide_bit a) h
unfolding divide_bit
divide_bit_high a h =
    ap₂ (λ x d. bit_xor x (d * polynomial))
      (xor_half a (h * 2) ∙ ap (bit_xor (a / 2)) (omega arith)) (omega (arith, xor_digit a (h * 2)))
    ∙ xor_right_comm (a / 2) h (a % 2 * polynomial)

-- The bits above those that are shifted out go through.
divide_bits_high : (n a h : ℕ) → divide_bits n (bit_xor a (h * 2 ^ n)) ≡ bit_xor (divide_bits n a) h
unfolding divide_bits
divide_bits_high zero a h = ap (bit_xor a) (omega arith)
divide_bits_high (suc n) a h =
    ap (λ m. divide_bits n (divide_bit (bit_xor a m))) (ap (λ p. h * p) (pow_suc n) ∙ shape (2 ^ n))
    ∙ ap (divide_bits n) (divide_bit_high a (h * 2 ^ n))
    ∙ divide_bits_high n (divide_bit a) h
  where
    shape : (p : ℕ) → h * (p * 2) ≡ h * p * 2
    shape p = grind arith

get_or-range : (f : ℕ → ℕ) (n i j : ℕ) → j < n → get_or (map f (range n i)) j 0 ≡ f (i + j)
unfolding range
get_or-range f zero i j h = absurd (omega arith)
get_or-range f (suc n) i zero h = ap f (omega arith)
get_or-range f (suc n) i (suc j) h = get_or-range f n (suc i) j (omega arith) ∙ ap f (omega arith)

-- Digits that the byte does not reach
high_part : (k a b : ℕ) → b < 2 ^ k → a / 2 ^ k ≡ bit_xor a b / 2 ^ k
high_part zero a b h =
    let nothing : b ≡ 0 = omega arith in
    ap (λ x. x / 1) (sym (xor_zero a) ∙ ap (bit_xor a) (sym nothing))
high_part (suc k) a b h =
    ap (λ p. a / p) (pow_suc k)
    ∙ div_halves a (2 ^ k) (pow_pos k)
    ∙ high_part k (a / 2) (b / 2) (omega (arith, pow_suc k))
    ∙ ap (λ x. x / 2 ^ k) (sym (xor_half a b))
    ∙ sym (div_halves (bit_xor a b) (2 ^ k) (pow_pos k))
    ∙ ap (λ p. bit_xor a b / p) (sym (pow_suc k))

add_byte-divide_bits : (crc b : ℕ) → b < 256 → add_byte crc b ≡ divide_bits 8 (bit_xor crc b)
unfolding add_byte
add_byte-divide_bits crc b h =
    ap₂ (λ t i. bit_xor (crc / 2 ^ 8) (get_or t i 0)) table_divides (and_mask 8 x)
    ∙ ap (bit_xor (crc / 2 ^ 8)) (
        get_or-range (divide_bits 8) 256 0 (x % 256) (omega arith)
        ∙ ap (divide_bits 8) (omega arith))
    ∙ xor_comm (crc / 2 ^ 8) (divide_bits 8 (x % 256))
    ∙ sym (divide_bits_high 8 (x % 256) (crc / 2 ^ 8))
    ∙ ap (divide_bits 8) (
        ap (λ q. bit_xor (x % 256) (q * 2 ^ 8)) high
        ∙ xor_low 8 (x % 256) (x / 256) (omega arith)
        ∙ omega arith)
  where
    x : ℕ
    x = bit_xor crc b

    high : crc / 2 ^ 8 ≡ x / 256
    high = high_part 8 crc b h

-- On bytes, the table gives what division by the polynomial bit by bit gives.
pub add-divide : (crc : ℕ) (buf : List ℕ) → All (λ b. b < 256) buf → add crc buf ≡ divide crc buf
unfolding add divide
add-divide crc [] h = refl
add-divide crc (b ∷ buf) h =
    ap (λ c. add c buf) (add_byte-divide_bits crc b (h.0))
    ∙ add-divide (divide_bits 8 (bit_xor crc b)) buf (h.1)
