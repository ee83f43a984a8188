-- ===== src/Crc32c/Order.antt =====
-- crc32c.done of dpkt/crc32c.py: the complement with its bytes in the other order.
use Prim.Native.Nat.{bit_and, bit_or}
use dpkt_ng.Base.{ℕ, ◌+◌, ◌-◌, ◌*◌, ◌/◌, ◌%◌, ◌^◌, ◌<◌, ◌≡◌, ap, ap₂, ◌∙◌, arith}
use dpkt_ng.Base.Bits.{and_mask, or_low}
use dpkt_ng.Crc32c.{done}

or_bytes :
    (b0 b1 b2 b3 : ℕ)
    → b0 < 256
    → b1 < 256
    → b2 < 256
    → b3 < 256
    → bit_or (bit_or (bit_or (b0 * 2 ^ 24) (b1 * 2 ^ 16)) (b2 * 2 ^ 8)) b3
      ≡ b0 * 2 ^ 24 + b1 * 2 ^ 16 + b2 * 2 ^ 8 + b3
or_bytes b0 b1 b2 b3 h0 h1 h2 h3 =
    let two : b0 * 2 ^ 24 + b1 * 2 ^ 16 ≡ (b0 * 256 + b1) * 2 ^ 16 = omega arith in
    let three : (b0 * 256 + b1) * 2 ^ 16 + b2 * 2 ^ 8 ≡ (b0 * 65536 + b1 * 256 + b2) * 2 ^ 8 =
      omega arith in
    ap (λ x. bit_or (bit_or x (b2 * 2 ^ 8)) b3) (or_low 24 b0 (b1 * 2 ^ 16) (omega arith) ∙ two)
    ∙ ap (λ x. bit_or x b3) (or_low 16 (b0 * 256 + b1) (b2 * 2 ^ 8) (omega arith) ∙ three)
    ∙ or_low 8 (b0 * 65536 + b1 * 256 + b2) b3 (omega arith)
    ∙ omega arith

done_digits :
    (crc : ℕ)
    → done crc
      ≡ (0xffffffff - crc % 2 ^ 32) % 256 * 2 ^ 24
        + (0xffffffff - crc % 2 ^ 32) / 2 ^ 8 % 256 * 2 ^ 16
        + (0xffffffff - crc % 2 ^ 32) / 2 ^ 16 % 256 * 2 ^ 8
        + (0xffffffff - crc % 2 ^ 32) / 2 ^ 24 % 256
unfolding done
done_digits crc =
    ap by_masks (ap (λ m. 0xffffffff - m) (and_mask 32 crc))
    ∙ or_bytes _ _ _ _ (byte t) (byte (t / 2 ^ 8)) (byte (t / 2 ^ 16)) (byte (t / 2 ^ 24))
    ∙ ap₂ (λ x y. x + y)
        (ap₂ (λ x y. x + y)
          (ap₂ (λ x y. x * 2 ^ 24 + y * 2 ^ 16) (and_mask 8 t) (and_mask 8 (t / 2 ^ 8)))
          (ap (λ y. y * 2 ^ 8) (and_mask 8 (t / 2 ^ 16))))
        (and_mask 8 (t / 2 ^ 24))
  where
    t : ℕ
    t = 0xffffffff - crc % 2 ^ 32

    by_masks : ℕ → ℕ
    by_masks t =
        bit_or
          (bit_or (bit_or (bit_and t 0xff * 2 ^ 24) (bit_and (t / 2 ^ 8) 0xff * 2 ^ 16))
            (bit_and (t / 2 ^ 16) 0xff * 2 ^ 8))
          (bit_and (t / 2 ^ 24) 0xff)

    byte : (x : ℕ) → bit_and x 0xff < 256
    byte x = omega (arith, and_mask 8 x)

pub done_lt : (crc : ℕ) → done crc < 2 ^ 32
done_lt crc = omega (arith, done_digits crc)
