-- ===== src/Dns/Flags/View.antt =====
-- The properties of class DNS in dpkt/dns.py as a view of DNS.op: what each of them reads, and that its
-- setter changes it and nothing else.
use Prim.Native.Nat.{bit_and, bit_or, max}
use dpkt_ng.Base.{
  ℕ, zero, suc, ◌+◌, ◌-◌, ◌*◌, ◌/◌, ◌%◌, ◌^◌, ◌<◌, ◌==◌, Bool, true, false, ◌≡◌, sym, ap, ap₂, ◌∙◌,
  arith, if◌then◌else◌,
}
use dpkt_ng.Base.Bytes.{mod_lt}
use dpkt_ng.Base.Bits.{pow_pos, or_step, or_zero, and_mask, and_high, or_high, or_low}
use dpkt_ng.Dns.Flags.{
  get_flag, set_flag, clear_bits, get_qr, set_qr, get_opcode, set_opcode, get_aa, set_aa, get_tc,
  set_tc, get_rd, set_rd, get_ra, set_ra, get_zero, set_zero, get_rcode, set_rcode,
}

-- The fields of the second word of the header, as RFC 1035 draws them
pub record OpView : Type 0 where
  pub qr : ℕ
  pub opcode : ℕ
  pub aa : ℕ
  pub tc : ℕ
  pub rd : ℕ
  pub ra : ℕ
  pub zero : ℕ
  pub rcode : ℕ

unfoldable pub view : ℕ → OpView
view op = record {
  qr = get_qr op;
  opcode = get_opcode op;
  aa = get_aa op;
  tc = get_tc op;
  rd = get_rd op;
  ra = get_ra op;
  zero = get_zero op;
  rcode = get_rcode op;
}

abbrev pub bit : Bool → ℕ
bit true = 1
bit false = 0

and_bit : (k op : ℕ) → bit_and op (2 ^ k) ≡ op / 2 ^ k % 2 * 2 ^ k
and_bit k op =
    ap (bit_and op) (one_times (2 ^ k))
    ∙ and_high k op 1
    ∙ ap (λ d. d * 2 ^ k) (and_mask 1 (op / 2 ^ k))
  where
    one_times : (p : ℕ) → p ≡ 1 * p
    one_times p = omega arith

get_flag_digit : (k op : ℕ) → get_flag (2 ^ k) op ≡ op / 2 ^ k % 2
unfolding get_flag
get_flag_digit k op =
    ap (λ x. if x == 2 ^ k then 1 else 0) (and_bit k op)
    ∙ whole (op / 2 ^ k % 2) (2 ^ k) (pow_pos k) (omega arith)
  where
    whole : (d p : ℕ) → 0 < p → d < 2 → (if d * p == p then 1 else 0) ≡ d
    whole zero p h l = ground arith
    whole (suc zero) p h l = ground arith
    whole (suc (suc d)) p h l = absurd (omega arith)

split_at : (k op : ℕ) → op ≡ op % 2 ^ k + op / 2 ^ k * 2 ^ k
split_at k op = below (2 ^ k)
  where
    below : (p : ℕ) → op ≡ op % p + op / p * p
    below p = grind arith

or_one : (a : ℕ) → bit_or a 1 ≡ a - a % 2 + 1
or_one a =
    or_step a 1
    ∙ ap (λ y. y * 2 + max (a % 2) 1) (or_zero (a / 2) (a / 2) (omega arith))
    ∙ omega arith

set_flag_digit :
    (k : ℕ) (v : Bool) (op : ℕ)
    → set_flag (2 ^ k) v op ≡ op - op / 2 ^ k % 2 * 2 ^ k + bit v * 2 ^ k
unfolding set_flag clear_bits
set_flag_digit k true op =
    ap₂ bit_or (split_at k op) (one_times (2 ^ k))
    ∙ or_high k (op % 2 ^ k) (op / 2 ^ k) 1 (mod_lt op _ (pow_pos k))
    ∙ ap (λ a. op % 2 ^ k + a * 2 ^ k) (or_one (op / 2 ^ k))
    ∙ set_high (2 ^ k) (split_at k op)
  where
    one_times : (p : ℕ) → p ≡ 1 * p
    one_times p = omega arith

    shape : (r e f p : ℕ) → r + (f + 1) * p ≡ r + (e + f) * p - e * p + 1 * p
    shape r e f p = grind arith

    set_high :
        (p : ℕ)
        → op ≡ op % p + op / p * p
        → op % p + (op / p - op / p % 2 + 1) * p ≡ op - op / p % 2 * p + 1 * p
    set_high p h =
        shape (op % p) (op / p % 2) (op / p - op / p % 2) p
        ∙ ap (λ a. op % p + a * p - op / p % 2 * p + 1 * p) (omega arith)
        ∙ ap (λ n. n - op / p % 2 * p + 1 * p) (sym h)
set_flag_digit k false op = ap (λ d. op - d) (and_bit k op) ∙ omega arith

opcode_digits : (op : ℕ) → get_opcode op ≡ op / 2 ^ 11 % 16
unfolding get_opcode
opcode_digits op = and_mask 4 (op / 2 ^ 11)

set_opcode_digits : (v op : ℕ) → set_opcode v op ≡ op - op / 2 ^ 11 % 16 * 2 ^ 11 + v % 16 * 2 ^ 11
unfolding set_opcode clear_bits
set_opcode_digits v op =
    ap₂ (λ m w. bit_or (op - m) (w * 2 ^ 11))
      (and_high 11 op 15 ∙ ap (λ d. d * 2 ^ 11) (and_mask 4 (op / 2 ^ 11))) (and_mask 4 v)
    ∙ ap (λ x. bit_or x (v % 16 * 2 ^ 11)) (cleared)
    ∙ or_high 11 (op % 2 ^ 11) (op / 2 ^ 15 * 2 ^ 4) (v % 16) (omega arith)
    ∙ ap (λ a. op % 2 ^ 11 + a * 2 ^ 11) (or_low 4 (op / 2 ^ 15) (v % 16) (omega arith))
    ∙ omega arith
  where
    cleared : op - op / 2 ^ 11 % 16 * 2 ^ 11 ≡ op % 2 ^ 11 + op / 2 ^ 15 * 2 ^ 4 * 2 ^ 11
    cleared = omega arith

rcode_digits : (op : ℕ) → get_rcode op ≡ op % 16
unfolding get_rcode
rcode_digits op = and_mask 4 op

set_rcode_digits : (v op : ℕ) → set_rcode v op ≡ op - op % 16 + v % 16
unfolding set_rcode clear_bits
set_rcode_digits v op =
    ap₂ (λ m w. bit_or (op - m) w) (and_mask 4 op) (and_mask 4 v)
    ∙ ap (λ x. bit_or x (v % 16)) (cleared)
    ∙ or_low 4 (op / 16) (v % 16) (omega arith)
    ∙ omega arith
  where
    cleared : op - op % 16 ≡ op / 16 * 2 ^ 4
    cleared = omega arith

-- The same fields by their places in the word
unfoldable pub layout : ℕ → OpView
layout op = record {
  qr = op / 2 ^ 15;
  opcode = op / 2 ^ 11 % 16;
  aa = op / 2 ^ 10 % 2;
  tc = op / 2 ^ 9 % 2;
  rd = op / 2 ^ 8 % 2;
  ra = op / 2 ^ 7 % 2;
  zero = op / 2 ^ 6 % 2;
  rcode = op % 16;
}

OpView-ext :
    {v w : OpView}
    → v.qr ≡ w.qr
    → v.opcode ≡ w.opcode
    → v.aa ≡ w.aa
    → v.tc ≡ w.tc
    → v.rd ≡ w.rd
    → v.ra ≡ w.ra
    → v.zero ≡ w.zero
    → v.rcode ≡ w.rcode
    → v ≡ w
OpView-ext a b c d e f g h = cc

-- Each property of DNS reads its field of a 16-bit op, as RFC 1035 places it.
pub view-layout : (op : ℕ) → op < 2 ^ 16 → view op ≡ layout op
unfolding view layout get_qr get_aa get_tc get_rd get_ra get_zero
view-layout op h =
    OpView-ext (get_flag_digit 15 op ∙ omega arith) (opcode_digits op) (get_flag_digit 10 op)
      (get_flag_digit 9 op) (get_flag_digit 8 op) (get_flag_digit 7 op) (get_flag_digit 6 op)
      (rcode_digits op)

bit_lt : (v : Bool) → bit v < 2
bit_lt true = omega arith
bit_lt false = omega arith

layout-set_qr :
    (v : Bool) (op : ℕ)
    → op < 2 ^ 16
    → (set_qr v op < 2 ^ 16) × (layout (set_qr v op) ≡ record (layout op) { qr = bit v })
unfolding layout set_qr
layout-set_qr v op h =
    let e = set_flag_digit 15 v op in
    (
      omega (arith, bit_lt v),
      OpView-ext (omega (arith, bit_lt v)) (omega (arith, bit_lt v)) (omega (arith, bit_lt v))
          (omega (arith, bit_lt v)) (omega (arith, bit_lt v)) (omega (arith, bit_lt v))
          (omega (arith, bit_lt v)) (omega (arith, bit_lt v)),
    )

layout-set_aa :
    (v : Bool) (op : ℕ)
    → op < 2 ^ 16
    → (set_aa v op < 2 ^ 16) × (layout (set_aa v op) ≡ record (layout op) { aa = bit v })
unfolding layout set_aa
layout-set_aa v op h =
    let e = set_flag_digit 10 v op in
    (
      omega (arith, bit_lt v),
      OpView-ext (omega (arith, bit_lt v)) (omega (arith, bit_lt v)) (omega (arith, bit_lt v))
          (omega (arith, bit_lt v)) (omega (arith, bit_lt v)) (omega (arith, bit_lt v))
          (omega (arith, bit_lt v)) (omega (arith, bit_lt v)),
    )

layout-set_tc :
    (v : Bool) (op : ℕ)
    → op < 2 ^ 16
    → (set_tc v op < 2 ^ 16) × (layout (set_tc v op) ≡ record (layout op) { tc = bit v })
unfolding layout set_tc
layout-set_tc v op h =
    let e = set_flag_digit 9 v op in
    (
      omega (arith, bit_lt v),
      OpView-ext (omega (arith, bit_lt v)) (omega (arith, bit_lt v)) (omega (arith, bit_lt v))
          (omega (arith, bit_lt v)) (omega (arith, bit_lt v)) (omega (arith, bit_lt v))
          (omega (arith, bit_lt v)) (omega (arith, bit_lt v)),
    )

layout-set_rd :
    (v : Bool) (op : ℕ)
    → op < 2 ^ 16
    → (set_rd v op < 2 ^ 16) × (layout (set_rd v op) ≡ record (layout op) { rd = bit v })
unfolding layout set_rd
layout-set_rd v op h =
    let e = set_flag_digit 8 v op in
    (
      omega (arith, bit_lt v),
      OpView-ext (omega (arith, bit_lt v)) (omega (arith, bit_lt v)) (omega (arith, bit_lt v))
          (omega (arith, bit_lt v)) (omega (arith, bit_lt v)) (omega (arith, bit_lt v))
          (omega (arith, bit_lt v)) (omega (arith, bit_lt v)),
    )

layout-set_ra :
    (v : Bool) (op : ℕ)
    → op < 2 ^ 16
    → (set_ra v op < 2 ^ 16) × (layout (set_ra v op) ≡ record (layout op) { ra = bit v })
unfolding layout set_ra
layout-set_ra v op h =
    let e = set_flag_digit 7 v op in
    (
      omega (arith, bit_lt v),
      OpView-ext (omega (arith, bit_lt v)) (omega (arith, bit_lt v)) (omega (arith, bit_lt v))
          (omega (arith, bit_lt v)) (omega (arith, bit_lt v)) (omega (arith, bit_lt v))
          (omega (arith, bit_lt v)) (omega (arith, bit_lt v)),
    )

layout-set_zero :
    (v : Bool) (op : ℕ)
    → op < 2 ^ 16
    → (set_zero v op < 2 ^ 16) × (layout (set_zero v op) ≡ record (layout op) { zero = bit v })
unfolding layout set_zero
layout-set_zero v op h =
    let e = set_flag_digit 6 v op in
    (
      omega (arith, bit_lt v),
      OpView-ext (omega (arith, bit_lt v)) (omega (arith, bit_lt v)) (omega (arith, bit_lt v))
          (omega (arith, bit_lt v)) (omega (arith, bit_lt v)) (omega (arith, bit_lt v))
          (omega (arith, bit_lt v)) (omega (arith, bit_lt v)),
    )

layout-set_opcode :
    (n op : ℕ)
    → op < 2 ^ 16
    → (set_opcode n op < 2 ^ 16)
      × (layout (set_opcode n op) ≡ record (layout op) { opcode = n % 16 })
unfolding layout
layout-set_opcode n op h =
    let e = set_opcode_digits n op in
    (
      omega arith,
      OpView-ext (omega arith) (omega arith) (omega arith) (omega arith) (omega arith) (omega arith)
          (omega arith) (omega arith),
    )

layout-set_rcode :
    (n op : ℕ)
    → op < 2 ^ 16
    → (set_rcode n op < 2 ^ 16) × (layout (set_rcode n op) ≡ record (layout op) { rcode = n % 16 })
unfolding layout
layout-set_rcode n op h =
    let e = set_rcode_digits n op in
    (
      omega arith,
      OpView-ext (omega arith) (omega arith) (omega arith) (omega arith) (omega arith) (omega arith)
          (omega arith) (omega arith),
    )

module _ (v : Bool) (n op : ℕ) (h : op < 2 ^ 16) where
  commutes :
      (change : OpView → OpView) (op' : ℕ)
      → (op' < 2 ^ 16) × (layout op' ≡ change (layout op))
      → view op' ≡ change (view op)
  commutes change op' p = view-layout op' (p.0) ∙ p.1 ∙ ap change (sym (view-layout op h))

  -- Each setter of a 16-bit op changes its own property, a flag to 1 or 0 and a field of four bits to the
  -- value modulo 16, and no other property.
  pub set-view :
      (view (set_qr v op) ≡ record (view op) { qr = bit v })
      × (view (set_opcode n op) ≡ record (view op) { opcode = n % 16 })
      × (view (set_aa v op) ≡ record (view op) { aa = bit v })
      × (view (set_tc v op) ≡ record (view op) { tc = bit v })
      × (view (set_rd v op) ≡ record (view op) { rd = bit v })
      × (view (set_ra v op) ≡ record (view op) { ra = bit v })
      × (view (set_zero v op) ≡ record (view op) { zero = bit v })
      × (view (set_rcode n op) ≡ record (view op) { rcode = n % 16 })
  set-view = (
    commutes (λ w. record w { qr = bit v }) (set_qr v op) (layout-set_qr v op h),
    commutes (λ w. record w { opcode = n % 16 }) (set_opcode n op) (layout-set_opcode n op h),
    commutes (λ w. record w { aa = bit v }) (set_aa v op) (layout-set_aa v op h),
    commutes (λ w. record w { tc = bit v }) (set_tc v op) (layout-set_tc v op h),
    commutes (λ w. record w { rd = bit v }) (set_rd v op) (layout-set_rd v op h),
    commutes (λ w. record w { ra = bit v }) (set_ra v op) (layout-set_ra v op h),
    commutes (λ w. record w { zero = bit v }) (set_zero v op) (layout-set_zero v op h),
    commutes (λ w. record w { rcode = n % 16 }) (set_rcode n op) (layout-set_rcode n op h),
  )
