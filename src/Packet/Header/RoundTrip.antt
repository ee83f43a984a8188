-- ===== src/Packet/Header/RoundTrip.antt =====
-- Headers of dpkt/dpkt.py are the same after unpacking and packing, in both orders.
use dpkt_ng.Base.{
  ℕ, zero, suc, ◌+◌, ◌*◌, ◌/◌, ◌%◌, ◌^◌, ◌≤◌, ◌<◌, List, [], ◌∷◌, ◌++◌, ltb, if◌then◌else◌, length,
  length-take, length-drop, take, drop, take_all, All, Bool-cases, inl, inr, true, lt→ltb, ltb→lt,
  ◌≡◌, ◌≢◌, refl, sym, ap, ap₂, ◌∙◌, subst, arith,
}
use mathlib.Core.List.{append_assoc}
use dpkt_ng.Base.Bytes.{
  be_value, be_bytes, length-be_bytes, be_value-be_bytes, take-append_length, drop-append_length,
}
use dpkt_ng.Base.Results.{returns, raises, pack_error, ◌>>=◌, bind_inversion}
use dpkt_ng.Packet.Header.{hdr_len, field_values, pack_hdr}

mul_div : (b p r : ℕ) → 0 < p → r < p → (b * p + r) / p ≡ b
mul_div b p r h l = grind arith

mul_mod : (b p r : ℕ) → 0 < p → r < p → (b * p + r) % p ≡ r
mul_mod b p r h l = grind arith

pow_suc : (n : ℕ) → 256 ^ suc n ≡ 256 * 256 ^ n
pow_suc n = omega arith

pow_pos : (n : ℕ) → 0 < 256 ^ n
pow_pos zero = omega arith
pow_pos (suc n) = omega (arith, pow_suc n, pow_pos n)

below : (b p r : ℕ) → b < 256 → r < p → b * p + r < 256 * p
below b p r h l = grind arith

pub be_value_lt : (bs : List ℕ) → All (λ b. b < 256) bs → be_value bs < 256 ^ length bs
unfolding be_value
be_value_lt [] h = omega arith
be_value_lt (b ∷ bs) (hb, h) =
    subst (λ p. b * 256 ^ length bs + be_value bs < p) (sym (pow_suc (length bs)))
      (below b (256 ^ length bs) (be_value bs) hb (be_value_lt bs h))

-- The bytes of a value that was read are the bytes it was read from.
pub be_bytes-be_value :
    (bs : List ℕ) → All (λ b. b < 256) bs → be_bytes (length bs) (be_value bs) ≡ bs
unfolding be_value be_bytes
be_bytes-be_value [] h = refl
be_bytes-be_value (b ∷ bs) (hb, h) =
    let lt = be_value_lt bs h in
    let p = pow_pos (length bs) in
    ap₂ (λ x y. x ∷ be_bytes (length bs) y) (mul_div b (256 ^ length bs) (be_value bs) p lt)
      (mul_mod b (256 ^ length bs) (be_value bs) p lt)
    ∙ ap (λ l. b ∷ l) (be_bytes-be_value bs h)

All-take : (n : ℕ) (bs : List ℕ) → All (λ b. b < 256) bs → All (λ b. b < 256) (take n bs)
All-take zero bs h = tt
All-take (suc n) [] h = tt
All-take (suc n) (b ∷ bs) (hb, h) = (hb, All-take n bs h)

All-drop : (n : ℕ) (bs : List ℕ) → All (λ b. b < 256) bs → All (λ b. b < 256) (drop n bs)
All-drop zero bs h = h
All-drop (suc n) [] h = tt
All-drop (suc n) (b ∷ bs) (hb, h) = All-drop n bs h

suc_sum : (n m : ℕ) → suc n + m ≡ suc (n + m)
suc_sum n m = omega arith

take_sum : (n m : ℕ) (bs : List ℕ) → take (n + m) bs ≡ take n bs ++ take m (drop n bs)
take_sum zero m bs = ap (λ k. take k bs) (omega arith)
take_sum (suc n) m [] = ap (λ k. take k []) (suc_sum n m) ∙ nothing
  where
    nothing : ◌≡◌ {A = List ℕ} [] (take m [])
    nothing = sym (take_all m [] (omega arith))
take_sum (suc n) m (b ∷ bs) =
    ap (λ k. take k (b ∷ bs)) (suc_sum n m) ∙ ap (λ l. b ∷ l) (take_sum n m bs)

pack_next :
    (n v : ℕ) (sizes values : List ℕ) {bytes : List ℕ}
    → ltb v (256 ^ n) ≡ true
    → pack_hdr sizes values ≡ returns bytes
    → pack_hdr (n ∷ sizes) (v ∷ values) ≡ returns (be_bytes n v ++ bytes)
unfolding pack_hdr
pack_next n v sizes values fits e =
    ap
      (λ c.
        if c
        then (pack_hdr sizes values >>= λ bytes. returns (be_bytes n v ++ bytes))
        else raises pack_error)
      fits
    ∙ ap (λ r. r >>= λ bytes. returns (be_bytes n v ++ bytes)) e

packed :
    (n v : ℕ) (sizes values : List ℕ) {bytes : List ℕ}
    → pack_hdr (n ∷ sizes) (v ∷ values) ≡ returns bytes
    → (tail : List ℕ) × (v < 256 ^ n)
      × (pack_hdr sizes values ≡ returns tail)
      × (be_bytes n v ++ tail ≡ bytes)
unfolding pack_hdr
packed n v sizes values h = elim (Bool-cases (ltb v (256 ^ n))) [
  | inl fits ↦
      let done =
        ap
          (λ c.
            if c
            then (pack_hdr sizes values >>= λ bytes. returns (be_bytes n v ++ bytes))
            else raises pack_error)
          fits in
      let (tail, e, r) = bind_inversion (pack_hdr sizes values) _ (sym done ∙ h) in
      (tail, ltb→lt _ _ fits, e, same_value r)
  | inr large ↦
      let failed =
        ap
          (λ c.
            if c
            then (pack_hdr sizes values >>= λ bytes. returns (be_bytes n v ++ bytes))
            else raises pack_error)
          large in
      absurd (no_value (sym failed ∙ h))
]
  where
    same_value : {a b : List ℕ} → returns a ≡ returns b → a ≡ b
    same_value h = cc

    no_value : {a : List ℕ} → raises pack_error ≢ returns a
    no_value h = cc

-- A header that was unpacked is packed to the bytes that it was unpacked from.
pub pack_hdr-field_values :
    (sizes buf : List ℕ)
    → All (λ b. b < 256) buf
    → hdr_len sizes ≤ length buf
    → pack_hdr sizes (field_values sizes buf) ≡ returns (take (hdr_len sizes) buf)
unfolding pack_hdr field_values hdr_len
pack_hdr-field_values [] buf h l = refl
pack_hdr-field_values (n ∷ sizes) buf h l =
    let front = take n buf in
    let size : length (take n buf) ≡ n = omega (arith, length-take n buf) in
    let fits : be_value (take n buf) < 256 ^ n =
      subst (λ k. be_value (take n buf) < 256 ^ k) size (be_value_lt front (All-take n buf h)) in
    let same : be_bytes n (be_value (take n buf)) ≡ take n buf =
      subst (λ k. be_bytes k (be_value (take n buf)) ≡ take n buf) size
        (be_bytes-be_value front (All-take n buf h)) in
    let others =
      pack_hdr-field_values sizes (drop n buf) (All-drop n buf h)
        (omega (arith, length-drop n buf)) in
    pack_next n (be_value front) sizes (field_values sizes (drop n buf)) (lt→ltb _ _ fits) others
    ∙ ap returns (
        ap (λ x. x ++ take (hdr_len sizes) (drop n buf)) same
        ∙ sym (take_sum n (hdr_len sizes) buf))

-- Values that fit are packed to bytes that are unpacked to them, whatever follows.
pub field_values-pack_hdr :
    (sizes values bytes rest : List ℕ)
    → pack_hdr sizes values ≡ returns bytes
    → field_values sizes (bytes ++ rest) ≡ values
unfolding pack_hdr field_values
field_values-pack_hdr [] [] bytes rest h = refl
field_values-pack_hdr [] (v ∷ values) bytes rest h = cc
field_values-pack_hdr (n ∷ sizes) [] bytes rest h = cc
field_values-pack_hdr (n ∷ sizes) (v ∷ values) bytes rest h =
    let (tail, fits, others, e) = packed n v sizes values h in
    let whole : be_bytes n v ++ (tail ++ rest) ≡ bytes ++ rest =
      sym (append_assoc (be_bytes n v) tail rest) ∙ ap (λ l. l ++ rest) e in
    let size = length-be_bytes n v in
    let first : take n (be_bytes n v ++ (tail ++ rest)) ≡ be_bytes n v =
      ap (λ k. take k (be_bytes n v ++ (tail ++ rest))) (sym size)
      ∙ take-append_length (be_bytes n v) (tail ++ rest) in
    let behind : drop n (be_bytes n v ++ (tail ++ rest)) ≡ tail ++ rest =
      ap (λ k. drop k (be_bytes n v ++ (tail ++ rest))) (omega arith)
      ∙ drop-append_length 0 (be_bytes n v) (tail ++ rest) in
    ap (λ b. be_value (take n b) ∷ field_values sizes (drop n b)) (sym whole)
    ∙ ap₂ (λ a b. be_value a ∷ field_values sizes b) first behind
    ∙ ap₂ (λ x l. x ∷ l) (be_value-be_bytes n v fits)
        (field_values-pack_hdr sizes values tail rest others)
