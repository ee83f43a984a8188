-- ===== src/Base/Bytes.antt =====
-- Byte strings as lists of numbers: slices, and big-endian words as struct.pack and unpack read them.
use Prim.Native.Nat.{ℕ, zero, suc, ◌+◌, ◌-◌, ◌*◌, ◌/◌, ◌%◌, ◌^◌, ◌<◌}
use mathlib.Core.Path.{◌≡◌, refl, ap, ap₂, ◌∙◌}
use mathlib.Core.List.{List, [], ◌∷◌, ◌++◌}
use native.Mathlib.Omega.{arith}
use dpkt_ng.Base.Lists.{length, take, drop}

-- buf[a:b]
abbrev pub slice : ℕ → ℕ → List ℕ → List ℕ
slice a b buf = take (b - a) (drop a buf)

-- struct.unpack of '>B', '>H', '>I' or '>Q': the length chooses the format.
unfoldable pub be_value : List ℕ → ℕ
be_value [] = 0
be_value (b ∷ bs) = b * 256 ^ length bs + be_value bs

-- struct.pack of a value below 256 ** n into n bytes
unfoldable pub be_bytes : ℕ → ℕ → List ℕ
be_bytes zero v = []
be_bytes (suc n) v = v / 256 ^ n ∷ be_bytes n (v % 256 ^ n)

pub length-be_bytes : (n v : ℕ) → length (be_bytes n v) ≡ n
unfolding be_bytes
length-be_bytes zero v = refl
length-be_bytes (suc n) v = ap suc (length-be_bytes n (v % 256 ^ n))

div_mod : (v p : ℕ) → v / p * p + v % p ≡ v
div_mod v p = grind arith

pub mod_lt : (v p : ℕ) → 0 < p → v % p < p
mod_lt v p h = grind arith

pow_pos : (n : ℕ) → 0 < 256 ^ n
pow_pos zero = omega arith
pow_pos (suc n) = grind (arith, pow_pos n)

pub be_value-be_bytes : (n v : ℕ) → v < 256 ^ n → be_value (be_bytes n v) ≡ v
unfolding be_value be_bytes
be_value-be_bytes zero v h = omega arith
be_value-be_bytes (suc n) v h =
    ap (λ k. v / 256 ^ n * 256 ^ k + be_value (be_bytes n (v % 256 ^ n))) (length-be_bytes n _)
    ∙ ap (λ w. v / 256 ^ n * 256 ^ n + w)
        (be_value-be_bytes n (v % 256 ^ n) (mod_lt v _ (pow_pos n)))
    ∙ div_mod v (256 ^ n)

pub take-append_length {ℓ} : {A : Type ℓ} (xs ys : List A) → take (length xs) (xs ++ ys) ≡ xs
take-append_length [] ys = refl
take-append_length (x ∷ xs) ys = ap (λ l. x ∷ l) (take-append_length xs ys)

pub drop-append_length {ℓ} :
    {A : Type ℓ} (n : ℕ) (xs ys : List A) → drop (length xs + n) (xs ++ ys) ≡ drop n ys
drop-append_length n [] ys = ap (λ k. drop k ys) (omega arith)
drop-append_length n (x ∷ xs) ys =
    ap (λ k. drop k (x ∷ xs ++ ys)) (the_suc (length xs)) ∙ drop-append_length n xs ys
  where
    the_suc : (l : ℕ) → suc l + n ≡ suc (l + n)
    the_suc l = omega arith

-- A slice behind a prefix, and one that is the prefix
pub slice-append :
    (a b : ℕ) (xs ys : List ℕ) → slice (length xs + a) (length xs + b) (xs ++ ys) ≡ slice a b ys
slice-append a b xs ys = ap₂ take (omega arith) (drop-append_length a xs ys)

pub slice-front : (n : ℕ) (bs rest : List ℕ) → length bs ≡ n → slice 0 (0 + n) (bs ++ rest) ≡ bs
slice-front n bs rest h = ap (λ k. take k (bs ++ rest)) (omega arith) ∙ take-append_length bs rest

pub slice_behind :
    (front bytes rest : List ℕ) {size : ℕ}
    → length bytes ≡ size
    → slice (length front) (length front + size) (front ++ (bytes ++ rest)) ≡ bytes
slice_behind front bytes rest {size} h =
    ap₂ (λ i j. slice i j (front ++ (bytes ++ rest))) (plus_zero (length front))
      (ap (λ n. length front + n) (zero_plus size))
    ∙ slice-append 0 (0 + size) front (bytes ++ rest)
    ∙ slice-front size bytes rest h
  where
    plus_zero : (n : ℕ) → n ≡ n + 0
    plus_zero n = omega arith

    zero_plus : (n : ℕ) → n ≡ 0 + n
    zero_plus n = omega arith
