-- ===== src/Base/Split.antt =====
-- bytes.split and bytes.join with a separator of one byte.
use mathlib.Core.List.{append_assoc}
use dpkt_ng.Base.{
  ℕ, zero, suc, ◌<◌, ◌==◌, ◌≡◌, refl, sym, ap, subst, ◌∙◌, false, List, [], ◌∷◌, ◌++◌,
  if◌then◌else◌, length, arith,
}

unfoldable pub put_first : ℕ → List (List ℕ) → List (List ℕ)
put_first c [] = (c ∷ []) ∷ []
put_first c (part ∷ parts) = (c ∷ part) ∷ parts

-- buf.split(bytes([sep]))
unfoldable pub split : ℕ → List ℕ → List (List ℕ)
split sep [] = [] ∷ []
split sep (c ∷ rest) =
    let parts = split sep rest in if c == sep then [] ∷ parts else put_first c parts

-- bytes([sep]).join(parts)
unfoldable pub join : ℕ → List (List ℕ) → List ℕ
join sep [] = []
join sep (part ∷ []) = part
join sep (part ∷ next ∷ parts) = part ++ (sep ∷ join sep (next ∷ parts))

-- Bytes that are all other than 0
abbrev pub Plain : List ℕ → Type 0
Plain [] = Unit
Plain (c ∷ cs) = (0 < c) × Plain cs

abbrev pub AllPlain : List (List ℕ) → Type 0
AllPlain [] = Unit
AllPlain (part ∷ parts) = Plain part × AllPlain parts

put_first-AllPlain :
    (c : ℕ) (parts : List (List ℕ)) → 0 < c → AllPlain parts → AllPlain (put_first c parts)
unfolding put_first
put_first-AllPlain c [] h a = ((h, tt), tt)
put_first-AllPlain c (part ∷ parts) h a = ((h, a.0), a.1)

pub split-AllPlain : (bytes : List ℕ) → AllPlain (split 0 bytes)
unfolding split
split-AllPlain [] = (tt, tt)
split-AllPlain (zero ∷ rest) = (tt, split-AllPlain rest)
split-AllPlain (suc c ∷ rest) =
    subst (λ b. AllPlain (if b then [] ∷ split 0 rest else put_first (suc c) (split 0 rest)))
      (sym (other c))
      (put_first-AllPlain (suc c) (split 0 rest) (omega arith) (split-AllPlain rest))
  where
    other : (n : ℕ) → (suc n == 0) ≡ false
    other n = ground arith

pub split_part :
    (part rest : List ℕ) → Plain part → split 0 (part ++ (0 ∷ rest)) ≡ part ∷ split 0 rest
unfolding split put_first
split_part [] rest h = refl
split_part (c ∷ part) rest h = ground (arith, split_part part rest (h.1))

pub split_one : (part : List ℕ) → Plain part → split 0 part ≡ part ∷ []
unfolding split put_first
split_one [] h = refl
split_one (c ∷ part) h = ground (arith, split_one part (h.1))

-- Parts that are joined and ended
pub split-join :
    (part : List ℕ) (parts : List (List ℕ))
    → AllPlain (part ∷ parts)
    → split 0 (join 0 (part ∷ parts) ++ (0 ∷ [])) ≡ (part ∷ parts) ++ ([] ∷ [])
unfolding split join
split-join part [] h = split_part part [] (h.0)
split-join part (next ∷ parts) h =
    ap (split 0) (append_assoc part (0 ∷ join 0 (next ∷ parts)) (0 ∷ []))
    ∙ split_part part (join 0 (next ∷ parts) ++ (0 ∷ [])) (h.0)
    ∙ ap (λ ps. part ∷ ps) (split-join next parts (h.1))

length-put_first :
    (c : ℕ) (parts : List (List ℕ)) → 0 < length parts → length (put_first c parts) ≡ length parts
unfolding put_first
length-put_first c [] h = ground arith
length-put_first c (part ∷ parts) h = refl

length-split : (sep : ℕ) (bytes : List ℕ) → 0 < length (split sep bytes)
unfolding split
length-split sep [] = omega arith
length-split sep (c ∷ rest) =
    ground
      (arith, length-split sep rest, length-put_first c (split sep rest) (length-split sep rest))

pub split-Plain : (bytes : List ℕ) → length (split 0 bytes) < 2 → Plain bytes
unfolding split
split-Plain [] h = tt
split-Plain (zero ∷ rest) h = ground (arith, length-split 0 rest)
split-Plain (suc c ∷ rest) h = (
  omega arith,
  split-Plain rest (ground (arith, length-put_first (suc c) (split 0 rest) (length-split 0 rest))),
)
