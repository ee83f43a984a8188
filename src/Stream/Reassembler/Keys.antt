-- ===== src/Stream/Reassembler/Keys.antt =====
-- The keys of the connection table of dpkt/stream.py: one key for both directions of a connection,
-- and the laws of the table as a dict.
use dpkt_ng.Base.{
  ℕ, ◌≡◌, refl, true, false, List, [], ◌∷◌, arith, Bool-cases, list_eq, list_eq_refl, list_eq→eq,
}
use dpkt_ng.Stream.Reassembler.{Endpoint, text_lt, endpoint_le, ConnId, conn_id, endpoint_eq, id_eq}

text_lt_asymm : (xs ys : List ℕ) → text_lt xs ys ≡ true → text_lt ys xs ≡ false
unfolding text_lt
text_lt_asymm [] [] h = refl
text_lt_asymm [] (y ∷ ys) h = refl
text_lt_asymm (x ∷ xs) [] h = cc
text_lt_asymm (x ∷ xs) (y ∷ ys) h = ground (arith, text_lt_asymm xs ys)

text_lt_total :
    (xs ys : List ℕ) → text_lt xs ys ≡ false → text_lt ys xs ≡ false → list_eq xs ys ≡ true
unfolding text_lt list_eq
text_lt_total [] [] h k = refl
text_lt_total [] (y ∷ ys) h k = cc
text_lt_total (x ∷ xs) [] h k = cc
text_lt_total (x ∷ xs) (y ∷ ys) h k = ground (arith, text_lt_total xs ys)

list_eq_symm : (xs ys : List ℕ) → list_eq xs ys ≡ list_eq ys xs
unfolding list_eq
list_eq_symm [] [] = refl
list_eq_symm [] (y ∷ ys) = refl
list_eq_symm (x ∷ xs) [] = refl
list_eq_symm (x ∷ xs) (y ∷ ys) = ground (arith, list_eq_symm xs ys)

pub endpoint_eq→eq : (a b : Endpoint) → endpoint_eq a b ≡ true → a ≡ b
endpoint_eq→eq (x, m) (y, n) h = ground (arith, list_eq→eq x y)

endpoint_le_total : (a b : Endpoint) → endpoint_le a b ≡ false → endpoint_le b a ≡ true
unfolding endpoint_le
endpoint_le_total (x, m) (y, n) h =
    ground (arith, list_eq_symm x y, text_lt_total x y, Bool-cases (text_lt y x))

endpoint_le_antisymm : (a b : Endpoint) → endpoint_le a b ≡ true → endpoint_le b a ≡ true → a ≡ b
unfolding endpoint_le
endpoint_le_antisymm (x, m) (y, n) h k =
    ground (arith, list_eq_symm x y, list_eq→eq x y, text_lt_asymm x y)

-- A packet and its answer have the same key.
pub conn_id_symm : (a b : Endpoint) → conn_id a b ≡ conn_id b a
unfolding conn_id
conn_id_symm a b = ground (arith, endpoint_le_total a b, endpoint_le_antisymm a b)

pub conn_id_ordered : (a b : Endpoint) → endpoint_le (conn_id a b).0 (conn_id a b).1 ≡ true
unfolding conn_id
conn_id_ordered a b = ground (arith, endpoint_le_total a b)

pub id_eq_refl : (k : ConnId) → id_eq k k ≡ true
unfolding id_eq
id_eq_refl ((x, m), (y, n)) = ground (arith, list_eq_refl x, list_eq_refl y)

pub id_eq→eq : (k j : ConnId) → id_eq k j ≡ true → k ≡ j
unfolding id_eq
id_eq→eq (a, b) (c, d) h = ground (arith, endpoint_eq→eq a c, endpoint_eq→eq b d)
