-- ===== src/Stream/Connection/Directions.antt =====
-- merged_data of dpkt/stream.py's Connection, one direction at a time: the sort keeps the items of a
-- direction in their order, and the loop treats them as get_data does.
use dpkt_ng.Base.{
  ℕ, ◌≡◌, refl, ap, ◌∙◌, Bool, true, false, Option, List, [], ◌∷◌, ◌++◌, arith, All, inl, inr,
  Bool-cases, if◌then◌else◌,
}
use dpkt_ng.Base.Int.{ℤ}
use dpkt_ng.Stream.Connection.{
  Direction, to_server, to_client, Item, item_le, insert_item, sort_items, emit, Positions,
  position, set_position, merge_items,
}

abbrev pub same_direction : Direction → Direction → Bool
same_direction to_server to_server = true
same_direction to_server to_client = false
same_direction to_client to_server = false
same_direction to_client to_client = true

-- The items of one direction.
unfoldable pub of_direction : Direction → List Item → List Item
of_direction d [] = []
of_direction d (a ∷ rest) =
    if same_direction d a.direction then a ∷ of_direction d rest else of_direction d rest

-- The bytes of one direction among the pieces.
unfoldable pub bytes_of : Direction → List (Direction × List ℕ) → List ℕ
bytes_of d [] = []
bytes_of d ((e, bytes) ∷ rest) =
    if same_direction d e then bytes ++ bytes_of d rest else bytes_of d rest

abbrev pub IsOrdered : List Item → Type 0
IsOrdered [] = Unit
IsOrdered (a ∷ rest) = All (λ b. item_le a b ≡ true) rest × IsOrdered rest

module _ (d : Direction) (a : Item) where
  of_direction-insert_other :
      (l : List Item)
      → same_direction d a.direction ≡ false
      → of_direction d (insert_item a l) ≡ of_direction d l
  unfolding of_direction insert_item
  of_direction-insert_other [] h = rw h
  of_direction-insert_other (b ∷ rest) h = ground (arith, of_direction-insert_other rest h)

  of_direction-insert_same :
      (l : List Item)
      → same_direction d a.direction ≡ true
      → All (λ b. item_le a b ≡ true) (of_direction d l)
      → of_direction d (insert_item a l) ≡ a ∷ of_direction d l
  unfolding of_direction insert_item
  of_direction-insert_same [] h below = rw h
  of_direction-insert_same (b ∷ rest) h below = elim (Bool-cases (same_direction d b.direction)) [
    | inl own ↦
        let at_once : item_le a b ≡ true = (rw (own, of_direction) at below).0 in
        rw at_once (ground (arith, own))
    | inr other ↦
        let rest_below : All (λ b. item_le a b ≡ true) (of_direction d rest) =
          rw (other, of_direction) at below in
        ground (arith, of_direction-insert_same rest h rest_below)
  ]

pub of_direction-sort :
    (d : Direction) (l : List Item)
    → IsOrdered (of_direction d l)
    → of_direction d (sort_items l) ≡ of_direction d l
unfolding of_direction sort_items
of_direction-sort d [] h = refl
of_direction-sort d (a ∷ rest) h = elim (Bool-cases (same_direction d a.direction)) [
  | inl own ↦
      let ordered : IsOrdered (a ∷ of_direction d rest) = rw own at h in
      let ih : of_direction d (sort_items rest) ≡ of_direction d rest =
        of_direction-sort d rest ordered.1 in
      rw own
        (of_direction-insert_same d a (sort_items rest) own (rw ih ordered.0) ∙ ap (λ t. a ∷ t) ih)
  | inr other ↦ rw other (
      of_direction-insert_other d a (sort_items rest) other
      ∙ of_direction-sort d rest (rw other at h))
]

-- The loop on the items of one direction.
unfoldable pub emit_all : Bool → Option ℤ → List Item → List ℕ
emit_all fill p [] = []
emit_all fill p (a ∷ rest) = (emit fill p a).0 ++ emit_all fill (emit fill p a).1 rest

position-set :
    (d e : Direction) (v : Option ℤ) (p : Positions)
    → position d (set_position e v p) ≡ (if same_direction d e then v else position d p)
position-set to_server to_server v p = refl
position-set to_server to_client v p = refl
position-set to_client to_server v p = refl
position-set to_client to_client v p = refl

position-same :
    (d e : Direction) (p : Positions) → same_direction d e ≡ true → position e p ≡ position d p
position-same to_server to_server p h = refl
position-same to_server to_client p h = cc
position-same to_client to_server p h = cc
position-same to_client to_client p h = refl

pub bytes_of-merge_items :
    (d : Direction) (fill : Bool) (p : Positions) (l : List Item)
    → bytes_of d (merge_items fill p l) ≡ emit_all fill (position d p) (of_direction d l)
unfolding bytes_of merge_items of_direction emit_all
bytes_of-merge_items d fill p [] = refl
bytes_of-merge_items d fill p (a ∷ rest) =
    let (bytes, after) = emit fill (position a.direction p) a in
    let ih : bytes_of d (merge_items fill (set_position a.direction after p) rest)
        ≡ emit_all fill (position d (set_position a.direction after p)) (of_direction d rest) =
      bytes_of-merge_items d fill (set_position a.direction after p) rest in
    elim (Bool-cases (same_direction d a.direction)) [
      | inl own ↦ rw own (
          ground (arith, ih, position-set d a.direction after p, position-same d a.direction p own))
      | inr other ↦ rw other (ground (arith, ih, position-set d a.direction after p))
    ]
