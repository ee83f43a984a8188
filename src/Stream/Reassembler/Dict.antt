-- ===== src/Stream/Reassembler/Dict.antt =====
-- The connection table of dpkt/stream.py as a dict: lookup after put and remove, its length, and the
-- entry that `_evict_one` chooses.
use dpkt_ng.Base.{
  suc, ◌<◌, ◌≡◌, refl, ◌∙◌, Bool, true, false, ◌&&◌, ◌||◌, some, [], ◌∷◌, arith, inl, inr,
  Bool-cases, Option-cases, length, if◌then◌else◌,
}
use dpkt_ng.Base.Int.{ltb_ℤ}
use dpkt_ng.Stream.Counting.{is_some}
use dpkt_ng.Stream.Connection.{Connection, is_closed}
use dpkt_ng.Stream.Reassembler.{
  ConnId, id_eq, Table, lookup, put, remove, first_id, worst_from, waiting, victim, evict_one,
  holds_nothing,
}
use dpkt_ng.Stream.Reassembler.Keys.{id_eq_refl, id_eq→eq}

pub lookup-put :
    (k j : ConnId) (c : Connection) (t : Table)
    → lookup j (put k c t) ≡ (if id_eq k j then some c else lookup j t)
unfolding lookup put
lookup-put k j c [] = refl
lookup-put k j c ((i, d) ∷ rest) =
    ground (arith, id_eq→eq i k, id_eq→eq i j, id_eq→eq k j, id_eq_refl j, lookup-put k j c rest)

pub length-put :
    (k : ConnId) (c : Connection) (t : Table)
    → length (put k c t) ≡ (if is_some (lookup k t) then length t else suc (length t))
unfolding lookup put
length-put k c [] = refl
length-put k c ((i, d) ∷ rest) = ground (arith, length-put k c rest)

pub length-remove :
    (k : ConnId) (t : Table) → is_some (lookup k t) ≡ true → suc (length (remove k t)) ≡ length t
unfolding lookup remove
length-remove k [] h = cc
length-remove k ((i, d) ∷ rest) h = ground (arith, length-remove k rest)

pub lookup-remove_ne :
    (k j : ConnId) (t : Table) → id_eq k j ≡ false → lookup j (remove k t) ≡ lookup j t
unfolding lookup remove
lookup-remove_ne k j [] h = refl
lookup-remove_ne k j ((i, d) ∷ rest) h = ground (arith, id_eq→eq i k, lookup-remove_ne k j rest h)

-- k in connections
unfoldable pub has : ConnId → Table → Bool
has k [] = false
has k ((j, c) ∷ rest) = id_eq j k || has k rest

pub lookup-has : (k : ConnId) (t : Table) → is_some (lookup k t) ≡ has k t
unfolding lookup has
lookup-has k [] = refl
lookup-has k ((j, c) ∷ rest) = ground (arith, lookup-has k rest)

first_id-has :
    (p : Connection → Bool) (t : Table) (k : ConnId) → first_id p t ≡ some k → has k t ≡ true
unfolding first_id has
first_id-has p [] k h = cc
first_id-has p ((j, c) ∷ rest) k h = ground (arith, id_eq_refl j, first_id-has p rest k)

module _ (k j : ConnId) (c d : Connection) (rest : Table) where
  worst_moves :
      ltb_ℤ (waiting c) (waiting d) ≡ true → worst_from k c ((j, d) ∷ rest) ≡ worst_from j d rest
  unfolding worst_from
  worst_moves h = rw (h, worst_from)

  worst_stays :
      ltb_ℤ (waiting c) (waiting d) ≡ false → worst_from k c ((j, d) ∷ rest) ≡ worst_from k c rest
  unfolding worst_from
  worst_stays h = rw (h, worst_from)

has-cons : (x k : ConnId) (c : Connection) (t : Table) → has x ((k, c) ∷ t) ≡ (id_eq k x || has x t)
unfolding has
has-cons x k c t = refl

worst_from-has :
    (k : ConnId) (c : Connection) (t : Table) → has (worst_from k c t) ((k, c) ∷ t) ≡ true
worst_from-has k c [] = unfold worst_from has in rw (id_eq_refl k)
worst_from-has k c ((j, d) ∷ rest) = elim (Bool-cases (ltb_ℤ (waiting c) (waiting d))) [
  | inl more ↦
      let w : ConnId = worst_from j d rest in
      rw (worst_moves k j c d rest more)
        (ground (arith, worst_from-has j d rest, has-cons w k c ((j, d) ∷ rest)))
  | inr less ↦
      let w : ConnId = worst_from k c rest in
      rw (worst_stays k j c d rest less) (
        ground (
          arith,
          worst_from-has k c rest,
          has-cons w k c rest,
          has-cons w k c ((j, d) ∷ rest),
          has-cons w j d rest,
        ))
]

-- `_evict_one` finds an entry in every table that has one.
victim-has : (t : Table) → 0 < length t → (k : ConnId) × (victim t ≡ some k) × (has k t ≡ true)
unfolding victim
victim-has [] h = absurd (omega arith)
victim-has ((j, c) ∷ rest) h =
    let t : Table = (j, c) ∷ rest in
    elim (Option-cases (first_id (λ c. is_closed c && holds_nothing c) t)) [
      | inr (k, e) ↦ (k, rw e, first_id-has _ t k e)
      | inl none_done ↦ elim (Option-cases (first_id is_closed t)) [
        | inr (k, e) ↦ (k, rw (none_done, e), first_id-has _ t k e)
        | inl none_closed ↦
            (worst_from j c rest, rw (none_done, none_closed), worst_from-has j c rest)
      ]
    ]

-- Eviction takes exactly one connection out of a table that has any.
pub length-evict_one : (t : Table) → 0 < length t → suc (length (evict_one t)) ≡ length t
unfolding evict_one
length-evict_one t h =
    let (k, chosen, there) = victim-has t h in
    rw chosen (length-remove k t (lookup-has k t ∙ there))
