-- ===== src/Tftp/Items.antt =====
-- The options of TFTP of dpkt/tftp.py: what is written is read again, and what is read can be written.
use dpkt_ng.Base.{
  ℕ, suc, ◌<◌, ◌==◌, ◌≡◌, refl, sym, ap, subst, ◌∙◌, Bool, true, false, ◌||◌, Bool-cases, inl, inr,
  List, [], ◌∷◌, ◌++◌, list_eq, if◌then◌else◌, length, arith,
}
use mathlib.Core.List.{append_assoc, append-nil}
use dpkt_ng.Base.Results.{returns}
use dpkt_ng.Base.Split.{Plain, AllPlain}
use dpkt_ng.Tftp.{
  Options, set_option, has_option, read_orphan, read_options, read_pairs, item_parts,
}

abbrev pub is_known : List ℕ → List (List ℕ) → Bool
is_known key [] = false
is_known key (k ∷ keys) = list_eq k key || is_known key keys

-- Items with keys that are not empty, not in `keys` and all different, without 0 in a key or a value
abbrev pub AreItems : List (List ℕ) → Options → Type 0
AreItems keys [] = Unit
AreItems keys ((k, v) ∷ options) =
    (0 < length k) × (is_known k keys ≡ false) × Plain k × Plain v × AreItems (k ∷ keys) options

pub item_parts-AllPlain :
    (keys : List (List ℕ)) (options : Options)
    → AreItems keys options
    → AllPlain (item_parts options)
unfolding item_parts
item_parts-AllPlain keys [] a = tt
item_parts-AllPlain keys ((k, v) ∷ options) a =
    (a.2, (a.3, item_parts-AllPlain (k ∷ keys) options (a.4)))

set_option_new :
    (key val : List ℕ) (options : Options)
    → has_option key options ≡ false
    → set_option key val options ≡ options ++ ((key, val) ∷ [])
unfolding set_option has_option
set_option_new key val [] h = refl
set_option_new key val ((k, v) ∷ options) h = ground (arith, set_option_new key val options)

has_option-append :
    (key k v : List ℕ) (options : Options)
    → has_option key (options ++ ((k, v) ∷ [])) ≡ (list_eq k key || has_option key options)
unfolding has_option
has_option-append key k v [] = refl
has_option-append key k v ((k', v') ∷ options) = ground (arith, has_option-append key k v options)

set_option-AreItems :
    (key val : List ℕ) (keys : List (List ℕ)) (options : Options)
    → 0 < length key
    → Plain key
    → Plain val
    → is_known key keys ≡ false
    → AreItems keys options
    → AreItems keys (set_option key val options)
unfolding set_option
set_option-AreItems key val keys [] l p q n a = (l, n, p, q, tt)
set_option-AreItems key val keys ((k, v) ∷ options) l p q n a = elim (Bool-cases (list_eq k key)) [
  | inl e ↦
      subst
        (λ b. AreItems keys (if b then (k, val) ∷ options else (k, v) ∷ set_option key val options))
        (sym e) (a.0, a.1, a.2, q, a.4)
  | inr e ↦
      subst
        (λ b. AreItems keys (if b then (k, val) ∷ options else (k, v) ∷ set_option key val options))
        (sym e)
        (
          a.0,
          a.1,
          a.2,
          a.3,
          set_option-AreItems key val (k ∷ keys) options l p q (ground arith) (a.4),
        )
]

-- One turn of the loops, on a key that is new and on any key
set_next_new :
    (key val : List ℕ) (before : Options)
    → 0 < length key
    → has_option key before ≡ false
    → (if length key == 0 then before else set_option key val before) ≡ before ++ ((key, val) ∷ [])
set_next_new key val before l h = ground (arith, set_option_new key val before h)

set_next-AreItems :
    (key val : List ℕ) (before : Options)
    → Plain key
    → Plain val
    → AreItems [] before
    → AreItems [] (if length key == 0 then before else set_option key val before)
set_next-AreItems [] val before p q a = a
set_next-AreItems (c ∷ key) val before p q a =
    subst (λ b. AreItems [] (if b then before else set_option (c ∷ key) val before))
      (sym (not_empty (length key)))
      (set_option-AreItems (c ∷ key) val [] before (omega arith) p q refl a)
  where
    not_empty : (n : ℕ) → (suc n == 0) ≡ false
    not_empty n = ground arith

covers_next :
    (k v : List ℕ) (keys : List (List ℕ)) (before : Options)
    → ((key : List ℕ) → is_known key keys ≡ has_option key before)
    → (key : List ℕ) → is_known key (k ∷ keys) ≡ has_option key (before ++ ((k, v) ∷ []))
covers_next k v keys before c key =
    ap (λ b. list_eq k key || b) (c key) ∙ sym (has_option-append key k v before)

pub read_options-item_parts :
    (keys : List (List ℕ)) (options before : Options)
    → ((key : List ℕ) → is_known key keys ≡ has_option key before)
    → AreItems keys options
    → read_options false (item_parts options ++ ([] ∷ [])) before ≡ returns (before ++ options)
unfolding read_options read_orphan item_parts
read_options-item_parts keys [] before c a = ap returns (sym (append-nil before))
read_options-item_parts keys ((k, v) ∷ options) before c a =
    ap (read_options false (item_parts options ++ ([] ∷ [])))
      (set_next_new k v before (a.0) (sym (c k) ∙ a.1))
    ∙ read_options-item_parts (k ∷ keys) options (before ++ ((k, v) ∷ []))
        (covers_next k v keys before c) (a.4)
    ∙ ap returns (append_assoc before ((k, v) ∷ []) options)

pub read_pairs-item_parts :
    (keys : List (List ℕ)) (options before : Options)
    → ((key : List ℕ) → is_known key keys ≡ has_option key before)
    → AreItems keys options
    → read_pairs (item_parts options ++ ([] ∷ [])) before ≡ before ++ options
unfolding read_pairs item_parts
read_pairs-item_parts keys [] before c a = sym (append-nil before)
read_pairs-item_parts keys ((k, v) ∷ options) before c a =
    ap (read_pairs (item_parts options ++ ([] ∷ [])))
      (set_next_new k v before (a.0) (sym (c k) ∙ a.1))
    ∙ read_pairs-item_parts (k ∷ keys) options (before ++ ((k, v) ∷ []))
        (covers_next k v keys before c) (a.4)
    ∙ append_assoc before ((k, v) ∷ []) options

pub read_pairs-AreItems :
    (parts : List (List ℕ)) (before : Options)
    → AllPlain parts
    → AreItems [] before
    → AreItems [] (read_pairs parts before)
unfolding read_pairs
read_pairs-AreItems [] before p a = a
read_pairs-AreItems (key ∷ []) before p a = a
read_pairs-AreItems (key ∷ val ∷ parts) before p a =
    read_pairs-AreItems parts (if length key == 0 then before else set_option key val before)
      (p.1.1) (set_next-AreItems key val before (p.0) (p.1.0) a)

read_orphan-AreItems :
    (key : List ℕ) (before : Options)
    → Plain key
    → AreItems [] before
    → (options : Options) × (read_orphan false key before ≡ returns options) × AreItems [] options
unfolding read_orphan
read_orphan-AreItems key before p a = elim (Bool-cases (has_option key before)) [
  | inl e ↦ (before, known (length key == 0) e, a)
  | inr e ↦ (
    if length key == 0 then before else set_option key [] before,
    new (length key == 0) e,
    set_next-AreItems key [] before p tt a,
  )
]
  where
    known :
        (b : Bool)
        → has_option key before ≡ true
        → (if b || has_option key before
            then returns before
            else returns (set_option key [] before))
          ≡ returns before
    known b e = ground arith

    new :
        (b : Bool)
        → has_option key before ≡ false
        → (if b || has_option key before
            then returns before
            else returns (set_option key [] before))
          ≡ returns (if b then before else set_option key [] before)
    new b e = ground arith

pub read_options-AreItems :
    (parts : List (List ℕ)) (before : Options)
    → AllPlain parts
    → AreItems [] before
    → (options : Options) × (read_options false parts before ≡ returns options)
      × AreItems [] options
unfolding read_options
read_options-AreItems [] before p a = (before, refl, a)
read_options-AreItems (key ∷ []) before p a = read_orphan-AreItems key before (p.0) a
read_options-AreItems (key ∷ val ∷ parts) before p a =
    read_options-AreItems parts (if length key == 0 then before else set_option key val before)
      (p.1.1) (set_next-AreItems key val before (p.0) (p.1.0) a)
