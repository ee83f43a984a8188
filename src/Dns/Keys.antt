-- ===== src/Dns/Keys.antt =====
-- The keys of label_ptrs in dpkt/dns.py: what the upper-case text of a name's labels says of the name.
use mathlib.Core.List.{append_assoc}
use dpkt_ng.Base.{
  ℕ, zero, suc, ◌+◌, ◌-◌, ◌≤◌, ◌≡◌, ◌==◌, refl, sym, ap, ap₂, ◌∙◌, Bool, false, Bool-cases,
  Option-cases, inl, inr, List, [], ◌∷◌, ◌++◌, ==_iff, if◌then◌else◌, length, length-append,
  length-map, take, Option, none, some, arith,
}
use dpkt_ng.Base.Bytes.{take-append_length}
use dpkt_ng.Dns.Utf8.{utf8_lead, utf8_from, is_utf8}
use dpkt_ng.Dns.Names.{
  Label, add_first, split_dots, join_dots, upper_byte, upper, label_key, name_labels,
}

-- The labels of a name, and what pack_name appends: the root's
abbrev pub with_root : List Label → List Label
with_root ls = ls ++ ([] ∷ [])

abbrev pub labels_of : List ℕ → List Label
labels_of [] = []
labels_of (c ∷ rest) = split_dots (c ∷ rest)

pub name_labels-with_root : (name : List ℕ) → name_labels name ≡ with_root (labels_of name)
unfolding name_labels
name_labels-with_root [] = refl
name_labels-with_root (c ∷ rest) = refl

join-add_first : (c : ℕ) (ls : List Label) → join_dots (add_first c ls) ≡ c ∷ join_dots ls
unfolding join_dots add_first
join-add_first c [] = refl
join-add_first c (l ∷ []) = refl
join-add_first c (l ∷ m ∷ ls) = refl

abbrev NotEmpty : List Label → Type 0
NotEmpty ls = (a : Label) × (rest : List Label) × (ls ≡ a ∷ rest)

add_first-NotEmpty : (c : ℕ) (ls : List Label) → NotEmpty (add_first c ls)
unfolding add_first
add_first-NotEmpty c [] = (_, _, refl)
add_first-NotEmpty c (l ∷ ls) = (_, _, refl)

split_dots-NotEmpty : (name : List ℕ) → NotEmpty (split_dots name)
unfolding split_dots
split_dots-NotEmpty [] = ([], [], refl)
split_dots-NotEmpty (c ∷ rest) = elim (Bool-cases (c == 46)) [
  | inl h ↦ ([], split_dots rest, rw h)
  | inr h ↦ let (a, ls, e) = add_first-NotEmpty c (split_dots rest) in (a, ls, rw (h, e))
]

join-nil : (ls : List Label) → NotEmpty ls → join_dots ([] ∷ ls) ≡ 46 ∷ join_dots ls
unfolding join_dots
join-nil ls (a, rest, e) = ap (λ t. join_dots ([] ∷ t)) e ∙ sym (ap (λ t. 46 ∷ join_dots t) e)

join-split : (name : List ℕ) → join_dots (split_dots name) ≡ name
unfolding split_dots join_dots
join-split [] = refl
join-split (c ∷ rest) = elim (Bool-cases (c == 46)) [
  | inl h ↦
      ap (λ b. join_dots (if b then [] ∷ split_dots rest else add_first c (split_dots rest))) h
      ∙ join-nil (split_dots rest) (split_dots-NotEmpty rest)
      ∙ ap₂ (λ x t. x ∷ t) (sym ((==_iff c 46).0 h)) (join-split rest)
  | inr h ↦
      ap (λ b. join_dots (if b then [] ∷ split_dots rest else add_first c (split_dots rest))) h
      ∙ join-add_first c (split_dots rest)
      ∙ ap (λ t. c ∷ t) (join-split rest)
]

pub join-labels_of : (name : List ℕ) → join_dots (labels_of name) ≡ name
unfolding join_dots
join-labels_of [] = refl
join-labels_of (c ∷ rest) = join-split (c ∷ rest)

pub upper-append : (xs ys : List ℕ) → upper (xs ++ ys) ≡ upper xs ++ upper ys
unfolding upper
upper-append [] ys = refl
upper-append (x ∷ xs) ys = ap (λ t. upper_byte x ∷ t) (upper-append xs ys)

upper-take : (n : ℕ) (xs : List ℕ) → upper (take n xs) ≡ take n (upper xs)
unfolding upper
upper-take zero xs = refl
upper-take (suc n) [] = refl
upper-take (suc n) (x ∷ xs) = ap (λ t. upper_byte x ∷ t) (upper-take n xs)

-- The key of a label and what follows it
pub join-cons :
    (l : Label) (ls : List Label)
    → join_dots (with_root (l ∷ ls)) ≡ l ++ (46 ∷ join_dots (with_root ls))
unfolding join_dots
join-cons l [] = refl
join-cons l (m ∷ ls) = refl

pub key-cons :
    (l : Label) (ls : List Label)
    → label_key (with_root (l ∷ ls)) ≡ upper l ++ (46 ∷ label_key (with_root ls))
unfolding label_key upper upper_byte
key-cons l ls = ap upper (join-cons l ls) ∙ upper-append l (46 ∷ join_dots (with_root ls))

pub length-key :
    (l : Label) (ls : List Label)
    → length (label_key (with_root (l ∷ ls))) ≡ length l + suc (length (label_key (with_root ls)))
unfolding upper
length-key l ls =
    ap length (key-cons l ls)
    ∙ length-append (upper l) _
    ∙ ap (λ n. n + suc (length (label_key (with_root ls)))) (length-map l upper_byte)

-- A name is its key's text less the last dot.
join-last :
    (l : Label) (ls : List Label) → join_dots (with_root (l ∷ ls)) ≡ join_dots (l ∷ ls) ++ (46 ∷ [])
unfolding join_dots
join-last l [] = refl
join-last l (m ∷ ls) =
    ap (λ t. l ++ (46 ∷ t)) (join-last m ls)
    ∙ sym (append_assoc l (46 ∷ join_dots (m ∷ ls)) (46 ∷ []))

join-take :
    (ls : List Label)
    → join_dots ls ≡ take (length (join_dots (with_root ls)) - 1) (join_dots (with_root ls))
unfolding join_dots
join-take [] = refl
join-take (l ∷ ls) =
    last_off (join_dots (l ∷ ls)) ∙ ap (λ t. take (length t - 1) t) (sym (join-last l ls))
  where
    last_off : (x : List ℕ) → x ≡ take (length (x ++ (46 ∷ [])) - 1) (x ++ (46 ∷ []))
    last_off x =
        sym (take-append_length x (46 ∷ []))
        ∙ ap (λ n. take n (x ++ (46 ∷ []))) (omega (arith, length-append x (46 ∷ [])))

pub key-name :
    (ls ls' : List Label)
    → label_key (with_root ls) ≡ label_key (with_root ls')
    → upper (join_dots ls) ≡ upper (join_dots ls')
unfolding label_key upper
key-name ls ls' h = of_key ls ∙ ap (λ k. take (length k - 1) k) h ∙ sym (of_key ls')
  where
    of_key :
        (ls : List Label)
        → upper (join_dots ls)
          ≡ take (length (label_key (with_root ls)) - 1) (label_key (with_root ls))
    of_key ls =
        ap upper (join-take ls)
        ∙ upper-take (length (join_dots (with_root ls)) - 1) (join_dots (with_root ls))
        ∙ ap (λ n. take (n - 1) (label_key (with_root ls)))
            (sym (length-map (join_dots (with_root ls)) upper_byte))

-- Upper case changes no byte of a character that is longer than one.
lead-upper : (b : ℕ) → utf8_lead (upper_byte b) ≡ utf8_lead b
unfolding utf8_lead upper_byte
lead-upper b = ground arith

lead_low : (b : ℕ) (p : ℕ × ℕ × ℕ) → utf8_lead b ≡ some p → 0x80 ≤ p.1
unfolding utf8_lead
lead_low b p h = ground arith

abbrev after_lead : Option (ℕ × ℕ × ℕ) → List ℕ → Bool
after_lead none bs = false
after_lead (some (n, low, high)) bs = utf8_from n low high bs

utf8_from_lead :
    (low high b : ℕ) (bs : List ℕ) → utf8_from 0 low high (b ∷ bs) ≡ after_lead (utf8_lead b) bs
unfolding utf8_from
utf8_from_lead low high b bs = elim (Option-cases (utf8_lead b)) [
  | inl e ↦ rw (utf8_from, e)
  | inr (p, e) ↦ rw (utf8_from, e)
]

utf8_from-upper :
    (n low high : ℕ) (bs : List ℕ)
    → 0x80 ≤ low
    → utf8_from n low high (upper bs) ≡ utf8_from n low high bs
unfolding upper upper_byte utf8_from
utf8_from-upper n low high [] h = refl
utf8_from-upper zero low high (b ∷ bs) h =
    utf8_from_lead low high (upper_byte b) (upper bs)
    ∙ ap (λ o. after_lead o (upper bs)) (lead-upper b)
    ∙ (elim (Option-cases (utf8_lead b)) [
      | inl e ↦ ap (λ o. after_lead o (upper bs)) e ∙ sym (ap (λ o. after_lead o bs) e)
      | inr (p, e) ↦
          ap (λ o. after_lead o (upper bs)) e
          ∙ utf8_from-upper (p.0) (p.1) (p.2) bs (lead_low b p e)
          ∙ sym (ap (λ o. after_lead o bs) e)
    ])
    ∙ sym (utf8_from_lead low high b bs)
utf8_from-upper (suc n) low high (b ∷ bs) h =
    ground (arith, utf8_from-upper n 0x80 0xbf bs (omega arith))

pub is_utf8-upper : (bs : List ℕ) → is_utf8 (upper bs) ≡ is_utf8 bs
unfolding is_utf8
is_utf8-upper bs = utf8_from-upper 0 0x80 0xbf bs (omega arith)

length_join : (ls : List Label) → length (join_dots (with_root ls)) ≤ length (join_dots ls) + 1
unfolding join_dots
length_join [] = omega arith
length_join (l ∷ ls) =
    omega (arith, ap length (join-last l ls), length-append (join_dots (l ∷ ls)) (46 ∷ []))

pub length_key_name :
    (name : List ℕ) → length (label_key (with_root (labels_of name))) ≤ length name + 1
unfolding label_key upper
length_key_name name = omega (
  arith,
  length-map (join_dots (with_root (labels_of name))) upper_byte,
  length_join (labels_of name),
  ap length (join-labels_of name),
)
