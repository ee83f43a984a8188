-- ===== src/Packet/Faults.antt =====
-- What the constructor of a class that checks no more than its header raises.
use dpkt_ng.Base.{
  ℕ, ◌≡◌, refl, Bool, true, false, ◌⊎◌, Bool-cases, inl, inr, ltb, List, if◌then◌else◌, length,
  drop, ap, subst, sym, ◌∙◌,
}
use dpkt_ng.Base.Results.{Outcome, returns, raises, need_data, unpack_error, struct_error, ◌>>=◌}
use dpkt_ng.Packet.Header.{Packet, hdr_len, field_values, unpack, init, init_failure}

-- Nothing else is raised.
abbrev pub OnlyNeedData {ℓ} : {A : Type ℓ} → Outcome A → Type 0
OnlyNeedData (returns a) = Unit
OnlyNeedData (raises e) = e ≡ need_data

pub bind-OnlyNeedData {ℓ κ} :
    {A : Type ℓ} {B : Type κ} (first : Outcome A) (next : A → Outcome B)
    → OnlyNeedData first
    → ((a : A) → OnlyNeedData (next a))
    → OnlyNeedData (first >>= next)
bind-OnlyNeedData (returns a) next h hn = hn a
bind-OnlyNeedData (raises e) next h hn = h

init-OnlyNeedData {ℓ} :
    {A : Type ℓ} (sizes buf : List ℕ) (o : Outcome A)
    → OnlyNeedData o
    → OnlyNeedData (init sizes buf o)
unfolding init init_failure
init-OnlyNeedData sizes buf (returns a) h = tt
init-OnlyNeedData sizes buf (raises e) h = ap (init_failure sizes buf) h

unpack-cases :
    (sizes buf : List ℕ)
    → ((ltb (length buf) (hdr_len sizes) ≡ true) × (unpack sizes buf ≡ raises struct_error))
      ⊎ ((p : Packet) × (unpack sizes buf ≡ returns p))
unfolding unpack
unpack-cases sizes buf = elim (Bool-cases (ltb (length buf) (hdr_len sizes))) [
  | inl e ↦ inl (e, rw e)
  | inr e ↦ inr (record { fields = field_values sizes buf; data' = drop (hdr_len sizes) buf }, rw e)
]

init_short {ℓ} :
    {A : Type ℓ} (sizes buf : List ℕ)
    → ltb (length buf) (hdr_len sizes) ≡ true
    → ◌≡◌ {A = Outcome A} (init sizes buf (raises struct_error)) (raises need_data)
unfolding init init_failure
init_short sizes buf e = ap (λ b. raises (if b then need_data else unpack_error)) e

-- A header that is read, and then what raises nothing but NeedData
pub header-OnlyNeedData {ℓ} :
    {A : Type ℓ} (sizes buf : List ℕ) (next : Packet → Outcome A)
    → ((p : Packet) → OnlyNeedData (next p))
    → OnlyNeedData (init sizes buf (unpack sizes buf >>= next))
header-OnlyNeedData sizes buf next h = elim (unpack-cases sizes buf) [
  | inl (e, r) ↦
      subst OnlyNeedData (sym (ap (λ o. init sizes buf (o >>= next)) r ∙ init_short sizes buf e))
        refl
  | inr (p, r) ↦
      subst OnlyNeedData (sym (ap (λ o. init sizes buf (o >>= next)) r))
        (init-OnlyNeedData sizes buf (next p) (h p))
]

pub if-OnlyNeedData {ℓ} :
    {A : Type ℓ} (b : Bool) (o o' : Outcome A)
    → OnlyNeedData o
    → (b ≡ false → OnlyNeedData o')
    → OnlyNeedData (if b then o else o')
if-OnlyNeedData true o o' h h' = h
if-OnlyNeedData false o o' h h' = h' refl
