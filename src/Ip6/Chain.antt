-- ===== src/Ip6/Chain.antt =====
-- The loop of IP6.unpack of dpkt/ip6.py over the extension headers.
use dpkt_ng.Base.{
  ℕ, zero, suc, ◌+◌, ◌-◌, ◌*◌, ◌<◌, ◌≤◌, ◌==◌, ◌≡◌, refl, sym, subst, Bool, true, false, Option,
  none, some, List, [], ◌∷◌, ltb, if◌then◌else◌, length, drop, length-drop, get_or, get_elem?,
  arith,
}
use dpkt_ng.Base.Results.{Outcome, returns, raises, need_data, ◌>>=◌}
use dpkt_ng.Packet.Header.{unpack, init, init_failure, hdr_len}
use dpkt_ng.Packet.Faults.{OnlyNeedData, bind-OnlyNeedData, header-OnlyNeedData, if-OnlyNeedData}
use dpkt_ng.Ip6.{
  Extension, options_header, routing_header, fragment_header, auth_header, esp_header, ext_length,
  ext_nxt, read_ip6_options, options_fields, options_init, routing_fields, routing_init,
  fragment_init, auth_init, esp_init, ext_parser, next_parser, read_chain,
}

guard-OnlyNeedData {ℓ} :
    {A : Type ℓ} (b : Bool) (o o' : Outcome A)
    → (b ≡ false → OnlyNeedData o)
    → (b ≡ true → OnlyNeedData o')
    → OnlyNeedData (elim b [ false ↦ o | true ↦ o' ])
guard-OnlyNeedData false o o' h h' = h refl
guard-OnlyNeedData true o o' h h' = h' refl

option-OnlyNeedData {ℓ κ} :
    {A : Type ℓ} {B : Type κ} (o : Option B) (a : Outcome A) (f : B → Outcome A)
    → OnlyNeedData a
    → ((b : B) → o ≡ some b → OnlyNeedData (f b))
    → OnlyNeedData (elim o [ none ↦ a | some b ↦ f b ])
option-OnlyNeedData none a f h h' = h
option-OnlyNeedData (some b) a f h h' = h' b refl

options-OnlyNeedData :
    (n : ℕ) (content : List ℕ) (index size : ℕ)
    → 0 < n
    → size < index + n
    → OnlyNeedData (read_ip6_options n content index size)
unfolding read_ip6_options
options-OnlyNeedData zero content index size l h = ground arith
options-OnlyNeedData (suc n) content index size l h =
    let ahead : ltb index (size - 2) ≡ true
        → (opt_length : ℕ)
        → OnlyNeedData (read_ip6_options n content (index + (opt_length + 2)) size) =
      λ e opt_length.
        options-OnlyNeedData n content (index + (opt_length + 2)) size (more e) (omega arith) in
    guard-OnlyNeedData (ltb index (size - 2)) _ _ (λ e. tt)
      λ e. option-OnlyNeedData (get_elem? content index) _ _ refl λ opt_type e'.
        guard-OnlyNeedData (opt_type == 0) _ _
          (λ e0. option-OnlyNeedData (get_elem? content (index + 1)) _ _ refl λ opt_length e1.
            if-OnlyNeedData (opt_type == 1) _ _ (ahead e opt_length) (λ e2.
              bind-OnlyNeedData (read_ip6_options n content (index + (opt_length + 2)) size) _
                (ahead e opt_length) (λ os. tt)))
          (λ e0. options-OnlyNeedData n content (index + 1) size (more e) (omega arith))
  where
    more : ltb index (size - 2) ≡ true → 0 < n
    more e = ground arith

options_init-OnlyNeedData : (buf : List ℕ) → OnlyNeedData (options_init buf)
unfolding options_init options_fields
options_init-OnlyNeedData buf = header-OnlyNeedData (1 ∷ 1 ∷ []) buf _ λ p.
    bind-OnlyNeedData
      (read_ip6_options (suc ((get_or p.fields 1 0 + 1) * 8)) p.data' 0
        ((get_or p.fields 1 0 + 1) * 8))
      _
      (options-OnlyNeedData (suc ((get_or p.fields 1 0 + 1) * 8)) p.data' 0
        ((get_or p.fields 1 0 + 1) * 8) (omega arith) (omega arith))
      (λ os. tt)

routing_init-OnlyNeedData : (buf : List ℕ) → OnlyNeedData (routing_init buf)
unfolding routing_init routing_fields
routing_init-OnlyNeedData buf = header-OnlyNeedData _ buf _ (λ p. tt)

fragment_init-OnlyNeedData : (buf : List ℕ) → OnlyNeedData (fragment_init buf)
unfolding fragment_init
fragment_init-OnlyNeedData buf = header-OnlyNeedData _ buf _ (λ p. tt)

auth_init-OnlyNeedData : (buf : List ℕ) → OnlyNeedData (auth_init buf)
unfolding auth_init
auth_init-OnlyNeedData buf = header-OnlyNeedData _ buf _ (λ p. tt)

esp_init-OnlyNeedData : (buf : List ℕ) → OnlyNeedData (esp_init buf)
unfolding esp_init
esp_init-OnlyNeedData buf = header-OnlyNeedData _ buf _ (λ p. tt)

-- Every header is at least eight bytes long.
ext_length_pos : (ext : Extension) → 8 ≤ ext_length ext
unfolding ext_length
ext_length_pos (options_header p os) = omega arith
ext_length_pos (routing_header p addresses) = omega arith
ext_length_pos (fragment_header p) = omega arith
ext_length_pos (auth_header p d) = omega arith
ext_length_pos (esp_header p) = omega arith

-- What the loop needs of a parser
abbrev IsParser : Option (List ℕ → Outcome Extension) → Type 0
IsParser none = Unit
IsParser (some parse) = ((buf : List ℕ) → OnlyNeedData (parse buf)) × (parse [] ≡ raises need_data)

if-IsParser :
    (b : Bool) (o o' : Option (List ℕ → Outcome Extension))
    → IsParser o
    → IsParser o'
    → IsParser (if b then o else o')
if-IsParser true o o' h h' = h
if-IsParser false o o' h h' = h'

next_parser-IsParser : (nxt : Option ℕ) → IsParser (next_parser nxt)
unfolding next_parser ext_parser options_init routing_init fragment_init auth_init esp_init init
    init_failure unpack hdr_len
next_parser-IsParser none = tt
next_parser-IsParser (some n) =
    if-IsParser (n == 0) _ _ (options_init-OnlyNeedData, refl)
      (if-IsParser (n == 43) _ _ (routing_init-OnlyNeedData, refl)
        (if-IsParser (n == 44) _ _ (fragment_init-OnlyNeedData, refl)
          (if-IsParser (n == 50) _ _ (esp_init-OnlyNeedData, refl)
            (if-IsParser (n == 51) _ _ (auth_init-OnlyNeedData, refl)
              (if-IsParser (n == 60) _ _ (options_init-OnlyNeedData, refl) tt)))))

-- The loop of IP6.unpack over the extension headers, with more fuel than there are bytes, ends for
-- any first header and any bytes: it returns or raises NeedData, whatever lengths the headers and
-- their options claim.
pub read_chain-OnlyNeedData :
    (n : ℕ) (nxt : Option ℕ) (buf : List ℕ) → length buf < n → OnlyNeedData (read_chain n nxt buf)
unfolding read_chain
read_chain-OnlyNeedData zero nxt buf h = ground arith
read_chain-OnlyNeedData (suc n) nxt [] h = option-OnlyNeedData (next_parser nxt) _ _ tt λ parse e.
    subst
      (λ o. OnlyNeedData {A = List Extension × Option ℕ × List ℕ} (
        o >>= λ ext.
        (read_chain n (ext_nxt ext) (drop (ext_length ext) []) >>= λ rest.
        returns (ext ∷ rest.0, rest.1, rest.2))))
      (sym ((subst IsParser e (next_parser-IsParser nxt)).1)) refl
read_chain-OnlyNeedData (suc n) nxt (b ∷ buf) h =
    option-OnlyNeedData (next_parser nxt) _ _ tt λ parse e.
      bind-OnlyNeedData (parse (b ∷ buf)) _
        ((subst IsParser e (next_parser-IsParser nxt)).0 (b ∷ buf))
        λ ext.
          bind-OnlyNeedData (read_chain n (ext_nxt ext) (drop (ext_length ext) (b ∷ buf))) _
            (read_chain-OnlyNeedData n (ext_nxt ext) (drop (ext_length ext) (b ∷ buf))
              (omega (arith, length-drop (ext_length ext) (b ∷ buf), ext_length_pos ext)))
            (λ rest. tt)
