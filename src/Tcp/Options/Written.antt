-- ===== src/Tcp/Options/Written.antt =====
-- parse_opts of dpkt/tcp.py ends, and reads options that were written one after the other.
use dpkt_ng.Base.{
  ℕ, zero, suc, ◌+◌, ◌-◌, ◌≤◌, max, some, List, [], ◌∷◌, ◌++◌, map, ltb, if◌then◌else◌, length,
  length-drop, drop, take, All, ◌≡◌, refl, ap, ap₂, ◌∙◌, arith,
}
use native.Mathlib.Decide.{dec_lt}
use dpkt_ng.Base.Bytes.{slice, take-append_length, drop-append_length}
use dpkt_ng.Base.Results.{returns, ◌>>=◌}
use dpkt_ng.Tcp.Options.{Entry, sized_option, read_option, parse_opts_from, parse_opts}

-- A round leaves less than it had.
sized_option_shorter : (o : ℕ) (rest : List ℕ) → length (sized_option o rest).1 ≤ length rest
unfolding sized_option
sized_option_shorter o [] = omega arith
sized_option_shorter o (l ∷ rest) = omega (arith, length-drop (max 2 l) (o ∷ l ∷ rest))

read_option_shorter : (o : ℕ) (rest : List ℕ) → length (read_option o rest).1 ≤ length rest
unfolding read_option
read_option_shorter o rest = ground (arith, sized_option_shorter o rest)

from_returns :
    (fuel : ℕ) (buf : List ℕ)
    → length buf ≤ fuel
    → (opts : List Entry) × (parse_opts_from fuel buf ≡ returns opts)
unfolding parse_opts_from
from_returns fuel [] h = ([], refl)
from_returns zero (o ∷ rest) h = absurd (omega arith)
from_returns (suc fuel) (o ∷ rest) h =
    let (opts, e) =
      from_returns fuel (read_option o rest).1 (omega (arith, read_option_shorter o rest)) in
    (
      (read_option o rest).0 ∷ opts,
      ap (λ r. r >>= λ opts. returns ((read_option o rest).0 ∷ opts)) e,
    )

-- parse_opts returns for every buffer.
pub parse_opts_returns : (buf : List ℕ) → (opts : List Entry) × (parse_opts buf ≡ returns opts)
unfolding parse_opts
parse_opts_returns buf = from_returns (length buf) buf (omega arith)

-- The bytes of an option as RFC 9293 lays it out
unfoldable pub option_bytes : ℕ → List ℕ → List ℕ
option_bytes o data' = if ltb 1 o then o ∷ (length data' + 2) ∷ data' else o ∷ []

unfoldable pub options_bytes : List (ℕ × List ℕ) → List ℕ
options_bytes [] = []
options_bytes ((o, data') ∷ ps) = option_bytes o data' ++ options_bytes ps

sized_written :
    (o : ℕ) (d more : List ℕ) → sized_option o ((length d + 2) ∷ (d ++ more)) ≡ (some (o, d), more)
unfolding sized_option
sized_written o d more =
    let l : max 2 (length d + 2) ≡ suc (suc (length d + 0)) = omega arith in
    ap
      (λ l. (
        some (o, slice 2 l (o ∷ (length d + 2) ∷ (d ++ more))),
        drop l (o ∷ (length d + 2) ∷ (d ++ more)),
      ))
      l
    ∙ ap₂ (λ a b. (some (o, a), b)) (data_there) (drop-append_length 0 d more)
  where
    two_less : suc (suc (length d + 0)) - 2 ≡ length d
    two_less = omega arith

    data_there : take (suc (suc (length d + 0)) - 2) (d ++ more) ≡ d
    data_there = ap (λ k. take k (d ++ more)) two_less ∙ take-append_length d more

-- One round on an option that was written
round_written :
    (o : ℕ) (d more : List ℕ)
    → (o ≤ 1 → d ≡ [])
    → (o' : ℕ) × (rest : List ℕ) × (option_bytes o d ++ more ≡ o' ∷ rest)
      × (read_option o' rest ≡ (some (o, d), more))
unfolding option_bytes read_option
round_written o d more h = elim (dec_lt 1 o) [
  | yes sized ↦
      (o, (length d + 2) ∷ (d ++ more), ground arith, ground (arith, sized_written o d more))
  | no plain ↦ (o, more, ground arith, let none_left = h (omega arith) in ground arith)
]

next_round :
    (fuel o : ℕ) (rest more : List ℕ) (entry : Entry) (opts : List Entry)
    → read_option o rest ≡ (entry, more)
    → suc (length rest) ≤ fuel
    → ((f : ℕ) → length more ≤ f → parse_opts_from f more ≡ returns opts)
    → parse_opts_from fuel (o ∷ rest) ≡ returns (entry ∷ opts)
unfolding parse_opts_from
next_round zero o rest more entry opts r l read = absurd (omega arith)
next_round (suc fuel) o rest more entry opts r l read =
    ap (λ round. parse_opts_from fuel round.1 >>= λ opts. returns (round.0 ∷ opts)) r
    ∙ ap (λ l. l >>= λ opts. returns (entry ∷ opts))
        (read fuel (omega (arith, read_option_shorter o rest, ap (λ round. length round.1) r)))

-- With fuel for every byte
from_written :
    (ps : List (ℕ × List ℕ))
    → All (λ p. p.0 ≤ 1 → p.1 ≡ []) ps
    → (fuel : ℕ) → length (options_bytes ps) ≤ fuel
    → parse_opts_from fuel (options_bytes ps) ≡ returns (map some ps)
unfolding options_bytes parse_opts_from
from_written [] h fuel l = refl
from_written ((o, d) ∷ ps) (hp, h) fuel l =
    let (o', rest, e, r) = round_written o d (options_bytes ps) hp in
    ap (parse_opts_from fuel) e
    ∙ next_round fuel o' rest (options_bytes ps) (some (o, d)) (map some ps) r
        (omega (arith, ap length e)) (from_written ps h)

-- Options laid out as RFC 9293 says, where those of type 0 and 1 have no data, are parsed to their
-- types and data in order.
pub parse_opts-options_bytes :
    (ps : List (ℕ × List ℕ))
    → All (λ p. p.0 ≤ 1 → p.1 ≡ []) ps
    → parse_opts (options_bytes ps) ≡ returns (map some ps)
unfolding parse_opts
parse_opts-options_bytes ps h = from_written ps h (length (options_bytes ps)) (omega arith)
