-- ===== src/Dns/Ending.antt =====
-- unpack_name of dpkt/dns.py ends, and what it raises.
use dpkt_ng.Base.{
  ℕ, zero, suc, ◌+◌, ◌-◌, ◌<◌, ◌≤◌, ◌≡◌, refl, subst, Bool, true, false, sym, List, arith, get_or,
}
use dpkt_ng.Base.Results.{
  Error, Outcome, returns, raises, need_data, unpack_error, pack_error, struct_error, index_error,
  unicode_error, attribute_error, type_error, stuck, ◌>>=◌,
}
use dpkt_ng.Dns.Names.{
  Walk, Round, leave, go, fail, follow_pointer, read_label, walk_byte, walk_round, walk, start_walk,
  finish_walk, unpack_name,
}

-- What a parser of this file raises before __init__ turns struct.error into one of dpkt's own
abbrev pub is_parse_fault : Error → Bool
is_parse_fault need_data = true
is_parse_fault unpack_error = true
is_parse_fault struct_error = true
is_parse_fault unicode_error = true
is_parse_fault pack_error = false
is_parse_fault index_error = false
is_parse_fault attribute_error = false
is_parse_fault type_error = false
is_parse_fault stuck = false

abbrev pub OnlyParseFaults {ℓ} : {A : Type ℓ} → Outcome A → Type 0
OnlyParseFaults (returns a) = Unit
OnlyParseFaults (raises e) = is_parse_fault e ≡ true

pub bind-OnlyParseFaults {ℓ κ} :
    {A : Type ℓ} {B : Type κ} (first : Outcome A) (next : A → Outcome B)
    → OnlyParseFaults first
    → ((a : A) → OnlyParseFaults (next a))
    → OnlyParseFaults (first >>= next)
bind-OnlyParseFaults (returns a) next h hn = hn a
bind-OnlyParseFaults (raises e) next h hn = h

-- What falls with every round that goes on
abbrev pub rounds_left : Walk → ℕ
rounds_left w = w.start_off + (255 - w.name_length)

abbrev Falls : Walk → Round → Type 0
Falls w (leave w') = Unit
Falls w (go w') = (rounds_left w' < rounds_left w) × (w'.name_length ≤ 255)
Falls w (fail e) = is_parse_fault e ≡ true

follow_pointer-Falls :
    (buf : List ℕ) (w : Walk) → w.name_length ≤ 255 → Falls w (follow_pointer buf w)
unfolding follow_pointer
follow_pointer-Falls buf w h = ground arith

read_label-Falls : (n : ℕ) (buf : List ℕ) (w : Walk) → Falls w (read_label n buf w)
unfolding read_label
read_label-Falls n buf w = ground arith

walk_round-Falls : (buf : List ℕ) (w : Walk) → w.name_length ≤ 255 → Falls w (walk_round buf w)
unfolding walk_round walk_byte
walk_round-Falls buf w h =
    ground (arith, follow_pointer-Falls buf w h, read_label-Falls (get_or buf w.off 0) buf w)

-- What walk does with a round
abbrev pub then_walk : (Walk → Outcome Walk) → Round → Outcome Walk
then_walk next (leave w') = returns w'
then_walk next (go w') = next w'
then_walk next (fail e) = raises e

pub walk-suc :
    (fuel : ℕ) (buf : List ℕ) (w : Walk)
    → walk (suc fuel) buf w ≡ then_walk (walk fuel buf) (walk_round buf w)
unfolding walk
walk-suc fuel buf w = elim (walk_round buf w) [ leave w' ↦ refl | go w' ↦ refl | fail e ↦ refl ]

then_walk-OnlyParseFaults :
    (next : Walk → Outcome Walk) (w : Walk) (r : Round)
    → Falls w r
    → ((w' : Walk)
        → w'.name_length ≤ 255
        → rounds_left w' < rounds_left w
        → OnlyParseFaults (next w'))
    → OnlyParseFaults (then_walk next r)
then_walk-OnlyParseFaults next w (leave w') f h = tt
then_walk-OnlyParseFaults next w (go w') f h = h w' (f.1) (f.0)
then_walk-OnlyParseFaults next w (fail e) f h = f

walk-OnlyParseFaults :
    (fuel : ℕ) (buf : List ℕ) (w : Walk)
    → w.name_length ≤ 255
    → rounds_left w < fuel
    → OnlyParseFaults (walk fuel buf w)
walk-OnlyParseFaults zero buf w h p = absurd (omega arith)
walk-OnlyParseFaults (suc fuel) buf w h p = subst OnlyParseFaults (sym (walk-suc fuel buf w)) (
    then_walk-OnlyParseFaults (walk fuel buf) w (walk_round buf w) (walk_round-Falls buf w h)
      (λ w' h' f. walk-OnlyParseFaults fuel buf w' h' (omega arith)))

finish_walk-OnlyParseFaults : (w : Walk) → OnlyParseFaults (finish_walk w)
unfolding finish_walk
finish_walk-OnlyParseFaults w = ground arith

-- For every buffer and offset, off + 256 rounds are enough: unpack_name returns, or raises NeedData,
-- UnpackError, struct.error or UnicodeDecodeError. A pointer leads to a smaller offset than the one before,
-- and a label uses up one or more of the 255 bytes of a name.
pub unpack_name-OnlyParseFaults : (buf : List ℕ) (off : ℕ) → OnlyParseFaults (unpack_name buf off)
unfolding unpack_name start_walk
unpack_name-OnlyParseFaults buf off =
    bind-OnlyParseFaults (walk (off + 256) buf (start_walk off)) finish_walk
      (walk-OnlyParseFaults (off + 256) buf (start_walk off) (omega arith) (omega arith))
      finish_walk-OnlyParseFaults
