-- ===== src/Dns/Spelling/Reading.antt =====
-- unpack_name of dpkt/dns.py reads a name that the buffer spells.
use mathlib.Core.List.{append_assoc, append-nil}
use dpkt_ng.Base.{
  ℕ, zero, suc, ◌+◌, ◌-◌, ◌<◌, ◌≤◌, ◌==◌, ◌≡◌, refl, sym, ap, ◌∙◌, true, List, [], ◌∷◌, ◌++◌,
  if◌then◌else◌, length, arith,
}
use dpkt_ng.Base.Results.{returns, ◌>>=◌}
use dpkt_ng.Dns.Utf8.{is_utf8}
use dpkt_ng.Dns.Names.{
  Label, Walk, leave, go, walk_round, walk, start_walk, finish_walk, join_dots, label_key,
  unpack_name,
}
use dpkt_ng.Dns.Keys.{with_root, length-key}
use dpkt_ng.Dns.Ending.{then_walk, walk-suc}
use dpkt_ng.Dns.Spelling.{Spells, root, label, pointer, round_root, round_label, round_pointer}

abbrev walk_at : ℕ → ℕ → List Label → ℕ → ℕ → Walk
walk_at start off name saved_off name_length = record {
  off = off;
  name = name;
  saved_off = saved_off;
  start_off = start;
  name_length = name_length;
}

-- The offset that unpack_name returns
abbrev behind : ℕ → ℕ → ℕ
behind saved_off end = if saved_off == 0 then end else saved_off

-- The loop leaves with the labels added.
record Reads (buf : List ℕ) (fuel : ℕ) (w : Walk) (name : List Label) (end : ℕ) : Type 0 where
  left : Walk
  returned : walk fuel buf w ≡ returns left
  names : left.name ≡ name
  ends : behind left.saved_off left.off ≡ end

leave-Reads :
    {buf : List ℕ} {fuel : ℕ} {w w' : Walk} {name : List Label} {end : ℕ}
    → walk_round buf w ≡ leave w'
    → w'.name ≡ name
    → behind w'.saved_off w'.off ≡ end
    → Reads buf (suc fuel) w name end
leave-Reads {buf} {fuel} {w} {w'} r n b = record {
  left = w';
  returned = walk-suc fuel buf w ∙ ap (then_walk (walk fuel buf)) r;
  names = n;
  ends = b;
}

go-Reads :
    {buf : List ℕ} {fuel : ℕ} {w w' : Walk} {name name' : List Label} {end end' : ℕ}
    → walk_round buf w ≡ go w'
    → Reads buf fuel w' name end
    → name ≡ name'
    → end ≡ end'
    → Reads buf (suc fuel) w name' end'
go-Reads {buf} {fuel} {w} r rest n b = record {
  left = rest.left;
  returned = walk-suc fuel buf w ∙ ap (then_walk (walk fuel buf)) r ∙ rest.returned;
  names = rest.names ∙ n;
  ends = rest.ends ∙ b;
}

saved_once :
    (saved_off off end : ℕ) → behind (behind saved_off (off + 2)) end ≡ behind saved_off (off + 2)
saved_once saved_off off end = ground arith

walk-Spells :
    (fuel : ℕ) {buf : List ℕ} {start off : ℕ} {ls : List Label} {end : ℕ}
    → Spells buf start off ls end
    → (name : List Label) (saved_off name_length : ℕ)
    → name_length + length (label_key (with_root ls)) ≤ 255
    → start + (255 - name_length) < fuel
    → Reads buf fuel
        (walk_at start off name saved_off name_length)
        (name ++ ls)
        (behind saved_off end)
walk-Spells zero s name saved_off name_length h f = absurd (omega arith)
walk-Spells (suc fuel) {off} (root a) name saved_off name_length h f =
    leave-Reads (round_root (walk_at _ off name saved_off name_length) a) (sym (append-nil name))
      refl
walk-Spells (suc fuel) {off} (label l {ls} p q a s) name saved_off name_length h f =
    let longer : name_length + (length l + 1) + length (label_key (with_root ls)) ≤ 255 =
      omega (arith, length-key l ls) in
    go-Reads (round_label (walk_at _ off name saved_off name_length) l p q a (omega arith))
      (walk-Spells fuel s (name ++ (l ∷ [])) saved_off (name_length + (length l + 1)) longer
        (omega arith))
      (append_assoc name (l ∷ []) ls) refl
walk-Spells (suc fuel) {off} (pointer p {end} q r a s) name saved_off name_length h f =
    go-Reads (round_pointer (walk_at _ off name saved_off name_length) p q r a)
      (walk-Spells fuel s name (behind saved_off (off + 2)) name_length h (omega arith)) refl
      (saved_once saved_off off end)

-- Where the buffer spells labels below the offset, whose names fit and are UTF-8
pub unpack_name-Spells :
    {buf : List ℕ} {off : ℕ} {ls : List Label} {end : ℕ}
    → Spells buf off off ls end
    → length (label_key (with_root ls)) ≤ 255
    → is_utf8 (join_dots ls) ≡ true
    → unpack_name buf off ≡ returns (join_dots ls, end)
unfolding unpack_name start_walk finish_walk
unpack_name-Spells {buf} {off} s h u =
    let r = walk-Spells (off + 256) s [] 0 0 (omega (arith, h)) (omega arith) in
    ap (λ o. o >>= finish_walk) r.returned ∙ ground (arith, ap join_dots r.names)
