-- ===== src/Dns/Spelling.antt =====
-- What it means that a buffer spells a name, with compression pointers, and that unpack_name of dpkt/dns.py
-- reads it.
pub mod Reading
use Prim.Native.Nat.{bit_and}
use mathlib.Core.List.{append_assoc}
use dpkt_ng.Base.{
  ℕ, zero, suc, ◌+◌, ◌-◌, ◌*◌, ◌/◌, ◌%◌, ◌^◌, ◌<◌, ◌≤◌, ◌==◌, ◌≡◌, refl, sym, ap, ap₂, subst, ◌∙◌,
  Bool, true, false, List, [], ◌∷◌, ◌++◌, if◌then◌else◌, length, length-append, get_or, take, leb,
  ltb, arith,
}
use dpkt_ng.Base.Bits.{and_high, and_mask}
use dpkt_ng.Base.Bytes.{slice, slice_behind, be_value}
use dpkt_ng.Base.Results.{Outcome, returns, ◌>>=◌}
use dpkt_ng.Dns.Names.{
  Label, Walk, Round, leave, go, fail, follow_pointer, read_label, walk_byte, walk_round, walk,
  start_walk, finish_walk, join_dots, label_key,
}
use dpkt_ng.Dns.Keys.{with_root, length-key}
use dpkt_ng.Dns.Ending.{rounds_left, then_walk, walk-suc}

-- The bytes stand at the offset.
pub record At (buf : List ℕ) (off : ℕ) (bytes : List ℕ) : Type 0 where
  pub before : List ℕ
  pub after : List ℕ
  pub parts : buf ≡ before ++ (bytes ++ after)
  pub place : length before ≡ off

pub At-append :
    {buf : List ℕ} {off : ℕ} {bytes : List ℕ} (more : List ℕ)
    → At buf off bytes
    → At (buf ++ more) off bytes
At-append {bytes} more a = record {
  before = a.before;
  after = a.after ++ more;
  parts =
      ap (λ b. b ++ more) a.parts
      ∙ append_assoc a.before (bytes ++ a.after) more
      ∙ ap (λ b. a.before ++ b) (append_assoc bytes a.after more);
  place = a.place;
}

-- The two bytes of a pointer
abbrev pub pointer_form : ℕ → List ℕ
pointer_form p = (192 + p / 256) ∷ (p % 256) ∷ []

-- From the offset on the buffer spells the labels, with pointers below `start` and then each below the one
-- before it; `end` is behind the first pointer, or behind the root where there is none.
pub data Spells (buf : List ℕ) : ℕ → ℕ → List Label → ℕ → Type 0 where
  root : {start off : ℕ} → At buf off (0 ∷ []) → Spells buf start off [] (off + 1)
  label :
      {start off : ℕ} (l : Label) {ls : List Label} {end : ℕ}
      → 0 < length l
      → length l ≤ 63
      → At buf off (length l ∷ l)
      → Spells buf start (off + 1 + length l) ls end
      → Spells buf start off (l ∷ ls) end
  pointer :
      {start off : ℕ} (p : ℕ) {ls : List Label} {end : ℕ}
      → p < start
      → p < 2 ^ 14
      → At buf off (pointer_form p)
      → Spells buf p p ls end
      → Spells buf start off ls (off + 2)

pub Spells-append :
    {buf : List ℕ} {start off : ℕ} {ls : List Label} {end : ℕ} (more : List ℕ)
    → Spells buf start off ls end
    → Spells (buf ++ more) start off ls end
Spells-append more (root a) = root (At-append more a)
Spells-append more (label l h h' a s) = label l h h' (At-append more a) (Spells-append more s)
Spells-append more (pointer p h h' a s) = pointer p h h' (At-append more a) (Spells-append more s)

pub Spells-mono :
    {buf : List ℕ} {start start' off : ℕ} {ls : List Label} {end : ℕ}
    → start ≤ start'
    → Spells buf start off ls end
    → Spells buf start' off ls end
Spells-mono m (root a) = root a
Spells-mono m (label l h h' a s) = label l h h' a (Spells-mono m s)
Spells-mono m (pointer p h h' a s) = pointer p (omega arith) h' a s

get_or-append :
    (pre : List ℕ) (b : ℕ) (rest : List ℕ) → get_or (pre ++ (b ∷ rest)) (length pre) 0 ≡ b
get_or-append [] b rest = refl
get_or-append (x ∷ pre) b rest = get_or-append pre b rest

-- What the loop sees where bytes stand
At-byte :
    {buf : List ℕ} {off b : ℕ} {bs : List ℕ}
    → At buf off (b ∷ bs)
    → (get_or buf off 0 ≡ b) × (off + suc (length bs) ≤ length buf)
At-byte {b} {bs} a = (
  ap₂ (λ x i. get_or x i 0) a.parts (sym a.place) ∙ get_or-append a.before b (bs ++ a.after),
  omega (
    arith,
    ap length a.parts,
    a.place,
    length-append a.before (b ∷ (bs ++ a.after)),
    length-append bs a.after,
  ),
)

At-slice :
    {buf : List ℕ} {off : ℕ} (front bytes : List ℕ)
    → At buf off (front ++ bytes)
    → slice (off + length front) (off + length front + length bytes) buf ≡ bytes
At-slice {buf} {off} front bytes a =
    ap₂ (λ i b. slice i (i + length bytes) b) (omega (arith, a.place, length-append a.before front))
      the_parts
    ∙ slice_behind (a.before ++ front) bytes a.after refl
  where
    the_parts : buf ≡ a.before ++ front ++ (bytes ++ a.after)
    the_parts =
        a.parts
        ∙ ap (λ b. a.before ++ b) (append_assoc front bytes a.after)
        ∙ sym (append_assoc a.before front (bytes ++ a.after))

masked : (n : ℕ) → bit_and n 0xc0 ≡ n / 64 % 4 * 64
masked n = and_high 6 n 3 ∙ ap (λ d. d * 64) (and_mask 2 (n / 64))

pointed : (p : ℕ) → p < 2 ^ 14 → bit_and (be_value (pointer_form p)) 0x3fff ≡ p
unfolding be_value
pointed p h = and_mask 14 _ ∙ omega arith

module _ {buf : List ℕ} (w : Walk) where
  round-At : {b : ℕ} {bs : List ℕ} → At buf w.off (b ∷ bs) → walk_round buf w ≡ walk_byte b buf w
  unfolding walk_round
  round-At {b} {bs} a = ground (arith, At-byte a)

  pub round_root : At buf w.off (0 ∷ []) → walk_round buf w ≡ leave (record w { off = w.off + 1 })
  unfolding walk_byte
  round_root a = round-At a ∙ refl

  pub round_label :
      (l : Label)
      → 0 < length l
      → length l ≤ 63
      → At buf w.off (length l ∷ l)
      → w.name_length + (length l + 1) ≤ 255
      → walk_round buf w
        ≡ go (record w {
          off = w.off + 1 + length l;
          name = w.name ++ (l ∷ []);
          name_length = w.name_length + (length l + 1);
        })
  unfolding walk_byte read_label
  round_label l h h' a t =
      round-At a ∙ ground (arith, masked (length l), At-slice (length l ∷ []) l a)

  pub round_pointer :
      (p : ℕ)
      → p < w.start_off
      → p < 2 ^ 14
      → At buf w.off (pointer_form p)
      → walk_round buf w
        ≡ go (record w {
          off = p;
          start_off = p;
          saved_off = if w.saved_off == 0 then w.off + 2 else w.saved_off;
        })
  unfolding walk_byte follow_pointer
  round_pointer p h h' a =
      round-At a
      ∙ ground (arith, masked (192 + p / 256), At-slice [] (pointer_form p) a, At-byte a, pointed p)
