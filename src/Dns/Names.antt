-- ===== src/Dns/Names.antt =====
-- pack_name and unpack_name of dpkt/dns.py. A text is the list of its UTF-8 bytes, so that encoding
-- is the identity and decoding refuses what is not UTF-8.
use Prim.Native.Nat.{bit_and, bit_or}
use dpkt_ng.Base.{
  ℕ, zero, suc, ◌+◌, ◌-◌, ◌&&◌, Option, none, some, List, [], ◌∷◌, ◌++◌, map, ltb, leb, ◌==◌,
  list_eq, if◌then◌else◌, length, get_or,
}
use dpkt_ng.Base.Bytes.{slice, be_value, be_bytes}
use dpkt_ng.Dns.Utf8.{is_utf8}
use dpkt_ng.Base.Results.{
  Error, Outcome, returns, raises, need_data, unpack_error, struct_error, unicode_error, stuck,
  ◌>>=◌,
}

abbrev pub Label : Type 0
Label = List ℕ

-- name.split(b'.')
unfoldable pub add_first : ℕ → List Label → List Label
add_first c [] = (c ∷ []) ∷ []
add_first c (label ∷ labels) = (c ∷ label) ∷ labels

unfoldable pub split_dots : List ℕ → List Label
split_dots [] = [] ∷ []
split_dots (c ∷ rest) =
    let labels = split_dots rest in if c == 46 then [] ∷ labels else add_first c labels

-- b'.'.join(labels)
unfoldable pub join_dots : List Label → List ℕ
join_dots [] = []
join_dots (label ∷ []) = label
join_dots (label ∷ next ∷ labels) = label ++ (46 ∷ join_dots (next ∷ labels))

-- bytes.upper() changes the letters a to z only.
unfoldable pub upper_byte : ℕ → ℕ
upper_byte c = if leb 97 c && leb c 122 then c - 32 else c

unfoldable pub upper : List ℕ → List ℕ
upper = map upper_byte

-- label_ptrs: where the rest of a name, in upper case and with a dot behind each label, was written.
-- The dict is an association list, the latest entry first.
abbrev pub Pointers : Type 0
Pointers = List (List ℕ × ℕ)

unfoldable pub pointer_to : List ℕ → Pointers → Option ℕ
pointer_to key [] = none
pointer_to key ((k, ptr) ∷ ptrs) = if list_eq k key then some ptr else pointer_to key ptrs

unfoldable pub label_key : List Label → List ℕ
label_key labels = upper (join_dots labels)

unfoldable pub remember : List ℕ → ℕ → Pointers → Pointers
remember key ptr ptrs = if ltb 1 (length key) && ltb ptr 0xc000 then (key, ptr) ∷ ptrs else ptrs

-- struct.pack("B", len(label)) + label
unfoldable pub label_bytes : Label → Outcome (List ℕ)
label_bytes label =
    if ltb (length label) 256 then returns (length label ∷ label) else raises struct_error

-- struct.pack('>H', (0xc000 | ptr))
unfoldable pub pointer_bytes : ℕ → Outcome (List ℕ)
pointer_bytes ptr =
    if ltb (bit_or 0xc000 ptr) 65536
    then returns (be_bytes 2 (bit_or 0xc000 ptr))
    else raises struct_error

-- The loop over the labels; `at` is off + len(buf).
unfoldable pub pack_labels : List Label → ℕ → Pointers → Outcome (List ℕ × Pointers)
pack_labels [] at ptrs = returns ([], ptrs)
pack_labels (label ∷ labels) at ptrs = elim (pointer_to (label_key (label ∷ labels)) ptrs) [
  | some ptr ↦ pointer_bytes ptr >>= λ bytes. returns (bytes, ptrs)
  | none ↦ label_bytes label >>= λ bytes.
      (pack_labels labels (at + 1 + length label) (remember (label_key (label ∷ labels)) at ptrs)
        >>= λ rest. returns (bytes ++ rest.0, rest.1))
]

-- An empty name has no labels but the root's, which ends every name.
unfoldable pub name_labels : List ℕ → List Label
name_labels [] = [] ∷ []
name_labels (c ∷ rest) = split_dots (c ∷ rest) ++ ([] ∷ [])

unfoldable pub pack_name : List ℕ → ℕ → Pointers → Outcome (List ℕ × Pointers)
pack_name name off ptrs = pack_labels (name_labels name) off ptrs

-- The variables of the loop of unpack_name
pub record Walk : Type 0 where
  pub off : ℕ
  pub name : List Label
  pub saved_off : ℕ
  pub start_off : ℕ
  pub name_length : ℕ

-- What a round does: leave the loop, go on, or raise.
pub data Round : Type 0 where
  leave go : Walk → Round
  fail : Error → Round

unfoldable pub follow_pointer : List ℕ → Walk → Round
follow_pointer buf w =
    let ptr = bit_and (be_value (slice w.off (w.off + 2) buf)) 0x3fff in
    if ltb (length buf) (w.off + 2)
    then fail struct_error
    else if leb w.start_off ptr
    then fail unpack_error
    else go (record w {
      off = ptr;
      start_off = ptr;
      saved_off = if w.saved_off == 0 then w.off + 2 else w.saved_off;
    })

unfoldable pub read_label : ℕ → List ℕ → Walk → Round
read_label n buf w =
    if ltb 255 (w.name_length + (n + 1))
    then fail unpack_error
    else go (record w {
      off = w.off + 1 + n;
      name = w.name ++ (slice (w.off + 1) (w.off + 1 + n) buf ∷ []);
      name_length = w.name_length + (n + 1);
    })

unfoldable pub walk_byte : ℕ → List ℕ → Walk → Round
walk_byte n buf w =
    if n == 0
    then leave (record w { off = w.off + 1 })
    else if bit_and n 0xc0 == 0xc0
    then follow_pointer buf w
    else if bit_and n 0xc0 == 0x00
    then read_label n buf w
    else fail unpack_error

unfoldable pub walk_round : List ℕ → Walk → Round
walk_round buf w =
    if leb (length buf) w.off then fail need_data else walk_byte (get_or buf w.off 0) buf w

-- A label makes name_length greater, which may not exceed 255, and a pointer makes start_off less.
unfoldable pub walk : ℕ → List ℕ → Walk → Outcome Walk
walk zero buf w = raises stuck
walk (suc fuel) buf w = elim (walk_round buf w) [
  | leave w' ↦ returns w'
  | go w' ↦ walk fuel buf w'
  | fail e ↦ raises e
]

-- The variables before the loop
unfoldable pub start_walk : ℕ → Walk
start_walk off = record { off = off; name = []; saved_off = 0; start_off = off; name_length = 0 }

-- codecs.decode(b'.'.join(name), 'utf-8'), saved_off
unfoldable pub finish_walk : Walk → Outcome (List ℕ × ℕ)
finish_walk w =
    let text = join_dots w.name in
    if is_utf8 text
    then returns (text, if w.saved_off == 0 then w.off else w.saved_off)
    else raises unicode_error

unfoldable pub unpack_name : List ℕ → ℕ → Outcome (List ℕ × ℕ)
unpack_name buf off = walk (off + 256) buf (start_walk off) >>= finish_walk
