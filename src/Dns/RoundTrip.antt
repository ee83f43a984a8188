-- ===== src/Dns/RoundTrip.antt =====
-- What pack_name of dpkt/dns.py writes, unpack_name reads; and how such a round trip goes on from one item of
-- a message to the next.
pub mod Lists
pub mod Questions
pub mod Content
pub mod Records
pub mod Messages
use mathlib.Core.List.{append_assoc, append-nil}
use dpkt_ng.Base.{
  ℕ, zero, suc, ◌+◌, ◌-◌, ◌^◌, ◌<◌, ◌≤◌, ◌≡◌, refl, sym, ap, ap₂, subst, ◌∙◌, Bool, true, List, [],
  ◌∷◌, ◌++◌, All, All-append, length, length-append, length-map, arith,
}
use dpkt_ng.Base.Results.{Outcome, returns, ◌>>=◌}
use dpkt_ng.Dns.Utf8.{is_utf8}
use dpkt_ng.Dns.Names.{
  Label, Pointers, label_key, upper, upper_byte, join_dots, pack_labels, pack_name, unpack_name,
  name_labels,
}
use dpkt_ng.Dns.Keys.{
  with_root, labels_of, name_labels-with_root, join-labels_of, key-name, is_utf8-upper,
  length_key_name,
}
use dpkt_ng.Dns.Spelling.{Spells-append}
use dpkt_ng.Dns.Spelling.Reading.{unpack_name-Spells}
use dpkt_ng.Dns.Compression.{
  IsLabel, AllKnown, AllUsable-known, AllKnown-later, Written, pack-Written,
}

-- Labels of 1 to 63 bytes, not more than 254 bytes with the dots between them, and UTF-8
pub record IsName (name : List ℕ) : Type 0 where
  pub labels : All IsLabel (labels_of name)
  pub short : length name ≤ 254
  pub utf8 : is_utf8 name ≡ true

-- Bytes that were written behind `pre` are read from there whatever follows, as an item that is the same
-- for what DNS looks at; `later` is label_ptrs then.
pub record Readable {A : Type 0} (unpack : List ℕ → ℕ → Outcome (A × ℕ)) (size : ℕ)
    (Same : A → Type 0) (pre bytes : List ℕ) (later : Pointers) : Type 0 where
  pub small : length bytes ≤ size
  pub known : AllKnown (pre ++ bytes) (length (pre ++ bytes)) later
  pub item : A
  pub same : Same item
  pub reads :
      (rest : List ℕ)
      → unpack (pre ++ bytes ++ rest) (length pre) ≡ returns (item, length (pre ++ bytes))

-- An item is written behind `pre`.
abbrev pub Trip :
    {A B : Type 0}
    → (List ℕ → B → Pointers → Outcome (List ℕ × Pointers))
    → (List ℕ → ℕ → Outcome (A × ℕ))
    → ℕ
    → (A → Type 0)
    → List ℕ
    → B
    → Pointers
    → Type 0
Trip pack unpack size Same pre a ptrs =
    (bytes : List ℕ) × (later : Pointers) × (pack pre a ptrs ≡ returns (pre ++ bytes, later))
    × Readable unpack size Same pre bytes later

-- The same name for DNS, which looks at no case
abbrev pub SameName : List ℕ → List ℕ → Type 0
SameName name text = upper text ≡ upper name

written_text :
    (name : List ℕ) (ls : List Label)
    → label_key (with_root ls) ≡ label_key (with_root (labels_of name))
    → SameName name (join_dots ls)
written_text name ls h = key-name ls (labels_of name) h ∙ ap upper (join-labels_of name)

same_utf8 : (name text : List ℕ) → SameName name text → is_utf8 name ≡ true → is_utf8 text ≡ true
same_utf8 name text s h = sym (is_utf8-upper text) ∙ ap is_utf8 s ∙ is_utf8-upper name ∙ h

-- A name that is written behind a buffer of which label_ptrs is true is read as the same name up to the case
-- of its letters, also where a pointer stands for a part of it, and label_ptrs is true of what is then written.
pub pack_name-unpack_name :
    (pre name : List ℕ) (ptrs : Pointers)
    → IsName name
    → AllKnown pre (length pre) ptrs
    → length pre + (length name + 3) ≤ 2 ^ 14
    → (bytes : List ℕ) × (later : Pointers) × (pack_name name (length pre) ptrs
        ≡ returns (bytes, later))
      × Readable unpack_name (length name + 3) (SameName name) pre bytes later
unfolding pack_name
pack_name-unpack_name pre name ptrs n k h = (
  w.bytes,
  w.added ++ ptrs,
  ap (λ ls. pack_labels ls (length pre) ptrs) (name_labels-with_root name) ∙ w.packed,
  record {
    small = omega (arith, w.small, length_key_name name);
    known =
        All-append _ w.added ptrs
          (subst (λ n. AllKnown (pre ++ w.bytes) n w.added) (sym (length-append pre w.bytes))
            w.known)
          (AllKnown-later pre w.bytes ptrs (omega (arith, length-append pre w.bytes)) k);
    item = join_dots w.labels;
    same = written_text name w.labels w.keyed;
    reads = λ rest.
        unpack_name-Spells (Spells-append rest w.spells)
          (omega (arith, ap length w.keyed, length_key_name name, n.short))
          (same_utf8 name (join_dots w.labels) (written_text name w.labels w.keyed) n.utf8)
        ∙ ap (λ e. returns (join_dots w.labels, e)) (sym (length-append pre w.bytes));
  },
)
  where
    w : Written pre (length pre) (length pre) (labels_of name) ptrs
    w =
        pack-Written (labels_of name) pre (length pre) (length pre) ptrs refl n.labels (omega arith)
          (omega (arith, length_key_name name)) (AllUsable-known pre (length pre) _ ptrs k)
