-- ===== src/Dns/Compression.antt =====
-- What pack_name of dpkt/dns.py writes is a spelling of the name, and label_ptrs stays true.
use mathlib.Core.List.{append_assoc}
use dpkt_ng.Base.{
  ◌⊎◌, inl, inr, Option-cases, ℕ, ◌+◌, ◌^◌, ◌<◌, ◌≤◌, ◌≡◌, ◌≢◌, refl, sym, ap, subst, ◌∙◌,
  Bool-cases, none, some, List, [], ◌∷◌, ◌++◌, All, All-append, list_eq, list_eq→eq, length,
  length-append, if◌then◌else◌, arith,
}
use dpkt_ng.Base.Bits.{or_low}
use dpkt_ng.Base.Bytes.{be_bytes}
use dpkt_ng.Base.Results.{returns, ◌>>=◌}
use dpkt_ng.Dns.Names.{
  Label, Pointers, pointer_to, label_key, upper, join_dots, remember, label_bytes, pointer_bytes,
  pack_labels,
}
use dpkt_ng.Dns.Keys.{with_root, key-cons, length-key}
use dpkt_ng.Dns.Spelling.{pointer_form, Spells, root, label, pointer, Spells-append, Spells-mono}

-- An entry of label_ptrs is true: below the bound the buffer spells a name with that key.
pub record Known (buf : List ℕ) (bound : ℕ) (key : List ℕ) (ptr : ℕ) : Type 0 where
  pub below : ptr < bound
  pub fits : ptr < 2 ^ 14
  pub labels : List Label
  pub end : ℕ
  pub spells : Spells buf ptr ptr labels end
  pub keyed : label_key (with_root labels) ≡ key

abbrev pub AllKnown : List ℕ → ℕ → Pointers → Type 0
AllKnown buf bound ptrs = All (λ e. Known buf bound (e.0) (e.1)) ptrs

-- While a name is written, its own longer suffixes are entries that cannot be asked for.
abbrev AllUsable : List ℕ → ℕ → ℕ → Pointers → Type 0
AllUsable buf bound n ptrs = All (λ e. Known buf bound (e.0) (e.1) ⊎ (n < length (e.0))) ptrs

abbrev pub IsLabel : Label → Type 0
IsLabel l = (0 < length l) × (length l ≤ 63)

-- What pack_labels does with a name of which `pre` is before it
pub record Written (pre : List ℕ) (at start : ℕ) (ls : List Label) (ptrs : Pointers) : Type 0 where
  pub bytes : List ℕ
  pub added : Pointers
  pub packed : pack_labels (with_root ls) at ptrs ≡ returns (bytes, added ++ ptrs)
  pub labels : List Label
  pub spells : Spells (pre ++ bytes) start at labels (at + length bytes)
  pub keyed : label_key (with_root labels) ≡ label_key (with_root ls)
  pub known : AllKnown (pre ++ bytes) (at + length bytes) added
  pub small : length bytes ≤ length (label_key (with_root ls)) + 2

some_injective : {a b : ℕ} → some a ≡ some b → a ≡ b
some_injective h = cc

pointer_to-All :
    (Q : List ℕ → ℕ → Type 0) (key : List ℕ) (ptrs : Pointers) {p : ℕ}
    → All (λ e. Q (e.0) (e.1)) ptrs
    → pointer_to key ptrs ≡ some p
    → Q key p
unfolding pointer_to
pointer_to-All Q key [] q h = absurd (nothing h)
  where
    nothing : {p : ℕ} → none ≢ some p
    nothing h = cc
pointer_to-All Q key ((k, p) ∷ ptrs) {p = p'} q h = elim (Bool-cases (list_eq k key)) [
  | inl e ↦
      subst (λ k'. Q k' p') (list_eq→eq k key e)
        (subst (Q k)
          (some_injective (ap (λ b. if b then some p else pointer_to key ptrs) (sym e) ∙ h)) (q.0))
  | inr e ↦
      pointer_to-All Q key ptrs (q.1)
        (ap (λ b. if b then some p else pointer_to key ptrs) (sym e) ∙ h)
]

pack_pointer :
    (l : Label) (labels : List Label) (at : ℕ) (ptrs : Pointers) {p : ℕ}
    → pointer_to (label_key (l ∷ labels)) ptrs ≡ some p
    → pack_labels (l ∷ labels) at ptrs ≡ (pointer_bytes p >>= λ bytes. returns (bytes, ptrs))
unfolding pack_labels
pack_pointer l labels at ptrs h = rw (pack_labels, h)

pack_label :
    (l : Label) (labels : List Label) (at : ℕ) (ptrs : Pointers)
    → pointer_to (label_key (l ∷ labels)) ptrs ≡ none
    → pack_labels (l ∷ labels) at ptrs ≡ (
        label_bytes l >>= λ bytes.
        (pack_labels labels (at + 1 + length l) (remember (label_key (l ∷ labels)) at ptrs)
          >>= λ rest. returns (bytes ++ rest.0, rest.1)))
unfolding pack_labels
pack_label l labels at ptrs h = rw (pack_labels, h)

pointer_bytes-pointer_form : (p : ℕ) → p < 2 ^ 14 → pointer_bytes p ≡ returns (pointer_form p)
unfolding pointer_bytes be_bytes
pointer_bytes-pointer_form p h = ground (arith, or_low 14 3 p h)

remember_key :
    (key : List ℕ) (at : ℕ) (ptrs : Pointers)
    → 1 < length key
    → at < 2 ^ 14
    → remember key at ptrs ≡ (key, at) ∷ ptrs
unfolding remember
remember_key key at ptrs h h' = ground arith

label_bytes_short : (l : Label) → length l ≤ 63 → label_bytes l ≡ returns (length l ∷ l)
unfolding label_bytes
label_bytes_short l h = ground arith

point_packed :
    (ls : List Label) (at : ℕ) (ptrs : Pointers) {p : ℕ}
    → pointer_to (label_key (with_root ls)) ptrs ≡ some p
    → p < 2 ^ 14
    → pack_labels (with_root ls) at ptrs ≡ returns (pointer_form p, ptrs)
point_packed [] at ptrs {p} e h =
    pack_pointer [] [] at ptrs e
    ∙ ap (λ o. o >>= λ bytes. returns (bytes, ptrs)) (pointer_bytes-pointer_form p h)
point_packed (l ∷ ls) at ptrs {p} e h =
    pack_pointer l (with_root ls) at ptrs e
    ∙ ap (λ o. o >>= λ bytes. returns (bytes, ptrs)) (pointer_bytes-pointer_form p h)

root_packed :
    (at : ℕ) (ptrs : Pointers)
    → pointer_to (label_key (with_root [])) ptrs ≡ none
    → pack_labels (with_root []) at ptrs ≡ returns (0 ∷ [], ptrs)
unfolding pack_labels label_bytes remember label_key upper join_dots
root_packed at ptrs e = pack_label [] [] at ptrs e

label_packed :
    (l : Label) (ls : List Label) (at : ℕ) (ptrs : Pointers) {bytes : List ℕ} {ptrs' : Pointers}
    → IsLabel l
    → pointer_to (label_key (with_root (l ∷ ls))) ptrs ≡ none
    → at < 2 ^ 14
    → pack_labels (with_root ls) (at + 1 + length l) ((label_key (with_root (l ∷ ls)), at) ∷ ptrs)
      ≡ returns (bytes, ptrs')
    → pack_labels (with_root (l ∷ ls)) at ptrs ≡ returns ((length l ∷ l) ++ bytes, ptrs')
label_packed l ls at ptrs il e h r =
    pack_label l (with_root ls) at ptrs e
    ∙ ap
        (λ o. o >>= λ bytes.
          (pack_labels (with_root ls) (at + 1 + length l) (remember key at ptrs) >>= λ rest.
          returns (bytes ++ rest.0, rest.1)))
        (label_bytes_short l (il.1))
    ∙ ap
        (λ q. pack_labels (with_root ls) (at + 1 + length l) q >>= λ rest.
          returns ((length l ∷ l) ++ rest.0, rest.1))
        (remember_key key at ptrs (omega (arith, length-key l ls, il.0)) h)
    ∙ ap (λ o. o >>= λ rest. returns ((length l ∷ l) ++ rest.0, rest.1)) r
  where
    key : List ℕ
    key = label_key (with_root (l ∷ ls))

module _ (pre : List ℕ) (at start : ℕ) (place : length pre ≡ at) where
  -- A pointer is written.
  point-Written :
      (ls : List Label) (ptrs : Pointers) {p : ℕ}
      → pointer_to (label_key (with_root ls)) ptrs ≡ some p
      → Known pre start (label_key (with_root ls)) p
      → Written pre at start ls ptrs
  point-Written ls ptrs {p} e k = record {
    bytes = pointer_form p;
    added = [];
    packed = point_packed ls at ptrs e k.fits;
    labels = k.labels;
    spells =
        pointer p k.below k.fits (record { before = pre; after = []; parts = refl; place = place })
          (Spells-append (pointer_form p) k.spells);
    keyed = k.keyed;
    known = tt;
    small = omega arith;
  }

  root-Written :
      (ptrs : Pointers)
      → pointer_to (label_key (with_root [])) ptrs ≡ none
      → Written pre at start [] ptrs
  root-Written ptrs e = record {
    bytes = 0 ∷ [];
    added = [];
    packed = root_packed at ptrs e;
    labels = [];
    spells = root (record { before = pre; after = []; parts = refl; place = place });
    keyed = refl;
    known = tt;
    small = omega arith;
  }

  label-Written :
      (l : Label) (ls : List Label) (ptrs : Pointers)
      → IsLabel l
      → pointer_to (label_key (with_root (l ∷ ls))) ptrs ≡ none
      → start ≤ at
      → at < 2 ^ 14
      → Written
          (pre ++ (length l ∷ l))
          (at + 1 + length l)
          start
          ls
          ((label_key (with_root (l ∷ ls)), at) ∷ ptrs)
      → Written pre at start (l ∷ ls) ptrs
  label-Written l ls ptrs il e m h r = record {
    bytes = (length l ∷ l) ++ r.bytes;
    added = r.added ++ ((key, at) ∷ []);
    packed =
        label_packed l ls at ptrs il e h r.packed
        ∙ ap (λ q. returns ((length l ∷ l) ++ r.bytes, q))
            (sym (append_assoc r.added ((key, at) ∷ []) ptrs));
    labels = l ∷ r.labels;
    spells = spelt;
    keyed = keys;
    small = omega (arith, length-append l r.bytes, length-key l ls, r.small);
    known = All-append _ r.added ((key, at) ∷ []) the_known (newest, tt);
  }
    where
      key : List ℕ
      key = label_key (with_root (l ∷ ls))

      buf : List ℕ
      buf = pre ++ ((length l ∷ l) ++ r.bytes)

      same_buf : pre ++ (length l ∷ l) ++ r.bytes ≡ buf
      same_buf = append_assoc pre (length l ∷ l) r.bytes

      end : ℕ
      end = at + length ((length l ∷ l) ++ r.bytes)

      same_end : at + 1 + length l + length r.bytes ≡ end
      same_end = omega (arith, length-append l r.bytes)

      spelt : Spells buf start at (l ∷ r.labels) end
      spelt =
          label l (il.0) (il.1)
            (record { before = pre; after = r.bytes; parts = refl; place = place })
            (subst (λ n. Spells buf start (at + 1 + length l) r.labels n) same_end
              (subst
                (λ b.
                  Spells b start (at + 1 + length l) r.labels (at + 1 + length l + length r.bytes))
                same_buf r.spells))

      keys : label_key (with_root (l ∷ r.labels)) ≡ key
      keys = key-cons l r.labels ∙ ap (λ t. upper l ++ (46 ∷ t)) r.keyed ∙ sym (key-cons l ls)

      the_known : AllKnown buf end r.added
      the_known =
          subst (λ n. AllKnown buf n r.added) same_end
            (subst (λ b. AllKnown b (at + 1 + length l + length r.bytes) r.added) same_buf r.known)

      newest : Known buf end key at
      newest = record {
        below = omega arith;
        fits = h;
        labels = l ∷ r.labels;
        end = end;
        spells = Spells-mono m spelt;
        keyed = keys;
      }

pub Known-later :
    {buf : List ℕ} {bound bound' : ℕ} {key : List ℕ} {ptr : ℕ} (more : List ℕ)
    → bound ≤ bound'
    → Known buf bound key ptr
    → Known (buf ++ more) bound' key ptr
Known-later more h k = record {
  below = omega (arith, k.below);
  fits = k.fits;
  labels = k.labels;
  end = k.end;
  spells = Spells-append more k.spells;
  keyed = k.keyed;
}

not_longer :
    (pre : List ℕ) (start : ℕ) (key : List ℕ) {p : ℕ}
    → Known pre start key p ⊎ (length key < length key)
    → Known pre start key p
not_longer pre start key (inl k) = k
not_longer pre start key (inr h) = absurd (omega arith)

module _ (pre more : List ℕ) (start : ℕ) {n n' : ℕ} (h : n' ≤ n) where
  entry_later :
      {key : List ℕ} {ptr : ℕ}
      → Known pre start key ptr ⊎ (n < length key)
      → Known (pre ++ more) start key ptr ⊎ (n' < length key)
  entry_later (inl k) = inl (Known-later more (omega arith) k)
  entry_later (inr l) = inr (omega arith)

  AllUsable-later :
      (ptrs : Pointers) → AllUsable pre start n ptrs → AllUsable (pre ++ more) start n' ptrs
  AllUsable-later [] q = tt
  AllUsable-later ((key, ptr) ∷ ptrs) q = (entry_later (q.0), AllUsable-later ptrs (q.1))

pub pack-Written :
    (ls : List Label) (pre : List ℕ) (at start : ℕ) (ptrs : Pointers)
    → length pre ≡ at
    → All IsLabel ls
    → start ≤ at
    → at + length (label_key (with_root ls)) < 2 ^ 14
    → AllUsable pre start (length (label_key (with_root ls))) ptrs
    → Written pre at start ls ptrs
pack-Written [] pre at start ptrs place il m h q =
    elim (Option-cases (pointer_to (label_key (with_root [])) ptrs)) [
      | inl e ↦ root-Written pre at start place ptrs e
      | inr (p, e) ↦
          point-Written pre at start place [] ptrs e
            (not_longer pre start _ (pointer_to-All _ _ ptrs q e))
    ]
pack-Written (l ∷ ls) pre at start ptrs place il m h q =
    elim (Option-cases (pointer_to (label_key (with_root (l ∷ ls))) ptrs)) [
      | inr (p, e) ↦
          point-Written pre at start place (l ∷ ls) ptrs e
            (not_longer pre start _ (pointer_to-All _ _ ptrs q e))
      | inl e ↦ label-Written pre at start place l ls ptrs (il.0) e m (omega arith) (
          pack-Written ls (pre ++ (length l ∷ l)) (at + 1 + length l) start _
            (omega (arith, length-append pre (length l ∷ l))) (il.1) (omega arith)
            (omega (arith, length-key l ls))
            (
              inr (omega (arith, length-key l ls)),
              AllUsable-later pre (length l ∷ l) start (omega (arith, length-key l ls)) ptrs q,
            ))
    ]

pub AllUsable-known :
    (pre : List ℕ) (start n : ℕ) (ptrs : Pointers)
    → AllKnown pre start ptrs
    → AllUsable pre start n ptrs
AllUsable-known pre start n [] k = tt
AllUsable-known pre start n ((key, ptr) ∷ ptrs) k =
    (inl (k.0), AllUsable-known pre start n ptrs (k.1))

pub AllKnown-later :
    (pre more : List ℕ) {bound bound' : ℕ} (ptrs : Pointers)
    → bound ≤ bound'
    → AllKnown pre bound ptrs
    → AllKnown (pre ++ more) bound' ptrs
AllKnown-later pre more [] h k = tt
AllKnown-later pre more ((key, ptr) ∷ ptrs) h k =
    (Known-later more h (k.0), AllKnown-later pre more ptrs h (k.1))
