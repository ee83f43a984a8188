-- ===== src/Dns/RoundTrip/Lists.antt =====
-- The loops over the questions and the records of a message in dpkt/dns.py keep a round trip of their items.
use mathlib.Core.List.{append_assoc, append-nil}
use dpkt_ng.Base.{
  ℕ, ◌+◌, ◌^◌, ◌≤◌, ◌≡◌, sym, ap, subst, ◌∙◌, List, [], ◌∷◌, ◌++◌, All, length, length-append,
  arith,
}
use dpkt_ng.Base.Results.{Outcome, returns, ◌>>=◌}
use dpkt_ng.Dns.Names.{Pointers}
use dpkt_ng.Dns.Message.{pack_many, unpack_many}
use dpkt_ng.Dns.Compression.{AllKnown}
use dpkt_ng.Dns.RoundTrip.{Trip}

-- Two lists of the same length, related item by item
pub data Pairwise {A : Type 0} (R : A → A → Type 0) : List A → List A → Type 0 where
  no_pair : Pairwise R [] []
  pair :
      {a b : A} {more more' : List A}
      → R a b
      → Pairwise R more more'
      → Pairwise R (a ∷ more) (b ∷ more')

abbrev pub total {ℓ} : {A : Type ℓ} → (A → ℕ) → List A → ℕ
total size [] = 0
total size (a ∷ items) = size a + total size items

module _ {A : Type 0} (pack : List ℕ → A → Pointers → Outcome (List ℕ × Pointers))
    (unpack : List ℕ → ℕ → Outcome (A × ℕ)) (IsGood : A → Type 0) (size : A → ℕ)
    (Same : A → A → Type 0)
    (trip : (pre : List ℕ) (a : A) (ptrs : Pointers)
      → IsGood a
      → AllKnown pre (length pre) ptrs
      → length pre + size a ≤ 2 ^ 14
      → Trip pack unpack (size a) (Same a) pre a ptrs) where
  abbrev ManyTrip : List A → List ℕ → Pointers → Type 0
  ManyTrip items pre ptrs =
      Trip (λ pre items ptrs. pack_many pack items pre ptrs)
        (λ buf. unpack_many (unpack buf) (length items)) (total size items) (Pairwise Same items)
        pre items ptrs

  no-Trip : (pre : List ℕ) (ptrs : Pointers) → AllKnown pre (length pre) ptrs → ManyTrip [] pre ptrs
  unfolding pack_many unpack_many
  no-Trip pre ptrs k = (
    [],
    ptrs,
    ap (λ b. returns (b, ptrs)) (sym (append-nil pre)),
    record {
      small = omega arith;
      known = subst (λ b. AllKnown b (length b) ptrs) (sym (append-nil pre)) k;
      item = [];
      same = no_pair;
      reads = λ rest. ap (λ b. returns ([], length b)) (sym (append-nil pre));
    },
  )

  next-Trip :
      (a : A) (items : List A) (pre : List ℕ) (ptrs : Pointers)
      (t : Trip pack unpack (size a) (Same a) pre a ptrs)
      → ManyTrip items (pre ++ t.0) (t.1)
      → ManyTrip (a ∷ items) pre ptrs
  unfolding pack_many unpack_many
  next-Trip a items pre ptrs (bytes, later, packed, r) (bytes', later', packed', r') = (
    bytes ++ bytes',
    later',
    ap (λ o. o >>= λ p. pack_many pack items (p.0) (p.1)) packed
        ∙ packed'
        ∙ ap (λ b. returns (b, later')) whole,
    record {
      small = omega (arith, length-append bytes bytes', r.small, r'.small);
      known = subst (λ b. AllKnown b (length b) later') whole r'.known;
      item = r.item ∷ r'.item;
      same = pair r.same r'.same;
      reads = λ rest.
          ap
            (λ b. unpack b (length pre) >>= λ p.
              (unpack_many (unpack b) (length items) (p.1) >>= λ q. returns (p.0 ∷ q.0, q.1)))
            (sym (ap (λ b. b ++ rest) whole))
          ∙ ap
              (λ o. o >>= λ p.
                (unpack_many (unpack (pre ++ bytes ++ bytes' ++ rest)) (length items) (p.1) >>= λ q.
                returns (p.0 ∷ q.0, q.1)))
              (first rest)
          ∙ ap (λ o. o >>= λ q. returns (r.item ∷ q.0, q.1)) (r'.reads rest)
          ∙ ap (λ b. returns (r.item ∷ r'.item, length b)) whole;
    },
  )
    where
      whole : pre ++ bytes ++ bytes' ≡ pre ++ (bytes ++ bytes')
      whole = append_assoc pre bytes bytes'

      first :
          (rest : List ℕ)
          → unpack (pre ++ bytes ++ bytes' ++ rest) (length pre)
            ≡ returns (r.item, length (pre ++ bytes))
      first rest =
          ap (λ b. unpack b (length pre)) (append_assoc (pre ++ bytes) bytes' rest)
          ∙ r.reads (bytes' ++ rest)

  pub pack_many-unpack_many :
      (items : List A) (pre : List ℕ) (ptrs : Pointers)
      → All IsGood items
      → AllKnown pre (length pre) ptrs
      → length pre + total size items ≤ 2 ^ 14
      → ManyTrip items pre ptrs
  pack_many-unpack_many [] pre ptrs g k h = no-Trip pre ptrs k
  pack_many-unpack_many (a ∷ items) pre ptrs g k h =
      let t = trip pre a ptrs (g.0) k (omega arith) in
      next-Trip a items pre ptrs t (
        pack_many-unpack_many items (pre ++ t.0) (t.1) (g.1) (t.3.known)
          (omega (arith, length-append pre (t.0), t.3.small)))
