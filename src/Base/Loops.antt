-- ===== src/Base/Loops.antt =====
-- The loop that the parsers share: while there is more at the offset, read one item and go on behind it.
-- A parser instantiates `more` and `read`, with its buffer in them.
use dpkt_ng.Base.{
  ◌⊎◌, inl, inr, Bool-cases, ℕ, zero, suc, ◌+◌, ◌<◌, ◌≤◌, List, [], ◌∷◌, Bool, true, false, ◌≡◌,
  ◌≢◌, refl, sym, ap, ◌∙◌, arith,
}
use dpkt_ng.Base.Results.{Error, Outcome, returns, raises, stuck, ◌>>=◌}

module _ {A : Type 0} (more : ℕ → Bool) (read : ℕ → Outcome (A × ℕ)) where
  -- The fuel counts the reads that succeed.
  unfoldable pub read_loop : ℕ → ℕ → Outcome (List A)
  read_loop zero off = elim (more off) [
    | false ↦ returns []
    | true ↦ read off >>= λ p. raises stuck
  ]
  read_loop (suc fuel) off = elim (more off) [
    | false ↦ returns []
    | true ↦ read off >>= λ p. (read_loop fuel p.1 >>= λ rest. returns (p.0 ∷ rest))
  ]

  pub read_loop_done : (fuel off : ℕ) → more off ≡ false → read_loop fuel off ≡ returns []
  unfolding read_loop
  read_loop_done zero off h = rw (read_loop, h)
  read_loop_done (suc fuel) off h = rw (read_loop, h)

  pub read_loop_next :
      (fuel off : ℕ) {a : A} {off' : ℕ}
      → more off ≡ true
      → read off ≡ returns (a, off')
      → read_loop (suc fuel) off ≡ (read_loop fuel off' >>= λ rest. returns (a ∷ rest))
  unfolding read_loop
  read_loop_next fuel off h r = rw (read_loop, h, r)

  pub read_loop_fails :
      (fuel off : ℕ) {e : Error}
      → more off ≡ true
      → read off ≡ raises e
      → read_loop fuel off ≡ raises e
  unfolding read_loop
  read_loop_fails zero off h r = rw (read_loop, h, r)
  read_loop_fails (suc fuel) off h r = rw (read_loop, h, r)

  pub read_loop_out :
      (off : ℕ) {a : A} {off' : ℕ}
      → more off ≡ true
      → read off ≡ returns (a, off')
      → read_loop 0 off ≡ raises stuck
  unfolding read_loop
  read_loop_out off h r = rw (read_loop, h, r)

  pub read_loop_round :
      (fuel off off' : ℕ) (u : Outcome A)
      → more off ≡ true
      → read off ≡ (u >>= λ a. returns (a, off'))
      → read_loop (suc fuel) off ≡ (u >>= λ a. read_loop fuel off' >>= λ rest. returns (a ∷ rest))
  read_loop_round fuel off off' (returns a) h r = read_loop_next fuel off h r
  read_loop_round fuel off off' (raises e) h r = read_loop_fails (suc fuel) off h r

-- What a read that succeeds has to say: it began inside the limit and went forward.
abbrev pub Advances : {A : Type 0} → (ℕ → Outcome (A × ℕ)) → ℕ → Type 0
Advances {A} read limit =
    (off : ℕ) (a : A) (off' : ℕ) → read off ≡ returns (a, off') → (off < limit) × (off < off')

abbrev pub NeverStuck : {A : Type 0} → (ℕ → Outcome A) → Type 0
NeverStuck read = (off : ℕ) → read off ≢ raises stuck

pub Outcome-cases :
    {A : Type 0} (r : Outcome (A × ℕ))
    → ((a : A) × (n : ℕ) × (r ≡ returns (a, n))) ⊎ ((e : Error) × (r ≡ raises e))
Outcome-cases (returns (a, n)) = inl (a, n, refl)
Outcome-cases (raises e) = inr (e, refl)

module _ {A : Type 0} (more : ℕ → Bool) (read : ℕ → Outcome (A × ℕ)) (limit : ℕ)
    (adv : Advances read limit) where
  -- Behind the limit nothing is read.
  at_limit : (f g off : ℕ) → limit ≤ off → read_loop more read f off ≡ read_loop more read g off
  at_limit f g off p = elim (Bool-cases (more off)) [
    | inr done ↦ read_loop_done more read f off done ∙ sym (read_loop_done more read g off done)
    | inl h ↦ elim (Outcome-cases (read off)) [
      | inr (e, r) ↦ read_loop_fails more read f off h r ∙ sym (read_loop_fails more read g off h r)
      | inl (a, off', r) ↦ absurd (omega (arith, (adv off a off' r).0))
    ]
  ]

  -- As many reads as there are positions are enough: more fuel makes no difference.
  pub read_loop_fuel :
      (f g off : ℕ)
      → limit ≤ off + f
      → limit ≤ off + g
      → read_loop more read f off ≡ read_loop more read g off
  read_loop_fuel zero g off p q = at_limit zero g off (omega arith)
  read_loop_fuel (suc f) zero off p q = at_limit (suc f) zero off (omega arith)
  read_loop_fuel (suc f) (suc g) off p q = elim (Bool-cases (more off)) [
    | inr done ↦
        read_loop_done more read (suc f) off done ∙ sym (read_loop_done more read (suc g) off done)
    | inl h ↦ elim (Outcome-cases (read off)) [
      | inr (e, r) ↦
          read_loop_fails more read (suc f) off h r
          ∙ sym (read_loop_fails more read (suc g) off h r)
      | inl (a, off', r) ↦
          let forward = (adv off a off' r).1 in
          read_loop_next more read f off h r
          ∙ ap (λ l. l >>= λ rest. returns (a ∷ rest))
              (read_loop_fuel f g off' (omega arith) (omega arith))
          ∙ sym (read_loop_next more read g off h r)
    ]
  ]

  rest_fails :
      (a : A) (l : Outcome (List A))
      → (l >>= λ rest. returns (a ∷ rest)) ≡ raises stuck
      → l ≡ raises stuck
  rest_fails a (returns l) h = cc
  rest_fails a (raises e) h = ground arith

  stuck_after_read :
      NeverStuck read
      → (f off : ℕ) → read_loop more read f off ≡ raises stuck
      → (more off ≡ true) × (a : A) × (off' : ℕ) × (read off ≡ returns (a, off'))
  stuck_after_read ns f off s = elim (Bool-cases (more off)) [
    | inr done ↦ let nil = read_loop_done more read f off done in absurd (the_end [] (sym nil ∙ s))
    | inl h ↦ elim (Outcome-cases (read off)) [
      | inr (e, r) ↦
          let failed = read_loop_fails more read f off h r in absurd (ns off (ground arith))
      | inl (a, off', r) ↦ (h, a, off', r)
    ]
  ]
    where
      the_end : (l : List A) → returns l ≢ raises stuck
      the_end l h = cc

  -- Nor does that much fuel run out.
  pub read_loop-NeverStuck :
      NeverStuck read → (f off : ℕ) → limit ≤ off + f → read_loop more read f off ≢ raises stuck
  read_loop-NeverStuck ns zero off p s =
      let (h, a, off', r) = stuck_after_read ns zero off s in
      absurd (omega (arith, (adv off a off' r).0))
  read_loop-NeverStuck ns (suc f) off p s =
      let (h, a, off', r) = stuck_after_read ns (suc f) off s in
      let forward = (adv off a off' r).1 in
      read_loop-NeverStuck ns f off' (omega arith)
        (rest_fails a (read_loop more read f off') (sym (read_loop_next more read f off h r) ∙ s))

  -- Where every read that is made succeeds, the loop returns.
  pub read_loop_total :
      ((off : ℕ) → more off ≡ true → (a : A) × (off' : ℕ) × (read off ≡ returns (a, off')))
      → (f off : ℕ) → limit ≤ off + f
      → (items : List A) × (read_loop more read f off ≡ returns items)
  read_loop_total hr zero off p = elim (Bool-cases (more off)) [
    | inr done ↦ ([], read_loop_done more read 0 off done)
    | inl h ↦ let (a, off', r) = hr off h in absurd (omega (arith, (adv off a off' r).0))
  ]
  read_loop_total hr (suc f) off p = elim (Bool-cases (more off)) [
    | inr done ↦ ([], read_loop_done more read (suc f) off done)
    | inl h ↦
        let (a, off', r) = hr off h in
        let forward = (adv off a off' r).1 in
        let (items, e) = read_loop_total hr f off' (omega arith) in
        (
          a ∷ items,
          read_loop_next more read f off h r ∙ ap (λ l. l >>= λ rest. returns (a ∷ rest)) e,
        )
  ]

-- The same loop on a buffer with k more positions in front
module _ {A : Type 0} (more more' : ℕ → Bool) (read read' : ℕ → Outcome (A × ℕ)) (k : ℕ) where
  moved :
      {off off' : ℕ} {a : A}
      → ((off : ℕ) → read (k + off) ≡ (read' off >>= λ p. returns (p.0, k + p.1)))
      → read' off ≡ returns (a, off')
      → read (k + off) ≡ returns (a, k + off')
  moved {off} hr r = hr off ∙ ap (λ x. x >>= λ p. returns (p.0, k + p.1)) r

  one_round :
      ((off : ℕ) → more (k + off) ≡ more' off)
      → ((off : ℕ) → read (k + off) ≡ (read' off >>= λ p. returns (p.0, k + p.1)))
      → (f off : ℕ)
      → ((a : A) (off' : ℕ)
          → more' off ≡ true
          → read' off ≡ returns (a, off')
          → read_loop more read f (k + off) ≡ read_loop more' read' f off)
      → read_loop more read f (k + off) ≡ read_loop more' read' f off
  one_round hm hr f off next = elim (Bool-cases (more' off)) [
    | inr done ↦
        read_loop_done more read f (k + off) (hm off ∙ done)
        ∙ sym (read_loop_done more' read' f off done)
    | inl h ↦ elim (Outcome-cases (read' off)) [
      | inr (e, r) ↦
          read_loop_fails more read f (k + off) (hm off ∙ h)
            (hr off ∙ ap (λ x. x >>= λ p. returns (p.0, k + p.1)) r)
          ∙ sym (read_loop_fails more' read' f off h r)
      | inl (a, off', r) ↦ next a off' h r
    ]
  ]

  pub read_loop_shift :
      ((off : ℕ) → more (k + off) ≡ more' off)
      → ((off : ℕ) → read (k + off) ≡ (read' off >>= λ p. returns (p.0, k + p.1)))
      → (f off : ℕ) → read_loop more read f (k + off) ≡ read_loop more' read' f off
  read_loop_shift hm hr zero off = one_round hm hr zero off (λ a off' h r.
      read_loop_out more read (k + off) (hm off ∙ h) (moved hr r)
      ∙ sym (read_loop_out more' read' off h r))
  read_loop_shift hm hr (suc f) off = one_round hm hr (suc f) off (λ a off' h r.
      read_loop_next more read f (k + off) (hm off ∙ h) (moved hr r)
      ∙ ap (λ l. l >>= λ rest. returns (a ∷ rest)) (read_loop_shift hm hr f off')
      ∙ sym (read_loop_next more' read' f off h r))
