-- ===== src/Tftp/Reading.antt =====
-- What TFTP(buf) of dpkt/tftp.py makes of any bytes.
use dpkt_ng.Base.{
  ℕ, zero, suc, ◌<◌, ◌≤◌, ◌==◌, ◌≡◌, refl, sym, subst, Bool, true, false, ◌||◌, Bool-cases, ◌⊎◌,
  inl, inr, some, List, [], ◌∷◌, ltb, if◌then◌else◌, length, drop, get_or, All, arith,
}
use dpkt_ng.Base.Bytes.{be_value}
use dpkt_ng.Base.Results.{Outcome, returns, raises, struct_error, ◌>>=◌}
use dpkt_ng.Base.Split.{Plain, AllPlain, split, split-AllPlain, split-Plain}
use dpkt_ng.Packet.Header.{Packet, unpack, init, hdr_len, field_values}
use dpkt_ng.Packet.Header.RoundTrip.{be_value_lt}
use dpkt_ng.Packet.Struct.{struct_unpack}
use dpkt_ng.Tftp.{
  Options, Tftp, tftp_sizes, tftp_new, read_request, read_pairs, read_acceptance, read_block,
  read_failure, read_content, tftp_unpack, tftp_init, tftp_bytes,
}
use dpkt_ng.Tftp.Items.{AreItems, read_pairs-AreItems, read_options-AreItems}
use dpkt_ng.Tftp.Messages.{
  IsMessage, asking, accepting, unread, sending, failing, other, tftp_bytes-tftp_init,
}

-- A message is returned, unless fewer bytes are there than needed.
abbrev GivesMessage : ℕ → List ℕ → Outcome Tftp → Type 0
GivesMessage needed d (returns t) = IsMessage t
GivesMessage needed d (raises e) = length d < needed

get_or-Plain : (parts : List (List ℕ)) (i : ℕ) → AllPlain parts → Plain (get_or parts i [])
get_or-Plain [] i a = tt
get_or-Plain (part ∷ parts) zero a = a.0
get_or-Plain (part ∷ parts) (suc i) a = get_or-Plain parts i (a.1)

drop-AllPlain : (n : ℕ) (parts : List (List ℕ)) → AllPlain parts → AllPlain (drop n parts)
drop-AllPlain zero parts a = a
drop-AllPlain (suc n) [] a = tt
drop-AllPlain (suc n) (part ∷ parts) a = drop-AllPlain n parts (a.1)

request-GivesMessage :
    (op : ℕ) (d : List ℕ)
    → ((op == 1) || (op == 2)) ≡ true
    → GivesMessage 2 d (read_request (record tftp_new { opcode = op; data' = d }))
unfolding read_request tftp_new
request-GivesMessage op d e =
    let read =
      read_options-AreItems (drop 2 (split 0 d)) [] (drop-AllPlain 2 (split 0 d) parts) tt in
    subst
      (λ o. GivesMessage 2 d (
        o >>= λ options. returns (record tftp_new {
          opcode = op;
          filename = some (get_or (split 0 d) 0 []);
          mode = some (get_or (split 0 d) 1 []);
          options = options;
        })))
      (sym (read.1))
      (asking op (get_or (split 0 d) 0 []) (get_or (split 0 d) 1 []) (read.0) e
        (get_or-Plain (split 0 d) 0 parts) (get_or-Plain (split 0 d) 1 parts) (read.2))
  where
    parts : AllPlain (split 0 d)
    parts = split-AllPlain d

options-IsMessage :
    (options : Options)
    → AreItems [] options
    → IsMessage (record tftp_new { opcode = 6; options = options })
unfolding tftp_new
options-IsMessage [] a = unread [] tt
options-IsMessage (item ∷ options) a = accepting item options a

acceptance-IsMessage :
    (d : List ℕ) → IsMessage (read_acceptance (record tftp_new { opcode = 6; data' = d }))
unfolding read_acceptance tftp_new
acceptance-IsMessage d = elim (Bool-cases (ltb 1 (length (split 0 d)))) [
  | inl e ↦
      subst (λ b. IsMessage (if b then items else whole)) (sym e)
        (options-IsMessage (read_pairs (split 0 d) [])
          (read_pairs-AreItems (split 0 d) [] (split-AllPlain d) tt))
  | inr e ↦
      subst (λ b. IsMessage (if b then items else whole)) (sym e)
        (unread d (split-Plain d (ground arith)))
]
  where
    items : Tftp
    items = record tftp_new { opcode = 6; options = read_pairs (split 0 d) []; data' = [] }

    whole : Tftp
    whole = record tftp_new { opcode = 6; data' = d }

block-GivesMessage :
    (op : ℕ) (d : List ℕ)
    → ((op == 3) || (op == 4)) ≡ true
    → All (λ b. b < 256) d
    → GivesMessage 2 d (read_block (record tftp_new { opcode = op; data' = d }))
unfolding read_block struct_unpack hdr_len field_values tftp_new
block-GivesMessage op [] e h = omega arith
block-GivesMessage op (x ∷ []) e h = omega arith
block-GivesMessage op (x ∷ y ∷ d) e h =
    sending op (be_value (x ∷ y ∷ [])) d e (be_value_lt (x ∷ y ∷ []) (h.0, (h.1.0, tt)))

failure-GivesMessage :
    (d : List ℕ)
    → All (λ b. b < 256) d
    → GivesMessage 2 d (read_failure (record tftp_new { opcode = 5; data' = d }))
unfolding read_failure struct_unpack hdr_len field_values tftp_new
failure-GivesMessage [] h = omega arith
failure-GivesMessage (x ∷ []) h = omega arith
failure-GivesMessage (x ∷ y ∷ d) h =
    failing (be_value (x ∷ y ∷ [])) (get_or (split 0 d) 0 [])
      (be_value_lt (x ∷ y ∷ []) (h.0, (h.1.0, tt))) (get_or-Plain (split 0 d) 0 (split-AllPlain d))

if-GivesMessage :
    (b : Bool) (d : List ℕ) (o o' : Outcome Tftp)
    → (b ≡ true → GivesMessage 2 d o)
    → (b ≡ false → GivesMessage 2 d o')
    → GivesMessage 2 d (if b then o else o')
if-GivesMessage true d o o' h h' = h refl
if-GivesMessage false d o o' h h' = h' refl

content-GivesMessage :
    (op : ℕ) (d : List ℕ)
    → op < 65536
    → All (λ b. b < 256) d
    → GivesMessage 2 d (read_content (record tftp_new { opcode = op; data' = d }))
unfolding read_content tftp_new
content-GivesMessage op d l h =
    if-GivesMessage ((op == 1) || (op == 2)) d _ _ (λ e. request-GivesMessage op d e)
      λ n1.
        if-GivesMessage (op == 6) d _ _
          (λ e.
            subst (λ c. IsMessage (read_acceptance (record tftp_new { opcode = c; data' = d })))
              (sixth e) (acceptance-IsMessage d))
          λ n2.
            if-GivesMessage ((op == 3) || (op == 4)) d _ _ (λ e. block-GivesMessage op d e h)
              λ n3.
                if-GivesMessage (op == 5) d _ _
                  (λ e.
                    subst
                      (λ c.
                        GivesMessage 2 d (read_failure (record tftp_new { opcode = c; data' = d })))
                      (fifth e) (failure-GivesMessage d h))
                  (λ n4. other op d l (rest n1 n2 n3 n4))
  where
    sixth : (op == 6) ≡ true → 6 ≡ op
    sixth e = ground arith

    fifth : (op == 5) ≡ true → 5 ≡ op
    fifth e = ground arith

    rest :
        ((op == 1) || (op == 2)) ≡ false
        → (op == 6) ≡ false
        → ((op == 3) || (op == 4)) ≡ false
        → (op == 5) ≡ false
        → (op ≡ 0) ⊎ (6 < op)
    rest n1 n2 n3 n4 = ground arith

init-GivesMessage : (buf : List ℕ) → All (λ b. b < 256) buf → GivesMessage 4 buf (tftp_init buf)
unfolding tftp_init tftp_unpack unpack init hdr_len field_values tftp_new
init-GivesMessage [] h = omega arith
init-GivesMessage (x ∷ []) h = omega arith
init-GivesMessage (x ∷ y ∷ d) h =
    subst (λ b. GivesMessage 4 buf (init tftp_sizes buf (header b >>= content)))
      (sym (long (length d)))
      (through (content p) (
        content-GivesMessage (be_value (x ∷ y ∷ [])) d (be_value_lt (x ∷ y ∷ []) (h.0, (h.1.0, tt)))
          (h.1.1)))
  where
    buf : List ℕ
    buf = x ∷ y ∷ d

    p : Packet
    p = record { fields = be_value (x ∷ y ∷ []) ∷ []; data' = d }

    header : Bool → Outcome Packet
    header b = if b then raises struct_error else returns p

    content : Packet → Outcome Tftp
    content q = read_content (record tftp_new { opcode = get_or q.fields 0 0; data' = q.data' })

    long : (n : ℕ) → ltb (suc (suc n)) 2 ≡ false
    long n = ground arith

    through : (o : Outcome Tftp) → GivesMessage 2 d o → GivesMessage 4 buf (init tftp_sizes buf o)
    through (returns t) g = g
    through (raises e) g = omega arith

-- What reading returns where it has bytes enough
abbrev Read : Outcome Tftp → Type 0
Read o = (t : Tftp) × (o ≡ returns t) × IsMessage t

GivesMessage→Read :
    (buf : List ℕ) (o : Outcome Tftp) → 4 ≤ length buf → GivesMessage 4 buf o → Read o
GivesMessage→Read buf (returns t) l g = (t, refl, g)
GivesMessage→Read buf (raises e) l g = ground arith

-- Of any four bytes or more, TFTP(buf) returns a message: no request, however its options are
-- malformed, is refused. bytes() of that message returns, and TFTP of these bytes gives the same
-- message.
pub tftp_init_rewritten :
    (buf : List ℕ)
    → All (λ b. b < 256) buf
    → 4 ≤ length buf
    → (t : Tftp) × (bytes : List ℕ) × (tftp_init buf ≡ returns t)
      × (tftp_bytes t ≡ returns bytes)
      × (tftp_init bytes ≡ returns t)
tftp_init_rewritten buf h l =
    let read = GivesMessage→Read buf (tftp_init buf) l (init-GivesMessage buf h) in
    let written = tftp_bytes-tftp_init (read.0) (read.2) in
    (read.0, written.0, read.1, written.1, written.2)
