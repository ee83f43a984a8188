-- ===== src/Dns/RoundTrip/Messages.antt =====
-- DNS.__bytes__ and DNS(buf) of dpkt/dns.py: a whole message.
use mathlib.Core.List.{append_assoc, append-nil}
use dpkt_ng.Base.{
  ℕ, ◌+◌, ◌^◌, ◌<◌, ◌≤◌, ◌≡◌, refl, sym, ap, ap₂, ◌∙◌, List, [], ◌∷◌, ◌++◌, All, length,
  length-append, arith,
}
use dpkt_ng.Base.Results.{returns}
use dpkt_ng.Packet.Header.{hdr_len, unpack, init}
use dpkt_ng.Packet.Struct.Fields.{
  Fits, nothing, field, fields_bytes, length-fields_bytes, struct_pack-Fits, unpack-Fits,
}
use dpkt_ng.Dns.Names.{Pointers}
use dpkt_ng.Dns.Records.{Rr}
use dpkt_ng.Dns.Message.{
  Dns, Question, dns_sizes, pack_q, unpack_q, pack_rr, unpack_rr, pack_many, unpack_many,
  dns_unpack, dns_init, dns_bytes,
}
use dpkt_ng.Dns.Compression.{AllKnown}
use dpkt_ng.Dns.RoundTrip.{Trip}
use dpkt_ng.Dns.RoundTrip.Lists.{Pairwise, total, pack_many-unpack_many}
use dpkt_ng.Dns.RoundTrip.Questions.{IsQuestion, SameQuestion, question_size, pack_q-unpack_q}
use dpkt_ng.Dns.RoundTrip.Records.{IsRecord, SameRecord, record_size, pack_rr-unpack_rr}

pub record IsMessage (d : Dns) : Type 0 where
  pub id_fits : d.id < 2 ^ 16
  pub op_fits : d.op < 2 ^ 16
  pub questions : All IsQuestion d.qd
  pub answers : All IsRecord d.an
  pub servers : All IsRecord d.ns
  pub additions : All IsRecord d.ar
  pub short :
      12
        + (total question_size d.qd
            + (total record_size d.an + (total record_size d.ns + total record_size d.ar)))
      ≤ 2 ^ 14

pub record SameMessage (d d' : Dns) : Type 0 where
  pub same_id : d'.id ≡ d.id
  pub same_op : d'.op ≡ d.op
  pub same_qd : Pairwise SameQuestion d.qd d'.qd
  pub same_an : Pairwise SameRecord d.an d'.an
  pub same_ns : Pairwise SameRecord d.ns d'.ns
  pub same_ar : Pairwise SameRecord d.ar d'.ar

abbrev QuestionsTrip : List Question → List ℕ → Pointers → Type 0
QuestionsTrip qs pre ptrs =
    Trip (λ pre items ptrs. pack_many pack_q items pre ptrs)
      (λ buf. unpack_many (unpack_q buf) (length qs)) (total question_size qs)
      (Pairwise SameQuestion qs) pre qs ptrs

abbrev RecordsTrip : List Rr → List ℕ → Pointers → Type 0
RecordsTrip rrs pre ptrs =
    Trip (λ pre items ptrs. pack_many pack_rr items pre ptrs)
      (λ buf. unpack_many (unpack_rr buf) (length rrs)) (total record_size rrs)
      (Pairwise SameRecord rrs) pre rrs ptrs

questions-Trip :
    (qs : List Question) (pre : List ℕ) (ptrs : Pointers)
    → All IsQuestion qs
    → AllKnown pre (length pre) ptrs
    → length pre + total question_size qs ≤ 2 ^ 14
    → QuestionsTrip qs pre ptrs
questions-Trip qs pre ptrs g k h =
    pack_many-unpack_many pack_q unpack_q IsQuestion question_size SameQuestion pack_q-unpack_q qs
      pre ptrs g k h

records-Trip :
    (rrs : List Rr) (pre : List ℕ) (ptrs : Pointers)
    → All IsRecord rrs
    → AllKnown pre (length pre) ptrs
    → length pre + total record_size rrs ≤ 2 ^ 14
    → RecordsTrip rrs pre ptrs
records-Trip rrs pre ptrs g k h =
    pack_many-unpack_many pack_rr unpack_rr IsRecord record_size SameRecord pack_rr-unpack_rr rrs
      pre ptrs g k h

-- What DNS(buf) makes of the parts that it reads
dns_read :
    (buf : List ℕ) (id op q a s r : ℕ) (rest : List ℕ) (qd : List Question) (an ns ar : List Rr)
    (at at' at'' end : ℕ)
    → unpack dns_sizes buf ≡ returns record { fields = id ∷ op ∷ q ∷ a ∷ s ∷ r ∷ []; data' = rest }
    → unpack_many (unpack_q buf) q 12 ≡ returns (qd, at)
    → unpack_many (unpack_rr buf) a at ≡ returns (an, at')
    → unpack_many (unpack_rr buf) s at' ≡ returns (ns, at'')
    → unpack_many (unpack_rr buf) r at'' ≡ returns (ar, end)
    → dns_init buf ≡ returns record { id = id; op = op; qd = qd; an = an; ns = ns; ar = ar }
unfolding dns_init dns_unpack init
dns_read buf id op q a s r rest qd an ns ar at at' at'' end h hq ha hs hr = rw (h, hq, ha, hs, hr)

abbrev counts : Dns → List ℕ
counts d = d.id ∷ d.op ∷ length d.qd ∷ length d.an ∷ length d.ns ∷ length d.ar ∷ []

-- Every item takes a byte or more, so that the counts fit.
count_le :
    {A : Type 0} (size : A → ℕ)
    → ((a : A) → 0 < size a)
    → (items : List A) → length items ≤ total size items
count_le size h [] = omega arith
count_le size h (a ∷ items) = omega (arith, h a, count_le size h items)

counts-Fits : (d : Dns) → IsMessage d → Fits dns_sizes (counts d)
counts-Fits d g =
    let nq = count_le question_size (λ q. omega arith) d.qd in
    let na = count_le record_size (λ rr. omega arith) d.an in
    let ns = count_le record_size (λ rr. omega arith) d.ns in
    let nr = count_le record_size (λ rr. omega arith) d.ar in
    field g.id_fits (
      field g.op_fits (
        field (omega (arith, g.short, nq)) (
          field (omega (arith, g.short, na))
            (field (omega (arith, g.short, ns)) (field (omega (arith, g.short, nr)) nothing)))))

abbrev front : Dns → List ℕ
front d = fields_bytes dns_sizes (counts d)

length-front : (d : Dns) → IsMessage d → length (front d) ≡ 12
unfolding hdr_len
length-front d g = length-fields_bytes (counts-Fits d g)

abbrev Again : Dns → Type 0
Again d =
    (buf : List ℕ) × (d' : Dns) × (dns_bytes d ≡ returns buf)
    × (dns_init buf ≡ returns d')
    × SameMessage d d'

-- The four lists one behind the other
module _ (d : Dns) (g : IsMessage d) (q : QuestionsTrip d.qd (front d) [])
    (a : RecordsTrip d.an (front d ++ q.0) (q.1))
    (s : RecordsTrip d.ns (front d ++ q.0 ++ a.0) (a.1))
    (r : RecordsTrip d.ar (front d ++ q.0 ++ a.0 ++ s.0) (s.1)) where
  behind_questions : front d ++ q.0 ++ a.0 ++ s.0 ++ r.0 ≡ front d ++ q.0 ++ (a.0 ++ (s.0 ++ r.0))
  behind_questions =
      append_assoc (front d ++ q.0 ++ a.0) (s.0) (r.0)
      ∙ append_assoc (front d ++ q.0) (a.0) (s.0 ++ r.0)

  together : Again d
  unfolding dns_bytes
  together = (
    front d ++ q.0 ++ a.0 ++ s.0 ++ r.0,
    record { id = d.id; op = d.op; qd = q.3.item; an = a.3.item; ns = s.3.item; ar = r.3.item },
    rw (struct_pack-Fits (counts-Fits d g), q.2, a.2, s.2, r.2),
    dns_read (front d ++ q.0 ++ a.0 ++ s.0 ++ r.0) d.id d.op (length d.qd) (length d.an)
        (length d.ns) (length d.ar) _ q.3.item a.3.item s.3.item r.3.item _ _ _ _
        (ap (unpack dns_sizes) (behind_questions ∙ append_assoc (front d) (q.0) _)
          ∙ unpack-Fits (q.0 ++ (a.0 ++ (s.0 ++ r.0))) (counts-Fits d g))
        (ap₂ (λ b off. unpack_many (unpack_q b) (length d.qd) off) behind_questions
            (sym (length-front d g))
          ∙ q.3.reads (a.0 ++ (s.0 ++ r.0)))
        (ap (λ b. unpack_many (unpack_rr b) (length d.an) (length (front d ++ q.0)))
            (append_assoc (front d ++ q.0 ++ a.0) (s.0) (r.0))
          ∙ a.3.reads (s.0 ++ r.0))
        (s.3.reads (r.0))
        (ap (λ b. unpack_many (unpack_rr b) (length d.ar) (length (front d ++ q.0 ++ a.0 ++ s.0)))
            (sym (append-nil (front d ++ q.0 ++ a.0 ++ s.0 ++ r.0)))
          ∙ r.3.reads []),
    record {
      same_id = refl;
      same_op = refl;
      same_qd = q.3.same;
      same_an = a.3.same;
      same_ns = s.3.same;
      same_ar = r.3.same;
    },
  )

-- A message of questions and of records that hold bytes, an address or a name is written, and read again:
-- with the same numbers, and with the same names up to the case of their letters, although a pointer may
-- stand for any part of them.
pub dns_bytes-dns_init :
    (d : Dns)
    → IsMessage d
    → (buf : List ℕ) × (d' : Dns) × (dns_bytes d ≡ returns buf)
      × (dns_init buf ≡ returns d')
      × SameMessage d d'
dns_bytes-dns_init d g =
    let fl = length-front d g in
    let q = questions-Trip d.qd (front d) [] g.questions tt (omega (arith, fl, g.short)) in
    let ql = length-append (front d) (q.0) in
    let a =
      records-Trip d.an (front d ++ q.0) (q.1) g.answers (q.3.known)
        (omega (arith, fl, g.short, q.3.small, ql)) in
    let al = length-append (front d ++ q.0) (a.0) in
    let s =
      records-Trip d.ns (front d ++ q.0 ++ a.0) (a.1) g.servers (a.3.known)
        (omega (arith, fl, g.short, q.3.small, ql, a.3.small, al)) in
    let sl = length-append (front d ++ q.0 ++ a.0) (s.0) in
    let r =
      records-Trip d.ar (front d ++ q.0 ++ a.0 ++ s.0) (s.1) g.additions (s.3.known)
        (omega (arith, fl, g.short, q.3.small, ql, a.3.small, al, s.3.small, sl)) in
    together d g q a s r
