-- ===== src/Dns/Message.antt =====
-- class DNS of dpkt/dns.py: the header, the questions and the three lists of resource records.
use dpkt_ng.Base.{ℕ, zero, suc, ◌+◌, List, [], ◌∷◌, ◌++◌, length, get_or}
use dpkt_ng.Base.Bytes.{slice}
use dpkt_ng.Base.Results.{Outcome, returns, ◌>>=◌}
use dpkt_ng.Packet.Header.{unpack, init}
use dpkt_ng.Packet.Struct.{struct_pack, struct_unpack}
use dpkt_ng.Dns.Names.{Pointers, pack_name, unpack_name}
use dpkt_ng.Dns.Records.{Rr, default_rr, pack_rdata, unpack_rdata}

pub record Question : Type 0 where
  pub name : List ℕ
  pub type' : ℕ
  pub cls : ℕ

pub record Dns : Type 0 where
  pub id : ℕ
  pub op : ℕ
  pub qd : List Question
  pub an : List Rr
  pub ns : List Rr
  pub ar : List Rr

-- __hdr__: id, op, qd, an, ns, ar
abbrev pub dns_sizes : List ℕ
dns_sizes = 2 ∷ 2 ∷ 2 ∷ 2 ∷ 2 ∷ 2 ∷ []

unfoldable pub pack_q : List ℕ → Question → Pointers → Outcome (List ℕ × Pointers)
pack_q buf q ptrs = pack_name q.name (length buf) ptrs >>= λ p.
    (struct_pack (2 ∷ 2 ∷ []) (q.type' ∷ q.cls ∷ []) >>= λ tail.
    returns (buf ++ (p.0 ++ tail), p.1))

unfoldable pub unpack_q : List ℕ → ℕ → Outcome (Question × ℕ)
unpack_q buf off = unpack_name buf off >>= λ p.
    (struct_unpack (2 ∷ 2 ∷ []) (slice (p.1) (p.1 + 4) buf) >>= λ numbers.
    returns (record { name = p.0; type' = get_or numbers 0 0; cls = get_or numbers 1 0 }, p.1 + 4))

unfoldable pub pack_rr : List ℕ → Rr → Pointers → Outcome (List ℕ × Pointers)
pack_rr buf rr ptrs = pack_name rr.name (length buf) ptrs >>= λ n.
    (pack_rdata rr (length buf + length (n.0) + 10) (n.1) >>= λ d.
    (struct_pack (2 ∷ 2 ∷ 4 ∷ 2 ∷ []) (rr.type' ∷ rr.cls ∷ rr.ttl ∷ length (d.0) ∷ []) >>= λ mid.
    returns (buf ++ (n.0 ++ (mid ++ d.0)), d.1)))

unfoldable pub unpack_rr : List ℕ → ℕ → Outcome (Rr × ℕ)
unpack_rr buf off = unpack_name buf off >>= λ p.
    (struct_unpack (2 ∷ 2 ∷ 4 ∷ 2 ∷ []) (slice (p.1) (p.1 + 10) buf) >>= λ numbers.
    (unpack_rdata buf (p.1 + 10) (record default_rr {
      name = p.0;
      type' = get_or numbers 0 0;
      cls = get_or numbers 1 0;
      ttl = get_or numbers 2 0;
      rlen = get_or numbers 3 0;
      rdata = slice (p.1 + 10) (p.1 + 10 + get_or numbers 3 0) buf;
    })
      >>= λ rr. returns (rr, p.1 + 10 + get_or numbers 3 0)))

-- for _ in range(cnt), with unpack_q or unpack_rr
unfoldable pub unpack_many {ℓ} : {A : Type ℓ} → (ℕ → Outcome (A × ℕ)) → ℕ → ℕ → Outcome (List A × ℕ)
unpack_many read zero off = returns ([], off)
unpack_many read (suc cnt) off =
    read off >>= λ p. (unpack_many read cnt (p.1) >>= λ rest. returns (p.0 ∷ rest.0, rest.1))

unfoldable pub dns_unpack : List ℕ → Outcome Dns
dns_unpack buf = unpack dns_sizes buf >>= λ p.
    (unpack_many (unpack_q buf) (get_or p.fields 2 0) 12 >>= λ qd.
    (unpack_many (unpack_rr buf) (get_or p.fields 3 0) (qd.1) >>= λ an.
    (unpack_many (unpack_rr buf) (get_or p.fields 4 0) (an.1) >>= λ ns.
    (unpack_many (unpack_rr buf) (get_or p.fields 5 0) (ns.1) >>= λ ar. returns record {
      id = get_or p.fields 0 0;
      op = get_or p.fields 1 0;
      qd = qd.0;
      an = an.0;
      ns = ns.0;
      ar = ar.0;
    }))))

-- DNS(buf)
unfoldable pub dns_init : List ℕ → Outcome Dns
dns_init buf = init dns_sizes buf (dns_unpack buf)

-- The loops of __bytes__, with pack_q or pack_rr
unfoldable pub pack_many {ℓ} :
    {A : Type ℓ}
    → (List ℕ → A → Pointers → Outcome (List ℕ × Pointers))
    → List A
    → List ℕ
    → Pointers
    → Outcome (List ℕ × Pointers)
pack_many pack [] buf ptrs = returns (buf, ptrs)
pack_many pack (a ∷ items) buf ptrs = pack buf a ptrs >>= λ p. pack_many pack items (p.0) (p.1)

unfoldable pub dns_bytes : Dns → Outcome (List ℕ)
dns_bytes d =
    struct_pack dns_sizes (d.id ∷ d.op ∷ length d.qd ∷ length d.an ∷ length d.ns ∷ length d.ar ∷ [])
    >>= λ front.
        (pack_many pack_q d.qd front [] >>= λ q.
        (pack_many pack_rr d.an (q.0) (q.1) >>= λ an.
        (pack_many pack_rr d.ns (an.0) (an.1) >>= λ ns.
        (pack_many pack_rr d.ar (ns.0) (ns.1) >>= λ ar. returns (ar.0)))))

-- len(dns)
unfoldable pub dns_len : Dns → Outcome ℕ
dns_len d = dns_bytes d >>= λ bytes. returns (length bytes)
