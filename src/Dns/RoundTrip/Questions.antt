-- ===== src/Dns/RoundTrip/Questions.antt =====
-- pack_q and unpack_q of dpkt/dns.py.
use mathlib.Core.List.{append_assoc}
use dpkt_ng.Base.{
  ℕ, ◌+◌, ◌^◌, ◌<◌, ◌≤◌, ◌≡◌, refl, sym, ap, subst, ◌∙◌, List, [], ◌∷◌, ◌++◌, length, length-append,
  arith,
}
use dpkt_ng.Base.Results.{returns}
use dpkt_ng.Packet.Header.{hdr_len}
use dpkt_ng.Packet.Struct.Fields.{
  Fits, nothing, field, fields_bytes, length-fields_bytes, struct_pack-Fits, struct_unpack-Fits,
}
use dpkt_ng.Dns.Names.{Pointers}
use dpkt_ng.Dns.Message.{Question, pack_q, unpack_q}
use dpkt_ng.Dns.Compression.{AllKnown, AllKnown-later}
use dpkt_ng.Dns.RoundTrip.{IsName, SameName, Trip, pack_name-unpack_name}

pub record IsQuestion (q : Question) : Type 0 where
  pub named : IsName q.name
  pub type_fits : q.type' < 2 ^ 16
  pub cls_fits : q.cls < 2 ^ 16

abbrev pub SameQuestion : Question → Question → Type 0
SameQuestion q q' = SameName q.name q'.name × (q'.type' ≡ q.type') × (q'.cls ≡ q.cls)

abbrev pub question_size : Question → ℕ
question_size q = length q.name + 7

-- A name, and fields behind it
module _ (pre bytes tail : List ℕ) where
  pub tail_known :
      (later : Pointers)
      → AllKnown (pre ++ bytes) (length (pre ++ bytes)) later
      → AllKnown (pre ++ (bytes ++ tail)) (length (pre ++ (bytes ++ tail))) later
  tail_known later k =
      subst (λ b. AllKnown b (length b) later) (append_assoc pre bytes tail)
        (AllKnown-later (pre ++ bytes) tail later (omega (arith, length-append (pre ++ bytes) tail))
          k)

  pub tail_end :
      {n : ℕ} → length tail ≡ n → length (pre ++ bytes) + n ≡ length (pre ++ (bytes ++ tail))
  tail_end {n} e =
      ap (λ k. length (pre ++ bytes) + k) (sym e)
      ∙ sym (length-append (pre ++ bytes) tail)
      ∙ ap length (append_assoc pre bytes tail)

  pub tail_behind :
      (rest : List ℕ) → pre ++ (bytes ++ tail) ++ rest ≡ pre ++ bytes ++ (tail ++ rest)
  tail_behind rest =
      ap (λ b. b ++ rest) (sym (append_assoc pre bytes tail))
      ∙ append_assoc (pre ++ bytes) tail rest

-- A question that is written behind a buffer of which label_ptrs is true is read again, its name up to the
-- case of the letters.
pub pack_q-unpack_q :
    (pre : List ℕ) (q : Question) (ptrs : Pointers)
    → IsQuestion q
    → AllKnown pre (length pre) ptrs
    → length pre + question_size q ≤ 2 ^ 14
    → Trip pack_q unpack_q (question_size q) (SameQuestion q) pre q ptrs
unfolding pack_q unpack_q hdr_len
pack_q-unpack_q pre q ptrs g k h =
    let (bytes, later, packed, r) = pack_name-unpack_name pre q.name ptrs g.named k (omega arith) in
    let f : Fits (2 ∷ 2 ∷ []) (q.type' ∷ q.cls ∷ []) =
      field g.type_fits (field g.cls_fits nothing) in
    let read : Question = record { name = r.item; type' = q.type'; cls = q.cls } in
    let tail = fields_bytes (2 ∷ 2 ∷ []) (q.type' ∷ q.cls ∷ []) in
    (
      bytes ++ tail,
      later,
      rw (packed, struct_pack-Fits f),
      record {
        small = omega (arith, length-append bytes tail, length-fields_bytes f, r.small);
        known = tail_known pre bytes tail later r.known;
        item = read;
        same = (r.same, refl, refl);
        reads = λ rest.
            rw
              (
                tail_behind pre bytes tail rest,
                r.reads (tail ++ rest),
                struct_unpack-Fits (pre ++ bytes) rest 4 f refl,
              )
              (ap (λ e. returns (read, e)) (tail_end pre bytes tail (length-fields_bytes f)));
      },
    )
