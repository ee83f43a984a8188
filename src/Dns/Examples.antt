-- ===== src/Dns/Examples.antt =====
-- The theorems about dpkt/dns.py at concrete messages, names and flags.
use dpkt_ng.Base.{ℕ, true, some, List, [], ◌∷◌, ◌≡◌, refl, list_eq, arith}
use dpkt_ng.Base.Bytes.{be_bytes}
use dpkt_ng.Base.Results.{attribute, returns}
use dpkt_ng.Packet.Struct.{struct_pack}
use dpkt_ng.Dns.Utf8.{is_utf8, utf8_from, utf8_lead}
use dpkt_ng.Dns.Names.{
  Pointers, add_first, split_dots, join_dots, upper, upper_byte, pointer_to, label_key, remember,
  label_bytes, pointer_bytes, pack_labels, name_labels, pack_name, unpack_name,
}
use dpkt_ng.Dns.Records.{Rr, no_attributes, rr_type, pack_attribute, pack_rdata}
use dpkt_ng.Dns.Message.{Dns, Question, pack_q, pack_rr, pack_many, dns_bytes, dns_init}
use dpkt_ng.Dns.Flags.{set_qr, set_opcode, set_aa, set_tc, set_rd, set_ra, set_zero, set_rcode}
use dpkt_ng.Dns.Flags.View.{view, layout, bit, view-layout, set-view}
use dpkt_ng.Dns.RoundTrip.{IsName, SameName, Readable, pack_name-unpack_name}
use dpkt_ng.Dns.RoundTrip.Content.{raw, alias}
use dpkt_ng.Dns.RoundTrip.Messages.{IsMessage, SameMessage, dns_bytes-dns_init}

-- www.ab.c, the same in other letters, and ab.c
abbrev www : List ℕ
www = 119 ∷ 119 ∷ 119 ∷ 46 ∷ 97 ∷ 98 ∷ 46 ∷ 99 ∷ []

abbrev other_case : List ℕ
other_case = 87 ∷ 87 ∷ 87 ∷ 46 ∷ 97 ∷ 98 ∷ 46 ∷ 67 ∷ []

abbrev domain : List ℕ
domain = 97 ∷ 98 ∷ 46 ∷ 99 ∷ []

www-IsName : IsName www
unfolding split_dots add_first is_utf8 utf8_from utf8_lead
www-IsName = record {
  labels =
      ((omega arith, omega arith), ((omega arith, omega arith), ((omega arith, omega arith), tt)));
  short = omega arith;
  utf8 = refl;
}

other_case-IsName : IsName other_case
unfolding split_dots add_first is_utf8 utf8_from utf8_lead
other_case-IsName = record {
  labels =
      ((omega arith, omega arith), ((omega arith, omega arith), ((omega arith, omega arith), tt)));
  short = omega arith;
  utf8 = refl;
}

domain-IsName : IsName domain
unfolding split_dots add_first is_utf8 utf8_from utf8_lead
domain-IsName = record {
  labels = ((omega arith, omega arith), ((omega arith, omega arith), tt));
  short = omega arith;
  utf8 = refl;
}

-- A question, an alias and an address
abbrev asked : Question
asked = record { name = www; type' = 1; cls = 1 }

abbrev canonical : Rr
canonical = record {
  name = other_case;
  type' = 5;
  cls = 1;
  ttl = 300;
  rlen = 4;
  rdata = [];
  attributes = record no_attributes { cname = some domain };
}

abbrev located : Rr
located = record {
  name = domain;
  type' = 1;
  cls = 1;
  ttl = 300;
  rlen = 4;
  rdata = 10 ∷ 0 ∷ 0 ∷ 1 ∷ [];
  attributes = no_attributes;
}

abbrev reply : Dns
reply = record {
  id = 7;
  op = 0x8180;
  qd = asked ∷ [];
  an = canonical ∷ located ∷ [];
  ns = [];
  ar = [];
}

reply-IsMessage : IsMessage reply
unfolding rr_type
reply-IsMessage = record {
  id_fits = omega arith;
  op_fits = omega arith;
  questions = (record { named = www-IsName; type_fits = omega arith; cls_fits = omega arith }, tt);
  answers = (
    record {
      named = other_case-IsName;
      type_fits = omega arith;
      cls_fits = omega arith;
      ttl_fits = omega arith;
      content = alias domain refl domain-IsName;
    },
    (
      record {
        named = domain-IsName;
        type_fits = omega arith;
        cls_fits = omega arith;
        ttl_fits = omega arith;
        content = raw (omega arith) refl;
      },
      tt,
    ),
  );
  servers = tt;
  additions = tt;
  short = omega arith;
}

-- Three of the four names are written as pointers.
reply_bytes :
    dns_bytes reply
    ≡ returns (
        0 ∷ 7 ∷ 0x81 ∷ 0x80 ∷ 0 ∷ 1 ∷ 0 ∷ 2 ∷ 0 ∷ 0 ∷ 0 ∷ 0 ∷ 3 ∷ 119 ∷ 119 ∷ 119 ∷ 2 ∷ 97 ∷ 98 ∷ 1
        ∷ 99 ∷ 0 ∷ 0 ∷ 1 ∷ 0 ∷ 1 ∷ 0xc0 ∷ 12 ∷ 0 ∷ 5 ∷ 0 ∷ 1 ∷ 0 ∷ 0 ∷ 1 ∷ 44 ∷ 0 ∷ 2 ∷ 0xc0 ∷ 16
        ∷ 0xc0 ∷ 16 ∷ 0 ∷ 1 ∷ 0 ∷ 1 ∷ 0 ∷ 0 ∷ 1 ∷ 44 ∷ 0 ∷ 4 ∷ 10 ∷ 0 ∷ 0 ∷ 1 ∷ [])
unfolding dns_bytes pack_many pack_q pack_rr pack_rdata pack_attribute attribute rr_type pack_name
    name_labels pack_labels split_dots add_first join_dots upper upper_byte label_key pointer_to
    remember label_bytes pointer_bytes list_eq struct_pack be_bytes
reply_bytes = refl

dns_bytes-dns_init_example :
    (buf : List ℕ) × (d' : Dns) × (dns_bytes reply ≡ returns buf)
    × (dns_init buf ≡ returns d')
    × SameMessage reply d'
dns_bytes-dns_init_example = dns_bytes-dns_init reply reply-IsMessage

pack_name-unpack_name_example :
    (bytes : List ℕ) × (later : Pointers) × (pack_name www 2 [] ≡ returns (bytes, later))
    × Readable unpack_name 11 (SameName www) (5 ∷ 6 ∷ []) bytes later
pack_name-unpack_name_example =
    pack_name-unpack_name (5 ∷ 6 ∷ []) www [] www-IsName tt (omega arith)

view-layout_example : view 0x8183 ≡ layout 0x8183
view-layout_example = view-layout 0x8183 (omega arith)

set-view_example :
    (view (set_qr true 0x0183) ≡ record (view 0x0183) { qr = bit true })
    × (view (set_opcode 18 0x0183) ≡ record (view 0x0183) { opcode = 2 })
    × (view (set_aa true 0x0183) ≡ record (view 0x0183) { aa = bit true })
    × (view (set_tc true 0x0183) ≡ record (view 0x0183) { tc = bit true })
    × (view (set_rd true 0x0183) ≡ record (view 0x0183) { rd = bit true })
    × (view (set_ra true 0x0183) ≡ record (view 0x0183) { ra = bit true })
    × (view (set_zero true 0x0183) ≡ record (view 0x0183) { zero = bit true })
    × (view (set_rcode 18 0x0183) ≡ record (view 0x0183) { rcode = 2 })
set-view_example = set-view true 18 0x0183 (omega arith)
