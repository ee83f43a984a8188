-- ===== src/Ip6.antt =====
-- class IP6 of dpkt/ip6.py and its extension headers, as they are read. What is carried is parsed as in IP.
mod Tests
pub mod Chain
use dpkt_ng.Base.{
  ℕ, zero, suc, ◌+◌, ◌-◌, ◌*◌, ◌/◌, ◌==◌, Bool, true, false, Option, none, some, List, [], ◌∷◌, ltb,
  if◌then◌else◌, length, take, drop, get_or, get_elem?,
}
use dpkt_ng.Base.Bytes.{slice}
use dpkt_ng.Base.Results.{
  Outcome, returns, raises, need_data, struct_error, attribute_error, stuck, ◌>>=◌,
}
use dpkt_ng.Packet.Header.{Packet, unpack, init}
use dpkt_ng.Ip.{Transport, Payload, raw, or_raw}

-- An option of a header of options: type, opt_length, data
abbrev pub Ip6Option : Type 0
Ip6Option = ℕ × ℕ × List ℕ

-- The extension headers: the fields and data, and what the class adds
pub data Extension : Type 0 where
  options_header : Packet → List Ip6Option → Extension
  routing_header : Packet → List (List ℕ) → Extension
  fragment_header : Packet → Extension
  auth_header : Packet → List ℕ → Extension
  esp_header : Packet → Extension

-- ext.length, from the second field, which is the first byte of __hdr__ behind nxt
unfoldable pub ext_length : Extension → ℕ
ext_length (options_header p options) = (get_or p.fields 1 0 + 1) * 8
ext_length (routing_header p addresses) = get_or p.fields 1 0 * 8 + 8
ext_length (fragment_header p) = 8
ext_length (auth_header p auth_data) = (get_or p.fields 1 0 + 2) * 4
ext_length (esp_header p) = 8 + length p.data'

-- getattr(ext, 'nxt', None)
unfoldable pub ext_nxt : Extension → Option ℕ
ext_nxt (options_header p options) = some (get_or p.fields 0 0)
ext_nxt (routing_header p addresses) = some (get_or p.fields 0 0)
ext_nxt (fragment_header p) = some (get_or p.fields 0 0)
ext_nxt (auth_header p auth_data) = some (get_or p.fields 0 0)
ext_nxt (esp_header p) = none

-- ext.frag_off, the 13 high bits, which only the fragment header has
unfoldable pub frag_off : Extension → Option ℕ
frag_off (options_header p options) = none
frag_off (routing_header p addresses) = none
frag_off (fragment_header p) = some (get_or p.fields 2 0 / 8)
frag_off (auth_header p auth_data) = none
frag_off (esp_header p) = none

-- The loop over the options, with fuel. An IndexError becomes NeedData.
unfoldable pub read_ip6_options : ℕ → List ℕ → ℕ → ℕ → Outcome (List Ip6Option)
read_ip6_options zero content index size = raises stuck
read_ip6_options (suc n) content index size = elim (ltb index (size - 2)) [
  | false ↦ returns []
  | true ↦ elim (get_elem? content index) [
    | none ↦ raises need_data
    | some opt_type ↦ elim (opt_type == 0) [
      | true ↦ read_ip6_options n content (index + 1) size
      | false ↦ elim (get_elem? content (index + 1)) [
        | none ↦ raises need_data
        | some opt_length ↦
            let rest = read_ip6_options n content (index + (opt_length + 2)) size in
            if opt_type == 1
            then rest
            else (rest >>= λ options. returns (
                (opt_type, opt_length, slice (index + 2) (index + 2 + opt_length) content)
                ∷ options))
      ]
    ]
  ]
]

unfoldable pub options_fields : List ℕ → Packet → Outcome Extension
options_fields buf p =
    let size = (get_or p.fields 1 0 + 1) * 8 in
    (read_ip6_options (suc size) p.data' 0 size >>= λ options.
    returns (options_header (record p { data' = slice 2 size buf }) options))

-- IP6OptsHeader(buf)
unfoldable pub options_init : List ℕ → Outcome Extension
options_init buf = init (1 ∷ 1 ∷ []) buf (unpack (1 ∷ 1 ∷ []) buf >>= options_fields buf)

unfoldable pub read_addresses : ℕ → List ℕ → List (List ℕ)
read_addresses zero buf = []
read_addresses (suc n) buf = take 16 buf ∷ read_addresses n (drop 16 buf)

unfoldable pub routing_fields : List ℕ → Packet → Outcome Extension
routing_fields buf p =
    let count = get_or p.fields 1 0 / 2 in
    let content = slice 8 (8 + count * 16) buf in
    returns (routing_header (record p { data' = content }) (read_addresses count content))

-- IP6RoutingHeader(buf)
unfoldable pub routing_init : List ℕ → Outcome Extension
routing_init buf =
    init (1 ∷ 1 ∷ 1 ∷ 1 ∷ 4 ∷ []) buf (unpack (1 ∷ 1 ∷ 1 ∷ 1 ∷ 4 ∷ []) buf >>= routing_fields buf)

-- IP6FragmentHeader(buf)
unfoldable pub fragment_init : List ℕ → Outcome Extension
fragment_init buf =
    init (1 ∷ 1 ∷ 2 ∷ 4 ∷ []) buf
      (unpack (1 ∷ 1 ∷ 2 ∷ 4 ∷ []) buf >>= λ p. returns (fragment_header (record p { data' = [] })))

-- data[:(len - 1) * 4], which leaves out the last four bytes where len is 0
unfoldable pub auth_data_of : ℕ → List ℕ → List ℕ
auth_data_of len content =
    if len == 0 then take (length content - 4) content else take ((len - 1) * 4) content

-- IP6AHHeader(buf)
unfoldable pub auth_init : List ℕ → Outcome Extension
auth_init buf = init (1 ∷ 1 ∷ 2 ∷ 4 ∷ 4 ∷ []) buf (
    unpack (1 ∷ 1 ∷ 2 ∷ 4 ∷ 4 ∷ []) buf >>= λ p.
    returns (auth_header p (auth_data_of (get_or p.fields 1 0) p.data')))

-- IP6ESPHeader(buf)
unfoldable pub esp_init : List ℕ → Outcome Extension
esp_init buf = init (4 ∷ 4 ∷ []) buf (unpack (4 ∷ 4 ∷ []) buf >>= λ p. returns (esp_header p))

-- EXT_HDRS_CLS
unfoldable pub ext_parser : ℕ → Option (List ℕ → Outcome Extension)
ext_parser n =
    if n == 0
    then some options_init
    else if n == 43
    then some routing_init
    else if n == 44
    then some fragment_init
    else if n == 50
    then some esp_init
    else if n == 51
    then some auth_init
    else if n == 60
    then some options_init
    else none

unfoldable pub next_parser : Option ℕ → Option (List ℕ → Outcome Extension)
next_parser none = none
next_parser (some n) = ext_parser n

-- The extension headers, next_ext_hdr and buf behind the loop, which has fuel
unfoldable pub read_chain : ℕ → Option ℕ → List ℕ → Outcome (List Extension × Option ℕ × List ℕ)
read_chain zero nxt buf = raises stuck
read_chain (suc n) nxt buf = elim (next_parser nxt) [
  | none ↦ returns ([], nxt, buf)
  | some parse ↦ parse buf >>= λ ext.
      (read_chain n (ext_nxt ext) (drop (ext_length ext) buf) >>= λ rest.
      returns (ext ∷ rest.0, rest.1, rest.2))
]

pub record Ip6 (T : Type 0) : Type 0 where
  pub v_fc_flow : ℕ
  pub plen : ℕ
  pub nxt : ℕ
  pub hlim : ℕ
  pub src : List ℕ
  pub dst : List ℕ
  pub all_extension_headers : List Extension
  pub p : Option ℕ
  pub data' : Payload T

-- ext, the last extension header
unfoldable pub last_frag_off : List Extension → Option ℕ
last_frag_off [] = none
last_frag_off (ext ∷ []) = frag_off ext
last_frag_off (ext ∷ next ∷ exts) = last_frag_off (next ∷ exts)

module _ {T : Type 0} (t : Transport T) where
  -- self._protosw[next_ext_hdr](buf)
  unfoldable pub parse_next : Option ℕ → List ℕ → Outcome (Payload T)
  parse_next none buf = returns (raw buf)
  parse_next (some n) buf = elim (t.protosw n) [
    | none ↦ returns (raw buf)
    | some parse ↦ or_raw t buf (parse buf)
  ]

  -- Fragments behind the first are not decoded.
  unfoldable pub parse_payload : ℕ → List Extension × Option ℕ × List ℕ → Outcome (Payload T)
  parse_payload nxt chain = elim (nxt == 44) [
    | false ↦ parse_next chain.1 chain.2
    | true ↦ elim (last_frag_off chain.0) [
      | none ↦ raises attribute_error
      | some off ↦ if ltb 0 off then returns (raw chain.2) else parse_next chain.1 chain.2
    ]
  ]

  unfoldable pub ip6_fields : Packet → Outcome (Ip6 T)
  ip6_fields f =
      let plen = get_or f.fields 1 0 in
      let nxt = get_or f.fields 2 0 in
      let content = drop 32 f.data' in
      let buf = if plen == 0 then content else take plen content in
      (read_chain (suc (length buf)) (some nxt) buf >>= λ chain.
      (parse_payload nxt chain >>= λ data'. returns record {
        v_fc_flow = get_or f.fields 0 0;
        plen = plen;
        nxt = nxt;
        hlim = get_or f.fields 3 0;
        src = take 16 f.data';
        dst = slice 16 32 f.data';
        all_extension_headers = chain.0;
        p = chain.1;
        data' = data';
      }))

  -- struct.unpack reads the numbers and the two addresses, 40 bytes in all.
  unfoldable pub ip6_unpack : List ℕ → Outcome (Ip6 T)
  ip6_unpack buf =
      if ltb (length buf) 40
      then raises struct_error
      else (unpack (4 ∷ 2 ∷ 1 ∷ 1 ∷ []) buf >>= ip6_fields)

  -- IP6(buf)
  unfoldable pub ip6_init : List ℕ → Outcome (Ip6 T)
  ip6_init buf = init (4 ∷ 2 ∷ 1 ∷ 1 ∷ 16 ∷ 16 ∷ []) buf (ip6_unpack buf)
