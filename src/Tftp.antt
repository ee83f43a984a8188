-- ===== src/Tftp.antt =====
-- class TFTP of dpkt/tftp.py. options, a dict, is the association list of its items in their order; an
-- attribute that only some opcodes set is an Option.
mod Tests
pub mod Items
pub mod Messages
pub mod Reading
use dpkt_ng.Base.{
  ℕ, ◌==◌, Bool, true, false, ◌&&◌, ◌||◌, Option, none, some, List, [], ◌∷◌, ◌++◌, ltb, list_eq,
  if◌then◌else◌, length, take, drop, get_or,
}
use dpkt_ng.Base.Split.{split, join}
use dpkt_ng.Base.Results.{Outcome, returns, raises, unpack_error, attribute, ◌>>=◌}
use dpkt_ng.Packet.Header.{Packet, unpack, init, pack_hdr}
use dpkt_ng.Packet.Struct.{struct_pack, struct_unpack}

abbrev pub Options : Type 0
Options = List (List ℕ × List ℕ)

pub record Tftp : Type 0 where
  pub opcode : ℕ
  pub options : Options
  pub strict : Bool
  pub filename : Option (List ℕ)
  pub mode : Option (List ℕ)
  pub block : Option ℕ
  pub errcode : Option ℕ
  pub errmsg : Option (List ℕ)
  pub data' : List ℕ

abbrev pub tftp_sizes : List ℕ
tftp_sizes = 2 ∷ []

-- TFTP(), as __init__ leaves it
unfoldable pub tftp_new : Tftp
tftp_new = record {
  opcode = 1;
  options = [];
  strict = false;
  filename = none;
  mode = none;
  block = none;
  errcode = none;
  errmsg = none;
  data' = [];
}

-- self.options[key] = val: a key that is there keeps its place.
unfoldable pub set_option : List ℕ → List ℕ → Options → Options
set_option key val [] = (key, val) ∷ []
set_option key val ((k, v) ∷ options) =
    let rest = set_option key val options in
    if list_eq k key then (k, val) ∷ options else (k, v) ∷ rest

-- self.options.get(name, default)
unfoldable pub get_option : List ℕ → Option (List ℕ) → Options → Option (List ℕ)
get_option name default [] = default
get_option name default ((k, v) ∷ options) =
    if list_eq k name then some v else get_option name default options

-- key in self.options
unfoldable pub has_option : List ℕ → Options → Bool
has_option key [] = false
has_option key ((k, v) ∷ options) = list_eq k key || has_option key options

-- The key without a value: the last part where an odd number of parts follows the mode
unfoldable pub read_orphan : Bool → List ℕ → Options → Outcome Options
read_orphan strict key options =
    if length key == 0 || has_option key options
    then returns options
    else if strict
    then raises unpack_error
    else returns (set_option key [] options)

-- The loop over the parts behind the mode, and the check behind it
unfoldable pub read_options : Bool → List (List ℕ) → Options → Outcome Options
read_options strict [] options = returns options
read_options strict (key ∷ []) options = read_orphan strict key options
read_options strict (key ∷ val ∷ parts) options =
    let rest =
      read_options strict parts (if length key == 0 then options else set_option key val options) in
    if strict && (length key == 0) then raises unpack_error else rest

unfoldable pub read_request : Tftp → Outcome Tftp
read_request t =
    let parts = split 0 t.data' in
    (read_options t.strict (drop 2 parts) [] >>= λ options. returns (record t {
      filename = some (get_or parts 0 []);
      mode = some (get_or parts 1 []);
      options = options;
      data' = [];
    }))

-- The loop of OACK: what stands behind the pairs is not looked at.
unfoldable pub read_pairs : List (List ℕ) → Options → Options
read_pairs [] options = options
read_pairs (key ∷ []) options = options
read_pairs (key ∷ val ∷ parts) options =
    read_pairs parts (if length key == 0 then options else set_option key val options)

unfoldable pub read_acceptance : Tftp → Tftp
read_acceptance t =
    let parts = split 0 t.data' in
    if ltb 1 (length parts) then record t { options = read_pairs parts []; data' = [] } else t

unfoldable pub read_block : Tftp → Outcome Tftp
read_block t = struct_unpack (2 ∷ []) (take 2 t.data') >>= λ values.
    returns (record t { block = some (get_or values 0 0); data' = drop 2 t.data' })

unfoldable pub read_failure : Tftp → Outcome Tftp
read_failure t = struct_unpack (2 ∷ []) (take 2 t.data') >>= λ values. returns (record t {
  errcode = some (get_or values 0 0);
  errmsg = some (get_or (split 0 (drop 2 t.data')) 0 []);
  data' = [];
})

-- The branches of unpack on the opcode
unfoldable pub read_content : Tftp → Outcome Tftp
read_content t =
    if (t.opcode == 1) || (t.opcode == 2)
    then read_request t
    else if t.opcode == 6
    then returns (read_acceptance t)
    else if (t.opcode == 3) || (t.opcode == 4)
    then read_block t
    else if t.opcode == 5
    then read_failure t
    else returns t

-- t.unpack(buf)
unfoldable pub tftp_unpack : Tftp → List ℕ → Outcome Tftp
tftp_unpack t buf = unpack tftp_sizes buf >>= λ p.
    read_content (record t { opcode = get_or p.fields 0 0; data' = p.data' })

-- TFTP(buf)
unfoldable pub tftp_init : List ℕ → Outcome Tftp
tftp_init buf = init tftp_sizes buf (tftp_unpack tftp_new buf)

-- The keys and the values in the order of options.items()
unfoldable pub item_parts : Options → List (List ℕ)
item_parts [] = []
item_parts ((k, v) ∷ options) = k ∷ v ∷ item_parts options

unfoldable pub request_bytes : Tftp → Outcome (List ℕ)
request_bytes t = attribute t.filename >>= λ filename.
    (attribute t.mode >>= λ mode.
    returns (join 0 (filename ∷ mode ∷ item_parts t.options) ++ (0 ∷ [])))

unfoldable pub acceptance_bytes : Options → List ℕ
acceptance_bytes [] = []
acceptance_bytes (o ∷ options) = join 0 (item_parts (o ∷ options)) ++ (0 ∷ [])

unfoldable pub block_bytes : Tftp → Outcome (List ℕ)
block_bytes t = attribute t.block >>= λ block. struct_pack (2 ∷ []) (block ∷ [])

unfoldable pub failure_bytes : Tftp → Outcome (List ℕ)
failure_bytes t = attribute t.errcode >>= λ errcode.
    (struct_pack (2 ∷ []) (errcode ∷ []) >>= λ front.
    (attribute t.errmsg >>= λ errmsg. returns (front ++ (errmsg ++ (0 ∷ [])))))

-- What stands between the header and the data
unfoldable pub content_bytes : Tftp → Outcome (List ℕ)
content_bytes t =
    if (t.opcode == 1) || (t.opcode == 2)
    then request_bytes t
    else if t.opcode == 6
    then returns (acceptance_bytes t.options)
    else if (t.opcode == 3) || (t.opcode == 4)
    then block_bytes t
    else if t.opcode == 5
    then failure_bytes t
    else returns []

-- bytes(t)
unfoldable pub tftp_bytes : Tftp → Outcome (List ℕ)
tftp_bytes t = content_bytes t >>= λ content.
    (pack_hdr tftp_sizes (t.opcode ∷ []) >>= λ front. returns (front ++ (content ++ t.data')))
