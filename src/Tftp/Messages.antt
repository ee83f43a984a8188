-- ===== src/Tftp/Messages.antt =====
-- Whole messages of TFTP of dpkt/tftp.py: what bytes() writes is read back, and what is read can be written.
use mathlib.Core.List.{append-nil}
use dpkt_ng.Base.{
  ℕ, suc, ◌<◌, ◌==◌, ◌≡◌, refl, ap, ◌∙◌, true, false, ◌||◌, ◌⊎◌, some, List, [], ◌∷◌, ◌++◌, ltb,
  length, take, drop, get_or, arith,
}
use dpkt_ng.Base.Bytes.{be_bytes}
use dpkt_ng.Base.Results.{attribute, returns, ◌>>=◌}
use dpkt_ng.Base.Split.{Plain, split, join, split_part, split_one, split-join}
use dpkt_ng.Packet.Header.{init, hdr_len}
use dpkt_ng.Packet.Struct.{struct_unpack}
use dpkt_ng.Packet.Struct.Fields.{
  Fits, nothing, field, fields_bytes, struct_pack-Fits, pack_hdr-Fits, unpack-Fits,
  struct_unpack-Fits,
}
use dpkt_ng.Tftp.{
  Options, Tftp, has_option, tftp_sizes, tftp_new, read_request, read_acceptance, read_block,
  read_failure, read_content, tftp_unpack, tftp_init, item_parts, request_bytes, acceptance_bytes,
  block_bytes, failure_bytes, content_bytes, tftp_bytes,
}
use dpkt_ng.Tftp.Items.{
  AreItems, item_parts-AllPlain, read_options-item_parts, read_pairs-item_parts,
}

abbrev pub request : ℕ → List ℕ → List ℕ → Options → Tftp
request op name mode options = record tftp_new {
  opcode = op;
  filename = some name;
  mode = some mode;
  options = options;
}

abbrev pub numbered : ℕ → ℕ → List ℕ → Tftp
numbered op n d = record tftp_new { opcode = op; block = some n; data' = d }

abbrev pub failure : ℕ → List ℕ → Tftp
failure n text = record tftp_new { opcode = 5; errcode = some n; errmsg = some text }

-- The messages that have an encoding of their own
pub data IsMessage : Tftp → Type 0 where
  -- a request to read or to write
  asking :
      (op : ℕ) (name mode : List ℕ) (options : Options)
      → ((op == 1) || (op == 2)) ≡ true
      → Plain name
      → Plain mode
      → AreItems [] options
      → IsMessage (request op name mode options)
  -- an option acknowledgment
  accepting :
      (item : List ℕ × List ℕ) (options : Options)
      → AreItems [] (item ∷ options)
      → IsMessage (record tftp_new { opcode = 6; options = item ∷ options })
  -- the same without options: data without an end
  unread : (d : List ℕ) → Plain d → IsMessage (record tftp_new { opcode = 6; data' = d })
  -- data, or an acknowledgment
  sending :
      (op n : ℕ) (d : List ℕ)
      → ((op == 3) || (op == 4)) ≡ true
      → n < 65536
      → IsMessage (numbered op n d)
  failing : (n : ℕ) (text : List ℕ) → n < 65536 → Plain text → IsMessage (failure n text)
  other :
      (op : ℕ) (d : List ℕ)
      → op < 65536
      → (op ≡ 0) ⊎ (6 < op)
      → IsMessage (record tftp_new { opcode = op; data' = d })

-- The bytes of a message, which are read as that message
abbrev pub HasBytes : Tftp → Type 0
HasBytes t = (bytes : List ℕ) × (tftp_bytes t ≡ returns bytes) × (tftp_init bytes ≡ returns t)

framed :
    (t : Tftp) (content : List ℕ)
    → t.opcode < 65536
    → content_bytes t ≡ returns content
    → read_content (record tftp_new { opcode = t.opcode; data' = content ++ t.data' }) ≡ returns t
    → HasBytes t
unfolding tftp_bytes tftp_init tftp_unpack init
framed t content h c r = (
  front ++ (content ++ t.data'),
  rw (c, pack_hdr-Fits fits),
  ap (init tftp_sizes (front ++ (content ++ t.data'))) (
      ap
        (λ o. o >>= λ p.
          read_content (record tftp_new { opcode = get_or p.fields 0 0; data' = p.data' }))
        (unpack-Fits (content ++ t.data') fits)
      ∙ r),
)
  where
    front : List ℕ
    front = fields_bytes (2 ∷ []) (t.opcode ∷ [])

    fits : Fits (2 ∷ []) (t.opcode ∷ [])
    fits = field h nothing

number-Fits : (n : ℕ) → n < 65536 → Fits (2 ∷ []) (n ∷ [])
number-Fits n h = field h nothing

-- A number of two bytes before the rest
two_bytes :
    (n : ℕ) (rest : List ℕ)
    → n < 65536
    → (struct_unpack (2 ∷ []) (take 2 (fields_bytes (2 ∷ []) (n ∷ []) ++ rest)) ≡ returns (n ∷ []))
      × (drop 2 (fields_bytes (2 ∷ []) (n ∷ []) ++ rest) ≡ rest)
unfolding hdr_len be_bytes
two_bytes n rest h = (struct_unpack-Fits [] rest 2 (field h nothing) refl, refl)

module _ (op : ℕ) (name mode : List ℕ) (options : Options)
    (e : ((op == 1) || (op == 2)) ≡ true) where
  request_content : List ℕ
  request_content = join 0 (name ∷ mode ∷ item_parts options) ++ (0 ∷ [])

  request_small : op < 65536
  request_small = ground arith

  request_written : content_bytes (request op name mode options) ≡ returns request_content
  unfolding content_bytes request_bytes attribute request_content tftp_new
  request_written = rw e

  request_read :
      (d : List ℕ)
      → split 0 d ≡ name ∷ mode ∷ (item_parts options ++ ([] ∷ []))
      → AreItems [] options
      → read_content (record tftp_new { opcode = op; data' = d })
        ≡ returns (request op name mode options)
  unfolding read_content read_request tftp_new has_option
  request_read d parts a = rw (e, parts, read_options-item_parts [] options [] (λ key. refl) a)

  request-HasBytes :
      Plain name → Plain mode → AreItems [] options → HasBytes (request op name mode options)
  unfolding tftp_new request_content
  request-HasBytes n m a =
      framed (request op name mode options) request_content request_small request_written (
        request_read (request_content ++ [])
          (ap (split 0) (append-nil request_content)
            ∙ split-join name (mode ∷ item_parts options)
                (n, (m, item_parts-AllPlain [] options a)))
          a)

two_parts : (n : ℕ) → ltb 1 (suc (suc n)) ≡ true
two_parts n = ground arith

acceptance-HasBytes :
    (item : List ℕ × List ℕ) (options : Options)
    → AreItems [] (item ∷ options)
    → HasBytes (record tftp_new { opcode = 6; options = item ∷ options })
unfolding content_bytes read_content read_acceptance acceptance_bytes tftp_new item_parts has_option
    join
acceptance-HasBytes (k, v) options a = framed _ content (omega arith) refl (
    rw (
      parts,
      two_parts (length (item_parts options ++ ([] ∷ []))),
      read_pairs-item_parts [] ((k, v) ∷ options) [] (λ key. refl) a,
    ))
  where
    content : List ℕ
    content = join 0 (k ∷ v ∷ item_parts options) ++ (0 ∷ [])

    parts : split 0 (content ++ []) ≡ k ∷ v ∷ (item_parts options ++ ([] ∷ []))
    parts =
        ap (split 0) (append-nil content)
        ∙ split-join k (v ∷ item_parts options) (item_parts-AllPlain [] ((k, v) ∷ options) a)

unread-HasBytes : (d : List ℕ) → Plain d → HasBytes (record tftp_new { opcode = 6; data' = d })
unfolding content_bytes read_content read_acceptance acceptance_bytes tftp_new
unread-HasBytes d h = framed _ [] (omega arith) refl (rw (split_one d h))

module _ (op n : ℕ) (e : ((op == 3) || (op == 4)) ≡ true) (h : n < 65536) where
  numbered_first : ((op == 1) || (op == 2)) ≡ false
  numbered_first = ground arith

  numbered_second : (op == 6) ≡ false
  numbered_second = ground arith

  numbered_written :
      (d : List ℕ) → content_bytes (numbered op n d) ≡ returns (fields_bytes (2 ∷ []) (n ∷ []))
  unfolding content_bytes block_bytes attribute tftp_new
  numbered_written d = rw (numbered_first, numbered_second, e, struct_pack-Fits (number-Fits n h))

  numbered_read :
      (d : List ℕ)
      → read_content (record tftp_new { opcode = op; data' = fields_bytes (2 ∷ []) (n ∷ []) ++ d })
        ≡ returns (numbered op n d)
  unfolding read_content read_block tftp_new
  numbered_read d =
      rw (numbered_first, numbered_second, e, (two_bytes n d h).0, (two_bytes n d h).1)

  numbered-HasBytes : (d : List ℕ) → HasBytes (numbered op n d)
  unfolding tftp_new
  numbered-HasBytes d =
      framed (numbered op n d) (fields_bytes (2 ∷ []) (n ∷ [])) (ground arith) (numbered_written d)
        (numbered_read d)

failure-HasBytes : (n : ℕ) (text : List ℕ) → n < 65536 → Plain text → HasBytes (failure n text)
unfolding content_bytes failure_bytes attribute read_content read_failure tftp_new
failure-HasBytes n text h p =
    framed (failure n text) (number ++ (text ++ (0 ∷ []))) (omega arith)
      (rw (struct_pack-Fits (number-Fits n h)))
      (ap (λ d. read_content (record tftp_new { opcode = 5; data' = d })) whole
        ∙ rw (
          (two_bytes n (text ++ (0 ∷ [])) h).0,
          (two_bytes n (text ++ (0 ∷ [])) h).1,
          split_part text [] p,
        ))
  where
    number : List ℕ
    number = fields_bytes (2 ∷ []) (n ∷ [])

    whole : (number ++ (text ++ (0 ∷ []))) ++ [] ≡ number ++ (text ++ (0 ∷ []))
    whole = append-nil (number ++ (text ++ (0 ∷ [])))

module _ (op : ℕ) (e : (op ≡ 0) ⊎ (6 < op)) where
  pub other_first : ((op == 1) || (op == 2)) ≡ false
  other_first = ground arith

  pub other_second : (op == 6) ≡ false
  other_second = ground arith

  pub other_third : ((op == 3) || (op == 4)) ≡ false
  other_third = ground arith

  pub other_fourth : (op == 5) ≡ false
  other_fourth = ground arith

  other-HasBytes : (d : List ℕ) → op < 65536 → HasBytes (record tftp_new { opcode = op; data' = d })
  unfolding content_bytes read_content tftp_new
  other-HasBytes d h =
      framed (record tftp_new { opcode = op; data' = d }) [] h
        (rw (other_first, other_second, other_third, other_fourth))
        (rw (other_first, other_second, other_third, other_fourth))

-- For every message that IsMessage describes, bytes() returns and TFTP of the bytes gives the
-- message again: requests with name, mode and options, option acknowledgments, data and
-- acknowledgments, errors, and other opcodes with data. Names, keys, values and texts have no 0 in
-- them, keys are not empty and all different, and numbers fit two bytes.
pub tftp_bytes-tftp_init :
    (t : Tftp)
    → IsMessage t
    → (bytes : List ℕ) × (tftp_bytes t ≡ returns bytes) × (tftp_init bytes ≡ returns t)
tftp_bytes-tftp_init t (asking op name mode options e n m a) =
    request-HasBytes op name mode options e n m a
tftp_bytes-tftp_init t (accepting item options a) = acceptance-HasBytes item options a
tftp_bytes-tftp_init t (unread d p) = unread-HasBytes d p
tftp_bytes-tftp_init t (sending op n d e h) = numbered-HasBytes op n e h d
tftp_bytes-tftp_init t (failing n text h p) = failure-HasBytes n text h p
tftp_bytes-tftp_init t (other op d h e) = other-HasBytes op e d h
