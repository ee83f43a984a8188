-- ===== src/Tcp/Options.antt =====
-- parse_opts of dpkt/tcp.py: the options behind the TCP header.
pub mod Written
use dpkt_ng.Base.{
  ℕ, zero, suc, max, Option, none, some, List, [], ◌∷◌, ltb, if◌then◌else◌, length, drop,
}
use dpkt_ng.Base.Bytes.{slice}
use dpkt_ng.Base.Results.{Outcome, returns, raises, stuck, ◌>>=◌}

-- An option's type and data; None stands for one that cannot be read.
abbrev pub Entry : Type 0
Entry = Option (ℕ × List ℕ)

-- A type above 1 is followed by a length, which counts both; without it the loop is left, so that no
-- bytes are left to read.
unfoldable pub sized_option : ℕ → List ℕ → Entry × List ℕ
sized_option o [] = (none, [])
sized_option o (l ∷ rest) =
    let l_ = max 2 l in (some (o, slice 2 l_ (o ∷ l ∷ rest)), drop l_ (o ∷ l ∷ rest))

-- One round: the entry that it appends, and what is left of the buffer
unfoldable pub read_option : ℕ → List ℕ → Entry × List ℕ
read_option o rest = if ltb 1 o then sized_option o rest else (some (o, []), rest)

unfoldable pub parse_opts_from : ℕ → List ℕ → Outcome (List Entry)
parse_opts_from fuel [] = returns []
parse_opts_from zero (o ∷ rest) = raises stuck
parse_opts_from (suc fuel) (o ∷ rest) =
    let round = read_option o rest in
    parse_opts_from fuel round.1 >>= λ opts. returns (round.0 ∷ opts)

-- A round takes a byte at least.
unfoldable pub parse_opts : List ℕ → Outcome (List Entry)
parse_opts buf = parse_opts_from (length buf) buf
