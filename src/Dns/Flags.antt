-- ===== src/Dns/Flags.antt =====
-- The bits of DNS.op in dpkt/dns.py as the properties of class DNS read and write them.
pub mod View
use Prim.Native.Nat.{bit_and, bit_or}
use dpkt_ng.Base.{ℕ, ◌+◌, ◌-◌, ◌*◌, ◌/◌, ◌^◌, ◌==◌, Bool, true, false, if◌then◌else◌}

abbrev pub dns_qr : ℕ
dns_qr = 0x8000

abbrev pub dns_aa : ℕ
dns_aa = 0x0400

abbrev pub dns_tc : ℕ
dns_tc = 0x0200

abbrev pub dns_rd : ℕ
dns_rd = 0x0100

abbrev pub dns_ra : ℕ
dns_ra = 0x0080

abbrev pub dns_z : ℕ
dns_z = 0x0040

-- x & ~mask, where ~ is that of Python's integers: the bits of the mask are taken away.
unfoldable pub clear_bits : ℕ → ℕ → ℕ
clear_bits x mask = x - bit_and x mask

-- int((self.op & mask) == mask)
unfoldable pub get_flag : ℕ → ℕ → ℕ
get_flag mask op = if bit_and op mask == mask then 1 else 0

-- if v: self.op |= mask, else: self.op &= ~mask
unfoldable pub set_flag : ℕ → Bool → ℕ → ℕ
set_flag mask true op = bit_or op mask
set_flag mask false op = clear_bits op mask

unfoldable pub get_qr : ℕ → ℕ
get_qr op = get_flag dns_qr op

unfoldable pub set_qr : Bool → ℕ → ℕ
set_qr v op = set_flag dns_qr v op

unfoldable pub get_opcode : ℕ → ℕ
get_opcode op = bit_and (op / 2 ^ 11) 0xf

unfoldable pub set_opcode : ℕ → ℕ → ℕ
set_opcode v op = bit_or (clear_bits op 0x7800) (bit_and v 0xf * 2 ^ 11)

unfoldable pub get_aa : ℕ → ℕ
get_aa op = get_flag dns_aa op

unfoldable pub set_aa : Bool → ℕ → ℕ
set_aa v op = set_flag dns_aa v op

unfoldable pub get_tc : ℕ → ℕ
get_tc op = get_flag dns_tc op

unfoldable pub set_tc : Bool → ℕ → ℕ
set_tc v op = set_flag dns_tc v op

unfoldable pub get_rd : ℕ → ℕ
get_rd op = get_flag dns_rd op

unfoldable pub set_rd : Bool → ℕ → ℕ
set_rd v op = set_flag dns_rd v op

unfoldable pub get_ra : ℕ → ℕ
get_ra op = get_flag dns_ra op

unfoldable pub set_ra : Bool → ℕ → ℕ
set_ra v op = set_flag dns_ra v op

unfoldable pub get_zero : ℕ → ℕ
get_zero op = get_flag dns_z op

unfoldable pub set_zero : Bool → ℕ → ℕ
set_zero v op = set_flag dns_z v op

unfoldable pub get_rcode : ℕ → ℕ
get_rcode op = bit_and op 0xf

unfoldable pub set_rcode : ℕ → ℕ → ℕ
set_rcode v op = bit_or (clear_bits op 0xf) (bit_and v 0xf)
