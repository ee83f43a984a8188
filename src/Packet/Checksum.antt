-- ===== src/Packet/Checksum.antt =====
-- The Internet checksum of dpkt/dpkt.py, with ntole of dpkt/compat.py.
pub mod Rfc
pub mod Verify
use dpkt_ng.Base.{
  ℕ, ◌+◌, ◌-◌, ◌*◌, ◌/◌, ◌%◌, List, [], ◌∷◌, ◌==◌, if◌then◌else◌, length, take, get_or,
}

-- The two bytes of a big-endian word, read as a little-endian one
unfoldable pub ntole : ℕ → ℕ
ntole v = v / 256 + v % 256 * 256

-- sum(struct.unpack('<{}H'.format(n // 2), buf)) of 2 * (n // 2) bytes
unfoldable pub sum_words : List ℕ → ℕ
sum_words [] = 0
sum_words (a ∷ []) = 0
sum_words (a ∷ b ∷ rest) = a + b * 256 + sum_words rest

unfoldable pub in_cksum_add : ℕ → List ℕ → ℕ
in_cksum_add s buf =
    let n = length buf in
    let cnt = n / 2 * 2 in
    let res = s + sum_words (take cnt buf) in if cnt == n then res else res + get_or buf (n - 1) 0

-- `~s & 0xffff` is 0xffff less the low 16 bits.
unfoldable pub in_cksum_done : ℕ → ℕ
in_cksum_done s =
    let s = s / 65536 + s % 65536 in let s = s + s / 65536 in ntole (65535 - s % 65536)

unfoldable pub in_cksum : List ℕ → ℕ
in_cksum buf = in_cksum_done (in_cksum_add 0 buf)
