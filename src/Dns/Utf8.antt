-- ===== src/Dns/Utf8.antt =====
-- bytes.decode('utf-8') as dpkt/dns.py uses it: a text is the list of its UTF-8 bytes, so that decoding
-- changes nothing and refuses overlong forms, surrogates, what is above U+10FFFF and what is cut off.
use dpkt_ng.Base.{
  ℕ, zero, suc, Bool, true, false, ◌&&◌, Option, none, some, List, [], ◌∷◌, leb, ltb, ◌==◌,
  if◌then◌else◌,
}

-- How many bytes follow a first byte, and between which bounds the next one lies
unfoldable pub utf8_lead : ℕ → Option (ℕ × ℕ × ℕ)
utf8_lead b =
    if ltb b 0x80
    then some (0, 0x80, 0xbf)
    else if ltb b 0xc2
    then none
    else if ltb b 0xe0
    then some (1, 0x80, 0xbf)
    else if b == 0xe0
    then some (2, 0xa0, 0xbf)
    else if b == 0xed
    then some (2, 0x80, 0x9f)
    else if ltb b 0xf0
    then some (2, 0x80, 0xbf)
    else if b == 0xf0
    then some (3, 0x90, 0xbf)
    else if ltb b 0xf4
    then some (3, 0x80, 0xbf)
    else if b == 0xf4
    then some (3, 0x80, 0x8f)
    else none

-- Inside a character, of which so many bytes are to come
unfoldable pub utf8_from : ℕ → ℕ → ℕ → List ℕ → Bool
utf8_from zero low high [] = true
utf8_from zero low high (b ∷ bytes) = elim (utf8_lead b) [
  | none ↦ false
  | some (n, low', high') ↦ utf8_from n low' high' bytes
]
utf8_from (suc n) low high [] = false
utf8_from (suc n) low high (b ∷ bytes) = (leb low b && leb b high) && utf8_from n 0x80 0xbf bytes

unfoldable pub is_utf8 : List ℕ → Bool
is_utf8 bytes = utf8_from 0 0x80 0xbf bytes
